-- ===== src/Services/Messaging.antt =====
-- src/messaging/messaging.module.ts: the messages of a conversation.
use zudue_api.Base.{String, Option, [], ◌∷◌}
use zudue_api.Json.{Json}
use zudue_api.Effect.{M}
use zudue_api.Json.{Json}
use zudue_api.Effect.Database.{run_as, db_rpc}
use zudue_api.Effect.Requests.{named, text_arg}

unfoldable pub ask : String → String → String → M (Option Json)
ask u partner_id text =
    run_as u
      (db_rpc (named "rpc_ask_question" (text_arg u ∷ text_arg partner_id ∷ text_arg text ∷ [])))

unfoldable pub reply : String → String → String → M (Option Json)
reply u conversation_id text = run_as u (
    db_rpc
      (named "rpc_partner_answer" (text_arg u ∷ text_arg conversation_id ∷ text_arg text ∷ [])))

unfoldable pub followup : String → String → String → M (Option Json)
followup u fan_id text =
    run_as u (db_rpc (named "rpc_partner_send_followup" (text_arg fan_id ∷ text_arg text ∷ [])))

-- The routes that write, with the path's `id` and the body.
pub data MessagingAction : Type 0 where
  post_ask : String → String → MessagingAction
  post_reply : String → String → MessagingAction
  post_followup : String → String → MessagingAction

unfoldable pub messaging : String → MessagingAction → M (Option Json)
unfolding ask followup reply
messaging u (post_ask p t) = ask u p t
messaging u (post_reply c t) = reply u c t
messaging u (post_followup f t) = followup u f t
