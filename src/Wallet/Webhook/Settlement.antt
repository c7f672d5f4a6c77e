-- ===== src/Wallet/Webhook/Settlement.antt =====
-- When a webhook (src/wallet/wallet.service.ts) moves money, and what it leaves behind when it fails.
use zudue_api.Base.{
  ◌≡◌, refl, String, Bool, true, false, ◌&&◌, Option, none, some, List, [], ◌∷◌, arith,
}
use zudue_api.Json.{is_text, same, Json, null, prop}
use zudue_api.Effect.{Env, History, err, Reply, answer, fail, history, thrown, Error, bad_request}
use zudue_api.Effect.Requests.{rpc, rpc_verify_topup, FetchedPayment, fetch_payment}
use zudue_api.Effect.Database.{run_as_service, db_rpc}
use zudue_api.Effect.History.{surviving, IsRefusal, run_as_service_refused}
use zudue_api.Wallet.Webhook.{
  handle_body, log_and_handle, handle_event, settle_payment, other_event, confirms, handle_webhook,
  verify_webhook_signature,
}

abbrev confirmed : Option Json → Reply FetchedPayment → Bool
confirmed order_id (answer p) = is_text "captured" p.status && same p.order_id order_id
confirmed order_id (fail e) = false

-- The request before the settlement fetched this very payment, and the provider confirmed it for the order.
abbrev pub IsCrossChecked : Env → Option Json → Option Json → History → Type 0
IsCrossChecked env order_id payment_id (fetch_payment p ∷ h) =
    (p ≡ payment_id) × (confirmed order_id (env (fetch_payment p) h) ≡ true)
IsCrossChecked env order_id payment_id _ = ⊥

-- Every settlement of a top-up was cross-checked with the provider.
abbrev pub SettlementsChecked : Env → History → Type 0
SettlementsChecked env [] = Unit {0}
SettlementsChecked env (rpc (rpc_verify_topup o p) ∷ h) =
    IsCrossChecked env o p h × SettlementsChecked env h
SettlementsChecked env (r ∷ h) = SettlementsChecked env h

settle_payment-checked :
    (event : Json) (row : String) (env : Env) (h : History)
    → SettlementsChecked env h
    → SettlementsChecked env (history (settle_payment event row env h))
unfolding settle_payment db_rpc confirms
settle_payment-checked event row env h p = ground arith

other_event-checked :
    (name : Option Json) (event : Json) (row : String) (env : Env) (h : History)
    → SettlementsChecked env h
    → SettlementsChecked env (history (other_event name event row env h))
unfolding other_event db_rpc
other_event-checked name event row env h p = ground arith

handle_event-checked :
    (event : Json) (rows : List String) (env : Env) (h : History)
    → SettlementsChecked env h
    → SettlementsChecked env (history (handle_event event rows env h))
unfolding handle_event
handle_event-checked event [] env h p = p
handle_event-checked event (row ∷ rows) env h p = ground (
  arith,
  settle_payment-checked event row env h,
  other_event-checked (prop "event" event) event row env h,
)

handle_body-checked :
    (body : Option Json) (env : Env) (h : History)
    → SettlementsChecked env h
    → SettlementsChecked env (history (handle_body body env h))
unfolding handle_body run_as_service
handle_body-checked none env h p = p
handle_body-checked (some event) env h p = grind (arith, handle_event-checked)

settle_payment-undone :
    (event : Json) (row : String) (env : Env) (h : History)
    → surviving true (history (settle_payment event row env h)) ≡ surviving true h
unfolding settle_payment db_rpc surviving
settle_payment-undone event row env h = ground arith

other_event-undone :
    (name : Option Json) (event : Json) (row : String) (env : Env) (h : History)
    → surviving true (history (other_event name event row env h)) ≡ surviving true h
unfolding other_event db_rpc surviving
other_event-undone name event row env h = ground arith

handle_event-undone :
    (event : Json) (rows : List String) (env : Env) (h : History)
    → surviving true (history (handle_event event rows env h)) ≡ surviving true h
unfolding handle_event
handle_event-undone event [] env h = refl
handle_event-undone event (row ∷ rows) env h = ground (
  arith,
  settle_payment-undone event row env h,
  other_event-undone (prop "event" event) event row env h,
)

log_and_handle-undone :
    (event : Json) (env : Env) (h : History)
    → surviving true (history (log_and_handle event env h)) ≡ surviving true h
unfolding log_and_handle surviving
log_and_handle-undone event env h = grind (arith, handle_event-undone)

handle_body_refused :
    (body : Option Json) (env : Env) (h : History) (e : Error)
    → thrown (handle_body body env h) ≡ some e
    → IsRefusal e
    → surviving false (history (handle_body body env h)) ≡ surviving false h
unfolding handle_body
handle_body_refused none env h e t r = refl
handle_body_refused (some null) env h e t r = refl
handle_body_refused (some event) env h e t r =
    run_as_service_refused (log_and_handle event) env h e (log_and_handle-undone event env) t r

module _ {Body : Type 0} (hmac : String → Body → String) (parse : Body → Option Json) where
  -- `handleWebhook` settles a payment for an order only right after that very payment was fetched from the
  -- provider, which reported it as captured and for that order, whatever the body of the webhook says.
  pub handle_webhook-checked :
      (secret : String) (body : Body) (signature : String) (env : Env) (h : History)
      → SettlementsChecked env h
      → SettlementsChecked env (history (handle_webhook hmac parse secret body signature env h))
  unfolding handle_webhook
  handle_webhook-checked secret body signature env h p =
      ground (arith, handle_body-checked (parse body) env h p)

  -- No request is made, to the database or to anyone, for a body that is not signed with the secret.
  pub handle_webhook_unsigned :
      (secret : String) (body : Body) (signature : String) (env : Env) (h : History)
      → verify_webhook_signature hmac parse secret body signature ≡ false
      → handle_webhook hmac parse secret body signature env h
        ≡ err (bad_request "INVALID_SIGNATURE") h
  unfolding handle_webhook
  handle_webhook_unsigned secret body signature env h p = rw p

  -- A webhook that is refused leaves no write behind, since the refusal rolls its transaction back: the
  -- log row of the event is gone again, and so is the mark FAILED of a failed cross-check.
  pub handle_webhook_refused :
      (secret : String) (body : Body) (signature : String) (env : Env) (h : History) (e : Error)
      → thrown (handle_webhook hmac parse secret body signature env h) ≡ some e
      → IsRefusal e
      → surviving false (history (handle_webhook hmac parse secret body signature env h))
        ≡ surviving false h
  unfolding handle_webhook
  handle_webhook_refused secret body signature env h e t r =
      ground (arith, handle_body_refused (parse body) env h e)
