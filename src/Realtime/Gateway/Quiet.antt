-- ===== src/Realtime/Gateway/Quiet.antt =====
-- The changes by which `RealtimeGateway` of src/realtime/realtime.gateway.ts keeps its registry and its health,
-- and no connection begins to listen.
use zudue_api.Base.{ℕ, ◌≡◌, refl, ◌∙◌, String, false, Option, none, some, List, [], ◌∷◌}
use zudue_api.Json.{non_empty}
use zudue_api.Realtime.Types.{CloseCode, protocol, unauthorized}
use zudue_api.Realtime.Socket.{SocketApi}
use zudue_api.Realtime.Gateway.{Conn, Gateway, modify, shut, close_conn, for_conns}
use zudue_api.Realtime.Gateway.Handshake.{
  ask_verifier, authenticate, Reaction, refuse, ignore, try_token, reaction, react, message_of,
  on_message, Frame,
}
use zudue_api.Realtime.Gateway.Teardown.{listens, modify-listens, shut-listens}

module _ (api : SocketApi) where
  pub record IsQuiet (g g' : Gateway api) : Type 0 where
    pub same_pending : g'.pending ≡ g.pending
    pub same_users : g'.by_user ≡ g.by_user
    pub same_health : g'.healthy ≡ g.healthy
    pub stays : (j : ℕ) → listens api (g.conns j) ≡ false → listens api (g'.conns j) ≡ false

  pub IsQuiet-refl : (g : Gateway api) → IsQuiet g g
  IsQuiet-refl g = record {
    same_pending = refl;
    same_users = refl;
    same_health = refl;
    stays = λ j h. h;
  }

  pub IsQuiet-trans : (g g' g'' : Gateway api) → IsQuiet g g' → IsQuiet g' g'' → IsQuiet g g''
  IsQuiet-trans g g' g'' p q = record {
    same_pending = q.same_pending ∙ p.same_pending;
    same_users = q.same_users ∙ p.same_users;
    same_health = q.same_health ∙ p.same_health;
    stays = λ j h. q.stays j (p.stays j h);
  }

  -- A change of a connection that does not make it listen.
  unfoldable pub Hushes : (Conn api → Conn api) → Type 0
  Hushes f = (c : Conn api) → listens api (some c) ≡ false → listens api (some (f c)) ≡ false

  pub modify-IsQuiet :
      (f : Conn api → Conn api) (k : ℕ) (g : Gateway api) → Hushes f → IsQuiet g (modify api k f g)
  unfolding modify Hushes
  modify-IsQuiet f k g s = record {
    same_pending = refl;
    same_users = refl;
    same_health = refl;
    stays = λ j h. modify-listens api f j k g s h;
  }

  pub for_conns-IsQuiet :
      (f : Conn api → Conn api) (ks : List ℕ) (g : Gateway api)
      → Hushes f
      → IsQuiet g (for_conns api f ks g)
  unfolding for_conns
  for_conns-IsQuiet f [] g s = IsQuiet-refl g
  for_conns-IsQuiet f (k ∷ ks) g s =
      IsQuiet-trans g (modify api k f g) _ (modify-IsQuiet f k g s)
        (for_conns-IsQuiet f ks (modify api k f g) s)

  pub close_conn-IsQuiet :
      (code : CloseCode) (reason : String) (k : ℕ) (g : Gateway api)
      → IsQuiet g (close_conn api code reason k g)
  unfolding close_conn Hushes
  close_conn-IsQuiet code reason k g =
      modify-IsQuiet (shut api code reason) k g (λ c h. shut-listens api code reason c)

  ask_verifier-IsQuiet :
      (t : Option String) (k : ℕ) (g : Gateway api) → IsQuiet g (ask_verifier api t k g).0
  unfolding ask_verifier Hushes listens
  ask_verifier-IsQuiet none k g = close_conn-IsQuiet unauthorized "missing_token" k g
  ask_verifier-IsQuiet (some t) k g = modify-IsQuiet _ k g (λ c h. h)

  react-IsQuiet : (r : Reaction api) (k : ℕ) (g : Gateway api) → IsQuiet g (react api r k g).0
  unfolding react authenticate
  react-IsQuiet (refuse reason) k g = close_conn-IsQuiet protocol reason k g
  react-IsQuiet ignore k g = IsQuiet-refl g
  react-IsQuiet (try_token t) k g = ask_verifier-IsQuiet (non_empty t) k g

  message_of-IsQuiet :
      (f : Frame api) (k : ℕ) (c : Option (Conn api)) (g : Gateway api)
      → IsQuiet g (message_of api f k c g).0
  unfolding message_of
  message_of-IsQuiet f k none g = IsQuiet-refl g
  message_of-IsQuiet f k (some c) g = react-IsQuiet (reaction api f c) k g

  pub on_message-IsQuiet :
      (f : Frame api) (k now : ℕ) (g : Gateway api) → IsQuiet g (on_message api f k now g).0
  unfolding on_message Hushes listens
  on_message-IsQuiet f k now g =
      IsQuiet-trans g (modify api k (λ c. record c { last_seen_ms = now }) g) _
        (modify-IsQuiet _ k g (λ c h. h)) (message_of-IsQuiet f k (g.conns k) _)
