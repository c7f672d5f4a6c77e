-- ===== src/Realtime/Gateway/Joining.antt =====
-- How a connection of src/realtime/realtime.gateway.ts gets into the registry: the frames it sends and what
-- `authenticate` does once its token is verified.
use zudue_api.Base.{
  ℕ, ◌≡◌, refl, ap, ◌∙◌, String, true, false, not, Option, none, some, [], ◌∷◌, ◌++◌, arith, ◌==◌,
  if_by,
}
use zudue_api.Json.{Json, non_empty}
use zudue_api.Auth.{VerifiedToken, Verdict, accepted, unauthorized}
use zudue_api.Realtime.Types.{
  CloseCode, RealtimeOptions, evicted, ready, protocol, unavailable,
  unauthorized as unauthorized_code,
}
use zudue_api.Realtime.Socket.{SocketApi}
use zudue_api.Realtime.Gateway.{
  Conn, Gateway, modify, on_conn, close_conn, close_each, sockets_of, put_sockets, delete_conn,
}
use zudue_api.Realtime.Gateway.Handshake.{
  evict, expiry, admit, verified_conn, on_verified, ask_verifier, authenticate, Frame, binary,
  bad_json, value, Reaction, refuse, ignore, try_token, reaction, react, message_of, on_message,
}
use zudue_api.Realtime.Gateway.Teardown.{listens, modify_self}
use zudue_api.Realtime.Gateway.Quiet.{Hushes}
use zudue_api.Realtime.Gateway.Still.{
  facts, Calms, modify-IsStill, for_conns-IsStill, shut-Calms, close_conn-IsStill,
  send_conn-IsStill,
}
use zudue_api.Realtime.Gateway.Entries.{
  entry_holds, entry_holds-sockets_of, evict-holds, nodup-evict, nodup-sockets_of,
}
use zudue_api.Realtime.Gateway.Sound.{
  IsSound, still-IsSound, Unlisted, facts-Unlisted, modify-IsSound, register-IsSound,
}

module _ (api : SocketApi) where
  -- What `admit` does to the connection itself.
  named : VerifiedToken → ℕ → Conn api → Conn api
  named v now c = record c {
    auth_timer = false;
    user_id = some v.id;
    expires_at_ms = expiry api v now;
  }

  named-facts :
      (v : VerifiedToken) (now : ℕ) (c : Option (Conn api)) (u : Option String)
      → facts api c ≡ some (u, false)
      → facts api (on_conn api (named v now) c) ≡ some (some v.id, false)
  unfolding named facts on_conn
  named-facts v now none u h = cc
  named-facts v now (some c) u h = ground arith

  -- A connection that no entry holds and that is not being verified is admitted.
  admit-IsSound :
      (o : RealtimeOptions) (k : ℕ) (v : VerifiedToken) (now : ℕ) (u : Option String)
      (g : Gateway api)
      → Unlisted api k g
      → facts api (g.conns k) ≡ some (u, false)
      → (v.id == "") ≡ false
      → IsSound api g
      → IsSound api (admit api o k v now g)
  unfolding admit named Unlisted close_each
  admit-IsSound o k v now u g n f w s =
      let set = evict api o.max_per_user (sockets_of api v.id g.by_user) in
      let g1 = record g { pending = delete_conn api k g.pending } in
      let s1 : IsSound api g1 = record { own = s.own; once = s.once; fresh = s.fresh } in
      let g2 = modify api k (named v now) g1 in
      let g3 = close_each api evicted "too_many_connections" set.1 g2 in
      let still =
        for_conns-IsStill api _ set.1 g2 (shut-Calms api evicted "too_many_connections") in
      let same : g3.by_user ≡ g.by_user = still.quiet.same_users in
      let g4 = record g3 { by_user = put_sockets api v.id (set.0 ++ k ∷ []) g3.by_user } in
      let s4 : IsSound api g4 =
        register-IsSound api v.id k set.0 g3 (λ x. ap (entry_holds x k) same ∙ n x)
          (still.same_facts k
            ∙ ap (facts api) (modify_self api (named v now) k k g1 (ground arith))
            ∙ named-facts v now (g.conns k) u f)
          w
          (λ i h.
            ap (entry_holds v.id i) same
            ∙ entry_holds-sockets_of api v.id i g.by_user
                (evict-holds api i o.max_per_user (sockets_of api v.id g.by_user) h))
          (nodup-evict api o.max_per_user _ (nodup-sockets_of api v.id g.by_user s.once))
          (still-IsSound api g2 g3 still (modify-IsSound api (named v now) k g1 n s1)) in
      still-IsSound api g4 _ (send_conn-IsStill api o (ready o.ping_interval_ms) k g4) s4

  close_conn-IsSound :
      (code : CloseCode) (reason : String) (k : ℕ) (g : Gateway api)
      → IsSound api g
      → IsSound api (close_conn api code reason k g)
  close_conn-IsSound code reason k g s =
      still-IsSound api g _ (close_conn-IsStill api code reason k g) s

  -- A connection that is being verified is in no entry.
  verifying-Unlisted :
      (k : ℕ) (c : Conn api) (g : Gateway api)
      → g.conns k ≡ some c
      → c.verifying ≡ true
      → IsSound api g
      → Unlisted api k g
  unfolding facts
  verifying-Unlisted k c g e v s =
      facts-Unlisted api k g s (λ u h w. let f = ap (facts api) e in ground arith)

  verified_conn-IsSound :
      (o : RealtimeOptions) (k : ℕ) (v : VerifiedToken) (now : ℕ) (u : Option String)
      (c : Option (Conn api)) (g : Gateway api)
      → Unlisted api k g
      → facts api (g.conns k) ≡ some (u, false)
      → (v.id == "") ≡ false
      → IsSound api g
      → IsSound api (verified_conn api o k v now c g)
  unfolding verified_conn
  verified_conn-IsSound o k v now u none g n f w s = s
  verified_conn-IsSound o k v now u (some c) g n f w s =
      if_by (IsSound api) c.closed g _ (λ e. s)
        (λ e.
          if_by (IsSound api) (not g.healthy) _ _
            (λ h. close_conn-IsSound unavailable "realtime_unavailable" k g s)
            (λ h. admit-IsSound o k v now u g n f w s))

  stopped-facts :
      (c : Option (Conn api)) (d : Conn api)
      → c ≡ some d
      → facts api (on_conn api (λ x. record x { verifying = false }) c) ≡ some (d.user_id, false)
  unfolding on_conn facts
  stopped-facts none d e = cc
  stopped-facts (some c) d e = ground arith

  -- The end of a verification, with an answer whose user, if any, has an id.
  pub on_verified-IsSound :
      (o : RealtimeOptions) (k : ℕ) (v : Verdict VerifiedToken) (now : ℕ) (c : Conn api)
      (g : Gateway api)
      → g.conns k ≡ some c
      → c.verifying ≡ true
      → ((u : VerifiedToken) → v ≡ accepted u → (u.id == "") ≡ false)
      → IsSound api g
      → IsSound api (on_verified api o k v now g)
  unfolding on_verified Unlisted
  on_verified-IsSound o k v now c g e w id s =
      let f : Conn api → Conn api = λ x. record x { verifying = false } in
      let n = verifying-Unlisted k c g e w s in
      let s' = modify-IsSound api f k g n s in
      elim v
          as (λ x.
            ((u : VerifiedToken) → x ≡ accepted u → (u.id == "") ≡ false)
            → IsSound api (on_verified api o k x now g)) [
              | unauthorized reason ↦
                  λ i. close_conn-IsSound unauthorized_code _ k (modify api k f g) s'
              | accepted u ↦ λ i.
                  verified_conn-IsSound o k u now c.user_id (g.conns k) (modify api k f g) n
                    (ap (facts api) (modify_self api f k k g (ground arith))
                      ∙ stopped-facts (g.conns k) c e)
                    (i u refl) s'
            ]
        id

  -- Who may ask to be authenticated is in no entry.
  try_token-Unlisted :
      (f : Frame api) (k : ℕ) (t : Option Json) (c : Conn api) (g : Gateway api)
      → g.conns k ≡ some c
      → reaction api f c ≡ try_token t
      → IsSound api g
      → Unlisted api k g
  unfolding facts reaction
  try_token-Unlisted binary k t c g e r s = cc
  try_token-Unlisted bad_json k t c g e r s = cc
  try_token-Unlisted (value v) k t c g e r s =
      facts-Unlisted api k g s (λ u h w. let x = ap (facts api) e in ground arith)

  ask_verifier-IsSound :
      (t : Option String) (k : ℕ) (g : Gateway api)
      → Unlisted api k g
      → IsSound api g
      → IsSound api (ask_verifier api t k g).0
  unfolding ask_verifier
  ask_verifier-IsSound none k g n s = close_conn-IsSound unauthorized_code "missing_token" k g s
  ask_verifier-IsSound (some t) k g n s = modify-IsSound api _ k g n s

  react-IsSound :
      (r : Reaction api) (k : ℕ) (g : Gateway api)
      → ((t : Option Json) → r ≡ try_token t → Unlisted api k g)
      → IsSound api g
      → IsSound api (react api r k g).0
  unfolding react authenticate
  react-IsSound (refuse reason) k g n s = close_conn-IsSound protocol reason k g s
  react-IsSound ignore k g n s = s
  react-IsSound (try_token t) k g n s = ask_verifier-IsSound (non_empty t) k g (n t refl) s

  message_of-IsSound :
      (f : Frame api) (k : ℕ) (c : Option (Conn api)) (g g' : Gateway api)
      → g.conns k ≡ c
      → IsSound api g
      → g'.by_user ≡ g.by_user
      → IsSound api g'
      → IsSound api (message_of api f k c g').0
  unfolding message_of Unlisted
  message_of-IsSound f k none g g' e s b s' = s'
  message_of-IsSound f k (some c) g g' e s b s' =
      react-IsSound (reaction api f c) k g'
        (λ t r u. ap (entry_holds u k) b ∙ try_token-Unlisted f k t c g e r s u) s'

  pub on_message-IsSound :
      (f : Frame api) (k now : ℕ) (g : Gateway api)
      → IsSound api g
      → IsSound api (on_message api f k now g).0
  unfolding on_message modify Calms Hushes listens facts
  on_message-IsSound f k now g s =
      let g' = modify api k (λ c. record c { last_seen_ms = now }) g in
      message_of-IsSound f k (g.conns k) g g' refl s refl
        (still-IsSound api g g' (modify-IsStill api _ k g (λ c h. h, λ c. refl)) s)
