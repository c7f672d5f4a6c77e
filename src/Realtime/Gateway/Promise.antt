-- ===== src/Realtime/Gateway/Promise.antt =====
-- What a connected socket of src/realtime/realtime.gateway.ts means, over every order of callbacks.
use zudue_api.Base.{
  ℕ, ◌≡◌, refl, sym, ap, ◌∙◌, String, Bool, true, false, not, Option, none, some, List, [], ◌∷◌,
  ◌++◌, arith, nat_eq, holds, Bool-cases, inl, inr, if◌then◌else◌, ◌==◌,
}
use zudue_api.Auth.{VerifiedToken, Verdict, accepted, unauthorized}
use zudue_api.Realtime.Types.{
  CloseCode, RealtimeOptions, resync, unavailable, auth_timeout, unauthorized as unauthorized_code,
}
use zudue_api.Realtime.Socket.{SocketApi}
use zudue_api.Realtime.Gateway.{
  Conn, Gateway, modify, on_conn, shut, close_conn, close_each, close_all, members, all_conns,
  delete_conn, user_of, leave, on_close,
}
use zudue_api.Realtime.Gateway.Delivery.{on_health}
use zudue_api.Realtime.Gateway.Handshake.{
  admit, verified_conn, on_verified, on_upgrade, upgrade_answer, handshake, on_connection,
  on_auth_timeout,
}
use zudue_api.Realtime.Gateway.Teardown.{
  listens, on_health-closed, modify_self, modify_other, shut-listens,
}
use zudue_api.Realtime.Gateway.Registry.{holds-append, holds-delete, holds-drop}
use zudue_api.Realtime.Gateway.Quiet.{
  Hushes, modify-IsQuiet, for_conns-IsQuiet, close_conn-IsQuiet, on_message-IsQuiet,
}
use zudue_api.Realtime.Gateway.Still.{
  on_send_error-IsStill, route-IsStill, broadcast-IsStill, tick-IsStill,
}
use zudue_api.Realtime.Gateway.Events.{
  GatewayEvent, upgrade, message, verified, auth_timed_out, socket_closed, send_failed,
  call_changed, resynced, ping_due, health_changed, new_gateway, handle, handle_all,
}
use zudue_api.Realtime.Gateway.Kept.{kept, quiet_kept, silent_kept, kept_by, if_kept}
use zudue_api.Realtime.Gateway.Admission.{admit-kept}

module _ (api : SocketApi) where
  open api use {Ws}

  upgrade_kept :
      (j : ℕ) (o : RealtimeOptions) (path : String) (ws : Option Ws) (now : ℕ) (g : Gateway api)
      → kept api j g ≡ true
      → kept api j (on_upgrade api o path ws now g).1 ≡ true
  unfolding on_upgrade upgrade_answer handshake on_connection kept all_conns listens
  upgrade_kept j o path none now g h = ground arith
  upgrade_kept j o path (some ws) now g h =
      let a = holds-append j (g.pending ++ g.next ∷ []) (members api g.by_user) in
      let b = holds-append j g.pending (g.next ∷ []) in
      let c = holds-append j g.pending (members api g.by_user) in ground arith

  on_health-stays :
      (j : ℕ) (g : Gateway api)
      → listens api (g.conns j) ≡ false
      → listens api ((on_health api false g).conns j) ≡ false
  unfolding on_health close_all close_each Hushes
  on_health-stays j g h =
      let q =
        for_conns-IsQuiet api (shut api unavailable "realtime_unavailable") (all_conns api g)
          (record g { healthy = false })
          (λ c x. shut-listens api unavailable "realtime_unavailable" c) in
      elim (Bool-cases g.healthy) [ inl e ↦ rw (e) (q.stays j h) | inr e ↦ rw (e) h ]

  on_health-listens :
      (j : ℕ) (g : Gateway api)
      → kept api j g ≡ true
      → listens api ((on_health api false g).conns j) ≡ false
  unfolding kept
  on_health-listens j g h = elim (Bool-cases (listens api (g.conns j))) [
    | inl l ↦ on_health-closed api j g (ground arith) (ground arith)
    | inr l ↦ on_health-stays j g l
  ]

  health_kept :
      (j : ℕ) (b : Bool) (g : Gateway api)
      → kept api j g ≡ true
      → kept api j (on_health api b g) ≡ true
  unfolding on_health kept all_conns
  health_kept j true g h = ground arith
  health_kept j false g h = silent_kept api j (on_health api false g) (on_health-listens j g h)

  closed-listens :
      (c : Option (Conn api))
      → listens api (on_conn api (λ c. record c { closed = true; auth_timer = false }) c) ≡ false
  unfolding listens on_conn
  closed-listens none = refl
  closed-listens (some c) = refl

  holds-leave :
      (j k : ℕ) (u : Option String) (m : List (String × List ℕ))
      → nat_eq k j ≡ false
      → holds j (members api (leave api u k m)) ≡ holds j (members api m)
  unfolding leave
  holds-leave j k none m n = refl
  holds-leave j k (some u) m n = elim (Bool-cases (u == "")) [
    | inl e ↦ rw (e) refl
    | inr e ↦ rw (e) (holds-drop api j k u m n)
  ]

  close_kept :
      (j k : ℕ) (g : Gateway api) → kept api j g ≡ true → kept api j (on_close api k g) ≡ true
  unfolding on_close kept all_conns
  close_kept j k g h =
      let before = record g {
        pending = delete_conn api k g.pending;
        by_user = leave api (user_of api (g.conns k)) k g.by_user;
      } in
      elim (Bool-cases (nat_eq k j)) [
        | inl n ↦
            silent_kept api j (on_close api k g)
              (ap (listens api) (modify_self api _ j k before n) ∙ closed-listens (g.conns j))
        | inr n ↦
            let c = ap (listens api) (
              modify_other api (λ c. record c { closed = true; auth_timer = false }) j k before
                n) in
            let p = holds-delete api j k g.pending n in
            let m = holds-leave j k (user_of api (g.conns k)) g.by_user n in
            let a = holds-append j g.pending (members api g.by_user) in
            let b =
              holds-append j (delete_conn api k g.pending)
                (members api (leave api (user_of api (g.conns k)) k g.by_user)) in
            kept_by api j g (on_close api k g) c refl (b ∙ ground arith ∙ sym a) h
      ]

  close_conn-kept :
      (j : ℕ) (code : CloseCode) (reason : String) (k : ℕ) (g : Gateway api)
      → kept api j g ≡ true
      → kept api j (close_conn api code reason k g) ≡ true
  close_conn-kept j code reason k g h =
      quiet_kept api j g (close_conn api code reason k g) (close_conn-IsQuiet api code reason k g) h

  verified_conn-kept :
      (j : ℕ) (o : RealtimeOptions) (k : ℕ) (v : VerifiedToken) (now : ℕ) (c : Option (Conn api))
      (g : Gateway api)
      → kept api j g ≡ true
      → kept api j (verified_conn api o k v now c g) ≡ true
  unfolding verified_conn
  verified_conn-kept j o k v now none g h = h
  verified_conn-kept j o k v now (some c) g h =
      if_kept api j c.closed g
        (if not g.healthy
          then close_conn api unavailable "realtime_unavailable" k g
          else admit api o k v now g)
        (λ e. h)
        (λ e.
          if_kept api j (not g.healthy) (close_conn api unavailable "realtime_unavailable" k g)
            (admit api o k v now g)
            (λ f. close_conn-kept j unavailable "realtime_unavailable" k g h)
            (λ f. admit-kept api j o k v now g (ground arith) h))

  verified_kept :
      (j : ℕ) (o : RealtimeOptions) (k : ℕ) (v : Verdict VerifiedToken) (now : ℕ) (g : Gateway api)
      → kept api j g ≡ true
      → kept api j (on_verified api o k v now g) ≡ true
  unfolding on_verified Hushes listens
  verified_kept j o k v now g h =
      let g' = modify api k (λ c. record c { verifying = false }) g in
      let h' =
        quiet_kept api j g g'
          (modify-IsQuiet api (λ c. record c { verifying = false }) k g (λ c x. x)) h in
      elim v as (λ x. kept api j (on_verified api o k x now g) ≡ true) [
        | unauthorized reason ↦
            close_conn-kept j unauthorized_code (if reason == "" then "unauthorized" else reason) k
              g' h'
        | accepted t ↦ verified_conn-kept j o k t now (g.conns k) g' h'
      ]

  handle-kept :
      (j : ℕ) (o : RealtimeOptions) (e : GatewayEvent api) (g : Gateway api)
      → kept api j g ≡ true
      → kept api j (handle api o e g) ≡ true
  unfolding handle on_auth_timeout
  handle-kept j o (upgrade path ws now) g h = upgrade_kept j o path ws now g h
  handle-kept j o (message f k now) g h = quiet_kept api j g _ (on_message-IsQuiet api f k now g) h
  handle-kept j o (verified k v now) g h = verified_kept j o k v now g h
  handle-kept j o (auth_timed_out k) g h = close_conn-kept j auth_timeout "auth_timeout" k g h
  handle-kept j o (socket_closed k) g h = close_kept j k g h
  handle-kept j o (send_failed k) g h = quiet_kept api j g _ (on_send_error-IsStill api k g).quiet h
  handle-kept j o (call_changed e) g h = quiet_kept api j g _ (route-IsStill api o e g).quiet h
  handle-kept j o resynced g h = quiet_kept api j g _ (broadcast-IsStill api o resync g).quiet h
  handle-kept j o (ping_due now) g h = quiet_kept api j g _ (tick-IsStill api o now g).quiet h
  handle-kept j o (health_changed b) g h = health_kept j b g h

  handle_all-kept :
      (j : ℕ) (o : RealtimeOptions) (es : List (GatewayEvent api)) (g : Gateway api)
      → kept api j g ≡ true
      → kept api j (handle_all api o es g) ≡ true
  unfolding handle_all
  handle_all-kept j o [] g h = h
  handle_all-kept j o (e ∷ es) g h =
      handle_all-kept j o es (handle api o e g) (handle-kept j o e g h)

  -- Whatever callbacks came, in whatever order: a connection that still listens is in the registry, pending
  -- or under a user, and the event source is healthy.
  pub listening_kept :
      (o : RealtimeOptions) (enabled : Bool) (es : List (GatewayEvent api)) (j : ℕ)
      → listens api ((handle_all api o es (new_gateway api enabled)).conns j) ≡ true
      → (handle_all api o es (new_gateway api enabled)).healthy ≡ true
        × holds j (all_conns api (handle_all api o es (new_gateway api enabled))) ≡ true
  unfolding new_gateway kept listens
  listening_kept o enabled es j h =
      let k = handle_all-kept j o es (new_gateway api enabled) refl in ground arith
