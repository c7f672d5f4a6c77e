-- ===== src/Realtime/Gateway/Run.antt =====
-- The runs of `RealtimeGateway` of src/realtime/realtime.gateway.ts with the verifier of src/auth/jwt.guard.ts.
use zudue_api.Base.{ℕ, ◌≡◌, refl, String, Bool, true, false, Option, none, some, if_by}
use zudue_api.Auth.{JoseResult, verify, verify_sound}
use zudue_api.Realtime.Types.{RealtimeOptions, unavailable, auth_timeout, resync}
use zudue_api.Realtime.Socket.{SocketApi}
use zudue_api.Realtime.Gateway.{Conn, Gateway, close_each, close_all, all_conns}
use zudue_api.Realtime.Gateway.Delivery.{on_health}
use zudue_api.Realtime.Gateway.Handshake.{
  on_upgrade, upgrade_answer, handshake, Upgrade, not_ours, refused_503, upgraded, on_auth_timeout,
}
use zudue_api.Realtime.Gateway.Still.{
  facts, for_conns-IsStill, shut-Calms, close_conn-IsStill, on_send_error-IsStill, route-IsStill,
  broadcast-IsStill, tick-IsStill,
}
use zudue_api.Realtime.Gateway.Events.{
  GatewayEvent, upgrade, message, verified, auth_timed_out, socket_closed, send_failed,
  call_changed, resynced, ping_due, health_changed, new_gateway, handle,
}
use zudue_api.Realtime.Gateway.Sound.{
  IsSound, still-IsSound, on_close-IsSound, on_connection-IsSound,
}
use zudue_api.Realtime.Gateway.Joining.{on_message-IsSound, on_verified-IsSound}

module _ (api : SocketApi) where
  open api use {Ws}

  -- Whether a callback is the end of a verification.
  unfoldable pub ends_verification : GatewayEvent api → Bool
  ends_verification (verified k v now) = true
  ends_verification _ = false

  -- One callback. A verification ends only on a connection that waits for one, with what the verifier says of
  -- some token; `verifying` is set just before its await and cleared just after.
  pub data Step (o : RealtimeOptions) (jwt_verify : String → JoseResult)
      : Gateway api → Gateway api → Type 0 where
    callback :
        (g : Gateway api) (e : GatewayEvent api)
        → ends_verification e ≡ false
        → Step o jwt_verify g (handle api o e g)
    token_checked :
        (g : Gateway api) (k : ℕ) (c : Conn api) (token : String) (now : ℕ)
        → g.conns k ≡ some c
        → c.verifying ≡ true
        → Step o jwt_verify g (handle api o (verified k (verify jwt_verify token) now) g)

  pub data Reach (o : RealtimeOptions) (jwt_verify : String → JoseResult) (start : Gateway api)
      : Gateway api → Type 0 where
    here : Reach o jwt_verify start start
    next :
        {g g' : Gateway api}
        → Reach o jwt_verify start g
        → Step o jwt_verify g g'
        → Reach o jwt_verify start g'

  handshake-IsSound :
      (a : Upgrade api) (ws : Option Ws) (now : ℕ) (g : Gateway api)
      → IsSound api g
      → IsSound api (handshake api a ws now g)
  unfolding handshake
  handshake-IsSound not_ours ws now g s = s
  handshake-IsSound refused_503 ws now g s = record { own = s.own; once = s.once; fresh = s.fresh }
  handshake-IsSound upgraded none now g s = s
  handshake-IsSound upgraded (some ws) now g s = on_connection-IsSound api ws now g s

  on_health-IsSound : (b : Bool) (g : Gateway api) → IsSound api g → IsSound api (on_health api b g)
  unfolding on_health close_all close_each
  on_health-IsSound true g s =
      if_by (IsSound api) g.healthy g _ (λ e. s)
        (λ e. record { own = s.own; once = s.once; fresh = s.fresh })
  on_health-IsSound false g s =
      let g' = record g { healthy = false } in
      if_by (IsSound api) g.healthy _ g
        (λ e.
          still-IsSound api g' _
            (for_conns-IsStill api _ (all_conns api g) g'
              (shut-Calms api unavailable "realtime_unavailable"))
            (record { own = s.own; once = s.once; fresh = s.fresh }))
        (λ e. s)

  handle-IsSound :
      (o : RealtimeOptions) (e : GatewayEvent api) (g : Gateway api)
      → ends_verification e ≡ false
      → IsSound api g
      → IsSound api (handle api o e g)
  unfolding handle ends_verification on_upgrade on_auth_timeout
  handle-IsSound o (upgrade path ws now) g v s =
      handshake-IsSound (upgrade_answer api o path g) ws now g s
  handle-IsSound o (message f k now) g v s = on_message-IsSound api f k now g s
  handle-IsSound o (verified k x now) g v s = cc
  handle-IsSound o (auth_timed_out k) g v s =
      still-IsSound api g _ (close_conn-IsStill api auth_timeout "auth_timeout" k g) s
  handle-IsSound o (socket_closed k) g v s = on_close-IsSound api k g s
  handle-IsSound o (send_failed k) g v s = still-IsSound api g _ (on_send_error-IsStill api k g) s
  handle-IsSound o (call_changed e) g v s = still-IsSound api g _ (route-IsStill api o e g) s
  handle-IsSound o resynced g v s = still-IsSound api g _ (broadcast-IsStill api o resync g) s
  handle-IsSound o (ping_due now) g v s = still-IsSound api g _ (tick-IsStill api o now g) s
  handle-IsSound o (health_changed b) g v s = on_health-IsSound b g s

  Step-IsSound :
      {o : RealtimeOptions} {jwt_verify : String → JoseResult} {g g' : Gateway api}
      → Step o jwt_verify g g'
      → IsSound api g
      → IsSound api g'
  unfolding handle
  Step-IsSound (callback g e v) s = handle-IsSound _ e g v s
  Step-IsSound {jwt_verify = jwt_verify} (token_checked g k c token now e w) s =
      on_verified-IsSound api _ k (verify jwt_verify token) now c g e w
        (λ u a. verify_sound jwt_verify token u a) s

  new_gateway-IsSound : (enabled : Bool) → IsSound api (new_gateway api enabled)
  unfolding new_gateway facts
  new_gateway-IsSound enabled = record { own = λ u j e. cc; once = refl; fresh = λ j l. refl }

  pub Reach-IsSound :
      {o : RealtimeOptions} {jwt_verify : String → JoseResult} (enabled : Bool) {g : Gateway api}
      → Reach o jwt_verify (new_gateway api enabled) g
      → IsSound api g
  Reach-IsSound enabled here = new_gateway-IsSound enabled
  Reach-IsSound enabled (next r s) = Step-IsSound s (Reach-IsSound enabled r)
