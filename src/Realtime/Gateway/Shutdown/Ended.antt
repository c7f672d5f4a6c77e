-- ===== src/Realtime/Gateway/Shutdown/Ended.antt =====
-- How `destroy` of src/realtime/realtime.gateway.ts ends.
use zudue_api.Base.{
  ℕ, ◌≡◌, refl, ap, ◌∙◌, Bool, true, false, ◌&&◌, Option, none, some, List, [], ◌∷◌, arith, nat_eq,
  holds, Bool-cases, inl, inr,
}
use zudue_api.Realtime.Types.{going_away}
use zudue_api.Realtime.Socket.{SocketApi}
use zudue_api.Realtime.Gateway.{
  Conn, Gateway, all_conns, close_all, close_each, delete_conn, for_conns, on_close, shut, leave,
  user_of,
}
use zudue_api.Realtime.Gateway.Teardown.{
  listens, for_conns-listens, shut-listens, shut-listens_any, modify-listens,
}
use zudue_api.Realtime.Gateway.Quiet.{Hushes, for_conns-IsQuiet}
use zudue_api.Realtime.Gateway.Shutdown.{
  Drain, finish, drain, Server, after_drain, destroy, drain_heard, socket_closes, drain_expires,
  drain_timeout, sockets_close,
}
use zudue_api.Realtime.Gateway.Shutdown.Drained.{open_conns}
use zudue_api.Realtime.Gateway.Shutdown.Doors.{
  is_waited_for, IsDraining, closing, destroy-IsDraining, closes-IsDraining, without-left_over,
  left_over-open,
}

module _ (api : SocketApi) (is_closed : api.Ws → Bool) where
  after_drain-gateway :
      (d : Drain) (s : Server api is_closed) → (after_drain api is_closed d s).gateway ≡ s.gateway
  unfolding after_drain
  after_drain-gateway d s = ground arith

  heard-gateway :
      (k : ℕ) (d : Option Drain) (s : Server api is_closed)
      → (drain_heard api is_closed k d s).gateway ≡ s.gateway
  unfolding drain_heard
  heard-gateway k none s = refl
  heard-gateway k (some d) s = after_drain-gateway _ s

  on_close-stays :
      (j k : ℕ) (g : Gateway api)
      → listens api (g.conns j) ≡ false
      → listens api ((on_close api k g).conns j) ≡ false
  unfolding on_close listens
  on_close-stays j k g h =
      let g' = record g {
        pending = delete_conn api k g.pending;
        by_user = leave api (user_of api (g.conns k)) k g.by_user;
      } in
      modify-listens api (λ c. record c { closed = true; auth_timer = false }) j k g' (λ c x. refl)
        h

  closes-stays :
      (j : ℕ) (ks : List ℕ) (s : Server api is_closed)
      → listens api (s.gateway.conns j) ≡ false
      → listens api ((sockets_close api is_closed ks s).gateway.conns j) ≡ false
  unfolding sockets_close socket_closes
  closes-stays j [] s h = h
  closes-stays j (k ∷ ks) s h = closes-stays j ks (socket_closes api is_closed k s) (
      ap (λ g. listens api (g.conns j))
        (heard-gateway k s.draining (record s { gateway = on_close api k s.gateway }))
      ∙ on_close-stays j k s.gateway h)

  expires-stays :
      (j : ℕ) (d : Option Drain) (s : Server api is_closed)
      → listens api (s.gateway.conns j) ≡ false
      → listens api ((drain_expires api is_closed d s).gateway.conns j) ≡ false
  unfolding drain_expires Hushes listens
  expires-stays j none s h = h
  expires-stays j (some d) s h =
      let f : Conn api → Conn api = λ c. record c { ws = api.terminate c.ws } in
      let q =
        for_conns-IsQuiet api f d.sockets s.gateway
          (λ c x. let t = api.terminate-is_open c.ws in ground arith) in
      let g' = for_conns api f d.sockets s.gateway in
      elim (Bool-cases d.timer) [
        | inl e ↦ rw (e) (
            ap (λ g. listens api (g.conns j))
              (after_drain-gateway (finish d) (record s { gateway = g' }))
            ∙ q.stays j h)
        | inr e ↦ rw (e) h
      ]

  destroy-gateway :
      (s : Server api is_closed) → (destroy api is_closed s).gateway ≡ closing api is_closed s
  unfolding destroy closing
  destroy-gateway s =
      let g = closing api is_closed s in
      after_drain-gateway (drain api is_closed (all_conns api g) g)
        (record s { gateway = g; upgrades = false; heartbeat = false })

  destroy-silences :
      (j : ℕ) (s : Server api is_closed)
      → holds j (all_conns api s.gateway) ≡ true
      → listens api ((destroy api is_closed s).gateway.conns j) ≡ false
  unfolding closing close_all close_each
  destroy-silences j s h =
      ap (λ g. listens api (g.conns j)) (destroy-gateway s)
      ∙ for_conns-listens api (shut api going_away "server_shutdown") j (all_conns api s.gateway)
          s.gateway (λ c e. shut-listens api going_away "server_shutdown" c)
          (shut-listens_any api going_away "server_shutdown" (s.gateway.conns j)) h

  expires-doors :
      (ls : List ℕ) (s : Server api is_closed)
      → IsDraining api is_closed ls s
      → (drain_timeout api is_closed s).wss_open ≡ false
  unfolding drain_timeout drain_expires after_drain finish
  expires-doors ls s i =
      rw (i.under_way) (let t = i.awaits.decided.1 in let d = i.doors in ground arith)

  closes-doors :
      (ks : List ℕ) (s : Server api is_closed)
      → s.wss_open ≡ true
      → (sockets_close api is_closed ks (destroy api is_closed s)).wss_open
        ≡ is_waited_for api is_closed ks
            (closing api is_closed s)
            (all_conns api (closing api is_closed s))
  closes-doors ks s o =
      let g = closing api is_closed s in
      let js = all_conns api g in
      let open_ones = open_conns api is_closed g js in
      let i =
        closes-IsDraining api is_closed ks open_ones (destroy api is_closed s)
          (destroy-IsDraining api is_closed s o) in
      let d = i.awaits.decided.0 in
      let c = ap (λ n. nat_eq n 0) i.awaits.counted in
      let w = without-left_over api is_closed ks open_ones in
      let l = left_over-open api is_closed ks g js in let x = i.doors in ground arith

  -- `destroy` comes to an end. Whatever sockets close after it, in whatever order: its promise is kept, and
  -- the server's doors are closed, exactly when each of the gateway's sockets has closed, and once the timer of
  -- `drain` has fired in any case. No socket that the gateway knew listens after the one or the other.
  pub destroy_ends :
      (s : Server api is_closed)
      → s.wss_open ≡ true
      → (ks : List ℕ) (j : ℕ)
      → ((sockets_close api is_closed ks (destroy api is_closed s)).wss_open
          ≡ is_waited_for api is_closed ks
              (closing api is_closed s)
              (all_conns api (closing api is_closed s)))
        × ((drain_timeout api is_closed
              (sockets_close api is_closed ks (destroy api is_closed s))).wss_open
            ≡ false)
        × ((holds j (all_conns api s.gateway)
              && listens api
                  ((sockets_close api is_closed ks (destroy api is_closed s)).gateway.conns j))
            ≡ false)
        × ((holds j (all_conns api s.gateway)
              && listens api (
                  (drain_timeout api is_closed
                      (sockets_close api is_closed ks (destroy api is_closed s))).gateway.conns
                    j))
            ≡ false)
  unfolding drain_timeout
  destroy_ends s o ks j =
      let ended = sockets_close api is_closed ks (destroy api is_closed s) in
      let ends = expires-doors _ ended (
        closes-IsDraining api is_closed ks _ (destroy api is_closed s)
          (destroy-IsDraining api is_closed s o)) in
      elim (Bool-cases (holds j (all_conns api s.gateway))) [
        | inl h ↦
            let silent = closes-stays j ks (destroy api is_closed s) (destroy-silences j s h) in
            let expired = expires-stays j ended.draining ended silent in
            (closes-doors ks s o, ends, ground arith, ground arith)
        | inr h ↦ (closes-doors ks s o, ends, ground arith, ground arith)
      ]
