-- ===== src/Realtime/Gateway/Delivery.antt =====
-- `RealtimeGateway` of src/realtime/realtime.gateway.ts: what it sends, to whom, and its heartbeat.
use zudue_api.Base.{
  ℕ, ◌+◌, ◌-◌, ◌*◌, String, Bool, true, false, not, Option, none, some, List, [], ◌∷◌, ltb, leb,
  ◌==◌, if◌then◌else◌,
}
use zudue_api.Realtime.Types.{
  unavailable, unauthorized, CallChangedEvent, ServerMessage, ping, call_changed, RealtimeOptions,
}
use zudue_api.Realtime.Socket.{SocketApi}
use zudue_api.Realtime.Gateway.{
  Conn, Gateway, modify, for_conns, shut, members, close_all, sockets_of,
}

module _ (api : SocketApi) where
  open api use {Ws, is_open, buffered_amount, terminate, send}

  -- `send`: whether the frame was handed to the socket. A peer that does not read is torn down.
  unfoldable pub send_ws : RealtimeOptions → ServerMessage → Ws → Ws × Bool
  send_ws o msg w =
      if not (is_open w)
      then (w, false)
      else if ltb o.max_buffered_bytes (buffered_amount w)
      then (terminate w, false)
      else (send msg w, true)

  was_sent : RealtimeOptions → ServerMessage → Option (Conn api) → Bool
  unfolding send_ws
  was_sent o msg none = false
  was_sent o msg (some c) = (send_ws o msg c.ws).1

  unfoldable pub send_conn : RealtimeOptions → ServerMessage → ℕ → Gateway api → Gateway api × Bool
  unfolding modify send_ws was_sent
  send_conn o msg k g =
      (modify api k (λ c. record c { ws = (send_ws o msg c.ws).0 }) g, was_sent o msg (g.conns k))

  -- The callback of `ws.send` when it is given an error.
  unfoldable pub on_send_error : ℕ → Gateway api → Gateway api
  unfolding modify
  on_send_error k g = modify api k (λ c. record c { ws = terminate c.ws }) g

  unfoldable pub deliver_one : RealtimeOptions → ServerMessage → ℕ → Gateway api → Gateway api
  unfolding send_conn
  deliver_one o msg k g =
      let (g', sent) = send_conn o msg k g in
      record g' { events_delivered = if sent then g'.events_delivered + 1 else g'.events_delivered }

  -- The inner loop of `route`, which counts what was delivered.
  unfoldable pub deliver_each : RealtimeOptions → ServerMessage → List ℕ → Gateway api → Gateway api
  unfolding deliver_one
  deliver_each o msg [] g = g
  deliver_each o msg (k ∷ ks) g = deliver_each o msg ks (deliver_one o msg k g)

  -- `new Set([fanId, partnerId])`
  unfoldable pub parties_of : CallChangedEvent → List String
  parties_of e = if e.fan_id == e.partner_id then e.fan_id ∷ [] else e.fan_id ∷ e.partner_id ∷ []

  unfoldable pub deliver_users :
      RealtimeOptions → ServerMessage → List String → Gateway api → Gateway api
  deliver_users o msg [] g = g
  deliver_users o msg (u ∷ us) g =
      deliver_users o msg us (deliver_each o msg (sockets_of api u g.by_user) g)

  unfoldable pub route : RealtimeOptions → CallChangedEvent → Gateway api → Gateway api
  unfolding parties_of
  route o e g =
      deliver_users o (call_changed e.message) (parties_of e)
        (record g { events_in = g.events_in + 1 })

  unfoldable pub send_each : RealtimeOptions → ServerMessage → List ℕ → Gateway api → Gateway api
  send_each o msg [] g = g
  send_each o msg (k ∷ ks) g = send_each o msg ks (send_conn o msg k g).0

  unfoldable pub broadcast : RealtimeOptions → ServerMessage → Gateway api → Gateway api
  unfolding members
  broadcast o msg g = send_each o msg (members api g.by_user) g

  -- What `tick` does to one connection. `deadAfter` is 2.5 times the interval.
  unfoldable pub tick_conn : RealtimeOptions → ℕ → Conn api → Conn api
  unfolding shut send_ws
  tick_conn o now c =
      if leb c.expires_at_ms now
      then shut api unauthorized "token_expired" c
      else if ltb (5 * o.ping_interval_ms) (2 * (now - c.last_seen_ms))
      then record c { ws = terminate c.ws }
      else record c { ws = (send_ws o ping c.ws).0 }

  unfoldable pub tick : RealtimeOptions → ℕ → Gateway api → Gateway api
  unfolding for_conns members
  tick o now g = for_conns api (tick_conn o now) (members api g.by_user) g

  unfoldable pub on_health : Bool → Gateway api → Gateway api
  on_health true g = if g.healthy then g else record g { healthy = true }
  on_health false g =
      if g.healthy
      then close_all api unavailable "realtime_unavailable" (record g { healthy = false })
      else g
