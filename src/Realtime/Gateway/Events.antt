-- ===== src/Realtime/Gateway/Events.antt =====
-- `RealtimeGateway` of src/realtime/realtime.gateway.ts as the callbacks that come to it, in any order.
-- What the library does to a socket between callbacks (its buffer drains, the peer closes it) shows in the model
-- with the callback that follows.
use zudue_api.Base.{ℕ, String, Bool, false, Option, none, List, [], ◌∷◌}
use zudue_api.Auth.{VerifiedToken, Verdict}
use zudue_api.Realtime.Types.{CallChangedEvent, RealtimeOptions, resync}
use zudue_api.Realtime.Socket.{SocketApi}
use zudue_api.Realtime.Gateway.{Gateway, on_close}
use zudue_api.Realtime.Gateway.Delivery.{on_send_error, route, broadcast, tick, on_health}
use zudue_api.Realtime.Gateway.Handshake.{
  on_upgrade, Frame, on_message, on_auth_timeout, on_verified,
}

module _ (api : SocketApi) where
  open api use {Ws}

  pub data GatewayEvent : Type 0 where
    upgrade : String → Option Ws → ℕ → GatewayEvent
    message : Frame api → ℕ → ℕ → GatewayEvent
    verified : ℕ → Verdict VerifiedToken → ℕ → GatewayEvent
    auth_timed_out socket_closed send_failed : ℕ → GatewayEvent
    call_changed : CallChangedEvent → GatewayEvent
    resynced : GatewayEvent
    ping_due : ℕ → GatewayEvent
    health_changed : Bool → GatewayEvent

  -- The gateway before any callback.
  unfoldable pub new_gateway : Bool → Gateway api
  new_gateway enabled = record {
    conns = λ j. none;
    next = 0;
    pending = [];
    by_user = [];
    enabled = enabled;
    healthy = false;
    accepted_count = 0;
    refused = 0;
    events_in = 0;
    events_delivered = 0;
  }

  unfoldable pub handle : RealtimeOptions → GatewayEvent → Gateway api → Gateway api
  handle o (upgrade path ws now) g = (on_upgrade api o path ws now g).1
  handle o (message f k now) g = (on_message api f k now g).0
  handle o (verified k v now) g = on_verified api o k v now g
  handle o (auth_timed_out k) g = on_auth_timeout api k g
  handle o (socket_closed k) g = on_close api k g
  handle o (send_failed k) g = on_send_error api k g
  handle o (call_changed e) g = route api o e g
  handle o resynced g = broadcast api o resync g
  handle o (ping_due now) g = tick api o now g
  handle o (health_changed b) g = on_health api b g

  unfoldable pub handle_all : RealtimeOptions → List GatewayEvent → Gateway api → Gateway api
  unfolding handle
  handle_all o [] g = g
  handle_all o (e ∷ es) g = handle_all o es (handle o e g)
