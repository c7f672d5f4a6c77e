-- ===== src/Tests/Gateway.antt =====
-- The theorems on src/realtime/realtime.gateway.ts at a gateway with three connections.
use zudue_api.Base.{
  ◌==◌, not, ◌&&◌, ◌||◌, List, holds, ℕ, zero, suc, ◌-◌, ◌≤◌, ◌≡◌, refl, sym, ap, String, Bool,
  true, false, Option, none, some, [], ◌∷◌, ◌++◌, arith, nat_eq, length, if◌then◌else◌,
}
use zudue_api.Auth.{
  VerifiedToken, accepted, Payload, JoseResult, verified as jose_verified, failed, verify,
}
use zudue_api.Json.{obj, field, str, end, non_empty, is_object, is_text, prop}
use zudue_api.Realtime.Types.{RealtimeOptions, default_realtime_options}
use zudue_api.Realtime.Socket.{SocketApi}
use zudue_api.Realtime.Gateway.{
  Conn, Gateway, put_sockets, close_each, sockets_of, all_conns, members, modify, on_conn,
  close_all, delete_conn,
}
use zudue_api.Realtime.Gateway.Delivery.{
  route, tick, on_health, deliver_users, deliver_each, tick_conn, send_conn,
}
use zudue_api.Realtime.Gateway.Handshake.{admit, evict, on_upgrade}
use zudue_api.Realtime.Gateway.Teardown.{listens, tick-silenced}
use zudue_api.Realtime.Gateway.Admission.{admit-bounded}
use zudue_api.Realtime.Gateway.Events.{
  GatewayEvent, upgrade, message, verified, call_changed, ping_due, health_changed, new_gateway,
  handle, handle_all,
}
use zudue_api.Realtime.Gateway.Handshake.{
  on_verified, verified_conn, upgrade_answer, handshake, on_connection, Frame, value, on_message,
  message_of, reaction, react, authenticate, ask_verifier,
}
use zudue_api.Realtime.Gateway.Promise.{listening_kept}
use zudue_api.Realtime.Gateway.Run.{Reach, here, next, callback, token_checked, ends_verification}
use zudue_api.Realtime.Gateway.Fanout.{told, concerns, is_of, route-told}
use zudue_api.Realtime.Gateway.Shutdown.{
  Server, destroy, sockets_close, socket_closes, drain_heard, drain_timeout, heard, after_drain,
  drain, watch, count_down, finish, is_gone,
}
use zudue_api.Realtime.Gateway.Shutdown.Doors.{is_waited_for, closing}
use zudue_api.Realtime.Gateway.Shutdown.Ended.{destroy_ends}
use zudue_api.Tests.Realtime.{change}

record Line : Type 0 where
  opened : Bool
  buffered : ℕ
  frames : ℕ

keep : ℕ → String → String
keep zero s = String.[]
keep (suc n) String.[] = String.[]
keep (suc n) (String.◌∷◌ c s) = String.◌∷◌ c (keep n s)

skip : ℕ → String → String
skip zero s = s
skip (suc n) String.[] = String.[]
skip (suc n) (String.◌∷◌ c s) = skip n s

hang_up : Line → Line
hang_up w = record w { opened = false }

abbrev opened_of : Option Line → Bool
opened_of none = false
opened_of (some w) = w.opened

abbrev lines : SocketApi
lines = record {
  Ws = Line;
  is_open = λ w. w.opened;
  buffered_amount = λ w. w.buffered;
  close = λ c r w. some (record w { opened = false });
  terminate = λ w. record w { opened = false };
  send = λ m w. record w { frames = suc w.frames };
  slice = λ s a b. keep (b - a) (skip a s);
  close-is_open = λ c r w w' e. sym (ap opened_of e);
  terminate-is_open = λ w. refl;
}

abbrev peer : Line
peer = record { opened = true; buffered = 0; frames = 1 }

abbrev conn_of : Option String → Conn lines
conn_of u = record {
  ws = peer;
  user_id = u;
  expires_at_ms = 60000;
  last_seen_ms = 30000;
  auth_timer = false;
  verifying = false;
  closed = false;
}

-- The fan holds 0, another user holds 1, and 2 is pending.
abbrev switchboard : Gateway lines
switchboard = record {
  conns = λ j.
      if nat_eq j 0
      then some (conn_of (some "f"))
      else if nat_eq j 1
      then some (conn_of (some "x"))
      else if nat_eq j 2
      then some (conn_of none)
      else none;
  next = 3;
  pending = 2 ∷ [];
  by_user = ("f", 0 ∷ []) ∷ ("x", 1 ∷ []) ∷ [];
  enabled = true;
  healthy = true;
  accepted_count = 3;
  refused = 0;
  events_in = 0;
  events_delivered = 0;
}

abbrev fan_token : VerifiedToken
fan_token = record { id = "f"; email = none; exp = some 90 }

abbrev one_each : RealtimeOptions
one_each = record default_realtime_options { max_per_user = 1 }

tick-silenced_example :
    listens lines ((tick lines default_realtime_options 60000 switchboard).conns 0) ≡ false
unfolding members
tick-silenced_example =
    tick-silenced lines default_realtime_options 60000 0 (conn_of (some "f")) switchboard refl refl
      refl

admit-bounded_example :
    length (sockets_of lines "f" (admit lines one_each 2 fan_token 40000 switchboard).by_user) ≤ 1
    × (evict lines 1 (sockets_of lines "f" switchboard.by_user)).1
        ++ sockets_of lines "f" (admit lines one_each 2 fan_token 40000 switchboard).by_user
      ≡ sockets_of lines "f" switchboard.by_user ++ 2 ∷ []
    × (holds 0 (evict lines 1 (sockets_of lines "f" switchboard.by_user)).1
        && listens lines ((admit lines one_each 2 fan_token 40000 switchboard).conns 0))
      ≡ false
    × sockets_of lines "x" (admit lines one_each 2 fan_token 40000 switchboard).by_user
      ≡ sockets_of lines "x" switchboard.by_user
admit-bounded_example =
    admit-bounded lines one_each 2 fan_token 40000 "x" 0 switchboard (omega arith) refl

-- The fan connects, sends a token, is verified and is told of a change.
abbrev connected : List (GatewayEvent lines)
connected =
    health_changed true
    ∷ upgrade "/v1/realtime" (some peer) 1000
    ∷ verified 0 (accepted fan_token) 2000
    ∷ call_changed change
    ∷ ping_due 3000
    ∷ []

listening_kept_example :
    (handle_all lines default_realtime_options connected (new_gateway lines true)).healthy ≡ true
    × holds 0 (
        all_conns lines
          (handle_all lines default_realtime_options connected (new_gateway lines true)))
      ≡ true
unfolding handle_all handle new_gateway on_health upgrade_answer handshake on_connection on_upgrade
    on_verified verified_conn admit route tick listens deliver_users deliver_each sockets_of
    put_sockets close_each tick_conn
listening_kept_example = listening_kept lines default_realtime_options true connected 0 refl

abbrev fan_payload : Payload
fan_payload = record { sub = some "f"; email = none; exp = some 90 }

abbrev issuer : String → JoseResult
issuer token = if token == "secret" then jose_verified fan_payload else failed none

-- What the fan sends first.
abbrev auth_frame : Frame lines
auth_frame = value (obj (field "type" (str "auth") (field "token" (str "secret") end)))

abbrev started : Gateway lines
started = new_gateway lines true

abbrev ready_to_serve : Gateway lines
ready_to_serve = handle lines default_realtime_options (health_changed true) started

abbrev opened : Gateway lines
opened =
    handle lines default_realtime_options (upgrade "/v1/realtime" (some peer) 1000) ready_to_serve

abbrev asked : Gateway lines
asked = handle lines default_realtime_options (message auth_frame 0 1500) opened

abbrev listening : Gateway lines
listening = handle lines default_realtime_options (verified 0 (verify issuer "secret") 2000) asked

abbrev asking : Conn lines
asking = record {
  ws = peer;
  user_id = none;
  expires_at_ms = 0;
  last_seen_ms = 1500;
  auth_timer = true;
  verifying = true;
  closed = false;
}

asked-conn : asked.conns 0 ≡ some asking
unfolding handle new_gateway on_health on_upgrade upgrade_answer handshake on_connection on_message
    message_of reaction react authenticate ask_verifier modify on_conn non_empty is_object is_text
    prop
asked-conn = refl

listening-reached : Reach lines default_realtime_options issuer started listening
unfolding ends_verification
listening-reached =
    next
      (next
        (next (next here (callback started (health_changed true) refl))
          (callback ready_to_serve (upgrade "/v1/realtime" (some peer) 1000) refl))
        (callback opened (message auth_frame 0 1500) refl))
      (token_checked asked 0 asking "secret" 2000 asked-conn refl)

route-told_example :
    ((route lines default_realtime_options change listening).conns 0
      ≡ told lines default_realtime_options change listening 0)
    × ((not (concerns lines change 0 listening)
          || is_of lines "f" (listening.conns 0)
          || is_of lines "p" (listening.conns 0))
        ≡ true)
route-told_example =
    route-told lines default_realtime_options issuer true listening listening-reached change 0

listening-concerned : concerns lines change 0 listening ≡ true
unfolding concerns handle on_verified verified_conn admit sockets_of put_sockets close_each
    send_conn verify new_gateway on_health on_upgrade upgrade_answer handshake on_connection
    on_message message_of reaction react authenticate ask_verifier modify on_conn non_empty
    is_object is_text prop
listening-concerned = refl

-- None is CLOSED at once.
abbrev is_hung_up : Line → Bool
is_hung_up w = false

abbrev serving : Server lines is_hung_up
serving = record {
  gateway = switchboard;
  upgrades = true;
  heartbeat = true;
  stats_timer = true;
  source_running = true;
  wss_open = true;
  draining = none;
}

-- Two of the three sockets have closed, in another order than that of the registry.
destroy_ends_example :
    ((sockets_close lines is_hung_up (1 ∷ 2 ∷ []) (destroy lines is_hung_up serving)).wss_open
      ≡ is_waited_for lines is_hung_up
          (1 ∷ 2 ∷ [])
          (closing lines is_hung_up serving)
          (all_conns lines (closing lines is_hung_up serving)))
    × ((drain_timeout lines is_hung_up
          (sockets_close lines is_hung_up (1 ∷ 2 ∷ []) (destroy lines is_hung_up serving))).wss_open
        ≡ false)
    × ((holds 0 (all_conns lines switchboard)
          && listens lines (
              (sockets_close lines is_hung_up
                  (1 ∷ 2 ∷ [])
                  (destroy lines is_hung_up serving)).gateway.conns
                0))
        ≡ false)
    × ((holds 0 (all_conns lines switchboard)
          && listens lines (
              (drain_timeout lines is_hung_up (
                  sockets_close lines is_hung_up
                    (1 ∷ 2 ∷ [])
                    (destroy lines is_hung_up serving))).gateway.conns
                0))
        ≡ false)
destroy_ends_example = destroy_ends lines is_hung_up serving refl (1 ∷ 2 ∷ []) 0

destroy-waits :
    (sockets_close lines is_hung_up (1 ∷ 2 ∷ []) (destroy lines is_hung_up serving)).wss_open ≡ true
    × ((sockets_close lines is_hung_up (0 ∷ 2 ∷ 1 ∷ []) (destroy lines is_hung_up serving)).wss_open
        ≡ false)
unfolding destroy sockets_close socket_closes drain_heard heard after_drain drain watch count_down
    finish is_gone close_all close_each all_conns delete_conn
destroy-waits = (refl, refl)
