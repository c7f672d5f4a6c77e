-- ===== src/Realtime/Gateway/Handshake.antt =====
-- `RealtimeGateway` of src/realtime/realtime.gateway.ts: the upgrade, the frames of a client and its
-- authentication. Each handler stands for one callback up to its next await.
use zudue_api.Base.{
  ℕ, suc, ◌+◌, ◌*◌, String, Bool, true, false, not, ◌||◌, Option, none, some, List, [], ◌∷◌, ◌++◌,
  leb, nat_eq, length, ◌==◌, if◌then◌else◌,
}
use zudue_api.Json.{Json, prop, is_object, is_text, non_empty}
use zudue_api.Auth.{VerifiedToken, Verdict, accepted, unauthorized}
use zudue_api.Realtime.Types.{
  unavailable, protocol, unauthorized as unauthorized_code, auth_timeout, evicted, ready,
  RealtimeOptions,
}
use zudue_api.Realtime.Socket.{SocketApi}
use zudue_api.Realtime.Gateway.{
  Conn, Gateway, modify, close_conn, close_each, sockets_of, put_sockets, delete_conn,
}
use zudue_api.Realtime.Gateway.Delivery.{send_conn}

-- `NO_EXPIRY_CAP_MS`
abbrev pub no_expiry_cap_ms : ℕ
no_expiry_cap_ms = 60 * 60 * 1000

module _ (api : SocketApi) where
  open api use {Ws}

  -- `onConnection`, of a socket that the handshake has just opened.
  unfoldable pub on_connection : Ws → ℕ → Gateway api → Gateway api
  on_connection ws now g = record g {
    conns = λ j.
        if nat_eq g.next j
        then some (record {
          ws = ws;
          user_id = none;
          expires_at_ms = 0;
          last_seen_ms = now;
          auth_timer = true;
          verifying = false;
          closed = false;
        })
        else g.conns j;
    next = g.next + 1;
    pending = g.pending ++ g.next ∷ [];
    accepted_count = g.accepted_count + 1;
  }

  -- The answer to an upgrade request. `not_ours`: the socket is left to other listeners, or destroyed where there is
  -- none, and the gateway does nothing with it.
  pub data Upgrade : Type 0 where
    not_ours refused_503 upgraded : Upgrade

  unfoldable pub upgrade_answer : RealtimeOptions → String → Gateway api → Upgrade
  upgrade_answer o path g =
      if not (path == "/v1/realtime")
      then not_ours
      else if not g.enabled || not g.healthy || leb o.max_pending (length g.pending)
      then refused_503
      else upgraded

  unfoldable pub handshake : Upgrade → Option Ws → ℕ → Gateway api → Gateway api
  unfolding on_connection
  handshake not_ours ws now g = g
  handshake refused_503 ws now g = record g { refused = g.refused + 1 }
  handshake upgraded none now g = g
  handshake upgraded (some ws) now g = on_connection ws now g

  -- `onUpgrade`; the socket is what the library's handshake opened, if it did.
  unfoldable pub on_upgrade :
      RealtimeOptions → String → Option Ws → ℕ → Gateway api → Upgrade × Gateway api
  unfolding handshake upgrade_answer
  on_upgrade o path ws now g = let a = upgrade_answer o path g in (a, handshake a ws now g)

  -- `while (set.size >= maxPerUser)`: the sockets that stay, and the oldest ones, which are closed. With
  -- `max_per_user` 0 that loop does not end on an empty set; here it ends with none that stays.
  unfoldable pub evict : ℕ → List ℕ → List ℕ × List ℕ
  evict most [] = ([], [])
  evict most (k ∷ ks) =
      let rest = evict most ks in
      if leb most (suc (length ks)) then (rest.0, k ∷ rest.1) else (k ∷ ks, [])

  unfoldable pub expiry : VerifiedToken → ℕ → ℕ
  expiry v now = elim v.exp [
    | none ↦ now + no_expiry_cap_ms
    | some e ↦ if nat_eq e 0 then now + no_expiry_cap_ms else e * 1000
  ]

  -- The end of `authenticate`, for a token that was verified and a source that is healthy.
  unfoldable pub admit : RealtimeOptions → ℕ → VerifiedToken → ℕ → Gateway api → Gateway api
  unfolding modify expiry evict delete_conn
  admit o k v now g =
      let set = evict o.max_per_user (sockets_of api v.id g.by_user) in
      let g' =
        modify api k
          (λ c. record c { auth_timer = false; user_id = some v.id; expires_at_ms = expiry v now })
          (record g { pending = delete_conn api k g.pending }) in
      let g'' = close_each api evicted "too_many_connections" set.1 g' in
      (send_conn api o (ready o.ping_interval_ms) k
        (record g'' { by_user = put_sockets api v.id (set.0 ++ k ∷ []) g''.by_user })).0

  unfoldable pub verified_conn :
      RealtimeOptions → ℕ → VerifiedToken → ℕ → Option (Conn api) → Gateway api → Gateway api
  verified_conn o k v now none g = g
  verified_conn o k v now (some c) g =
      if c.closed
      then g
      else if not g.healthy
      then close_conn api unavailable "realtime_unavailable" k g
      else admit o k v now g

  -- `authenticate` after `await this.verifier.verify(token)`.
  unfoldable pub on_verified :
      RealtimeOptions → ℕ → Verdict VerifiedToken → ℕ → Gateway api → Gateway api
  unfolding verified_conn modify
  on_verified o k (unauthorized reason) now g =
      close_conn api unauthorized_code (if reason == "" then "unauthorized" else reason) k
        (modify api k (λ c. record c { verifying = false }) g)
  on_verified o k (accepted v) now g =
      verified_conn o k v now (g.conns k) (modify api k (λ c. record c { verifying = false }) g)

  -- The timer that `onConnection` started.
  unfoldable pub on_auth_timeout : ℕ → Gateway api → Gateway api
  unfolding close_conn
  on_auth_timeout k g = close_conn api auth_timeout "auth_timeout" k g

  -- `authenticate` before its await, with the token if it is a text that is not empty.
  unfoldable pub ask_verifier : Option String → ℕ → Gateway api → Gateway api × Option String
  unfolding close_conn modify
  ask_verifier none k g = (close_conn api unauthorized_code "missing_token" k g, none)
  ask_verifier (some t) k g = (modify api k (λ c. record c { verifying = true }) g, some t)

  -- The token that the verifier is asked about stands beside the gateway.
  unfoldable pub authenticate : Option Json → ℕ → Gateway api → Gateway api × Option String
  unfolding ask_verifier non_empty
  authenticate token k g = ask_verifier (non_empty token) k g

  -- A frame of a client: bytes that are no text, a text that is no JSON, or a value.
  pub data Frame : Type 0 where
    binary bad_json : Frame
    value : Json → Frame

  -- `!!conn.userId`
  has_user : Conn api → Bool
  has_user c = elim c.user_id [ none ↦ false | some u ↦ not (u == "") ]

  -- What `onMessage` does about a frame: close with a reason, nothing, or `authenticate` a token.
  pub data Reaction : Type 0 where
    refuse : String → Reaction
    ignore : Reaction
    try_token : Option Json → Reaction

  unfoldable pub reaction : Frame → Conn api → Reaction
  unfolding is_object is_text prop has_user
  reaction binary c = refuse "binary_not_supported"
  reaction bad_json c = refuse "bad_json"
  reaction (value v) c =
      if not (is_object v)
      then refuse "bad_frame"
      else if is_text "auth" (prop "type" v)
      then (if has_user c || c.verifying then ignore else try_token (prop "token" v))
      else if is_text "pong" (prop "type" v) || has_user c
      then ignore
      else refuse "auth_required"

  unfoldable pub react : Reaction → ℕ → Gateway api → Gateway api × Option String
  unfolding close_conn authenticate
  react (refuse reason) k g = (close_conn api protocol reason k g, none)
  react ignore k g = (g, none)
  react (try_token token) k g = authenticate token k g

  unfoldable pub message_of :
      Frame → ℕ → Option (Conn api) → Gateway api → Gateway api × Option String
  unfolding reaction react
  message_of f k none g = (g, none)
  message_of f k (some c) g = react (reaction f c) k g

  -- `onMessage`
  unfoldable pub on_message : Frame → ℕ → ℕ → Gateway api → Gateway api × Option String
  unfolding message_of modify
  on_message f k now g =
      message_of f k (g.conns k) (modify api k (λ c. record c { last_seen_ms = now }) g)
