-- ===== src/Realtime/Gateway.antt =====
-- `RealtimeGateway` of src/realtime/realtime.gateway.ts: its state, its registry and how it closes sockets.
-- Connections are objects shared by `pending`, by `byUser` and by callbacks: they live on a heap and are
-- named by numbers, in the order in which they came. The sockets are those of an interface.
pub mod Delivery
pub mod Handshake
pub mod Teardown
pub mod Bounds
pub mod Events
pub mod Registry
pub mod Quiet
pub mod Still
pub mod Sound
pub mod Joining
pub mod Run
pub mod Fanout
pub mod Shutdown
pub mod Kept
pub mod Admission
pub mod Promise
pub mod Entries
use zudue_api.Base.{
  ℕ, ◌+◌, String, Bool, true, false, Option, none, some, List, [], ◌∷◌, ◌++◌, nat_eq, length,
  or_else, ◌==◌, if◌then◌else◌,
}
use zudue_api.Realtime.Types.{CloseCode, close_code}
use zudue_api.Realtime.Socket.{SocketApi}

module _ (api : SocketApi) where
  open api use {Ws, close, terminate, slice}

  pub record Conn : Type 0 where
    pub ws : Ws
    pub user_id : Option String
    pub expires_at_ms : ℕ
    pub last_seen_ms : ℕ
    pub auth_timer : Bool
    pub verifying : Bool
    pub closed : Bool

  pub record Gateway : Type 0 where
    pub conns : ℕ → Option Conn
    pub next : ℕ
    pub pending : List ℕ
    pub by_user : List (String × List ℕ)
    pub enabled : Bool
    pub healthy : Bool
    pub accepted_count : ℕ
    pub refused : ℕ
    pub events_in : ℕ
    pub events_delivered : ℕ

  unfoldable pub on_conn : (Conn → Conn) → Option Conn → Option Conn
  on_conn f none = none
  on_conn f (some c) = some (f c)

  -- A change of one connection.
  unfoldable pub modify : ℕ → (Conn → Conn) → Gateway → Gateway
  unfolding on_conn
  modify k f g = record g { conns = λ j. if nat_eq k j then on_conn f (g.conns j) else g.conns j }

  -- `close`: a second close after the 'close' event does nothing; where the library throws, the socket is
  -- torn down.
  unfoldable pub shut : CloseCode → String → Conn → Conn
  shut code reason c = if c.closed then c else record c {
    ws = or_else (close (close_code code) (slice reason 0 100) c.ws) (terminate c.ws);
  }

  unfoldable pub close_conn : CloseCode → String → ℕ → Gateway → Gateway
  unfolding modify shut
  close_conn code reason k g = modify k (shut code reason) g

  -- A loop that changes one connection after the other.
  unfoldable pub for_conns : (Conn → Conn) → List ℕ → Gateway → Gateway
  unfolding modify
  for_conns f [] g = g
  for_conns f (k ∷ ks) g = for_conns f ks (modify k f g)

  unfoldable pub close_each : CloseCode → String → List ℕ → Gateway → Gateway
  unfolding for_conns shut
  close_each code reason ks g = for_conns (shut code reason) ks g

  unfoldable pub members : List (String × List ℕ) → List ℕ
  members [] = []
  members ((u, set) ∷ m) = set ++ members m

  -- `allConns`
  unfoldable pub all_conns : Gateway → List ℕ
  unfolding members
  all_conns g = g.pending ++ members g.by_user

  unfoldable pub close_all : CloseCode → String → Gateway → Gateway
  unfolding all_conns
  close_all code reason g = close_each code reason (all_conns g) g

  -- `byUser.get(id)`
  unfoldable pub sockets_of : String → List (String × List ℕ) → List ℕ
  sockets_of u [] = []
  sockets_of u ((v, set) ∷ m) = if v == u then set else sockets_of u m

  -- `byUser.set(id, set)`, in the place of the old entry if there is one.
  unfoldable pub put_sockets : String → List ℕ → List (String × List ℕ) → List (String × List ℕ)
  put_sockets u set [] = (u, set) ∷ []
  put_sockets u set ((v, old) ∷ m) = if v == u then (v, set) ∷ m else (v, old) ∷ put_sockets u set m

  unfoldable pub delete_conn : ℕ → List ℕ → List ℕ
  delete_conn k [] = []
  delete_conn k (j ∷ js) = let rest = delete_conn k js in if nat_eq j k then rest else j ∷ rest

  -- The entry of a user whose set is not empty.
  unfoldable pub keep_entry : String → List ℕ → List (String × List ℕ) → List (String × List ℕ)
  keep_entry v [] m = m
  keep_entry v (j ∷ js) m = (v, j ∷ js) ∷ m

  -- `delete` of a connection from its user's set, and of the set once it is empty.
  unfoldable pub drop_socket : String → ℕ → List (String × List ℕ) → List (String × List ℕ)
  unfolding delete_conn keep_entry
  drop_socket u k [] = []
  drop_socket u k ((v, set) ∷ m) =
      if v == u then keep_entry v (delete_conn k set) m else (v, set) ∷ drop_socket u k m

  -- The numbers that `stats` counts out of the registry.
  pub record Stats : Type 0 where
    pub connections : ℕ
    pub users : ℕ
    pub pending_size : ℕ

  unfoldable pub stats : Gateway → Stats
  unfolding members
  stats g = record {
    connections = length (members g.by_user);
    users = length g.by_user;
    pending_size = length g.pending;
  }

  unfoldable pub user_of : Option Conn → Option String
  user_of none = none
  user_of (some c) = c.user_id

  -- The end of `onClose`, for `conn.userId`.
  unfoldable pub leave : Option String → ℕ → List (String × List ℕ) → List (String × List ℕ)
  unfolding drop_socket
  leave none k m = m
  leave (some u) k m = if u == "" then m else drop_socket u k m

  unfoldable pub on_close : ℕ → Gateway → Gateway
  unfolding user_of leave modify delete_conn
  on_close k g =
      modify k (λ c. record c { closed = true; auth_timer = false })
        (record g {
          pending = delete_conn k g.pending;
          by_user = leave (user_of (g.conns k)) k g.by_user;
        })
