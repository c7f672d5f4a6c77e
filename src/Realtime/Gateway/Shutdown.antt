-- ===== src/Realtime/Gateway/Shutdown.antt =====
-- The life of `RealtimeGateway` in src/realtime/realtime.gateway.ts around its sockets: `attach`, `destroy` and
-- `drain`, with the adapter of src/realtime/realtime.module.ts. Whether a socket is CLOSED is asked of the `ws`
-- library, an argument.
pub mod Drained
pub mod Doors
pub mod Ended
use zudue_api.Base.{
  ℕ, ◌-◌, String, Bool, true, false, not, Option, none, some, List, [], ◌∷◌, ◌++◌, nat_eq, length,
  if◌then◌else◌,
}
use zudue_api.Realtime.Types.{going_away}
use zudue_api.Realtime.Socket.{SocketApi}
use zudue_api.Realtime.Gateway.{
  Conn, Gateway, all_conns, close_all, delete_conn, for_conns, on_close,
}

-- A call of `drain`: the sockets it took, how many are left to close, those with its 'close' listener, its
-- timer, and whether its promise is resolved.
pub record Drain : Type 0 where
  pub sockets : List ℕ
  pub left : ℕ
  pub listeners : List ℕ
  pub timer : Bool
  pub resolved : Bool

-- `finish`
unfoldable pub finish : Drain → Drain
finish d = record d { timer = false; resolved = true }

-- `if (--left === 0) finish()`
unfoldable pub count_down : Drain → Drain
unfolding finish
count_down d = let d' = record d { left = d.left - 1 } in if nat_eq d.left 1 then finish d' else d'

-- The calls of the 'close' listeners of one socket.
unfoldable pub heard : ℕ → List ℕ → Drain → Drain
unfolding count_down
heard k [] d = d
heard k (j ∷ js) d = heard k js (if nat_eq j k then count_down d else d)

module _ (api : SocketApi) (is_closed : api.Ws → Bool) where
  unfoldable pub is_gone : Option (Conn api) → Bool
  is_gone none = false
  is_gone (some c) = is_closed c.ws

  -- The last loop of `drain`.
  unfoldable pub watch : Gateway api → List ℕ → Drain → Drain
  unfolding count_down is_gone
  watch g [] d = d
  watch g (k ∷ ks) d =
      watch g ks (
        if is_gone (g.conns k)
        then count_down d
        else record d { listeners = d.listeners ++ k ∷ [] })

  -- `drain`, up to its return.
  unfoldable pub drain : List ℕ → Gateway api → Drain
  unfolding watch
  drain [] g = record { sockets = []; left = 0; listeners = []; timer = false; resolved = true }
  drain (k ∷ ks) g = watch g (k ∷ ks) (record {
    sockets = k ∷ ks;
    left = length (k ∷ ks);
    listeners = [];
    timer = true;
    resolved = false;
  })

  -- The gateway with what it holds of the process, and of the adapter its timer for the statistics.
  pub record Server : Type 0 where
    pub gateway : Gateway api
    pub upgrades : Bool
    pub heartbeat : Bool
    pub stats_timer : Bool
    pub source_running : Bool
    pub wss_open : Bool
    pub draining : Option Drain

  -- `attach`
  unfoldable pub attach : Server → Server
  attach s =
      let s' = record s { upgrades = true } in
      if s.gateway.enabled then record s' { heartbeat = true; source_running = true } else s'

  -- `onApplicationBootstrap`, where there is an HTTP server, of a gateway that is new.
  unfoldable pub bootstrap : Server → Server
  unfolding attach
  bootstrap s =
      let s' = attach s in if s.gateway.enabled then record s' { stats_timer = true } else s'

  -- The end of `destroy`, once `drain` has resolved. Between the two awaits nothing else is changed.
  unfoldable pub after_drain : Drain → Server → Server
  after_drain d s =
      let s' = record s { draining = some d } in
      if d.resolved then record s' { source_running = false; wss_open = false } else s'

  -- `destroy`
  unfoldable pub destroy : Server → Server
  unfolding drain after_drain
  destroy s =
      let g = close_all api going_away "server_shutdown" s.gateway in
      after_drain (drain (all_conns api g) g)
        (record s { gateway = g; upgrades = false; heartbeat = false })

  -- `onModuleDestroy`
  unfoldable pub on_module_destroy : Server → Server
  unfolding destroy
  on_module_destroy s = destroy (record s { stats_timer = false })

  unfoldable pub drain_heard : ℕ → Option Drain → Server → Server
  unfolding heard after_drain
  drain_heard k none s = s
  drain_heard k (some d) s =
      after_drain (heard k d.listeners (record d { listeners = delete_conn api k d.listeners })) s

  -- The 'close' event of a socket: the gateway's listener, then that of `drain`.
  unfoldable pub socket_closes : ℕ → Server → Server
  unfolding drain_heard
  socket_closes k s = drain_heard k s.draining (record s { gateway = on_close api k s.gateway })

  unfoldable pub drain_expires : Option Drain → Server → Server
  unfolding finish after_drain
  drain_expires none s = s
  drain_expires (some d) s =
      if d.timer
      then after_drain (finish d) (record s {
        gateway = for_conns api (λ c. record c { ws = api.terminate c.ws }) d.sockets s.gateway;
      })
      else s

  -- The timer of `drain`.
  unfoldable pub drain_timeout : Server → Server
  unfolding drain_expires
  drain_timeout s = drain_expires s.draining s

  unfoldable pub sockets_close : List ℕ → Server → Server
  unfolding socket_closes
  sockets_close [] s = s
  sockets_close (k ∷ ks) s = sockets_close ks (socket_closes k s)

  -- `health` of the service, with or without a gateway.
  unfoldable pub health : Option Server → Bool × Bool
  health none = (false, false)
  health (some s) = (s.gateway.enabled, s.gateway.healthy)
