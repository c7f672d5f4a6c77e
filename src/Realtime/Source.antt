-- ===== src/Realtime/Source.antt =====
-- `PgNotifySource` of src/realtime/pg-notify.source.ts. One event is one callback of the driver, of a
-- timer or of the owner, up to its next `await`; a promise that `done` resolves runs its continuation in
-- the same event.
pub mod Health
pub mod Generations
pub mod Backoff
use zudue_api.Base.{
  ℕ, ◌+◌, ◌-◌, ◌*◌, ◌/◌, ◌^◌, min, String, Bool, true, false, not, ◌||◌, Option, none, some, List,
  [], ◌∷◌, ◌++◌, ltb, nat_eq, is_some, ◌==◌, if◌then◌else◌,
}
use zudue_api.Json.{Json}
use zudue_api.Realtime.Types.{CallChangedEvent}
use zudue_api.Realtime.Notification.{ParsedNotification, call, probe, parse_notification}

pub record PgNotifySourceOptions : Type 0 where
  pub probe_interval_ms : ℕ
  pub probe_timeout_ms : ℕ
  pub reconnect_base_ms : ℕ
  pub reconnect_max_ms : ℕ

abbrev pub defaults : PgNotifySourceOptions
defaults = record {
  probe_interval_ms = 30000;
  probe_timeout_ms = 5000;
  reconnect_base_ms = 1000;
  reconnect_max_ms = 30000;
}

-- A probe under way: its id, and the client that `probe` was called for.
pub record Pending : Type 0 where
  pub id : String
  pub gen : ℕ

pub record Timer : Type 0 where
  pub gen : ℕ
  pub delay : ℕ

-- The fields of the class. `sql` holds the generation that its client was built in.
pub record Source : Type 0 where
  pub sql : Option ℕ
  pub generation : ℕ
  pub stopped : Bool
  pub ever_listened : Bool
  pub healthy : Bool
  pub probe_failures : ℕ
  pub hint_logged : Bool
  pub reconnect_attempts : ℕ
  pub probe_timer : Option Timer
  pub reconnect_timer : Option ℕ
  pub pending_probes : List Pending
  pub malformed : ℕ
  pub last_malformed_log_at : ℕ

abbrev pub new : Source
new = record {
  sql = none;
  generation = 0;
  stopped = false;
  ever_listened = false;
  healthy = false;
  probe_failures = 0;
  hint_logged = false;
  reconnect_attempts = 0;
  probe_timer = none;
  reconnect_timer = none;
  pending_probes = [];
  malformed = 0;
  last_malformed_log_at = 0;
}

pub data LogLine : Type 0 where
  listen_failed unparseable healthy_again probe_missed not_receiving still_not_receiving : LogLine
  rebuilding : ℕ → LogLine

-- What a callback does outside the object: calls of the handlers, the driver and the log.
pub data Output : Type 0 where
  on_call_changed : CallChangedEvent → Output
  on_resync : Output
  on_health_change : Bool → Output
  listen : ℕ → Output
  notify : String → Output
  end_client : ℕ → Output
  log : LogLine → Output

-- Callbacks. `random` is `Math.random()` in thousandths; a payload is what `JSON.parse` makes of it.
pub data Event : Type 0 where
  connect : Event
  listen_rejected : ℕ → Event
  listening : ℕ → Event
  notified : ℕ → Option Json → ℕ → Event
  probe_due : ℕ → String → Event
  probe_lost : String → Event
  client_ended : ℕ → Event
  stop : Event

abbrev pub Step : Type 0
Step = Source × List Output

-- Appends what happened to the outputs of what follows.
abbrev pub ◌then_after◌ : List Output → Step → Step
◌then_after◌ out (s, more) = (s, out ++ more)

unfoldable pub set_healthy : Bool → Source → Step
set_healthy true s =
    if s.healthy then (s, []) else (record s { healthy = true }, on_health_change true ∷ [])
set_healthy false s =
    if s.healthy then (record s { healthy = false }, on_health_change false ∷ []) else (s, [])

unfoldable pub schedule_probe : ℕ → ℕ → Source → Source
schedule_probe gen delay s = record s { probe_timer = some (record { gen = gen; delay = delay }) }

abbrev pub end_of : Option ℕ → List Output
end_of none = []
end_of (some c) = end_client c ∷ []

-- `recycle` up to `await old?.end()`.
unfoldable pub recycle : ℕ → Source → Step
unfolding set_healthy
recycle gen s =
    if not (nat_eq gen s.generation) || s.stopped
    then (s, [])
    else let (s', out) = set_healthy false (record s { generation = s.generation + 1 }) in
      (record s' { probe_timer = none; sql = none }, out ++ end_of s.sql)

-- `Math.min(reconnectMaxMs, reconnectBaseMs * 2 ** attempts)`
unfoldable pub backoff : PgNotifySourceOptions → ℕ → ℕ
backoff o attempts = min o.reconnect_max_ms (o.reconnect_base_ms * 2 ^ attempts)

-- `Math.round(backoff * (0.75 + random * 0.5))`, with `random` in thousandths.
unfoldable pub jitter : ℕ → ℕ → ℕ
jitter b random = (b * (1500 + random) + 1000) / 2000

-- `recycle` after that await: it tests `stopped` alone.
unfoldable pub rebuild : PgNotifySourceOptions → ℕ → Source → Step
rebuild o random s =
    if s.stopped
    then (s, [])
    else let delay = jitter (backoff o s.reconnect_attempts) random in
      (
        record s { reconnect_attempts = s.reconnect_attempts + 1; reconnect_timer = some delay },
        log (rebuilding delay) ∷ [],
      )

unfoldable pub reconnect : Source → Step
reconnect s = if s.stopped then (s, []) else (
  record s { generation = s.generation + 1; sql = some (s.generation + 1) },
  listen (s.generation + 1) ∷ [],
)

unfoldable pub on_listen_rejected : ℕ → Source → Step
unfolding recycle
on_listen_rejected gen s =
    if not (nat_eq gen s.generation) || s.stopped
    then (s, [])
    else (let (s', out) = recycle gen s in (s', log listen_failed ∷ out))

unfoldable pub on_listening : ℕ → Source → Step
unfolding schedule_probe
on_listening gen s = if not (nat_eq gen s.generation) || s.stopped then (s, []) else (
  schedule_probe gen 0 (record s { ever_listened = true }),
  if s.ever_listened then on_resync ∷ [] else [],
)

-- `probe` up to `await this.roundTrip(sql)`, which sends a NOTIFY with the fresh `id`.
unfoldable pub probe_start : ℕ → String → Source → Step
probe_start gen id s =
    if not (nat_eq gen s.generation) || s.stopped || not (is_some s.sql) then (s, []) else (
      record s { pending_probes = record { id = id; gen = gen } ∷ s.pending_probes },
      notify id ∷ [],
    )

-- `probe` after a round trip that came back.
probe_ok : PgNotifySourceOptions → ℕ → Source → Step
unfolding set_healthy schedule_probe
probe_ok o gen s =
    let said : List Output = if s.healthy then [] else log healthy_again ∷ [] in
    let (s', out) =
      set_healthy true
        (record s { probe_failures = 0; hint_logged = false; reconnect_attempts = 0 }) in
    (schedule_probe gen o.probe_interval_ms s', said ++ out)

-- `probe` after a miss: the first one is retried, any later one rebuilds the client.
probe_miss : PgNotifySourceOptions → ℕ → Source → Step
unfolding set_healthy schedule_probe recycle
probe_miss o gen s =
    let (s', out) = set_healthy false (record s { probe_failures = s.probe_failures + 1 }) in
    if nat_eq s'.probe_failures 1
    then (schedule_probe gen o.probe_timeout_ms s', out ++ log probe_missed ∷ [])
    else let hint : LogLine = if s'.hint_logged then still_not_receiving else not_receiving in
      let (s'', more) = recycle gen (record s' { hint_logged = true }) in
      (s'', out ++ log hint ∷ more)

unfoldable pub probe_result : PgNotifySourceOptions → ℕ → Bool → Source → Step
unfolding probe_ok probe_miss
probe_result o gen ok s =
    if not (nat_eq gen s.generation) || s.stopped
    then (s, [])
    else if ok
    then probe_ok o gen s
    else probe_miss o gen s

-- `pendingProbes.get(id)`
unfoldable pub find_probe : String → List Pending → Option Pending
find_probe id [] = none
find_probe id (p ∷ ps) = if p.id == id then some p else find_probe id ps

-- `pendingProbes.delete(id)`
unfoldable pub delete_probe : String → List Pending → List Pending
delete_probe id [] = []
delete_probe id (p ∷ ps) = let rest = delete_probe id ps in if p.id == id then rest else p ∷ rest

-- `done(ok)` of the round trip with this id, if it is still under way.
done : PgNotifySourceOptions → Bool → Option Pending → Source → Step
unfolding probe_result
done o ok none s = (s, [])
done o ok (some p) s =
    probe_result o p.gen ok (record s { pending_probes = delete_probe p.id s.pending_probes })

-- A payload that cannot be read is counted, and logged once a minute at most.
on_malformed : ℕ → Source → Step
on_malformed now s =
    if ltb 60000 (now - s.last_malformed_log_at)
    then (
      record s { malformed = s.malformed + 1; last_malformed_log_at = now },
      log unparseable ∷ [],
    )
    else (record s { malformed = s.malformed + 1 }, [])

received : PgNotifySourceOptions → ℕ → Option ParsedNotification → Source → Step
unfolding done on_malformed find_probe
received o now none s = on_malformed now s
received o now (some (probe id)) s = done o true (find_probe id s.pending_probes) s
received o now (some (call event)) s = (s, on_call_changed event ∷ [])

unfoldable pub on_notify : PgNotifySourceOptions → ℕ → Option Json → ℕ → Source → Step
unfolding received
on_notify o gen payload now s =
    if nat_eq gen s.generation then received o now (parse_notification payload) s else (s, [])

unfoldable pub on_stop : Source → Step
on_stop s = (
  record s {
    stopped = true;
    generation = s.generation + 1;
    probe_timer = none;
    reconnect_timer = none;
    healthy = false;
    sql = none;
  },
  end_of s.sql,
)

unfoldable pub step : PgNotifySourceOptions → Event → Source → Step
unfolding reconnect on_listen_rejected on_listening on_notify probe_start done find_probe rebuild
    on_stop
step o connect s = reconnect s
step o (listen_rejected gen) s = on_listen_rejected gen s
step o (listening gen) s = on_listening gen s
step o (notified gen payload now) s = on_notify o gen payload now s
step o (probe_due gen id) s = probe_start gen id s
step o (probe_lost id) s = done o false (find_probe id s.pending_probes) s
step o (client_ended random) s = rebuild o random s
step o stop s = on_stop s

-- A whole run: the last state, and all outputs in order.
unfoldable pub run : PgNotifySourceOptions → List Event → Source → Step
run o [] s = (s, [])
run o (e ∷ es) s = let (s', out) = step o e s in let (s'', more) = run o es s' in (s'', out ++ more)
