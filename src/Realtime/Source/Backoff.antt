-- ===== src/Realtime/Source/Backoff.antt =====
-- Missed probes and the delay before a new connection (src/realtime/pg-notify.source.ts).
use zudue_api.Base.{ℕ, suc, ◌+◌, ◌*◌, ◌≤◌, ◌<◌, ◌≡◌, min, true, false, none, some, arith}
use native.Mathlib.Nat.{pow-suc}
use zudue_api.Realtime.Source.{
  PgNotifySourceOptions, Source, client_ended, step, probe_result, jitter, backoff,
}

-- One miss keeps the client and asks again after the timeout; a second miss in a row discards the client
-- and leaves no probe scheduled. Either makes the source unhealthy.
two_misses_rebuild :
    (o : PgNotifySourceOptions) (s : Source) (c : ℕ)
    → s.stopped ≡ false
    → s.probe_failures ≡ 0
    → s.sql ≡ some c
    → let s' = (probe_result o s.generation false s).0 in
      let s'' = (probe_result o s.generation false s').0 in
      (s'.healthy ≡ false)
      × (s'.sql ≡ some c)
      × (s'.probe_timer ≡ some (record { gen = s.generation; delay = o.probe_timeout_ms }))
      × (s''.healthy ≡ false)
      × (s''.sql ≡ none)
      × (s''.generation ≡ s.generation + 1)
      × (s''.probe_timer ≡ none)
unfolding probe_result
two_misses_rebuild o s c st f q = ground arith

-- A round trip between two misses makes the second one a first miss again: the client is kept.
hit_resets_misses :
    (o : PgNotifySourceOptions) (s : Source) (c : ℕ)
    → s.stopped ≡ false
    → s.sql ≡ some c
    → let s' = (probe_result o s.generation true s).0 in
      let s'' = (probe_result o s.generation false s').0 in
      (s'.healthy ≡ true) × (s''.healthy ≡ false) × (s''.sql ≡ some c) × (s''.probe_failures ≡ 1)
unfolding probe_result
hit_resets_misses o s c st q = ground arith

jitter_range : (b r : ℕ) → r < 1000 → (3 * b ≤ 4 * jitter b r + 4) × (4 * jitter b r ≤ 5 * b + 4)
unfolding jitter
jitter_range b r h = let m : b * r ≤ b * 1000 = grind arith in omega arith

backoff_capped : (o : PgNotifySourceOptions) (n : ℕ) → backoff o n ≤ o.reconnect_max_ms
unfolding backoff
backoff_capped o n = omega arith

-- Rebuilding waits between 3/4 and 5/4 (rounding aside) of the backoff, which doubles with each attempt
-- up to `reconnectMaxMs`, and counts the attempt.
rebuild_delay :
    (o : PgNotifySourceOptions) (s : Source) (random : ℕ)
    → s.stopped ≡ false
    → random < 1000
    → let s' = (step o (client_ended random) s).0 in
      (delay : ℕ) × (s'.reconnect_timer ≡ some delay)
      × (s'.reconnect_attempts ≡ s.reconnect_attempts + 1)
      × (3 * backoff o s.reconnect_attempts ≤ 4 * delay + 4)
      × (4 * delay ≤ 5 * backoff o s.reconnect_attempts + 4)
      × (4 * delay ≤ 5 * o.reconnect_max_ms + 4)
unfolding step
rebuild_delay o s random st h =
    let b = backoff o s.reconnect_attempts in
    let (low, high) = jitter_range b random h in
    (jitter b random, rw st, rw st, low, high, omega (arith, backoff_capped o s.reconnect_attempts))

-- The backoff doubles with each attempt until it meets its ceiling, where it stays.
backoff_doubles :
    (o : PgNotifySourceOptions) (n : ℕ)
    → backoff o (suc n) ≡ min o.reconnect_max_ms (2 * backoff o n)
unfolding backoff
backoff_doubles o n = rw pow-suc (omega arith)
