-- ===== src/Realtime/Source/Generations.antt =====
-- Callbacks of clients that were torn down, and the end of a source
-- (src/realtime/pg-notify.source.ts).
use zudue_api.Base.{
  ℕ, ◌+◌, ◌≤◌, ◌<◌, ◌≡◌, ◌≢◌, refl, true, false, Option, none, some, List, [], ◌∷◌, arith,
}
use zudue_api.Realtime.Source.{
  PgNotifySourceOptions, Source, Event, connect, listen_rejected, listening, notified, probe_due,
  probe_lost, client_ended, stop, step, run,
}

-- The generation that a callback was made for, where it has one.
abbrev pub made_for : Event → Option ℕ
made_for (listen_rejected gen) = some gen
made_for (listening gen) = some gen
made_for (notified gen payload now) = some gen
made_for (probe_due gen id) = some gen
made_for _ = none

-- A callback that was made for another generation than the current one changes nothing and does
-- nothing.
stale_callback_inert :
    (o : PgNotifySourceOptions) (e : Event) (s : Source) (gen : ℕ)
    → made_for e ≡ some gen
    → gen ≢ s.generation
    → step o e s ≡ (s, [])
unfolding step
stale_callback_inert o connect s gen m n = cc
stale_callback_inert o (listen_rejected g) s gen m n = ground arith
stale_callback_inert o (listening g) s gen m n = ground arith
stale_callback_inert o (notified g payload now) s gen m n = ground arith
stale_callback_inert o (probe_due g id) s gen m n = ground arith
stale_callback_inert o (probe_lost id) s gen m n = cc
stale_callback_inert o (client_ended random) s gen m n = cc
stale_callback_inert o stop s gen m n = cc

step-generation :
    (o : PgNotifySourceOptions) (e : Event) (s : Source) → s.generation ≤ (step o e s).0.generation
unfolding step
step-generation o connect s = ground arith
step-generation o _ s = ground arith

-- The generation never goes back, so what is stale stays stale.
pub run-generation :
    (o : PgNotifySourceOptions) (es : List Event) (s : Source)
    → s.generation ≤ (run o es s).0.generation
unfolding run
run-generation o [] s = omega arith
run-generation o (e ∷ es) s =
    omega (arith, run-generation o es (step o e s).0, step-generation o e s)

pub record IsStopped (s : Source) : Type 0 where
  pub was_stopped : s.stopped ≡ true
  pub unhealthy : s.healthy ≡ false
  pub no_client : s.sql ≡ none

-- A callback made before generation `g` began, or one that names no generation.
abbrev pub IsOld : ℕ → Option ℕ → Type 0
IsOld g none = Unit
IsOld g (some gen) = gen < g

abbrev pub AllOld : ℕ → List Event → Type 0
AllOld g [] = Unit
AllOld g (e ∷ es) = IsOld g (made_for e) × AllOld g es

step-IsStopped :
    (o : PgNotifySourceOptions) (g : ℕ) (e : Event) (s : Source)
    → IsStopped s
    → g ≤ s.generation
    → IsOld g (made_for e)
    → ((step o e s).1 ≡ []) × IsStopped (step o e s).0
unfolding step
step-IsStopped o g connect s st le old = ground arith
step-IsStopped o g _ s st le old = ground arith

run-IsStopped :
    (o : PgNotifySourceOptions) (g : ℕ) (es : List Event) (s : Source)
    → IsStopped s
    → g ≤ s.generation
    → AllOld g es
    → ((run o es s).1 ≡ []) × IsStopped (run o es s).0
unfolding run
run-IsStopped o g [] s st le old = (refl, st)
run-IsStopped o g (e ∷ es) s st le old =
    let (quiet, st') = step-IsStopped o g e s st le old.0 in
    let (quiet', st'') =
      run-IsStopped o g es (step o e s).0 st' (omega (arith, step-generation o e s)) old.1 in
    (rw (quiet, quiet'), st'')

step-stop-IsStopped : (o : PgNotifySourceOptions) (s : Source) → IsStopped (step o stop s).0
unfolding step
step-stop-IsStopped o s = ground arith

step-stop-lt :
    (o : PgNotifySourceOptions) (s : Source) → s.generation < (step o stop s).0.generation
unfolding step
step-stop-lt o s = ground arith

-- After `stop` no callback of a client that was ever built does anything outside the source again: no
-- handler is called, no connection is opened and nothing is logged, and it stays stopped and unhealthy.
pub stop_is_final :
    (o : PgNotifySourceOptions) (es : List Event) (s : Source)
    → AllOld (s.generation + 1) es
    → let after = run o es (step o stop s).0 in (after.1 ≡ []) × IsStopped after.0
stop_is_final o es s old =
    run-IsStopped o (s.generation + 1) es (step o stop s).0 (step-stop-IsStopped o s)
      (omega (arith, step-stop-lt o s)) old
