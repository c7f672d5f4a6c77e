-- ===== src/Realtime/Source/Health.antt =====
-- When the source of src/realtime/pg-notify.source.ts calls itself healthy, and whom it tells.
use zudue_api.Base.{
  ℕ, ◌≡◌, refl, inl, inr, String, Bool, true, false, Option, none, some, List, [], ◌∷◌, ◌++◌, arith,
  ◌+◌, eq_refl, Bool-cases, nat_eq,
}
use zudue_api.Json.{Json}
use zudue_api.Realtime.Notification.{ParsedNotification, probe, call, parse_notification}
use zudue_api.Realtime.Source.{
  PgNotifySourceOptions, Pending, Source, Output, on_health_change, Event, connect, listen_rejected,
  listening, notified, probe_due, probe_lost, client_ended, stop, find_probe, done, received, step,
  run, on_notify,
}

-- The last health that the handlers were told, `h` before that.
abbrev pub announced : Bool → List Output → Bool
announced h [] = h
announced h (on_health_change b ∷ out) = announced b out
announced h (_ ∷ out) = announced h out

announced-append :
    (h : Bool) (xs ys : List Output) → announced h (xs ++ ys) ≡ announced (announced h xs) ys
announced-append h [] ys = refl
announced-append h (on_health_change b ∷ xs) ys = announced-append b xs ys
announced-append h (x ∷ xs) ys = announced-append h xs ys

step-announced :
    (o : PgNotifySourceOptions) (e : Event) (s : Source)
    → (step o e s).0.stopped ≡ false
    → (step o e s).0.healthy ≡ announced s.healthy (step o e s).1
unfolding step
step-announced o connect s h = ground arith
step-announced o (listen_rejected gen) s h = ground arith
step-announced o (listening gen) s h = ground arith
step-announced o (notified gen payload now) s h = ground arith
step-announced o (probe_due gen id) s h = ground arith
step-announced o (probe_lost id) s h = ground arith
step-announced o (client_ended random) s h = ground arith
step-announced o stop s h = ground arith

step-stopped :
    (o : PgNotifySourceOptions) (e : Event) (s : Source)
    → (step o e s).0.stopped ≡ false
    → s.stopped ≡ false
unfolding step
step-stopped o connect s h = ground arith
step-stopped o (listen_rejected gen) s h = ground arith
step-stopped o (listening gen) s h = ground arith
step-stopped o (notified gen payload now) s h = ground arith
step-stopped o (probe_due gen id) s h = ground arith
step-stopped o (probe_lost id) s h = ground arith
step-stopped o (client_ended random) s h = ground arith
step-stopped o stop s h = ground arith

run-stopped :
    (o : PgNotifySourceOptions) (es : List Event) (s : Source)
    → (run o es s).0.stopped ≡ false
    → s.stopped ≡ false
unfolding run
run-stopped o [] s h = h
run-stopped o (e ∷ es) s h = step-stopped o e s (run-stopped o es (step o e s).0 h)

-- Until the source is stopped, its `healthy` is what its handlers were told last, whatever the order of
-- the callbacks: the gateway, which starts from the same value, is never out of step with it.
pub run-announced :
    (o : PgNotifySourceOptions) (es : List Event) (s : Source)
    → (run o es s).0.stopped ≡ false
    → (run o es s).0.healthy ≡ announced s.healthy (run o es s).1
unfolding run
run-announced o [] s h = refl
run-announced o (e ∷ es) s h =
    let s' = (step o e s).0 in
    rw (announced-append, ← step-announced o e s (run-stopped o es s' h)) (run-announced o es s' h)

-- The event is the receipt, on the client of the current generation, of a NOTIFY with the id of a probe
-- that is under way for that same generation.
abbrev pub IsRoundTrip : Source → Event → Type 0
IsRoundTrip s (notified gen payload now) =
    (gen ≡ s.generation)
    × (p : Pending) × (id : String) × (parse_notification payload ≡ some (probe id))
    × (find_probe id s.pending_probes ≡ some p)
    × (p.gen ≡ s.generation)
IsRoundTrip s _ = ⊥

done_rise :
    (o : PgNotifySourceOptions) (ok : Bool) (p : Option Pending) (s : Source)
    → s.healthy ≡ false
    → (done o ok p s).0.healthy ≡ true
    → (ok ≡ true) × (q : Pending) × (p ≡ some q) × (q.gen ≡ s.generation)
unfolding done
done_rise o true none s f t = cc
done_rise o false none s f t = cc
done_rise o true (some p) s f t = (refl, p, refl, ground arith)
done_rise o false (some p) s f t = absurd (ground arith)

received_rise :
    (o : PgNotifySourceOptions) (now : ℕ) (n : Option ParsedNotification) (s : Source)
    → s.healthy ≡ false
    → (received o now n s).0.healthy ≡ true
    → (p : Pending) × (id : String) × (n ≡ some (probe id))
      × (find_probe id s.pending_probes ≡ some p)
      × (p.gen ≡ s.generation)
unfolding received
received_rise o now none s f t = absurd (ground arith)
received_rise o now (some (call e)) s f t = absurd (ground arith)
received_rise o now (some (probe id)) s f t =
    let (_, p, found, same) = done_rise o true (find_probe id s.pending_probes) s f t in
    (p, id, refl, found, same)

notify_rise :
    (o : PgNotifySourceOptions) (gen : ℕ) (payload : Option Json) (now : ℕ) (s : Source)
    → s.healthy ≡ false
    → (on_notify o gen payload now s).0.healthy ≡ true
    → IsRoundTrip s (notified gen payload now)
unfolding on_notify
notify_rise o gen payload now s f t = elim (Bool-cases (nat_eq gen s.generation)) [
  | inl same ↦
      let (p, id, parsed, found, owner) =
        received_rise o now (parse_notification payload) s f (rw same at t) in
      (ground arith, p, id, parsed, found, owner)
  | inr other ↦ absurd (ground arith)
]

-- The source turns healthy only when a probe has come back on the listening connection: the event is
-- the receipt, by the client of the current generation, of the id of a probe that this generation sent
-- and that is still awaited. Nothing else, a successful LISTEN included, makes it healthy.
pub healthy_needs-IsRoundTrip :
    (o : PgNotifySourceOptions) (e : Event) (s : Source)
    → s.healthy ≡ false
    → (step o e s).0.healthy ≡ true
    → IsRoundTrip s e
unfolding step
healthy_needs-IsRoundTrip o connect s f t = absurd (ground arith)
healthy_needs-IsRoundTrip o (listen_rejected gen) s f t = absurd (ground arith)
healthy_needs-IsRoundTrip o (listening gen) s f t = absurd (ground arith)
healthy_needs-IsRoundTrip o (notified gen payload now) s f t = notify_rise o gen payload now s f t
healthy_needs-IsRoundTrip o (probe_due gen id) s f t = absurd (ground arith)
healthy_needs-IsRoundTrip o (probe_lost id) s f t =
    cc ((done_rise o false (find_probe id s.pending_probes) s f t).0)
healthy_needs-IsRoundTrip o (client_ended random) s f t = absurd (ground arith)
healthy_needs-IsRoundTrip o stop s f t = cc

-- What a listener that works does: a LISTEN that is confirmed, a probe, and its own NOTIFY received.
abbrev pub working : ℕ → String → Option Json → ℕ → List Event
working gen id payload now =
    connect ∷ listening gen ∷ probe_due gen id ∷ notified gen payload now ∷ []

-- From any state that is not stopped, a connection whose LISTEN is confirmed and whose first probe comes
-- back makes the source healthy, with the backoff and the count of misses reset.
pub run_recovers :
    (o : PgNotifySourceOptions) (s : Source) (id : String) (payload : Option Json) (now : ℕ)
    → s.stopped ≡ false
    → parse_notification payload ≡ some (probe id)
    → let s' = (run o (working (s.generation + 1) id payload now) s).0 in
      (s'.healthy ≡ true)
      × (s'.reconnect_attempts ≡ 0)
      × (s'.probe_failures ≡ 0)
      × (s'.sql ≡ some (s.generation + 1))
unfolding run step
run_recovers o s id payload now h p = ground (arith, eq_refl id)
