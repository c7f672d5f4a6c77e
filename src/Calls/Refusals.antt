-- ===== src/Calls/Refusals.antt =====
-- The steps of a call (src/calls/calls.module.ts) that the database refuses tell nobody.
use zudue_api.Base.{ℕ, suc, ◌≡◌, Bool, true, false, Option, [], ◌∷◌, ◌⊎◌}
use zudue_api.Json.{Json}
use zudue_api.Effect.{History, Outcome, ok, err, Error, driver}
use zudue_api.Effect.Requests.{
  rpc, rpc_create_notification, push_incoming_call, push_fan_ready, push_call_ended,
  push_cancel_call, push_queue_next,
}
use zudue_api.Calls.{succeeded}

-- How often anybody was told something: pushes, and notifications.
abbrev pub told : History → ℕ
told [] = 0
told (rpc (rpc_create_notification n) ∷ h) = suc (told h)
told (push_cancel_call u c ∷ h) = suc (told h)
told (push_incoming_call u c ∷ h) = suc (told h)
told (push_fan_ready u b ∷ h) = suc (told h)
told (push_queue_next u b w ∷ h) = suc (told h)
told (push_call_ended ids c b s r ∷ h) = suc (told h)
told (q ∷ h) = told h

-- The error is that of a library: the connection or a statement failed.
abbrev pub is_driver : Error → Bool
is_driver (driver m) = true
is_driver e = false

-- A handler told nobody anything, unless it returned a success or a library failed.
abbrev pub IsQuiet : History → Outcome (Option Json) → Type 0
IsQuiet h (ok res h') = (succeeded res ≡ true) ⊎ (told h' ≡ told h)
IsQuiet h (err e h') = (is_driver e ≡ true) ⊎ (told h' ≡ told h)

-- What a handler did before it knew that the step went through.
Refused : History → Outcome (Option Json) → Type 0
Refused h (ok res h') = succeeded res ≡ false → told h' ≡ told h
Refused h (err e h') = is_driver e ≡ false → told h' ≡ told h
