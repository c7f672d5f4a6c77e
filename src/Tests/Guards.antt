-- ===== src/Tests/Guards.antt =====
-- The theorems on src/auth/jwt.guard.ts and src/throttle/throttle.guard.ts at concrete inputs.
use zudue_api.Base.{ℕ, ◌+◌, ◌-◌, ◌≡◌, refl, false, none, some, min, String, if◌then◌else◌, ◌==◌}
use zudue_api.Auth.{
  VerifiedToken, Payload, JoseResult, verified, failed, accepted, can_activate, verify,
  after_prefix, can_activate_sound,
}
use zudue_api.Throttle.{global_default, passed, window_quota}

abbrev alice : Payload
alice = record { sub = some "alice"; email = none; exp = some 99 }

abbrev nobody : Payload
nobody = record { sub = none; email = none; exp = some 99 }

abbrev jose : String → JoseResult
jose t =
    if t == "good"
    then verified alice
    else if t == "anonymous"
    then verified nobody
    else failed none

abbrev user : VerifiedToken
user = record { id = "alice"; email = none; exp = some 99 }

can_activate_sound_example :
    (header : String) × (token : String) × (p : Payload) × (some "Bearer good" ≡ some header)
    × (after_prefix "Bearer " header ≡ some token)
    × (jose token ≡ verified p)
    × (p.sub ≡ some "alice")
    × (("alice" == "") ≡ false)
    × (verify jose token ≡ accepted user)
unfolding can_activate
can_activate_sound_example = can_activate_sound jose (some "Bearer good") user refl

-- A counter of Redis.
abbrev incr : ℕ → ℕ × ℕ
incr n = (n + 1, n + 1)

window_quota_example :
    passed (λ n. n) incr (λ n. (refl, refl)) global_default 200 0 ≡ min 200 (120 - 0)
window_quota_example = window_quota (λ n. n) incr (λ n. (refl, refl)) global_default 200 0
