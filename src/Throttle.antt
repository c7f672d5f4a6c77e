-- ===== src/Throttle.antt =====
-- `ThrottleGuard` of src/throttle/throttle.guard.ts. Redis is an argument: its answers are those for the one key of
-- the request, `throttle:<method>:<route>:<ip>`, whose text is left out.
use zudue_api.Base.{
  ℕ, zero, suc, ◌+◌, ◌-◌, ◌≡◌, min, Bool, true, Option, none, some, String, ltb, nat_eq, or_else,
  if◌then◌else◌, arith, ◌==◌,
}

pub record RateLimit : Type 0 where
  pub limit : ℕ
  pub window_seconds : ℕ

abbrev pub global_default : RateLimit
global_default = record { limit = 120; window_seconds = 60 }

pub data Verdict : Type 0 where
  allowed too_many_requests : Verdict

-- `ThrottleGuard.redis`: undefined, null or a client.
pub data Client : Type 0 where
  not_attempted unavailable connected : Client

-- `getRedis`, with the variable REDIS_URL.
unfoldable pub get_redis : Option String → Client → Client
get_redis url connected = connected
get_redis url unavailable = unavailable
get_redis none not_attempted = unavailable
get_redis (some url) not_attempted = if url == "" then unavailable else connected

-- A part of the client's address that is missing or empty is passed over.
unfoldable pub or_text : Option String → String → String
or_text none d = d
or_text (some s) d = if s == "" then d else s

-- The address by which a client is counted: the first hop that the proxy names, already trimmed.
unfoldable pub client_ip : Option String → Option String → String
unfolding or_text
client_ip forwarded remote = or_text forwarded (or_text remote "unknown")

-- The answers of Redis to `incr` and `expire`, `none` and `false` for an error.
unfoldable pub check : RateLimit → Option ℕ → Bool → Verdict
check o none expires = allowed
check o (some n) expires =
    if nat_eq n 1
    then (if expires then (if ltb o.limit n then too_many_requests else allowed) else allowed)
    else (if ltb o.limit n then too_many_requests else allowed)

unfoldable pub admit : Client → RateLimit → Option ℕ → Bool → Verdict
unfolding check
admit connected o count expires = check o count expires
admit _ o count expires = allowed

unfoldable pub can_activate : Option RateLimit → Option String → Client → Option ℕ → Bool → Verdict
unfolding get_redis admit
can_activate opts url client count expires =
    admit (get_redis url client) (or_else opts global_default) count expires

-- The guard fails open: with no Redis, or with one that cannot count, every request passes.
pub fails_open :
    (opts : Option RateLimit) (url : Option String) (client : Client) (count : Option ℕ) (e : Bool)
    → (get_redis url client ≡ unavailable → can_activate opts url client count e ≡ allowed)
      × (can_activate opts url client none e ≡ allowed)
unfolding can_activate
fails_open opts url client count e = (λ p. rw p, ground arith)

abbrev one : Verdict → ℕ
one allowed = 1
one too_many_requests = 0

-- Redis for one key within one window: `incr` counts up by one, and says what it counted.
module _ {S : Type 0} (value : S → ℕ) (incr : S → ℕ × S)
    (counts : (s : S) → ((incr s).0 ≡ value s + 1) × (value (incr s).1 ≡ value s + 1)) where
  -- How many of `n` requests in a row are let through.
  pub passed : RateLimit → ℕ → S → ℕ
  passed o zero s = 0
  passed o (suc n) s =
      let rest = passed o n (incr s).1 in one (check o (some (incr s).0) true) + rest

  -- In one window exactly the first `limit` requests of a client pass, and all later ones are refused.
  pub window_quota : (o : RateLimit) (n : ℕ) (s : S) → passed o n s ≡ min n (o.limit - value s)
  unfolding passed check
  window_quota o zero s = omega arith
  window_quota o (suc n) s = ground (arith, counts s, window_quota o n (incr s).1)
