-- ===== src/Tests/Config.antt =====
-- The theorem on src/config/env.ts at an environment that starts a server.
use zudue_api.Base.{ℕ, ◌≡◌, refl, String, Bool, true, ◌||◌, Option, none, some, ◌==◌, if◌then◌else◌}
use zudue_api.Config.{schema}
use zudue_api.Config.Loaded.{is_valid, all_valid}

abbrev given : ℕ → ℕ
given n = n

-- A runtime that reads one number and takes one text for a URL.
abbrev reads : String → Option ℕ
reads s = if s == "8080" then some 8080 else none

abbrev one_url : String → Bool
one_url s = s == "https://z.in"

abbrev vars : String → Option String
vars k =
    if k == "DATABASE_URL" || k == "AUTH_JWKS_URL"
    then some "https://z.in"
    else if k == "AUTH_ISSUER"
    then some "z"
    else if k == "PORT"
    then some "8080"
    else if k == "REALTIME_ENABLED"
    then some "false"
    else none

vars_valid : all_valid ℕ given reads one_url schema vars ≡ true
unfolding is_valid
vars_valid = refl
