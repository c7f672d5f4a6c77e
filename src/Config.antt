-- ===== src/Config.antt =====
-- src/config/env.ts: the schema of the environment and `loadEnv`. Whether a text is a URL and which number it is are
-- questions to the runtime and to zod, arguments here.
pub mod Loaded
use zudue_api.Base.{
  ℕ, String, Bool, true, false, Option, none, some, List, [], ◌∷◌, has, ◌==◌, if◌then◌else◌,
}

-- The validators of the schema, with their defaults.
pub data Rule : Type 0 where
  text url optional_text optional_url switch : Rule
  default_text : String → Rule
  one_of : List String → String → Rule
  number : ℕ → Rule

-- `schema`
abbrev pub schema : List (String × Rule)
schema =
    ("NODE_ENV", one_of ("development" ∷ "test" ∷ "production" ∷ []) "development")
    ∷ ("PORT", number 3000)
    ∷ ("DATABASE_URL", url)
    ∷ ("REDIS_URL", optional_url)
    ∷ ("JOBS_DRIVER", one_of ("pgcron" ∷ "bullmq" ∷ []) "pgcron")
    ∷ ("DATABASE_URL_LISTEN", optional_url)
    ∷ ("REALTIME_ENABLED", switch)
    ∷ ("AUTH_JWKS_URL", url)
    ∷ ("AUTH_ISSUER", text)
    ∷ ("AUTH_AUDIENCE", default_text "authenticated")
    ∷ ("SUPABASE_SERVICE_ROLE_KEY", optional_text)
    ∷ ("RAZORPAY_KEY_ID", optional_text)
    ∷ ("RAZORPAY_KEY_SECRET", optional_text)
    ∷ ("RAZORPAY_WEBHOOK_SECRET", optional_text)
    ∷ ("AGORA_APP_ID", optional_text)
    ∷ ("AGORA_APP_CERTIFICATE", optional_text)
    ∷ ("FCM_PROJECT_ID", optional_text)
    ∷ ("FCM_SERVICE_ACCOUNT_B64", optional_text)
    ∷ ("ONESIGNAL_APP_ID", optional_text)
    ∷ ("ONESIGNAL_REST_API_KEY", optional_text)
    ∷ ("PUSH_CALL_CHANNEL_ID", default_text "zudue_calls")
    ∷ ("CORS_ORIGINS", optional_text)
    ∷ ("R2_ACCOUNT_ID", optional_text)
    ∷ ("R2_ACCESS_KEY_ID", optional_text)
    ∷ ("R2_SECRET_ACCESS_KEY", optional_text)
    ∷ ("R2_BUCKET_KYC", default_text "zudue-kyc")
    ∷ ("R2_BUCKET_MEDIA", default_text "zudue-media")
    ∷ ("R2_PUBLIC_MEDIA_URL", optional_text)
    ∷ ("SENTRY_DSN", optional_text)
    ∷ []

module _ (N : Type 0) (of_nat : ℕ → N) (to_number : String → Option N)
    (is_url : String → Bool) where
  pub data Value : Type 0 where
    text_value : String → Value
    number_value : N → Value
    flag : Bool → Value

  unfoldable pub url_value : String → Option (Option Value)
  url_value s = if is_url s then some (some (text_value s)) else none

  unfoldable pub coerced : Option N → Option (Option Value)
  coerced none = none
  coerced (some n) = some (some (number_value n))

  unfoldable pub switched : String → Option (Option Value)
  switched s =
      if s == "true"
      then some (some (flag true))
      else if s == "false"
      then some (some (flag false))
      else none

  -- What a validator makes of a variable, if it has no issue with it.
  unfoldable pub validate : Rule → Option String → Option (Option Value)
  unfolding url_value coerced switched
  validate text none = none
  validate text (some s) = some (some (text_value s))
  validate url none = none
  validate url (some s) = url_value s
  validate optional_text none = some none
  validate optional_text (some s) = some (some (text_value s))
  validate optional_url none = some none
  validate optional_url (some s) = url_value s
  validate switch none = some (some (flag true))
  validate switch (some s) = switched s
  validate (default_text d) none = some (some (text_value d))
  validate (default_text d) (some s) = some (some (text_value s))
  validate (one_of ks d) none = some (some (text_value d))
  validate (one_of ks d) (some s) = if has s ks then some (some (text_value s)) else none
  validate (number d) none = some (some (number_value (of_nat d)))
  validate (number d) (some s) = coerced (to_number s)

  -- The validated environment, key by key.
  abbrev pub Env : Type 0
  Env = List (String × Option Value)

  unfoldable pub add_setting : String → Option (Option Value) → Option Env → Option Env
  add_setting k none rest = none
  add_setting k (some v) none = none
  add_setting k (some v) (some rest) = some ((k, v) ∷ rest)

  -- `safeParse`, of variables that a function gives.
  unfoldable pub safe_parse : List (String × Rule) → (String → Option String) → Option Env
  unfolding validate add_setting
  safe_parse [] raw = some []
  safe_parse ((k, r) ∷ rs) raw = add_setting k (validate r (raw k)) (safe_parse rs raw)

  -- `loadEnv`; `none` is the error that it throws.
  unfoldable pub load_env : (String → Option String) → Option Env
  unfolding safe_parse
  load_env raw = safe_parse schema raw

  -- `config.get(k)`
  unfoldable pub setting : String → Env → Option Value
  setting k [] = none
  setting k ((j, v) ∷ rest) = if j == k then v else setting k rest
