-- ===== src/Config/Loaded.antt =====
-- What `loadEnv` of src/config/env.ts takes and gives.
use zudue_api.Base.{
  ℕ, ◌≡◌, String, Bool, true, false, ◌&&◌, ◌||◌, Option, none, some, or_else, is_some, List, [],
  ◌∷◌, has, ◌==◌, if◌then◌else◌,
}
use zudue_api.Config.{
  Rule, text, url, optional_url, switch, one_of, number, schema, Value, validate, Env, load_env,
  setting, text_value, number_value,
}

-- The rule of a key.
unfoldable pub rule_of : String → List (String × Rule) → Option Rule
rule_of k [] = none
rule_of k ((j, r) ∷ rs) = if j == k then some r else rule_of k rs

-- The settings that are a text by default, with that text.
abbrev pub default_texts : List (String × String)
default_texts =
    ("NODE_ENV", "development")
    ∷ ("JOBS_DRIVER", "pgcron")
    ∷ ("AUTH_AUDIENCE", "authenticated")
    ∷ ("PUSH_CALL_CHANNEL_ID", "zudue_calls")
    ∷ ("R2_BUCKET_KYC", "zudue-kyc")
    ∷ ("R2_BUCKET_MEDIA", "zudue-media")
    ∷ []

module _ (N : Type 0) (of_nat : ℕ → N) (to_number : String → Option N)
    (is_url : String → Bool) where
  -- Whether a variable is as its validator wants it.
  unfoldable pub is_valid : Rule → Option String → Bool
  is_valid text none = false
  is_valid url none = false
  is_valid (one_of ks d) (some s) = has s ks
  is_valid (number d) (some s) = is_some (to_number s)
  is_valid url (some s) = is_url s
  is_valid optional_url (some s) = is_url s
  is_valid switch (some s) = s == "true" || s == "false"
  is_valid _ _ = true

  abbrev pub all_valid : List (String × Rule) → (String → Option String) → Bool
  all_valid [] raw = true
  all_valid ((k, r) ∷ rs) raw = is_valid r (raw k) && all_valid rs raw

  -- What the schema says that `config.get` gives: nothing for a key without a rule.
  unfoldable pub ruled :
      Option Rule → Option String → Option (Option (Value N of_nat to_number is_url))
  ruled none v = some none
  ruled (some r) v = validate N of_nat to_number is_url r v

  unfoldable pub get :
      String
      → Option (Env N of_nat to_number is_url)
      → Option (Option (Value N of_nat to_number is_url))
  get k none = none
  get k (some env) = some (setting N of_nat to_number is_url k env)

  -- The number of the port: 3000 where the variable is missing.
  abbrev pub port_of : Option String → Option (Option (Value N of_nat to_number is_url))
  port_of none = some (some (number_value (of_nat 3000)))
  port_of (some s) = elim (to_number s) [ none ↦ none | some n ↦ some (some (number_value n)) ]

  -- The settings that have a text by default are that text, or the one that the variable gives.
  abbrev pub HaveDefaults : List (String × String) → (String → Option String) → Type 0
  HaveDefaults [] raw = Unit
  HaveDefaults ((k, d) ∷ ds) raw =
      (get k (load_env N of_nat to_number is_url raw)
        ≡ (if all_valid schema raw then some (some (text_value (or_else (raw k) d))) else none))
      × HaveDefaults ds raw
