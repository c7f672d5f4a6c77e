-- ===== src/Scripts/Ledger.antt =====
-- The slice of PostgreSQL that scripts/migrate.mjs and scripts/db-doctor.mjs use on the table `_migrations`.
use zudue_api.Base.{
  ℕ, String, Bool, true, false, ◌||◌, Option, some, List, [], ◌∷◌, ◌≡◌, or_else, is_some, has, ◌==◌,
}

-- `names` is `select name from _migrations`, where the table exists. A statement that fails may have done
-- a part of its work, as a file with transactions of its own. The migrations take no name
-- out of the ledger and do not drop it, and an insert that goes through adds one name.
pub record LedgerApi : Type 1 where
  pub Db : Type 0
  pub names : Db → Option (List String)
  pub app_tables : Db → ℕ
  pub forced : Db → Bool
  pub create_ledger : Db → Db
  pub unsafe : String → Db → Db × Bool
  pub insert_name : String → Db → Option Db
  pub create-names : (d : Db) → names (create_ledger d) ≡ some (or_else (names d) [])
  pub unsafe-names :
      (s f : String) (d : Db)
      → has f (or_else (names d) []) ≡ true
      → has f (or_else (names (unsafe s d).0) []) ≡ true
  pub unsafe-kept :
      (s : String) (d : Db) → is_some (names d) ≡ true → is_some (names (unsafe s d).0) ≡ true
  pub insert-kept :
      (f : String) (d d' : Db)
      → insert_name f d ≡ some d'
      → is_some (names d) ≡ true
      → is_some (names d') ≡ true
  pub insert-names :
      (f g : String) (d d' : Db)
      → insert_name f d ≡ some d'
      → has g (or_else (names d') []) ≡ (f == g || has g (or_else (names d) []))

-- `endsWith`
unfoldable pub ends_with : String → String → Bool
ends_with String.[] p = p == ""
ends_with (String.◌∷◌ c s) p = String.◌∷◌ c s == p || ends_with s p

-- `readdirSync(dir).filter((f) => f.endsWith('.sql'))`
unfoldable pub sql_files : List String → List String
unfolding ends_with
sql_files [] = []
sql_files (f ∷ fs) = elim (ends_with f ".sql") [ true ↦ f ∷ sql_files fs | false ↦ sql_files fs ]
