-- ===== src/Scripts/Migrate.antt =====
-- scripts/migrate.mjs: the run of the migrations against a ledger. What the directory holds, its files and the
-- sort of the runtime are arguments; `sort` keeps the names it is given.
-- The queries before the loop (that of the ledger itself, and of its state) are taken as answered: where one fails
-- the script exits with 1 and has executed no file.
pub mod Once
pub mod Again
use zudue_api.Base.{
  ℕ, String, Bool, true, false, not, ◌&&◌, ◌||◌, Option, none, some, List, [], ◌∷◌, ltb, nat_eq,
  length, or_else, has, ◌==◌, if◌then◌else◌,
}
use zudue_api.Text.{◌<>◌, includes}
use zudue_api.Scripts.Ledger.{LedgerApi, sql_files}

module _ (api : LedgerApi) where
  open api use {Db, names, app_tables, forced, create_ledger, unsafe, insert_name}

  -- The database after a run, the exit code, and the files that were executed, the last one first.
  pub record Run : Type 0 where
    pub db : Db
    pub status : ℕ
    pub executed : List String

  -- The text that is executed for a file: 0025 reads the password of the role from a setting.
  unfoldable pub ddl_of : Option String → String → String → String
  unfolding includes
  ddl_of none f text = text
  ddl_of (some pw) f text =
      if includes f "production_hardening" && not (pw == "")
      then "set zudue.app_role_password = '" <> (pw <> ("';\n" <> text))
      else text

  -- `insert into _migrations … on conflict do nothing`, after the file; a failure is thrown out of `main`.
  unfoldable pub recorded : String → List String → Option Db → Db → Run
  recorded f done none d = record { db = d; status = 1; executed = f ∷ done }
  recorded f done (some d') d = record { db = d'; status = 0; executed = f ∷ done }

  -- One file that is not in the ledger.
  unfoldable pub apply_file : Option String → (String → String) → String → List String → Db → Run
  unfolding ddl_of recorded
  apply_file pw read f done d =
      let r = unsafe (ddl_of pw f (read f)) d in
      if r.1
      then recorded f done (insert_name f r.0) r.0
      else record { db = r.0; status = 1; executed = f ∷ done }

  -- The loop over the files, which ends where a statement throws.
  unfoldable pub apply_files :
      Option String → (String → String) → List String → List String → List String → Db → Run
  unfolding apply_file
  apply_files pw read applied [] done d = record { db = d; status = 0; executed = done }
  apply_files pw read applied (f ∷ fs) done d =
      let r = apply_file pw read f done d in
      let rest = apply_files pw read applied fs r.executed r.db in
      let skipped = apply_files pw read applied fs done d in
      if has f applied then skipped else if nat_eq r.status 0 then rest else r

  -- `main`
  unfoldable pub migrate :
      (List String → List String) → List String → Option String → (String → String) → Db → Run
  unfolding apply_files sql_files
  migrate sort dir pw read d =
      let d1 = create_ledger d in
      let applied = or_else (names d1) [] in
      if nat_eq (length applied) 0 && ltb 0 (app_tables d1)
      then record { db = d1; status = 1; executed = [] }
      else if forced d1
      then record { db = d1; status = 1; executed = [] }
      else apply_files pw read applied (sort (sql_files dir)) [] d1
