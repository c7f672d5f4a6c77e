-- ===== src/Scripts/Migrate/Again.antt =====
-- What a second run of scripts/migrate.mjs does.
use zudue_api.Base.{
  ◌≡◌, refl, sym, ap, ◌∙◌, String, true, false, not, ◌&&◌, ◌||◌, Option, List, [], arith, ltb,
  nat_eq, length, or_else, is_some, has, Bool-cases, inl, inr, if_by, if◌then◌else◌,
}
use zudue_api.Scripts.Ledger.{LedgerApi, sql_files}
use zudue_api.Scripts.Migrate.{Run, apply_files, migrate}
use zudue_api.Scripts.Migrate.Once.{
  apply_files_keeps, in_ledger, apply_files-in_ledger, apply_files-all, apply_files-executed,
}

-- A sort keeps the names that it is given.
unfoldable pub IsSort : (List String → List String) → Type 0
IsSort sort = (f : String) (fs : List String) → has f (sort fs) ≡ has f fs

module _ (api : LedgerApi) (sort : List String → List String) (keeps : IsSort sort) where
  open api use {Db, names, create_ledger}

  create-in_ledger : (f : String) (d : Db) → in_ledger api f (create_ledger d) ≡ in_ledger api f d
  unfolding in_ledger
  create-in_ledger f d = ap (λ o. has f (or_else o [])) (api.create-names d)

  -- The run that the guards stop.
  stopped : Db → Run api
  stopped d = record { db = create_ledger d; status = 1; executed = [] }

  -- The loop of the run behind the guards.
  loop : List String → Option String → (String → String) → Db → Run api
  loop dir pw read d =
      apply_files api pw read (or_else (names (create_ledger d)) []) (sort (sql_files dir)) []
        (create_ledger d)

  -- What holds of the run that the guards stop and of the loop holds of the run.
  migrate_by :
      (P : Run api → Type 0) (dir : List String) (pw : Option String) (read : String → String)
      (d : Db)
      → P (stopped d)
      → P (loop dir pw read d)
      → P (migrate api sort dir pw read d)
  unfolding migrate stopped loop
  migrate_by P dir pw read d s l =
      let d1 = create_ledger d in
      let tests = nat_eq (length (or_else (names d1) [])) 0 && ltb 0 (api.app_tables d1) in
      let rest : Run api = if api.forced d1 then stopped d else loop dir pw read d in
      if_by P tests (stopped d) rest (λ e. s)
        (λ e. if_by P (api.forced d1) (stopped d) (loop dir pw read d) (λ z. s) (λ z. l))

  -- The names that a run finds in the ledger.
  listed :
      (f : String) (d : Db)
      → in_ledger api f (create_ledger d) ≡ has f (or_else (names (create_ledger d)) [])
  unfolding in_ledger
  listed f d = refl

  -- What a run executes is a file of the directory that its ledger did not hold.
  migrate-executed :
      (dir : List String) (pw : Option String) (read : String → String) (g : String) (d : Db)
      → has g (migrate api sort dir pw read d).executed ≡ true
      → (has g (sql_files dir) && not (in_ledger api g d)) ≡ true
  unfolding loop stopped IsSort
  migrate-executed dir pw read g d =
      let applied = or_else (names (create_ledger d)) [] in
      let P : Run api → Type 0 =
        λ x. has g x.executed ≡ true → (has g (sql_files dir) && not (in_ledger api g d)) ≡ true in
      migrate_by P dir pw read d (λ h. ground arith)
        (λ h.
          let x =
            apply_files-executed api pw read applied g (sort (sql_files dir)) [] (create_ledger d)
              h in
          let k = keeps g (sql_files dir) in
          let c = sym (listed g d) ∙ create-in_ledger g d in ground arith)

  migrate-in_ledger :
      (dir : List String) (pw : Option String) (read : String → String) (g : String) (d : Db)
      → in_ledger api g d ≡ true
      → in_ledger api g (migrate api sort dir pw read d).db ≡ true
  unfolding loop stopped
  migrate-in_ledger dir pw read g d h =
      let applied = or_else (names (create_ledger d)) [] in
      let c : in_ledger api g (create_ledger d) ≡ true = create-in_ledger g d ∙ h in
      let P : Run api → Type 0 = λ x. in_ledger api g x.db ≡ true in
      migrate_by P dir pw read d c
        (apply_files-in_ledger api pw read applied g (sort (sql_files dir)) [] (create_ledger d) c)

  -- A run that goes through leaves every file of the directory in the ledger.
  pub migrate-all :
      (dir : List String) (pw : Option String) (read : String → String) (g : String) (d : Db)
      → nat_eq (migrate api sort dir pw read d).status 0 ≡ true
      → has g (sql_files dir) ≡ true
      → in_ledger api g (migrate api sort dir pw read d).db ≡ true
  unfolding loop stopped IsSort
  migrate-all dir pw read g d =
      let applied = or_else (names (create_ledger d)) [] in
      let P : Run api → Type 0 = λ x.
        nat_eq x.status 0 ≡ true → has g (sql_files dir) ≡ true → in_ledger api g x.db ≡ true in
      migrate_by P dir pw read d (λ s h. ground arith)
        (λ s h.
          apply_files-all api pw read applied g (sort (sql_files dir)) [] (create_ledger d)
            (λ x a. listed x d ∙ a) s (keeps g (sql_files dir) ∙ h))

  -- After a run the ledger is there.
  pub migrate-names :
      (dir : List String) (pw : Option String) (read : String → String) (d : Db)
      → is_some (names (migrate api sort dir pw read d).db) ≡ true
  unfolding stopped loop
  migrate-names dir pw read d =
      let P : Run api → Type 0 = λ x. is_some (names x.db) ≡ true in
      let c : is_some (names (create_ledger d)) ≡ true = ap is_some (api.create-names d) in
      migrate_by P dir pw read d c (
        apply_files_keeps api (λ e. is_some (names e) ≡ true) api.unsafe-kept api.insert-kept pw
          read (or_else (names (create_ledger d)) []) (sort (sql_files dir)) [] (create_ledger d) c)

  -- The script may be run again. After any run, one that was refused or that broke off included, a further
  -- run, of whatever directory, executes only files of its directory that the run before did not leave in the
  -- ledger. After a run that exits with 0 each file of the directory is in the ledger, and a further run of the
  -- same directory executes nothing.
  pub migrate_again :
      (dir dir' : List String) (pw pw' : Option String) (read read' : String → String) (d : Db)
      (g : String)
      → ((has g (migrate api sort dir' pw' read' (migrate api sort dir pw read d).db).executed
            && (not (has g (sql_files dir'))
                || in_ledger api g (migrate api sort dir pw read d).db))
          ≡ false)
        × ((nat_eq (migrate api sort dir pw read d).status 0
              && has g (sql_files dir)
              && not (in_ledger api g (migrate api sort dir pw read d).db))
            ≡ false)
        × ((nat_eq (migrate api sort dir pw read d).status 0
              && has g
                  (migrate api sort dir pw' read' (migrate api sort dir pw read d).db).executed)
            ≡ false)
  migrate_again dir dir' pw pw' read read' d g =
      let first = migrate api sort dir pw read d in
      (
        elim (Bool-cases (has g (migrate api sort dir' pw' read' first.db).executed)) [
          | inl e ↦ let x = migrate-executed dir' pw' read' g first.db e in ground arith
          | inr e ↦ ground arith
        ],
        elim (Bool-cases (nat_eq first.status 0)) [
          | inl e ↦ elim (Bool-cases (has g (sql_files dir))) [
            | inl f ↦ let y = migrate-all dir pw read g d e f in ground arith
            | inr f ↦ ground arith
          ]
          | inr e ↦ ground arith
        ],
        elim (Bool-cases (has g (migrate api sort dir pw' read' first.db).executed)) [
          | inl e ↦
              let x = migrate-executed dir pw' read' g first.db e in
              elim (Bool-cases (nat_eq first.status 0)) [
                | inl s ↦ let y = migrate-all dir pw read g d s (ground arith) in ground arith
                | inr s ↦ ground arith
              ]
          | inr e ↦ ground arith
        ],
      )
