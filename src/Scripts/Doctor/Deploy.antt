-- ===== src/Scripts/Doctor/Deploy.antt =====
-- scripts/db-doctor.mjs after scripts/migrate.mjs, as a deploy runs them.
use zudue_api.Base.{
  ◌≡◌, refl, sym, ◌∙◌, String, Bool, true, false, not, ◌&&◌, Option, none, some, is_some, List, [],
  arith, or_else, nat_eq, has, if◌then◌else◌,
}
use zudue_api.Scripts.Ledger.{LedgerApi, sql_files}
use zudue_api.Scripts.Migrate.{migrate}
use zudue_api.Scripts.Migrate.Once.{in_ledger}
use zudue_api.Scripts.Migrate.Again.{IsSort, migrate-all, migrate-names}
use zudue_api.Scripts.Doctor.{LedgerQuery, ask_present, ask_forced, ask_names, Check, doctor}
use zudue_api.Scripts.Doctor.Names.{covered, not_in-none, not_in-covered}
use zudue_api.Scripts.Doctor.Verdict.{
  is_clean, every, is_ledger_sound, is_ledger_read, doctor_verdict,
}

module _ (api : LedgerApi) (sort : List String → List String) (keeps : IsSort sort)
    (ask : Check → Option (List String)) (reads : LedgerQuery → Bool) where
  open api use {Db, names, forced}

  sound_by :
      (dir : List String) (d : Db)
      → is_some (names d) ≡ true
      → ((f : String) → has f (sql_files dir) ≡ true → in_ledger api f d ≡ true)
      → is_ledger_sound ask reads api sort dir d ≡ not (forced d)
  unfolding is_ledger_sound in_ledger
  sound_by dir d =
      elim (names d)
        as (λ n.
          is_some n ≡ true
          → ((f : String) → has f (sql_files dir) ≡ true → has f (or_else n []) ≡ true)
          → (elim n as (λ x. Bool) [
            | none ↦ false
            | some applied ↦ not (forced d) && covered applied dir
          ])
            ≡ not (forced d)) [
              | none ↦ λ h s. ground arith
              | some applied ↦ λ h s.
                  let c =
                    sym (not_in-covered applied dir) ∙ not_in-none applied (sql_files dir) s in
                  ground arith
            ]

  read_by :
      (d : Db)
      → is_some (names d) ≡ true
      → is_ledger_read ask reads api sort d
        ≡ (reads ask_present && (reads ask_forced && reads ask_names))
  unfolding is_ledger_read
  read_by d =
      elim (names d)
        as (λ n.
          is_some n ≡ true
          → (reads ask_present && (elim n as (λ x. Bool) [
            | none ↦ true
            | some applied ↦ reads ask_forced && reads ask_names
          ]))
            ≡ (reads ask_present && (reads ask_forced && reads ask_names))) [
              | none ↦ λ h. absurd (ground arith)
              | some applied ↦ λ h. refl
            ]

  -- A deploy that migrates and then asks the doctor about the same directory is told nothing of the ledger but
  -- whether the migrations have closed it to its owner: where the migration exits with 0, the doctor exits with
  -- 2 if one of its thirteen queries failed, and else with 0 exactly if the ten checks came back without a row and
  -- that is not so.
  pub migrate-doctor :
      (dir : List String) (pw : Option String) (read : String → String) (d : Db)
      → nat_eq (migrate api sort dir pw read d).status 0 ≡ true
      → doctor ask reads api sort dir (migrate api sort dir pw read d).db ≡ (
          if not (
            every (λ c. is_some (ask c))
            && (reads ask_present && (reads ask_forced && reads ask_names)))
          then 2
          else if every (λ c. is_clean (ask c)) && not (forced (migrate api sort dir pw read d).db)
          then 0
          else 1)
  migrate-doctor dir pw read d z =
      let after = (migrate api sort dir pw read d).db in
      let there = migrate-names api sort keeps dir pw read d in
      let r = read_by after there in
      let s = sound_by dir after there (λ f h. migrate-all api sort keeps dir pw read f d z h) in
      doctor_verdict ask reads api sort keeps dir after ∙ (λ i.
        if not (every (λ c. is_some (ask c)) && r i)
        then 2
        else if every (λ c. is_clean (ask c)) && s i
        then 0
        else 1)
