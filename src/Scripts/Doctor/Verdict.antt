-- ===== src/Scripts/Doctor/Verdict.antt =====
-- What the exit code of scripts/db-doctor.mjs says, and what it says after scripts/migrate.mjs.
use zudue_api.Base.{
  ℕ, Bool-cases, inl, inr, ◌≡◌, refl, ap, ◌∙◌, String, Bool, true, false, not, ◌&&◌, Option, none,
  some, is_some, List, [], ◌∷◌, ◌++◌, arith, if◌then◌else◌,
}
use zudue_api.Scripts.Ledger.{LedgerApi, sql_files}
use zudue_api.Scripts.Migrate.Again.{IsSort}
use zudue_api.Scripts.Doctor.Names.{
  is_empty, covered, violated-is_empty, not_in-covered, not_in-sort,
}
use zudue_api.Scripts.Doctor.{
  LedgerQuery, ask_present, ask_forced, ask_names, Check, ext_refs, no_rls, rls_no_policy,
  loose_secdef, definer_views, overloads, unbalanced, wallet_drift, paid_no_utr, bad_identity,
  schema_checks, money_checks, Violation, violated, not_in, add_found, judge, look,
  ledger_violations, ledger_found, ledger_report, report_of, diagnose, exit_code, doctor,
}

-- An answer without rows.
abbrev pub is_clean {ℓ} : {A : Type ℓ} → Option (List A) → Bool
is_clean none = false
is_clean (some []) = true
is_clean (some (x ∷ xs)) = false

abbrev pub all_checks : List Check
all_checks =
    ext_refs ∷ no_rls ∷ rls_no_policy ∷ loose_secdef ∷ definer_views ∷ overloads ∷ unbalanced
    ∷ wallet_drift ∷ paid_no_utr ∷ bad_identity ∷ []

abbrev pub all_pass : (Check → Bool) → List Check → Bool
all_pass p [] = true
all_pass p (c ∷ cs) = p c && all_pass p cs

-- A test of every check.
abbrev pub every : (Check → Bool) → Bool
every p = all_pass p all_checks

and_assoc : (a b c : Bool) → ((a && b) && c) ≡ (a && (b && c))
and_assoc true b c = refl
and_assoc false b c = refl

module _ (ask : Check → Option (List String)) where
  judge-is_clean :
      (o : Option (List String)) (code : String) (rest : Option (List Violation))
      → is_clean (judge o code rest) ≡ (is_clean o && is_clean rest)
  unfolding judge add_found violated
  judge-is_clean none code rest = refl
  judge-is_clean (some []) code none = refl
  judge-is_clean (some (r ∷ rs)) code none = refl
  judge-is_clean (some []) code (some []) = refl
  judge-is_clean (some []) code (some (x ∷ xs)) = refl
  judge-is_clean (some (r ∷ rs)) code (some x) = refl

  judge-is_some :
      (o : Option (List String)) (code : String) (rest : Option (List Violation))
      → is_some (judge o code rest) ≡ (is_some o && is_some rest)
  unfolding judge add_found
  judge-is_some none code rest = refl
  judge-is_some (some rows) code none = refl
  judge-is_some (some rows) code (some x) = refl

  all_of : (Check → Bool) → List (Check × String) → Bool
  all_of p [] = true
  all_of p ((c, code) ∷ cs) = p c && all_of p cs

  all_of-append :
      (p : Check → Bool) (xs ys : List (Check × String))
      → (all_of p xs && all_of p ys) ≡ all_of p (xs ++ ys)
  unfolding all_of
  all_of-append p [] ys = refl
  all_of-append p ((c, code) ∷ xs) ys =
      and_assoc (p c) (all_of p xs) (all_of p ys) ∙ ap (λ b. p c && b) (all_of-append p xs ys)

  all_of-every : (p : Check → Bool) → (all_of p schema_checks && all_of p money_checks) ≡ every p
  unfolding all_of
  all_of-every p = all_of-append p schema_checks money_checks

  look-all_clean :
      (cs : List (Check × String)) → is_clean (look ask cs) ≡ all_of (λ c. is_clean (ask c)) cs
  unfolding look all_of
  look-all_clean [] = refl
  look-all_clean ((c, code) ∷ cs) =
      judge-is_clean (ask c) code (look ask cs)
      ∙ ap (λ b. is_clean (ask c) && b) (look-all_clean cs)

  look-all_answered :
      (cs : List (Check × String)) → is_some (look ask cs) ≡ all_of (λ c. is_some (ask c)) cs
  unfolding look all_of
  look-all_answered [] = refl
  look-all_answered ((c, code) ∷ cs) =
      judge-is_some (ask c) code (look ask cs)
      ∙ ap (λ b. is_some (ask c) && b) (look-all_answered cs)

  module _ (reads : LedgerQuery → Bool) (api : LedgerApi) (sort : List String → List String) where
    open api use {Db, names, forced}

    exit_by : Bool → Bool → ℕ
    exit_by answered holds = if not answered then 2 else if holds then 0 else 1

    spotless : Option (List Violation × List String) → Bool
    spotless none = false
    spotless (some l) = is_empty l.0

    exit_code-report_of :
        (a : Option (List Violation)) (l : Option (List Violation × List String))
        (b : Option (List Violation))
        → exit_code ask reads api sort (report_of ask reads api sort a l b)
          ≡ exit_by
              ((is_some a && is_some b) && is_some l)
              ((is_clean a && is_clean b) && spotless l)
    unfolding exit_code report_of exit_by spotless
    exit_code-report_of none l b = refl
    exit_code-report_of (some a) none none = refl
    exit_code-report_of (some a) none (some b) = refl
    exit_code-report_of (some a) (some l) none = refl
    exit_code-report_of (some []) (some ([], w)) (some []) = refl
    exit_code-report_of (some []) (some ([], w)) (some (x ∷ xs)) = refl
    exit_code-report_of (some []) (some (y ∷ ys, w)) (some []) = refl
    exit_code-report_of (some []) (some (y ∷ ys, w)) (some (x ∷ xs)) = refl
    exit_code-report_of (some (x ∷ xs)) (some l) (some b) = refl

    -- The queries of the ledger that are made all came back.
    unfoldable pub is_ledger_read : Db → Bool
    is_ledger_read d =
        reads ask_present
        && elim (names d) [ none ↦ true | some applied ↦ reads ask_forced && reads ask_names ]

    -- The ledger is there, its owner may write to it, and it covers the directory.
    unfoldable pub is_ledger_sound : List String → Db → Bool
    is_ledger_sound dir d = elim (names d) [
      | none ↦ false
      | some applied ↦ not (forced d) && covered applied dir
    ]

    ledger_violations-is_empty :
        (dir applied : List String) (f : Bool)
        → IsSort sort
        → is_empty (ledger_violations ask reads api sort dir applied f)
          ≡ (not f && covered applied dir)
    unfolding ledger_violations
    ledger_violations-is_empty dir applied true k = refl
    ledger_violations-is_empty dir applied false k =
        let v = violated-is_empty "LEDGER_BEHIND" (not_in applied (sort (sql_files dir))) [] in
        let s = not_in-sort sort applied (sql_files dir) k in
        let c = not_in-covered applied dir in ground arith

    -- A report on a ledger is there exactly if its queries came back.
    ledger_found-is_some :
        (dir : List String) (f : Bool) (n : Option (List String))
        → is_some (ledger_found ask reads api sort dir f n) ≡ (elim n as (λ x. Bool) [
          | none ↦ true
          | some applied ↦ reads ask_forced && reads ask_names
        ])
    unfolding ledger_found
    ledger_found-is_some dir f none = refl
    ledger_found-is_some dir f (some applied) = ground arith

    ledger_found-spotless :
        (dir : List String) (f : Bool) (n : Option (List String))
        → IsSort sort
        → spotless (ledger_found ask reads api sort dir f n) ≡ (
            (elim n as (λ x. Bool) [
              | none ↦ true
              | some applied ↦ reads ask_forced && reads ask_names
            ])
            && (elim n as (λ x. Bool) [
              | none ↦ false
              | some applied ↦ not f && covered applied dir
            ]))
    unfolding ledger_found spotless
    ledger_found-spotless dir f none k = refl
    ledger_found-spotless dir f (some applied) k =
        let v = ledger_violations-is_empty dir applied f k in
        elim (Bool-cases (reads ask_forced && reads ask_names)) [
          | inl e ↦ rw (e) v
          | inr e ↦ rw (e) refl
        ]

    ledger_report-is_ledger_read :
        (dir : List String) (d : Db)
        → is_some (ledger_report ask reads api sort dir d) ≡ is_ledger_read d
    unfolding ledger_report is_ledger_read
    ledger_report-is_ledger_read dir d = elim (Bool-cases (reads ask_present)) [
      | inl p ↦ rw (p) (ledger_found-is_some dir (forced d) (names d))
      | inr p ↦ rw (p) refl
    ]

    ledger_report-is_ledger_sound :
        (dir : List String) (d : Db)
        → IsSort sort
        → spotless (ledger_report ask reads api sort dir d)
          ≡ (is_ledger_read d && is_ledger_sound dir d)
    unfolding ledger_report is_ledger_sound is_ledger_read spotless
    ledger_report-is_ledger_sound dir d k = elim (Bool-cases (reads ask_present)) [
      | inl p ↦ rw (p) (ledger_found-spotless dir (forced d) (names d) k)
      | inr p ↦ rw (p) refl
    ]

    exit_by-read :
        (answered read clean sound : Bool)
        → exit_by (answered && read) (clean && (read && sound))
          ≡ exit_by (answered && read) (clean && sound)
    unfolding exit_by
    exit_by-read answered read clean sound = ground arith

    -- The exit code says what was found: 2 if one of the ten checks or a query of the ledger failed (whether the
    -- owner is subject to RLS and the names are asked only of a ledger that is there), else 0 exactly if each of the
    -- checks came back without a row, and the ledger is there, is not closed to its owner and covers every SQL file
    -- of the directory, and else 1. Names in the ledger that stand for no file do not count.
    pub doctor_verdict :
        IsSort sort
        → (dir : List String) (d : Db)
        → doctor ask reads api sort dir d ≡ (
            if not (every (λ c. is_some (ask c)) && is_ledger_read d)
            then 2
            else if every (λ c. is_clean (ask c)) && is_ledger_sound dir d
            then 0
            else 1)
    unfolding doctor diagnose exit_by
    doctor_verdict k dir d =
        let answered : (is_some (look ask schema_checks) && is_some (look ask money_checks))
            ≡ every (λ c. is_some (ask c)) =
          (λ i. look-all_answered schema_checks i && look-all_answered money_checks i)
          ∙ all_of-every (λ c. is_some (ask c)) in
        let clean : (is_clean (look ask schema_checks) && is_clean (look ask money_checks))
            ≡ every (λ c. is_clean (ask c)) =
          (λ i. look-all_clean schema_checks i && look-all_clean money_checks i)
          ∙ all_of-every (λ c. is_clean (ask c)) in
        let r = ledger_report-is_ledger_read dir d in
        let l = ledger_report-is_ledger_sound dir d k in
        exit_code-report_of (look ask schema_checks) (ledger_report ask reads api sort dir d)
          (look ask money_checks)
        ∙ (λ i. exit_by (answered i && r i) (clean i && l i))
        ∙ exit_by-read (every (λ c. is_some (ask c))) (is_ledger_read d)
            (every (λ c. is_clean (ask c))) (is_ledger_sound dir d)
