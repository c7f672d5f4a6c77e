-- ===== src/Scripts/Doctor.antt =====
-- scripts/db-doctor.mjs: the invariants of the database that it asserts. Each of its queries is a check, answered with
-- the rows that violate it, or failing; the messages are left out.
pub mod Names
pub mod Verdict
pub mod Deploy
use zudue_api.Base.{
  ℕ, String, Bool, true, false, not, ◌&&◌, ◌||◌, Option, none, some, List, [], ◌∷◌, ◌++◌, has, ◌==◌,
  if◌then◌else◌,
}
use zudue_api.Scripts.Ledger.{LedgerApi, sql_files}

-- The queries that `main` makes besides those on the ledger.
pub data Check : Type 0 where
  ext_refs no_rls rls_no_policy loose_secdef definer_views overloads : Check
  unbalanced wallet_drift paid_no_utr bad_identity : Check

-- Its queries of the ledger: whether it is there, whether its owner is subject to RLS, and its names.
pub data LedgerQuery : Type 0 where
  ask_present ask_forced ask_names : LedgerQuery

-- The checks before the ledger, and those on money, with the codes of their failures.
abbrev pub schema_checks : List (Check × String)
schema_checks =
    (ext_refs, "EXT_SCHEMA")
    ∷ (no_rls, "RLS_ALL")
    ∷ (rls_no_policy, "RLS_NO_POLICY")
    ∷ (loose_secdef, "SECDEF_PATH")
    ∷ (definer_views, "VIEW_INVOKER")
    ∷ (overloads, "RPC_OVERLOAD")
    ∷ []

abbrev pub money_checks : List (Check × String)
money_checks =
    (unbalanced, "MONEY_LEDGER_UNBALANCED")
    ∷ (wallet_drift, "MONEY_WALLET_DRIFT")
    ∷ (paid_no_utr, "MONEY_PAYOUT_NO_UTR")
    ∷ (bad_identity, "MONEY_PRICE_IDENTITY")
    ∷ []

-- What `fail` and `warn` push.
pub record Violation : Type 0 where
  pub code : String
  pub rows : List String

-- `if (rows.length) fail(code, …, rows)`
unfoldable pub violated : String → List String → List Violation → List Violation
violated code [] rest = rest
violated code (r ∷ rs) rest = record { code = code; rows = r ∷ rs } ∷ rest

-- Those of the names that are not in a list.
unfoldable pub not_in : List String → List String → List String
not_in known [] = []
not_in known (f ∷ fs) = elim (has f known) [ true ↦ not_in known fs | false ↦ f ∷ not_in known fs ]

unfoldable pub add_found : String → List String → Option (List Violation) → Option (List Violation)
unfolding violated
add_found code rows none = none
add_found code rows (some found) = some (violated code rows found)

unfoldable pub judge :
    Option (List String) → String → Option (List Violation) → Option (List Violation)
unfolding add_found
judge none code rest = none
judge (some rows) code rest = add_found code rows rest

module _ (ask : Check → Option (List String)) where
  unfoldable pub look : List (Check × String) → Option (List Violation)
  unfolding judge
  look [] = some []
  look ((c, code) ∷ cs) = judge (ask c) code (look cs)

  module _ (reads : LedgerQuery → Bool) (api : LedgerApi) (sort : List String → List String) where
    open api use {Db, names, forced}

    -- `LEDGER_*`, of a ledger that is there.
    unfoldable pub ledger_violations : List String → List String → Bool → List Violation
    unfolding not_in sql_files violated
    ledger_violations dir applied is_forced =
        let behind = violated "LEDGER_BEHIND" (not_in applied (sort (sql_files dir))) [] in
        if is_forced
        then record { code = "LEDGER_FORCED"; rows = "_migrations" ∷ [] } ∷ behind
        else behind

    -- The names of the ledger that stand for no file, of which `main` only warns.
    unfoldable pub phantoms : List String → List String → List String
    unfolding not_in sql_files
    phantoms dir applied = sort (not_in (sort (sql_files dir)) applied)

    -- The report on a ledger with these names, if it is there; `reads` says which of the queries come back.
    unfoldable pub ledger_found :
        List String → Bool → Option (List String) → Option (List Violation × List String)
    unfolding ledger_violations phantoms
    ledger_found dir is_forced none =
        some (record { code = "LEDGER_MISSING"; rows = "_migrations" ∷ [] } ∷ [], [])
    ledger_found dir is_forced (some applied) =
        if reads ask_forced && reads ask_names
        then some (ledger_violations dir applied is_forced, phantoms dir applied)
        else none

    unfoldable pub ledger_report : List String → Db → Option (List Violation × List String)
    unfolding ledger_found
    ledger_report dir d = if reads ask_present then ledger_found dir (forced d) (names d) else none

    pub record Report : Type 0 where
      pub failures : List Violation
      pub warnings : List String

    unfoldable pub report_of :
        Option (List Violation)
        → Option (List Violation × List String)
        → Option (List Violation)
        → Option Report
    report_of none ledger money = none
    report_of (some schema) none money = none
    report_of (some schema) (some ledger) none = none
    report_of (some schema) (some ledger) (some money) =
        some (record { failures = schema ++ (ledger.0 ++ money); warnings = ledger.1 })

    -- What `main` collects, unless a query throws.
    unfoldable pub diagnose : List String → Db → Option Report
    unfolding look ledger_report report_of
    diagnose dir d = report_of (look schema_checks) (ledger_report dir d) (look money_checks)

    unfoldable pub exit_code : Option Report → ℕ
    exit_code none = 2
    exit_code (some r) = elim r.failures [ [] ↦ 0 | f ∷ fs ↦ 1 ]

    -- The exit code of the script, with a URL of a database given: without one it exits with 2.
    unfoldable pub doctor : List String → Db → ℕ
    unfolding diagnose exit_code
    doctor dir d = exit_code (diagnose dir d)
