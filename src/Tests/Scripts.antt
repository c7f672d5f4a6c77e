-- ===== src/Tests/Scripts.antt =====
-- The theorems on src/scripts at a database with two migrations.
use zudue_api.Base.{
  Bool, ℕ, suc, ◌≡◌, refl, ap, sym, String, true, false, not, ◌&&◌, ◌||◌, Option, none, some,
  is_some, or_else, length, List, [], ◌∷◌, nat_eq, has, ◌==◌, if◌then◌else◌,
}
use zudue_api.Scripts.Ledger.{LedgerApi, sql_files, ends_with}
use zudue_api.Scripts.Migrate.{migrate, apply_files, apply_file, recorded, ddl_of}
use zudue_api.Scripts.Migrate.Once.{in_ledger}
use zudue_api.Scripts.Migrate.Again.{IsSort, migrate_again}
use zudue_api.Scripts.Doctor.{LedgerQuery, ask_names, Check, paid_no_utr, doctor}
use zudue_api.Scripts.Doctor.Verdict.{
  every, is_clean, is_ledger_sound, is_ledger_read, doctor_verdict,
}
use zudue_api.Scripts.Doctor.Deploy.{migrate-doctor}
use zudue_api.Scripts.Admins.{
  AdminDb, answered, make_admin, positional_of, second?, or_text, change_admin, granted,
}
use zudue_api.Scripts.Admins.Grants.{calls_due, went_through, email_of, make_admin_due}

record Pg : Type 0 where
  table : Option (List String)
  tables : ℕ

-- A database where a file adds a table, and the text `broken` fails after that.
abbrev pg : LedgerApi
pg = record {
  Db = Pg;
  names = λ d. d.table;
  app_tables = λ d. d.tables;
  forced = λ d. false;
  create_ledger = λ d. record d { table = some (or_else d.table []) };
  unsafe = λ s d. (record d { tables = suc d.tables }, not (s == "broken"));
  insert_name = λ f d. some (record d { table = some (f ∷ or_else d.table []) });
  create-names = λ d. refl;
  unsafe-names = λ s f d h. h;
  unsafe-kept = λ s d h. h;
  insert-kept = λ f d d' e h. ap (λ o. elim o [ none ↦ true | some x ↦ is_some x.table ]) (sym e);
  insert-names =
      λ f g d d' e. ap (λ o. has g (elim o [ none ↦ [] | some x ↦ or_else x.table [] ])) (sym e);
}

abbrev in_order : List String → List String
in_order fs = fs

in_order-IsSort : IsSort in_order
unfolding IsSort
in_order-IsSort f fs = refl

abbrev migrations : List String
migrations = "0001_init.sql" ∷ "README.md" ∷ "0002_more.sql" ∷ []

abbrev empty_db : Pg
empty_db = record { table = none; tables = 0 }

abbrev texts : String → String
texts f = "create table t ()"

-- The second file breaks.
abbrev half : String → String
half f = if f == "0002_more.sql" then "broken" else "create table t ()"

abbrev after_half : Pg
after_half = (migrate pg in_order migrations none half empty_db).db

half_run :
    (migrate pg in_order migrations none half empty_db).status ≡ 1
    × ((migrate pg in_order migrations none texts after_half).executed ≡ "0002_more.sql" ∷ [])
    × ((migrate pg in_order migrations none texts after_half).status ≡ 0)
unfolding migrate sql_files ends_with apply_files apply_file recorded ddl_of
half_run = (refl, refl, refl)

migrate_again_example :
    ((has "0001_init.sql" (migrate pg in_order migrations none texts after_half).executed
        && (not (has "0001_init.sql" (sql_files migrations))
            || in_ledger pg "0001_init.sql" (migrate pg in_order migrations none half empty_db).db))
      ≡ false)
    × ((nat_eq (migrate pg in_order migrations none half empty_db).status 0
          && has "0001_init.sql" (sql_files migrations)
          && not
              (in_ledger pg "0001_init.sql" (migrate pg in_order migrations none half empty_db).db))
        ≡ false)
    × ((nat_eq (migrate pg in_order migrations none half empty_db).status 0
          && has "0001_init.sql"
              (migrate pg in_order migrations none texts
                (migrate pg in_order migrations none half empty_db).db).executed)
        ≡ false)
migrate_again_example =
    migrate_again pg in_order in_order-IsSort migrations migrations none none half texts empty_db
      "0001_init.sql"

-- Payouts without a UTR, and nothing else.
abbrev unpaid : Check → Option (List String)
unpaid paid_no_utr = some ("p1" ∷ [])
unpaid _ = some []

-- The login may not read `_migrations`.
abbrev most_read : LedgerQuery → Bool
most_read ask_names = false
most_read q = true

doctor_verdict_example : doctor unpaid most_read pg in_order migrations empty_db ≡ (
    if not (every (λ c. is_some (unpaid c)) && is_ledger_read unpaid most_read pg in_order empty_db)
    then 2
    else if every (λ c. is_clean (unpaid c))
        && is_ledger_sound unpaid most_read pg in_order migrations empty_db
    then 0
    else 1)
doctor_verdict_example =
    doctor_verdict unpaid most_read pg in_order in_order-IsSort migrations empty_db

abbrev all_read : LedgerQuery → Bool
all_read q = true

migrate-doctor_example :
    doctor unpaid all_read pg in_order migrations
      (migrate pg in_order migrations none texts empty_db).db
    ≡ (if not (every (λ c. is_some (unpaid c)) && (true && (true && true)))
        then 2
        else if every (λ c. is_clean (unpaid c)) && true
        then 0
        else 1)
unfolding migrate sql_files ends_with apply_files apply_file recorded ddl_of
migrate-doctor_example =
    migrate-doctor pg in_order in_order-IsSort unpaid all_read migrations none texts empty_db refl

abbrev small_letters : String → String
small_letters s = s

-- One profile, which `bootstrap_admin` serves.
abbrev accounts : AdminDb
accounts = record {
  list_admins = answered [];
  has_profile = λ e. answered (e == "a@b.in");
  bootstrap = λ b. answered true;
}

abbrev grant : List String
grant = "a@b.in" ∷ "FINANCE" ∷ []

make_admin_due_example :
    (calls_due accounts (email_of grant) false (make_admin small_letters true accounts grant).calls
      ≡ true)
    × ((false && not (nat_eq (length (make_admin small_letters true accounts grant).calls) 0))
        ≡ false)
    × (nat_eq (make_admin small_letters true accounts grant).status 0
        ≡ went_through accounts (make_admin small_letters true accounts grant).calls)
make_admin_due_example = make_admin_due small_letters true accounts grant

made_admin :
    (make_admin small_letters true accounts grant).calls
    ≡ record { email = "a@b.in"; tier = "FINANCE"; revoke = false } ∷ []
unfolding make_admin positional_of second? or_text change_admin granted
made_admin = refl
