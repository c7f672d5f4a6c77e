-- ===== src/Scripts/Admins/Grants.antt =====
-- For whom and with what scripts/make-admin.mjs calls `bootstrap_admin`.
use zudue_api.Base.{
  ◌≡◌, refl, sym, ap, String, Bool, true, false, not, ◌&&◌, ◌||◌, head?, List, [], ◌∷◌, arith,
  nat_eq, length, has, ◌==◌, eq_refl, if_by, if◌then◌else◌,
}
use zudue_api.Scripts.Admins.{
  tiers, positional_of, second?, or_text, Bootstrap, Answer, failed, answered, AdminDb, Done, exits,
  list_all, granted, change_admin, make_admin,
}

-- The database says that the email has a profile.
unfoldable pub is_known : Answer Bool → Bool
is_known failed = false
is_known (answered b) = b

-- A call for the given email, that has a profile, with a tier that exists.
unfoldable pub is_due : AdminDb → String → Bool → Bootstrap → Bool
is_due db email revoke b =
    b.email == email
    && not (email == "")
    && is_known (db.has_profile email)
    && has b.tier tiers
    && ((b.revoke && revoke) || (not b.revoke && not revoke))

-- What the calls of a run are: none, or a single one that is due.
unfoldable pub calls_due : AdminDb → String → Bool → List Bootstrap → Bool
unfolding is_due
calls_due db email revoke [] = true
calls_due db email revoke (b ∷ []) = is_due db email revoke b
calls_due db email revoke (b ∷ c ∷ bs) = false

-- Some call went through.
unfoldable pub went_through : AdminDb → List Bootstrap → Bool
unfolding is_known
went_through db [] = false
went_through db (b ∷ bs) = is_known (db.bootstrap b)

-- Calls that are due, and an exit code that says whether one went through.
abbrev IsRight : AdminDb → String → Bool → Done → Type 0
IsRight db email revoke r =
    (calls_due db email revoke r.calls ≡ true) × (nat_eq r.status 0 ≡ went_through db r.calls)

granted-IsRight :
    (db : AdminDb) (email : String) (revoke : Bool) (b : Bootstrap) (a : Answer Bool)
    → db.bootstrap b ≡ a
    → is_due db email revoke b ≡ true
    → IsRight db email revoke (granted b a)
unfolding granted calls_due went_through is_known
granted-IsRight db email revoke b failed e d = (d, sym (ap is_known e))
granted-IsRight db email revoke b (answered true) e d = (d, sym (ap is_known e))
granted-IsRight db email revoke b (answered false) e d = (d, sym (ap is_known e))

change_admin-IsRight :
    (db : AdminDb) (revoke : Bool) (email tier : String) (a : Answer Bool)
    → db.has_profile email ≡ a
    → (email == "") ≡ false
    → (revoke || has tier tiers) ≡ true
    → IsRight db email revoke (change_admin db revoke email tier a)
unfolding change_admin calls_due went_through is_known is_due
change_admin-IsRight db revoke email tier failed e n t = (refl, refl)
change_admin-IsRight db revoke email tier (answered false) e n t = (refl, refl)
change_admin-IsRight db true email tier (answered true) e n t =
    let b : Bootstrap = record { email = email; tier = "SUPER_ADMIN"; revoke = true } in
    let s = eq_refl email in
    let k = ap is_known e in granted-IsRight db email true b (db.bootstrap b) refl (ground arith)
change_admin-IsRight db false email tier (answered true) e n t =
    let b : Bootstrap = record { email = email; tier = tier; revoke = false } in
    let s = eq_refl email in
    let k = ap is_known e in granted-IsRight db email false b (db.bootstrap b) refl (ground arith)

-- The email that the arguments name.
unfoldable pub email_of : List String → String
unfolding positional_of or_text
email_of args = or_text (head? (positional_of args)) ""

unfoldable pub is_answered : Answer (List String) → Bool
is_answered failed = false
is_answered (answered rows) = true

-- What the exit of the script keeps to.
abbrev IsFine : AdminDb → String → Bool → Bool → Bool → Done → Type 0
IsFine db email list revoke url r =
    (calls_due db email revoke r.calls ≡ true)
    × ((list && not (nat_eq (length r.calls) 0)) ≡ false)
    × (nat_eq r.status 0
        ≡ (if list then url && is_answered db.list_admins else went_through db r.calls))

exits-IsFine :
    (db : AdminDb) (email : String) (list revoke url : Bool)
    → (list && url) ≡ false
    → IsFine db email list revoke url (exits 2)
unfolding calls_due went_through
exits-IsFine db email true revoke true h = ground arith
exits-IsFine db email true revoke false h = (refl, refl, refl)
exits-IsFine db email false revoke url h = (refl, refl, refl)

list_all-IsFine :
    (db : AdminDb) (email : String) (list revoke url : Bool) (a : Answer (List String))
    → db.list_admins ≡ a
    → list ≡ true
    → url ≡ true
    → IsFine db email list revoke url (list_all a)
unfolding list_all calls_due is_answered
list_all-IsFine db email list revoke url failed e l u = let x = ap is_answered e in ground arith
list_all-IsFine db email list revoke url (answered rows) e l u =
    let x = ap is_answered e in ground arith

right-IsFine :
    (db : AdminDb) (email : String) (list revoke url : Bool) (r : Done)
    → list ≡ false
    → IsRight db email revoke r
    → IsFine db email list revoke url r
right-IsFine db email list revoke url r l h = ground arith

-- Whatever the arguments and the answers: the script calls `bootstrap_admin` at most once, and not with
-- `--list`; then for the email of the arguments, which is not empty and has a profile, with a tier that exists,
-- and to revoke exactly with `--revoke`. It exits with 0 exactly if that call succeeds, or the list is printed.
pub make_admin_due :
    (upper : String → String) (url : Bool) (db : AdminDb) (args : List String)
    → (calls_due db (email_of args) (has "--revoke" args) (make_admin upper url db args).calls
        ≡ true)
      × ((has "--list" args && not (nat_eq (length (make_admin upper url db args).calls) 0))
          ≡ false)
      × (nat_eq (make_admin upper url db args).status 0 ≡ (
          if has "--list" args
          then url && is_answered db.list_admins
          else went_through db (make_admin upper url db args).calls))
unfolding make_admin email_of
make_admin_due upper url db args =
    let email = email_of args in
    let tier = upper (or_text (second? (positional_of args)) "SUPER_ADMIN") in
    let list = has "--list" args in
    let revoke = has "--revoke" args in
    let P : Done → Type 0 = IsFine db email list revoke url in
    let change = change_admin db revoke email tier (db.has_profile email) in
    let act : Done = if list then list_all db.list_admins else change in
    let checked : Done = if not list && not revoke && not (has tier tiers) then exits 2 else act in
    let named : Done = if not list && email == "" then exits 2 else checked in
    if_by P (not url) (exits 2) named (λ u. exits-IsFine db email list revoke url (ground arith))
      (λ u.
        if_by P (not list && email == "") (exits 2) checked
          (λ e. exits-IsFine db email list revoke url (ground arith))
          (λ e.
            if_by P (not list && not revoke && not (has tier tiers)) (exits 2) act
              (λ t. exits-IsFine db email list revoke url (ground arith))
              (λ t.
                if_by P list (list_all db.list_admins) change
                  (λ l.
                    list_all-IsFine db email list revoke url db.list_admins refl l (ground arith))
                  (λ l.
                    let r =
                      change_admin-IsRight db revoke email tier (db.has_profile email) refl
                        (ground arith) (ground arith) in
                    right-IsFine db email list revoke url change l r))))
