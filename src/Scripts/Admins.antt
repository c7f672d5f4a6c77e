-- ===== src/Scripts/Admins.antt =====
-- scripts/make-admin.mjs: who is made an admin, or is one no longer. The queries are answered by an argument, and
-- `toUpperCase` is the runtime's; what is printed is left out.
pub mod Grants
use zudue_api.Base.{
  ℕ, String, Bool, true, false, not, ◌&&◌, ◌||◌, Option, none, some, or_else, head?, List, [], ◌∷◌,
  has, ◌==◌, if◌then◌else◌,
}
use zudue_api.Text.{starts_with}

-- `TIERS`
abbrev pub tiers : List String
tiers = "SUPER_ADMIN" ∷ "FINANCE" ∷ "SUPPORT" ∷ "MODERATOR" ∷ []

-- `args.filter((a) => !a.startsWith('--'))`
unfoldable pub positional_of : List String → List String
positional_of [] = []
positional_of (a ∷ args) = elim (starts_with a "--") [
  | true ↦ positional_of args
  | false ↦ a ∷ positional_of args
]

-- `xs[1]`
unfoldable pub second? : List String → Option String
second? [] = none
second? (x ∷ xs) = head? xs

-- `a || b` of texts.
unfoldable pub or_text : Option String → String → String
or_text none b = b
or_text (some a) b = if a == "" then b else a

-- `public.bootstrap_admin(email, tier, revoke)`
pub record Bootstrap : Type 0 where
  pub email : String
  pub tier : String
  pub revoke : Bool

-- An answer of the database: one that failed, or rows.
pub data Answer {ℓ} (A : Type ℓ) : Type ℓ where
  failed : Answer A
  answered : A → Answer A

-- The database: the list of admins, whether an email has a profile, and whether `bootstrap_admin` succeeds.
pub record AdminDb : Type 0 where
  pub list_admins : Answer (List String)
  pub has_profile : String → Answer Bool
  pub bootstrap : Bootstrap → Answer Bool

-- The exit code, and the calls of `bootstrap_admin`.
pub record Done : Type 0 where
  pub status : ℕ
  pub calls : List Bootstrap

abbrev pub exits : ℕ → Done
exits n = record { status = n; calls = [] }

unfoldable pub list_all : Answer (List String) → Done
list_all failed = exits 1
list_all (answered rows) = exits 0

-- Both calls of `bootstrap_admin`, which end alike.
unfoldable pub granted : Bootstrap → Answer Bool → Done
granted b (answered true) = record { status = 0; calls = b ∷ [] }
granted b _ = record { status = 1; calls = b ∷ [] }

unfoldable pub change_admin : AdminDb → Bool → String → String → Answer Bool → Done
unfolding granted
change_admin db revoke email tier (answered true) =
    let b : Bootstrap = record {
      email = email;
      tier = if revoke then "SUPER_ADMIN" else tier;
      revoke = revoke;
    } in
    granted b (db.bootstrap b)
change_admin db revoke email tier _ = exits 1

-- The arguments that are not usable end the script with 2, before it connects. `url` says whether there is one
-- to connect to.
unfoldable pub make_admin : (String → String) → Bool → AdminDb → List String → Done
unfolding positional_of second? or_text list_all change_admin
make_admin upper url db args =
    let positional = positional_of args in
    let email = or_text (head? positional) "" in
    let tier = upper (or_text (second? positional) "SUPER_ADMIN") in
    let list = has "--list" args in
    let revoke = has "--revoke" args in
    if not url
    then exits 2
    else if not list && email == ""
    then exits 2
    else if not list && not revoke && not (has tier tiers)
    then exits 2
    else if list
    then list_all db.list_admins
    else change_admin db revoke email tier (db.has_profile email)
