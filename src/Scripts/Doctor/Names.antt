-- ===== src/Scripts/Doctor/Names.antt =====
-- The names that scripts/db-doctor.mjs misses in a ledger.
use zudue_api.Base.{
  ◌≡◌, refl, sym, ap, ◌∙◌, String, Bool, true, false, not, ◌&&◌, ◌||◌, List, [], ◌∷◌, arith, has,
  ◌==◌, eq_iff, eq_refl, Bool-cases, inl, inr,
}
use zudue_api.Scripts.Ledger.{sql_files, ends_with}
use zudue_api.Scripts.Migrate.Again.{IsSort}
use zudue_api.Scripts.Doctor.{Violation, violated, not_in}

abbrev pub is_empty {ℓ} : {A : Type ℓ} → List A → Bool
is_empty [] = true
is_empty (x ∷ xs) = false

-- Every SQL file of a directory is among the names.
unfoldable pub covered : List String → List String → Bool
unfolding ends_with
covered names [] = true
covered names (f ∷ fs) = (not (ends_with f ".sql") || has f names) && covered names fs

pub violated-is_empty :
    (code : String) (rows : List String) (rest : List Violation)
    → is_empty (violated code rows rest) ≡ (is_empty rows && is_empty rest)
unfolding violated
violated-is_empty code [] rest = refl
violated-is_empty code (r ∷ rs) rest = refl

pub not_in-covered :
    (known dir : List String) → is_empty (not_in known (sql_files dir)) ≡ covered known dir
unfolding not_in sql_files covered
not_in-covered known [] = refl
not_in-covered known (f ∷ fs) = let ih = not_in-covered known fs in ground arith

not_in-all :
    (known fs : List String) (f : String)
    → is_empty (not_in known fs) ≡ true
    → has f fs ≡ true
    → has f known ≡ true
unfolding not_in
not_in-all known [] f e h = ground arith
not_in-all known (g ∷ fs) f e h =
    let ih = λ (x : has f fs ≡ true). not_in-all known fs f (ground arith) x in
    elim (Bool-cases (g == f)) [
      | inl i ↦ ap (λ x. has x known) (sym ((eq_iff g f).0 i)) ∙ ground arith
      | inr i ↦ not_in-all known fs f (ground arith) (ground arith)
    ]

pub not_in-none :
    (known fs : List String)
    → ((f : String) → has f fs ≡ true → has f known ≡ true)
    → is_empty (not_in known fs) ≡ true
unfolding not_in
not_in-none known [] s = refl
not_in-none known (g ∷ fs) s =
    let r = eq_refl g in
    let own = s g (ground arith) in
    let ih = not_in-none known fs (λ f h. s f (ground arith)) in ground arith

pub not_in-sort :
    (sort : List String → List String) (known fs : List String)
    → IsSort sort
    → is_empty (not_in known (sort fs)) ≡ is_empty (not_in known fs)
unfolding IsSort
not_in-sort sort known fs k = elim (Bool-cases (is_empty (not_in known fs))) [
  | inl e ↦ not_in-none known (sort fs) (λ f h. not_in-all known fs f e (sym (k f fs) ∙ h)) ∙ sym e
  | inr e ↦ elim (Bool-cases (is_empty (not_in known (sort fs)))) [
    | inl x ↦
        let y = not_in-none known fs (λ f h. not_in-all known (sort fs) f x (k f fs ∙ h)) in
        ground arith
    | inr x ↦ x ∙ sym e
  ]
]
