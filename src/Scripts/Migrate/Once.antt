-- ===== src/Scripts/Migrate/Once.antt =====
-- That scripts/migrate.mjs may be run again.
use zudue_api.Base.{
  ◌≡◌, refl, sym, ap, ◌∙◌, String, Bool, true, not, ◌&&◌, ◌||◌, Option, none, some, List, [], ◌∷◌,
  arith, nat_eq, or_else, has, ◌==◌, eq_iff, eq_refl, Bool-cases, inl, inr, if_by,
}
use zudue_api.Scripts.Ledger.{LedgerApi}
use zudue_api.Scripts.Migrate.{Run, ddl_of, recorded, apply_file, apply_files}

module _ (api : LedgerApi) where
  open api use {Db, names, create_ledger, unsafe, insert_name}

  -- Whether a file is in the ledger.
  unfoldable pub in_ledger : String → Db → Bool
  in_ledger f d = has f (or_else (names d) [])

  -- What files and inserts keep, a run of the loop keeps.
  module _ (P : Db → Type 0) (file : (s : String) (d : Db) → P d → P (unsafe s d).0)
      (insert : (f : String) (d d' : Db) → insert_name f d ≡ some d' → P d → P d') where
    recorded_keeps :
        (f : String) (done : List String) (o : Option Db) (d : Db)
        → insert_name f d ≡ o
        → P d
        → P (recorded api f done o d).db
    unfolding recorded
    recorded_keeps f done none d e h = h
    recorded_keeps f done (some d') d e h = insert f d d' e h

    pub apply_file_keeps :
        (pw : Option String) (read : String → String) (f : String) (done : List String) (d : Db)
        → P d
        → P (apply_file api pw read f done d).db
    unfolding apply_file
    apply_file_keeps pw read f done d h =
        let r = unsafe (ddl_of api pw f (read f)) d in
        let u = file (ddl_of api pw f (read f)) d h in
        if_by (λ (x : Run api). P x.db) r.1 (recorded api f done (insert_name f r.0) r.0) _
          (λ e. recorded_keeps f done (insert_name f r.0) r.0 refl u) (λ e. u)

    pub apply_files_keeps :
        (pw : Option String) (read : String → String) (applied fs done : List String) (d : Db)
        → P d
        → P (apply_files api pw read applied fs done d).db
    unfolding apply_files
    apply_files_keeps pw read applied [] done d h = h
    apply_files_keeps pw read applied (f ∷ fs) done d h =
        let r = apply_file api pw read f done d in
        let a = apply_file_keeps pw read f done d h in
        if_by (λ (x : Run api). P x.db) (has f applied) _ _
          (λ e. apply_files_keeps pw read applied fs done d h)
          (λ e.
            if_by (λ (x : Run api). P x.db) (nat_eq r.status 0) _ _
              (λ s. apply_files_keeps pw read applied fs r.executed r.db a) (λ s. a))

  insert-in_ledger :
      (g f : String) (d d' : Db)
      → insert_name f d ≡ some d'
      → in_ledger g d ≡ true
      → in_ledger g d' ≡ true
  unfolding in_ledger
  insert-in_ledger g f d d' e h = let n = api.insert-names f g d d' e in ground arith

  unsafe-in_ledger :
      (g s : String) (d : Db) → in_ledger g d ≡ true → in_ledger g (unsafe s d).0 ≡ true
  unfolding in_ledger
  unsafe-in_ledger g s d h = api.unsafe-names s g d h

  apply_file-in_ledger :
      (pw : Option String) (read : String → String) (f g : String) (done : List String) (d : Db)
      → in_ledger g d ≡ true
      → in_ledger g (apply_file api pw read f done d).db ≡ true
  apply_file-in_ledger pw read f g =
      apply_file_keeps (λ d. in_ledger g d ≡ true) (unsafe-in_ledger g) (insert-in_ledger g) pw read
        f

  pub apply_files-in_ledger :
      (pw : Option String) (read : String → String) (applied : List String) (g : String)
      (fs done : List String) (d : Db)
      → in_ledger g d ≡ true
      → in_ledger g (apply_files api pw read applied fs done d).db ≡ true
  apply_files-in_ledger pw read applied g =
      apply_files_keeps (λ d. in_ledger g d ≡ true) (unsafe-in_ledger g) (insert-in_ledger g) pw
        read applied

  recorded-own :
      (f : String) (done : List String) (o : Option Db) (d : Db)
      → insert_name f d ≡ o
      → nat_eq (recorded api f done o d).status 0 ≡ true
      → in_ledger f (recorded api f done o d).db ≡ true
  unfolding recorded in_ledger
  recorded-own f done none d e h = ground arith
  recorded-own f done (some d') d e h =
      let n = api.insert-names f f d d' e in let r = eq_refl f in ground arith

  apply_file-own :
      (pw : Option String) (read : String → String) (f : String) (done : List String) (d : Db)
      → nat_eq (apply_file api pw read f done d).status 0 ≡ true
      → in_ledger f (apply_file api pw read f done d).db ≡ true
  unfolding apply_file
  apply_file-own pw read f done d =
      let r = unsafe (ddl_of api pw f (read f)) d in
      if_by (λ (x : Run api). nat_eq x.status 0 ≡ true → in_ledger f x.db ≡ true) r.1
        (recorded api f done (insert_name f r.0) r.0) _
        (λ e. recorded-own f done (insert_name f r.0) r.0 refl) (λ e h. ground arith)

  same_text : (f g : String) (d : Db) → (f == g) ≡ true → in_ledger f d ≡ in_ledger g d
  same_text f g d e = ap (λ x. in_ledger x d) ((eq_iff f g).0 e)

  -- A loop that goes through leaves each of its files in the ledger.
  pub apply_files-all :
      (pw : Option String) (read : String → String) (applied : List String) (g : String)
      (fs done : List String) (d : Db)
      → ((x : String) → has x applied ≡ true → in_ledger x d ≡ true)
      → nat_eq (apply_files api pw read applied fs done d).status 0 ≡ true
      → has g fs ≡ true
      → in_ledger g (apply_files api pw read applied fs done d).db ≡ true
  unfolding apply_files
  apply_files-all pw read applied g [] done d sub = λ s h. ground arith
  apply_files-all pw read applied g (f ∷ fs) done d sub =
      let r = apply_file api pw read f done d in
      if_by
        (λ (x : Run api).
          nat_eq x.status 0 ≡ true → has g (f ∷ fs) ≡ true → in_ledger g x.db ≡ true)
        (has f applied) _ _
        (λ e s h. elim (Bool-cases (f == g)) [
          | inl i ↦
              apply_files-in_ledger pw read applied g fs done d (sym (same_text f g d i) ∙ sub f e)
          | inr i ↦ apply_files-all pw read applied g fs done d sub s (ground arith)
        ])
        (λ e.
          if_by
            (λ (x : Run api).
              nat_eq x.status 0 ≡ true → has g (f ∷ fs) ≡ true → in_ledger g x.db ≡ true)
            (nat_eq r.status 0) _ _
            (λ z s h. elim (Bool-cases (f == g)) [
              | inl i ↦
                  apply_files-in_ledger pw read applied g fs r.executed r.db
                    (sym (same_text f g r.db i) ∙ apply_file-own pw read f done d z)
              | inr i ↦
                  apply_files-all pw read applied g fs r.executed r.db
                    (λ x a. apply_file-in_ledger pw read f x done d (sub x a)) s (ground arith)
            ])
            (λ z s h. let clash = sym z ∙ s in ground arith))

  apply_file-executed :
      (pw : Option String) (read : String → String) (f : String) (done : List String) (d : Db)
      → (apply_file api pw read f done d).executed ≡ f ∷ done
  unfolding apply_file recorded
  apply_file-executed pw read f done d =
      let r = unsafe (ddl_of api pw f (read f)) d in
      if_by (λ (x : Run api). x.executed ≡ f ∷ done) r.1
        (recorded api f done (insert_name f r.0) r.0) _
        (λ e. elim (insert_name f r.0) as (λ o. (recorded api f done o r.0).executed ≡ f ∷ done) [
          | none ↦ refl
          | some d' ↦ refl
        ])
        (λ e. refl)

  -- What a loop executes is a file that the ledger did not hold.
  pub apply_files-executed :
      (pw : Option String) (read : String → String) (applied : List String) (g : String)
      (fs done : List String) (d : Db)
      → has g (apply_files api pw read applied fs done d).executed ≡ true
      → (has g done || (has g fs && not (has g applied))) ≡ true
  unfolding apply_files
  apply_files-executed pw read applied g [] done d = λ h. ground arith
  apply_files-executed pw read applied g (f ∷ fs) done d =
      let r = apply_file api pw read f done d in
      let x = ap (has g) (apply_file-executed pw read f done d) in
      if_by
        (λ (x : Run api).
          has g x.executed ≡ true → (has g done || (has g (f ∷ fs) && not (has g applied))) ≡ true)
        (has f applied) _ _
        (λ e h. let ih = apply_files-executed pw read applied g fs done d h in ground arith)
        (λ e.
          let own : (f == g) ≡ true → has g applied ≡ has f applied =
            λ i. ap (λ y. has y applied) (sym ((eq_iff f g).0 i)) in
          if_by
            (λ (x : Run api).
              has g x.executed ≡ true
              → (has g done || (has g (f ∷ fs) && not (has g applied))) ≡ true)
            (nat_eq r.status 0) _ _
            (λ z h.
              let ih = apply_files-executed pw read applied g fs r.executed r.db h in ground arith)
            (λ z h. ground arith))
