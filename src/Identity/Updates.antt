-- ===== src/Identity/Updates.antt =====
-- What the handlers of src/identity/identity.module.ts write about the caller.
use zudue_api.Base.{
  ◌≡◌, refl, String, Bool, true, false, not, ◌&&◌, ◌||◌, Option, none, some, List, [], ◌∷◌, ◌++◌,
  arith, has, object_prototype, ◌==◌, eq_refl, if◌then◌else◌,
}
use zudue_api.Json.{Json, arr, is_false}
use zudue_api.Effect.{Env, History, history, call}
use zudue_api.Effect.Rules.{
  Keeps, Keeps-bind, Keeps-pure, Keeps-call, IsClosed, Keeps-run_as, Keeps-db_rpc,
}
use zudue_api.Effect.Statements.{Setter, Statement, update_partner_profile}
use zudue_api.Effect.Requests.{statement, named, text_arg}
use zudue_api.Identity.{
  Patch, setter_columns, partner_columns, in_setters, parts, apply_parts, update_profile,
  assignments, languages, apply_assignments, notify_waitlist, update_partner, entry,
}

-- No key is one that every object has: the validation pipe passes on declared properties only.
abbrev pub plain : Patch → Bool
plain [] = true
plain ((k, v) ∷ patch) = not (has k object_prototype) && plain patch

abbrev pub all_in : List String → List Setter → Bool
all_in cs [] = true
all_in cs (s ∷ ss) = has s.column cs && all_in cs ss

-- The updates of a history change only such columns, and only in the rows of this user.
abbrev pub writes_own : String → History → Bool
writes_own u [] = true
writes_own u (statement (Statement.update_profile ss w) ∷ h) =
    (w == u) && all_in setter_columns ss && writes_own u h
writes_own u (statement (update_partner_profile ss w) ∷ h) =
    (w == u) && all_in ("languages" ∷ partner_columns) ss && writes_own u h
writes_own u (r ∷ h) = writes_own u h

own_of : (a b c : Bool) → (a || b) ≡ true → (not b && c) ≡ true → a ≡ true
own_of a b c p q = ground arith

rest_of : (b c : Bool) → (not b && c) ≡ true → c ≡ true
rest_of b c q = ground arith

or_right : (a b : Bool) → b ≡ true → (a || b) ≡ true
or_right a b p = ground arith

left_of : (a b : Bool) → (a && b) ≡ true → a ≡ true
left_of a b p = ground arith

right_of : (a b : Bool) → (a && b) ≡ true → b ≡ true
right_of a b p = ground arith

and_intro : (a b : Bool) → a ≡ true → b ≡ true → (a && b) ≡ true
and_intro a b p q = ground arith

all_in-if :
    (cs : List String) (b : Bool) (s : Setter) (ss : List Setter)
    → (b ≡ true → has s.column cs ≡ true)
    → all_in cs ss ≡ true
    → all_in cs (if b then s ∷ ss else ss) ≡ true
all_in-if cs true s ss p h = and_intro (has s.column cs) (all_in cs ss) (p refl) h
all_in-if cs false s ss p h = h

parts-all_in : (patch : Patch) → plain patch ≡ true → all_in setter_columns (parts patch) ≡ true
unfolding parts
parts-all_in [] h = refl
parts-all_in ((k, none) ∷ patch) h =
    parts-all_in patch (rest_of (has k object_prototype) (plain patch) h)
parts-all_in ((k, some v) ∷ patch) h =
    all_in-if setter_columns (in_setters k) _ (parts patch)
      (λ e. own_of (has k setter_columns) (has k object_prototype) (plain patch) e h)
      (parts-all_in patch (rest_of (has k object_prototype) (plain patch) h))

assignments-all_in :
    (patch : Patch) → all_in ("languages" ∷ partner_columns) (assignments patch) ≡ true
unfolding assignments
assignments-all_in [] = refl
assignments-all_in ((k, none) ∷ patch) = assignments-all_in patch
assignments-all_in ((k, some v) ∷ patch) =
    all_in-if ("languages" ∷ partner_columns) (has k partner_columns) _ (assignments patch)
      (λ e. or_right ("languages" == k) (has k partner_columns) e) (assignments-all_in patch)

all_in-append :
    (cs : List String) (ss ts : List Setter)
    → all_in cs ss ≡ true
    → all_in cs ts ≡ true
    → all_in cs (ss ++ ts) ≡ true
all_in-append cs [] ts p q = q
all_in-append cs (s ∷ ss) ts p q =
    and_intro (has s.column cs) (all_in cs (ss ++ ts)) (left_of (has s.column cs) (all_in cs ss) p)
      (all_in-append cs ss ts (right_of (has s.column cs) (all_in cs ss) p) q)

languages-all_in : (l : Option Json) → all_in ("languages" ∷ partner_columns) (languages l) ≡ true
unfolding languages
languages-all_in (some (arr xs)) = refl
languages-all_in _ = refl

abbrev WritesOwn : String → Env → History → Type 0
WritesOwn u env h = writes_own u h ≡ true

WritesOwn-IsClosed : (u : String) → IsClosed (WritesOwn u)
WritesOwn-IsClosed u = record {
  opened = λ env h p. p;
  committed = λ env h p. p;
  undone = λ env h p. p;
  as_user = λ v env h p. p;
  as_service = λ env h p. p;
  as_anon = λ env h p. p;
}

apply_parts-own :
    (u : String) (ss : List Setter)
    → all_in setter_columns ss ≡ true
    → Keeps (WritesOwn u) (apply_parts u ss)
unfolding apply_parts
apply_parts-own u [] a = Keeps-pure false
apply_parts-own u (s ∷ ss) a =
    Keeps-bind (call (statement (Statement.update_profile (s ∷ ss) u))) _
      (Keeps-call (statement (Statement.update_profile (s ∷ ss) u)) (λ env h w.
        and_intro (u == u && all_in setter_columns (s ∷ ss)) (writes_own u h)
          (and_intro (u == u) (all_in setter_columns (s ∷ ss)) (eq_refl u) a) w))
      (λ _. Keeps-pure true)

apply_assignments-own :
    (u : String) (ss : List Setter)
    → all_in ("languages" ∷ partner_columns) ss ≡ true
    → Keeps (WritesOwn u) (apply_assignments u ss)
unfolding apply_assignments
apply_assignments-own u [] a = Keeps-pure false
apply_assignments-own u (s ∷ ss) a =
    Keeps-bind (call (statement (update_partner_profile (s ∷ ss) u))) _
      (Keeps-call (statement (update_partner_profile (s ∷ ss) u)) (λ env h w.
        and_intro (u == u && all_in ("languages" ∷ partner_columns) (s ∷ ss)) (writes_own u h)
          (and_intro (u == u) (all_in ("languages" ∷ partner_columns) (s ∷ ss)) (eq_refl u) a) w))
      (λ _. Keeps-pure true)

notify_waitlist-own : (u : String) (b : Bool) → Keeps (WritesOwn u) (notify_waitlist u b)
unfolding notify_waitlist
notify_waitlist-own u true =
    Keeps-bind _ _ (Keeps-db_rpc (named "rpc_notify_waitlist" (text_arg u ∷ [])) (λ env h p. p))
      (λ res. Keeps-pure _)
notify_waitlist-own u false = Keeps-pure _

-- Whatever a patch holds, the two updates of a profile change only the rows of the caller and only the columns
-- that they list: for `PUT /me`, of a patch that names none of the properties that every object inherits.
pub profile_updates-own :
    (u : String) (patch : Patch) (env : Env) (h : History)
    → plain patch ≡ true
    → writes_own u h ≡ true
    → (writes_own u (history (update_profile u patch env h)) ≡ true)
      × (writes_own u (history (update_partner u patch env h)) ≡ true)
unfolding update_profile update_partner
profile_updates-own u patch env h p w =
    let own = apply_parts-own u (parts patch) (parts-all_in patch p) in
    let all =
      all_in-append ("languages" ∷ partner_columns) (assignments patch)
        (languages (entry "languages" patch)) (assignments-all_in patch)
        (languages-all_in (entry "languages" patch)) in
    (
      (Keeps-run_as u (apply_parts u (parts patch)) (WritesOwn-IsClosed u) own).at env h w,
      (Keeps-run_as u _ (WritesOwn-IsClosed u) (
            Keeps-bind _ _
              (apply_assignments-own u (assignments patch ++ languages (entry "languages" patch))
                all)
              (λ updated.
                Keeps-bind _ _ (notify_waitlist-own u (is_false (entry "vacation_mode" patch)))
                  (λ n. Keeps-pure _)))).at
          env h w,
    )
