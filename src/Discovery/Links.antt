-- ===== src/Discovery/Links.antt =====
-- Which ids a link of src/discovery/discovery.module.ts makes the database look up.
use zudue_api.Base.{
  ◌≡◌, refl, ap, ◌∙◌, String, Bool, true, false, ◌&&◌, ◌||◌, Option, none, some, List, [], ◌∷◌,
  head?, or_else, arith, ◌==◌, eq_refl, Bool-cases, inl, inr, if◌then◌else◌,
}
use zudue_api.Effect.{Env, History, Reply, answer, history, Outcome, ok, err, call, not_found}
use zudue_api.Effect.Database.{run_anon}
use zudue_api.Effect.Rules.{
  Keeps, Keeps-bind, Keeps-pure, Keeps-throw, Keeps-call, Keeps-if, IsClosed, Keeps-run_anon,
}
use zudue_api.Effect.Statements.{
  select_handle, select_partner, select_services, select_links, select_trust,
}
use zudue_api.Effect.Requests.{statement}
use zudue_api.Discovery.{
  PartnerProfile, found, is_uuid, partner, target_of, or_not_found, show_target, by_handle,
}

-- The first row of the answer is this id.
abbrev names : String → Reply (List (Option String)) → Bool
names id (answer (some j ∷ rows)) = j == id
names id _ = false

-- A handle was looked up before, and this is the id that it was answered with.
abbrev pub resolved : Env → String → History → Bool
resolved env id [] = false
resolved env id (statement (select_handle x) ∷ h) =
    names id (env (statement (select_handle x)) h) || resolved env id h
resolved env id (r ∷ h) = resolved env id h

-- Every profile that was looked up by id has an id that a handle resolved to, or that is a uuid.
abbrev pub asked_known : Env → History → Bool
asked_known env [] = true
asked_known env (statement (select_partner id) ∷ h) =
    (is_uuid id || resolved env id h) && asked_known env h
asked_known env (r ∷ h) = asked_known env h

record Knows (id : String) (env : Env) (h : History) : Type 0 where
  id_known : (is_uuid id || resolved env id h) ≡ true
  all_known : asked_known env h ≡ true

Knows-IsClosed : (id : String) → IsClosed (Knows id)
Knows-IsClosed id = record {
  opened = λ env h p. record { id_known = p.id_known; all_known = p.all_known };
  committed = λ env h p. record { id_known = p.id_known; all_known = p.all_known };
  undone = λ env h p. record { id_known = p.id_known; all_known = p.all_known };
  as_user = λ u env h p. record { id_known = p.id_known; all_known = p.all_known };
  as_service = λ env h p. record { id_known = p.id_known; all_known = p.all_known };
  as_anon = λ env h p. record { id_known = p.id_known; all_known = p.all_known };
}

both : (a b : Bool) → a ≡ true → b ≡ true → (a && b) ≡ true
both a b p q = ground arith

partner-Knows : (base : Option String) (id : String) → Keeps (Knows id) (partner base id)
unfolding partner
partner-Knows base id = Keeps-run_anon _ (Knows-IsClosed id) (
    Keeps-bind (call (statement (select_partner id))) _
      (Keeps-call (statement (select_partner id)) (λ env h p. record {
        id_known = p.id_known;
        all_known =
            both (is_uuid id || resolved env id h) (asked_known env h) p.id_known p.all_known;
      }))
      (λ rows.
        Keeps-bind (call (statement (select_services id))) _
          (Keeps-call (statement (select_services id))
            (λ env h p. record { id_known = p.id_known; all_known = p.all_known }))
          (λ services.
            Keeps-bind (call (statement (select_links id))) _
              (Keeps-call (statement (select_links id))
                (λ env h p. record { id_known = p.id_known; all_known = p.all_known }))
              (λ links.
                Keeps-bind (call (statement (select_trust id))) _
                  (Keeps-call (statement (select_trust id))
                    (λ env h p. record { id_known = p.id_known; all_known = p.all_known }))
                  (λ trust. Keeps-pure (found base (head? rows) services links trust))))))

or_not_found-Knows : (id : String) (p : Option PartnerProfile) → Keeps (Knows id) (or_not_found p)
unfolding or_not_found
or_not_found-Knows id none = Keeps-throw _
or_not_found-Knows id (some p) = Keeps-pure p

show_target-known :
    (base : Option String) (id : String) (env : Env) (h : History)
    → Knows id env h
    → asked_known env (history (show_target base (some id) env h)) ≡ true
unfolding show_target
show_target-known base id env h k =
    ((Keeps-if (id == "") _ _ (Keeps-throw (not_found "PARTNER_NOT_FOUND")) (
        Keeps-bind (partner base id) or_not_found (partner-Knows base id)
          (or_not_found-Knows id))).at
      env h k).all_known

-- What a lookup of a handle was answered with is in the history.
handle-resolved :
    (x id : String) (rest : List (Option String)) (env : Env) (h h' : History)
    → run_anon (call (statement (select_handle x))) env h ≡ ok (some id ∷ rest) h'
    → resolved env id h' ≡ true
unfolding run_anon
handle-resolved x id rest env h h' e = ground (arith, eq_refl id)

handle-known :
    (x : String) (env : Env) (h : History)
    → asked_known env h ≡ true
    → asked_known env (history (run_anon (call (statement (select_handle x))) env h)) ≡ true
unfolding run_anon
handle-known x env h k = ground arith

right_of : (a b : Bool) → b ≡ true → (a || b) ≡ true
right_of a b p = ground arith

left_of : (a b : Bool) → a ≡ true → (a || b) ≡ true
left_of a b p = ground arith

unresolved :
    (base : Option String) (x : String) (env : Env) (h : History)
    → asked_known env h ≡ true
    → asked_known env (history (show_target base (if is_uuid x then some x else none) env h)) ≡ true
unfolding show_target
unresolved base x env h k = elim (Bool-cases (is_uuid x)) [
  | inl u ↦ rw (u) (
      show_target-known base x env h
        (record { id_known = left_of (is_uuid x) (resolved env x h) u; all_known = k }))
  | inr u ↦ rw (u) (missing base env h k)
]
  where
    missing :
        (base : Option String) (env : Env) (h : History)
        → asked_known env h ≡ true
        → asked_known env (history (show_target base none env h)) ≡ true
    missing base env h k = k

shown :
    (base : Option String) (x : String) (rows : List (Option String)) (env : Env) (h : History)
    → asked_known env h ≡ true
    → ((id : String) (rest : List (Option String))
        → rows ≡ some id ∷ rest
        → resolved env id h ≡ true)
    → asked_known env (history (show_target base (target_of (or_else (head? rows) none) x) env h))
      ≡ true
unfolding target_of
shown base x (some id ∷ rest) env h k r = show_target-known base id env h (record {
  id_known = right_of (is_uuid id) (resolved env id h) (r id rest refl);
  all_known = k;
})
shown base x (none ∷ rest) env h k r = unresolved base x env h k
shown base x [] env h k r = unresolved base x env h k

after_lookup :
    (base : Option String) (x : String) (env : Env) (h : History)
    (o : Outcome (List (Option String)))
    → run_anon (call (statement (select_handle x))) env h ≡ o
    → asked_known env (history o) ≡ true
    → asked_known env (
        history (elim o [
          | ok rows h' ↦ show_target base (target_of (or_else (head? rows) none) x) env h'
          | err e h' ↦ err e h'
        ]))
      ≡ true
after_lookup base x env h (ok rows h') e k =
    shown base x rows env h' k
      (λ id rest r. handle-resolved x id rest env h h' (e ∙ ap (λ l. ok l h') r))
after_lookup base x env h (err _ h') e k = k

-- Following a link looks a profile up by an id only if the database gave that id for the handle, or if the link
-- itself is a uuid: no other text ever reaches the uuid column.
pub by_handle-known :
    (base : Option String) (handle : String) (env : Env) (h : History)
    → asked_known env h ≡ true
    → asked_known env (history (by_handle base handle env h)) ≡ true
unfolding by_handle
by_handle-known base handle env h k =
    after_lookup base handle env h (run_anon (call (statement (select_handle handle))) env h) refl
      (handle-known handle env h k)
