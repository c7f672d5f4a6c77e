-- ===== src/Calls/Ends.antt =====
-- Whom `complete` (src/calls/calls.module.ts) tells that a call ended, and how it says it ended.
use zudue_api.Base.{
  ◌≡◌, refl, String, true, false, ◌&&◌, Option, none, some, List, [], ◌∷◌, ◌++◌, arith, Bool-cases,
  inl, inr, if◌then◌else◌, ap, ◌∙◌, sym,
}
use zudue_api.Json.{opt_prop, is_false, truthy, Json, null, bool, num, str, arr, obj}
use zudue_api.Effect.History.{answered}
use zudue_api.Effect.Rules.{bind-ok, bind-err, call-ok, call-err}
use zudue_api.Effect.{
  Env, History, ok, err, Reply, answer, fail, history, M, call, pure, throw, rejected, ◌>>=◌, ◌>>◌,
  driver,
}
use zudue_api.Effect.Requests.{
  dropped_technical_issue, EndStatus, completed_successful, missed, Parties, begin, set_user, rpc,
  complete_by_party, select_parties, push_call_ended,
}
use zudue_api.Effect.Database.{transaction, run_as, db_rpc, first_result}
use zudue_api.Calls.{announce_end, resolved_status, complete, succeeded, text_of}

-- The pushes of a history that say that a call ended, newest first.
abbrev pub ends : History → History
ends [] = []
ends (push_call_ended ids c b s r ∷ h) = push_call_ended ids c b s r ∷ ends h
ends (q ∷ h) = ends h

-- The outcome that an envelope resolves a call to: `completed` is false for one that the database wrote off.
abbrev pub outcome_of : Option Json → EndStatus
outcome_of (some (bool false)) = missed dropped_technical_issue
outcome_of _ = completed_successful

-- The push that is owed to both parties, where the RPC and the query of the parties were so answered.
abbrev pub end_owed : String → Reply (List (Option Json)) → Reply (List Parties) → History
end_owed c (answer rows) (answer (p ∷ ps)) =
    if truthy (opt_prop "success" (first_result rows))
    then push_call_ended (p.fan_id ∷ p.partner_id ∷ []) c p.booking_id
        (outcome_of (opt_prop "completed" (first_result rows)))
        (text_of "ended_by_role" (first_result rows))
      ∷ []
    else []
end_owed c _ _ = []

-- The same of the whole unit of work: nothing is owed before it is begun as the caller.
abbrev pub completion_owed : String → String → Env → History → History
completion_owed u c env h =
    if answered (env begin h) && answered (env (set_user u) (begin ∷ h))
    then end_owed c (env (rpc (complete_by_party c)) (set_user u ∷ begin ∷ h))
        (env (select_parties c) (rpc (complete_by_party c) ∷ set_user u ∷ begin ∷ h))
    else []

run_as-ends :
    {A : Type 0} (u : String) (m : M A) (env : Env) (h owed : History)
    → ends (history (m env (set_user u ∷ begin ∷ h))) ≡ owed ++ ends h
    → ends (history (run_as u m env h))
      ≡ (if answered (env begin h) && answered (env (set_user u) (begin ∷ h)) then owed else [])
        ++ ends h
unfolding run_as transaction answered
run_as-ends u m env h owed e = ground arith

resolved_status-outcome :
    (res : Option Json) → resolved_status res ≡ outcome_of (opt_prop "completed" res)
unfolding resolved_status is_false
resolved_status-outcome res = of_value (opt_prop "completed" res)
  where
    of_value :
        (v : Option Json)
        → (if is_false v then missed dropped_technical_issue else completed_successful)
          ≡ outcome_of v
    of_value none = refl
    of_value (some (bool false)) = refl
    of_value (some (bool true)) = refl
    of_value (some null) = refl
    of_value (some (num n)) = refl
    of_value (some (str t)) = refl
    of_value (some (arr js)) = refl
    of_value (some (obj fs)) = refl

-- What is announced to the parties that the query found.
announced : String → Option Json → List Parties → History
announced c res [] = []
announced c res (p ∷ ps) =
    push_call_ended (p.fan_id ∷ p.partner_id ∷ []) c p.booking_id
      (outcome_of (opt_prop "completed" res)) (text_of "ended_by_role" res)
    ∷ []

announced-ends :
    (c : String) (res : Option Json) (rows : List Parties) (h : History)
    → ends (announced c res rows ++ h) ≡ announced c res rows ++ ends h
unfolding announced
announced-ends c res [] h = refl
announced-ends c res (p ∷ rows) h = refl

announce_end-told :
    (c : String) (res : Option Json) (rows : List Parties) (env : Env) (h : History)
    → announce_end c res rows env h ≡ ok tt (announced c res rows ++ h)
unfolding announce_end announced
announce_end-told c res [] env h = refl
announce_end-told c res (p ∷ rows) env h =
    ap
      (λ s. ok tt (
        push_call_ended (p.fan_id ∷ p.partner_id ∷ []) c p.booking_id s
          (text_of "ended_by_role" res)
        ∷ h))
      (resolved_status-outcome res)

-- What is owed once the RPC returned this envelope, by how the parties were answered.
announced_to : String → Option Json → Reply (List Parties) → History
announced_to c res (answer rows) = announced c res rows
announced_to c res (fail e) = []

-- `complete` once the RPC returned this envelope.
completed_with : String → Option Json → M (Option Json)
completed_with c res = do
  (if succeeded res then (do rows ← call (select_parties c); announce_end c res rows) else pure tt)
  pure res

completed_with-ends :
    (c : String) (res : Option Json) (env : Env) (h : History)
    → ends (history (completed_with c res env h))
      ≡ (if succeeded res then announced_to c res (env (select_parties c) h) else []) ++ ends h
unfolding completed_with announced_to
completed_with-ends c res env h = elim (Bool-cases (succeeded res)) [
  | inl e ↦ rw (e) (found (env (select_parties c) h) refl)
  | inr e ↦ rw (e) refl
]
  where
    tells : M (Unit {0})
    tells = do rows ← call (select_parties c); announce_end c res rows

    found :
        (r : Reply (List Parties))
        → env (select_parties c) h ≡ r
        → ends (history ((do tells; pure res) env h)) ≡ announced_to c res r ++ ends h
    found (answer rows) q =
        let asked = call-ok (select_parties c) env h rows q in
        let told = bind-ok (call (select_parties c)) (announce_end c res) env h _ rows asked in
        let done = told ∙ announce_end-told c res rows env (select_parties c ∷ h) in
        ap (λ o. ends (history o)) (bind-ok tells (λ _. pure res) env h _ tt done)
        ∙ announced-ends c res rows (select_parties c ∷ h)
    found (fail x) q =
        let asked = call-err (select_parties c) env h x q in
        let lost =
          bind-err (call (select_parties c)) (announce_end c res) env h _ (driver x) asked in
        ap (λ o. ends (history o)) (bind-err tells (λ _. pure res) env h _ (driver x) lost)

end_owed-announced :
    (c : String) (rows : List (Option Json)) (r : Reply (List Parties))
    → (if truthy (opt_prop "success" (first_result rows))
        then announced_to c (first_result rows) r
        else [])
      ≡ end_owed c (answer rows) r
unfolding announced_to announced
end_owed-announced c rows (answer []) = ground arith
end_owed-announced c rows (answer (p ∷ ps)) = refl
end_owed-announced c rows (fail e) = ground arith

false_is_falsy : (v : Option Json) → is_false v ≡ true → truthy v ≡ false
unfolding is_false truthy
false_is_falsy (some (bool b)) e = ground arith
false_is_falsy none e = refl
false_is_falsy (some null) e = refl
false_is_falsy (some (num n)) e = absurd (ground arith)
false_is_falsy (some (str t)) e = absurd (ground arith)
false_is_falsy (some (arr js)) e = absurd (ground arith)
false_is_falsy (some (obj fs)) e = absurd (ground arith)

completing-ends :
    (c : String) (env : Env) (h : History)
    → ends (history ((db_rpc (complete_by_party c) >>= completed_with c) env h))
      ≡ end_owed c
          (env (rpc (complete_by_party c)) h)
          (env (select_parties c) (rpc (complete_by_party c) ∷ h))
        ++ ends h
unfolding db_rpc succeeded
completing-ends c env h = replied (env (rpc (complete_by_party c)) h) refl
  where
    taken : List (Option Json) → M (Option Json)
    taken rows =
        if truthy (first_result rows) && is_false (opt_prop "success" (first_result rows))
        then throw (rejected (first_result rows))
        else pure (first_result rows)

    replied :
        (r : Reply (List (Option Json)))
        → env (rpc (complete_by_party c)) h ≡ r
        → ends (history ((db_rpc (complete_by_party c) >>= completed_with c) env h))
          ≡ end_owed c r (env (select_parties c) (rpc (complete_by_party c) ∷ h)) ++ ends h
    replied (fail x) q =
        let asked = call-err (rpc (complete_by_party c)) env h x q in
        let lost = bind-err (call (rpc (complete_by_party c))) taken env h _ (driver x) asked in
        ap (λ o. ends (history o))
          (bind-err (db_rpc (complete_by_party c)) (completed_with c) env h _ (driver x) lost)
    replied (answer rows) q =
        let res = first_result rows in
        let r = env (select_parties c) (rpc (complete_by_party c) ∷ h) in
        let asked = call-ok (rpc (complete_by_party c)) env h rows q in
        let got = bind-ok (call (rpc (complete_by_party c))) taken env h _ rows asked in
        elim (Bool-cases (truthy res && is_false (opt_prop "success" res))) [
          | inl e ↦
              let thrown_by : taken rows env (rpc (complete_by_party c) ∷ h)
                  ≡ err (rejected res) (rpc (complete_by_party c) ∷ h) =
                rw (e) refl in
              let f = false_is_falsy (opt_prop "success" res) (ground (arith, e)) in
              ap (λ o. ends (history o))
                (bind-err (db_rpc (complete_by_party c)) (completed_with c) env h _ (rejected res)
                  (got ∙ thrown_by))
              ∙ ap (λ b. (if b then announced_to c res r else []) ++ ends h) (sym f)
              ∙ ap (λ o. o ++ ends h) (end_owed-announced c rows r)
          | inr e ↦
              let returned_by : taken rows env (rpc (complete_by_party c) ∷ h)
                  ≡ ok res (rpc (complete_by_party c) ∷ h) =
                rw (e) refl in
              ap (λ o. ends (history o))
                (bind-ok (db_rpc (complete_by_party c)) (completed_with c) env h _ res
                  (got ∙ returned_by))
              ∙ completed_with-ends c res env (rpc (complete_by_party c) ∷ h)
              ∙ ap (λ o. o ++ ends h) (end_owed-announced c rows r)
        ]

-- `complete` does everything in a unit of work of the caller: it tells both parties once that this call ended,
-- and how, exactly where that was begun, the RPC of this call answered with a success and the parties were found.
-- The status is that of a drop for a call that the database wrote off, and otherwise that of a success; who ended
-- it is taken from the same envelope.
pub complete-truthful :
    (u c : String) (env : Env) (h : History)
    → ends (history (complete u c env h)) ≡ completion_owed u c env h ++ ends h
unfolding complete completed_with
complete-truthful u c env h =
    run_as-ends u (db_rpc (complete_by_party c) >>= completed_with c) env h _
      (completing-ends c env (set_user u ∷ begin ∷ h))
