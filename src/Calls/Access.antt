-- ===== src/Calls/Access.antt =====
-- Who may do what in a call (src/calls/calls.module.ts): the list of statuses that `markMissed` takes, and
-- the parties of a meeting.
use zudue_api.Base.{
  ◌≡◌, ◌∙◌, refl, String, Bool, true, false, ◌&&◌, Option, none, some, List, [], ◌∷◌, arith, ◌==◌,
  eq_iff, eq_refl, has, is_some,
}
use zudue_api.Effect.{Env, History, err, Reply, answer, fail, history, bad_request}
use zudue_api.Effect.Requests.{mint, select_party, MissedStatus}
use zudue_api.Effect.Database.{run_as}
use zudue_api.Calls.{call_credential}
use zudue_api.Calls.Missed.{missed_status, mark_missed, resolve_missed}

-- `CallsService.MISSED_STATUSES`
abbrev pub missed_statuses : List String
missed_statuses = "MISSED_FAN_NO_JOIN" ∷ "MISSED_FAN_DECLINED" ∷ "DROPPED_TECHNICAL_ISSUE" ∷ []

missed_status-listed : (s : String) → is_some (missed_status s) ≡ has s missed_statuses
unfolding missed_status
missed_status-listed s = ground (
  arith,
  eq_iff "MISSED_FAN_NO_JOIN" s,
  eq_iff s "MISSED_FAN_NO_JOIN",
  eq_iff "MISSED_FAN_DECLINED" s,
  eq_iff s "MISSED_FAN_DECLINED",
  eq_iff "DROPPED_TECHNICAL_ISSUE" s,
  eq_iff s "DROPPED_TECHNICAL_ISSUE",
)

rejects :
    (u c : String) (s : Option MissedStatus) (env : Env) (h : History)
    → is_some s ≡ false
    → resolve_missed u c s env h ≡ err (bad_request "status must be one of MISSED_STATUSES") h
unfolding resolve_missed
rejects u c none env h e = refl
rejects u c (some s) env h e = cc

-- `markMissed` takes only the statuses on its list: any other text, a completed call's status included, is
-- a 400 before the database is asked for anything.
mark_missed_allow_list :
    (u c s : String) (env : Env) (h : History)
    → has s missed_statuses ≡ false
    → mark_missed u c s env h ≡ err (bad_request "status must be one of MISSED_STATUSES") h
unfolding mark_missed
mark_missed_allow_list u c s env h n =
    rejects u c (missed_status s) env h (missed_status-listed s ∙ n)

abbrev found : Reply (List (Unit {0})) → Bool
found (answer []) = false
found (answer (row ∷ rows)) = true
found (fail e) = false

-- The request before the credential was minted found a call of this meeting with this user as a party.
abbrev pub is_party : Env → String → String → History → Bool
is_party env user meeting (select_party m u ∷ h) =
    m == meeting && u == user && found (env (select_party m u) h)
is_party env user meeting _ = false

abbrev pub mints_checked : Env → String → History → Bool
mints_checked env user [] = true
mints_checked env user (mint meeting ∷ h) = is_party env user meeting h && mints_checked env user h
mints_checked env user (q ∷ h) = mints_checked env user h

-- A credential to join is minted only for a meeting that has a call with the caller as one of its parties,
-- and for that very meeting.
pub call_credential-checked :
    (user meeting : String) (env : Env) (h : History)
    → mints_checked env user h ≡ true
    → mints_checked env user (history (call_credential user meeting env h)) ≡ true
unfolding call_credential run_as
call_credential-checked user meeting env h p = ground (arith, eq_refl user, eq_refl meeting)
