-- ===== src/Push/Reports.antt =====
-- What FCM says of tokens to the senders of src/push/push.service.ts, and which deletions are asked for.
use zudue_api.Base.{
  ℕ, ◌≡◌, refl, String, Bool, true, false, ◌&&◌, ◌||◌, some, List, [], ◌∷◌, has, ◌==◌, arith,
  if◌then◌else◌,
}
use zudue_api.Effect.{Env, History, Reply, answer, fail, Outcome, ok, err, M, pure}
use zudue_api.Effect.Statements.{delete_push_tokens}
use zudue_api.Effect.Requests.{FcmMessage, HttpAnswer, send_fcm, get_access_token, statement}
use zudue_api.Push.Senders.{
  send_some, Providers, Target, Data, is_dead, send_each, send_data, fcm_notification, data_message,
  visible_message,
}

abbrev pub said_dead : Reply HttpAnswer → Bool
said_dead (answer a) = is_dead (some a)
said_dead (fail e) = false

-- FCM answered a message to this token by saying that it is dead.
abbrev pub reported : Env → String → History → Bool
reported env t [] = false
reported env t (send_fcm m ∷ h) =
    (m.token == t && said_dead (env (send_fcm m) h)) || reported env t h
reported env t (r ∷ h) = reported env t h

-- The database was asked to delete this token of this user, whatever it answered.
abbrev pub deletion_asked : String → String → History → Bool
deletion_asked u t [] = false
deletion_asked u t (statement (delete_push_tokens v ts) ∷ h) =
    (v == u && has t ts) || deletion_asked u t h
deletion_asked u t (r ∷ h) = deletion_asked u t h

-- The list that was returned holds exactly what was reported meanwhile, all of it where there is an error, and no deletion was asked for.
abbrev pub Exact : Env → String → String → History → Outcome (List String) → Type 0
Exact env u t h (ok dead h') =
    (reported env t h' ≡ (has t dead || reported env t h))
    × (deletion_asked u t h' ≡ deletion_asked u t h)
Exact env u t h (err e h') =
    (reported env t h' ≡ reported env t h) × (deletion_asked u t h' ≡ deletion_asked u t h)

-- The same of sends that cannot fail.
abbrev Sent : Env → String → String → History → Outcome (List String) → Type 0
Sent env u t h (ok dead h') =
    (reported env t h' ≡ (has t dead || reported env t h))
    × (deletion_asked u t h' ≡ deletion_asked u t h)
Sent env u t h (err e h') = ⊥

send_each-Sent :
    (message : Target → FcmMessage) (same : (t : Target) → (message t).token ≡ t.token)
    (ts : List Target) (env : Env) (u x : String) (h : History)
    → Sent env u x h (send_each message ts env h)
unfolding send_each is_dead
send_each-Sent message same [] env u x h = (refl, refl)
send_each-Sent message same (t ∷ ts) env u x h =
    let ih = send_each-Sent message same ts env u x (send_fcm (message t) ∷ h) in
    let token = same t in ground arith

send_some-Exact :
    (message : Target → FcmMessage) (same : (t : Target) → (message t).token ≡ t.token)
    (ts : List Target) (env : Env) (u x : String) (h : History)
    → Exact env u x h (send_some message ts env h)
unfolding send_some
send_some-Exact message same [] env u x h = (refl, refl)
send_some-Exact message same (t ∷ ts) env u x h =
    let sent = send_each-Sent message same (t ∷ ts) env u x (get_access_token ∷ h) in ground arith

-- A sender of messages of FCM: whatever it is answered, the list that it returns is exact.
pub record IsSender (send : M (List String)) : Type 0 where
  pub exact : (env : Env) (u x : String) (h : History) → Exact env u x h (send env h)

pub if-IsSender :
    (b : Bool) (m : M (List String)) → IsSender m → IsSender (if b then m else pure [])
if-IsSender true m s = s
if-IsSender false m s = record { exact = λ env u x h. (refl, refl) }

pub send_data-IsSender :
    (p : Providers) (now : ℕ) (ts : List Target) (fields : Data) (ttl : ℕ)
    → IsSender (send_data p now ts fields ttl)
unfolding send_data data_message
send_data-IsSender p now ts fields ttl =
    if-IsSender _ _
      (record { exact = send_some-Exact (data_message now fields ttl) (λ t. refl) ts })

pub fcm_notification-IsSender :
    (p : Providers) (ts : List Target) (title body : String) (fields : Data)
    → IsSender (fcm_notification p ts title body fields)
unfolding fcm_notification visible_message
fcm_notification-IsSender p ts title body fields =
    if-IsSender _ _
      (record { exact = send_some-Exact (visible_message title body fields) (λ t. refl) ts })
