-- ===== src/Push/Senders.antt =====
-- src/push/fcm.provider.ts and src/push/onesignal.provider.ts over an environment that answers HTTP.
use zudue_api.Base.{
  ℕ, ◌+◌, String, Bool, false, not, ◌&&◌, ◌||◌, Option, none, some, List, [], ◌∷◌, or_else, ◌==◌,
  leb, nat_eq, if◌then◌else◌,
}
use zudue_api.Text.{includes}
use zudue_api.Effect.{M, pure, ◌>>=◌, ◌>>◌, call, attempt}
use zudue_api.Effect.Requests.{
  PushValue, apns, android, visible, FcmMessage, HttpAnswer, get_access_token, send_fcm,
  send_onesignal,
}

-- What the constructors of the providers leave: whether a service account was read, and the configuration.
pub record Providers : Type 0 where
  pub has_jwt : Bool
  pub project_id : Option String
  pub app_id : Option String
  pub rest_key : Option String
  pub call_channel : String

unfoldable pub is_filled : Option String → Bool
is_filled none = false
is_filled (some s) = not (s == "")

-- `FcmProvider.enabled`
unfoldable pub fcm_enabled : Providers → Bool
unfolding is_filled
fcm_enabled p = p.has_jwt && is_filled p.project_id

-- `OneSignalProvider.enabled`
unfoldable pub onesignal_enabled : Providers → Bool
unfolding is_filled
onesignal_enabled p = is_filled p.app_id && is_filled p.rest_key

pub record Target : Type 0 where
  pub token : String
  pub platform : Option String

-- An answer that says that the token is dead.
unfoldable pub is_dead : Option HttpAnswer → Bool
unfolding includes
is_dead none = false
is_dead (some r) =
    not (leb 200 r.status && leb r.status 299)
    && (nat_eq r.status 404 || includes r.body "UNREGISTERED" || includes r.body "INVALID_ARGUMENT")

-- Sends a message to each target, and gives the tokens that are dead.
unfoldable pub send_each : (Target → FcmMessage) → List Target → M (List String)
unfolding is_dead
send_each message [] = pure []
send_each message (t ∷ ts) = do
  answered ← attempt (call (send_fcm (message t)))
  dead ← send_each message ts
  pure (if is_dead answered then t.token ∷ dead else dead)

unfoldable pub send_some : (Target → FcmMessage) → List Target → M (List String)
unfolding send_each
send_some message [] = pure []
send_some message (t ∷ ts) = do call get_access_token; send_each message (t ∷ ts)

abbrev pub Data : Type 0
Data = List (String × PushValue)

-- The message that one target gets; `now` is the time in whole seconds.
unfoldable pub data_message : ℕ → Data → ℕ → Target → FcmMessage
data_message now fields ttl t = record {
  token = t.token;
  data_fields = fields;
  block = if or_else t.platform "android" == "ios" then apns (now + ttl) else android ttl;
}

-- `sendData` of FCM
unfoldable pub send_data : Providers → ℕ → List Target → Data → ℕ → M (List String)
unfolding fcm_enabled send_some data_message
send_data p now targets fields ttl =
    if fcm_enabled p then send_some (data_message now fields ttl) targets else pure []

unfoldable pub visible_message : String → String → Data → Target → FcmMessage
visible_message title body fields t = record {
  token = t.token;
  data_fields = fields;
  block = visible title body;
}

-- `sendNotification` of FCM
unfoldable pub fcm_notification : Providers → List Target → String → String → Data → M (List String)
unfolding fcm_enabled send_some visible_message
fcm_notification p targets title body fields =
    if fcm_enabled p then send_some (visible_message title body fields) targets else pure []

-- `sendCall` and `sendNotification` of OneSignal, whose message has a channel only for a call.
unfoldable pub notify_players :
    Providers → Option String → List String → Data → String → String → M (Unit {0})
unfolding onesignal_enabled
notify_players p channel [] fields title body = pure tt
notify_players p channel (i ∷ ids) fields title body =
    if onesignal_enabled p
    then (do
      attempt (
          call (
            send_onesignal (record {
              subscription_ids = i ∷ ids;
              data_fields = fields;
              call_channel = channel;
              title = title;
              body = body;
            })))
      pure tt)
    else pure tt
