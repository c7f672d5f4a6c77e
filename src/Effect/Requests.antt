-- ===== src/Effect/Requests.antt =====
-- The requests of the handlers, and what each is answered with: statements of SQL by what they do,
-- RPCs of the database by name
-- (`complete_by_party` is `rpc_complete_call` with `false`, `missed_by_party` is `rpc_mark_call_missed`), and calls of the other providers.
use zudue_api.Base.{ℕ, String, Bool, Option, List}
use zudue_api.Json.{Json, Items}
use zudue_api.Effect.Statements.{Statement, RowsOf}

-- `public.platform_settings`, the columns of `createTopup`. `gst_rate` is `numeric(5,4)`: ten-thousandths.
pub record Settings : Type 0 where
  pub gst_rate : Option ℕ
  pub min_wallet_topup_paise : Option ℕ
  pub max_wallet_topup_paise : Option ℕ
  pub max_wallet_balance_paise : Option ℕ

pub record CreatedOrder : Type 0 where
  pub order_id : String
  pub amount_paise : ℕ
  pub currency : String
  pub provider_key_id : String

pub record FetchedPayment : Type 0 where
  pub payment_id : Option Json
  pub order_id : Option Json
  pub amount_paise : ℕ
  pub status : Option Json

pub record Balance : Type 0 where
  pub balance_paise : ℕ
  pub bonus_balance_paise : ℕ

-- A row of `public.topup_orders`, inserted with status PENDING.
pub record TopupOrder : Type 0 where
  pub profile_id : String
  pub credit_paise : ℕ
  pub gst_paise : ℕ
  pub amount_paise : ℕ
  pub razorpay_order_id : String

pub data WebhookStatus : Type 0 where
  failed processed : WebhookStatus

pub data DisputeStatus : Type 0 where
  open_dispute under_review won lost closed : DisputeStatus

-- An overdue question, as `expireWindows` reads it.
pub record Window : Type 0 where
  pub id : String
  pub fan_id : String
  pub charge_paise : ℕ

pub record Deletion : Type 0 where
  pub id : String
  pub profile_id : String

-- The outcomes that `markMissed` takes, `CallsService.MISSED_STATUSES`.
pub data MissedStatus : Type 0 where
  missed_fan_no_join missed_fan_declined dropped_technical_issue : MissedStatus

-- The status that a push of an ended call carries.
pub data EndStatus : Type 0 where
  completed_successful : EndStatus
  missed : MissedStatus → EndStatus

pub data NotificationEvent : Type 0 where
  video_call_fan_ready_partner video_call_initiated_for_fan video_call_queue_next_fan :
      NotificationEvent
  video_call_missed_attempt_fan video_call_completed_partner : NotificationEvent

-- Whom the text of a notification says to have ended the call, where it says so.
pub data Wording : Type 0 where
  plain_text you_ended creator_ended fan_ended : Wording

-- The arguments of `rpc_create_notification` that routing and attribution rest on.
pub record Notification : Type 0 where
  pub recipient_id : String
  pub actor_id : String
  pub event_type : NotificationEvent
  pub wording : Wording
  pub related_entity_id : String

pub record Parties : Type 0 where
  pub fan_id : String
  pub partner_id : String
  pub booking_id : String

-- `selected_duration` is what `parseInt` makes of the column, `none` for NaN.
pub record InitiateInfo : Type 0 where
  pub fan_id : String
  pub selected_duration : Option ℕ
  pub display_name : Option String

pub record NextFan : Type 0 where
  pub booking_id : String
  pub fan_id : String

pub record IncomingCall : Type 0 where
  pub call_id : Option Json
  pub booking_id : String
  pub meeting_id : Option Json
  pub caller_name : String
  pub caller_id : String
  pub duration_minutes : ℕ

pub data Actor : Type 0 where
  fan_actor partner_actor : Actor

-- The sweeps of `JobsService`, by the ids that they read.
pub data Sweep : Type 0 where
  due_bookings due_windows due_confirms overdue_shoutouts due_shoutouts past_calls stale_calls :
      Sweep

-- The RPCs that a sweep runs for each id, with their further arguments.
pub data ItemRpc : Type 0 where
  rpc_settle_booking rpc_settle_window rpc_auto_confirm_shoutout rpc_expire_shoutout : ItemRpc
  rpc_settle_shoutout rpc_complete_call rpc_mark_call_missed : ItemRpc

-- An argument of an RPC that a handler passes on: `stringified_arg` is `JSON.stringify(v)`, `jsonb_arg` is
-- that text cast to jsonb, `cast_arg` the value cast to a type of the
-- database, `array_arg` an array of texts.
pub data Arg : Type 0 where
  null_arg : Arg
  text_arg : String → Arg
  number_arg : ℕ → Arg
  flag_arg : Bool → Arg
  json_arg : Json → Arg
  undefined_arg : Arg
  stringified_arg jsonb_arg : Json → Arg
  cast_arg : Json → String → Arg
  array_arg : Items → Arg

-- `Number(v)`, as the runtime converts it: NaN for what is no number.
pub data Converted : Type 0 where
  to_number : Option Json → Converted

pub data Rpc : Type 0 where
  named : String → List Arg → Rpc
  rpc_verify_topup : Option Json → Option Json → Rpc
  rpc_record_dispute : Option Json → Option Json → Converted → Option Json → DisputeStatus → Rpc
  item_rpc : ItemRpc → String → Rpc
  process_end_of_day_expired_bookings cleanup_stalled_calls rpc_cleanup_abandoned_topups : Rpc
  rpc_notify_expired : Window → Rpc
  rpc_purge_profile : String → Rpc
  rpc_refund_booking rpc_fan_signal_ready rpc_partner_initiate_call rpc_fan_join_call : String → Rpc
  rpc_call_heartbeat : String → Actor → Option Bool → Rpc
  complete_by_party : String → Rpc
  missed_by_party : String → MissedStatus → Rpc
  rpc_create_notification : Notification → Rpc

-- A bucket that a purpose names. `inherited` is a property of Object.prototype.
pub data Bucket : Type 0 where
  kyc media inherited : Bucket

-- A value of the data of a push; `printed` is `String(n)`.
pub data PushValue : Type 0 where
  text_value : String → PushValue
  json_value : Option Json → PushValue
  printed : ℕ → PushValue
  status_value : EndStatus → PushValue

-- What a message of FCM carries besides its token and data: for a call, the block of one platform with an expiry
-- or a time to live, all in seconds, or the text to show.
pub data FcmBlock : Type 0 where
  apns android : ℕ → FcmBlock
  visible : String → String → FcmBlock

pub record FcmMessage : Type 0 where
  pub token : String
  pub data_fields : List (String × PushValue)
  pub block : FcmBlock

pub record OneSignalMessage : Type 0 where
  pub subscription_ids : List String
  pub data_fields : List (String × PushValue)
  pub call_channel : Option String
  pub title : String
  pub body : String

-- The status of an answer over HTTP and its body.
pub record HttpAnswer : Type 0 where
  pub status : ℕ
  pub body : String

pub data Request : Type 0 where
  begin commit rollback : Request
  set_user : String → Request
  set_anon set_service : Request
  statement : Statement → Request
  rpc : Rpc → Request
  select_settings : Request
  lock_topup : String → Request
  select_balance : String → Request
  select_reserved : String → Request
  insert_topup_order : TopupOrder → Request
  insert_webhook_event : Option Json → Option Json → Json → Request
  update_webhook_event : WebhookStatus → String → Request
  select_ids : Sweep → Request
  insert_settle_failure : String → Request
  select_overdue_windows select_due_deletions : Request
  refund_window update_window_expired : Window → Request
  update_deletion_completed : String → Request
  create_order : ℕ → String → Request
  fetch_payment : Option Json → Request
  delete_user : String → Request
  select_ringing_calls select_ready_partner select_initiate_info select_parties : String → Request
  select_next_fan : String → String → String → Request
  select_deadline : Option Json → Request
  select_party : String → String → Request
  mint : String → Request
  presign : Bucket → String → Option String → ℕ → Request
  get_access_token : Request
  send_fcm : FcmMessage → Request
  send_onesignal : OneSignalMessage → Request
  push_cancel_call : String → Option Json → Request
  push_incoming_call : String → IncomingCall → Request
  push_fan_ready : String → String → Request
  push_queue_next : String → String → ℕ → Request
  push_call_ended : List String → String → String → EndStatus → Option String → Request

-- `delete_user` is the DELETE of GoTrue's admin API, answered with its HTTP status.
-- A `push_…` is the call of the push service, which is not awaited and answers nothing.
-- An RPC answers with the rows of `select … as result`; `none` is an undefined result.
abbrev pub ReplyOf : Request → Type 0
ReplyOf (statement s) = RowsOf s
ReplyOf (rpc p) = List (Option Json)
ReplyOf select_settings = Option Settings
ReplyOf (select_balance u) = Option Balance
ReplyOf (select_reserved u) = Option ℕ
ReplyOf (insert_webhook_event i t p) = List String
ReplyOf (select_ids s) = List String
ReplyOf select_overdue_windows = List Window
ReplyOf select_due_deletions = List Deletion
ReplyOf (create_order a u) = CreatedOrder
ReplyOf (fetch_payment p) = FetchedPayment
ReplyOf (delete_user u) = ℕ
ReplyOf (select_ringing_calls b) = List String
ReplyOf (select_ready_partner b) = List String
ReplyOf (select_initiate_info b) = List InitiateInfo
ReplyOf (select_parties c) = List Parties
ReplyOf (select_next_fan u b f) = List NextFan
ReplyOf (select_deadline c) = List (Option String)
ReplyOf (select_party m u) = List Unit
ReplyOf (mint m) = String
ReplyOf (presign b k t e) = String
ReplyOf (send_fcm m) = HttpAnswer
ReplyOf (send_onesignal m) = HttpAnswer
ReplyOf _ = Unit
