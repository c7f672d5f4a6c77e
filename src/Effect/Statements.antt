-- ===== src/Effect/Statements.antt =====
-- Statements of SQL by what they do, with the rows that answer each.
use zudue_api.Base.{String, Bool, true, false, Option, List}
use zudue_api.Json.{Json, Items}

-- A row of `public.profiles` that a user inserts. The role is always FAN.
pub record NewProfile : Type 0 where
  pub id : String
  pub full_name : String
  pub email : Option String
  pub mobile_number : Option String

-- What an UPDATE binds: `String(v)`, `Number(v)`, an enum, jsonb, a text array, the value itself,
-- or what a method that every object inherits makes of it.
pub data Value : Type 0 where
  sql_null : Value
  string_of number_of gender_of jsonb_of bound inherited_of : Json → Value
  text_array : Items → Value

pub record Setter : Type 0 where
  pub column : String
  pub value : Value

-- A row of `partner_profiles` for discovery. The other columns are passed on as they are.
pub record PartnerRow : Type 0 where
  pub profile_image_path : Option String
  pub rest : Json

pub record Report : Type 0 where
  pub reporter_id : String
  pub target_type : String
  pub target_id : Json
  pub reason : String
  pub details : Option Json

-- The tokens of a device, as the push service reads them.
pub record TokenRow : Type 0 where
  pub fcm_token : Option String
  pub onesignal_player_id : Option String
  pub platform : Option String

-- The values of `registerToken`.
pub record NewToken : Type 0 where
  pub profile_id : String
  pub fcm_token : Option String
  pub onesignal_player_id : Option String
  pub platform : String
  pub device_info : Json

pub data Statement : Type 0 where
  insert_profile : NewProfile → Statement
  update_profile update_partner_profile : List Setter → String → Statement
  select_role select_handle select_partner select_services select_links select_trust :
      String → Statement
  insert_report : Report → Statement
  select_admins : Statement
  upsert_social_link : String → String → String → Statement
  delete_social_link : String → String → Statement
  insert_payout_method insert_application : String → List (Option Json) → Statement
  read_notification : String → String → Statement
  read_notifications : String → Statement
  upsert_push_token : NewToken → Statement
  select_push_tokens : List String → Statement
  delete_push_tokens : String → List String → Statement

abbrev pub RowsOf : Statement → Type 0
RowsOf (select_role u) = List String
RowsOf (select_handle h) = List (Option String)
RowsOf (select_partner p) = List PartnerRow
RowsOf (select_services p) = List Json
RowsOf (select_links p) = List Json
RowsOf (select_trust p) = List Json
RowsOf select_admins = List String
RowsOf (insert_application u vs) = List Json
RowsOf (select_push_tokens us) = List TokenRow
RowsOf _ = Unit

-- Statements that change the tables.
unfoldable pub changes : Statement → Bool
changes (insert_profile p) = true
changes (update_profile ss u) = true
changes (update_partner_profile ss u) = true
changes (insert_report r) = true
changes (upsert_social_link u p l) = true
changes (delete_social_link i u) = true
changes (insert_payout_method u vs) = true
changes (insert_application u vs) = true
changes (read_notification i u) = true
changes (read_notifications u) = true
changes (upsert_push_token t) = true
changes (delete_push_tokens u ts) = true
changes _ = false
