-- ===== src/Tests/Samples.antt =====
-- A database and providers that answer every request, for the tests.
use zudue_api.Base.{true, none, some, [], ◌∷◌}
use zudue_api.Json.{Json, bool, str, obj, field, end}
use zudue_api.Effect.{Env, answer}
use zudue_api.Effect.Statements.{
  Statement, RowsOf, select_role, select_handle, select_partner, select_services, select_links,
  select_trust, select_admins, insert_application, select_push_tokens,
}
use zudue_api.Effect.Requests.{
  presign, statement, Settings, Window, Deletion, Parties, rpc, select_settings, select_balance,
  select_reserved, insert_webhook_event, select_ids, select_overdue_windows, select_due_deletions,
  create_order, fetch_payment, delete_user, select_ringing_calls, select_ready_partner,
  select_initiate_info, select_parties, select_next_fan, select_deadline, select_party, mint,
  send_fcm, send_onesignal,
}

abbrev pub settings : Settings
settings = record {
  gst_rate = some 1800;
  min_wallet_topup_paise = some 100;
  max_wallet_topup_paise = some 50000;
  max_wallet_balance_paise = some 100000;
}

abbrev pub parties : Parties
parties = record { fan_id = "fan"; partner_id = "partner"; booking_id = "booking" }

abbrev pub window : Window
window = record { id = "w"; fan_id = "fan"; charge_paise = 4900 }

abbrev pub deletion : Deletion
deletion = record { id = "d"; profile_id = "fan" }

abbrev pub success : Json
success =
    obj
      (field "success" (bool true) (field "created" (bool true) (field "call_id" (str "call") end)))

abbrev rows : (s : Statement) → RowsOf s
rows (select_role u) = "ADMIN" ∷ []
rows (select_handle h) = []
rows (select_partner p) = record { profile_image_path = some "a.png"; rest = success } ∷ []
rows (select_services p) = []
rows (select_links p) = []
rows (select_trust p) = []
rows (insert_application u vs) = success ∷ []
rows select_admins = "admin" ∷ []
rows (select_push_tokens us) =
    record { fcm_token = some "t"; onesignal_player_id = some "o"; platform = some "ios" } ∷ []
rows _ = tt

abbrev pub sample : Env
sample (rpc p) h = answer (some success ∷ [])
sample select_settings h = answer (some settings)
sample (select_balance u) h =
    answer (some (record { balance_paise = 5000; bonus_balance_paise = 0 }))
sample (select_reserved u) h = answer (some 1000)
sample (insert_webhook_event i t p) h = answer ("row" ∷ [])
sample (select_ids s) h = answer ("a" ∷ "b" ∷ [])
sample select_overdue_windows h = answer (window ∷ [])
sample select_due_deletions h = answer (deletion ∷ [])
sample (create_order a u) h =
    answer
      (record { order_id = "order"; amount_paise = a; currency = "INR"; provider_key_id = "key" })
sample (fetch_payment p) h = answer (record {
  payment_id = p;
  order_id = some (str "order");
  amount_paise = 1180;
  status = some (str "captured");
})
sample (delete_user u) h = answer 204
sample (select_ringing_calls b) h = answer ("call" ∷ [])
sample (select_ready_partner b) h = answer ("partner" ∷ [])
sample (select_initiate_info b) h =
    answer (record { fan_id = "fan"; selected_duration = some 5; display_name = none } ∷ [])
sample (select_parties c) h = answer (parties ∷ [])
sample (select_next_fan u b f) h = answer (record { booking_id = "next"; fan_id = "other" } ∷ [])
sample (select_deadline c) h = answer (none ∷ [])
sample (select_party m u) h = answer (tt ∷ [])
sample (mint m) h = answer "token"
sample (presign b k t e) h = answer "https://signed"
sample (send_fcm m) h = answer (record { status = 404; body = "" })
sample (send_onesignal m) h = answer (record { status = 200; body = "" })
sample (statement s) h = answer (rows s)
sample _ h = answer tt

-- The webhook of a captured payment.
abbrev pub captured : Json
captured = obj (
    field "id" (str "evt") (
      field "event" (str "payment.captured") (
        field "payload"
          (obj (
            field "payment"
              (obj (
                field "entity" (obj (field "id" (str "pay") (field "order_id" (str "order") end)))
                  end))
              end))
          end)))

-- The same, but the provider has the payment as failed.
abbrev pub unpaid : Env
unpaid (fetch_payment p) h = answer (record {
  payment_id = p;
  order_id = some (str "order");
  amount_paise = 1180;
  status = some (str "failed");
})
unpaid r h = sample r h
