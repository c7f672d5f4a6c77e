-- ===== src/Tests/Wallet.antt =====
-- The theorems on src/wallet/wallet.service.ts at concrete inputs.
use zudue_api.Base.{◌+◌, ◌<◌, ◌≡◌, refl, true, false, some, String, [], Option}
use zudue_api.Json.{Json, coalesce, prop, opt_prop, is_text, same, truthy, is_false}
use zudue_api.Effect.{M, history, thrown, returned, bad_request, err, History}
use zudue_api.Effect.Database.{run_as, run_as_service, db_rpc}
use zudue_api.Effect.History.{in_transaction, surviving}
use zudue_api.Wallet.Topup.{
  whole, TopupResponse, gst, create_topup, place_topup, max_balance, below, above, min_topup,
  max_topup, rate_of,
}
use zudue_api.Wallet.Topup.Ceiling.{orders_fit, place_topup-orders_fit}
use zudue_api.Wallet.Topup.Phases.{
  orders_outside, create_topup-orders_outside, create_topup_amounts, last_order,
}
use zudue_api.Wallet.Webhook.{
  handle_webhook, verify_webhook_signature, WebhookResponse, confirms, paid_entity, order_id_of,
  is_payment,
}
use zudue_api.Wallet.Webhook.Settlement.{
  SettlementsChecked, handle_webhook-checked, handle_webhook_refused, handle_webhook_unsigned,
}
use zudue_api.Tests.Samples.{sample, settings, captured, unpaid}

-- An HMAC for the tests: every body is signed "mac".
abbrev sign : String → Json → String
sign secret body = "mac"

abbrev parse : Json → Option Json
parse = some

handle_webhook_settles :
    returned (handle_webhook sign parse "secret" captured "mac" sample [])
    ≡ some (WebhookResponse.processed_transaction (some Json.null))
unfolding handle_webhook run_as_service db_rpc coalesce prop opt_prop is_text same truthy is_false
    confirms paid_entity order_id_of is_payment verify_webhook_signature
handle_webhook_settles = refl

handle_webhook-checked_example :
    SettlementsChecked sample
      (history (handle_webhook sign parse "secret" captured "mac" sample []))
handle_webhook-checked_example =
    handle_webhook-checked sign parse "secret" captured "mac" sample [] tt

handle_webhook_unsigned_example :
    handle_webhook sign parse "secret" captured "forged" sample []
    ≡ err (bad_request "INVALID_SIGNATURE") []
unfolding verify_webhook_signature
handle_webhook_unsigned_example =
    handle_webhook_unsigned sign parse "secret" captured "forged" sample [] refl

place_topup-orders_fit_example :
    orders_fit sample 100000 (history (place_topup "fan" 1000 (some settings) sample [])) ≡ true
unfolding max_balance
place_topup-orders_fit_example =
    place_topup-orders_fit "fan" 1000 100000 (some settings) sample [] refl refl

create_topup-orders_outside_example :
    (orders_outside sample (history (create_topup "fan" (whole 1000) sample [])) ≡ true)
    × (in_transaction sample (history (create_topup "fan" (whole 1000) sample [])) ≡ false)
unfolding in_transaction
create_topup-orders_outside_example =
    create_topup-orders_outside "fan" (whole 1000) sample [] refl refl

abbrev response : TopupResponse
response = record {
  order_id = "order";
  amount_paise = 1180;
  credit_paise = 1000;
  gst_paise = 180;
  currency = "INR";
  key_id = "key";
}

abbrev topup_history : History
topup_history = history (create_topup "fan" (whole 1000) sample [])

create_topup_amounts_example :
    (0 < 1000)
    × (whole 1000 ≡ whole 1000)
    × (1180 ≡ response.credit_paise + response.gst_paise)
    × (last_order topup_history
        ≡ some (record {
          profile_id = "fan";
          credit_paise = 1000;
          gst_paise = 180;
          amount_paise = 1180;
          razorpay_order_id = "order";
        }))
unfolding create_topup run_as below min_topup above max_topup max_balance gst rate_of
create_topup_amounts_example =
    create_topup_amounts "fan" (whole 1000) sample [] topup_history response refl

abbrev refused : M WebhookResponse
refused = handle_webhook sign parse "secret" captured "mac"

thrown-refused : thrown (refused unpaid []) ≡ some (bad_request "PAYMENT_CROSS_CHECK_FAILED")
unfolding handle_webhook run_as_service db_rpc coalesce prop opt_prop is_text same truthy is_false
    confirms paid_entity order_id_of is_payment verify_webhook_signature
thrown-refused = refl

handle_webhook_refused_example :
    surviving false (history (handle_webhook sign parse "secret" captured "mac" unpaid []))
    ≡ surviving false []
handle_webhook_refused_example =
    handle_webhook_refused sign parse "secret" captured "mac" unpaid []
      (bad_request "PAYMENT_CROSS_CHECK_FAILED") thrown-refused tt
