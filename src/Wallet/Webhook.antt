-- ===== src/Wallet/Webhook.antt =====
-- `handleWebhook` of src/wallet/wallet.service.ts, and `verifyWebhookSignature` of
-- src/payments/razorpay.provider.ts. The HMAC and `JSON.parse` are the runtime's: arguments.
pub mod Settlement
use text.Mathlib.Text.{starts_with}
use zudue_api.Base.{
  String, Bool, true, false, not, ◌&&◌, ◌||◌, Option, none, some, List, [], ◌∷◌, ◌==◌,
  if◌then◌else◌,
}
use zudue_api.Json.{Json, null, str, num, prop, opt_prop, coalesce, is_text, same}
use zudue_api.Effect.{Error, bad_request, type_error, M, pure, throw, ◌>>=◌, ◌>>◌, call}
use zudue_api.Effect.Requests.{
  WebhookStatus, failed, processed, DisputeStatus, open_dispute, under_review, won, lost, closed,
  FetchedPayment, rpc_verify_topup, rpc_record_dispute, to_number, insert_webhook_event,
  update_webhook_event, fetch_payment,
}
use zudue_api.Effect.Database.{run_as_service, db_rpc}

-- `DISPUTE_STATUS[event] ?? 'OPEN'`
unfoldable pub dispute_status : String → DisputeStatus
dispute_status e =
    if e == "payment.dispute.created"
    then open_dispute
    else if e == "payment.dispute.under_review"
    then under_review
    else if e == "payment.dispute.won"
    then won
    else if e == "payment.dispute.lost"
    then lost
    else if e == "payment.dispute.closed"
    then closed
    else open_dispute

pub data WebhookResponse : Type 0 where
  replayed : WebhookResponse
  processed_transaction processed_dispute ignored : Option Json → WebhookResponse

-- `event.payload?.[kind]?.entity`
unfoldable pub entity_of : String → Json → Option Json
entity_of kind event = opt_prop "entity" (opt_prop kind (prop "payload" event))

unfoldable pub event_id : Json → Option Json
unfolding entity_of
event_id event = coalesce (prop "id" event) (opt_prop "id" (entity_of "payment" event))

-- The entity of a captured payment or of a paid order.
unfoldable pub paid_entity : Json → Option Json
unfolding entity_of
paid_entity event = coalesce (entity_of "payment" event) (entity_of "order" event)

unfoldable pub order_id_of : Option Json → Option Json
order_id_of entity = coalesce (opt_prop "order_id" entity) (opt_prop "id" entity)

-- The provider has the payment as captured, for this order.
unfoldable pub confirms : FetchedPayment → Option Json → Bool
confirms fetched order_id = is_text "captured" fetched.status && same fetched.order_id order_id

-- The branch of a captured payment; `row` is the id of the row that was inserted.
settle_payment : Json → String → M WebhookResponse
settle_payment event row = do
  let payment_id = opt_prop "id" (paid_entity event)
  let order_id = order_id_of (paid_entity event)
  fetched ← call (fetch_payment payment_id)
  (if confirms fetched order_id
      then (do
        res ← db_rpc (rpc_verify_topup order_id payment_id)
        call (update_webhook_event processed row)
        pure (processed_transaction (coalesce (opt_prop "transaction_id" res) (some null))))
      else (do
        call (update_webhook_event failed row)
        throw (bad_request "PAYMENT_CROSS_CHECK_FAILED")))

-- The branch of a chargeback.
record_dispute : Json → String → String → M WebhookResponse
record_dispute event name row = do
  let d = entity_of "dispute" event
  let payment_id = coalesce (opt_prop "payment_id" d) (opt_prop "id" (entity_of "payment" event))
  res ← db_rpc (
      rpc_record_dispute (coalesce (opt_prop "id" d) (event_id event))
        (coalesce payment_id (some null))
        (to_number (coalesce (opt_prop "amount" d) (some (num 0))))
        (coalesce (coalesce (opt_prop "reason_code" d) (opt_prop "reason_description" d))
          (some null))
        (dispute_status name))
  call (update_webhook_event processed row)
  pure (processed_dispute (coalesce (opt_prop "dispute_id" res) (some null)))

ignore_event : Option Json → String → M WebhookResponse
ignore_event name row = do call (update_webhook_event processed row); pure (ignored name)

-- Events that are no payment: `event.event?.startsWith(…)` throws on what is neither text nor nullish.
other_event : Option Json → Json → String → M WebhookResponse
unfolding record_dispute ignore_event
other_event (some (str name)) event row =
    if starts_with name "payment.dispute."
    then record_dispute event name row
    else ignore_event (some (str name)) row
other_event none event row = ignore_event none row
other_event (some null) event row = ignore_event (some null) row
other_event (some _) event row = throw type_error

unfoldable pub is_payment : Option Json → Bool
is_payment name = is_text "payment.captured" name || is_text "order.paid" name

-- After the idempotent log: no row came back, or the id of the new one.
handle_event : Json → List String → M WebhookResponse
unfolding settle_payment other_event
handle_event event [] = pure replayed
handle_event event (row ∷ rows) =
    if is_payment (prop "event" event)
    then settle_payment event row
    else other_event (prop "event" event) event row

-- The body of the transaction.
log_and_handle : Json → M WebhookResponse
unfolding handle_event
log_and_handle event = do
  rows ← call (
      insert_webhook_event (event_id event) (coalesce (prop "event" event) (some (str "unknown")))
        event)
  handle_event event rows

-- What is done with a body whose signature is right; `none` is a body that does not parse. The first
-- read of a field throws on `null`.
handle_body : Option Json → M WebhookResponse
unfolding log_and_handle
handle_body none = throw (bad_request "MALFORMED_PAYLOAD")
handle_body (some null) = throw type_error
handle_body (some event) = run_as_service (log_and_handle event)

-- `hmac secret body` is the hexadecimal HMAC-SHA256 of the raw body.
module _ {Body : Type 0} (hmac : String → Body → String) (parse : Body → Option Json) where
  unfoldable pub verify_webhook_signature : String → Body → String → Bool
  verify_webhook_signature secret body signature =
      not (secret == "") && not (signature == "") && hmac secret body == signature

  unfoldable pub handle_webhook : String → Body → String → M WebhookResponse
  unfolding handle_body
  handle_webhook secret body signature =
      if verify_webhook_signature secret body signature
      then handle_body (parse body)
      else throw (bad_request "INVALID_SIGNATURE")
