-- ===== src/Wallet/Topup.antt =====
-- `createTopup` and `getBalance` of src/wallet/wallet.service.ts. Rates are in ten-thousandths, as the
-- column `gst_rate numeric(5,4)` holds them.
pub mod Ceiling
pub mod Phases
use zudue_api.Base.{
  ℕ, zero, suc, ◌+◌, ◌*◌, ◌/◌, String, Bool, true, false, Option, none, some, ltb, or_else,
  if◌then◌else◌,
}
use zudue_api.Effect.{Error, bad_request, M, pure, throw, ◌>>=◌, ◌>>◌, call}
use zudue_api.Effect.Requests.{
  Settings, CreatedOrder, Balance, TopupOrder, select_settings, lock_topup, select_balance,
  select_reserved, insert_topup_order, create_order,
}
use zudue_api.Effect.Database.{run_as}

-- A JavaScript number as the handler tells it apart: an integer, negative or not, or anything else.
pub data Amount : Type 0 where
  whole : ℕ → Amount
  below_zero : ℕ → Amount
  not_integer : Amount

-- What the fan's client is handed.
pub record TopupResponse : Type 0 where
  pub order_id : String
  pub amount_paise : ℕ
  pub credit_paise : ℕ
  pub gst_paise : ℕ
  pub currency : String
  pub key_id : String

-- `Number(settings?.gst_rate ?? 0.18)`
unfoldable pub rate_of : Option Settings → ℕ
rate_of none = 1800
rate_of (some s) = or_else s.gst_rate 1800

-- `Math.round(creditPaise * gstRate)`
unfoldable pub gst : ℕ → ℕ → ℕ
gst credit rate = (2 * credit * rate + 10000) / 20000

-- `if (limit && …)`: a limit that is missing, null or 0 is none.
unfoldable pub limit : Option ℕ → Option ℕ
limit none = none
limit (some zero) = none
limit (some (suc n)) = some (suc n)

unfoldable pub min_topup : Option Settings → Option ℕ
unfolding limit
min_topup none = none
min_topup (some s) = limit s.min_wallet_topup_paise

unfoldable pub max_topup : Option Settings → Option ℕ
unfolding limit
max_topup none = none
max_topup (some s) = limit s.max_wallet_topup_paise

unfoldable pub max_balance : Option Settings → Option ℕ
unfolding limit
max_balance none = none
max_balance (some s) = limit s.max_wallet_balance_paise

unfoldable pub below : ℕ → Option ℕ → Bool
below n none = false
below n (some m) = ltb n m

unfoldable pub above : ℕ → Option ℕ → Bool
above n none = false
above n (some m) = ltb m n

unfoldable pub balance_of : Option Balance → ℕ
balance_of none = 0
balance_of (some w) = w.balance_paise

-- The test of phase 3, under the user's advisory lock.
unfoldable pub check_ceiling : String → ℕ → Option ℕ → M (Unit {0})
unfolding balance_of
check_ceiling user_id credit none = pure tt
check_ceiling user_id credit (some cap) = do
  call (lock_topup user_id)
  w ← call (select_balance user_id)
  r ← call (select_reserved user_id)
  let projected = balance_of w + or_else r 0 + credit
  if ltb cap projected then throw (bad_request "WALLET_BALANCE_CAP_EXCEEDED") else pure tt

unfoldable pub record_order : String → ℕ → ℕ → CreatedOrder → M (Unit {0})
record_order user_id credit gst_paise order = call (
    insert_topup_order (record {
      profile_id = user_id;
      credit_paise = credit;
      gst_paise = gst_paise;
      amount_paise = credit + gst_paise;
      razorpay_order_id = order.order_id;
    }))

-- Phases 2 and 3, after the limits of phase 1.
unfoldable pub place_topup : String → ℕ → Option Settings → M TopupResponse
unfolding check_ceiling record_order
place_topup user_id credit settings = do
  let gst_paise = gst credit (rate_of settings)
  order ← call (create_order (credit + gst_paise) user_id)
  run_as user_id (do
    check_ceiling user_id credit (max_balance settings)
    record_order user_id credit gst_paise order
    pure (record {
      order_id = order.order_id;
      amount_paise = credit + gst_paise;
      credit_paise = credit;
      gst_paise = gst_paise;
      currency = order.currency;
      key_id = order.provider_key_id;
    }))

valid_topup : String → ℕ → M TopupResponse
unfolding place_topup
valid_topup user_id credit = do
  settings ← run_as user_id (call select_settings)
  (if below credit (min_topup settings)
      then throw (bad_request "BELOW_MIN_TOPUP")
      else if above credit (max_topup settings)
      then throw (bad_request "ABOVE_MAX_TOPUP")
      else place_topup user_id credit settings)

unfoldable pub create_topup : String → Amount → M TopupResponse
unfolding valid_topup
create_topup user_id (whole (suc n)) = valid_topup user_id (suc n)
create_topup user_id _ = throw (bad_request "creditPaise must be a positive integer")

unfoldable pub get_balance : String → M Balance
get_balance user_id = run_as user_id (do
  w ← call (select_balance user_id)
  pure (or_else w (record { balance_paise = 0; bonus_balance_paise = 0 })))
