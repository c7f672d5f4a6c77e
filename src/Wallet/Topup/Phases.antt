-- ===== src/Wallet/Topup/Phases.antt =====
-- The order of the phases of `createTopup` (src/wallet/wallet.service.ts), and its amounts.
use zudue_api.Base.{
  ℕ, zero, suc, ◌+◌, ◌*◌, ◌≤◌, ◌<◌, ◌≡◌, String, Bool, true, false, not, ◌&&◌, Option, none, some,
  [], ◌∷◌, arith,
}
use zudue_api.Effect.{Env, History, ok, history}
use zudue_api.Effect.Requests.{create_order, insert_topup_order, TopupOrder}
use zudue_api.Effect.Database.{run_as}
use zudue_api.Effect.History.{in_transaction}
use zudue_api.Wallet.Topup.{
  Amount, whole, below_zero, not_integer, TopupResponse, gst, create_topup,
}

-- Every order at the payment provider was created with no transaction open.
abbrev pub orders_outside : Env → History → Bool
orders_outside env [] = true
orders_outside env (create_order a u ∷ h) = not (in_transaction env h) && orders_outside env h
orders_outside env (r ∷ h) = orders_outside env h

-- `createTopup` calls the payment provider outside its transactions, so a slow provider holds no
-- connection; and it ends with no transaction open.
pub create_topup-orders_outside :
    (u : String) (a : Amount) (env : Env) (h : History)
    → in_transaction env h ≡ false
    → orders_outside env h ≡ true
    → (orders_outside env (history (create_topup u a env h)) ≡ true)
      × (in_transaction env (history (create_topup u a env h)) ≡ false)
unfolding create_topup run_as in_transaction
create_topup-orders_outside u (whole zero) env h o p = (p, o)
create_topup-orders_outside u (whole (suc n)) env h o p = ground arith
create_topup-orders_outside u (below_zero n) env h o p = (p, o)
create_topup-orders_outside u not_integer env h o p = (p, o)

-- The GST is the credit times the rate, rounded to the nearest paisa with halves up.
gst_nearest :
    (credit rate : ℕ)
    → (10000 * gst credit rate ≤ credit * rate + 5000)
      × (credit * rate + 5000 < 10000 * gst credit rate + 10000)
unfolding gst
gst_nearest credit rate = omega arith

abbrev pub last_order : History → Option TopupOrder
last_order [] = none
last_order (insert_topup_order o ∷ h) = some o
last_order (r ∷ h) = last_order h

-- A top-up that succeeds asked for a positive whole number of paise, which is the credit of the response
-- and of the order that was recorded for this user; both charge the credit and its GST.
pub create_topup_amounts :
    (u : String) (a : Amount) (env : Env) (h h' : History) (r : TopupResponse)
    → create_topup u a env h ≡ ok r h'
    → (0 < r.credit_paise)
      × (a ≡ whole r.credit_paise)
      × (r.amount_paise ≡ r.credit_paise + r.gst_paise)
      × (last_order h'
          ≡ some (record {
            profile_id = u;
            credit_paise = r.credit_paise;
            gst_paise = r.gst_paise;
            amount_paise = r.amount_paise;
            razorpay_order_id = r.order_id;
          }))
unfolding create_topup run_as
create_topup_amounts u (whole zero) env h h' r e = cc
create_topup_amounts u (whole (suc n)) env h h' r e = ground arith
create_topup_amounts u (below_zero n) env h h' r e = cc
create_topup_amounts u not_integer env h h' r e = cc
