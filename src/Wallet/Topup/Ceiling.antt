-- ===== src/Wallet/Topup/Ceiling.antt =====
-- The prepaid ceiling of `createTopup` (src/wallet/wallet.service.ts) and its per-transaction limits.
use zudue_api.Base.{
  ℕ, zero, suc, ◌+◌, ◌≤◌, ◌≡◌, String, Bool, true, false, ◌&&◌, leb, Option, none, some, [], ◌∷◌,
  arith, or_else, ◌==◌, eq_refl,
}
use zudue_api.Effect.{Env, History, Reply, answer, returned, history}
use zudue_api.Effect.Requests.{
  Settings, Balance, insert_topup_order, TopupOrder, select_reserved, select_balance, lock_topup,
  begin, set_user,
}
use zudue_api.Effect.Database.{run_as}
use zudue_api.Wallet.Topup.{
  Amount, whole, below_zero, not_integer, max_balance, balance_of, create_topup, place_topup,
}

-- What the database answered stays under the ceiling with the new credit on top.
abbrev pub room : ℕ → ℕ → Reply (Option Balance) → Reply (Option ℕ) → Bool
room cap credit (answer w) (answer r) = leb (balance_of w + or_else r 0 + credit) cap
room cap credit _ _ = false

-- The requests, newest first, that stand before an order is recorded: in a unit of work of the order's own user
-- that user's lock was taken, then that user's balance and reserved orders were read, and there was room.
abbrev pub had_room : Env → ℕ → TopupOrder → History → Bool
had_room env cap o (select_reserved u ∷ select_balance v ∷ lock_topup w ∷ set_user x ∷ begin ∷ h) =
    u == o.profile_id
    && v == o.profile_id
    && w == o.profile_id
    && x == o.profile_id
    && room cap o.credit_paise (env (select_balance v) (lock_topup w ∷ set_user x ∷ begin ∷ h))
        (env (select_reserved u) (select_balance v ∷ lock_topup w ∷ set_user x ∷ begin ∷ h))
had_room env cap o _ = false

-- Every order that was recorded had room under the ceiling.
abbrev pub orders_fit : Env → ℕ → History → Bool
orders_fit env cap [] = true
orders_fit env cap (insert_topup_order o ∷ h) = had_room env cap o h && orders_fit env cap h
orders_fit env cap (r ∷ h) = orders_fit env cap h

-- Where a ceiling is set, phases 2 and 3 record an order only if, in a unit of work of its user and under that
-- user's lock, the user's balance, the user's orders reserved in the last half hour and the new credit together
-- do not pass it.
pub place_topup-orders_fit :
    (u : String) (credit cap : ℕ) (s : Option Settings) (env : Env) (h : History)
    → max_balance s ≡ some cap
    → orders_fit env cap h ≡ true
    → orders_fit env cap (history (place_topup u credit s env h)) ≡ true
unfolding place_topup run_as balance_of
place_topup-orders_fit u credit cap s env h c p = let own = eq_refl u in ground arith

abbrev pub orders_recorded : History → ℕ
orders_recorded [] = 0
orders_recorded (insert_topup_order o ∷ h) = suc (orders_recorded h)
orders_recorded (r ∷ h) = orders_recorded h

abbrev count_of {ℓ} : {A : Type ℓ} → Option A → ℕ
count_of none = 0
count_of (some a) = 1

-- A call of `createTopup` records at most one order, and one where it succeeds.
create_topup-records :
    (u : String) (a : Amount) (env : Env) (h : History)
    → let out = create_topup u a env h in
      (orders_recorded (history out) ≤ orders_recorded h + 1)
      × (orders_recorded h + count_of (returned out) ≤ orders_recorded (history out))
unfolding create_topup run_as
create_topup-records u (whole zero) env h = omega arith
create_topup-records u (whole (suc n)) env h = ground arith
create_topup-records u (below_zero n) env h = omega arith
create_topup-records u not_integer env h = omega arith
