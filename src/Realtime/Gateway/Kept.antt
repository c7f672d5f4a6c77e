-- ===== src/Realtime/Gateway/Kept.antt =====
-- That a connection of src/realtime/realtime.gateway.ts which listens is registered with a healthy source, as a
-- condition on one state.
use zudue_api.Base.{
  ℕ, ◌≡◌, refl, ap, ◌∙◌, Bool, true, false, not, ◌&&◌, ◌||◌, ◌++◌, arith, holds, if◌then◌else◌,
}
use zudue_api.Realtime.Socket.{SocketApi}
use zudue_api.Realtime.Gateway.{Gateway, members, all_conns}
use zudue_api.Realtime.Gateway.Teardown.{listens}
use zudue_api.Realtime.Gateway.Quiet.{IsQuiet}

module _ (api : SocketApi) where
  -- That one connection does not listen, or is registered while the source is healthy.
  unfoldable pub kept : ℕ → Gateway api → Bool
  unfolding listens all_conns
  kept j g = not (listens api (g.conns j)) || (g.healthy && holds j (all_conns api g))

  pub quiet_kept :
      (j : ℕ) (g g' : Gateway api) → IsQuiet api g g' → kept j g ≡ true → kept j g' ≡ true
  unfolding kept all_conns
  quiet_kept j g g' q h =
      let s = q.stays j in
      let e = q.same_health in
      let p =
        ap (λ xs. holds j (xs ++ members api g'.by_user)) q.same_pending
        ∙ ap (λ m. holds j (g.pending ++ members api m)) q.same_users in
      ground arith

  pub silent_kept : (j : ℕ) (g : Gateway api) → listens api (g.conns j) ≡ false → kept j g ≡ true
  unfolding kept
  silent_kept j g h = ground arith

  pub kept_by :
      (j : ℕ) (g g' : Gateway api)
      → listens api (g'.conns j) ≡ listens api (g.conns j)
      → g'.healthy ≡ g.healthy
      → holds j (all_conns api g') ≡ holds j (all_conns api g)
      → kept j g ≡ true
      → kept j g' ≡ true
  unfolding kept
  kept_by j g g' l e m h = ground arith

  pub if_kept :
      (j : ℕ) (b : Bool) (x y : Gateway api)
      → (b ≡ true → kept j x ≡ true)
      → (b ≡ false → kept j y ≡ true)
      → kept j (if b then x else y) ≡ true
  if_kept j true x y p q = p refl
  if_kept j false x y p q = q refl
