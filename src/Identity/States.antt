-- ===== src/Identity/States.antt =====
-- What `LIFECYCLE_SQL` of src/identity/identity.module.ts says of a user.
use zudue_api.Base.{
  ℕ, ◌≡◌, ◌≢◌, refl, ap, Bool, true, false, Option, none, some, List, [], ◌∷◌, ◌++◌, arith, ◌⊎◌,
  inl, inr, ltb, if◌then◌else◌, ◌↔◌,
}
use zudue_api.Identity.{
  AccountStatus, Role, fan, partner, admin, PartnerStatus, Application, live, suspended, newest,
  of_application, of_newest, lifecycle,
}

-- Every application of the list was submitted before this time.
abbrev pub older : ℕ → List Application → Bool
older t [] = true
older t (a ∷ rest) = if ltb a.submitted_at t then older t rest else false

abbrev upto : ℕ → Option Application → Bool
upto t none = true
upto t (some a) = ltb a.submitted_at t

-- The newest of a list is not newer than a bound on all of it.
newest_of_older : (t : ℕ) (xs : List Application) → older t xs ≡ true → upto t (newest xs) ≡ true
unfolding newest
newest_of_older t [] h = refl
newest_of_older t (x ∷ xs) h = let ih = newest_of_older t xs (ground arith) in ground arith

newest_middle :
    (a : Application) (xs ys : List Application)
    → older a.submitted_at xs ≡ true
    → older a.submitted_at ys ≡ true
    → newest (xs ++ a ∷ ys) ≡ some a
unfolding newest
newest_middle a [] ys hx hy = let o = newest_of_older a.submitted_at ys hy in ground arith
newest_middle a (x ∷ xs) ys hx hy = let ih = newest_middle a xs ys (ground arith) hy in ground arith

of_newest-ne-live : (o : Option Application) → of_newest o ≢ live
unfolding of_newest of_application
of_newest-ne-live none e = cc e
of_newest-ne-live (some a) e = ground arith

of_newest-ne-suspended : (o : Option Application) → of_newest o ≢ suspended
unfolding of_newest of_application
of_newest-ne-suspended none e = cc e
of_newest-ne-suspended (some a) e = ground arith

abbrev IsLive : AccountStatus → Role → Option PartnerStatus → Type 0
IsLive a r s = (a ≡ AccountStatus.active) × ((r ≢ partner) ⊎ (s ≡ some PartnerStatus.active))

not_live :
    (s : Option PartnerStatus) (o : Option Application)
    → s ≢ some PartnerStatus.active
    → of_newest o ≡ live ↔ IsLive AccountStatus.active partner s
not_live s o n =
    (λ e. absurd (of_newest-ne-live o e), λ e. absurd (elim e.1 [ inl f ↦ f refl | inr f ↦ n f ]))

live_iff :
    (a : AccountStatus) (r : Role) (s : Option PartnerStatus) (apps : List Application)
    → lifecycle a r s apps ≡ live ↔ IsLive a r s
unfolding lifecycle
live_iff AccountStatus.suspended r s apps = (λ e. cc e, λ e. cc (e.0))
live_iff AccountStatus.banned r s apps = (λ e. cc e, λ e. cc (e.0))
live_iff AccountStatus.active fan s apps = (λ e. (refl, inl (λ f. cc f)), λ e. refl)
live_iff AccountStatus.active admin s apps = (λ e. (refl, inl (λ f. cc f)), λ e. refl)
live_iff AccountStatus.active partner (some PartnerStatus.active) apps =
    (λ e. (refl, inr refl), λ e. refl)
live_iff AccountStatus.active partner none apps = not_live none (newest apps) (λ e. cc e)
live_iff AccountStatus.active partner (some s) apps = not_live (some s) (newest apps) (λ e. cc e)

suspended_iff :
    (a : AccountStatus) (r : Role) (s : Option PartnerStatus) (apps : List Application)
    → lifecycle a r s apps ≡ suspended ↔ a ≢ AccountStatus.active
unfolding lifecycle
suspended_iff AccountStatus.suspended r s apps = (λ e f. cc f, λ e. refl)
suspended_iff AccountStatus.banned r s apps = (λ e f. cc f, λ e. refl)
suspended_iff AccountStatus.active fan s apps = (λ e. cc e, λ e. absurd (e refl))
suspended_iff AccountStatus.active admin s apps = (λ e. cc e, λ e. absurd (e refl))
suspended_iff AccountStatus.active partner (some PartnerStatus.active) apps =
    (λ e. cc e, λ e. absurd (e refl))
suspended_iff AccountStatus.active partner none apps =
    (λ e. absurd (of_newest-ne-suspended (newest apps) e), λ e. absurd (e refl))
suspended_iff AccountStatus.active partner (some s) apps =
    (λ e. absurd (of_newest-ne-suspended (newest apps) e), λ e. absurd (e refl))

-- A user is LIVE exactly where the account is neither suspended nor banned and the user is no partner or an
-- active one: no application makes a partner LIVE. A user is SUSPENDED exactly where the account is not active.
pub lifecycle_live :
    (a : AccountStatus) (r : Role) (s : Option PartnerStatus) (apps : List Application)
    → (lifecycle a r s apps ≡ live
        ↔ ((a ≡ AccountStatus.active) × ((r ≢ partner) ⊎ (s ≡ some PartnerStatus.active))))
      × (lifecycle a r s apps ≡ suspended ↔ a ≢ AccountStatus.active)
lifecycle_live a r s apps = (live_iff a r s apps, suspended_iff a r s apps)

-- Where a partner who is not active stands, by the account: of an active account where the application that is
-- newer than all others puts them, wherever in the table it stands, and else at SUSPENDED.
pub lifecycle_newest :
    (a : AccountStatus) (s : Option PartnerStatus) (b : Application) (xs ys : List Application)
    → s ≢ some PartnerStatus.active
    → older b.submitted_at xs ≡ true
    → older b.submitted_at ys ≡ true
    → lifecycle a partner s (xs ++ b ∷ ys) ≡ (elim a [
      | AccountStatus.active ↦ of_application b.status
      | AccountStatus.suspended ↦ suspended
      | AccountStatus.banned ↦ suspended
    ])
unfolding lifecycle of_newest
lifecycle_newest AccountStatus.suspended s b xs ys n hx hy = refl
lifecycle_newest AccountStatus.banned s b xs ys n hx hy = refl
lifecycle_newest AccountStatus.active none b xs ys n hx hy =
    ap of_newest (newest_middle b xs ys hx hy)
lifecycle_newest AccountStatus.active (some PartnerStatus.active) b xs ys n hx hy = absurd (n refl)
lifecycle_newest AccountStatus.active (some s) b xs ys n hx hy =
    ap of_newest (newest_middle b xs ys hx hy)
