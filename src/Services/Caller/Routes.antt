-- ===== src/Services/Caller/Routes.antt =====
-- As whom the routes of the services write.
use zudue_api.Base.{◌≡◌, refl, String, true, ◌⊎◌, inl, inr, Option, []}
use zudue_api.Json.{prop}
use zudue_api.Auth
use zudue_api.Auth.{VerifiedToken, JoseResult, Verdict, accepted}
use zudue_api.Effect.{Env, history, ◌>>=◌}
use zudue_api.Effect.Rules.{Keeps}
use zudue_api.Admin.{as_user}
use zudue_api.Services.{
  ServiceAction, serve, user_route, messaging_action, availability_action, catalog_action,
  shoutouts_action, trust_action, earnings_action, notifications_action, onboarding_action,
  booking_action,
}
use zudue_api.Services.Messaging.{MessagingAction, messaging}
use zudue_api.Services.Availability.{AvailabilityAction, availability}
use zudue_api.Services.Catalog.{CatalogAction, catalog}
use zudue_api.Services.Shoutouts.{ShoutoutsAction, shoutouts}
use zudue_api.Services.Trust.{TrustAction, trust}
use zudue_api.Services.Earnings.{EarningsAction, earnings}
use zudue_api.Services.Notifications.{NotificationsAction, notifications}
use zudue_api.Services.Onboarding.{OnboardingAction, onboarding}
use zudue_api.Services.Booking.{BookingAction, booking}
use zudue_api.Services.Caller.{OnlyAs, only_as, rpc-OnlyAs, write-OnlyAs}
use zudue_api.Services.Caller.Links.{set_social_link-OnlyAs, set_slugs-OnlyAs}
use zudue_api.Services.Caller.Reports.{report_shoutout-OnlyAs, report_on-OnlyAs}

messaging-OnlyAs : (u : String) (a : MessagingAction) → Keeps (OnlyAs u) (messaging u a)
unfolding messaging
messaging-OnlyAs u (MessagingAction.post_ask p t) = rpc-OnlyAs u _
messaging-OnlyAs u (MessagingAction.post_reply c t) = rpc-OnlyAs u _
messaging-OnlyAs u (MessagingAction.post_followup f t) = rpc-OnlyAs u _

availability-OnlyAs : (u : String) (a : AvailabilityAction) → Keeps (OnlyAs u) (availability u a)
unfolding availability
availability-OnlyAs u (AvailabilityAction.post_availability b) = rpc-OnlyAs u _

catalog-OnlyAs : (u : String) (a : CatalogAction) → Keeps (OnlyAs u) (catalog u a)
unfolding catalog
catalog-OnlyAs u (CatalogAction.post_service b) = rpc-OnlyAs u _
catalog-OnlyAs u (CatalogAction.post_social_link b) =
    set_social_link-OnlyAs u (prop "platform" b) (prop "url" b)
catalog-OnlyAs u (CatalogAction.post_categories b) = set_slugs-OnlyAs u _
catalog-OnlyAs u (CatalogAction.post_delete_link id) = write-OnlyAs u _ _

shoutouts-OnlyAs : (u : String) (a : ShoutoutsAction) → Keeps (OnlyAs u) (shoutouts u a)
unfolding shoutouts
shoutouts-OnlyAs u (ShoutoutsAction.post_request b) = rpc-OnlyAs u _
shoutouts-OnlyAs u (ShoutoutsAction.post_upload id b) = rpc-OnlyAs u _
shoutouts-OnlyAs u (ShoutoutsAction.post_report id b) =
    report_shoutout-OnlyAs u id (prop "reason" b)
shoutouts-OnlyAs u (ShoutoutsAction.post_confirm id) = rpc-OnlyAs u _
shoutouts-OnlyAs u (ShoutoutsAction.post_correction id b) = rpc-OnlyAs u _

trust-OnlyAs : (u : String) (a : TrustAction) → Keeps (OnlyAs u) (trust u a)
unfolding trust
trust-OnlyAs u (TrustAction.post_block b) = rpc-OnlyAs u _
trust-OnlyAs u (TrustAction.post_unblock b) = rpc-OnlyAs u _
trust-OnlyAs u (TrustAction.post_report b) = report_on-OnlyAs u (prop "targetType" b) b

earnings-OnlyAs : (u : String) (a : EarningsAction) → Keeps (OnlyAs u) (earnings u a)
unfolding earnings
earnings-OnlyAs u (EarningsAction.post_method b) = write-OnlyAs u _ _
earnings-OnlyAs u (EarningsAction.post_withdraw b) = rpc-OnlyAs u _

notifications-OnlyAs : (u : String) (a : NotificationsAction) → Keeps (OnlyAs u) (notifications u a)
unfolding notifications
notifications-OnlyAs u (NotificationsAction.post_read id) = write-OnlyAs u _ _
notifications-OnlyAs u NotificationsAction.post_read_all = write-OnlyAs u _ _

onboarding-OnlyAs : (u : String) (a : OnboardingAction) → Keeps (OnlyAs u) (onboarding u a)
unfolding onboarding
onboarding-OnlyAs u (OnboardingAction.post_kyc b) = rpc-OnlyAs u _
onboarding-OnlyAs u (OnboardingAction.post_deletion b) = rpc-OnlyAs u _
onboarding-OnlyAs u OnboardingAction.post_deletion_cancel = rpc-OnlyAs u _
onboarding-OnlyAs u (OnboardingAction.post_application b) = write-OnlyAs u _ _
onboarding-OnlyAs u (OnboardingAction.post_review b) = rpc-OnlyAs u _

booking-OnlyAs : (u : String) (a : BookingAction) → Keeps (OnlyAs u) (booking u a)
unfolding booking
booking-OnlyAs u (BookingAction.get_preview p d c) = rpc-OnlyAs u _
booking-OnlyAs u (BookingAction.post_book p d l n c) = rpc-OnlyAs u _

serve-OnlyAs : (u : String) (a : ServiceAction) → Keeps (OnlyAs u) (serve u a)
unfolding serve
serve-OnlyAs u (messaging_action a) = messaging-OnlyAs u a
serve-OnlyAs u (availability_action a) = availability-OnlyAs u a
serve-OnlyAs u (catalog_action a) = catalog-OnlyAs u a
serve-OnlyAs u (shoutouts_action a) = shoutouts-OnlyAs u a
serve-OnlyAs u (trust_action a) = trust-OnlyAs u a
serve-OnlyAs u (earnings_action a) = earnings-OnlyAs u a
serve-OnlyAs u (notifications_action a) = notifications-OnlyAs u a
serve-OnlyAs u (onboarding_action a) = onboarding-OnlyAs u a
serve-OnlyAs u (booking_action a) = booking-OnlyAs u a

-- A route that writes makes no request at all, or jose verified the caller's token and every change of data that
-- it asks for stands in a unit of work that was set to that caller.
pub user_route-only_as :
    (jwt_verify : String → JoseResult) (auth : Option String) (a : ServiceAction) (env : Env)
    → (history (user_route jwt_verify auth a env []) ≡ [])
      ⊎ ((u : VerifiedToken) × (Auth.can_activate jwt_verify auth ≡ accepted u)
          × (only_as u.id (history (user_route jwt_verify auth a env [])) ≡ true))
unfolding user_route as_user
user_route-only_as jwt_verify auth a env = by_verdict (Auth.can_activate jwt_verify auth) refl
  where
    by_verdict :
        (v : Verdict VerifiedToken)
        → Auth.can_activate jwt_verify auth ≡ v
        → (history ((do u ← as_user v; serve u.id a) env []) ≡ [])
          ⊎ ((u : VerifiedToken) × (Auth.can_activate jwt_verify auth ≡ accepted u)
              × (only_as u.id (history ((do u ← as_user v; serve u.id a) env [])) ≡ true))
    by_verdict (Verdict.unauthorized m) e = inl refl
    by_verdict (accepted u) e = inr (u, e, (serve-OnlyAs u.id a).at env [] refl)
