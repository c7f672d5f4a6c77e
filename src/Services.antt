-- ===== src/Services.antt =====
-- The services behind `JwtGuard` that write for the caller, one module for each of their controllers.
pub mod Answers
pub mod Messaging
pub mod Availability
pub mod Catalog
pub mod Shoutouts
pub mod Trust
pub mod Earnings
pub mod Notifications
pub mod Onboarding
pub mod Booking
pub mod Caller
use zudue_api.Base.{String, Option}
use zudue_api.Json.{Json}
use zudue_api.Auth
use zudue_api.Auth.{JoseResult}
use zudue_api.Effect.{M, ◌>>=◌}
use zudue_api.Admin.{as_user}
use Messaging.{MessagingAction, messaging}
use Availability.{AvailabilityAction, availability}
use Catalog.{CatalogAction, catalog}
use Shoutouts.{ShoutoutsAction, shoutouts}
use Trust.{TrustAction, trust}
use Earnings.{EarningsAction, earnings}
use Notifications.{NotificationsAction, notifications}
use Onboarding.{OnboardingAction, onboarding}
use Booking.{BookingAction, booking}

pub data ServiceAction : Type 0 where
  messaging_action : MessagingAction → ServiceAction
  availability_action : AvailabilityAction → ServiceAction
  catalog_action : CatalogAction → ServiceAction
  shoutouts_action : ShoutoutsAction → ServiceAction
  trust_action : TrustAction → ServiceAction
  earnings_action : EarningsAction → ServiceAction
  notifications_action : NotificationsAction → ServiceAction
  onboarding_action : OnboardingAction → ServiceAction
  booking_action : BookingAction → ServiceAction

unfoldable pub serve : String → ServiceAction → M (Option Json)
unfolding messaging availability catalog shoutouts trust earnings notifications onboarding booking
serve u (messaging_action a) = messaging u a
serve u (availability_action a) = availability u a
serve u (catalog_action a) = catalog u a
serve u (shoutouts_action a) = shoutouts u a
serve u (trust_action a) = trust u a
serve u (earnings_action a) = earnings u a
serve u (notifications_action a) = notifications u a
serve u (onboarding_action a) = onboarding u a
serve u (booking_action a) = booking u a

-- `@UseGuards(JwtGuard)` before an action, given the header `authorization`.
unfoldable pub user_route : (String → JoseResult) → Option String → ServiceAction → M (Option Json)
unfolding as_user serve
user_route jwt_verify auth a = do u ← as_user (Auth.can_activate jwt_verify auth); serve u.id a
