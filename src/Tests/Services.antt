-- ===== src/Tests/Services.antt =====
-- The theorem on the services behind `JwtGuard` at a concrete input.
use zudue_api.Base.{◌≡◌, refl, String, true, false, ◌⊎◌, some, none, [], ◌==◌, if◌then◌else◌}
use zudue_api.Json.{str, obj, field, end}
use zudue_api.Auth
use zudue_api.Auth.{VerifiedToken, JoseResult, verified, failed, accepted}
use zudue_api.Effect.{history}
use zudue_api.Services.{ServiceAction, trust_action, user_route}
use zudue_api.Services.Catalog.{trim, with_scheme, is_link}
use zudue_api.Services.Trust.{post_report}
use zudue_api.Services.Caller.{only_as}
use zudue_api.Services.Caller.Routes.{user_route-only_as}
use zudue_api.Tests.Samples.{sample}

abbrev jose : String → JoseResult
jose t =
    if t == "good"
    then verified (record { sub = some "alice"; email = none; exp = none })
    else failed none

abbrev complaint : ServiceAction
complaint = trust_action (
    post_report (
      obj (
        field "targetType" (str "CALL")
          (field "targetId" (str "call") (field "reason" (str " rude ") end)))))

user_route-only_as_example :
    (history (user_route jose (some "Bearer good") complaint sample []) ≡ [])
    ⊎ ((u : VerifiedToken) × (Auth.can_activate jose (some "Bearer good") ≡ accepted u)
        × (only_as u.id (history (user_route jose (some "Bearer good") complaint sample []))
            ≡ true))
user_route-only_as_example = user_route-only_as jose (some "Bearer good") complaint sample

link_accepted : is_link (with_scheme (trim " instagram.com/alice ")) ≡ true
unfolding is_link with_scheme trim
link_accepted = refl

link_refused : is_link (with_scheme (trim "alice")) ≡ false
unfolding is_link with_scheme trim
link_refused = refl

link_with_blank : is_link "HTTPS://a b.c" ≡ false
unfolding is_link
link_with_blank = refl
