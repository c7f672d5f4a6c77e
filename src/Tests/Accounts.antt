-- ===== src/Tests/Accounts.antt =====
-- The theorems on storage, identity, discovery and the admin routes at concrete inputs.
use zudue_api.Base.{
  ℕ, ◌≤◌, ◌≡◌, ◌≢◌, refl, String, true, false, ◌⊎◌, ◌↔◌, none, some, [], ◌∷◌, ◌==◌, if◌then◌else◌,
}
use zudue_api.Json.{str, bool, obj, end}
use zudue_api.Text.{all_chars, keep_chars, take_chars, is_alnum, size}
use zudue_api.Auth
use zudue_api.Auth.{VerifiedToken, Payload, JoseResult, verified, failed, accepted}
use zudue_api.Effect.{Env, history, fail}
use zudue_api.Effect.Database.{run_as, db_rpc}
use zudue_api.Effect.Requests.{Bucket, Rpc, rpc}
use zudue_api.Effect.Aborted.{durable}
use zudue_api.Storage.{R2Settings, PresignedUpload, upload_key, upload_url}
use zudue_api.Storage.Keys.{IsBucketOf, IsSigned, upload_url-own}
use zudue_api.Identity.{
  AccountStatus, Role, PartnerStatus, ApplicationStatus, Application, Lifecycle, lifecycle,
  create_profile, Patch, update_profile, update_partner,
}
use zudue_api.Identity.States.{lifecycle_live, lifecycle_newest}
use zudue_api.Identity.Updates.{writes_own, profile_updates-own}
use zudue_api.Identity.Signup.{create_profile_lost}
use zudue_api.Discovery.{by_handle}
use zudue_api.Discovery.Links.{asked_known, by_handle-known}
use zudue_api.Admin.{AdminAction, moderation_action, act, admin_route}
use zudue_api.Admin.Moderation.{post_recover_call}
use zudue_api.Admin.Access.{rpcs, admitted, RanOne, IsAdmin, admin_route-guarded}
use zudue_api.Tests.Samples.{sample}

abbrev r2 : R2Settings
r2 = record {
  account_id = some "acc";
  access_key_id = some "id";
  secret_access_key = some "secret";
  bucket_kyc = some "kyc";
  bucket_media = some "media";
}

abbrev signed : String → PresignedUpload
signed key = record { upload_url = "https://signed"; key = key; expires_in_seconds = 300 }

abbrev kyc_upload : PresignedUpload
kyc_upload = signed "kyc/alice/1.pdf"

abbrev photo_upload : PresignedUpload
photo_upload = signed "profile_photo/bob/2.bin"

abbrev alice : String
alice = "alice"

abbrev bob : String
bob = "bob"

abbrev kyc : String
kyc = "kyc"

abbrev photo : String
photo = "profile_photo"

upload_url-own_example :
    ((e : String) × (kyc_upload.key ≡ upload_key kyc alice "1" e)
      × (all_chars is_alnum e ≡ true)
      × (size e ≤ 10)
      × ((e == "") ≡ false))
    × ((b : Bucket) × IsBucketOf kyc b
        × IsSigned b none sample [] kyc_upload
            (upload_url r2 alice kyc "1" none (some ".pdf") sample []))
    × (kyc_upload.key ≡ photo_upload.key → (kyc ≡ photo) × (alice ≡ bob))
unfolding upload_url take_chars keep_chars
upload_url-own_example =
    upload_url-own r2 alice bob kyc photo "1" "2" none none (some ".pdf") (some "../") sample sample
      [] [] kyc_upload photo_upload refl refl refl refl

abbrev base : String
base = "https://cdn/"

abbrev image : String
image = "a.png"

lifecycle_live_example :
    (lifecycle AccountStatus.active Role.partner none [] ≡ Lifecycle.live ↔ (
      (AccountStatus.active ≡ AccountStatus.active)
      × ((Role.partner ≢ Role.partner) ⊎ (none ≡ some PartnerStatus.active))))
    × (lifecycle AccountStatus.active Role.partner none [] ≡ Lifecycle.suspended
        ↔ AccountStatus.active ≢ AccountStatus.active)
lifecycle_live_example = lifecycle_live AccountStatus.active Role.partner none []

abbrev at_time : ApplicationStatus → ℕ → Application
at_time s t = record { status = s; submitted_at = t }

lifecycle_newest_example :
    lifecycle AccountStatus.active Role.partner (some PartnerStatus.pending_approval) (
      at_time ApplicationStatus.rejected_initial 1
      ∷ at_time ApplicationStatus.pending_final_admin_approval 3
      ∷ at_time ApplicationStatus.rejected_kyc 2
      ∷ [])
    ≡ Lifecycle.pending_final
unfolding lifecycle
lifecycle_newest_example =
    lifecycle_newest AccountStatus.active (some PartnerStatus.pending_approval)
      (at_time ApplicationStatus.pending_final_admin_approval 3)
      (at_time ApplicationStatus.rejected_initial 1 ∷ [])
      (at_time ApplicationStatus.rejected_kyc 2 ∷ []) (λ e. cc e) refl refl

abbrev patch : Patch
patch =
    ("age", some (str ""))
    ∷ ("role", some (str "ADMIN"))
    ∷ ("vacation_mode", some (bool false))
    ∷ ("full_name", none)
    ∷ []

profile_updates-own_example :
    (writes_own "alice" (history (update_profile "alice" patch sample [])) ≡ true)
    × (writes_own "alice" (history (update_partner "alice" patch sample [])) ≡ true)
profile_updates-own_example = profile_updates-own "alice" patch sample [] refl refl

-- A database whose RPCs all fail.
abbrev broken : Env
broken (rpc p) h = fail "undefined function"
broken r h = sample r h

create_profile_lost_example :
    durable broken false (history (create_profile "alice" "Alice" none none broken [])) ≡ []
unfolding durable
create_profile_lost_example =
    create_profile_lost "alice" "Alice" none none broken [] "undefined function" refl

by_handle-known_example :
    asked_known sample (history (by_handle none "7f1c0a52-0000-4000-8000-0123456789ab" sample []))
    ≡ true
by_handle-known_example = by_handle-known none "7f1c0a52-0000-4000-8000-0123456789ab" sample [] refl

abbrev jose : String → JoseResult
jose t =
    if t == "good"
    then verified (record { sub = some "alice"; email = none; exp = none })
    else failed none

abbrev recovery : AdminAction
recovery = moderation_action (post_recover_call "booking" (obj end))

admin_route-guarded_example :
    (rpcs (history (admin_route jose (some "Bearer good") recovery sample [])) ≡ [])
    ⊎ ((u : VerifiedToken) × (Auth.can_activate jose (some "Bearer good") ≡ accepted u)
        × IsAdmin u.id sample []
        × (p : Rpc) × (act u.id recovery ≡ run_as u.id (db_rpc p))
        × RanOne u.id p
            (admitted u.id [])
            (history (admin_route jose (some "Bearer good") recovery sample [])))
admin_route-guarded_example = admin_route-guarded jose (some "Bearer good") recovery sample []
