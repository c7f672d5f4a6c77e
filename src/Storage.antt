-- ===== src/Storage.antt =====
-- src/storage/storage.module.ts, src/storage/r2.provider.ts and src/storage/media-url.util.ts: the keys of uploads and
-- the addresses of media. Signing is the SDK's.
pub mod Keys
pub mod Media
use zudue_api.Base.{
  ℕ, String, Bool, true, false, ◌&&◌, Option, none, some, ◌==◌, has, object_prototype,
  if◌then◌else◌,
}
use zudue_api.Text.{◌<>◌, starts_with, is_alnum, keep_chars, take_chars}
use zudue_api.Effect.{M, pure, throw, plain, type_error, ◌>>=◌, ◌>>◌, call}
use zudue_api.Effect.Requests.{Bucket, kyc, media, inherited, presign}

-- The settings that `R2Provider` reads.
pub record R2Settings : Type 0 where
  pub account_id : Option String
  pub access_key_id : Option String
  pub secret_access_key : Option String
  pub bucket_kyc : Option String
  pub bucket_media : Option String

-- `!!text`
unfoldable pub is_set : Option String → Bool
is_set none = false
is_set (some s) = if s == "" then false else true

unfoldable pub is_configured : R2Settings → Bool
unfolding is_set
is_configured c =
    is_set c.account_id
    && is_set c.access_key_id
    && is_set c.secret_access_key
    && is_set c.bucket_kyc
    && is_set c.bucket_media

pub record PresignedUpload : Type 0 where
  pub upload_url : String
  pub key : String
  pub expires_in_seconds : ℕ

-- `getUploadUrl`
unfoldable pub get_upload_url : R2Settings → Bucket → String → Option String → M PresignedUpload
unfolding is_configured
get_upload_url c bucket key content_type =
    if is_configured c
    then (do
      url ← call (presign bucket key content_type 300)
      pure (record { upload_url = url; key = key; expires_in_seconds = 300 }))
    else throw (plain "Storage provider not configured")

-- `PURPOSE_TO_BUCKET[purpose]`
unfoldable pub purpose_to_bucket : String → Option Bucket
purpose_to_bucket purpose =
    if purpose == "kyc"
    then some kyc
    else if purpose == "profile_photo"
    then some media
    else if has purpose object_prototype
    then some inherited
    else none

unfoldable pub safe_ext : String → String
unfolding is_alnum
safe_ext extension =
    let kept = take_chars 10 (keep_chars is_alnum extension) in if kept == "" then "bin" else kept

unfoldable pub upload_key : String → String → String → String → String
upload_key purpose user_id uuid ext =
    purpose <> ("/" <> (user_id <> ("/" <> (uuid <> ("." <> ext)))))

-- `uploadUrl` once the bucket is looked up; a body without an extension makes `extension.replace` throw.
unfoldable pub upload_to :
    R2Settings
    → String
    → String
    → String
    → Option String
    → Option String
    → Option Bucket
    → M PresignedUpload
unfolding safe_ext upload_key get_upload_url
upload_to c user_id purpose uuid content_type ext none = throw (plain "INVALID_PURPOSE")
upload_to c user_id purpose uuid content_type none (some bucket) = throw type_error
upload_to c user_id purpose uuid content_type (some ext) (some bucket) =
    get_upload_url c bucket (upload_key purpose user_id uuid (safe_ext ext)) content_type

unfoldable pub upload_url :
    R2Settings → String → String → String → Option String → Option String → M PresignedUpload
unfolding upload_to purpose_to_bucket
upload_url c user_id purpose uuid content_type extension =
    upload_to c user_id purpose uuid content_type extension (purpose_to_bucket purpose)
