-- ===== src/Storage/Keys.antt =====
-- In whose part of a bucket an upload of src/storage/storage.module.ts lands.

use mathlib.Core.Path.{subst}
use zudue_api.Base.{
  if◌then◌else◌, ◌≤◌, ◌≡◌, refl, sym, ap, ◌∙◌, String, Bool, true, false, ◌&&◌, Option, none, some,
  ◌==◌, eq_iff, has, Bool-cases, inl, inr, arith, object_prototype, List, [], ◌∷◌,
}
use zudue_api.Text.{all_chars, keep_chars, take_chars, is_alnum, size}
use zudue_api.Text.Splitting.{lacks, split_slash, all-keep_chars, all-take_chars, size-take_chars}
use zudue_api.Effect.{
  Env, History, Outcome, ok, call, ◌>>=◌, Reply, fail, answer, history, returned,
}
use zudue_api.Effect.Requests.{Bucket, kyc, media, inherited, presign}
use zudue_api.Storage.{
  R2Settings, is_configured, PresignedUpload, get_upload_url, purpose_to_bucket, safe_ext,
  upload_key, upload_to, upload_url,
}

abbrev all_lack : List String → Bool
all_lack [] = true
all_lack (x ∷ xs) = lacks 47 x && all_lack xs

has-lacks :
    (p : String) (xs : List String) → all_lack xs ≡ true → has p xs ≡ true → lacks 47 p ≡ true
has-lacks p [] a h = ground arith
has-lacks p (x ∷ xs) a h = elim (Bool-cases (x == p)) [
  | inl e ↦ ap (lacks 47) (sym ((eq_iff x p).0 e)) ∙ ground arith
  | inr e ↦ has-lacks p xs (ground arith) (ground arith)
]

-- A purpose that names a bucket has no slash in it: all of them are known.
purpose-lacks : (p : String) (b : Bucket) → purpose_to_bucket p ≡ some b → lacks 47 p ≡ true
unfolding purpose_to_bucket
purpose-lacks p b h = elim (Bool-cases (p == "kyc")) [
  | inl e ↦ ap (lacks 47) ((eq_iff p "kyc").0 e)
  | inr e ↦ elim (Bool-cases (p == "profile_photo")) [
    | inl f ↦ ap (lacks 47) ((eq_iff p "profile_photo").0 f)
    | inr f ↦ has-lacks p object_prototype refl (listed p b e f h)
  ]
]
  where
    listed :
        (p : String) (b : Bucket)
        → (p == "kyc") ≡ false
        → (p == "profile_photo") ≡ false
        → purpose_to_bucket p ≡ some b
        → has p object_prototype ≡ true
    listed p b e f h = elim (Bool-cases (has p object_prototype)) [
      | inl q ↦ q
      | inr q ↦ cc (rw (e, f, q) at h)
    ]

safe_ext-safe :
    (e : String)
    → all_chars is_alnum (safe_ext e) ≡ true × size (safe_ext e) ≤ 10 × (safe_ext e == "") ≡ false
unfolding safe_ext is_alnum all_chars
safe_ext-safe e =
    let k = all-take_chars is_alnum 10 (keep_chars is_alnum e) (all-keep_chars is_alnum e) in
    let n = size-take_chars 10 (keep_chars is_alnum e) in
    elim (Bool-cases (take_chars 10 (keep_chars is_alnum e) == "")) [
      | inl f ↦ rw (f) (refl, omega arith, refl)
      | inr f ↦ rw (f) (k, n, f)
    ]

-- Which purposes have their uploads in this bucket.
abbrev pub IsBucketOf : String → Bucket → Type 0
IsBucketOf purpose kyc = purpose ≡ "kyc"
IsBucketOf purpose media = purpose ≡ "profile_photo"
IsBucketOf purpose inherited = has purpose object_prototype ≡ true

purpose-IsBucketOf : (p : String) (b : Bucket) → purpose_to_bucket p ≡ some b → IsBucketOf p b
unfolding purpose_to_bucket
purpose-IsBucketOf p b h = elim (Bool-cases (p == "kyc")) [
  | inl e ↦ is_of p kyc b ((eq_iff p "kyc").0 e) (cc (rw (e) at h))
  | inr e ↦ elim (Bool-cases (p == "profile_photo")) [
    | inl f ↦ is_of p media b ((eq_iff p "profile_photo").0 f) (cc (rw (e, f) at h))
    | inr f ↦ elim (Bool-cases (has p object_prototype)) [
      | inl q ↦ is_of p inherited b q (cc (rw (e, f, q) at h))
      | inr q ↦ absurd (cc (rw (e, f, q) at h))
    ]
  ]
]
  where
    is_of : (p : String) (a b : Bucket) → IsBucketOf p a → a ≡ b → IsBucketOf p b
    is_of p a b i e = subst (IsBucketOf p) e i

-- An upload was answered: the one request was the signing of a PUT of its key in this bucket, for 300 seconds,
-- and its URL is the one that was signed.
abbrev pub IsSigned :
    Bucket → Option String → Env → History → PresignedUpload → Outcome PresignedUpload → Type 0
IsSigned b type env h r out =
    (history out ≡ presign b r.key type 300 ∷ h)
    × (env (presign b r.key type 300) h ≡ answer r.upload_url)
    × (r.expires_in_seconds ≡ 300)

get_upload_url-key :
    (c : R2Settings) (b : Bucket) (key : String) (type : Option String) (env : Env) (h : History)
    (r : PresignedUpload)
    → returned (get_upload_url c b key type env h) ≡ some r
    → (r.key ≡ key) × IsSigned b type env h r (get_upload_url c b key type env h)
unfolding get_upload_url
get_upload_url-key c b key type env h r t = elim (Bool-cases (is_configured c)) [
  | inl e ↦ signed (env (presign b key type 300) h) refl e
  | inr e ↦ absurd (ground arith)
]
  where
    signed :
        (q : Reply String)
        → env (presign b key type 300) h ≡ q
        → is_configured c ≡ true
        → (r.key ≡ key) × IsSigned b type env h r (get_upload_url c b key type env h)
    signed (answer url) a e =
        let out : get_upload_url c b key type env h
            ≡ ok (record { upload_url = url; key = key; expires_in_seconds = 300 })
                (presign b key type 300 ∷ h) =
          rw (e, if◌then◌else◌, ◌>>=◌, call, a) refl in
        let same : record { upload_url = url; key = key; expires_in_seconds = 300 } ≡ r =
          cc (out, t) in
        rw (sym same, out) (refl, (refl, a, refl))
    signed (fail x) a e = absurd (ground arith)

upload_to-key :
    (c : R2Settings) (user purpose uuid : String) (type ext : Option String) (b : Option Bucket)
    (env : Env) (h : History) (r : PresignedUpload)
    → returned (upload_to c user purpose uuid type ext b env h) ≡ some r
    → purpose_to_bucket purpose ≡ b
    → (e : String) × (r.key ≡ upload_key purpose user uuid (safe_ext e))
      × (lacks 47 purpose ≡ true)
      × (where_to : Bucket) × IsBucketOf purpose where_to
      × IsSigned where_to type env h r (upload_to c user purpose uuid type ext b env h)
unfolding upload_to
upload_to-key c user purpose uuid type ext none env h r t p = absurd (ground arith)
upload_to-key c user purpose uuid type none (some b) env h r t p = absurd (ground arith)
upload_to-key c user purpose uuid type (some e) (some b) env h r t p =
    let k = get_upload_url-key c b _ type env h r t in
    (e, k.0, purpose-lacks purpose b p, b, purpose-IsBucketOf purpose b p, k.1)

upload_key_inj :
    (p q u v i j e f : String)
    → lacks 47 p ≡ true
    → lacks 47 q ≡ true
    → lacks 47 u ≡ true
    → lacks 47 v ≡ true
    → upload_key p u i e ≡ upload_key q v j f
    → (p ≡ q) × (u ≡ v)
unfolding upload_key
upload_key_inj p q u v i j e f lp lq lu lv h =
    let outer = split_slash p q _ _ lp lq h in (outer.0, (split_slash u v _ _ lu lv outer.1).0)

-- An upload that was answered made one request, the signing of a PUT for 300 seconds, and gives its URL: in the
-- KYC bucket for the purpose kyc, in the media bucket for profile_photo, and in neither for the name of a property
-- that every object has. The key that is signed is the one that is given: it is made of the purpose, the id of the
-- caller, the given uuid and an extension of one to ten letters and digits. Two callers whose ids have no slash are never given the same key, nor is one
-- of them for two purposes.
pub upload_url-own :
    (c : R2Settings) (u v p q i j : String) (t t' x y : Option String) (env env' : Env)
    (h h' : History) (r s : PresignedUpload)
    → returned (upload_url c u p i t x env h) ≡ some r
    → returned (upload_url c v q j t' y env' h') ≡ some s
    → lacks 47 u ≡ true
    → lacks 47 v ≡ true
    → ((e : String) × (r.key ≡ upload_key p u i e)
        × (all_chars is_alnum e ≡ true)
        × (size e ≤ 10)
        × ((e == "") ≡ false))
      × ((b : Bucket) × IsBucketOf p b × IsSigned b t env h r (upload_url c u p i t x env h))
      × (r.key ≡ s.key → (p ≡ q) × (u ≡ v))
unfolding upload_url
upload_url-own c u v p q i j t t' x y env env' h h' r s a b lu lv =
    let k = upload_to-key c u p i t x (purpose_to_bucket p) env h r a refl in
    let l = upload_to-key c v q j t' y (purpose_to_bucket q) env' h' s b refl in
    let safe = safe_ext-safe k.0 in
    (
      (safe_ext k.0, k.1, safe.0, safe.1, safe.2),
      (k.3, k.4, (k.5.0, k.5.1, k.5.2)),
      λ e.
          upload_key_inj p q u v i j (safe_ext k.0) (safe_ext l.0) k.2 l.2 lu lv
            (sym k.1 ∙ e ∙ l.1),
    )
