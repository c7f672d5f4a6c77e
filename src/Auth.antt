-- ===== src/Auth.antt =====
-- `JwtGuard` of src/auth/jwt.guard.ts. `jwtVerify` of jose is an argument: a payload, or the `.code` of
-- its error, if it has one.
use Prim.Native.Char.{code}
use zudue_api.Base.{
  ℕ, ◌≡◌, refl, String, false, Option, none, some, ◌==◌, nat_eq, if◌then◌else◌, arith,
}

pub record VerifiedToken : Type 0 where
  pub id : String
  pub email : Option String
  pub exp : Option ℕ

-- `JWTPayload`, the claims that are read.
pub record Payload : Type 0 where
  pub sub : Option String
  pub email : Option String
  pub exp : Option ℕ

pub data Verdict {ℓ} (A : Type ℓ) : Type ℓ where
  accepted : A → Verdict A
  unauthorized : String → Verdict A

pub data JoseResult : Type 0 where
  verified : Payload → JoseResult
  failed : Option String → JoseResult

-- `describe`
unfoldable pub describe : Option String → String
describe none = "Invalid token"
describe (some c) =
    if c == "ERR_JWT_EXPIRED"
    then "Token expired"
    else if c == "ERR_JWS_SIGNATURE_VERIFICATION_FAILED"
    then "Token signature invalid"
    else if c == "ERR_JWT_CLAIM_VALIDATION_FAILED"
    then "Token claims invalid (wrong issuer/audience)"
    else if c == "ERR_JWKS_TIMEOUT"
    then "Unable to verify token (key service unreachable)"
    else if c == "ERR_JWKS_NO_MATCHING_KEY"
    then "Unable to verify token (key service unreachable)"
    else if c == "ERR_JWKS_MULTIPLE_MATCHING_KEYS"
    then "Unable to verify token (key service unreachable)"
    else "Invalid token"

-- `toUser`: a subject that is missing or empty is thrown.
unfoldable pub to_user : Payload → Verdict VerifiedToken
to_user p = elim p.sub [
  | none ↦ unauthorized "Token has no subject"
  | some s ↦
      if s == ""
      then unauthorized "Token has no subject"
      else accepted (record { id = s; email = p.email; exp = p.exp })
]

-- The `catch` of `verify`, which takes what `toUser` throws too: that error has no `.code`.
unfoldable pub rethrow : Verdict VerifiedToken → Verdict VerifiedToken
unfolding describe
rethrow (accepted u) = accepted u
rethrow (unauthorized m) = unauthorized (describe none)

-- The text behind a prefix, if it has that prefix.
unfoldable pub after_prefix : String → String → Option String
after_prefix String.[] s = some s
after_prefix (String.◌∷◌ c p) String.[] = none
after_prefix (String.◌∷◌ c p) (String.◌∷◌ d s) =
    let rest = after_prefix p s in if nat_eq (code c) (code d) then rest else none

-- `verify` after jose has answered.
unfoldable pub from_jose : JoseResult → Verdict VerifiedToken
unfolding describe to_user rethrow
from_jose (verified p) = rethrow (to_user p)
from_jose (failed c) = unauthorized (describe c)

from_jose_sound :
    (r : JoseResult) (u : VerifiedToken)
    → from_jose r ≡ accepted u
    → (p : Payload) × (r ≡ verified p) × (p.sub ≡ some u.id) × ((u.id == "") ≡ false)
unfolding from_jose
from_jose_sound (verified p) u h = (p, refl, ground arith, ground arith)
from_jose_sound (failed c) u h = cc

module _ (jwt_verify : String → JoseResult) where
  unfoldable pub verify : String → Verdict VerifiedToken
  unfolding from_jose
  verify token = from_jose (jwt_verify token)

  guard : Option String → Verdict VerifiedToken
  unfolding verify
  guard none = unauthorized "Missing bearer token"
  guard (some token) = verify token

  -- `canActivate`, which puts the user on the request; the argument is the header `authorization`.
  unfoldable pub can_activate : Option String → Verdict VerifiedToken
  unfolding guard after_prefix
  can_activate none = unauthorized "Missing bearer token"
  can_activate (some auth) = guard (after_prefix "Bearer " auth)

  -- Whom `verify` accepts has an id.
  pub verify_sound :
      (token : String) (u : VerifiedToken) → verify token ≡ accepted u → (u.id == "") ≡ false
  unfolding verify
  verify_sound token u h =
      let (p, v, sub, some_id) = from_jose_sound (jwt_verify token) u h in some_id

  guard_sound :
      (t : Option String) (u : VerifiedToken)
      → guard t ≡ accepted u
      → (token : String) × (p : Payload) × (t ≡ some token)
        × (jwt_verify token ≡ verified p)
        × (p.sub ≡ some u.id)
        × ((u.id == "") ≡ false)
        × (verify token ≡ accepted u)
  unfolding guard
  guard_sound none u h = cc
  guard_sound (some token) u h =
      let (p, v, sub, some_id) = from_jose_sound (jwt_verify token) u h in
      (token, p, refl, v, sub, some_id, h)

  -- A request passes only with a token behind `Bearer ` that jose verified and that has a subject, and
  -- then as that subject. The socket handshake, which calls `verify`, accepts the same token as the same
  -- user.
  pub can_activate_sound :
      (auth : Option String) (u : VerifiedToken)
      → can_activate auth ≡ accepted u
      → (header : String) × (token : String) × (p : Payload) × (auth ≡ some header)
        × (after_prefix "Bearer " header ≡ some token)
        × (jwt_verify token ≡ verified p)
        × (p.sub ≡ some u.id)
        × ((u.id == "") ≡ false)
        × (verify token ≡ accepted u)
  unfolding can_activate guard
  can_activate_sound none u h = cc
  can_activate_sound (some header) u h =
      let (token, p, behind, v, sub, some_id, same) =
        guard_sound (after_prefix "Bearer " header) u h in
      (header, token, p, refl, behind, v, sub, some_id, same)

  -- A token that verifies but has no subject is refused with the text of any other failure, since the
  -- `catch` of `verify` takes the error of `toUser` as well.
  no_subject_hidden :
      (token : String) (p : Payload)
      → jwt_verify token ≡ verified p
      → p.sub ≡ none
      → verify token ≡ unauthorized "Invalid token"
  unfolding verify
  no_subject_hidden token p v n = ground arith
