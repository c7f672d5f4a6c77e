-- ===== src/Discovery.antt =====
-- `DiscoveryService` of src/discovery/discovery.module.ts: the profile behind a link.
pub mod Links
use Prim.Native.Char.{code}
use zudue_api.Base.{
  ℕ, zero, suc, String, Bool, true, false, ◌&&◌, Option, none, some, List, [], ◌∷◌, head?, or_else,
  ◌==◌, nat_eq, if◌then◌else◌,
}
use zudue_api.Json.{Json}
use zudue_api.Text.{is_hex}
use zudue_api.Storage.Media.{to_public_media_url}
use zudue_api.Effect.{M, pure, throw, not_found, ◌>>=◌, ◌>>◌, call}
use zudue_api.Effect.Database.{run_anon}
use zudue_api.Effect.Statements.{
  PartnerRow, select_handle, select_partner, select_services, select_links, select_trust,
}
use zudue_api.Effect.Requests.{statement}

-- The text behind `n` characters of `[0-9a-f]`, in either case.
unfoldable pub hex_run : ℕ → String → Option String
unfolding is_hex
hex_run zero s = some s
hex_run (suc n) String.[] = none
hex_run (suc n) (String.◌∷◌ c s) = if is_hex (code c) then hex_run n s else none

unfoldable pub dash : Option String → Option String
dash none = none
dash (some String.[]) = none
dash (some (String.◌∷◌ c s)) = if nat_eq (code c) 45 then some s else none

then_hex : ℕ → Option String → Option String
then_hex n none = none
then_hex n (some s) = hex_run n s

ends : Option String → Bool
ends (some String.[]) = true
ends _ = false

-- `UUID_RE.test`
unfoldable pub is_uuid : String → Bool
unfolding hex_run dash then_hex ends
is_uuid s =
    ends
      (then_hex 12 (dash (then_hex 4 (dash (then_hex 4 (dash (then_hex 4 (dash (hex_run 8 s)))))))))

-- What `partner` answers, with the first row of the aggregates.
pub record PartnerProfile : Type 0 where
  pub profile : PartnerRow
  pub services : List Json
  pub social_links : List Json
  pub trust : Option Json

with_url : Option String → PartnerRow → PartnerRow
with_url base row = record row {
  profile_image_path = to_public_media_url row.profile_image_path base;
}

found :
    Option String → Option PartnerRow → List Json → List Json → List Json → Option PartnerProfile
found base none services links trust = none
found base (some row) services links trust = some (record {
  profile = with_url base row;
  services = services;
  social_links = links;
  trust = head? trust;
})

-- `partner`; all four queries are made, also where there is no such profile.
unfoldable pub partner : Option String → String → M (Option PartnerProfile)
unfolding found with_url
partner base id = run_anon (do
  rows ← call (statement (select_partner id))
  services ← call (statement (select_services id))
  links ← call (statement (select_links id))
  trust ← call (statement (select_trust id))
  pure (found base (head? rows) services links trust))

-- `id ?? (UUID_RE.test(handle) ? handle : null)`
unfoldable pub target_of : Option String → String → Option String
target_of (some id) handle = some id
target_of none handle = if is_uuid handle then some handle else none

or_not_found : Option PartnerProfile → M PartnerProfile
or_not_found none = throw (not_found "PARTNER_NOT_FOUND")
or_not_found (some p) = pure p

-- `byHandle` from the target on; an empty id counts as missing.
unfoldable pub show_target : Option String → Option String → M PartnerProfile
unfolding or_not_found partner
show_target base none = throw (not_found "PARTNER_NOT_FOUND")
show_target base (some id) =
    if id == ""
    then throw (not_found "PARTNER_NOT_FOUND")
    else (do p ← partner base id; or_not_found p)

unfoldable pub by_handle : Option String → String → M PartnerProfile
unfolding show_target target_of
by_handle base handle = do
  rows ← run_anon (call (statement (select_handle handle)))
  show_target base (target_of (or_else (head? rows) none) handle)

-- `GET /discover/partner/:id`
unfoldable pub get_partner : Option String → String → M PartnerProfile
unfolding or_not_found partner
get_partner base id = do p ← partner base id; or_not_found p
