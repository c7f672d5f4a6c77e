-- ===== src/Services/Catalog.antt =====
-- src/catalog/catalog.module.ts: the services, the links and the categories of a partner.
use zudue_api.Base.{
  String, Bool, true, false, not, ◌&&◌, ◌||◌, Option, none, some, List, [], ◌∷◌, has, ◌==◌,
  if◌then◌else◌, nat_eq, ◌+◌,
}
use Prim.Native.Char.{code}
use zudue_api.Text.{◌<>◌, is_blank}
use zudue_api.Json.{Json, null, bool, str, arr, nil, prop, coalesce, truthy}
use zudue_api.Effect.{M, pure, throw, bad_request, type_error, ◌>>◌, call}
use zudue_api.Effect.Database.{run_as, db_rpc}
use zudue_api.Effect.Statements.{upsert_social_link, delete_social_link}
use zudue_api.Effect.Requests.{named, text_arg, null_arg, array_arg, statement}
use zudue_api.Services.Answers.{success}
use zudue_api.Admin.Arguments.{arg_of, cast_of}

unfoldable pub set_service : String → Json → M (Option Json)
unfolding arg_of cast_of coalesce prop truthy
set_service u b =
    let duration =
      if truthy (prop "duration" b)
      then cast_of (prop "duration" b) "public.call_duration_options_enum"
      else null_arg in
    run_as u (
      db_rpc (
        named "rpc_partner_set_service" (
          text_arg u
          ∷ cast_of (prop "type" b) "public.service_type_enum"
          ∷ duration
          ∷ arg_of (prop "pricePaise" b)
          ∷ arg_of (coalesce (prop "active" b) (some (bool true)))
          ∷ [])))

abbrev pub platforms : List String
platforms = "YOUTUBE" ∷ "INSTAGRAM" ∷ "FACEBOOK" ∷ "TWITTER" ∷ []

unfoldable pub trim_start : String → String
unfolding is_blank
trim_start String.[] = String.[]
trim_start (String.◌∷◌ c s) = if is_blank (code c) then trim_start s else String.◌∷◌ c s

unfoldable pub trim_end : String → String
unfolding is_blank
trim_end String.[] = String.[]
trim_end (String.◌∷◌ c s) =
    let rest = trim_end s in if rest == "" && is_blank (code c) then "" else String.◌∷◌ c rest

unfoldable pub trim : String → String
unfolding trim_start trim_end
trim s = trim_end (trim_start s)

-- The text behind a prefix of small letters and signs, which is matched in either case.
unfoldable pub after_folded : String → String → Option String
after_folded String.[] s = some s
after_folded (String.◌∷◌ c p) String.[] = none
after_folded (String.◌∷◌ c p) (String.◌∷◌ d s) =
    let rest = after_folded p s in
    if nat_eq (code c) (code d)
      || (nat_eq (code c) (code d + 32) && not (nat_eq (code c) 58 || nat_eq (code c) 47))
    then rest
    else none

-- The text behind `/^https?:\/\//i`
unfoldable pub after_scheme : String → Option String
unfolding after_folded
after_scheme s = elim (after_folded "https://" s) [
  | some rest ↦ some rest
  | none ↦ after_folded "http://" s
]

unfoldable pub no_blank : String → Bool
unfolding is_blank
no_blank String.[] = true
no_blank (String.◌∷◌ c s) = not (is_blank (code c)) && no_blank s

-- The text behind the first dot.
unfoldable pub after_dot : String → Option String
after_dot String.[] = none
after_dot (String.◌∷◌ c s) = let rest = after_dot s in if nat_eq (code c) 46 then some s else rest

-- `[^\s.]+\.[^\s]+` of the whole text
unfoldable pub is_domain : String → Bool
unfolding no_blank after_dot
is_domain String.[] = false
is_domain (String.◌∷◌ c s) =
    not (nat_eq (code c) 46)
    && no_blank (String.◌∷◌ c s)
    && elim (after_dot s) [ none ↦ false | some rest ↦ not (rest == "") ]

unfoldable pub is_link : String → Bool
unfolding after_scheme is_domain
is_link url = elim (after_scheme url) [ none ↦ false | some rest ↦ is_domain rest ]

unfoldable pub with_scheme : String → String
unfolding after_scheme
with_scheme url =
    if url == "" then "" else elim (after_scheme url) [ some rest ↦ url | none ↦ "https://" <> url ]

unfoldable pub save_link : String → String → String → M (Option Json)
unfolding is_link
save_link u platform url =
    if is_link url
    then run_as u (do call (statement (upsert_social_link u platform url)); pure (some success))
    else throw (bad_request "Enter a valid link, e.g. instagram.com/yourname")

-- `b?.url?.trim() ?? ''`, which throws for a value with no `trim`.
unfoldable pub link_of : String → String → Option Json → M (Option Json)
unfolding save_link with_scheme trim
link_of u platform (some (str s)) = save_link u platform (with_scheme (trim s))
link_of u platform none = save_link u platform ""
link_of u platform (some null) = save_link u platform ""
link_of u platform v = throw type_error

unfoldable pub link_on : String → Option Json → Option Json → M (Option Json)
unfolding link_of
link_on u (some (str platform)) url =
    if has platform platforms
    then link_of u platform url
    else throw (bad_request "platform must be one of YOUTUBE, INSTAGRAM, FACEBOOK, TWITTER")
link_on u platform url =
    throw (bad_request "platform must be one of YOUTUBE, INSTAGRAM, FACEBOOK, TWITTER")

unfoldable pub set_social_link : String → Json → M (Option Json)
unfolding link_on prop
set_social_link u b = link_on u (prop "platform" b) (prop "url" b)

unfoldable pub set_slugs : String → Option Json → M (Option Json)
set_slugs u (some (arr slugs)) =
    run_as u (db_rpc (named "rpc_partner_set_categories" (text_arg u ∷ array_arg slugs ∷ [])))
set_slugs u v = throw (bad_request "slugs must be an array")

-- The route, with its `slugs ?? []`.
unfoldable pub set_categories : String → Option Json → M (Option Json)
unfolding set_slugs coalesce
set_categories u slugs = set_slugs u (coalesce slugs (some (arr nil)))

unfoldable pub remove_social_link : String → String → M (Option Json)
remove_social_link u id =
    run_as u (do call (statement (delete_social_link id u)); pure (some success))

-- The routes that write, with the path's `id` and the body.
pub data CatalogAction : Type 0 where
  post_service : Json → CatalogAction
  post_social_link : Json → CatalogAction
  post_categories : Json → CatalogAction
  post_delete_link : String → CatalogAction

unfoldable pub catalog : String → CatalogAction → M (Option Json)
unfolding remove_social_link set_categories set_service set_social_link prop coalesce
catalog u (post_service b) = set_service u b
catalog u (post_social_link b) = set_social_link u b
catalog u (post_categories b) = set_categories u (prop "slugs" b)
catalog u (post_delete_link id) = remove_social_link u id
