-- ===== src/Services/Caller/Links.antt =====
-- As whom the links and the categories of src/catalog/catalog.module.ts are written.
use zudue_api.Base.{String, Option, none, some}
use zudue_api.Json.{Json, null, bool, num, str, arr, obj}
use zudue_api.Effect.Rules.{Keeps, Keeps-throw, Keeps-if}
use zudue_api.Services.Catalog.{trim, with_scheme, save_link, link_of, link_on, set_slugs}
use zudue_api.Services.Caller.{OnlyAs, rpc-OnlyAs, write-OnlyAs}

save_link-OnlyAs : (u platform url : String) → Keeps (OnlyAs u) (save_link u platform url)
unfolding save_link
save_link-OnlyAs u platform url = Keeps-if _ _ _ (write-OnlyAs u _ _) (Keeps-throw _)

link_of-OnlyAs :
    (u platform : String) (url : Option Json) → Keeps (OnlyAs u) (link_of u platform url)
unfolding link_of
link_of-OnlyAs u platform none = save_link-OnlyAs u platform ""
link_of-OnlyAs u platform (some (str s)) = save_link-OnlyAs u platform (with_scheme (trim s))
link_of-OnlyAs u platform (some null) = save_link-OnlyAs u platform ""
link_of-OnlyAs u platform (some (bool b)) = Keeps-throw _
link_of-OnlyAs u platform (some (num n)) = Keeps-throw _
link_of-OnlyAs u platform (some (arr xs)) = Keeps-throw _
link_of-OnlyAs u platform (some (obj fs)) = Keeps-throw _

pub set_social_link-OnlyAs :
    (u : String) (platform url : Option Json) → Keeps (OnlyAs u) (link_on u platform url)
unfolding link_on
set_social_link-OnlyAs u (some (str platform)) url =
    Keeps-if _ _ _ (link_of-OnlyAs u platform url) (Keeps-throw _)
set_social_link-OnlyAs u none url = Keeps-throw _
set_social_link-OnlyAs u (some null) url = Keeps-throw _
set_social_link-OnlyAs u (some (bool b)) url = Keeps-throw _
set_social_link-OnlyAs u (some (num n)) url = Keeps-throw _
set_social_link-OnlyAs u (some (arr xs)) url = Keeps-throw _
set_social_link-OnlyAs u (some (obj fs)) url = Keeps-throw _

pub set_slugs-OnlyAs : (u : String) (slugs : Option Json) → Keeps (OnlyAs u) (set_slugs u slugs)
unfolding set_slugs
set_slugs-OnlyAs u (some (arr slugs)) = rpc-OnlyAs u _
set_slugs-OnlyAs u none = Keeps-throw _
set_slugs-OnlyAs u (some null) = Keeps-throw _
set_slugs-OnlyAs u (some (bool b)) = Keeps-throw _
set_slugs-OnlyAs u (some (num n)) = Keeps-throw _
set_slugs-OnlyAs u (some (str s)) = Keeps-throw _
set_slugs-OnlyAs u (some (obj fs)) = Keeps-throw _
