-- ===== src/Admin/Arguments.antt =====
-- What the admin handlers of src/admin make of a value of the body before they bind it.
use zudue_api.Base.{String, Option, none, some, or_else}
use zudue_api.Json.{Json, null, coalesce}
use zudue_api.Effect.Requests.{Arg, null_arg, json_arg, undefined_arg, cast_arg}

pub value_of : Option Json → Json
value_of v = or_else v null

unfoldable pub arg_of : Option Json → Arg
arg_of none = undefined_arg
arg_of (some null) = null_arg
arg_of (some j) = json_arg j

-- `v ?? null`
unfoldable pub or_null : Option Json → Arg
unfolding arg_of coalesce
or_null v = arg_of (coalesce v (some null))

-- A cast of the value to a type of the database.
unfoldable pub cast_of : Option Json → String → Arg
cast_of none type = undefined_arg
cast_of (some j) type = cast_arg j type

-- A parameter with a default, which only undefined takes.
unfoldable pub or_default : Option Json → Json → Option Json
or_default none d = some d
or_default v d = v
