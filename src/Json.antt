-- ===== src/Json.antt =====
-- What `JSON.parse` returns, with the reads that the handlers make of it. The parser itself is the
-- runtime's: where a handler calls it, it is an argument, `none` for a thrown SyntaxError.
use zudue_api.Base.{
  ℕ, String, Bool, true, false, not, Option, none, some, ◌==◌, nat_eq, if◌then◌else◌,
}

mutual
  pub data Json : Type 0 where
    null : Json
    bool : Bool → Json
    num : ℕ → Json
    str : String → Json
    arr : Items → Json
    obj : Fields → Json

  pub data Items : Type 0 where
    nil : Items
    cons : Json → Items → Items

  pub data Fields : Type 0 where
    end : Fields
    field : String → Json → Fields → Fields

pub lookup : String → Fields → Option Json
lookup k end = none
lookup k (field j v fs) = if j == k then some v else lookup k fs

-- `j.k` of a value that is not null; `none` is undefined. Only objects have the keys read here.
unfoldable pub prop : String → Json → Option Json
unfolding lookup
prop k (obj fs) = lookup k fs
prop k _ = none

-- `j?.k`
unfoldable pub opt_prop : String → Option Json → Option Json
unfolding prop
opt_prop k none = none
opt_prop k (some j) = prop k j

-- A value that `??` and `?.` pass over.
unfoldable pub is_nullish : Option Json → Bool
is_nullish none = true
is_nullish (some null) = true
is_nullish _ = false

-- `a ?? b`
unfoldable pub coalesce : Option Json → Option Json → Option Json
unfolding is_nullish
coalesce a b = if is_nullish a then b else a

-- `!j || typeof j !== 'object'` fails: an object or an array.
unfoldable pub is_object : Json → Bool
is_object (obj _) = true
is_object (arr _) = true
is_object _ = false

-- `typeof v === 'string' && v.length > 0`, with the string.
unfoldable pub non_empty : Option Json → Option String
non_empty (some (str s)) = if s == "" then none else some s
non_empty _ = none

-- `v === s` for a text `s`
unfoldable pub is_text : String → Option Json → Bool
is_text s (some (str t)) = t == s
is_text s _ = false

-- `if (v)`
unfoldable pub truthy : Option Json → Bool
truthy none = false
truthy (some null) = false
truthy (some (bool b)) = b
truthy (some (num n)) = not (nat_eq n 0)
truthy (some (str s)) = not (s == "")
truthy (some _) = true

-- `v === false`
unfoldable pub is_false : Option Json → Bool
is_false (some (bool b)) = not b
is_false _ = false

-- `a === b` of two values read from JSON. Two arrays or objects are never the same one here.
unfoldable pub same : Option Json → Option Json → Bool
same none none = true
same (some null) (some null) = true
same (some (bool true)) (some (bool c)) = c
same (some (bool false)) (some (bool c)) = not c
same (some (num m)) (some (num n)) = nat_eq m n
same (some (str s)) (some (str t)) = s == t
same _ _ = false
