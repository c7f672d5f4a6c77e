-- ===== src/Storage/Media.antt =====
-- The addresses of media, `toPublicMediaUrl` of src/storage/media-url.util.ts.
use Prim.Native.Char.{code}
use text.Mathlib.TextEquality.{starts_with_iff}
use text.Mathlib.TextLemmas.{append_assoc}
use zudue_api.Base.{
  ◌≡◌, refl, sym, ap, ◌∙◌, String, Bool, true, false, ◌||◌, Option, none, some, ◌==◌, nat_eq, arith,
  if◌then◌else◌, eq_iff, Bool-cases, inl, inr,
}
use zudue_api.Text.{◌<>◌, starts_with}

unfoldable pub is_absolute : String → Bool
is_absolute s = starts_with s "http://" || starts_with s "https://"

-- `base.replace(/\/$/, '')`: one slash at the end is taken off.
unfoldable pub drop_slash : String → String
drop_slash String.[] = String.[]
drop_slash (String.◌∷◌ c s) =
    let rest = String.◌∷◌ c (drop_slash s) in
    if s == "" then (if nat_eq (code c) 47 then "" else String.◌∷◌ c s) else rest

unfoldable pub with_base : String → Option String → String
with_base key none = key
with_base key (some base) = if base == "" then key else drop_slash base <> ("/" <> key)

unfoldable pub to_public_media_url : Option String → Option String → Option String
unfolding with_base is_absolute
to_public_media_url none base = none
to_public_media_url (some key) base =
    if key == "" then none else if is_absolute key then some key else some (with_base key base)

starts_with_extend : (a b p : String) → starts_with a p ≡ true → starts_with (a <> b) p ≡ true
starts_with_extend a b p h =
    let q = (starts_with_iff a p).0 h in
    (starts_with_iff (a <> b) p).1 (q.0 <> b, sym (append_assoc p q.0 b) ∙ ap (λ x. x <> b) q.1)

is_absolute_extend : (a b : String) → is_absolute a ≡ true → is_absolute (a <> b) ≡ true
unfolding is_absolute
is_absolute_extend a b h =
    let e = starts_with_extend a b "http://" in
    let f = starts_with_extend a b "https://" in
    elim (Bool-cases (starts_with a "http://")) [
      | inl i ↦ let g = e i in ground arith
      | inr i ↦ let g = f (ground arith) in ground arith
    ]

is_absolute-ne_empty : (s : String) → is_absolute s ≡ true → (s == "") ≡ false
unfolding is_absolute
is_absolute-ne_empty s h = elim (Bool-cases (s == "")) [
  | inl e ↦ let p : is_absolute "" ≡ true = ap is_absolute (sym ((eq_iff s "").0 e)) ∙ h in cc p
  | inr e ↦ e
]

-- With a base address that is absolute also without a slash at its end, what `toPublicMediaUrl` gives for a key
-- is absolute, nothing is given only for a key that is missing or empty, and giving it again changes nothing.
to_public_media_url_stable :
    (key : String) (base : String)
    → is_absolute (drop_slash base) ≡ true
    → (base == "") ≡ false
    → ((u : String) → to_public_media_url (some key) (some base) ≡ some u → is_absolute u ≡ true)
      × (to_public_media_url (some key) (some base) ≡ none → key ≡ "")
      × to_public_media_url (to_public_media_url (some key) (some base)) (some base)
        ≡ to_public_media_url (some key) (some base)
unfolding to_public_media_url with_base
to_public_media_url_stable key base a b =
    let full = is_absolute_extend (drop_slash base) ("/" <> key) a in
    let ne = is_absolute-ne_empty (drop_slash base <> ("/" <> key)) full in
    (
      λ u e. ground (arith),
      λ e. (eq_iff key "").0 (ground arith),
      elim (Bool-cases (key == "")) [
        | inl e ↦ rw (e) refl
        | inr e ↦ elim (Bool-cases (is_absolute key)) [
          | inl f ↦ rw (e, f) (rw (e, f) refl)
          | inr f ↦ rw (e, f, b) (rw (ne, full) refl)
        ]
      ],
    )
