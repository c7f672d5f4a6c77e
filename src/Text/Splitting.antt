-- ===== src/Text/Splitting.antt =====
-- What a text without a separator determines of the texts that it begins.
use Prim.Native.Char.{Char, code}
use text.Mathlib.TextLemmas.{nil-append, cons-append, cons-eq-cons}
use text.Mathlib.TextEquality.{starts_with_iff}
use text.Mathlib.TextLemmas.{prefix-append}
use zudue_api.Base.{
  ℕ, zero, suc, ◌≤◌, ◌≡◌, refl, sym, ap, ◌∙◌, String, Bool, true, not, ◌&&◌, nat_eq, arith,
}
use zudue_api.Text.{◌<>◌, starts_with, all_chars, keep_chars, take_chars, size}

-- The character of this code does not occur.
abbrev pub lacks : ℕ → String → Bool
lacks n String.[] = true
lacks n (String.◌∷◌ c s) = not (nat_eq (code c) n) && lacks n s

-- Two texts that go on with a separator after parts that lack it agree part by part.
pub split_unique :
    (sep : Char) (a b r s : String)
    → lacks (code sep) a ≡ true
    → lacks (code sep) b ≡ true
    → a <> String.◌∷◌ sep r ≡ b <> String.◌∷◌ sep s
    → (a ≡ b) × (r ≡ s)
split_unique sep String.[] String.[] r s la lb e =
    (refl, (cons-eq-cons.0 (sym (nil-append _) ∙ e ∙ nil-append _)).1)
split_unique sep String.[] (String.◌∷◌ d b) r s la lb e =
    let h = (cons-eq-cons.0 (sym (nil-append _) ∙ e ∙ cons-append d b _)).0 in
    let k = ap code h in absurd (ground arith)
split_unique sep (String.◌∷◌ c a) String.[] r s la lb e =
    let h = (cons-eq-cons.0 (sym (cons-append c a _) ∙ e ∙ nil-append _)).0 in
    let k = ap code h in absurd (ground arith)
split_unique sep (String.◌∷◌ c a) (String.◌∷◌ d b) r s la lb e =
    let h = cons-eq-cons.0 (sym (cons-append c a _) ∙ e ∙ cons-append d b _) in
    let ih = split_unique sep a b r s (ground arith) (ground arith) h.1 in
    (cons-eq-cons.1 (h.0, ih.0), ih.1)

pub starts_with-append : (s t : String) → starts_with (s <> t) s ≡ true
starts_with-append s t = (starts_with_iff (s <> t) s).1 (prefix-append s t)

pub all-keep_chars : (p : ℕ → Bool) (s : String) → all_chars p (keep_chars p s) ≡ true
unfolding all_chars keep_chars
all-keep_chars p String.[] = refl
all-keep_chars p (String.◌∷◌ c s) = let ih = all-keep_chars p s in ground arith

pub all-take_chars :
    (p : ℕ → Bool) (n : ℕ) (s : String) → all_chars p s ≡ true → all_chars p (take_chars n s) ≡ true
unfolding all_chars take_chars
all-take_chars p zero s h = refl
all-take_chars p (suc n) String.[] h = refl
all-take_chars p (suc n) (String.◌∷◌ c s) h =
    let ih = all-take_chars p n s (ground arith) in ground arith

pub size-take_chars : (n : ℕ) (s : String) → size (take_chars n s) ≤ n
unfolding take_chars
size-take_chars zero s = omega arith
size-take_chars (suc n) String.[] = omega arith
size-take_chars (suc n) (String.◌∷◌ c s) = omega (arith, size-take_chars n s)

abbrev slash : Char
slash = "/"

slash-append : (r : String) → "/" <> r ≡ String.◌∷◌ slash r
slash-append r = cons-append slash "" r ∙ ap (λ t. String.◌∷◌ slash t) (nil-append r)

pub split_slash :
    (a b r s : String)
    → lacks 47 a ≡ true
    → lacks 47 b ≡ true
    → a <> ("/" <> r) ≡ b <> ("/" <> s)
    → (a ≡ b) × (r ≡ s)
split_slash a b r s la lb e =
    split_unique slash a b r s la lb
      (ap (λ t. a <> t) (sym (slash-append r)) ∙ e ∙ ap (λ t. b <> t) (slash-append s))
