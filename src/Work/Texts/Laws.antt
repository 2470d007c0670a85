-- ===== src/Work/Texts/Laws.antt =====
-- What `strip` tells of a text.
use kakesu.Prelude.{
  true, ◌≤◌, String, none, some, ◌≡◌, refl, inl, inr, arith, Bool-cases, nat_eq, ◌⧺◌,
}
use Prim.Native.Char.{Char, code}
use Prim.Native.String.{count}
use text.Mathlib.TextLemmas.{nil-append, cons-append, length-cons}
use text.Mathlib.TextEquality.{Char-path}
use kakesu.Work.Texts.{strip}

code_inj : (c d : Char) → nat_eq (code c) (code d) ≡ true → c ≡ d
code_inj c d h = Char-path c d (ground arith)

-- The text starts with the prefix.
pub strip-eq-some : (t s : String) {r : String} → strip t s ≡ some r → s ≡ t ⧺ r
unfolding strip
strip-eq-some String.[] s h = rw nil-append (cc)
strip-eq-some (String.◌∷◌ d t) String.[] h = cc
strip-eq-some (String.◌∷◌ d t) (String.◌∷◌ c s) {r} h =
    elim (Bool-cases (nat_eq (code d) (code c))) [
      | inl same ↦
          let found = strip-eq-some t s {r = r} (ground arith) in
          rw (cons-append, found, code_inj d c same) refl
      | inr other ↦ ground arith
    ]

pub strip-append : (t s : String) → strip t (t ⧺ s) ≡ some s
unfolding strip
strip-append String.[] s = rw nil-append refl
strip-append (String.◌∷◌ d t) s = rw cons-append (ground (arith, strip-append t s))

-- A prefix that is not longer than the start of a text is looked for in that start alone.
pub strip-same :
    (t w x y : String) → count t ≤ count w → strip t (w ⧺ x) ≡ none → strip t (w ⧺ y) ≡ none
unfolding strip
strip-same String.[] w x y le h = cc
strip-same (String.◌∷◌ d t) String.[] x y le h =
    absurd (omega (arith, length-cons d t, text.Mathlib.TextLemmas.length-nil))
strip-same (String.◌∷◌ d t) (String.◌∷◌ c w) x y le h =
    let shorter : count t ≤ count w = omega (arith, length-cons d t, length-cons c w) in
    let here = rw (cons-append c w x) at h in
    rw (cons-append c w y) (elim (Bool-cases (nat_eq (code d) (code c))) [
      | inl same ↦ let later = strip-same t w x y shorter (ground arith) in ground arith
      | inr other ↦ ground arith
    ])
