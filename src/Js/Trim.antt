-- ===== src/Js/Trim.antt =====
-- `s.trim()` and `s.length`: a text is a list of code points, of which those from 2 ^ 16 on count
-- for two.
use kakesu.Prelude.{
  ℕ, ◌+◌, ◌≤◌, String, Bool, true, false, ◌||◌, ◌&&◌, ◌≡◌, refl, sym, ap, ◌↔◌, arith, leb, ltb,
  nat_eq, ◌==◌, eq_iff, eq_refl, if◌then◌else◌, Bool-cases, inl, inr,
}
use Prim.Native.Char.{Char, code}
use text.Mathlib.TextLemmas.{cons-ne-nil}

-- White space and line ends of ECMAScript.
unfoldable pub is_space : ℕ → Bool
is_space c =
    (leb 9 c && leb c 13)
    || nat_eq c 32
    || nat_eq c 160
    || nat_eq c 5760
    || (leb 8192 c && leb c 8202)
    || nat_eq c 8232
    || nat_eq c 8233
    || nat_eq c 8239
    || nat_eq c 8287
    || nat_eq c 12288
    || nat_eq c 65279

abbrev units : ℕ → ℕ
units c = if ltb c 65536 then 1 else 2

unfoldable pub utf16_length : String → ℕ
utf16_length String.[] = 0
utf16_length (String.◌∷◌ c s) = units (code c) + utf16_length s

unfoldable pub trim_start : String → String
trim_start String.[] = String.[]
trim_start (String.◌∷◌ c s) =
    let rest = trim_start s in if is_space (code c) then rest else String.◌∷◌ c s

unfoldable pub trim_end : String → String
trim_end String.[] = String.[]
trim_end (String.◌∷◌ c s) =
    let rest = trim_end s in
    if rest == "" && is_space (code c) then String.[] else String.◌∷◌ c rest

abbrev pub trim : String → String
trim s = trim_end (trim_start s)

unfoldable pub starts_blank : String → Bool
starts_blank String.[] = true
starts_blank (String.◌∷◌ c s) = is_space (code c)

unfoldable pub ends_blank : String → Bool
ends_blank String.[] = true
ends_blank (String.◌∷◌ c String.[]) = is_space (code c)
ends_blank (String.◌∷◌ c (String.◌∷◌ d s)) = ends_blank (String.◌∷◌ d s)

units_pos : (c : ℕ) → 1 ≤ units c
units_pos c = ground arith

trim_start-shorter : (s : String) → utf16_length (trim_start s) ≤ utf16_length s
unfolding trim_start utf16_length
trim_start-shorter String.[] = omega arith
trim_start-shorter (String.◌∷◌ c s) = ground (arith, trim_start-shorter s)

trim_end-shorter : (s : String) → utf16_length (trim_end s) ≤ utf16_length s
unfolding trim_end utf16_length
trim_end-shorter String.[] = omega arith
trim_end-shorter (String.◌∷◌ c s) =
    let ih = trim_end-shorter s in
    elim (Bool-cases (trim_end s == "" && is_space (code c))) [
      | inl blank ↦ rw blank (omega arith)
      | inr kept ↦ rw kept (omega arith)
    ]

cons-ne-empty : (c : Char) (s : String) → (String.◌∷◌ c s == "") ≡ false
cons-ne-empty c s = elim (Bool-cases (String.◌∷◌ c s == "")) [
  | inl same ↦ absurd (cons-ne-nil c s ((eq_iff _ _).0 same))
  | inr other ↦ other
]

-- What `trim_end` leaves of a text that it does not change.
kept_tail : (c : Char) (s : String) → trim_end (String.◌∷◌ c s) ≡ String.◌∷◌ c s → trim_end s ≡ s
unfolding trim_end
kept_tail c s h = elim (Bool-cases (trim_end s == "" && is_space (code c))) [
  | inl blank ↦ absurd (cons-ne-nil c s (sym (rw blank at h)))
  | inr kept ↦ let whole = rw kept at h in cc (whole)
]

trim_end-eq_self : (s : String) → ends_blank s ≡ false → trim_end s ≡ s
unfolding trim_end ends_blank
trim_end-eq_self String.[] h = cc
trim_end-eq_self (String.◌∷◌ c String.[]) h = rw h refl
trim_end-eq_self (String.◌∷◌ c (String.◌∷◌ d s)) h =
    let ih = trim_end-eq_self (String.◌∷◌ d s) h in rw (ih, cons-ne-empty d s) refl

eq_self-trim_end : (s : String) → trim_end s ≡ s → (s == "") ≡ false → ends_blank s ≡ false
unfolding trim_end ends_blank
eq_self-trim_end String.[] h k = cc
eq_self-trim_end (String.◌∷◌ c String.[]) h k = elim (Bool-cases (is_space (code c))) [
  | inr other ↦ other
  | inl blank ↦ let gone = rw blank at h in absurd (cons-ne-nil c "" (sym gone))
]
eq_self-trim_end (String.◌∷◌ c (String.◌∷◌ d s)) h k =
    eq_self-trim_end (String.◌∷◌ d s) (kept_tail c (String.◌∷◌ d s) h) (cons-ne-empty d s)

starts_blank-shorter : (s : String) → trim s ≡ s → (s == "") ≡ false → starts_blank s ≡ false
unfolding trim_start starts_blank utf16_length
starts_blank-shorter String.[] h k = cc
starts_blank-shorter (String.◌∷◌ c s) h k = elim (Bool-cases (is_space (code c))) [
  | inr other ↦ other
  | inl blank ↦
      let a : utf16_length (trim_end (trim_start s)) ≡ utf16_length (String.◌∷◌ c s) =
        ap utf16_length (rw blank at h) in
      let b = trim_end-shorter (trim_start s) in
      let d = trim_start-shorter s in let e = units_pos (code c) in absurd (omega arith)
]

trim_start-eq_self : (s : String) → starts_blank s ≡ false → trim_start s ≡ s
unfolding trim_start starts_blank
trim_start-eq_self String.[] h = cc
trim_start-eq_self (String.◌∷◌ c s) h = rw h refl

starts_blank-nonempty : (s : String) → starts_blank s ≡ false → (s == "") ≡ false
unfolding starts_blank
starts_blank-nonempty String.[] h = cc
starts_blank-nonempty (String.◌∷◌ c s) h = cons-ne-empty c s

-- What is its own trim, and not empty, begins and ends with no blank.
pub trim-eq_self :
    (s : String)
    → ((s == trim s) ≡ true) × ((trim s == "") ≡ false)
      ↔ (starts_blank s ≡ false) × (ends_blank s ≡ false)
trim-eq_self s = (
  λ (h, k).
      let same : trim s ≡ s = sym ((eq_iff s (trim s)).0 h) in
      let full : (s == "") ≡ false = rw same at k in
      let starts = starts_blank-shorter s same full in
      (starts, eq_self-trim_end s (rw (trim_start-eq_self s starts) at same) full),
  λ (h, k).
      rw (trim_start-eq_self s h, trim_end-eq_self s k) (eq_refl s, starts_blank-nonempty s h),
)
