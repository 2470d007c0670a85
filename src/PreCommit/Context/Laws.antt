-- ===== src/PreCommit/Context/Laws.antt =====
-- What `maskSection` hides: where two texts have the same mask, they are the same outside the body of
-- the section.
use kakesu.Prelude.{
  ◌≤◌, String, none, some, ◌≡◌, refl, sym, ◌∙◌, ap, inl, inr, arith, Option-cases, ◌⧺◌,
}
use Prim.Native.Char.{Char}
use Prim.Native.String.{count}
use text.Mathlib.TextLemmas.{
  nil-append, cons-append, append_assoc, length-cons, length-append, append_cancel_left,
  cons-ne-nil, tail-eq_of_cons-eq,
}
use kakesu.Result.{ok}
use kakesu.Work.Texts.{strip}
use kakesu.Work.Texts.Laws.{strip-eq-some, strip-append, strip-same}
use kakesu.PreCommit.Context.{split_at, next_section, mask_section}

split_at-eq-some :
    (t s : String) {before rest : String}
    → split_at t s ≡ some (before, rest)
    → s ≡ before ⧺ (t ⧺ rest)
unfolding split_at
split_at-eq-some t String.[] {before} {rest} h = elim (Option-cases (strip t String.[])) [
  | inl e ↦ ground arith
  | inr (r, e) ↦
      let whole = strip-eq-some t String.[] e in
      let parts : (◌≡◌ {A = String} "" before) × (r ≡ rest) = ground arith in
      rw (sym (parts.0), sym (parts.1), nil-append) whole
]
split_at-eq-some t (String.◌∷◌ c s) {before} {rest} h =
    elim (Option-cases (strip t (String.◌∷◌ c s))) [
      | inr (r, e) ↦
          let whole = strip-eq-some t (String.◌∷◌ c s) e in
          let parts : (◌≡◌ {A = String} "" before) × (r ≡ rest) = ground arith in
          rw (sym (parts.0), sym (parts.1), nil-append) whole
      | inl e ↦ elim (Option-cases (split_at t s)) [
        | inl missed ↦ ground arith
        | inr ((b, r), found) ↦
            let whole = split_at-eq-some t s found in
            let parts : (String.◌∷◌ c b ≡ before) × (r ≡ rest) = ground arith in
            rw (sym (parts.0), sym (parts.1), cons-append) (ap (String.◌∷◌ c) whole)
      ]
    ]

split_at-here :
    (t s : String) {rest : String} → strip t s ≡ some rest → split_at t s ≡ some ("", rest)
unfolding split_at
split_at-here t String.[] h = ground arith
split_at-here t (String.◌∷◌ c s) h = ground arith

-- A character before the first place of a text is found again.
split_at-later :
    (t : String) (c : Char) (s : String) {b r : String}
    → strip t (String.◌∷◌ c s) ≡ none
    → split_at t s ≡ some (b, r)
    → split_at t (String.◌∷◌ c s) ≡ some (String.◌∷◌ c b, r)
unfolding split_at
split_at-later t c s h k = ground arith

split_at-none :
    (t : String) (c : Char) (b s : String) {r : String}
    → split_at t (String.◌∷◌ c s) ≡ some (String.◌∷◌ c b, r)
    → (strip t (String.◌∷◌ c s) ≡ none) × (split_at t s ≡ some (b, r))
unfolding split_at
split_at-none t c b s {r} h = elim (Option-cases (strip t (String.◌∷◌ c s))) [
  | inr (q, e) ↦
      let start : ◌≡◌ {A = String} "" (String.◌∷◌ c b) = ground arith in
      absurd (cons-ne-nil c b (sym start))
  | inl e ↦ elim (Option-cases (split_at t s)) [
    | inl missed ↦ ground arith
    | inr ((b', q), found) ↦
        let parts : (String.◌∷◌ c b' ≡ String.◌∷◌ c b) × (q ≡ r) = ground arith in
        (e, rw (sym (tail-eq_of_cons-eq parts.0), sym (parts.1)) found)
  ]
]

split_at-same :
    (t b x y : String)
    → split_at t (b ⧺ (t ⧺ x)) ≡ some (b, x)
    → split_at t (b ⧺ (t ⧺ y)) ≡ some (b, y)
split_at-same t String.[] x y h = rw nil-append (split_at-here t (t ⧺ y) (strip-append t y))
split_at-same t (String.◌∷◌ c b) x y h =
    let (missed, found) = split_at-none t c b (b ⧺ (t ⧺ x)) (rw cons-append at h) in
    let again = split_at-same t b x y found in
    let whole : (z : String) → String.◌∷◌ c (b ⧺ (t ⧺ z)) ≡ (String.◌∷◌ c (b ⧺ t)) ⧺ z =
      λ z. rw (cons-append, append_assoc) refl in
    let longer : count t ≤ count (String.◌∷◌ c (b ⧺ t)) =
      omega (arith, length-cons c (b ⧺ t), length-append b t) in
    rw cons-append (
      split_at-later t c (b ⧺ (t ⧺ y))
        (rw (whole y) (strip-same t (String.◌∷◌ c (b ⧺ t)) x y longer (rw (whole x) at missed)))
        again)

-- What stands before the heading, and from the next heading on.
abbrev pub IsMasked : String → String → String → String → Type 0
IsMasked heading value before later =
    (body : String) × (value ≡ before ⧺ ((heading ⧺ "\n") ⧺ body)) × (next_section body ≡ later)

-- The mask has the heading at the same place as the text.
mask_section-parts :
    (heading value : String) {mask : String}
    → mask_section heading value ≡ ok mask
    → (before : String) × (body : String) × (value ≡ before ⧺ ((heading ⧺ "\n") ⧺ body))
      × (split_at (heading ⧺ "\n") mask ≡ some (before, "\n<CONTEXT>\n" ⧺ next_section body))
unfolding mask_section
mask_section-parts heading value {mask} h =
    let t : String = heading ⧺ "\n" in
    elim (Option-cases (split_at t value)) [
      | inl missed ↦ ground arith
      | inr ((b, body), found) ↦
          let whole = split_at-eq-some t value found in
          let context : String = "\n<CONTEXT>\n" ⧺ next_section body in
          let made : (b ⧺ (heading ⧺ ("\n" ⧺ context))) ≡ mask = ground arith in
          let same : mask ≡ b ⧺ (t ⧺ context) =
            sym made ∙ ap (λ s. b ⧺ s) (sym (append_assoc heading "\n" context)) in
          (b, body, whole, rw same (split_at-same t b body context (rw whole at found)))
    ]

-- Texts with one mask are the same outside the section.
pub mask_section-IsMasked :
    (heading old current : String) {mask : String}
    → mask_section heading old ≡ ok mask
    → mask_section heading current ≡ ok mask
    → (before : String) × (later : String) × IsMasked heading old before later
      × IsMasked heading current before later
mask_section-IsMasked heading old current {mask} h k =
    let (b, body, whole, found) = mask_section-parts heading old h in
    let (b', body', whole', found') = mask_section-parts heading current k in
    let same = sym found ∙ found' in
    let parts : (b ≡ b')
        × ("\n<CONTEXT>\n" ⧺ next_section body ≡ "\n<CONTEXT>\n" ⧺ next_section body') =
      ground arith in
    (
      b,
      next_section body,
      (body, whole, refl),
      (
        body',
        rw parts.0 whole',
        sym (append_cancel_left "\n<CONTEXT>\n" (next_section body) (next_section body') (parts.1)),
      ),
    )
