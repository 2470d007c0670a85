-- ===== src/Work/Texts/Cuts.antt =====
-- Texts that are cut at a separator, which does not stand before or after it.
use kakesu.Prelude.{ℕ, String, not, true, false, ◌≡◌, refl, sym, ◌∙◌, arith, nat_eq, ◌⧺◌, all_chars}
use Prim.Native.Char.{Char, code}
use text.Mathlib.TextLemmas.{nil-append, cons-append, head-eq_of_cons-eq, tail-eq_of_cons-eq}

-- A character that does not stand in a text.
abbrev pub Without : ℕ → String → Type 0
Without k s = all_chars (λ c. not (nat_eq c k)) s ≡ true

Without-head :
    (k : ℕ) (c : Char) (s : String)
    → Without k (String.◌∷◌ c s)
    → (nat_eq (code c) k ≡ false) × Without k s
unfolding all_chars
Without-head k c s h = (ground arith, ground arith)

pub Without-append : (k : ℕ) (s t : String) → Without k s → Without k t → Without k (s ⧺ t)
unfolding all_chars
Without-append k String.[] t h l = rw nil-append l
Without-append k (String.◌∷◌ c s) t h l =
    let (head, tail) = Without-head k c s h in
    let rest = Without-append k s t tail l in rw cons-append (ground arith)

-- The second part of a text that has the character.
pub Without-middle : (c : Char) (s t : String) → Without (code c) (s ⧺ String.◌∷◌ c t) → ⊥
Without-middle c String.[] t h =
    let (head, tail) = Without-head (code c) c t (rw nil-append at h) in ground arith
Without-middle c (String.◌∷◌ d s) t h =
    let (head, tail) = Without-head (code c) d (s ⧺ String.◌∷◌ c t) (rw cons-append at h) in
    Without-middle c s t tail

Without-same : (c d : Char) → c ≡ d → nat_eq (code d) (code c) ≡ false → ⊥
Without-same c d e h = let again = rw e at h in ground arith

-- A text that starts with the separator is no other text without it, and the separator.
Without-start :
    (c d : Char) (x t y : String)
    → Without (code c) (String.◌∷◌ d t)
    → (String.◌∷◌ c x) ≡ (String.◌∷◌ d t) ⧺ (String.◌∷◌ c y)
    → ⊥
Without-start c d x t y h e =
    let (head, tail) = Without-head (code c) d t h in
    let both : (String.◌∷◌ c x) ≡ String.◌∷◌ d (t ⧺ (String.◌∷◌ c y)) =
      e ∙ cons-append d t (String.◌∷◌ c y) in
    Without-same c d (head-eq_of_cons-eq both) head

-- What precedes the first separator, and what follows it.
pub first_cut :
    (c : Char) (s t x y : String)
    → Without (code c) s
    → Without (code c) t
    → (s ⧺ (String.◌∷◌ c x)) ≡ (t ⧺ (String.◌∷◌ c y))
    → (s ≡ t) × (x ≡ y)
first_cut c String.[] String.[] x y h l e =
    let both : (String.◌∷◌ c x) ≡ (String.◌∷◌ c y) = sym (nil-append _) ∙ e ∙ nil-append _ in
    (refl, tail-eq_of_cons-eq both)
first_cut c String.[] (String.◌∷◌ d t) x y h l e =
    absurd (Without-start c d x t y l (sym (nil-append _) ∙ e))
first_cut c (String.◌∷◌ d s) String.[] x y h l e =
    absurd (Without-start c d y s x h (sym (nil-append _) ∙ sym e))
first_cut c (String.◌∷◌ d s) (String.◌∷◌ d' t) x y h l e =
    let both : (String.◌∷◌ d (s ⧺ (String.◌∷◌ c x))) ≡ String.◌∷◌ d' (t ⧺ (String.◌∷◌ c y)) =
      sym (cons-append d s (String.◌∷◌ c x)) ∙ e ∙ cons-append d' t (String.◌∷◌ c y) in
    let (same, rest) =
      first_cut c s t x y (Without-head (code c) d s h).1 (Without-head (code c) d' t l).1
        (tail-eq_of_cons-eq both) in
    (rw (same, head-eq_of_cons-eq both) refl, rest)

-- What precedes the last separator, and what follows it.
pub last_cut :
    (c : Char) (s t x y : String)
    → Without (code c) x
    → Without (code c) y
    → (s ⧺ (String.◌∷◌ c x)) ≡ (t ⧺ (String.◌∷◌ c y))
    → (s ≡ t) × (x ≡ y)
last_cut c String.[] String.[] x y h l e =
    let both : (String.◌∷◌ c x) ≡ (String.◌∷◌ c y) = sym (nil-append _) ∙ e ∙ nil-append _ in
    (refl, tail-eq_of_cons-eq both)
last_cut c String.[] (String.◌∷◌ d t) x y h l e =
    let both : (String.◌∷◌ c x) ≡ String.◌∷◌ d (t ⧺ (String.◌∷◌ c y)) =
      sym (nil-append _) ∙ e ∙ cons-append d t (String.◌∷◌ c y) in
    absurd (Without-middle c t y (rw (tail-eq_of_cons-eq both) at h))
last_cut c (String.◌∷◌ d s) String.[] x y h l e =
    let both : (String.◌∷◌ c y) ≡ String.◌∷◌ d (s ⧺ (String.◌∷◌ c x)) =
      sym (nil-append _) ∙ sym e ∙ cons-append d s (String.◌∷◌ c x) in
    absurd (Without-middle c s x (rw (tail-eq_of_cons-eq both) at l))
last_cut c (String.◌∷◌ d s) (String.◌∷◌ d' t) x y h l e =
    let both : (String.◌∷◌ d (s ⧺ (String.◌∷◌ c x))) ≡ String.◌∷◌ d' (t ⧺ (String.◌∷◌ c y)) =
      sym (cons-append d s (String.◌∷◌ c x)) ∙ e ∙ cons-append d' t (String.◌∷◌ c y) in
    let (same, rest) = last_cut c s t x y h l (tail-eq_of_cons-eq both) in
    (rw (same, head-eq_of_cons-eq both) refl, rest)
