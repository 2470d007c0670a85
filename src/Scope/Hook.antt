-- ===== src/Scope/Hook.antt =====
-- The pre-commit hook and the launchers agree on the files of an evidence commit.
use kakesu.Prelude.{
  ℕ, String, Bool, true, false, ◌≡◌, refl, ◌∙◌, ap, some, List, [], ◌∷◌, ◌||◌, arith, ◌==◌, eq_iff,
  inl, inr, Bool-cases, Option-cases, All, ◌⧺◌, ends_with_char,
}
use Prim.Native.Char.{Char}
use kakesu.Result.{ok}
use kakesu.Scope.{matches_rule, matches, directory_glob, matches_allowed, Entry, allowed_for}
use kakesu.Scope.Rules.{RuleClass, is_plain, allowed_for-rules}
use text.Mathlib.TextLemmas.{nil-append, cons-append, cons-ne-nil}

ends_with_char-cons :
    (k : ℕ) (c : Char) (s : String)
    → ends_with_char k s ≡ true
    → ends_with_char k (String.◌∷◌ c s) ≡ true
unfolding ends_with_char
ends_with_char-cons k c String.[] h = cc
ends_with_char-cons k c (String.◌∷◌ d s) h = h

-- A rule with a directory glob ends with "*".
directory_glob-star :
    (rule : String) {directory : String}
    → directory_glob rule ≡ some directory
    → ends_with_char b'*' rule ≡ true
unfolding directory_glob
directory_glob-star String.[] h = cc
directory_glob-star (String.◌∷◌ c s) h = elim (Bool-cases (String.◌∷◌ c s == "/**")) [
  | inl same ↦
      let e : String.◌∷◌ c s ≡ "/**" = (eq_iff _ _).0 same in rw e (unfold ends_with_char in refl)
  | inr other ↦ elim (Option-cases (directory_glob s)) [
    | inl missed ↦ ground arith
    | inr (r, found) ↦ ends_with_char-cons b'*' c s (directory_glob-star s found)
  ]
]

cons-ne-empty : (c : Char) (s : String) → (String.◌∷◌ c s == "") ≡ false
cons-ne-empty c s = elim (Bool-cases (String.◌∷◌ c s == "")) [
  | inl same ↦ absurd (cons-ne-nil c s ((eq_iff _ _).0 same))
  | inr other ↦ other
]

append-ne-empty : (s t : String) → (t == "") ≡ false → ((s ⧺ t) == "") ≡ false
append-ne-empty String.[] t h = rw nil-append h
append-ne-empty (String.◌∷◌ c s) t h = rw cons-append (cons-ne-empty c (s ⧺ t))

ends_with_char-tail :
    (k : ℕ) (c : Char) (s : String)
    → (s == "") ≡ false
    → ends_with_char k (String.◌∷◌ c s) ≡ ends_with_char k s
unfolding ends_with_char
ends_with_char-tail k c String.[] h = cc
ends_with_char-tail k c (String.◌∷◌ d s) h = refl

ends_with_char-append :
    (k : ℕ) (s t : String) → (t == "") ≡ false → ends_with_char k (s ⧺ t) ≡ ends_with_char k t
ends_with_char-append k String.[] t h = rw nil-append
ends_with_char-append k (String.◌∷◌ c s) t h =
    rw cons-append
      (ends_with_char-tail k c (s ⧺ t) (append-ne-empty s t h) ∙ ends_with_char-append k s t h)

-- What ends with no "*".
abbrev NoStar : String → Type 0
NoStar rule = ends_with_char b'*' rule ≡ false

matches_allowed-matches :
    (file : String) (rules : List String)
    → All NoStar rules
    → matches_allowed file rules ≡ matches file rules
unfolding matches_allowed matches
matches_allowed-matches file [] h = refl
matches_allowed-matches file (r ∷ rs) (p, h) = elim (Option-cases (directory_glob r)) [
  | inl plain ↦ rw plain (ap (◌||◌ (matches_rule file r)) (matches_allowed-matches file rs h))
  | inr (d, glob) ↦ let star = directory_glob-star r glob in cc
]

plain-nonempty : (f : String) → is_plain f ≡ true → (f == "") ≡ false
plain-nonempty f h = ground arith

plain-NoStar : (f : String) → is_plain f ≡ true → NoStar f
plain-NoStar f h = ground arith

NoStar-class : RuleClass NoStar (λ _. Unit)
unfolding ends_with_char
NoStar-class = record {
  fixed = (refl, (refl, (refl, (refl, (refl, (refl, (refl, (refl, (refl, (refl, tt))))))))));
  under = λ dir f q plain.
      ends_with_char-append b'*' dir f (plain-nonempty f plain) ∙ plain-NoStar f plain;
  grows = λ dir q. tt;
  of_id = λ id. tt;
}

All-units : (tasks : List Entry) → All (λ (e : Entry). Unit {0}) tasks
All-units [] = tt
All-units (t ∷ ts) = (tt, All-units ts)

-- Whatever the action, the hook lets through the very files that the launcher lets through, though
-- it also reads rules that end with "/**".
pub hook-allowed_for :
    (manifest : Bool) (tasks : List Entry) (action id file : String) (rules : List String)
    → allowed_for manifest tasks action id ≡ ok rules
    → matches_allowed file rules ≡ matches file rules
hook-allowed_for manifest tasks action id file rules e =
    matches_allowed-matches file rules
      (rw e at (allowed_for-rules NoStar-class manifest tasks action id (All-units tasks)))
