-- ===== src/Work/Digest/Laws.antt =====
-- The records that the digest of the changed files is taken of.
use kakesu.Prelude.{
  String, true, Option, none, some, ◌≡◌, refl, sym, ◌∙◌, ap, List, [], ◌∷◌, All, ◌⧺◌, Option-cases,
  inl, inr, all_chars, eq_iff, ◌==◌,
}
use Prim.Native.Char.{Char, nul, char}
use text.Mathlib.TextLemmas.{
  nil-append, cons-append, append_assoc, append-ne-nil_of_right_ne-nil, cons-ne-nil,
}
use kakesu.Work.Digest.{ChangedFile, zero_byte, record_of, records_of}
use kakesu.Work.Texts.Cuts.{Without, Without-append, Without-middle, first_cut, last_cut}

abbrev newline : Char
newline = char 10 tt

abbrev state_of : Option String → String
state_of (some _) = "present"
state_of none = "deleted"

abbrev pub body_of : Option String → String
body_of (some text) = text
body_of none = "DELETED"

-- No zero byte, and no line end in the name.
abbrev pub IsPlain : ChangedFile → Type 0
IsPlain c = Without 0 c.file × Without 10 c.file × Without 0 (body_of c.content)

abbrev after_name : ChangedFile → String → String
after_name c rest =
    state_of c.content ⧺ (String.◌∷◌ nul (body_of c.content ⧺ (String.◌∷◌ newline rest)))

cons-start : (c : Char) (s : String) → ((String.◌∷◌ c String.[]) ⧺ s) ≡ String.◌∷◌ c s
cons-start c s = cons-append c String.[] s ∙ ap (String.◌∷◌ c) (nil-append s)

zero-start : (s : String) → (zero_byte ⧺ s) ≡ String.◌∷◌ nul s
zero-start s = cons-start nul s

line-start : (s : String) → ("\n" ⧺ s) ≡ String.◌∷◌ newline s
line-start s = cons-start newline s

parts-cut :
    (name state body rest : String)
    → ((name ⧺ (zero_byte ⧺ (state ⧺ (zero_byte ⧺ (body ⧺ "\n"))))) ⧺ rest)
      ≡ (name ⧺ (String.◌∷◌ nul (state ⧺ (String.◌∷◌ nul (body ⧺ (String.◌∷◌ newline rest))))))
parts-cut name state body rest = simp (append_assoc, cons-append, zero-start, line-start)

record_of-cut :
    (c : ChangedFile) (rest : String)
    → (record_of c ⧺ rest) ≡ (c.file ⧺ (String.◌∷◌ nul (after_name c rest)))
record_of-cut c rest = elim (Option-cases c.content) [
  | inl e ↦ rw e (parts-cut c.file "deleted" "DELETED" rest)
  | inr (text, e) ↦ rw e (parts-cut c.file "present" text rest)
]

-- What stands before the first zero byte: a body and the next name.
name_cut :
    (s : String) (c : ChangedFile) (cs : List ChangedFile)
    → (s ⧺ (String.◌∷◌ newline (record_of c ⧺ records_of cs)))
      ≡ ((s ⧺ (String.◌∷◌ newline c.file)) ⧺ (String.◌∷◌ nul (after_name c (records_of cs))))
name_cut s c cs = rw (record_of-cut c (records_of cs)) (simp (append_assoc, cons-append))

-- A last body is followed by no record.
alone :
    (s t : String) (d : ChangedFile) (ds : List ChangedFile)
    → Without 0 s
    → (s ⧺ (String.◌∷◌ newline "")) ≡ (t ⧺ (String.◌∷◌ newline (record_of d ⧺ records_of ds)))
    → ⊥
unfolding all_chars
alone s t d ds h e =
    let clean : Without 0 (s ⧺ (String.◌∷◌ newline "")) = Without-append 0 s _ h refl in
    let e' = e ∙ name_cut t d ds in
    Without-middle nul (t ⧺ (String.◌∷◌ newline d.file)) (after_name d (records_of ds))
      (rw e' at clean)

-- A record ends where the next one starts.
body-cut :
    (s t : String) (cs ds : List ChangedFile)
    → Without 0 s
    → Without 0 t
    → All IsPlain cs
    → All IsPlain ds
    → (s ⧺ (String.◌∷◌ newline (records_of cs))) ≡ (t ⧺ (String.◌∷◌ newline (records_of ds)))
    → (s ≡ t) × (records_of cs ≡ records_of ds)
unfolding records_of all_chars
body-cut s t [] [] h l p q e = last_cut newline s t "" "" refl refl e
body-cut s t [] (d ∷ ds) h l p q e = absurd (alone s t d ds h e)
body-cut s t (c ∷ cs) [] h l p q e = absurd (alone t s c cs l (sym e))
body-cut s t (c ∷ cs) (d ∷ ds) h l ((zc, nc, bc), ps) ((zd, nd, bd), qs) e =
    let clean : (u : String) (x : ChangedFile)
        → Without 0 u
        → Without 0 x.file
        → Without 0 (u ⧺ (String.◌∷◌ newline x.file)) =
      λ u x a b. Without-append 0 u (String.◌∷◌ newline x.file) a b in
    let (names, rests) =
      first_cut nul (s ⧺ (String.◌∷◌ newline c.file)) (t ⧺ (String.◌∷◌ newline d.file)) _ _
        (clean s c h zc) (clean t d l zd) (sym (name_cut s c cs) ∙ e ∙ name_cut t d ds) in
    let (same, file) = last_cut newline s t c.file d.file nc nd names in
    (
      same,
      record_of-cut c (records_of cs)
          ∙ (λ i. file i ⧺ (String.◌∷◌ nul (rests i)))
          ∙ sym (record_of-cut d (records_of ds)),
    )

present-deleted : ◌≡◌ {A = String} "present" "deleted" → ⊥
present-deleted e = let b : ("present" == "deleted") ≡ true = (eq_iff _ _).1 e in cc

nothing :
    (d : ChangedFile) (ds : List ChangedFile)
    → ◌≡◌ {A = String} "" (record_of d ⧺ records_of ds)
    → ⊥
nothing d ds e =
    append-ne-nil_of_right_ne-nil d.file (λ h. cons-ne-nil nul _ h)
      (sym (e ∙ record_of-cut d (records_of ds)))

-- The state and the body of a file tell its content.
content-same : (a b : Option String) → state_of a ≡ state_of b → body_of a ≡ body_of b → a ≡ b
content-same none none e h = refl
content-same none (some t) e h = absurd (present-deleted (sym e))
content-same (some s) none e h = absurd (present-deleted e)
content-same (some s) (some t) e h = ap some h

state-plain : (a : Option String) → Without 0 (state_of a)
unfolding all_chars
state-plain none = refl
state-plain (some s) = refl

-- Lists of changes have the same records only if they are the same, where neither the names nor the
-- contents have zero bytes and the names have no line ends.
pub records_of-injective :
    (cs ds : List ChangedFile)
    → All IsPlain cs
    → All IsPlain ds
    → records_of cs ≡ records_of ds
    → cs ≡ ds
unfolding records_of
records_of-injective [] [] p q e = refl
records_of-injective [] (d ∷ ds) p q e = absurd (nothing d ds e)
records_of-injective (c ∷ cs) [] p q e = absurd (nothing c cs (sym e))
records_of-injective (c ∷ cs) (d ∷ ds) ((zc, nc, bc), ps) ((zd, nd, bd), qs) e =
    let (names, rests) =
      first_cut nul c.file d.file _ _ zc zd
        (sym (record_of-cut c (records_of cs)) ∙ e ∙ record_of-cut d (records_of ds)) in
    let (states, bodies) =
      first_cut nul (state_of c.content) (state_of d.content) _ _ (state-plain c.content)
        (state-plain d.content) rests in
    let (same, later) = body-cut (body_of c.content) (body_of d.content) cs ds bc bd ps qs bodies in
    let content = content-same c.content d.content states same in
    let rest = records_of-injective cs ds ps qs later in
    (λ i. record { file = names i; content = content i } ∷ rest i)

-- With zero bytes in its content, one file has the records of two.
pub records_of-collision :
    (a x b y : String) (cs : List ChangedFile)
    → records_of (
        record {
          file = a;
          content = some (x ⧺ ("\n" ⧺ (b ⧺ (zero_byte ⧺ ("present" ⧺ (zero_byte ⧺ y))))));
        }
        ∷ cs)
      ≡ records_of
          (record { file = a; content = some x } ∷ record { file = b; content = some y } ∷ cs)
unfolding records_of
records_of-collision a x b y cs = simp append_assoc
