-- ===== src/Check/Findings/Laws.antt =====
-- A check that reports nothing has parts that report nothing.
use kakesu.Prelude.{String, Bool, true, false, ◌≡◌, refl, List, [], ◌∷◌, ◌++◌, All}
use kakesu.Result.{Result, ok, throw}
use kakesu.Check.Findings.{
  Check, checked, after, ◌>>=◌, reports, only_if, attempt, errors_of, lift, report_all, pure, steps,
  each,
}

abbrev pub Clean {ℓ} : {A : Type ℓ} → Check A → A → Type ℓ
Clean m a = m ≡ checked [] (ok a)

errors_ne-nil : (es : List String) (e : String) {C : Type 0} → es ++ e ∷ [] ≡ [] → C
errors_ne-nil [] e h = cc
errors_ne-nil (x ∷ es) e h = cc

pub errors_of-Clean {ℓ} : {A : Type ℓ} (m : Check A) → errors_of m ≡ [] → (a : A) × Clean m a
unfolding errors_of
errors_of-Clean (checked es (ok a)) h = (a, rw h refl)
errors_of-Clean (checked es (throw e)) h = absurd (errors_ne-nil es e h)

after-Clean {ℓ} :
    {A : Type ℓ} (es : List String) (m : Check A) {a : A}
    → Clean (after es m) a
    → (es ≡ []) × Clean m a
after-Clean [] (checked fs r) h = (refl, h)
after-Clean (e ∷ es) (checked fs r) h = cc

pub >>=-Clean {ℓ κ} :
    {A : Type ℓ} {B : Type κ} (m : Check A) (next : A → Check B) {b : B}
    → Clean (m >>= next) b
    → (a : A) × Clean m a × Clean (next a) b
unfolding ◌>>=◌
>>=-Clean (checked es (ok a)) next h =
    let (none_, rest) = after-Clean es (next a) h in (a, rw none_ refl, rest)
>>=-Clean (checked es (throw e)) next h = cc

pub lift-Clean {ℓ} : {A : Type ℓ} (r : Result A) {a : A} → Clean (lift r) a → r ≡ ok a
unfolding lift
lift-Clean r h = cc

-- No condition of the list holds.
abbrev pub Quiet : List (Bool × String) → Type 0
Quiet [] = Unit
Quiet ((bad, _) ∷ rest) = (bad ≡ false) × Quiet rest

pub reports-Quiet : (rs : List (Bool × String)) {u : Unit {0}} → Clean (reports rs) u → Quiet rs
unfolding reports
reports-Quiet [] h = tt
reports-Quiet ((true, e) ∷ rs) h = let (wrong, _) = after-Clean (e ∷ []) (reports rs) h in cc
reports-Quiet ((false, e) ∷ rs) h = (refl, reports-Quiet rs h)

pub only_if-Clean :
    (wanted : Bool) (m : Check (Unit {0})) {u : Unit {0}}
    → Clean (only_if wanted m) u
    → wanted ≡ true
    → Clean m u
unfolding only_if
only_if-Clean true m h e = h
only_if-Clean false m h e = cc

pub attempt-Clean :
    (text : String → String) (r : Result (Unit {0})) {u : Unit {0}}
    → Clean (attempt text r) u
    → r ≡ ok tt
unfolding attempt
attempt-Clean text (ok u) h = refl
attempt-Clean text (throw e) h = cc

pub report_all-Clean : (es : List String) {u : Unit {0}} → Clean (report_all es) u → es ≡ []
unfolding report_all
report_all-Clean es h = cc

abbrev pub AllClean : List (Check (Unit {0})) → Type 0
AllClean [] = Unit
AllClean (m ∷ ms) = Clean m tt × AllClean ms

pub steps-AllClean :
    (ms : List (Check (Unit {0}))) {u : Unit {0}} → Clean (steps ms) u → AllClean ms
unfolding steps
steps-AllClean [] h = tt
steps-AllClean (m ∷ ms) h =
    let (u, first, rest) = >>=-Clean m (λ _. steps ms) h in (first, steps-AllClean ms rest)

pub each-Clean {ℓ} :
    {A : Type ℓ} (f : A → Check (Unit {0})) (xs : List A) {u : Unit {0}}
    → Clean (each f xs) u
    → All (λ x. Clean (f x) tt) xs
unfolding each
each-Clean f [] h = tt
each-Clean f (x ∷ xs) h =
    let (u, first, rest) = >>=-Clean (f x) (λ _. each f xs) h in (first, each-Clean f xs rest)

pub pure-Clean {ℓ} : {A : Type ℓ} (a : A) {b : A} → Clean (pure a) b → a ≡ b
unfolding pure
pure-Clean a h = cc
