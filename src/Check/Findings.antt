-- ===== src/Check/Findings.antt =====
-- Code that collects errors in a list and may throw on its way: the errors so far, and the result.
pub mod Laws
use kakesu.Prelude.{String, Bool, true, false, List, [], ◌∷◌, ◌++◌}
use kakesu.Result.{Result, ok, throw}

pub data Check {ℓ} (A : Type ℓ) : Type ℓ where
  checked : List String → Result A → Check A

abbrev pub after {ℓ} : {A : Type ℓ} → List String → Check A → Check A
after es (checked fs r) = checked (es ++ fs) r

infixl 5 ◌>>=◌ ◌>>◌
unfoldable pub ◌>>=◌ {ℓ κ} : {A : Type ℓ} {B : Type κ} (m : Check A) (next : A → Check B) → Check B
checked es (ok a) >>= next = after es (next a)
checked es (throw e) >>= next = checked es (throw e)

abbrev pub ◌>>◌ {ℓ} : {B : Type ℓ} (m : Check (Unit {0})) (rest : Check B) → Check B
m >> rest = m >>= λ _. rest

unfoldable pub pure {ℓ} : {A : Type ℓ} → A → Check A
pure a = checked [] (ok a)

-- What throws outside of a `try`.
unfoldable pub lift {ℓ} : {A : Type ℓ} → Result A → Check A
lift r = checked [] r

-- `if (bad) errors.push(text)`, one after the other.
unfoldable pub reports : List (Bool × String) → Check (Unit {0})
reports [] = checked [] (ok tt)
reports ((true, e) ∷ rest) = after (e ∷ []) (reports rest)
reports ((false, e) ∷ rest) = reports rest

-- `if (wanted) { … }`
unfoldable pub only_if : Bool → Check (Unit {0}) → Check (Unit {0})
only_if true m = m
only_if false m = checked [] (ok tt)

-- `try { … } catch (error) { errors.push(text(error.message)) }`
unfoldable pub attempt : (String → String) → Result (Unit {0}) → Check (Unit {0})
attempt text (ok u) = checked [] (ok u)
attempt text (throw e) = checked (text e ∷ []) (ok tt)

-- `errors.push(...es)`
unfoldable pub report_all : List String → Check (Unit {0})
report_all es = checked es (ok tt)

-- One check after the other.
unfoldable pub steps : List (Check (Unit {0})) → Check (Unit {0})
steps [] = checked [] (ok tt)
steps (m ∷ ms) = m >> steps ms

unfoldable pub each {ℓ} : {A : Type ℓ} → (A → Check (Unit {0})) → List A → Check (Unit {0})
each f [] = checked [] (ok tt)
each f (x ∷ xs) = f x >> each f xs

-- The outer `try`, which adds the message of what was thrown.
unfoldable pub errors_of {ℓ} : {A : Type ℓ} → Check A → List String
errors_of (checked es (ok a)) = es
errors_of (checked es (throw e)) = es ++ e ∷ []
