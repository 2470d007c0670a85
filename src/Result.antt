-- ===== src/Result.antt =====
-- What a script's function returns, or the error that it throws. An error is the text of its
-- message up to the first value that the message quotes.
use kakesu.Prelude.{String, Bool, true, false, ◌≡◌, refl, ◌⊎◌, inl, inr}

pub data Result {ℓ} (A : Type ℓ) : Type ℓ where
  throw : String → Result A
  ok : A → Result A

-- `if (bad) throw new Error(text)`
abbrev pub throw_if : Bool → String → Result (Unit {0})
throw_if true e = throw e
throw_if false e = ok tt

infixl 5 ◌>>=◌ ◌>>◌
abbrev pub ◌>>=◌ {ℓ κ} : {A : Type ℓ} {B : Type κ} (r : Result A) (next : A → Result B) → Result B
throw e >>= next = throw e
ok a >>= next = next a

-- A check before the rest.
abbrev pub ◌>>◌ {ℓ} : {B : Type ℓ} (check : Result (Unit {0})) (rest : Result B) → Result B
check >> rest = check >>= λ _. rest

-- The parts of a chain that did not throw.
pub >>=-eq-ok {ℓ κ} :
    {A : Type ℓ} {B : Type κ} (r : Result A) (next : A → Result B) {b : B}
    → (r >>= next) ≡ ok b
    → (x : A) × (r ≡ ok x) × (next x ≡ ok b)
>>=-eq-ok (throw e) next h = cc
>>=-eq-ok (ok x) next h = (x, refl, h)

pub throw_if-eq-ok {ℓ} :
    {B : Type ℓ} (bad : Bool) (e : String) (k : Result B) {b : B}
    → (throw_if bad e >> k) ≡ ok b
    → (bad ≡ false) × (k ≡ ok b)
throw_if-eq-ok true e k h = cc
throw_if-eq-ok false e k h = (refl, h)

pub throw_if-ok : (bad : Bool) (e : String) → throw_if bad e ≡ ok tt → bad ≡ false
throw_if-ok true e h = cc
throw_if-ok false e h = refl

pub Result-cases {ℓ} :
    {A : Type ℓ} (r : Result A) → ((a : A) × (r ≡ ok a)) ⊎ ((e : String) × (r ≡ throw e))
Result-cases (ok a) = inl (a, refl)
Result-cases (throw e) = inr (e, refl)
