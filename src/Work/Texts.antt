-- ===== src/Work/Texts.antt =====
-- What the task scripts do to texts: `split`, `join`, `includes`, `slice` after a prefix, and the
-- search for the first place where a text goes on in a given way.
pub mod Laws
pub mod Cuts
use kakesu.Prelude.{
  ℕ, String, Bool, ◌||◌, Option, none, some, List, [], ◌∷◌, ◌==◌, nat_eq, if◌then◌else◌,
  starts_with, ◌⧺◌, is_digit, true, false, ◌&&◌,
}
use Prim.Native.Char.{Char, code}

-- What follows a prefix, if the text has it.
unfoldable pub strip : String → String → Option String
strip String.[] s = some s
strip (String.◌∷◌ d p) String.[] = none
strip (String.◌∷◌ d p) (String.◌∷◌ c s) = if nat_eq (code d) (code c) then strip p s else none

-- The shortest beginning after which the text goes on as `closes` asks.
unfoldable pub until : (String → Bool) → String → Option String
until closes String.[] = if closes String.[] then some "" else none
until closes (String.◌∷◌ c s) =
    let rest = until closes s in
    if closes (String.◌∷◌ c s)
    then some ""
    else elim rest [ none ↦ none | some b ↦ some (String.◌∷◌ c b) ]

-- `s.includes(t)`, and the text after the first `t`.
unfoldable pub includes : String → String → Bool
includes t String.[] = starts_with String.[] t
includes t (String.◌∷◌ c s) = starts_with (String.◌∷◌ c s) t || includes t s

abbrev push_char : Char → List String → List String
push_char c [] = String.◌∷◌ c String.[] ∷ []
push_char c (l ∷ ls) = String.◌∷◌ c l ∷ ls

-- `s.split(c)` for one character.
unfoldable pub split : ℕ → String → List String
split k String.[] = "" ∷ []
split k (String.◌∷◌ c s) =
    let rest = split k s in if nat_eq (code c) k then "" ∷ rest else push_char c rest

-- `xs.filter(Boolean)` on texts.
unfoldable pub nonempty : List String → List String
nonempty [] = []
nonempty (s ∷ ss) = let rest = nonempty ss in if s == "" then rest else s ∷ rest

-- `xs.join(sep)`
unfoldable pub join : String → List String → String
join sep [] = ""
join sep (s ∷ []) = s
join sep (s ∷ t ∷ ss) = s ⧺ sep ⧺ join sep (t ∷ ss)

-- A regular expression of single characters, in which # stands for a digit, on a whole text.
unfoldable pub shaped : String → String → Bool
shaped String.[] String.[] = true
shaped (String.◌∷◌ p ps) (String.◌∷◌ c s) =
    (if nat_eq (code p) b'#' then is_digit (code c) else nat_eq (code p) (code c)) && shaped ps s
shaped _ _ = false
