-- ===== src/Prelude/Text.antt =====
-- Texts as the programs use them: `startsWith`, `endsWith`, character classes.
use Prim.Native.Nat.{ℕ}
use Prim.Native.Char.{code}
use Prim.Native.String.{String, [], ◌∷◌}
use mathlib.Core.Path.{◌≡◌, refl}
use mathlib.Core.Bool.{Bool, true, false, ◌&&◌}
use native.Mathlib.Omega.{arith}
use text.Mathlib.TextLemmas.{cons-append}
use kakesu.Prelude.Tests.{leb, nat_eq}

infixl 65 ◌⧺◌
abbrev pub ◌⧺◌ : String → String → String
s ⧺ t = Prim.Native.String.◌++◌ s t

-- `s.startsWith(t)`
unfoldable pub starts_with : String → String → Bool
starts_with s [] = true
starts_with [] (d ∷ t) = false
starts_with (c ∷ s) (d ∷ t) = nat_eq (code c) (code d) && starts_with s t

-- Whether the last character is `k`, and `s.endsWith` of a one-character text.
unfoldable pub ends_with_char : ℕ → String → Bool
ends_with_char k [] = false
ends_with_char k (c ∷ []) = nat_eq (code c) k
ends_with_char k (c ∷ d ∷ s) = ends_with_char k (d ∷ s)

unfoldable pub all_chars : (ℕ → Bool) → String → Bool
all_chars p [] = true
all_chars p (c ∷ s) = p (code c) && all_chars p s

abbrev pub is_digit : ℕ → Bool
is_digit c = leb b'0' c && leb c b'9'

abbrev pub is_lower : ℕ → Bool
is_lower c = leb b'a' c && leb c b'z'

abbrev pub is_upper : ℕ → Bool
is_upper c = leb b'A' c && leb c b'Z'

pub starts_with_self : (t u : String) → starts_with (t ⧺ u) t ≡ true
unfolding starts_with
starts_with_self [] u = refl
starts_with_self (d ∷ t) u = rw cons-append (ground (arith, starts_with_self t u))
