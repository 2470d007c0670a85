-- ===== src/Routing/Patterns.antt =====
-- The regular expressions by which scripts/task/agent-routing.mjs reads the role files, `tomlSection`
-- and `quotedValue`.
use kakesu.Prelude.{
  ℕ, ◌+◌, String, Bool, true, false, ◌||◌, ◌&&◌, not, Option, none, some, List, [], ◌∷◌, ◌==◌,
  nat_eq, if◌then◌else◌, starts_with, is_upper, ◌⧺◌,
}
use Prim.Native.Char.{code}
use kakesu.Js.Trim.{trim, trim_start, is_space}
use kakesu.Result.{Result, ok, throw}
use kakesu.Work.Texts.{strip, split, join}

abbrev pub is_line_break : ℕ → Bool
is_line_break c = nat_eq c 10 || nat_eq c 13 || nat_eq c 8232 || nat_eq c 8233

-- What is found at the first start of a line where something is found, /^…/m.
unfoldable pub first_line {ℓ} : {A : Type ℓ} → (String → Option A) → Bool → String → Option A
first_line find starts String.[] = if starts then find "" else none
first_line find starts (String.◌∷◌ c s) =
    let later = first_line find (is_line_break (code c)) s in
    if starts then (elim (find (String.◌∷◌ c s)) [ some a ↦ some a | none ↦ later ]) else later

-- /\s*$/m
unfoldable pub ends_line : String → Bool
ends_line String.[] = true
ends_line (String.◌∷◌ c s) = is_line_break (code c) || is_space (code c) && ends_line s

-- What follows /key\s*=\s*/
abbrev pub assigned : String → String → Option String
assigned key s = elim (strip key s) [
  | none ↦ none
  | some rest ↦ elim (strip "=" (trim_start rest)) [
    | none ↦ none
    | some value ↦ some (trim_start value)
  ]
]

-- What precedes the next quote, and what follows it.
unfoldable pub until_quote : String → Option (String × String)
until_quote String.[] = none
until_quote (String.◌∷◌ c s) =
    let rest = until_quote s in
    if nat_eq (code c) b'"'
    then some ("", s)
    else elim rest [ none ↦ none | some (value, later) ↦ some (String.◌∷◌ c value, later) ]

abbrev quoted_text : String → Option String
quoted_text s = elim (strip "\"" s) [
  | none ↦ none
  | some text ↦ elim (until_quote text) [
    | none ↦ none
    | some (value, rest) ↦ if value == "" || not (ends_line rest) then none else some value
  ]
]

abbrev quoted_line : String → String → Option String
quoted_line key s = elim (assigned key s) [ none ↦ none | some value ↦ quoted_text value ]

-- `quotedValue`
unfoldable pub quoted_value : String → String → Result String
quoted_value content key = elim (first_line (quoted_line key) true content) [
  | none ↦ throw ("ROUTING_CONFIG_INVALID: missing " ⧺ key)
  | some value ↦ ok value
]

abbrev setting_line : String → String → String → Option (Unit {0})
setting_line key value s = elim (assigned key s) [
  | none ↦ none
  | some text ↦ elim (strip value text) [
    | none ↦ none
    | some rest ↦ if ends_line rest then some tt else none
  ]
]

abbrev key_line : String → String → Option (Unit {0})
key_line key s = elim (assigned key s) [ none ↦ none | some _ ↦ some tt ]

abbrev is_found : Option (Unit {0}) → Bool
is_found none = false
is_found (some _) = true

-- /^key\s*=\s*value\s*$/m, and /^key\s*=/m
abbrev pub has_setting : String → String → String → Bool
has_setting key value content = is_found (first_line (setting_line key value) true content)

abbrev pub has_key : String → String → Bool
has_key key content = is_found (first_line (key_line key) true content)

abbrev lower : ℕ → ℕ
lower c = if is_upper c then c + 32 else c

-- What follows a word in lower case, in whatever case it stands in the text.
unfoldable pub strip_word : String → String → Option String
strip_word String.[] s = some s
strip_word (String.◌∷◌ d w) String.[] = none
strip_word (String.◌∷◌ d w) (String.◌∷◌ c s) =
    if nat_eq (code d) (lower (code c)) then strip_word w s else none

-- What follows the first place of a word on the line.
unfoldable pub after_word : String → String → Option String
after_word w String.[] = none
after_word w (String.◌∷◌ c s) = elim (strip_word w (String.◌∷◌ c s)) [
  | some rest ↦ some rest
  | none ↦ if is_line_break (code c) then none else after_word w s
]

unfoldable pub follow : List String → String → Bool
follow [] s = true
follow (w ∷ ws) s = elim (after_word w s) [ none ↦ false | some rest ↦ follow ws rest ]

-- Words on one line in this order, /first.*second/i
unfoldable pub has_words : String → List String → String → Bool
has_words w ws String.[] = false
has_words w ws (String.◌∷◌ c s) = elim (strip_word w (String.◌∷◌ c s)) [
  | some rest ↦ follow ws rest || has_words w ws s
  | none ↦ has_words w ws s
]

-- `content.split(/\r?\n/)`
abbrev drop_return : String → String
drop_return String.[] = ""
drop_return (String.◌∷◌ c String.[]) = if nat_eq (code c) 13 then "" else String.◌∷◌ c String.[]
drop_return (String.◌∷◌ c (String.◌∷◌ d s)) = String.◌∷◌ c (drop_return (String.◌∷◌ d s))

abbrev drop_returns : List String → List String
drop_returns [] = []
drop_returns (l ∷ []) = l ∷ []
drop_returns (l ∷ m ∷ ls) = drop_return l ∷ drop_returns (m ∷ ls)

unfoldable pub after_header : String → List String → Option (List String)
after_header header [] = none
after_header header (l ∷ ls) =
    let rest = after_header header ls in if trim l == header then some ls else rest

unfoldable pub until_header : List String → List String
until_header [] = []
until_header (l ∷ ls) =
    let rest = l ∷ until_header ls in if starts_with (trim_start l) "[" then [] else rest

-- `tomlSection`
unfoldable pub toml_section : String → String → Option String
toml_section content name =
    elim (after_header ("[" ⧺ (name ⧺ "]")) (drop_returns (split 10 content))) [
      | none ↦ none
      | some ls ↦ some (join "\n" (until_header ls))
    ]
