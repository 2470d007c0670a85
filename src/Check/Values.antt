-- ===== src/Check/Values.antt =====
-- Tests on the values of the front matters that scripts/task/check-task.mjs makes over and over.
use kakesu.Prelude.{
  ℕ, String, Bool, true, false, ◌&&◌, ◌||◌, not, none, some, List, ◌==◌, any, nat_eq, leb, is_digit,
  all_chars, ◌⧺◌,
}
use kakesu.Js.{Value, str, undefined, null, obj, own, strict_eq, to_text}
use kakesu.Js.Trim.{trim, utf16_length}

abbrev pub is : String → Value → Bool
is s v = strict_eq v (str s)

-- `["a", "b"].includes(v)`
abbrev pub one_of : List String → Value → Bool
one_of words v = any (λ w. is w v) words

-- `v ?? ""`, as a text.
unfoldable pub text_or_empty : Value → String
text_or_empty undefined = ""
text_or_empty null = ""
text_or_empty v = to_text v

-- `v !== undefined && v !== null && String(v).trim() !== ""`
abbrev pub is_filled : Value → Bool
is_filled v = not (trim (text_or_empty v) == "")

abbrev is_hex : ℕ → Bool
is_hex c = is_digit c || (leb b'a' c && leb c b'f')

-- /^[0-9a-f]{40}$/
unfoldable pub is_sha : String → Bool
is_sha s = all_chars is_hex s && nat_eq (utf16_length s) 40

-- `Object.prototype.hasOwnProperty.call(v, key)`
unfoldable pub has_field : String → Value → Bool
has_field key (obj fs) = elim (own key fs) [ some _ ↦ true | none ↦ false ]
has_field key _ = false

-- A message about a task.
abbrev pub about : String → String → String
about id text = id ⧺ ": " ⧺ text
