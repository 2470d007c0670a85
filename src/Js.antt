-- ===== src/Js.antt =====
-- The JavaScript values that the scripts read from JSON and YAML documents, with what the scripts
-- do to them: property access, truthiness, `===`, `String(v)`, and comparison of
-- `JSON.stringify` texts. Numbers are integers; fractions are left out.
pub mod Laws
pub mod Trim
use kakesu.Prelude.{
  ℕ, zero, suc, ◌+◌, String, Bool, true, false, not, ◌&&◌, List, [], ◌∷◌, ◌==◌, ltb, nat_eq,
  if◌then◌else◌, ◌⧺◌,
}
use Prim.Native.Nat.{◌/◌, ◌%◌}
use mathlib.Core.Option.{Option, none, some}

-- `negsuc n` is -(n + 1).
pub data ℤ : Type 0 where
  pos : ℕ → ℤ
  negsuc : ℕ → ℤ

abbrev pub int_eq : ℤ → ℤ → Bool
int_eq (pos a) (pos b) = nat_eq a b
int_eq (negsuc a) (negsuc b) = nat_eq a b
int_eq _ _ = false

abbrev pub int_lt : ℤ → ℤ → Bool
int_lt (pos a) (pos b) = ltb a b
int_lt (pos a) (negsuc b) = false
int_lt (negsuc a) (pos b) = true
int_lt (negsuc a) (negsuc b) = ltb b a

abbrev pub int_suc : ℤ → ℤ
int_suc (pos a) = pos (a + 1)
int_suc (negsuc zero) = pos 0
int_suc (negsuc (suc a)) = negsuc a

mutual
  pub data Value : Type 0 where
    undefined null : Value
    bool : Bool → Value
    num : ℤ → Value
    str : String → Value
    obj : Fields → Value
    arr : Items → Value

  pub data Fields : Type 0 where
    end : Fields
    field : String → Value → Fields → Fields

  pub data Items : Type 0 where
    nil : Items
    cons : Value → Items → Items

abbrev pub items : Items → List Value
items nil = []
items (cons v vs) = v ∷ items vs

abbrev pub fields : Fields → List (String × Value)
fields end = []
fields (field k v fs) = (k, v) ∷ fields fs

-- `o[k]` on an object's own fields.
unfoldable pub own : String → Fields → Option Value
own k end = none
own k (field j v fs) = if j == k then some v else own k fs

abbrev pub or_undefined : Option Value → Value
or_undefined none = undefined
or_undefined (some v) = v

-- `v?.k`: what is no object has no property of the names that the scripts read.
unfoldable pub prop : String → Value → Value
prop k (obj fs) = or_undefined (own k fs)
prop k _ = undefined

unfoldable pub truthy : Value → Bool
truthy undefined = false
truthy null = false
truthy (bool b) = b
truthy (num n) = not (int_eq n (pos 0))
truthy (str s) = not (s == "")
truthy (arr _) = true
truthy (obj _) = true

-- `v ?? w`
abbrev pub or_else : Value → Value → Value
or_else undefined w = w
or_else null w = w
or_else v _ = v

-- `v === w`. Arrays and objects are compared by reference, and two places of the documents never
-- share one.
unfoldable pub strict_eq : Value → Value → Bool
strict_eq undefined undefined = true
strict_eq null null = true
strict_eq (bool true) (bool true) = true
strict_eq (bool false) (bool false) = true
strict_eq (num a) (num b) = int_eq a b
strict_eq (str s) (str t) = s == t
strict_eq _ _ = false

abbrev bool_eq : Bool → Bool → Bool
bool_eq true b = b
bool_eq false b = not b

-- `JSON.stringify(v) === JSON.stringify(w)`: equality of structure, the order of the keys included.
unfoldable mutual
  pub same_json : Value → Value → Bool
  same_json undefined undefined = true
  same_json null null = true
  same_json (bool a) (bool b) = bool_eq a b
  same_json (num a) (num b) = int_eq a b
  same_json (str s) (str t) = s == t
  same_json (arr xs) (arr ys) = same_items xs ys
  same_json (obj fs) (obj gs) = same_fields fs gs
  same_json _ _ = false

  pub same_items : Items → Items → Bool
  same_items nil nil = true
  same_items (cons v vs) (cons w ws) = same_json v w && same_items vs ws
  same_items _ _ = false

  pub same_fields : Fields → Fields → Bool
  same_fields end end = true
  same_fields (field j v fs) (field k w gs) = j == k && same_json v w && same_fields fs gs
  same_fields _ _ = false

-- Decimal digits; `n + 1` rounds are enough for `n`.
abbrev digit : ℕ → String
digit n = elim n [
  | zero ↦ "0"
  | suc a ↦ elim a [
    | zero ↦ "1"
    | suc b ↦ elim b [
      | zero ↦ "2"
      | suc c ↦ elim c [
        | zero ↦ "3"
        | suc d ↦ elim d [
          | zero ↦ "4"
          | suc e ↦ elim e [
            | zero ↦ "5"
            | suc f ↦ elim f [
              | zero ↦ "6"
              | suc g ↦ elim g [ zero ↦ "7" | suc h ↦ elim h [ zero ↦ "8" | suc _ ↦ "9" ] ]
            ]
          ]
        ]
      ]
    ]
  ]
]

decimal_in : ℕ → ℕ → String
decimal_in zero n = ""
decimal_in (suc fuel) n =
    let rest = decimal_in fuel (n / 10) in if ltb n 10 then digit n else rest ⧺ digit (n % 10)

unfoldable pub decimal : ℕ → String
unfolding decimal_in
decimal n = decimal_in (n + 1) n

-- `String(v)`, as a template literal writes a value.
unfoldable mutual
  unfolding decimal

  pub to_text : Value → String
  to_text undefined = "undefined"
  to_text null = "null"
  to_text (bool true) = "true"
  to_text (bool false) = "false"
  to_text (num (pos n)) = decimal n
  to_text (num (negsuc n)) = "-" ⧺ decimal (n + 1)
  to_text (str s) = s
  to_text (arr vs) = join_items vs
  to_text (obj _) = "[object Object]"

  pub join_items : Items → String
  join_items nil = ""
  join_items (cons v nil) = element_text v
  join_items (cons v (cons w ws)) = element_text v ⧺ "," ⧺ join_items (cons w ws)

  pub element_text : Value → String
  element_text undefined = ""
  element_text null = ""
  element_text (bool true) = "true"
  element_text (bool false) = "false"
  element_text (num (pos n)) = decimal n
  element_text (num (negsuc n)) = "-" ⧺ decimal (n + 1)
  element_text (str s) = s
  element_text (arr vs) = join_items vs
  element_text (obj _) = "[object Object]"
