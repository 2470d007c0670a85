-- ===== src/Routing/Config/Entries.antt =====
-- The tables that the lines of a configuration fill say what the fixed tables say.
use kakesu.Prelude.{
  String, true, ◌≡◌, sym, ◌∙◌, ap, inl, inr, Bool-cases, Option-cases, Option, some, List, [], ◌∷◌,
  arith, eq_iff, All, All-append, ◌==◌, starts_with, ◌||◌,
}
use kakesu.Js.Trim.{trim}
use kakesu.Result.{ok, Result-cases, >>=-eq-ok}
use kakesu.Routing.Contracts.{lookup}
use kakesu.Routing.Config.{
  Table, project_config, project_role_registry, quoted, section_name, assignment,
}
use kakesu.Routing.Config.Reader.{
  State, role_of, open_section, expects, expected_in, set_field, store, destination, assign, opened,
  read_line, read_lines,
}

-- The entry says what the table does.
abbrev pub IsEntry : Option Table → String × String → Type 0
IsEntry expected (k, v) = expects expected k ≡ some v

abbrev pub IsRoleTable : String × Table → Type 0
IsRoleTable (role, table) = All (IsEntry (lookup role project_role_registry)) table

abbrev pub IsFixed : State → Type 0
IsFixed st = All (IsEntry (some project_config)) st.top_level × All IsRoleTable st.registry

open_section-IsFixed :
    (st : State) (name : String) {next : State}
    → IsFixed st
    → open_section st name ≡ ok next
    → IsFixed next
unfolding open_section
open_section-IsFixed st name {next} (top, roles) h =
    let same : opened st name ≡ next = ground arith in
    rw (sym same) (top, All-append IsRoleTable st.registry ((role_of name, []) ∷ []) roles (tt, tt))

set_field-IsRoleTable :
    (role key value : String) (registry : List (String × Table))
    → expects (lookup role project_role_registry) key ≡ some value
    → All IsRoleTable registry
    → All IsRoleTable (set_field role key value registry)
unfolding set_field
set_field-IsRoleTable role key value [] e h = tt
set_field-IsRoleTable role key value ((r, table) ∷ rest) e (p, h) = elim (Bool-cases (r == role)) [
  | inl same ↦ rw same (
    All-append (IsEntry (lookup r project_role_registry)) table ((key, value) ∷ []) p
        (rw ((eq_iff r role).0 same) e, tt),
    h,
  )
  | inr other ↦ rw other (p, set_field-IsRoleTable role key value rest e h)
]

store-IsFixed :
    (st : State) (key value : String)
    → IsFixed st
    → expects (expected_in st.section) key ≡ some value
    → IsFixed (store st key value)
store-IsFixed st key value (top, roles) e = elim (Option-cases st.section) [
  | inl outside ↦ rw outside (
    All-append (IsEntry (some project_config)) st.top_level ((key, value) ∷ []) top
        (rw outside at e, tt),
    roles,
  )
  | inr (section, inside) ↦
      rw inside
        (top, set_field-IsRoleTable (role_of section) key value st.registry (rw inside at e) roles)
]

assign-IsFixed :
    (st : State) (key raw : String) {next : State}
    → IsFixed st
    → assign st key raw ≡ ok next
    → IsFixed next
unfolding assign
assign-IsFixed st key raw {next} fixed h =
    elim (Option-cases (expects (expected_in st.section) key)) [
      | inl missing ↦ ground arith
      | inr (wanted, there) ↦ elim (Result-cases (destination st)) [
        | inr (e, failed) ↦ ground arith
        | inl (table, found) ↦ elim (Option-cases (quoted raw)) [
          | inl bare ↦ ground arith
          | inr (value, q) ↦
              let facts : ((value == wanted) ≡ true) × (store st key value ≡ next) = ground arith in
              rw (sym facts.1) (
                store-IsFixed st key value fixed
                  (there ∙ ap some (sym ((eq_iff value wanted).0 facts.0))))
        ]
      ]
    ]

read_line-IsFixed :
    (st : State) (line : String) {next : State}
    → IsFixed st
    → read_line st line ≡ ok next
    → IsFixed next
unfolding read_line
read_line-IsFixed st source {next} fixed h =
    let line = trim source in
    elim (Bool-cases (line == "" || starts_with line "#")) [
      | inl skipped ↦ let same : st ≡ next = ground arith in rw (sym same) fixed
      | inr kept ↦ elim (Option-cases (section_name line)) [
        | inr (name, found) ↦ open_section-IsFixed st (trim name) {next = next} fixed (ground arith)
        | inl plain ↦ elim (Option-cases (assignment line)) [
          | inl bad ↦ ground arith
          | inr ((key, raw), found) ↦ assign-IsFixed st key raw {next = next} fixed (ground arith)
        ]
      ]
    ]

pub read_lines-IsFixed :
    (st : State) (lines : List String) {next : State}
    → IsFixed st
    → read_lines st lines ≡ ok next
    → IsFixed next
unfolding read_lines
read_lines-IsFixed st [] {next} fixed h = let same : st ≡ next = ground arith in rw (sym same) fixed
read_lines-IsFixed st (l ∷ ls) fixed h =
    let (mid, first, rest) = >>=-eq-ok (read_line st l) (λ next. read_lines next ls) h in
    read_lines-IsFixed mid ls (read_line-IsFixed st l fixed first) rest
