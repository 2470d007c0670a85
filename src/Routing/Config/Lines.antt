-- ===== src/Routing/Config/Lines.antt =====
-- The lines of a project configuration that is read.
use kakesu.Prelude.{
  String, true, ◌≡◌, refl, sym, ◌∙◌, ap, ◌⊎◌, inl, inr, Bool-cases, Option-cases, Option, some,
  List, [], ◌∷◌, arith, eq_iff, ◌==◌, starts_with, ◌||◌,
}
use kakesu.Js.Trim.{trim}
use kakesu.Result.{ok, >>=-eq-ok, Result-cases}
use kakesu.Routing.Config.{project_role_registry, has_own, quoted, section_name, assignment}
use kakesu.Routing.Config.Reader.{
  State, role_of, open_section, opened, expects, expected_in, destination, store, assign, read_line,
  read_lines,
}

-- The line opens the section of a role of the registry.
abbrev pub OpensRole : String → Option String → Type 0
OpensRole line next =
    (name : String) × (section_name line ≡ some name)
    × (starts_with (trim name) "agents." ≡ true)
    × (has_own (role_of (trim name)) project_role_registry ≡ true)
    × (next ≡ some (trim name))

-- The line gives a key of the section the value that the fixed tables have for it there.
abbrev pub GivesFixed : Option String → String → Type 0
GivesFixed section line =
    (key : String) × (raw : String) × (value : String) × (assignment line ≡ some (key, raw))
    × (quoted raw ≡ some value)
    × (expects (expected_in section) key ≡ some value)

-- A line in one section, after which the other section is open: it is empty or a comment, or one of
-- the two above.
abbrev pub IsLine : Option String → String → Option String → Type 0
IsLine section line next =
    (((line == "" || starts_with line "#") ≡ true) × (next ≡ section))
    ⊎ OpensRole line next
    ⊎ (GivesFixed section line × (next ≡ section))

-- Each line fits the section that the lines before it have opened.
abbrev pub AreLines : Option String → List String → Type 0
AreLines section [] = Unit
AreLines section (l ∷ ls) = (next : Option String) × IsLine section (trim l) next × AreLines next ls

open_section-OpensRole :
    (st : State) (line name : String) {next : State}
    → section_name line ≡ some name
    → open_section st (trim name) ≡ ok next
    → OpensRole line next.section
unfolding open_section
open_section-OpensRole st line name {next} found h =
    let facts : (starts_with (trim name) "agents." ≡ true)
        × (has_own (role_of (trim name)) project_role_registry ≡ true)
        × (opened st (trim name) ≡ next) =
      ground arith in
    (name, found, facts.0, facts.1, ap State.section (sym facts.2))

store-section : (st : State) (key value : String) → (store st key value).section ≡ st.section
store-section st key value = elim (Option-cases st.section) [
  | inl outside ↦ rw outside refl
  | inr (section, inside) ↦ rw inside refl
]

assign-GivesFixed :
    (st : State) (line key raw : String) {next : State}
    → assignment line ≡ some (key, raw)
    → assign st key raw ≡ ok next
    → GivesFixed st.section line × (next.section ≡ st.section)
unfolding assign
assign-GivesFixed st line key raw {next} found h =
    elim (Option-cases (expects (expected_in st.section) key)) [
      | inl missing ↦ ground arith
      | inr (wanted, there) ↦ elim (Result-cases (destination st)) [
        | inr (e, failed) ↦ ground arith
        | inl (table, placed) ↦ elim (Option-cases (quoted raw)) [
          | inl bare ↦ ground arith
          | inr (value, q) ↦
              let facts : ((value == wanted) ≡ true) × (store st key value ≡ next) = ground arith in
              (
                (
                  key,
                  raw,
                  value,
                  found,
                  q,
                  there ∙ ap some (sym ((eq_iff value wanted).0 facts.0)),
                ),
                ap State.section (sym facts.1) ∙ store-section st key value,
              )
        ]
      ]
    ]

read_line-IsLine :
    (st : State) (line : String) {next : State}
    → read_line st line ≡ ok next
    → IsLine st.section (trim line) next.section
unfolding read_line
read_line-IsLine st source {next} h =
    let line = trim source in
    elim (Bool-cases (line == "" || starts_with line "#")) [
      | inl skipped ↦
          let same : st ≡ next = ground arith in inl (skipped, ap State.section (sym same))
      | inr kept ↦ elim (Option-cases (section_name line)) [
        | inr (name, found) ↦
            inr (inl (open_section-OpensRole st line name {next = next} found (ground arith)))
        | inl plain ↦ elim (Option-cases (assignment line)) [
          | inl bad ↦ ground arith
          | inr ((key, raw), found) ↦
              inr (inr (assign-GivesFixed st line key raw {next = next} found (ground arith)))
        ]
      ]
    ]

pub read_lines-AreLines :
    (st : State) (lines : List String) {end : State}
    → read_lines st lines ≡ ok end
    → AreLines st.section lines
unfolding read_lines
read_lines-AreLines st [] h = tt
read_lines-AreLines st (l ∷ ls) h =
    let (mid, first, rest) = >>=-eq-ok (read_line st l) (λ next. read_lines next ls) h in
    (mid.section, read_line-IsLine st l first, read_lines-AreLines mid ls rest)
