-- ===== src/Routing/Config/Laws.antt =====
-- What is read from a project configuration that is accepted.
use kakesu.Prelude.{
  String, true, false, ◌≡◌, refl, sym, ◌∙◌, inl, inr, Bool-cases, Option-cases, none, some, List,
  [], ◌∷◌, arith, eq_iff, All, ◌==◌,
}
use kakesu.Result.{>>=-eq-ok, ok, Result-cases}
use kakesu.Routing.Contracts.{lookup}
use kakesu.Routing.Config.{
  Table, fixed_keys, project_config, project_role_registry, has_own, split_lines,
}
use kakesu.Routing.Config.Reader.{
  initial, read_lines, pick, require, pick_roles, read_project_config,
}
use kakesu.Routing.Config.Lines.{AreLines, read_lines-AreLines}
use kakesu.Routing.Config.Entries.{IsEntry, IsRoleTable, read_lines-IsFixed}

lookup-All :
    {A : Type 0} (P : String × A → Type 0) (k : String) (table : List (String × A)) {v : A}
    → All P table
    → lookup k table ≡ some v
    → P (k, v)
unfolding lookup
lookup-All P k [] h e = cc
lookup-All P k ((j, a) ∷ rest) {v} (p, h) e = elim (Bool-cases (j == k)) [
  | inl same ↦ let found : a ≡ v = ground arith in rw (sym ((eq_iff j k).0 same), sym found) p
  | inr other ↦ lookup-All P k rest h (rw other at e)
]

-- Two tables that give every key the same value, or none.
abbrev pub Same : Table → Table → Type 0
Same table expected = (key : String) → lookup key table ≡ lookup key expected

has_own-missing : (k : String) (table : Table) → lookup k table ≡ none → has_own k table ≡ false
has_own-missing k table e = ground arith

require-has_own :
    (expected table : Table) (k : String)
    → require expected table ≡ ok tt
    → lookup k table ≡ none
    → lookup k expected ≡ none
unfolding lookup
require-has_own [] table k h e = refl
require-has_own ((j, v) ∷ expected) table k h e =
    let tests : (has_own j table ≡ true) × (require expected table ≡ ok tt) = ground arith in
    elim (Bool-cases (j == k)) [
      | inl same ↦
          let gone = has_own-missing k table e in
          let own = rw ((eq_iff j k).0 same) at (tests.0) in cc
      | inr other ↦ rw other (require-has_own expected table k tests.1 e)
    ]

Same-of_require :
    (expected table : Table)
    → require expected table ≡ ok tt
    → All (IsEntry (some expected)) table
    → Same table expected
Same-of_require expected table h fixed key = elim (Option-cases (lookup key table)) [
  | inl missing ↦ missing ∙ sym (require-has_own expected table key h missing)
  | inr (v, found) ↦ found ∙ sym (lookup-All (IsEntry (some expected)) key table fixed found)
]

pick-expected :
    (missing : String) (ks : List String) (expected table : Table) {picked : Table}
    → All (IsEntry (some expected)) table
    → pick missing ks table ≡ ok picked
    → pick missing ks expected ≡ ok picked
unfolding pick
pick-expected missing [] expected table fixed h = h
pick-expected missing (k ∷ ks) expected table {picked} fixed h =
    elim (Option-cases (lookup k table)) [
      | inl gone ↦ ground arith
      | inr (v, found) ↦ elim (Result-cases (pick missing ks table)) [
        | inr (e, failed) ↦ ground arith
        | inl (others, rest) ↦
            let here : lookup k expected ≡ some v =
              lookup-All (IsEntry (some expected)) k table fixed found in
            let others_expected = pick-expected missing ks expected table fixed rest in ground arith
      ]
    ]

fixed_top :
    (missing : String) {picked : Table}
    → pick missing fixed_keys project_config ≡ ok picked
    → picked ≡ project_config
unfolding pick lookup
fixed_top missing h = cc

-- The roles in their order, each with its expected table.
abbrev pub Matches : List (String × Table) → List (String × Table) → Type 0
Matches [] [] = Unit
Matches ((role, expected) ∷ roles) ((r, table) ∷ agents) =
    (r ≡ role) × Same table expected × Matches roles agents
Matches _ _ = ⊥

abbrev IsRegistered : String × Table → Type 0
IsRegistered (role, expected) = lookup role project_role_registry ≡ some expected

pick_roles-Matches :
    (roles registry : List (String × Table)) {agents : List (String × Table)}
    → All IsRegistered roles
    → All IsRoleTable registry
    → pick_roles roles registry ≡ ok agents
    → Matches roles agents
unfolding pick_roles
pick_roles-Matches [] registry {agents} known fixed h =
    let same : [] ≡ agents = ground arith in rw (sym same) tt
pick_roles-Matches ((role, expected) ∷ roles) registry {agents} (p, known) fixed h =
    elim (Option-cases (lookup role registry)) [
      | inl gone ↦ ground arith
      | inr (table, found) ↦ elim (Result-cases (pick_roles roles registry)) [
        | inr (e, failed) ↦ ground arith
        | inl (others, rest) ↦
            let facts : (require expected table ≡ ok tt) × ((role, table) ∷ others ≡ agents) =
              ground arith in
            rw (sym facts.1) (
              refl,
              Same-of_require expected table facts.0
                  (rw p at (lookup-All IsRoleTable role registry fixed found)),
              pick_roles-Matches roles registry known fixed rest,
            )
      ]
    ]

registered : All IsRegistered project_role_registry
unfolding lookup
registered = (refl, (refl, (refl, (refl, (refl, (refl, (refl, (refl, tt))))))))

-- A configuration that is accepted has nothing but empty lines, comments, sections of roles of the
-- registry, and keys with the very values that the fixed tables have for them in their section. What
-- is read from it is the fixed top level and every role of the registry, in its order, with the
-- values of the registry for its fields.
pub read_project_config-fixed :
    (content : String) (top_level : Table) (agents : List (String × Table))
    → read_project_config content ≡ ok (top_level, agents)
    → AreLines none (split_lines content)
      × (top_level ≡ project_config)
      × Matches project_role_registry agents
unfolding read_project_config
read_project_config-fixed content top_level agents h =
    let (st, read, h₁) = >>=-eq-ok (read_lines initial (split_lines content)) _ h in
    let (top, roles) = read_lines-IsFixed initial (split_lines content) (tt, tt) read in
    let missing : String = "ROUTING_CONFIG_INVALID: missing " in
    let (picked, found, h₂) = >>=-eq-ok (pick missing fixed_keys st.top_level) _ h₁ in
    let (given, matched, made) = >>=-eq-ok (pick_roles project_role_registry st.registry) _ h₂ in
    let facts : (picked ≡ top_level) × (given ≡ agents) = ground arith in
    (
      read_lines-AreLines initial (split_lines content) read,
      sym facts.0
          ∙ fixed_top missing
              (pick-expected missing fixed_keys project_config st.top_level top found),
      rw facts.1 at (pick_roles-Matches project_role_registry st.registry registered roles matched),
    )
