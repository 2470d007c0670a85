-- ===== src/Routing/Roles/Laws.antt =====
-- The contracts that are read are those of the program.
use kakesu.Prelude.{
  String, Option, some, not, ◌≡◌, List, [], ◌∷◌, ◌==◌, eq_iff, not-eq-false, sym, ◌∙◌, arith,
}
use kakesu.Result.{ok, >>=-eq-ok, throw_if-eq-ok, throw_if-ok}
use kakesu.Js.{Value}
use kakesu.Work.Node.{Node}
use kakesu.Routing.Contracts.{Contract, role_contracts, lookup}
use kakesu.Routing.Selection.{resolve_fixed_route}
use kakesu.Routing.Selection.Route.{IsRole, Keeps, resolve_fixed_route-fixed}
use kakesu.Routing.Config.Reader.{read_project_config}
use kakesu.Routing.Patterns.{quoted_value}
use kakesu.Routing.Roles.{
  read_contract, check_policy, role_file, actual_of, check_keys, read_role, read_roles,
  read_canonical_contracts,
}

actual_of-profile :
    (profile content : String) {actual : Contract}
    → actual_of profile content ≡ ok actual
    → profile ≡ actual.profile
unfolding actual_of
actual_of-profile profile content h =
    let (model, m, h₁) = >>=-eq-ok (quoted_value content "model") _ h in
    let (effort, e, h₂) = >>=-eq-ok (quoted_value content "model_reasoning_effort") _ h₁ in
    let (sandbox, s, h₃) = >>=-eq-ok (quoted_value content "sandbox_mode") _ h₂ in ground arith

same_fields :
    (a b : Contract)
    → a.profile ≡ b.profile
    → a.model ≡ b.model
    → a.effort ≡ b.effort
    → a.sandbox ≡ b.sandbox
    → a ≡ b
same_fields a b p m e s = λ i. record { profile = p i; model = m i; effort = e i; sandbox = s i }

check_keys-same :
    (role : String) (expected actual : Contract)
    → actual.profile ≡ expected.profile
    → check_keys role expected actual ≡ ok tt
    → actual ≡ expected
unfolding check_keys
check_keys-same role expected actual p h =
    let (m, h₁) = throw_if-eq-ok (not (actual.model == expected.model)) _ _ h in
    let (e, h₂) = throw_if-eq-ok (not (actual.effort == expected.effort)) _ _ h₁ in
    let s = throw_if-ok (not (actual.sandbox == expected.sandbox)) _ h₂ in
    same_fields actual expected p ((eq_iff _ _).0 (not-eq-false _ m))
      ((eq_iff _ _).0 (not-eq-false _ e)) ((eq_iff _ _).0 (not-eq-false _ s))

read_contract-expected :
    (role : String) (expected : Contract) (content : String) {actual : Contract}
    → read_contract role expected content ≡ ok actual
    → actual ≡ expected
unfolding read_contract
read_contract-expected role expected content {actual} h =
    let (made, m, h₁) = >>=-eq-ok (actual_of expected.profile content) _ h in
    let (name, n, h₂) = >>=-eq-ok (quoted_value content "name") _ h₁ in
    let (u, h₃) = throw_if-eq-ok (not (name == role)) _ _ h₂ in
    let (t, same, done) = >>=-eq-ok (check_keys role expected made) _ h₃ in
    let e : made ≡ actual = ground arith in
    sym e
    ∙ check_keys-same role expected made (sym (actual_of-profile expected.profile content m)) same

module _ (node : Node) (product_root : String) where
  read_role-expected :
      (role : String) (expected : Contract) {actual : Contract}
      → read_role node product_root role expected ≡ ok actual
      → actual ≡ expected
  unfolding read_role
  read_role-expected role expected {actual} h =
      let place : String = role_file node product_root role in
      let (there, h₁) = throw_if-eq-ok (not (node.exists place)) _ _ h in
      let (content, read, h₂) = >>=-eq-ok (node.read_text place) _ h₁ in
      let (made, m, h₃) = >>=-eq-ok (read_contract role expected content) _ h₂ in
      let (u, policy, done) = >>=-eq-ok (check_policy role content) _ h₃ in
      let e : made ≡ actual = ground arith in sym e ∙ read_contract-expected role expected content m

  read_roles-expected :
      (roles : List (String × Contract)) {contracts : List (String × Contract)}
      → read_roles node product_root roles ≡ ok contracts
      → contracts ≡ roles
  unfolding read_roles
  read_roles-expected [] h = ground arith
  read_roles-expected ((role, expected) ∷ rest) h =
      let (actual, m, h₁) = >>=-eq-ok (read_role node product_root role expected) _ h in
      let (later, ms, done) = >>=-eq-ok (read_roles node product_root rest) _ h₁ in
      let e = read_role-expected role expected m in
      let es = read_roles-expected rest ms in ground arith

  -- Role files from which contracts can be read at all give the very contracts of the program: the
  -- table of all roles, with the profile, the model, the effort and the sandbox of each.
  pub read_canonical_contracts-fixed :
      {contracts : List (String × Contract)}
      → read_canonical_contracts node product_root ≡ ok contracts
      → contracts ≡ role_contracts
  unfolding read_canonical_contracts
  read_canonical_contracts-fixed h =
      let config : String = node.path_join product_root ".codex/config.toml" in
      let (content, read, h₁) = >>=-eq-ok (node.read_text config) _ h in
      let (project, parsed, h₂) = >>=-eq-ok (read_project_config content) _ h₁ in
      read_roles-expected role_contracts h₂

  -- A route that is given on role files from which contracts can be read is the program's contract for
  -- the role of the action, and the caller asked for nothing else.
  pub resolve_fixed_route-canonical :
      (action : String) (plan : Option Value) (args : Value) (role : String) (c : Contract)
      → resolve_fixed_route (read_canonical_contracts node product_root) action plan args
        ≡ ok (role, some c)
      → IsRole action plan role × Keeps c args × (lookup role role_contracts ≡ some c)
  resolve_fixed_route-canonical action plan args role c h =
      let (is_role, keeps, (contracts, read, found)) =
        resolve_fixed_route-fixed (read_canonical_contracts node product_root) action plan args role
          c h in
      (is_role, keeps, rw (read_canonical_contracts-fixed read) at found)
