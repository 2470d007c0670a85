-- ===== src/PreCommit/Hook.antt =====
-- The body of scripts/task/work-pre-commit.mjs, part by part. The environment gives a variable's
-- text, and `parse_json` is `JSON.parse`.
use kakesu.Prelude.{
  String, Bool, true, false, not, ◌&&◌, ◌||◌, Option, none, some, List, [], ◌∷◌, ◌==◌, nat_eq, leb,
  is_digit, all_chars, if◌then◌else◌, starts_with, ◌⧺◌, ℕ,
}
use kakesu.Js.{Value, str, arr, nil, items}
use kakesu.Js.Trim.{utf16_length}
use kakesu.Result.{Result, ok, throw, ◌>>=◌, ◌>>◌, throw_if}
use kakesu.Scope.{matches_allowed}
use kakesu.Lifecycle.Steps.{lines, contains, is_empty}
use kakesu.Work.Node.{Node, git, is_zero}
use kakesu.Work.Digest.{changed_content_digest}
use kakesu.PreCommit.Context.{mask_section}
use kakesu.PreCommit.Decisions.{check_staged_decisions}

abbrev pub or_blank : Option String → String
or_blank none = ""
or_blank (some s) = s

abbrev pub is_hex_char : ℕ → Bool
is_hex_char c = is_digit c || (leb b'a' c && leb c b'f')

-- /^[a-f0-9]{64}$/
unfoldable pub is_sha256 : String → Bool
is_sha256 s = all_chars is_hex_char s && nat_eq (utf16_length s) 64

-- `matchesAllowed`; a rule that is no text throws when it is reached.
unfoldable pub matches_rules : String → List Value → Result Bool
matches_rules file [] = ok false
matches_rules file (str rule ∷ rules) =
    let rest = matches_rules file rules in
    if matches_allowed file (rule ∷ []) then ok true else rest
matches_rules file (_ ∷ rules) = throw "rule.endsWith is not a function"

-- `staged.filter((file) => !matchesAllowed(file))`
unfoldable pub outside : List Value → List String → Result (List String)
outside rules [] = ok []
outside rules (file ∷ files) =
    let rest = outside rules files in
    (do
      inside ← matches_rules file rules
      later ← rest
      ok (if inside then later else file ∷ later))

-- `Array.isArray(workAllowed) && workAllowed.length`
abbrev pub rules_in : Value → Result (List Value)
rules_in (arr nil) = throw "Missing allowed paths for "
rules_in (arr rules) = ok (items rules)
rules_in _ = throw "Missing allowed paths for "

-- What a wiki commit may change.
abbrev pub is_ingested : String → Bool
is_ingested file =
    starts_with file "wiki/semantic/"
    || starts_with file "wiki/decisions/"
    || starts_with file "wiki/ingestions/"
    || file == "wiki/index.json"

abbrev pub is_target : Option String → String → Bool
is_target none file = false
is_target (some target) file = file == target

abbrev pub is_wiki_file : String → Option String → String → Bool
is_wiki_file action target file =
    if action == "ingest" then is_ingested file else is_target target file

unfoldable pub without : (String → Bool) → List String → List String
without allowed [] = []
without allowed (file ∷ files) =
    let rest = without allowed files in if allowed file then rest else file ∷ rest

abbrev pub heading_of : String → String
heading_of action = if action == "context-task" then "## 関連コンテキスト" else "## 関連Wikiと判断"

abbrev pub is_task_branch : String → Bool
is_task_branch branch = starts_with branch "task/"

module _ (node : Node) (parse_json : String → Result Value) (env : String → Option String) where
  -- The value of a variable, where a missing one and an empty one are not told apart.
  abbrev pub variable : String → String
  variable name = or_blank (env name)

  abbrev pub is_parent : Bool
  is_parent = variable "WORK_REPO_LOCK_HELD" == "1" && variable "WORK_PARENT_COMMIT" == "1"

  unfoldable pub check_frozen : String → Result (Unit {0})
  check_frozen root = do
    place ← git node root ("rev-parse" ∷ "--git-dir" ∷ [])
    throw_if
        (node.exists (node.path_join (node.resolve root place) "agent-harness-evidence-frozen"))
        "Evidence writes are frozen in the retired repository: "

  abbrev pub staged_names : String → Result (List String)
  staged_names root = do
    names ← git node root ("diff" ∷ "--cached" ∷ "--name-only" ∷ "--diff-filter=ACMRD" ∷ [])
    ok (lines names)

  abbrev pub work_allowed : Result Value
  work_allowed =
      if variable "WORK_ALLOWED_PATHS" == ""
      then ok Value.null
      else parse_json (variable "WORK_ALLOWED_PATHS")

  -- The staging set is complete.
  unfoldable pub check_complete : String → Result (Unit {0})
  check_complete root = do
    unstaged ← git node root ("diff" ∷ "--name-only" ∷ [])
    untracked ← git node root ("ls-files" ∷ "--others" ∷ "--exclude-standard" ∷ [])
    throw_if (not (is_empty (lines unstaged)) || not (is_empty (lines untracked)))
        "Commit requires a complete staging set; unstaged="

  -- `if (workAction) { … }`
  unfoldable pub check_work_action : Value → List String → Result (Unit {0})
  check_work_action allowed staged = if variable "WORK_ACTION" == "" then ok tt else (do
    throw_if (not is_parent)
        "Work evidence commits must be created by the lock-owning launcher parent for "
    rules ← rules_in allowed
    forbidden ← outside rules staged
    throw_if (not (is_empty forbidden)) "Work Agent staged files outside ")

  unfoldable pub check_branch : String → Result (Unit {0})
  check_branch branch =
      throw_if (is_task_branch branch && not (variable "WORK_ACTION" == "candidate-commit"))
        "Task branch commits must be created by candidate-commit launcher; work_action="

  -- The target may only change in one section.
  unfoldable pub check_section : String → String → String → Result (Unit {0})
  check_section root action target =
      let old = node.spawn root "git" ("show" ∷ ("HEAD:" ⧺ target) ∷ []) in
      (do
        throw_if (not (is_zero old.status))
            (target ⧺ ": context action requires an existing evidence file")
        current ← node.read_text (node.path_join root target)
        before ← mask_section (heading_of action) old.stdout
        after ← mask_section (heading_of action) current
        throw_if (not (before == after)) (target ⧺ ": "))

  -- `if (action) { … }`
  unfoldable pub check_wiki_action : String → List String → Result (Unit {0})
  check_wiki_action root staged =
      let action = variable "WIKI_ACTION" in
      let target = env "WIKI_TARGET" in
      if action == "" then ok tt else (do
        throw_if (not is_parent)
            "Wiki commits must be created by the lock-owning launcher parent for "
        throw_if (not (is_empty (without (is_wiki_file action target) staged)))
            "Wiki Agent staged files outside "
        if not (action == "ingest") && contains (or_blank target) staged
            then check_section root action (or_blank target)
            else ok tt)

  module _ (sha256 : String → String) where
    abbrev pub has_digest : List String → Bool
    has_digest staged =
        is_parent && is_sha256 (variable "WORK_VALIDATED_DIGEST") && not (is_empty staged)

    -- `prevalidated`
    unfoldable pub is_prevalidated : String → List String → Result Bool
    is_prevalidated root staged =
        if has_digest staged
        then (do
          digest ← changed_content_digest node sha256 root true
          throw_if (not (digest == variable "WORK_VALIDATED_DIGEST"))
              "validated working bytes differ from the staged content digest"
          ok true)
        else ok false

    abbrev run_validation : String → String → Result (Unit {0})
    run_validation repo_root root =
        let r =
          node.spawn repo_root "node" (
            node.path_join repo_root "scripts/task/validate-work.mjs"
            ∷ "--work-root"
            ∷ root
            ∷ []) in
        throw_if (not (is_zero r.status)) r.stderr

    -- The bytes were checked before, or the checks run now.
    unfoldable pub check_content : String → String → String → List String → Result (Unit {0})
    check_content repo_root root branch staged = do
      prevalidated ← is_prevalidated root staged
      throw_if (is_task_branch branch && not prevalidated)
          "candidate-commit requires a trusted pre-validation digest"
      if not prevalidated && node.exists (node.path_join root "backlog.yaml")
          then run_validation repo_root root
          else ok tt

    unfoldable pub pre_commit : String → String → Result (Unit {0})
    pre_commit repo_root root = do
      check_frozen root
      staged ← staged_names root
      allowed ← work_allowed
      branch ← git node root ("branch" ∷ "--show-current" ∷ [])
      check_complete root
      check_work_action allowed staged
      check_branch branch
      check_wiki_action root staged
      check_staged_decisions node root staged
      check_content repo_root root branch staged
