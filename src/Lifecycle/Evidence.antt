-- ===== src/Lifecycle/Evidence.antt =====
-- `evidenceCommit` of scripts/task/unified-lifecycle.mjs. The variables that its `catch` reads are
-- known where the commit has been made; before that the `catch` only adds to the message.
pub mod Requests
pub mod Lock
pub mod Counts
pub mod Pushes
mod Tests
use kakesu.Prelude.{
  ℕ, zero, suc, ◌+◌, String, Bool, true, false, not, ◌&&◌, ◌||◌, ◌⊎◌, inl, inr, Option, none, some,
  List, [], ◌∷◌, ◌++◌, all, ◌==◌, if◌then◌else◌, ◌⧺◌,
}
use kakesu.Js.{Value, prop, to_text}
use kakesu.Result.{Result, ok, throw}
use kakesu.Scope.{matches}
use kakesu.Work.Node.{Node, Spawned, is_zero}
use kakesu.Lifecycle.Script.{
  Script, perform, finish, acquire, release, write, digest, wiki_index, ◌>>=◌, ◌>>◌, lift, guard,
  handle, then_, only_if,
}
use kakesu.Lifecycle.Steps.{
  git, git_with, output, run, changed_files, is_empty, task_context, rules_for, assert_main,
}
use kakesu.Lifecycle.Steps.Planning.{
  validate_planning_state, recorded_worktree, fast_forward_planning_worktree,
}
use kakesu.Lifecycle.Steps.Validation.{validate_operations, validate_evidence_action}

-- The arguments, and the directory of the script's own repository.
pub record Args : Type 0 where
  pub root : String
  pub action : String
  pub task_id : String
  pub message : String
  pub push : Bool
  pub validate : Bool
  pub candidate_root : String
  pub repo_root : String

pub record Outcome : Type 0 where
  pub commit : Option String
  pub pushed : Bool
  pub changed : List String
  pub retries : Option ℕ

-- What is known when the files are about to be committed: the files, their digest, and the worktree
-- of the task with the commit of its branch.
pub record Prepared : Type 0 where
  pub files : List String
  pub validated_digest : Option String
  pub planning : Option (String × String)

abbrev nothing_changed : Outcome
nothing_changed = record { commit = none; pushed = false; changed = []; retries = none }

abbrev digest_entry : Option String → List (String × String)
digest_entry none = []
digest_entry (some d) = ("WORK_VALIDATED_DIGEST", d) ∷ []

abbrev pub is_failure : Spawned → Bool
is_failure r = not (is_zero r.status)

abbrev digested : Result String → Result (Option String)
digested (throw e) = throw e
digested (ok d) = ok (some d)

abbrev either : String → String → String
either s t = if s == "" then t else s

module _ (node : Node) (json : List String → String) (args : Args) where
  abbrev is_planning_gate : Bool
  is_planning_gate = args.action == "planning-gate"

  abbrev check_scope : List String → List String → Script (Unit {0})
  check_scope rules files =
      guard (not (all (λ file. matches file rules) files))
        ("Evidence scope violation for " ⧺ args.action)

  abbrev write_index : Script (Unit {0})
  write_index = perform (wiki_index args.root) (
      then_
        (λ text. perform (write (node.path_join args.root "wiki/index.json") text) (λ r. finish r)))

  abbrev content_digest : Script (Option String)
  content_digest =
      if args.validate
      then perform (digest args.root) (λ d. finish (digested d))
      else lift (ok none)

  abbrev planning_branch : Script (Option (String × String))
  planning_branch =
      if is_planning_gate
      then (do
        task ← task_context node args.root args.task_id
        worktree ← recorded_worktree node args.root args.task_id task
        before ← git args.root ("rev-parse" ∷ to_text (prop "branch" task) ∷ [])
        status ← git worktree ("status" ∷ "--porcelain" ∷ [])
        guard (not (status == ""))
            (args.task_id ⧺ ": planning worktree must be clean before planning-gate")
        lift (ok (some (worktree, before))))
      else lift (ok none)

  -- The digest, the planning worktree and the validation.
  unfoldable pub validated : List String → Script (Option Prepared)
  validated changed = do
    d ← content_digest
    planning ← planning_branch
    only_if args.validate (
        validate_operations node args.root (if is_planning_gate then "plan" else args.action)
          args.task_id args.candidate_root)
    lift (ok (some (record { files = changed; validated_digest = d; planning = planning })))

  -- The part before `git add`. `none` is an early return.
  unfoldable pub prepare : List String → Script (Option Prepared)
  prepare rules = do
    input ← changed_files args.root
    if is_empty input then lift (ok none) else (do
      if is_planning_gate
          then validate_planning_state node args.root args.task_id input
          else check_scope rules input
      only_if (args.action == "wiki") write_index
      changed ← changed_files args.root
      if is_empty changed
          then lift (ok none)
          else (do only_if (args.action == "wiki") (check_scope rules changed); validated changed))

  unfoldable pub commit_files : List String → Prepared → Script (Unit {0})
  commit_files rules p = do
    added ← git args.root ("add" ∷ "--" ∷ p.files)
    committed ← git_with args.root ("commit" ∷ "-m" ∷ args.message ∷ []) (
        ("WORK_REPO_LOCK_HELD", "1")
        ∷ ("WORK_PARENT_COMMIT", "1")
        ∷ ("WORK_ACTION", args.action)
        ∷ ("WORK_ALLOWED_PATHS", json rules)
        ∷ digest_entry p.validated_digest)
    lift (ok tt)

  abbrev rebased : Script (Unit {0})
  rebased = do
    rebase ← output args.root ("rebase" ∷ "origin/main" ∷ [])
    if is_failure rebase
        then (do
          aborted ← output args.root ("rebase" ∷ "--abort" ∷ [])
          lift (
              throw (
                "Evidence rebase conflict; manual reconciliation required: "
                ⧺ either rebase.stderr rebase.stdout)))
        else lift (ok tt)

  abbrev pub next_round : Script String
  next_round = do
    fetched ← git args.root ("fetch" ∷ "origin" ∷ "main" ∷ [])
    rebased
    only_if args.validate (
        validate_evidence_action node args.repo_root args.root args.action args.task_id
          args.candidate_root)
    git args.root ("rev-parse" ∷ "HEAD" ∷ [])

  -- The end of a round, with what a push that failed leads to.
  abbrev pub after_push :
      (Spawned → Script Outcome) → List String → ℕ → String → Spawned → Script Outcome
  after_push again changed retry commit result =
      if is_failure result
      then again result
      else lift (
          ok (record {
            commit = some commit;
            pushed = true;
            changed = changed;
            retries = some retry;
          }))

  abbrev pub give_up : Spawned → Script Outcome
  give_up result =
      lift (throw ("Evidence push retry limit reached: " ⧺ either result.stderr result.stdout))

  -- The loop over `retry`, with the rounds that are left after this one.
  unfoldable pub push_rounds : List String → ℕ → ℕ → String → Script Outcome
  push_rounds changed zero retry commit = do
    result ← output args.root ("push" ∷ "origin" ∷ "HEAD:main" ∷ [])
    after_push give_up changed retry commit result
  push_rounds changed (suc left) retry commit = do
    result ← output args.root ("push" ∷ "origin" ∷ "HEAD:main" ∷ [])
    after_push
        (λ failure. do
          rebased_commit ← next_round
          push_rounds changed left (retry + 1) rebased_commit)
        changed retry commit result

  -- The part after `git commit`.
  unfoldable pub publish : Prepared → Script Outcome
  publish p = do
    commit ← git args.root ("rev-parse" ∷ "HEAD" ∷ [])
    only_if is_planning_gate (fast_forward_planning_worktree node args.root args.task_id commit)
    if args.push
        then push_rounds p.files 2 0 commit
        else lift (
            ok (record { commit = some commit; pushed = false; changed = p.files; retries = none }))

  abbrev pub reset_worktree : Option (String × String) → Script (Unit {0})
  reset_worktree none = lift (ok tt)
  reset_worktree (some (worktree, commit)) = do
    result ← output worktree ("reset" ∷ "--hard" ∷ commit ∷ [])
    lift (ok tt)

  -- What the `catch` takes back once the commit has been made and could not be pushed.
  unfoldable pub roll_back : String → Prepared → Script (Unit {0})
  roll_back before p =
      if is_planning_gate
      then (do
        head ← git args.root ("rev-parse" ∷ "HEAD" ∷ [])
        only_if (not (head == before)) (do
          reset_worktree p.planning
          result ← output args.root ("reset" ∷ "--mixed" ∷ before ∷ [])
          lift (ok tt)))
      else lift (ok tt)

  abbrev failed : String → String → Script Outcome
  failed before e = finish (throw (e ⧺ "; transaction_start=" ⧺ before))

  abbrev published : String → Prepared → Result Outcome → Script Outcome
  published before p (ok o) = finish (ok o)
  published before p (throw e) = do roll_back before p; failed before e

  abbrev committed : String → Prepared → Result (Unit {0}) → Script Outcome
  committed before p (ok _) = handle (publish p) (published before p)
  committed before p (throw e) = failed before e

  abbrev prepared : List String → String → Result (Option Prepared) → Script Outcome
  prepared rules before (throw e) = failed before e
  prepared rules before (ok none) = finish (ok nothing_changed)
  prepared rules before (ok (some p)) = handle (commit_files rules p) (committed before p)

  -- The `try` with its `catch`.
  unfoldable pub transaction : List String → String → Script Outcome
  transaction rules before = handle (prepare rules) (prepared rules before)

  -- The `finally`.
  abbrev pub released : Result Outcome → Script Outcome
  released r = perform (release args.root) (λ _. finish r)

  unfoldable pub with_lock : List String → Result (Unit {0}) → Script Outcome
  with_lock rules (throw e) = finish (throw e)
  with_lock rules (ok _) = do
    before ← git args.root ("rev-parse" ∷ "HEAD" ∷ [])
    handle (transaction rules before) released

  -- `evidenceCommit`
  unfoldable pub evidence_commit : Script Outcome
  evidence_commit = do
    assert_main node args.root
    rules ← rules_for node args.root args.action args.task_id
    perform (acquire args.root) (with_lock rules)
