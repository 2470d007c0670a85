-- ===== src/Lifecycle/Sync.antt =====
-- `syncMain` of scripts/task/unified-lifecycle.mjs: main is brought up to date, tasks that were merged
-- are closed, and what is left of closed tasks is taken away.
pub mod Records
pub mod Safe
pub mod Requests
pub mod Merged
mod Tests
use kakesu.Prelude.{
  String, Bool, true, false, not, ◌&&◌, ◌||◌, List, [], ◌∷◌, any, map, ◌==◌, if◌then◌else◌, ◌⧺◌,
}
use kakesu.Js.{Value, str, prop, to_text, truthy}
use kakesu.Js.Trim.{trim}
use kakesu.Result.{Result, ok, throw}
use kakesu.Work.Texts.{join}
use kakesu.Work.Node.{Node, Spawned}
use kakesu.Work.Documents.{resolve_inside}
use kakesu.Lifecycle.Script.{
  Script, perform, finish, spawn, write, ◌>>=◌, ◌>>◌, lift, guard, handle, only_if,
}
use kakesu.Lifecycle.Steps.{git, started, file_exists, read_yaml, contains, assert_main}
use kakesu.Lifecycle.Evidence.{Outcome, is_failure, evidence_commit}
use kakesu.Lifecycle.Candidate.{tasks_of}
use kakesu.Lifecycle.Sync.Records.{
  is_newly_done, is_left, close, clear, select, is_nothing, change_all, with_tasks,
}

pub record Args : Type 0 where
  pub root : String
  -- `args.repo ?? "autotaker/kakesu"`
  pub repo : String
  -- `args.fast === "1"`, `args.push !== "false"`
  pub fast : Bool
  pub push : Bool
  -- REPO_ROOT
  pub repo_root : String

pub data Synced : Type 0 where
  -- { fast: true }, and { fast: false, no_op }
  fast : Synced
  idle : Bool → Synced
  committed : Outcome → Synced

-- The identifiers of tasks, joined by commas.
abbrev ids : List Value → String
ids tasks = join "," (map (λ task. to_text (prop "id" task)) tasks)

abbrev pub first_id : List Value → String
first_id [] = ""
first_id (task ∷ _) = to_text (prop "id" task)

-- `YAML.stringify(value, { lineWidth: 120 })` is `yaml`.
module _ (node : Node) (json : List String → String) (yaml : Value → String) (args : Args) where
  abbrev place_of : Value → Script String
  place_of task = lift (resolve_inside node args.root (prop "worktree" task) "path")

  -- The worktree is missing, or clean.
  unfoldable pub check_clean : Value → String → Script (Unit {0})
  check_clean task worktree = do
    there ← file_exists worktree
    only_if there (do
      status ← git worktree ("status" ∷ "--porcelain" ∷ [])
      guard (not (status == "")) (to_text (prop "id" task) ⧺ ": dirty worktree blocks cleanup"))

  -- The first loop.
  unfoldable pub check_closed : List Value → Script (Unit {0})
  check_closed [] = lift (ok tt)
  check_closed (task ∷ tasks) = do
    only_if (truthy (prop "worktree" task)) (place_of task >>= check_clean task)
    check_closed tasks

  -- What is left of one task is taken away.
  unfoldable pub clean_up : Value → Script (Unit {0})
  clean_up task = do
    worktree ← place_of task
    check_clean task worktree
    merged ←
        git args.root ("merge-base" ∷ "--is-ancestor" ∷ to_text (prop "branch" task) ∷ "main" ∷ [])
    there ← file_exists worktree
    only_if there (do removed ← git args.root ("worktree" ∷ "remove" ∷ worktree ∷ []); lift (ok tt))
    deleted ← git args.root ("branch" ∷ "-d" ∷ to_text (prop "branch" task) ∷ [])
    lift (ok tt)

  -- The second loop.
  unfoldable pub clean_all : List Value → Script (Unit {0})
  clean_all [] = lift (ok tt)
  clean_all (task ∷ tasks) = do clean_up task; clean_all tasks

  abbrev backlog_file : String
  backlog_file = node.path_join args.root "backlog.yaml"

  unfoldable pub record_sync : String → List Value → Value → Script Outcome
  record_sync verb tasks backlog = do
    perform (write backlog_file (yaml backlog)) (λ r. finish r)
    evidence_commit node json (record {
      root = args.root;
      action = "sync";
      task_id = first_id tasks;
      message = "task: " ⧺ (verb ⧺ (" " ⧺ ids tasks));
      push = args.push;
      validate = true;
      candidate_root = args.repo_root;
      repo_root = args.repo_root;
    })

  abbrev is_green : Spawned → Bool
  is_green ci =
      not (is_failure ci) && contains (trim ci.stdout) ("success" ∷ "neutral" ∷ "skipped" ∷ [])

  -- Main as it is on the remote, with a CI that passed.
  unfoldable pub update_main : Script (Unit {0})
  update_main = do
    assert_main node args.root
    status ← git args.root ("status" ∷ "--porcelain" ∷ [])
    guard (not (status == "")) "sync requires a clean main worktree"
    fetched ← git args.root ("fetch" ∷ "--prune" ∷ "origin" ∷ [])
    merged ← git args.root ("merge" ∷ "--ff-only" ∷ "origin/main" ∷ [])
    ci ←
        perform
          (spawn args.root "gh"
            ("run" ∷ "list" ∷ "--repo" ∷ args.repo ∷ "--branch" ∷ "main" ∷ "--limit" ∷ "1"
              ∷ "--json" ∷ "conclusion" ∷ "--jq" ∷ ".[0].conclusion" ∷ [])
            [])
          (λ r. finish (started r))
    guard (not (is_green ci)) "sync stops while main CI is unavailable or red"

  -- Tasks that were merged and are in QA are closed; whether there were any.
  unfoldable pub close_tasks : Script Bool
  close_tasks = do
    backlog ← read_yaml node backlog_file
    tasks ← lift (tasks_of backlog)
    closed ← lift (select "merged_commit" is_newly_done tasks)
    check_closed closed
    if is_nothing closed then lift (ok false) else (do
      done ←
          record_sync "complete" closed (with_tasks backlog (change_all is_newly_done close tasks))
      lift (ok true))

  unfoldable pub clean_tasks : Bool → Script Synced
  clean_tasks closed = do
    backlog ← read_yaml node backlog_file
    tasks ← lift (tasks_of backlog)
    left ← lift (select "status" is_left tasks)
    clean_all left
    if is_nothing left then lift (ok (idle (not closed))) else (do
      done ← record_sync "clean" left (with_tasks backlog (change_all is_left clear tasks))
      lift (ok (committed done)))

  -- `syncMain`
  unfoldable pub sync_main : Script Synced
  sync_main = do update_main; if args.fast then lift (ok fast) else close_tasks >>= clean_tasks
