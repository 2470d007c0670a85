-- ===== src/Lifecycle/Fixtures.antt =====
-- What surrounds the tests of the transactions: a platform, the documents of one task, and a world.
use kakesu.Prelude.{ℕ, String, Bool, true, none, some, List, if◌then◌else◌, ◌==◌, starts_with}
use kakesu.Js.{Value, str, arr, obj, field, end, nil, cons}
use kakesu.Result.{ok}
use kakesu.Work.Node.{Node, Spawned}
use kakesu.Lifecycle.Script.{
  Event, World, spawn, exists, read_text, realpath, write, stat, make_dir, remove, chmod, digest,
  wiki_index, acquire, release,
}

abbrev pub spawned : ℕ → String → Spawned
spawned status out = record { error = none; status = some status; stdout = out; stderr = "" }

abbrev pub told : String → Spawned
told = spawned 0

abbrev pub candidate : String
candidate = "0123456789abcdef0123456789abcdef01234567"

abbrev pub backlog : Value
backlog = obj (
    field "tasks"
      (arr (
        cons
          (obj (
            field "id" (str "TASK-0042") (
              field "task_dir" (str "tasks/TASK-0042-a") (
                field "branch" (str "task/TASK-0042-a") (
                  field "assignees" (obj (field "reviewer" (str "r") (field "qa" (str "q") end)))
                    end)))))
          nil))
      end)

-- The front matter of every document of the task.
abbrev pub document : Value
document = obj (
    field "candidate_commit" (str candidate) (
      field "status" (str "approved") (
        field "decision" (str "pass")
          (field "reviewer_agent" (str "r") (field "qa_agent" (str "q") end)))))

-- A platform with this `join` and these documents.
abbrev pub node_of : (String → String → String) → (String → Value) → Node
node_of path_join document_of = record {
  exists = λ path. true;
  is_file = λ path. true;
  read_text = λ path. ok "";
  realpath = λ path. ok path;
  spawn = λ root program args. told "";
  is_absolute = λ path. starts_with path "/";
  resolve = λ root path. path;
  path_join = path_join;
  normalize = λ path. path;
  extname = λ path. ".md";
  dirname = λ path. "tasks";
  parse_yaml = λ text. ok (document_of text);
  parse_date = λ date. none;
  ci = true;
}

-- A platform that takes a file's name for its path, with the documents of the task.
abbrev pub task_node : Node
task_node = node_of (λ dir file. file) (λ text. if text == "backlog" then backlog else document)

-- A world with these answers of commands, these files, and this text in each.
abbrev pub world_of :
    (List Event → List String → Spawned) → (String → Bool) → (String → String) → World
world_of answer there text past (spawn _ _ args _) = answer past args
world_of answer there text past (exists path) = there path
world_of answer there text past (read_text path) = ok (text path)
world_of answer there text past (realpath path) = ok path
world_of answer there text past (write _ _) = ok tt
world_of answer there text past (stat _) = ok 420
world_of answer there text past (make_dir _) = ok tt
world_of answer there text past (remove _) = ok tt
world_of answer there text past (chmod _ _) = ok tt
world_of answer there text past (digest _) = ok "d"
world_of answer there text past (wiki_index _) = ok "{}"
world_of answer there text past (acquire _) = ok tt
world_of answer there text past (release _) = tt

-- The texts of the task's documents.
abbrev pub task_text : String → String
task_text path =
    if path == "backlog.yaml" then "backlog" else "---\na\n---\ncandidate, make check\n"
