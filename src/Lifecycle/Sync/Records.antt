-- ===== src/Lifecycle/Sync/Records.antt =====
-- The tasks that `syncMain` of scripts/task/unified-lifecycle.mjs chooses, and how it changes them.
use kakesu.Prelude.{String, Bool, true, false, ◌&&◌, List, [], ◌∷◌, map, ◌==◌, if◌then◌else◌}
use kakesu.Js.{Value, Fields, Items, str, obj, arr, end, field, nil, cons, prop, truthy}
use kakesu.Result.{Result, ok, ◌>>=◌, ◌>>◌}
use kakesu.Work.Documents.{readable}
use kakesu.Check.Values.{is}

-- `task.merged_commit && task.status === "qa"`
abbrev pub is_newly_done : Value → Bool
is_newly_done task = truthy (prop "merged_commit" task) && is "qa" (prop "status" task)

-- `task.status === "done" && task.branch && task.worktree`
abbrev pub is_left : Value → Bool
is_left task =
    is "done" (prop "status" task) && truthy (prop "branch" task) && truthy (prop "worktree" task)

-- `tasks.filter(…)`, which throws where a task is no value; `key` is the field that is read first.
unfoldable pub select : String → (Value → Bool) → List Value → Result (List Value)
select key chosen [] = ok []
select key chosen (task ∷ tasks) =
    let later = select key chosen tasks in
    (do readable task key; rest ← later; ok (if chosen task then task ∷ rest else rest))

abbrev pub is_nothing : List Value → Bool
is_nothing [] = true
is_nothing (_ ∷ _) = false

-- `o[k] = v`: a field that is there keeps its place.
unfoldable pub put : String → Value → Fields → Fields
put k v end = field k v end
put k v (field j w fs) = let rest = put k v fs in if j == k then field k v fs else field j w rest

-- `delete o[k]`
unfoldable pub drop : String → Fields → Fields
drop k end = end
drop k (field j w fs) = let rest = drop k fs in if j == k then rest else field j w rest

abbrev pub set_prop : String → Value → Value → Value
set_prop k v (obj fs) = obj (put k v fs)
set_prop k v other = other

abbrev pub close : Value → Value
close task = set_prop "status" (str "done") task

abbrev pub clear : Value → Value
clear (obj fs) = obj (drop "worktree" (drop "branch" fs))
clear other = other

abbrev pub change_all : (Value → Bool) → (Value → Value) → List Value → List Value
change_all chosen change tasks = map (λ task. if chosen task then change task else task) tasks

abbrev items_from : List Value → Items
items_from [] = nil
items_from (v ∷ vs) = cons v (items_from vs)

abbrev pub with_tasks : Value → List Value → Value
with_tasks backlog tasks = set_prop "tasks" (arr (items_from tasks)) backlog
