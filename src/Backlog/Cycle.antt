-- ===== src/Backlog/Cycle.antt =====
-- The search for dependency cycles of scripts/task/validate-work.mjs (`visit`). `visiting` and
-- `visited` are sets of task ids; a list stands for each, since the program never iterates them.
-- The recursion takes fuel: `none` means that it ran out.
pub mod Walks
pub mod Fuel
pub mod Finish
pub mod Sound
pub mod Termination
pub mod Exact
mod Tests
use kakesu.Prelude.{
  ℕ, zero, suc, ◌+◌, String, Bool, false, ◌||◌, Option, none, some, List, [], ◌∷◌, ◌++◌, ◌==◌,
  length, if◌then◌else◌,
}

pub record Task : Type 0 where
  pub id : String
  pub depends_on : Option (List String)

pub record Search : Type 0 where
  pub visiting : List String
  pub visited : List String
  pub cycles : List (List String)

unfoldable pub has : String → List String → Bool
has x [] = false
has x (y ∷ ys) = y == x || has x ys

unfoldable pub remove : String → List String → List String
remove x [] = []
remove x (y ∷ ys) = let rest = remove x ys in if y == x then rest else y ∷ rest

abbrev or_empty : Option (List String) → List String
or_empty none = []
or_empty (some ds) = ds

-- `tasks.find((candidate) => candidate.id === taskId)?.depends_on ?? []`
unfoldable pub dependencies : List Task → String → List String
dependencies [] x = []
dependencies (t ∷ ts) x = if t.id == x then or_empty t.depends_on else dependencies ts x

abbrev enter : String → Search → Search
enter x s = record s { visiting = x ∷ s.visiting }

abbrev leave : String → Search → Search
leave x s = record s { visiting = remove x s.visiting; visited = x ∷ s.visited }

abbrev report : List String → Search → Search
report c s = record s { cycles = s.cycles ++ c ∷ [] }

infixl 5 ◌>>=◌
abbrev pub ◌>>=◌ : Option Search → (Search → Option Search) → Option Search
none >>= k = none
some s >>= k = k s

-- The loop over the dependencies, with the call for one of them as an argument.
unfoldable pub visit_each : (String → Search → Option Search) → List String → Search → Option Search
visit_each go [] s = some s
visit_each go (d ∷ ds) s = do next ← go d s; visit_each go ds next

unfoldable pub visit : List Task → ℕ → String → List String → Search → Option Search
visit tasks zero x chain s = none
visit tasks (suc fuel) x chain s =
    let inside = visit_each (λ d. visit tasks fuel d (chain ++ x ∷ [])) (dependencies tasks x) in
    if has x s.visiting
    then some (report (chain ++ x ∷ []) s)
    else if has x s.visited
    then some s
    else (do after ← inside (enter x s); some (leave x after))

-- `for (const task of tasks) visit(task.id)`, with the fuel of each call.
unfoldable pub visit_tasks : List Task → ℕ → List Task → Search → Option Search
visit_tasks tasks fuel [] s = some s
visit_tasks tasks fuel (t ∷ ts) s = do
  next ← visit tasks fuel t.id [] s
  visit_tasks tasks fuel ts next

abbrev pub start : Search
start = record { visiting = []; visited = []; cycles = [] }

-- One more than the number of nested calls that can be open at once.
unfoldable pub find_cycles : List Task → Option Search
find_cycles tasks = visit_tasks tasks (length tasks + 2) tasks start
