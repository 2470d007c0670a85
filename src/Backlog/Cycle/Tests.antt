-- ===== src/Backlog/Cycle/Tests.antt =====
-- A backlog with a cycle and one without, and the theorems at them.
use kakesu.Prelude.{◌+◌, arith, String, ◌≡◌, refl, true, some, List, [], ◌∷◌, ◌↔◌, All}
use kakesu.Backlog.Cycle.{
  Task, Search, has, remove, dependencies, visit_each, visit, visit_tasks, find_cycles,
}
use kakesu.Backlog.Cycle.Walks.{Walk, IsTopological}
use kakesu.Backlog.Cycle.Finish.{find_cycles-IsTopological}
use kakesu.Backlog.Cycle.Sound.{IsLoop, find_cycles-IsLoop}
use kakesu.Backlog.Cycle.Fuel.{unseen}
use kakesu.Backlog.Cycle.Termination.{visit_total}
use kakesu.Backlog.Cycle.Exact.{find_cycles_exact}

abbrev task : String → List String → Task
task x ds = record { id = x; depends_on = some ds }

abbrev looping : List Task
looping = task "A" ("B" ∷ []) ∷ task "B" ("C" ∷ "B" ∷ []) ∷ []

abbrev layered : List Task
layered = task "A" ("B" ∷ "C" ∷ []) ∷ task "B" ("C" ∷ []) ∷ task "C" [] ∷ []

abbrev searched : Search
searched = record {
  visiting = [];
  visited = "A" ∷ "B" ∷ "C" ∷ [];
  cycles = ("A" ∷ "B" ∷ "B" ∷ []) ∷ [];
}

reports_a_loop : find_cycles looping ≡ some searched
unfolding find_cycles visit_tasks visit visit_each dependencies has remove
reports_a_loop = refl

accepts_layers :
    find_cycles layered
    ≡ some (record { visiting = []; visited = "A" ∷ "B" ∷ "C" ∷ []; cycles = [] })
unfolding find_cycles visit_tasks visit visit_each dependencies has remove
accepts_layers = refl

find_cycles_exact_example :
    (s : Search) × (find_cycles looping ≡ some s)
    × ((s.cycles ≡ []) ↔ ((x : String) → ¬ Walk looping x x))
find_cycles_exact_example = find_cycles_exact looping

find_cycles-IsLoop_example : All (IsLoop looping) (("A" ∷ "B" ∷ "B" ∷ []) ∷ [])
find_cycles-IsLoop_example = find_cycles-IsLoop looping searched reports_a_loop

find_cycles-IsTopological_example :
    IsTopological layered ("A" ∷ "B" ∷ "C" ∷ [])
    × All (λ (t : Task). has t.id ("A" ∷ "B" ∷ "C" ∷ []) ≡ true) layered
find_cycles-IsTopological_example = find_cycles-IsTopological layered _ accepts_layers refl

-- The visit of A is open when B is visited for it.
abbrev inside_a : Search
inside_a = record { visiting = "A" ∷ []; visited = []; cycles = [] }

visit_total_example :
    (after : Search) × (visit looping (unseen looping ("A" ∷ []) + 2) "B" ("A" ∷ []) inside_a
      ≡ some after)
    × (visit looping 9 "B" ("A" ∷ []) inside_a ≡ some after)
    × (after.visiting ≡ "A" ∷ [])
unfolding unseen has
visit_total_example = visit_total looping 9 "B" ("A" ∷ []) inside_a (omega arith)
