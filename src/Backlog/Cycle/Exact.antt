-- ===== src/Backlog/Cycle/Exact.antt =====
-- The search for cycles is exact: it reports something just when the backlog has a cycle.
use kakesu.Prelude.{String, ◌≡◌, refl, true, some, List, [], ◌∷◌, ◌↔◌, arith, All, eq_iff}
use kakesu.Backlog.Cycle.{Task, Search, has, dependencies, find_cycles}
use kakesu.Backlog.Cycle.Walks.{Walk, one, step, no_closed-Walk}
use kakesu.Backlog.Cycle.Fuel.{find_cycles_total}
use kakesu.Backlog.Cycle.Finish.{find_cycles-IsTopological}
use kakesu.Backlog.Cycle.Sound.{IsLoop, loop-Walk, find_cycles-IsLoop}

-- Only a task that is listed has dependencies.
dependencies-listed :
    (P : String → Type 0) (tasks : List Task) (x d : String)
    → All (λ (t : Task). P t.id) tasks
    → has d (dependencies tasks x) ≡ true
    → P x
unfolding dependencies has
dependencies-listed P [] x d all h = cc
dependencies-listed P (t ∷ ts) x d (p, all) h =
    ground (arith, eq_iff t.id x, dependencies-listed P ts x d all)

walk-listed :
    (P : String → Type 0) (tasks : List Task) {x y : String}
    → All (λ (t : Task). P t.id) tasks
    → Walk tasks x y
    → P x
walk-listed P tasks {x} {y} all (one e) = dependencies-listed P tasks x y all e
walk-listed P tasks {x} all (step {y = d} e w) = dependencies-listed P tasks x d all e

quiet_of_acyclic :
    (tasks : List Task) (cycles : List (List String))
    → All (IsLoop tasks) cycles
    → ((x : String) → ¬ Walk tasks x x)
    → cycles ≡ []
quiet_of_acyclic tasks [] loops acyclic = refl
quiet_of_acyclic tasks (c ∷ cs) (l, _) acyclic =
    let (x, w) = loop-Walk tasks c l in absurd (acyclic x w)

-- The search ends on every backlog, and it reports nothing exactly when no task depends on itself,
-- directly or through other tasks.
pub find_cycles_exact :
    (tasks : List Task)
    → (s : Search) × (find_cycles tasks ≡ some s)
      × ((s.cycles ≡ []) ↔ ((x : String) → ¬ Walk tasks x x))
find_cycles_exact tasks =
    let (s, e, _) = find_cycles_total tasks in
    (
      s,
      e,
      (
        λ quiet x w.
            let (topo, all) = find_cycles-IsTopological tasks s e quiet in
            no_closed-Walk tasks s.visited x topo
              (walk-listed (λ i. has i s.visited ≡ true) tasks all w) w,
        quiet_of_acyclic tasks s.cycles (find_cycles-IsLoop tasks s e),
      ),
    )
