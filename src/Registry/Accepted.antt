-- ===== src/Registry/Accepted.antt =====
-- What the backlog is once scripts/task/validate-work.mjs reports nothing for it.
use kakesu.Prelude.{
  String, true, false, ◌≡◌, refl, sym, ◌⊎◌, inl, inr, List, [], ◌∷◌, arith, All, All-map, any, map,
}
use kakesu.Js.{Value, str, prop, strict_eq, to_text}
use kakesu.Result.{ok}
use kakesu.Backlog.Cycle.Walks.{Walk}
use kakesu.Backlog.Cycle.Exact.{find_cycles_exact}
use kakesu.Work.Texts.{shaped}
use kakesu.Work.Node.{Node}
use kakesu.Check.Findings.Laws.{
  Clean, >>=-Clean, lift-Clean, reports-Quiet, Quiet, report_all-Clean, each-Clean, pure-Clean,
}
use kakesu.Check.Values.{one_of, text_or_empty}
use kakesu.Check.Phases.{task_statuses}
use kakesu.Check.Task.{check_task}
use kakesu.Registry.Entries.{
  has, listed, check_epics, epic_reports, entry_reports, dependency_reports, task_of,
  cycle_messages, check_entries, task_errors, check_dependencies, check_backlog,
}

-- The value is the id of one of the entries.
abbrev pub IsId : List Value → Value → Type 0
IsId entries v = any (λ e. strict_eq (prop "id" e) v) entries ≡ true

-- No two entries have an id in common.
abbrev pub AllDistinct : List Value → Type 0
AllDistinct [] = Unit
AllDistinct (t ∷ ts) = All (λ u. strict_eq (prop "id" t) (prop "id" u) ≡ false) ts × AllDistinct ts

-- The ids in front of the ones before.
abbrev ids_onto : List Value → List Value → List Value
ids_onto seen [] = seen
ids_onto seen (t ∷ ts) = ids_onto (prop "id" t ∷ seen) ts

has-ids_onto :
    (seen ts : List Value) (v : Value)
    → has (ids_onto seen ts) v ≡ true
    → (has seen v ≡ true) ⊎ IsId ts v
has-ids_onto seen [] v h = inl h
has-ids_onto seen (t ∷ ts) v h = elim (has-ids_onto (prop "id" t ∷ seen) ts v h) [
  | inr later ↦ inr (ground arith)
  | inl before ↦ unfold has in ground arith
]

has-IsId : (ts : List Value) (v : Value) → has (ids_onto [] ts) v ≡ true → IsId ts v
unfolding has
has-IsId ts v h = elim (has-ids_onto [] ts v h) [ inl none_ ↦ cc | inr there ↦ there ]

check_epics-ids :
    (seen epics : List Value) {ids : List Value}
    → Clean (check_epics seen epics) ids
    → (ids ≡ ids_onto seen epics)
      × All (λ u. has seen (prop "id" u) ≡ false) epics
      × AllDistinct epics
unfolding check_epics epic_reports has
check_epics-ids seen [] h = (sym (pure-Clean _ h), tt, tt)
check_epics-ids seen (e ∷ es) h =
    let (_, _, h1) = >>=-Clean _ _ h in
    let (_, quiet, h2) = >>=-Clean _ _ h1 in
    let (_, (fresh, _)) = reports-Quiet _ quiet in
    let (same, unseen, distinct) = check_epics-ids (prop "id" e ∷ seen) es h2 in
    (
      same,
      (fresh, All-map (λ u n. ground arith) es unseen),
      (All-map (λ u n. ground arith) es unseen, distinct),
    )

-- What the first loop accepts of a task.
abbrev pub IsEntry : List Value → Value → Type 0
IsEntry epic_ids task =
    (shaped "TASK-####" (text_or_empty (prop "id" task)) ≡ true)
    × (one_of task_statuses (prop "status" task) ≡ true)
    × (has epic_ids (prop "epic" task) ≡ true)

dependency_reports-IsKnown :
    (ids : List Value) (id : Value) (ds : List Value)
    → Quiet (dependency_reports ids id ds)
    → All (λ d. has ids d ≡ true) ds
unfolding dependency_reports
dependency_reports-IsKnown ids id [] q = tt
dependency_reports-IsKnown ids id (d ∷ ds) (known, (other, q)) =
    (ground arith, dependency_reports-IsKnown ids id ds q)

map-eq-nil : {A B : Type 0} (f : A → B) (xs : List A) → map f xs ≡ [] → xs ≡ []
map-eq-nil f [] h = refl
map-eq-nil f (x ∷ xs) h = cc

cycle_messages-acyclic :
    (tasks : List Value) → cycle_messages tasks ≡ [] → (x : String) → ¬ Walk (map task_of tasks) x x
unfolding cycle_messages
cycle_messages-acyclic tasks h =
    let (s, found, quiet) = find_cycles_exact (map task_of tasks) in
    quiet.0 (map-eq-nil _ s.cycles (rw (cycle_messages, found) at h))

module _ (node : Node) (root : String) where
  check_entries-IsEntry :
      (epic_ids seen tasks : List Value) {ids : List Value}
      → Clean (check_entries node root epic_ids seen tasks) ids
      → (ids ≡ ids_onto seen tasks)
        × All (λ u. has seen (prop "id" u) ≡ false) tasks
        × AllDistinct tasks
        × All (IsEntry epic_ids) tasks
  unfolding check_entries entry_reports has
  check_entries-IsEntry epic_ids seen [] h = (sym (pure-Clean _ h), tt, tt, tt)
  check_entries-IsEntry epic_ids seen (t ∷ ts) h =
      let (_, _, h1) = >>=-Clean _ _ h in
      let (_, _, h2) = >>=-Clean _ _ h1 in
      let (_, quiet, h3) = >>=-Clean _ _ h2 in
      let (shape, (fresh, (epic, (status, _)))) = reports-Quiet _ quiet in
      let (same, unseen, distinct, entries) =
        check_entries-IsEntry epic_ids (prop "id" t ∷ seen) ts h3 in
      (
        same,
        (fresh, All-map (λ u n. ground arith) ts unseen),
        (All-map (λ u n. ground arith) ts unseen, distinct),
        ((ground arith, ground arith, ground arith), entries),
      )

  -- A task of the backlog that is in order: its id, its status, its epic, what it depends on, and
  -- what `checkTask` says of it.
  abbrev pub IsRegistered : Value → List Value → List Value → Value → Type 0
  IsRegistered backlog epics tasks task =
      (id : String) × (dependencies : List Value) × (prop "id" task ≡ str id)
      × (shaped "TASK-####" id ≡ true)
      × (one_of task_statuses (prop "status" task) ≡ true)
      × IsId epics (prop "epic" task)
      × (listed (prop "depends_on" task) ≡ ok dependencies)
      × All (IsId tasks) dependencies
      × (check_task node root backlog id "full" ≡ [])

  task_errors-str :
      (backlog id : Value)
      → task_errors node root backlog id ≡ []
      → (i : String) × (id ≡ str i) × (check_task node root backlog i "full" ≡ [])
  task_errors-str backlog (str i) h = (i, refl, h)
  task_errors-str backlog id h = cc

  registered :
      (backlog : Value) (epics tasks : List Value) (task : Value)
      → IsEntry (ids_onto [] epics) task
      → Clean (check_dependencies node root backlog (ids_onto [] tasks) task) tt
      → IsRegistered backlog epics tasks task
  unfolding check_dependencies text_or_empty to_text
  registered backlog epics tasks task (shape, status, epic) h =
      let (dependencies, found, h1) = >>=-Clean _ _ h in
      let (_, quiet, h2) = >>=-Clean _ _ h1 in
      let (id, same, passes) = task_errors-str backlog (prop "id" task) (report_all-Clean _ h2) in
      let known = dependency_reports-IsKnown _ _ dependencies (reports-Quiet _ quiet) in
      (
        id,
        dependencies,
        same,
        rw same at shape,
        status,
        has-IsId epics _ epic,
        lift-Clean _ found,
        All-map (λ d k. has-IsId tasks d k) dependencies known,
        passes,
      )

  All-IsRegistered :
      (backlog : Value) (epics all_tasks tasks : List Value)
      → All (IsEntry (ids_onto [] epics)) tasks
      → All (λ t. Clean (check_dependencies node root backlog (ids_onto [] all_tasks) t) tt) tasks
      → All (IsRegistered backlog epics all_tasks) tasks
  All-IsRegistered backlog epics all_tasks [] e h = tt
  All-IsRegistered backlog epics all_tasks (t ∷ ts) (e, es) (h, hs) =
      (registered backlog epics all_tasks t e h, All-IsRegistered backlog epics all_tasks ts es hs)

  abbrev pub IsBacklog : Value → Type 0
  IsBacklog backlog =
      (epics : List Value) × (tasks : List Value) × (listed (prop "epics" backlog) ≡ ok epics)
      × (listed (prop "tasks" backlog) ≡ ok tasks)
      × AllDistinct epics
      × AllDistinct tasks
      × All (IsRegistered backlog epics tasks) tasks
      × ((x : String) → ¬ Walk (map task_of tasks) x x)

  -- A backlog for which nothing is reported has epics and tasks with distinct ids. Each task has a
  -- task id and a known status, belongs to an epic of the backlog, depends on tasks of the backlog
  -- only, never on itself through any chain, and is accepted by the task check.
  pub check_backlog-IsBacklog :
      (backlog : Value) → Clean (check_backlog node root backlog) tt → IsBacklog backlog
  unfolding check_backlog
  check_backlog-IsBacklog backlog h =
      let (epics, a, h1) = >>=-Clean _ _ h in
      let (epic_ids, b, h2) = >>=-Clean _ _ h1 in
      let (tasks, c, h3) = >>=-Clean _ _ h2 in
      let (ids, d, h4) = >>=-Clean _ _ h3 in
      let (_, loop, last) = >>=-Clean _ _ h4 in
      let (same_epics, _, distinct_epics) = check_epics-ids [] epics b in
      let (same, _, distinct, entries) = check_entries-IsEntry epic_ids [] tasks d in
      let checked = each-Clean (check_dependencies node root backlog ids) tasks loop in
      (
        epics,
        tasks,
        lift-Clean _ a,
        lift-Clean _ c,
        distinct_epics,
        distinct,
        All-IsRegistered backlog epics tasks tasks (rw same_epics at entries) (rw same at checked),
        cycle_messages-acyclic tasks (report_all-Clean _ last),
      )
