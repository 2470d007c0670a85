-- ===== src/Backlog/Cycle/Fuel.antt =====
-- The search ends: two more than the number of tasks is fuel enough for every call.
use kakesu.Prelude.{
  ℕ, zero, suc, ◌+◌, ◌≤◌, String, ◌≡◌, refl, ◌∙◌, false, Option, some, List, [], ◌∷◌, ◌++◌, ◌⊎◌,
  inl, inr, arith, ◌==◌, eq_iff, eq_refl, Bool-cases, length, if◌then◌else◌,
}
use kakesu.Backlog.Cycle.{
  Task, Search, has, dependencies, visit_each, visit, visit_tasks, find_cycles, start, ◌>>=◌, enter,
  leave, report,
}
use kakesu.Backlog.Cycle.Walks.{remove-head}

-- The tasks whose visit is not open.
unfoldable pub unseen : List Task → List String → ℕ
unseen [] v = 0
unseen (t ∷ ts) v = (if has t.id v then 0 else 1) + unseen ts v

unseen-le-length : (ts : List Task) (v : List String) → unseen ts v ≤ length ts
unfolding unseen
unseen-le-length [] v = omega arith
unseen-le-length (t ∷ ts) v = ground (arith, unseen-le-length ts v)

unseen-cons-le : (ts : List Task) (x : String) (v : List String) → unseen ts (x ∷ v) ≤ unseen ts v
unfolding unseen has
unseen-cons-le [] x v = omega arith
unseen-cons-le (t ∷ ts) x v = ground (arith, unseen-cons-le ts x v)

-- A task that is entered is one less.
unseen-cons-lt :
    (ts : List Task) (x : String) (v : List String)
    → has x v ≡ false
    → (dependencies ts x ≡ []) ⊎ (unseen ts (x ∷ v) + 1 ≤ unseen ts v)
unfolding unseen has dependencies
unseen-cons-lt [] x v h = inl refl
unseen-cons-lt (t ∷ ts) x v h = elim (Bool-cases (t.id == x)) [
  | inl same ↦
      let e = (eq_iff t.id x).0 same in inr (ground (arith, eq_refl x, unseen-cons-le ts x v))
  | inr other ↦ ground (arith, eq_iff t.id x, eq_iff x t.id, unseen-cons-lt ts x v h)
]

-- A call that ends, with the open visits as they were.
abbrev pub Ends : Option Search → List String → Type 0
Ends r v = (s : Search) × (r ≡ some s) × (s.visiting ≡ v)

at-Ends : {r : Option Search} {v w : List String} → v ≡ w → Ends r v → Ends r w
at-Ends same (s, e, h) = (s, e, h ∙ same)

visit_each-Ends :
    (go : String → Search → Option Search) (v : List String)
    → ((d : String) (s : Search) → s.visiting ≡ v → Ends (go d s) v)
    → (ds : List String) (s : Search) → s.visiting ≡ v
    → Ends (visit_each go ds s) v
unfolding visit_each
visit_each-Ends go v ends [] s h = (s, refl, h)
visit_each-Ends go v ends (d ∷ ds) s h =
    let (s', called, h') = ends d s h in rw called (visit_each-Ends go v ends ds s' h')

leave-Ends :
    (x : String) (v : List String) (r : Option Search)
    → has x v ≡ false
    → Ends r (x ∷ v)
    → Ends (r >>= λ after. some (leave x after)) v
leave-Ends x v r fresh (s, e, h) = rw e (leave x s, refl, rw h (remove-head x v fresh))

-- What an entered visit does: the dependencies in turn, then the task itself is left.
inside-Ends :
    (tasks : List Task) (fuel : ℕ) (x : String) (chain : List String) (s : Search)
    → has x s.visiting ≡ false
    → ((d : String) (s' : Search)
        → s'.visiting ≡ x ∷ s.visiting
        → unseen tasks (x ∷ s.visiting) + 1 ≤ unseen tasks s.visiting
        → Ends (visit tasks fuel d chain s') (x ∷ s.visiting))
    → Ends
        (visit_each (λ d. visit tasks fuel d chain) (dependencies tasks x) (enter x s))
        (x ∷ s.visiting)
unfolding visit_each
inside-Ends tasks fuel x chain s fresh ends = elim (unseen-cons-lt tasks x s.visiting fresh) [
  | inl leaf ↦ rw leaf (enter x s, refl, refl)
  | inr less ↦
      visit_each-Ends (λ d. visit tasks fuel d chain) (x ∷ s.visiting) (λ d s' h. ends d s' h less)
        (dependencies tasks x) (enter x s) refl
]

pub visit-Ends :
    (tasks : List Task) (fuel : ℕ) (x : String) (chain : List String) (s : Search)
    → unseen tasks s.visiting + 2 ≤ fuel
    → Ends (visit tasks fuel x chain s) s.visiting
unfolding visit
visit-Ends tasks zero x chain s h = absurd (omega arith)
visit-Ends tasks (suc fuel) x chain s h = elim (Bool-cases (has x s.visiting)) [
  | inl again ↦ rw again (report (chain ++ x ∷ []) s, refl, refl)
  | inr fresh ↦ elim (Bool-cases (has x s.visited)) [
    | inl seen ↦ rw (fresh, seen) (s, refl, refl)
    | inr unseen_yet ↦
        rw (fresh, unseen_yet)
          (leave-Ends x s.visiting _ fresh (
            inside-Ends tasks fuel x (chain ++ x ∷ []) s fresh λ d s' e less.
              let enough : unseen tasks s'.visiting + 2 ≤ fuel = rw e (omega arith) in
              at-Ends e (visit-Ends tasks fuel d (chain ++ x ∷ []) s' enough)))
  ]
]

visit_tasks-Ends :
    (tasks : List Task) (fuel : ℕ) (ts : List Task) (s : Search)
    → unseen tasks s.visiting + 2 ≤ fuel
    → Ends (visit_tasks tasks fuel ts s) s.visiting
unfolding visit_tasks
visit_tasks-Ends tasks fuel [] s h = (s, refl, refl)
visit_tasks-Ends tasks fuel (t ∷ ts) s h =
    let (s', called, same) = visit-Ends tasks fuel t.id [] s h in
    rw called (at-Ends same (visit_tasks-Ends tasks fuel ts s' (rw same h)))

-- The search of a whole backlog never runs out of fuel, whatever the dependencies, cycles and
-- unknown ids included, and no visit is left open.
pub find_cycles_total :
    (tasks : List Task) → (s : Search) × (find_cycles tasks ≡ some s) × (s.visiting ≡ [])
unfolding find_cycles
find_cycles_total tasks =
    visit_tasks-Ends tasks (length tasks + 2) tasks start (omega (arith, unseen-le-length tasks []))
