-- ===== src/Backlog/Cycle/Termination.antt =====
-- The search is that of the program: its result does not depend on the fuel.
use kakesu.Prelude.{
  ℕ, zero, suc, ◌+◌, ◌≤◌, String, ◌≡◌, some, List, [], ◌∷◌, ◌++◌, inl, inr, arith, Bool-cases,
  Option, Option-cases,
}
use kakesu.Backlog.Cycle.{Task, Search, has, dependencies, visit_each, visit, enter}
use kakesu.Backlog.Cycle.Fuel.{unseen, visit-Ends}

visit_each-more :
    (go more : String → Search → Option Search)
    → ((d : String) (s r : Search) → go d s ≡ some r → more d s ≡ some r)
    → (ds : List String) (s : Search) {r : Search} → visit_each go ds s ≡ some r
    → visit_each more ds s ≡ some r
unfolding visit_each
visit_each-more go more same [] s h = h
visit_each-more go more same (d ∷ ds) s h = elim (Option-cases (go d s)) [
  | inl out ↦ let none_left = rw out at h in cc
  | inr (next, called) ↦
      rw (same d s next called) (visit_each-more go more same ds next (rw called at h))
]

-- More fuel changes no result.
visit-more :
    (tasks : List Task) (fuel more : ℕ) (x : String) (chain : List String) (s : Search) {r : Search}
    → fuel ≤ more
    → visit tasks fuel x chain s ≡ some r
    → visit tasks more x chain s ≡ some r
unfolding visit
visit-more tasks zero more x chain s le h = cc
visit-more tasks (suc fuel) zero x chain s le h = absurd (omega arith)
visit-more tasks (suc fuel) (suc more) x chain s {r} le h = elim (Bool-cases (has x s.visiting)) [
  | inl again ↦ rw again (rw again at h)
  | inr fresh ↦ elim (Bool-cases (has x s.visited)) [
    | inl seen ↦ rw (fresh, seen) (rw (fresh, seen) at h)
    | inr unseen_yet ↦
        let go : String → Search → Option Search = λ d. visit tasks fuel d (chain ++ x ∷ []) in
        let larger : String → Search → Option Search = λ d. visit tasks more d (chain ++ x ∷ []) in
        elim (Option-cases (visit_each go (dependencies tasks x) (enter x s))) [
          | inl out ↦ let none_left = rw (fresh, unseen_yet, out) at h in cc
          | inr (after, inside) ↦
              let same =
                visit_each-more go larger
                  (λ d t u e. visit-more tasks fuel more d (chain ++ x ∷ []) t (omega arith) e)
                  (dependencies tasks x) (enter x s) inside in
              rw (fresh, unseen_yet, same) (rw (fresh, unseen_yet, inside) at h)
        ]
  ]
]

-- A visit ends from every state of the search, whatever chain led to it and whatever the
-- dependencies, cycles and unknown ids included: two more nested calls than there are tasks whose
-- visit is not open are enough, more of them give the same result, and the open visits are
-- afterwards what they were.
pub visit_total :
    (tasks : List Task) (fuel : ℕ) (x : String) (chain : List String) (s : Search)
    → unseen tasks s.visiting + 2 ≤ fuel
    → (after : Search) × (visit tasks (unseen tasks s.visiting + 2) x chain s ≡ some after)
      × (visit tasks fuel x chain s ≡ some after)
      × (after.visiting ≡ s.visiting)
visit_total tasks fuel x chain s enough =
    let least = unseen tasks s.visiting + 2 in
    let (after, ended, same) = visit-Ends tasks least x chain s (omega arith) in
    (after, ended, visit-more tasks least fuel x chain s enough ended, same)
