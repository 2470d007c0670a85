-- ===== src/Backlog/Cycle/Finish.antt =====
-- A search that reports no cycle has visited the tasks in an order in which dependencies come
-- first.
use kakesu.Prelude.{
  ℕ, zero, suc, ◌+◌, String, ◌≡◌, refl, true, Option, none, some, List, [], ◌∷◌, ◌++◌, arith, inl,
  inr, Bool-cases, All, length,
}
use kakesu.Backlog.Cycle.{
  Task, Search, has, dependencies, visit_each, visit, visit_tasks, find_cycles, start, ◌>>=◌, enter,
  leave, report,
}
use kakesu.Backlog.Cycle.Walks.{has-head, has-tail, IsTopological}

-- From `s` to `s'`: nothing visited is forgotten, no report is dropped, and without a report the
-- visited tasks stay in order.
record Grows (tasks : List Task) (s s' : Search) : Type 0 where
  quiet : s'.cycles ≡ [] → s.cycles ≡ []
  kept : (x : String) → has x s.visited ≡ true → has x s'.visited ≡ true
  ordered : s'.cycles ≡ [] → IsTopological tasks s.visited → IsTopological tasks s'.visited

module _ {tasks : List Task} where
  Grows-refl : (s : Search) → Grows tasks s s
  Grows-refl s = record { quiet = λ e. e; kept = λ x h. h; ordered = λ e t. t }

  Grows-trans : {a b c : Search} → Grows tasks a b → Grows tasks b c → Grows tasks a c
  Grows-trans f g = record {
    quiet = λ e. f.quiet (g.quiet e);
    kept = λ x h. g.kept x (f.kept x h);
    ordered = λ e t. g.ordered e (f.ordered (g.quiet e) t);
  }

-- A visit of `x` from `s` that ended in `s'`.
record Visits (tasks : List Task) (x : String) (s s' : Search) : Type 0 where
  grows : Grows tasks s s'
  done : s'.cycles ≡ [] → has x s'.visited ≡ true

record VisitsAll (tasks : List Task) (xs : List String) (s s' : Search) : Type 0 where
  grows : Grows tasks s s'
  done : s'.cycles ≡ [] → All (λ x. has x s'.visited ≡ true) xs

pub bind-eq-some :
    (r : Option Search) (k : Search → Option Search) {s' : Search}
    → (r >>= k) ≡ some s'
    → (s : Search) × (r ≡ some s) × (k s ≡ some s')
bind-eq-some none k h = cc
bind-eq-some (some s) k h = (s, refl, h)

VisitsAll-visit_each :
    (tasks : List Task) (go : String → Search → Option Search)
    → ((d : String) (s s' : Search) → go d s ≡ some s' → Visits tasks d s s')
    → (ds : List String) (s s' : Search) → visit_each go ds s ≡ some s'
    → VisitsAll tasks ds s s'
unfolding visit_each
VisitsAll-visit_each tasks go visits [] s s' e =
    let same : s ≡ s' = ground arith in
    rw (← same) (record { grows = Grows-refl s; done = λ _. tt })
VisitsAll-visit_each tasks go visits (d ∷ ds) s s' e =
    let (mid, called, rest) = bind-eq-some (go d s) _ e in
    let first = visits d s mid called in
    let later = VisitsAll-visit_each tasks go visits ds mid s' rest in
    record {
      grows = Grows-trans first.grows later.grows;
      done = λ q. (later.grows.kept d (first.done (later.grows.quiet q)), later.done q);
    }

pub append-ne-nil {ℓ} : {A : Type ℓ} (xs : List A) (x : A) → (xs ++ x ∷ []) ≡ [] → ⊥
append-ne-nil [] x h = cc
append-ne-nil (y ∷ xs) x h = cc

Visits-report :
    (tasks : List Task) (x : String) (c : List String) (s : Search) → Visits tasks x s (report c s)
Visits-report tasks x c s = record {
  grows = record {
    quiet = λ e. absurd (append-ne-nil s.cycles c e);
    kept = λ y h. h;
    ordered = λ e t. t;
  };
  done = λ e. absurd (append-ne-nil s.cycles c e);
}

Visits-leave :
    (tasks : List Task) (x : String) (s after : Search)
    → VisitsAll tasks (dependencies tasks x) (enter x s) after
    → Visits tasks x s (leave x after)
Visits-leave tasks x s after all = record {
  grows = record {
    quiet = all.grows.quiet;
    kept = λ y h. has-tail y x after.visited (all.grows.kept y h);
    ordered = λ e t. (all.done e, all.grows.ordered e t);
  };
  done = λ e. has-head x after.visited;
}

Visits-visit :
    (tasks : List Task) (fuel : ℕ) (x : String) (chain : List String) (s s' : Search)
    → visit tasks fuel x chain s ≡ some s'
    → Visits tasks x s s'
unfolding visit
Visits-visit tasks zero x chain s s' e = cc
Visits-visit tasks (suc fuel) x chain s s' e = elim (Bool-cases (has x s.visiting)) [
  | inl again ↦
      let same : report (chain ++ x ∷ []) s ≡ s' = ground arith in
      rw (← same) (Visits-report tasks x (chain ++ x ∷ []) s)
  | inr fresh ↦ elim (Bool-cases (has x s.visited)) [
    | inl seen ↦
        let same : s ≡ s' = ground arith in
        rw (← same) (record { grows = Grows-refl s; done = λ _. seen })
    | inr unseen ↦
        let e' = rw (fresh, unseen) at e in
        let (after, called, left) = bind-eq-some _ _ e' in
        let same : leave x after ≡ s' = ground arith in
        rw (← same) (
          Visits-leave tasks x s after (
            VisitsAll-visit_each tasks (λ d. visit tasks fuel d (chain ++ x ∷ []))
              (λ d t t' c. Visits-visit tasks fuel d (chain ++ x ∷ []) t t' c)
              (dependencies tasks x) (enter x s) after called))
  ]
]

VisitsAll-visit_tasks :
    (tasks : List Task) (fuel : ℕ) (ts : List Task) (s s' : Search)
    → visit_tasks tasks fuel ts s ≡ some s'
    → Grows tasks s s' × (s'.cycles ≡ [] → All (λ (t : Task). has t.id s'.visited ≡ true) ts)
unfolding visit_tasks
VisitsAll-visit_tasks tasks fuel [] s s' e =
    let same : s ≡ s' = ground arith in rw (← same) (Grows-refl s, λ _. tt)
VisitsAll-visit_tasks tasks fuel (t ∷ ts) s s' e =
    let (mid, called, rest) = bind-eq-some (visit tasks fuel t.id [] s) _ e in
    let first = Visits-visit tasks fuel t.id [] s mid called in
    let (grows, done) = VisitsAll-visit_tasks tasks fuel ts mid s' rest in
    (Grows-trans first.grows grows, λ q. (grows.kept t.id (first.done (grows.quiet q)), done q))

-- A search that reports nothing has visited every task, and in its list of visited tasks every
-- dependency of an entry stands further down, so that it was finished before.
pub find_cycles-IsTopological :
    (tasks : List Task) (s : Search)
    → find_cycles tasks ≡ some s
    → s.cycles ≡ []
    → IsTopological tasks s.visited × All (λ (t : Task). has t.id s.visited ≡ true) tasks
unfolding find_cycles
find_cycles-IsTopological tasks s e quiet =
    let (grows, done) = VisitsAll-visit_tasks tasks (length tasks + 2) tasks start s e in
    (grows.ordered quiet tt, done quiet)
