-- ===== src/Backlog/Cycle/Sound.antt =====
-- Every chain that the search reports runs along dependencies into a loop.
use kakesu.Prelude.{
  ℕ, zero, suc, ◌+◌, String, ◌≡◌, refl, ◌∙◌, true, false, Option, some, List, [], ◌∷◌, ◌++◌, arith,
  inl, inr, Bool-cases, All, All-append, length,
}
use kakesu.Backlog.Cycle.{
  Task, Search, has, dependencies, visit_each, visit, visit_tasks, find_cycles, start, enter, leave,
  report,
}
use kakesu.Backlog.Cycle.Walks.{has-head, has-tail, has-cons, remove-head, Walk, one, step}
use kakesu.Backlog.Cycle.Finish.{bind-eq-some}

module _ (tasks : List Task) where
  -- Each entry of the list is a dependency of the one before it.
  abbrev pub IsTrail : List String → Type 0
  IsTrail [] = Unit
  IsTrail (x ∷ []) = Unit
  IsTrail (x ∷ y ∷ r) = (has y (dependencies tasks x) ≡ true) × IsTrail (y ∷ r)

  -- A trail whose last entry stands in it before.
  pub record IsLoop (c : List String) : Type 0 where
    pub body : List String
    pub last : String
    pub shape : c ≡ body ++ last ∷ []
    pub again : has last body ≡ true
    pub trail : IsTrail c

  IsTrail-append :
      (c : List String) (x d : String)
      → IsTrail (c ++ x ∷ [])
      → has d (dependencies tasks x) ≡ true
      → IsTrail ((c ++ x ∷ []) ++ d ∷ [])
  IsTrail-append [] x d t h = (h, tt)
  IsTrail-append (a ∷ []) x d t h = (t.0, (h, tt))
  IsTrail-append (a ∷ b ∷ c) x d t h = (t.0, IsTrail-append (b ∷ c) x d t.1 h)

  trail-Walk :
      (body : List String) (x y : String)
      → IsTrail (body ++ y ∷ [])
      → has x body ≡ true
      → Walk tasks x y
  trail-Walk [] x y t h = unfold has in cc
  trail-Walk (a ∷ []) x y t h = elim (has-cons x a [] h) [
    | inl same ↦ rw (← same) (one t.0)
    | inr later ↦ unfold has in cc
  ]
  trail-Walk (a ∷ b ∷ body) x y t h = elim (has-cons x a (b ∷ body) h) [
    | inl same ↦ rw (← same) (step t.0 (trail-Walk (b ∷ body) b y t.1 (has-head b body)))
    | inr later ↦ trail-Walk (b ∷ body) x y t.1 later
  ]

  -- What a call keeps: the open visits, and that every report is a loop.
  record Keeps (s s' : Search) : Type 0 where
    open_visits : s'.visiting ≡ s.visiting
    loops : All IsLoop s.cycles → All IsLoop s'.cycles

  Keeps-refl : (s : Search) → Keeps s s
  Keeps-refl s = record { open_visits = refl; loops = λ h. h }

  Keeps-trans : {a b c : Search} → Keeps a b → Keeps b c → Keeps a c
  Keeps-trans f g = record {
    open_visits = g.open_visits ∙ f.open_visits;
    loops = λ h. g.loops (f.loops h);
  }

  -- `chain` holds the open visits, and goes on to `x`.
  record Leads (s : Search) (chain : List String) (x : String) : Type 0 where
    holds : (y : String) → has y s.visiting ≡ true → has y chain ≡ true
    trail : IsTrail (chain ++ x ∷ [])

  Leads-Keeps :
      {s s' : Search} {chain : List String} {x : String}
      → Keeps s s'
      → Leads s chain x
      → Leads s' chain x
  Leads-Keeps k l = record { holds = λ y h. l.holds y (rw (← k.open_visits) h); trail = l.trail }

  Keeps-visit_each :
      (go : String → Search → Option Search) (chain : List String)
      → ((d : String) (s s' : Search) → go d s ≡ some s' → Leads s chain d → Keeps s s')
      → (ds : List String) (s s' : Search) → visit_each go ds s ≡ some s'
      → ((d : String) → has d ds ≡ true → Leads s chain d)
      → Keeps s s'
  unfolding visit_each
  Keeps-visit_each go chain keeps [] s s' e leads =
      let same : s ≡ s' = ground arith in rw (← same) (Keeps-refl s)
  Keeps-visit_each go chain keeps (d ∷ ds) s s' e leads =
      let (mid, called, rest) = bind-eq-some (go d s) _ e in
      let first = keeps d s mid called (leads d (has-head d ds)) in
      Keeps-trans first (
        Keeps-visit_each go chain keeps ds mid s' rest
          λ a h. Leads-Keeps first (leads a (has-tail a d ds h)))

  Keeps-leave :
      (x : String) (s after : Search)
      → has x s.visiting ≡ false
      → Keeps (enter x s) after
      → Keeps s (leave x after)
  Keeps-leave x s after fresh k = record {
    open_visits = rw k.open_visits (remove-head x s.visiting fresh);
    loops = k.loops;
  }

  has-append : (c : List String) (x y : String) → has y c ≡ true → has y (c ++ x ∷ []) ≡ true
  unfolding has
  has-append [] x y h = cc
  has-append (a ∷ c) x y h = ground (arith, has-append c x y)

  has-append_last : (c : List String) (x : String) → has x (c ++ x ∷ []) ≡ true
  has-append_last [] x = has-head x []
  has-append_last (a ∷ c) x = has-tail x a (c ++ x ∷ []) (has-append_last c x)

  Leads-enter :
      (s : Search) (chain : List String) (x d : String)
      → Leads s chain x
      → has d (dependencies tasks x) ≡ true
      → Leads (enter x s) (chain ++ x ∷ []) d
  Leads-enter s chain x d l h = record {
    holds = λ y m. elim (has-cons y x s.visiting m) [
      | inl same ↦ rw same (has-append_last chain y)
      | inr old ↦ has-append chain x y (l.holds y old)
    ];
    trail = IsTrail-append chain x d l.trail h;
  }

  Keeps-report :
      (s : Search) (chain : List String) (x : String)
      → Leads s chain x
      → has x s.visiting ≡ true
      → Keeps s (report (chain ++ x ∷ []) s)
  Keeps-report s chain x l again = record {
    open_visits = refl;
    loops = λ h. All-append IsLoop s.cycles ((chain ++ x ∷ []) ∷ []) h (
      record { body = chain; last = x; shape = refl; again = l.holds x again; trail = l.trail },
      tt,
    );
  }

  Keeps-visit :
      (fuel : ℕ) (x : String) (chain : List String) (s s' : Search)
      → visit tasks fuel x chain s ≡ some s'
      → Leads s chain x
      → Keeps s s'
  unfolding visit
  Keeps-visit zero x chain s s' e l = cc
  Keeps-visit (suc fuel) x chain s s' e l = elim (Bool-cases (has x s.visiting)) [
    | inl again ↦
        let same : report (chain ++ x ∷ []) s ≡ s' = ground arith in
        rw (← same) (Keeps-report s chain x l again)
    | inr fresh ↦ elim (Bool-cases (has x s.visited)) [
      | inl seen ↦ let same : s ≡ s' = ground arith in rw (← same) (Keeps-refl s)
      | inr unseen ↦
          let e' = rw (fresh, unseen) at e in
          let (after, called, left) = bind-eq-some _ _ e' in
          let same : leave x after ≡ s' = ground arith in
          rw (← same) (
            Keeps-leave x s after fresh (
              Keeps-visit_each (λ d. visit tasks fuel d (chain ++ x ∷ [])) (chain ++ x ∷ [])
                (λ d t t' c m. Keeps-visit fuel d (chain ++ x ∷ []) t t' c m) (dependencies tasks x)
                (enter x s) after called λ d h. Leads-enter s chain x d l h))
    ]
  ]

  Keeps-visit_tasks :
      (fuel : ℕ) (ts : List Task) (s s' : Search)
      → visit_tasks tasks fuel ts s ≡ some s'
      → s.visiting ≡ []
      → Keeps s s'
  unfolding visit_tasks
  Keeps-visit_tasks fuel [] s s' e h =
      let same : s ≡ s' = ground arith in rw (← same) (Keeps-refl s)
  Keeps-visit_tasks fuel (t ∷ ts) s s' e h =
      let (mid, called, rest) = bind-eq-some (visit tasks fuel t.id [] s) _ e in
      let first =
        Keeps-visit fuel t.id [] s mid called (record { holds = λ y m. rw h at m; trail = tt }) in
      Keeps-trans first (Keeps-visit_tasks fuel ts mid s' rest (first.open_visits ∙ h))

  -- Every reported chain follows dependencies, and its last task stands in it before.
  pub find_cycles-IsLoop : (s : Search) → find_cycles tasks ≡ some s → All IsLoop s.cycles
  unfolding find_cycles
  find_cycles-IsLoop s e = (Keeps-visit_tasks (length tasks + 2) tasks start s e refl).loops tt

  -- What a loop says of the backlog: some task depends on itself along a walk.
  pub loop-Walk : (c : List String) → IsLoop c → (x : String) × Walk tasks x x
  loop-Walk c l = (l.last, trail-Walk l.body l.last l.last (rw (← l.shape) l.trail) l.again)
