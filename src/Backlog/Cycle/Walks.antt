-- ===== src/Backlog/Cycle/Walks.antt =====
-- Walks along the dependencies of a backlog, and orders in which every dependency comes first.
use kakesu.Prelude.{
  String, ◌≡◌, refl, ◌⊎◌, inl, inr, true, false, List, [], ◌∷◌, arith, eq_iff, eq_refl, All,
}
use kakesu.Backlog.Cycle.{Task, has, remove, dependencies}

pub has-head : (x : String) (xs : List String) → has x (x ∷ xs) ≡ true
unfolding has
has-head x xs = ground (arith, eq_refl x)

pub has-tail : (x y : String) (xs : List String) → has x xs ≡ true → has x (y ∷ xs) ≡ true
unfolding has
has-tail x y xs h = ground arith

pub has-cons :
    (x y : String) (xs : List String) → has x (y ∷ xs) ≡ true → (y ≡ x) ⊎ (has x xs ≡ true)
unfolding has
has-cons x y xs h = ground (arith, eq_iff y x)

pub All-has :
    (P : String → Type 0) (x : String) (xs : List String) → All P xs → has x xs ≡ true → P x
unfolding has
All-has P x [] h m = cc
All-has P x (y ∷ ys) (p, h) m = ground (arith, eq_iff y x, All-has P x ys h)

pub remove-absent : (x : String) (xs : List String) → has x xs ≡ false → remove x xs ≡ xs
unfolding has remove
remove-absent x [] h = refl
remove-absent x (y ∷ ys) h = ground (arith, remove-absent x ys)

pub remove-head : (x : String) (xs : List String) → has x xs ≡ false → remove x (x ∷ xs) ≡ xs
unfolding remove
remove-head x xs h = ground (arith, eq_refl x, remove-absent x xs h)

module _ (tasks : List Task) where
  -- A walk of one step or more, each from a task to one of its dependencies.
  pub data Walk : String → String → Type 0 where
    one : {x y : String} → has y (dependencies tasks x) ≡ true → Walk x y
    step : {x y z : String} → has y (dependencies tasks x) ≡ true → Walk y z → Walk x z

  -- Every dependency of an entry stands further down the list.
  abbrev pub IsTopological : List String → Type 0
  IsTopological [] = Unit
  IsTopological (x ∷ v) = All (λ d. has d v ≡ true) (dependencies tasks x) × IsTopological v

  -- The entries of such a list are closed under dependencies.
  dependency-has :
      (v : List String) (x d : String)
      → IsTopological v
      → has x v ≡ true
      → has d (dependencies tasks x) ≡ true
      → has d v ≡ true
  dependency-has [] x d topo m e = unfold has in cc
  dependency-has (y ∷ v) x d (below, topo) m e = elim (has-cons x y v m) [
    | inl same ↦
        has-tail d y v (All-has (λ a. has a v ≡ true) d (dependencies tasks y) below (rw same e))
    | inr later ↦ has-tail d y v (dependency-has v x d topo later e)
  ]

  Walk-has :
      {x y : String} (v : List String)
      → IsTopological v
      → has x v ≡ true
      → Walk x y
      → has y v ≡ true
  Walk-has {x} {y} v topo m (one e) = dependency-has v x y topo m e
  Walk-has {x} v topo m (step {y = d} e w) = Walk-has v topo (dependency-has v x d topo m e) w

  Walk-below :
      {x y : String} (v : List String)
      → IsTopological v
      → All (λ d. has d v ≡ true) (dependencies tasks x)
      → Walk x y
      → has y v ≡ true
  Walk-below {x} {y} v topo below (one e) =
      All-has (λ a. has a v ≡ true) y (dependencies tasks x) below e
  Walk-below {x} v topo below (step {y = d} e w) =
      Walk-has v topo (All-has (λ a. has a v ≡ true) d (dependencies tasks x) below e) w

  -- No entry of such a list lies on a closed walk.
  pub no_closed-Walk :
      (v : List String) (x : String) → IsTopological v → has x v ≡ true → Walk x x → ⊥
  no_closed-Walk [] x topo m w = unfold has in cc
  no_closed-Walk (y ∷ v) x (below, topo) m w = elim (has-cons x y v m) [
    | inl same ↦ no_closed-Walk v x topo (Walk-below v topo (rw same at below) w) w
    | inr later ↦ no_closed-Walk v x topo later w
  ]
