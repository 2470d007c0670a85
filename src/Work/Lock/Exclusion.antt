-- ===== src/Work/Lock/Exclusion.antt =====
-- Two processes never have the lock of scripts/task/lib.mjs at once.
use kakesu.Prelude.{
  ℕ, ◌≡◌, refl, sym, ◌∙◌, inl, inr, Bool-cases, Bool, true, false, some, none, arith,
}
use kakesu.Work.Lock.{
  Directory, Phase, outside, blocked, probing, stale, cleared, made, written, holding, releasing,
  gone, State, is_gone, next, place, advance, ended, owns, recovers, IsCalm, Step, act, end, Runs,
  here, more, free,
}
use kakesu.Work.Lock.Invariant.{
  is_there, over, Inv, free-Inv, recovers-same, owns-recovers, end-Inv,
}

module _ (s : State) (inv : Inv s) (p : ℕ) where
  open inv use {lone, kept, named, left_there, unowned, sole}

  -- A step that leaves the directory as it is, of a process that does not come to own or recover.
  aside :
      (x : Phase)
      → is_gone x ≡ is_gone (s.phases p)
      → owns x ≡ false
      → recovers (over s) x ≡ false
      → Inv (place p x s.dir s)
  aside x b o c =
      let same = λ (y : Phase). recovers-same s p x s.dir y b in
      record {
        lone = λ q r h k. ground (arith, lone q r);
        kept = λ q h. ground (arith, kept q);
        named = λ q r h k. ground (arith, named q r);
        left_there = λ q h. ground (arith, left_there q, same (s.phases q), same x);
        unowned = λ q r h. ground (arith, unowned q r, same (s.phases q), same x);
        sole = λ q r h k. ground (arith, sole q r, same (s.phases q), same (s.phases r), same x);
      }

  -- The one process that has the lock, or comes to it, keeps it.
  taken :
      (x : Phase) (d : Directory)
      → is_gone x ≡ is_gone (s.phases p)
      → ((q : ℕ) → owns (s.phases q) ≡ true → q ≡ p)
      → ((q : ℕ) → recovers (over s) (s.phases q) ≡ false)
      → is_there d ≡ true
      → ((q : ℕ) → d ≡ some (some q) → q ≡ p)
      → owns x ≡ true
      → Inv (place p x d s)
  taken x d b alone calm there mine owner =
      let same = λ (y : Phase). recovers-same s p x d y b in
      let own = owns-recovers (over s) x owner in
      record {
        lone = λ q r h k. ground (arith, alone q, alone r);
        kept = λ q h. there;
        named = λ q r h k. ground (arith, alone q, mine r);
        left_there = λ q h. there;
        unowned = λ q r h. absurd (ground (arith, calm q, same (s.phases q), same x));
        sole = λ q r h k. absurd (ground (arith, calm q, same (s.phases q), same x));
      }

  -- The directory is removed by the one process that may.
  removed :
      (x : Phase)
      → is_gone x ≡ is_gone (s.phases p)
      → ((q : ℕ) → owns (s.phases q) ≡ true → q ≡ p)
      → ((q : ℕ) → recovers (over s) (s.phases q) ≡ true → q ≡ p)
      → owns x ≡ false
      → recovers (over s) x ≡ false
      → Inv (place p x none s)
  removed x b alone only o c =
      let same = λ (y : Phase). recovers-same s p x none y b in
      record {
        lone = λ q r h k. absurd (ground (arith, alone q));
        kept = λ q h. absurd (ground (arith, alone q));
        named = λ q r h k. absurd (ground arith);
        left_there = λ q h. absurd (ground (arith, only q, same (s.phases q), same x));
        unowned = λ q r h. absurd (ground (arith, only q, same (s.phases q), same x));
        sole = λ q r h k. absurd (ground (arith, only q, same (s.phases q), same x));
      }

  -- The one process that recovers goes on, while nobody has the lock.
  recovering :
      (x : Phase)
      → is_gone x ≡ is_gone (s.phases p)
      → is_there s.dir ≡ true
      → ((q : ℕ) → owns (s.phases q) ≡ false)
      → ((q : ℕ) → recovers (over s) (s.phases q) ≡ true → q ≡ p)
      → owns x ≡ false
      → Inv (place p x s.dir s)
  recovering x b there nobody only o =
      let same = λ (y : Phase). recovers-same s p x s.dir y b in
      record {
        lone = λ q r h k. absurd (ground (arith, nobody q));
        kept = λ q h. there;
        named = λ q r h k. absurd (ground (arith, nobody q));
        left_there = λ q h. there;
        unowned = λ q r h. ground (arith, nobody r);
        sole =
            λ q r h k. ground (arith, only q, only r, same (s.phases q), same (s.phases r), same x);
      }

  nobody : s.dir ≡ none → (q : ℕ) → owns (s.phases q) ≡ true → q ≡ p
  nobody e q h = absurd (ground (arith, kept q))

  calm_without : s.dir ≡ none → (q : ℕ) → recovers (over s) (s.phases q) ≡ false
  calm_without e q = elim (Bool-cases (recovers (over s) (s.phases q))) [
    | inl h ↦ absurd (ground (arith, left_there q))
    | inr h ↦ h
  ]

  calm_owned : owns (s.phases p) ≡ true → (q : ℕ) → recovers (over s) (s.phases q) ≡ false
  calm_owned o q = elim (Bool-cases (recovers (over s) (s.phases q))) [
    | inl h ↦ absurd (ground (arith, unowned q p))
    | inr h ↦ h
  ]

  the_owner :
      {x : Phase} → s.phases p ≡ x → owns x ≡ true → (q : ℕ) → owns (s.phases q) ≡ true → q ≡ p
  the_owner e o q h = lone q p h (ground arith)

  -- The owner keeps the directory as it is.
  stays :
      {x : Phase} (y : Phase) (d : Directory)
      → s.phases p ≡ x
      → s.dir ≡ d
      → owns x ≡ true
      → owns y ≡ true
      → is_gone y ≡ is_gone x
      → Inv (place p y d s)
  stays y d e f o o' b =
      let own : owns (s.phases p) ≡ true = rw e o in
      taken y d (rw e b) (the_owner e o) (calm_owned own) (rw (sym f) (kept p own))
        (λ q h. sym (named p q (f ∙ h) own)) o'

  made_it : s.dir ≡ none → is_gone (s.phases p) ≡ false → Inv (place p made (some none) s)
  made_it e b =
      taken made (some none) (sym b) (nobody e) (calm_without e) refl (λ q h. absurd (ground arith))
        refl

  -- A process that waits goes on to wait, or gives up.
  off :
      {x : Phase} (y : Phase) {d : Directory}
      → s.phases p ≡ x
      → s.dir ≡ d
      → is_gone y ≡ is_gone x
      → owns y ≡ false
      → recovers (over s) y ≡ false
      → Inv (place p y d s)
  off y e f b o c = rw (sym f) (aside y (rw e b) o c)

  advanced :
      (fails : Bool) (x : Phase) (d : Directory)
      → s.phases p ≡ x
      → s.dir ≡ d
      → (x ≡ blocked → IsCalm s)
      → Inv (place p (next (over s) fails p x d).0 (next (over s) fails p x d).1 s)
  unfolding next
  advanced false outside none e f r = made_it f (rw e refl)
  advanced true outside none e f r = off outside e f refl refl refl
  advanced fails outside (some owner) e f r = off blocked e f refl refl refl
  advanced fails blocked none e f r = off outside e f refl refl refl
  advanced fails blocked (some none) e f r = off outside e f refl refl refl
  advanced true blocked (some (some q)) e f r = off outside e f refl refl refl
  advanced false blocked (some (some q)) e f r = elim (Bool-cases (over s q)) [
    | inr runs ↦ off (probing q) e f refl refl runs
    | inl ended ↦ rw (sym f) (
        recovering (probing q) (rw e refl) (rw f refl)
          (λ t. elim (Bool-cases (owns (s.phases t))) [
            | inl h ↦ absurd (ground (arith, named t q f h))
            | inr h ↦ h
          ])
          (λ t h. absurd (ground (arith, r refl t))) refl)
  ]
  advanced fails (probing q) d e f r = elim (Bool-cases (over s q)) [
    | inr runs ↦ rw runs (off outside e f refl refl refl)
    | inl ended ↦
        let own : recovers (over s) (s.phases p) ≡ true = rw e ended in
        rw ended (
          rw (sym f) (
            recovering stale (rw e refl) (left_there p own) (λ t. unowned p t own)
              (λ t h. sole t p h own) refl))
  ]
  advanced true stale d e f r = off outside e f refl refl refl
  advanced false stale d e f r =
      let own : recovers (over s) (s.phases p) ≡ true = rw e refl in
      removed cleared (rw e refl) (λ t h. absurd (ground (arith, unowned p t own)))
        (λ t h. sole t p h own) refl refl
  advanced true cleared none e f r = off outside e f refl refl refl
  advanced false cleared none e f r = made_it f (rw e refl)
  advanced fails cleared (some owner) e f r = off outside e f refl refl refl
  advanced fails made none e f r = absurd (ground (arith, kept p))
  advanced true made (some owner) e f r =
      taken releasing (some owner) (rw e refl) (the_owner e refl) (calm_owned (rw e refl)) refl
        (λ q h. sym (named p q (f ∙ h) (rw e refl))) refl
  advanced false made (some owner) e f r =
      taken written (some (some p)) (rw e refl) (the_owner e refl) (calm_owned (rw e refl)) refl
        (λ q h. ground arith) refl
  advanced true written d e f r = stays releasing d e f refl refl refl
  advanced false written d e f r = stays holding d e f refl refl refl
  advanced fails holding d e f r = stays releasing d e f refl refl refl
  advanced true releasing d e f r = off outside e f refl refl refl
  advanced false releasing d e f r =
      removed outside (rw e refl) (the_owner e refl)
        (λ t h. absurd (ground (arith, calm_owned (rw e refl) t))) refl refl
  advanced fails gone d e f r = off gone e f refl refl refl

-- Every step keeps the invariant.
Step-Inv : {s t : State} → Step s t → Inv s → Inv t
unfolding advance
Step-Inv {s} (act fails p calm) inv = advanced s inv p fails (s.phases p) s.dir refl refl calm
Step-Inv {s} (end p unasked) inv = end-Inv s p inv unasked

Runs-Inv : {s t : State} → Inv s → Runs s t → Inv t
Runs-Inv inv here = inv
Runs-Inv inv (more runs step) = Step-Inv step (Runs-Inv inv runs)

-- Two processes never have the lock at once, though processes may end while they have it, and though
-- any operation may fail, also the removal of the directory that gives the lock up. The condition is
-- that of the steps: a process reads who has the lock only when no other is about to remove the
-- directory of a process that has ended, and none ends between the moments when another has read
-- its number and asks whether it still runs.
pub mutual_exclusion :
    {s : State}
    → Runs free s
    → (p q : ℕ) → owns (s.phases p) ≡ true
    → owns (s.phases q) ≡ true
    → p ≡ q
mutual_exclusion runs = (Runs-Inv free-Inv runs).lone
