-- ===== src/Work/Lock/Progress.antt =====
-- The lock of scripts/task/lib.mjs can always be had.
use kakesu.Prelude.{
  ℕ, ap, List, [], ◌∷◌, ◌∙◌, ◌≡◌, ◌≢◌, refl, ◌⊎◌, inl, inr, true, false, Option, some, none, arith,
}
use kakesu.Work.Lock.{
  Directory, Phase, outside, stale, made, written, holding, releasing, State, is_gone, next,
  advance, owns,
}

-- Processes act in this order, and no operation fails.
unfoldable pub acts : List ℕ → State → State
acts [] s = s
acts (q ∷ qs) s = acts qs (advance false q s)

-- What an operation that does not fail leads to, for its own process and for another one.
went :
    (q : ℕ) (s : State) {x y : Phase} {d e : Directory}
    → s.phases q ≡ x
    → s.dir ≡ d
    → next (λ r. is_gone (s.phases r)) false q x d ≡ (y, e)
    → ((advance false q s).phases q ≡ y)
      × ((advance false q s).dir ≡ e)
      × ((p : ℕ) → p ≢ q → (advance false q s).phases p ≡ s.phases p)
unfolding advance
went q s at there leads = (
  rw (at, there) (ground (arith, ap (λ z. z.0) leads)),
  rw (at, there, leads) refl,
  λ p other. ground arith,
)

module _ (p : ℕ) where
  -- From here, `p` can come to hold the lock.
  abbrev pub Holds : State → Type 0
  Holds s = (qs : List ℕ) × ((acts qs s).phases p ≡ holding)

  first : (q : ℕ) (s : State) → Holds (advance false q s) → Holds s
  unfolding acts
  first q s (qs, holds) = (q ∷ qs, holds)

  written-Holds : (s : State) → s.phases p ≡ written → Holds s
  unfolding next acts
  written-Holds s e = let (now, there, same) = went p s e refl refl in first p s ([], now)

  made-Holds : (s : State) {o : Option ℕ} → s.phases p ≡ made → s.dir ≡ some o → Holds s
  unfolding next
  made-Holds s e f =
      let (now, there, same) = went p s e f refl in
      first p s (written-Holds (advance false p s) now)

  free-Holds : (s : State) → s.phases p ≡ outside → s.dir ≡ none → Holds s
  unfolding next
  free-Holds s e f =
      let (now, there, _) = went p s e f refl in
      first p s (made-Holds (advance false p s) now there)

  -- The owner of the directory has ended.
  stale-Holds : (s : State) → s.phases p ≡ stale → Holds s
  unfolding next
  stale-Holds s e =
      let (now, there, _) = went p s e refl refl in
      let t = advance false p s in
      let (later, made_it, _) = went p t now there refl in
      first p s (first p t (made-Holds (advance false p t) later made_it))

  ended-Holds :
      (s : State) (q : ℕ)
      → s.phases p ≡ outside
      → s.dir ≡ some (some q)
      → is_gone (s.phases q) ≡ true
      → Holds s
  unfolding next
  ended-Holds s q e f over =
      let other : q ≢ p = λ h. absurd (ground (arith, ap s.phases h)) in
      let (blocked_now, f₁, same₁) = went p s e f refl in
      let t = advance false p s in
      let (probing_now, f₂, same₂) = went p t blocked_now f₁ refl in
      let u = advance false p t in
      let still : is_gone (u.phases q) ≡ true = rw (same₂ q other, same₁ q other) over in
      let (gone_now, f₃, _) =
        went p u {y = stale} {e = some (some q)} probing_now f₂ (rw still refl) in
      first p s (first p t (first p u (stale-Holds (advance false p u) gone_now)))

  module _ (q : ℕ) (other : p ≢ q) where
    owner_releasing : (s : State) → s.phases p ≡ outside → s.phases q ≡ releasing → Holds s
    unfolding next
    owner_releasing s e f =
        let (now, there, same) = went q s f refl refl in
        first q s (free-Holds (advance false q s) (same p other ∙ e) there)

    owner_held : (s : State) → s.phases p ≡ outside → s.phases q ≡ holding → Holds s
    unfolding next
    owner_held s e f =
        let (now, there, same) = went q s f refl refl in
        first q s (owner_releasing (advance false q s) (same p other ∙ e) now)

    owner_written : (s : State) → s.phases p ≡ outside → s.phases q ≡ written → Holds s
    unfolding next
    owner_written s e f =
        let (now, there, same) = went q s f refl refl in
        first q s (owner_held (advance false q s) (same p other ∙ e) now)

    owner_made :
        (s : State) (d : Directory) → s.phases p ≡ outside → s.phases q ≡ made → s.dir ≡ d → Holds s
    unfolding next
    owner_made s none e f g =
        let (now, there, same) = went q s f g refl in
        first q s (owner_releasing (advance false q s) (same p other ∙ e) now)
    owner_made s (some o) e f g =
        let (now, there, same) = went q s f g refl in
        first q s (owner_written (advance false q s) (same p other ∙ e) now)

  owned-Holds :
      (s : State) (q : ℕ) (x : Phase)
      → s.phases p ≡ outside
      → s.phases q ≡ x
      → owns x ≡ true
      → Holds s
  owned-Holds s q made e g o = owner_made q (λ h. absurd (ground arith)) s s.dir e g refl
  owned-Holds s q written e g o = owner_written q (λ h. absurd (ground arith)) s e g
  owned-Holds s q holding e g o = owner_held q (λ h. absurd (ground arith)) s e g
  owned-Holds s q releasing e g o = owner_releasing q (λ h. absurd (ground arith)) s e g
  owned-Holds s q _ e g o = absurd (ground arith)

-- The directory is not there, or one process has the lock, or the one that the directory names has
-- ended.
abbrev pub IsTakeable : State → Type 0
IsTakeable s =
    (s.dir ≡ none)
    ⊎ ((q : ℕ) × (owns (s.phases q) ≡ true))
    ⊎ ((q : ℕ) × (s.dir ≡ some (some q)) × (is_gone (s.phases q) ≡ true))

-- In every state, reached or not, in which the lock's directory is not there, or a process is at work
-- with the lock, or the process that the directory names has ended, a process that does not want the
-- lock yet can come to hold it: some order of operations, none of which fails, leads there.
pub can_be_held : (s : State) (p : ℕ) → s.phases p ≡ outside → IsTakeable s → Holds p s
can_be_held s p e (inl free_now) = free-Holds p s e free_now
can_be_held s p e (inr (inl (q, has))) = owned-Holds p s q (s.phases q) e refl has
can_be_held s p e (inr (inr (q, there, over))) = ended-Holds p s q e there over
