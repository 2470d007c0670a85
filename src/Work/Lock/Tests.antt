-- ===== src/Work/Lock/Tests.antt =====
-- The lock of scripts/task/lib.mjs at concrete processes.
use kakesu.Prelude.{ℕ, ◌≡◌, refl, false, arith, inr, [], ◌∷◌}
use kakesu.Work.Lock.{State, holding, next, advance, ended, Runs, here, more, act, end, free}
use kakesu.Work.Lock.Exclusion.{mutual_exclusion}
use kakesu.Work.Lock.Progress.{acts, Holds, can_be_held}

-- Process 1 takes the lock and ends with it.
abbrev deserted : State
deserted = ended 1 (acts (1 ∷ 1 ∷ 1 ∷ []) free)

deserting : Runs free deserted
unfolding acts advance next
deserting =
    more
      (more
        (more (more here (act false 1 (λ h. absurd (ground arith))))
          (act false 1 (λ h. absurd (ground arith))))
        (act false 1 (λ h. absurd (ground arith))))
      (end 1 (λ q h. absurd (ground arith)))

-- Process 2 comes, finds that the owner has ended, and takes the lock.
recovered : Runs free (acts (2 ∷ 2 ∷ 2 ∷ 2 ∷ 2 ∷ []) deserted)
unfolding acts advance next
recovered =
    more
      (more
        (more
          (more (more deserting (act false 2 (λ h. absurd (ground arith))))
            (act false 2 (λ h q. ground arith)))
          (act false 2 (λ h. absurd (ground arith))))
        (act false 2 (λ h. absurd (ground arith))))
      (act false 2 (λ h. absurd (ground arith)))

mutual_exclusion_example : ◌≡◌ {A = ℕ} 2 2
unfolding acts advance next
mutual_exclusion_example = mutual_exclusion recovered 2 2 refl refl

-- Process 2 takes over what process 1 left.
can_be_held_example : Holds 2 deserted
unfolding acts advance next
can_be_held_example = can_be_held deserted 2 refl (inr (inr (1, refl, refl)))

-- Process 1 gives the lock up and ends once process 2 has read its number. Process 3 takes the lock, and
-- process 2 takes it away.
abbrev taken_away : State
taken_away =
    acts (2 ∷ 2 ∷ 2 ∷ 2 ∷ 2 ∷ [])
      (acts (3 ∷ 3 ∷ 3 ∷ []) (ended 1 (acts (1 ∷ 2 ∷ 1 ∷ 1 ∷ 2 ∷ 1 ∷ 1 ∷ []) free)))

taken_away_test : (taken_away.phases 2 ≡ holding) × (taken_away.phases 3 ≡ holding)
unfolding acts advance next
taken_away_test = (refl, refl)
