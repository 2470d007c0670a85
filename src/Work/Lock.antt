-- ===== src/Work/Lock.antt =====
-- `acquireWorkRepoLock` of scripts/task/lib.mjs, and the release that it returns, as processes run
-- them at the same time: one directory, and the place where each process is in the code.
pub mod Invariant
pub mod Exclusion
pub mod Progress
mod Tests
use kakesu.Prelude.{ℕ, ◌≡◌, ◌≢◌, Bool, true, false, Option, some, none, nat_eq, if◌then◌else◌}

-- The lock's directory, if it is there, and in it the process that owner.json names, if it does.
abbrev pub Directory : Type 0
Directory = Option (Option ℕ)

-- The operation that a process comes to next.
pub data Phase : Type 0 where
  -- the first `mkdirSync`
  outside : Phase
  -- the directory exists: `readFileSync`
  blocked : Phase
  -- `process.kill(owner.pid, 0)`
  probing : ℕ → Phase
  -- the owner is gone: `rmSync`
  stale : Phase
  -- the second `mkdirSync`
  cleared : Phase
  -- `writeFileSync`
  made : Phase
  -- the tests of the branch and of its status
  written : Phase
  -- what the lock was taken for
  holding : Phase
  -- `release`: its `rmSync`, which may throw and leave the directory
  releasing : Phase
  -- the process has ended
  gone : Phase

pub record State : Type 0 where
  pub dir : Directory
  pub phases : ℕ → Phase

abbrev pub is_gone : Phase → Bool
is_gone gone = true
is_gone _ = false

-- What the next operation of process `p` makes of its place and of the directory. `fails` says whether
-- the operation throws where it may; `ended` which processes have ended.
unfoldable pub next : (ℕ → Bool) → Bool → ℕ → Phase → Directory → Phase × Directory
next ended fails p outside none = if fails then (outside, none) else (made, some none)
next ended fails p outside (some owner) = (blocked, some owner)
next ended fails p blocked none = (outside, none)
next ended fails p blocked (some none) = (outside, some none)
next ended fails p blocked (some (some q)) = (if fails then outside else probing q, some (some q))
next ended fails p (probing q) d = (if ended q then stale else outside, d)
next ended fails p stale d = if fails then (outside, d) else (cleared, none)
next ended fails p cleared none = if fails then (outside, none) else (made, some none)
next ended fails p cleared (some owner) = (outside, some owner)
next ended fails p made none = (releasing, none)
next ended fails p made (some owner) =
    if fails then (releasing, some owner) else (written, some (some p))
next ended fails p written d = (if fails then releasing else holding, d)
next ended fails p holding d = (releasing, d)
next ended fails p releasing d = (outside, if fails then d else none)
next ended fails p gone d = (gone, d)

abbrev pub place : ℕ → Phase → Directory → State → State
place p x d s = record { dir = d; phases = λ q. if nat_eq q p then x else s.phases q }

unfoldable pub advance : Bool → ℕ → State → State
advance fails p s =
    let after = next (λ q. is_gone (s.phases q)) fails p (s.phases p) s.dir in
    place p after.0 after.1 s

-- Process `p` ends.
abbrev pub ended : ℕ → State → State
ended p s = place p gone s.dir s

-- Between the `mkdirSync` that made the directory and the end of `release`.
abbrev pub owns : Phase → Bool
owns made = true
owns written = true
owns holding = true
owns releasing = true
owns _ = false

-- A process that has read the number of a process that has ended, and goes on to remove the directory.
abbrev pub recovers : (ℕ → Bool) → Phase → Bool
recovers ended (probing q) = ended q
recovers ended stale = true
recovers ended _ = false

-- No process is about to remove the directory of one that has ended.
abbrev pub IsCalm : State → Type 0
IsCalm s = (q : ℕ) → recovers (λ r. is_gone (s.phases r)) (s.phases q) ≡ false

-- Processes act in any order, and end at any time, also while they have the lock, with two exceptions:
-- one reads the owner of a directory only when no other is about to remove the directory of a process
-- that has ended; and one does not end between the moments when another has read its number in the
-- directory and asks whether it still runs.
pub data Step (s : State) : State → Type 0 where
  act : (fails : Bool) (p : ℕ) → (s.phases p ≡ blocked → IsCalm s) → Step s (advance fails p s)
  end : (p : ℕ) → ((q : ℕ) → s.phases q ≢ probing p) → Step s (ended p s)

pub data Runs (s : State) : State → Type 0 where
  here : Runs s s
  more : {t u : State} → Runs s t → Step t u → Runs s u

-- No directory, and no process that wants it yet.
abbrev pub free : State
free = record { dir = none; phases = λ _. outside }
