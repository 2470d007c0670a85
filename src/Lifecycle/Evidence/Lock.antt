-- ===== src/Lifecycle/Evidence/Lock.antt =====
-- `evidenceCommit` changes the repository under the lock only, and gives the lock back.
use kakesu.Prelude.{String, true, false, ◌≡◌, refl, ◌∙◌, ◌⊎◌, inl, inr, List, [], ◌∷◌}
use kakesu.Result.{Result, ok, throw}
use kakesu.Work.Node.{Node, Spawned, finished}
use kakesu.Lifecycle.Script.{
  Request, Event, World, exec, handle, then_, held, is_careful, is_proper, is_reading, spawn,
  acquire, perform,
}
use kakesu.Lifecycle.Script.Laws.{exec-handle}
use kakesu.Lifecycle.Script.Careful.{exec-free, exec-reading}
use kakesu.Lifecycle.Evidence.Requests.{transaction-Only}
use kakesu.Lifecycle.Steps.Requests.{rules_for-Only, assert_main-Only}
use kakesu.Lifecycle.Steps.{assert_main, rules_for}
use kakesu.Lifecycle.Evidence.{Args, Outcome, transaction, released, with_lock, evidence_commit}

module _ (node : Node) (json : List String → String) (args : Args) where
  -- The commit of HEAD could not be asked for after the lock was taken.
  abbrev pub IsStuck : Result Outcome → List Event → Type 0
  IsStuck r events =
      (e : String) × (answer : Spawned) × (past : List Event) × (r ≡ throw e)
      × (finished answer ≡ throw e)
      × (events
          ≡ (spawn args.root "git" ("rev-parse" ∷ "HEAD" ∷ []) [], answer)
            ∷ (acquire args.root, ok tt)
            ∷ past)

  abbrev pub IsClean : Result Outcome × List Event → Type 0
  IsClean run = (is_proper run.1 ≡ true) × ((held run.1 ≡ false) ⊎ IsStuck run.0 run.1)

  released-IsClean :
      (world : World) (rules : List String) (before : String) (past : List Event)
      → held past ≡ true
      → is_proper past ≡ true
      → IsClean (
          exec world
            (handle (transaction node json args rules before) (released node json args))
            past)
  unfolding exec held is_careful is_reading
  released-IsClean world rules before past locked p =
      let m = transaction node json args rules before in
      let (same, proper) =
        exec-free is_reading world m past (transaction-Only node json args rules before) locked p in
      rw (exec-handle world m (released node json args) past)
        (rw (same ∙ locked, proper) refl, inl refl)

  abbrev head_asked : Request
  head_asked = spawn args.root "git" ("rev-parse" ∷ "HEAD" ∷ []) []

  -- After the lock was taken, with what git said of HEAD.
  head-IsClean :
      (world : World) (rules : List String) (past : List Event) (answer : Spawned)
      (r : Result String)
      → finished answer ≡ r
      → held past ≡ false
      → is_proper past ≡ true
      → IsClean (
          exec world
            (then_
              (λ before. handle (transaction node json args rules before) (released node json args))
              r)
            ((head_asked, answer) ∷ (acquire args.root, ok tt) ∷ past))
  unfolding exec held is_careful is_reading
  head-IsClean world rules past answer (throw e) said free p =
      (rw (free, p) refl, inr (e, answer, past, refl, said, refl))
  head-IsClean world rules past answer (ok before) said free p =
      released-IsClean world rules before _ refl (rw (free, p) refl)

  with_lock-IsClean :
      (world : World) (rules : List String) (past : List Event) (a : Result (Unit {0}))
      → held past ≡ false
      → is_proper past ≡ true
      → IsClean (exec world (with_lock node json args rules a) ((acquire args.root, a) ∷ past))
  unfolding with_lock exec handle held is_careful is_reading
  with_lock-IsClean world rules past (throw e) free p = (rw (free, p) refl, inl free)
  with_lock-IsClean world rules past (ok u) free p =
      head-IsClean world rules past (world ((acquire args.root, ok u) ∷ past) head_asked) _ refl
        free p

  -- After a part that changes nothing, with what it found.
  rules-IsClean :
      (world : World) (past : List Event) (r : Result (List String))
      → held past ≡ false
      → is_proper past ≡ true
      → IsClean (
          exec world
            (then_ (λ rules. perform (acquire args.root) (with_lock node json args rules)) r)
            past)
  unfolding exec
  rules-IsClean world past (throw e) free p = (p, inl free)
  rules-IsClean world past (ok rules) free p =
      with_lock-IsClean world rules past (world past (acquire args.root)) free p

  main-IsClean :
      (world : World) (past : List Event) (r : Result (Unit {0}))
      → held past ≡ false
      → is_proper past ≡ true
      → IsClean (
          exec world
            (then_
              (λ u.
                handle
                  (rules_for node args.root args.action args.task_id)
                  (then_ (λ rules. perform (acquire args.root) (with_lock node json args rules))))
              r)
            past)
  unfolding exec
  main-IsClean world past (throw e) free p = (p, inl free)
  main-IsClean world past (ok u) free p =
      let m = rules_for node args.root args.action args.task_id in
      let (same, proper) =
        exec-reading world m past (rules_for-Only node args.root args.action args.task_id) p in
      rw (exec-handle world m _ past)
        (rules-IsClean world _ (exec world m past).0 (same ∙ free) proper)

  -- Whatever the answers are, `evidenceCommit` changes nothing unless it holds the lock, takes the
  -- lock once at a time, and does not hold it at the end, with one exception: where git cannot tell
  -- the commit of HEAD right after the lock was taken, the error is thrown and the lock is left.
  pub evidence_commit-IsClean :
      (world : World) → IsClean (exec world (evidence_commit node json args) [])
  unfolding evidence_commit exec held is_careful is_reading
  evidence_commit-IsClean world =
      let m = assert_main node args.root in
      let (same, proper) = exec-reading world m [] (assert_main-Only node args.root) refl in
      rw (exec-handle world m _ []) (main-IsClean world _ (exec world m []).0 same proper)
