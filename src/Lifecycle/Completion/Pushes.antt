-- ===== src/Lifecycle/Completion/Pushes.antt =====
-- How often `completionGate` pushes, and what it says of that.
use kakesu.Prelude.{
  ◌≤◌, String, Bool, true, false, ◌≡◌, refl, ◌∙◌, ◌⊎◌, inl, inr, List, [], ◌∷◌, arith, Bool-cases,
  if◌then◌else◌,
}
use kakesu.Result.{Result, ok, throw}
use kakesu.Work.Node.{Node, Spawned}
use kakesu.Lifecycle.Script.{
  Request, Event, World, exec, handle, then_, spawn, under, locked, guard, lift, ◌>>◌,
}
use kakesu.Lifecycle.Script.Laws.{Only, ends, Only-seq, is_push, exec-handle, reading-plain}
use kakesu.Lifecycle.Script.Gives.{
  Gives, gives, fails, goes, gives_rules, Gives-handle, Gives-then, exec-Gives,
}
use kakesu.Lifecycle.Evidence.{is_failure}
use kakesu.Lifecycle.Script.Pushes.{
  pushes, is_local, exec-local, plain-local, under-local, ends-thrown, output-first,
}
use kakesu.Lifecycle.Completion.{Args, Ready, Completed, remote_head, is_at, prepare_completion}
use kakesu.Lifecycle.Completion.Gate.{
  merge_candidate, transact, roll_back_merge, reconcile, push_merge, publish_merge, completion_gate,
}
use kakesu.Lifecycle.Completion.Requests.{
  prepare_completion-Only, transact-Only, roll_back_merge-Only,
}

abbrev pub push_request : String → Request
push_request root = spawn root "git" ("push" ∷ "origin" ∷ "HEAD:main" ∷ []) []

abbrev pub remote_request : String → Request
remote_request root = spawn root "git" ("ls-remote" ∷ "origin" ∷ "refs/heads/main" ∷ []) []

-- The last answer says so: the push did not fail, or the remote main is at the commit.
abbrev pub IsConfirmed : String → Completed → List Event → Type 0
IsConfirmed root done events =
    (answer : Spawned) × (past : List Event) × (((done.reconciled ≡ false)
        × (is_failure answer ≡ false)
        × (events ≡ (push_request root, answer) ∷ past))
      ⊎ ((done.reconciled ≡ true)
          × (is_at done.commit (remote_head answer) ≡ true)
          × (events ≡ (remote_request root, answer) ∷ past)))

-- What is told of a push.
abbrev pub IsAnnounced : String → Result Completed → List Event → Type 0
IsAnnounced root (throw e) events = Unit
IsAnnounced root (ok done) events =
    ((done.pushed ≡ false) × (pushes events ≡ 0))
    ⊎ ((done.pushed ≡ true) × (pushes events ≡ 1) × IsConfirmed root done events)

abbrev pub IsTold : String → Result Completed × List Event → Type 0
IsTold root run = (pushes run.1 ≤ 1) × IsAnnounced root run.0 run.1

-- A result that was thrown tells nothing.
thrown-IsTold :
    (root : String) (run : Result Completed × List Event) {x : String}
    → pushes run.1 ≤ 1
    → run.0 ≡ throw x
    → IsTold root run
thrown-IsTold root run n e = (n, rw e tt)

module _ (node : Node) (json : List String → String) (args : Args) (world : World) where
  -- The merge is taken back, and the run throws.
  rolled-IsTold :
      (e : String) (ready : Ready) (commit : String) (past : List Event)
      → pushes past ≡ 1
      → IsTold args.root (
          exec world
            (under args.root (roll_back_merge node json args ready commit) >> lift (throw e))
            past)
  rolled-IsTold e ready commit past n =
      let m = under args.root (roll_back_merge node json args ready commit) in
      let quiet : Only is_local {A = Completed} (m >> lift (throw e)) =
        Only-seq (under-local args.root _ (roll_back_merge-Only node json args ready commit))
          (λ u. ends) in
      let same = exec-local world (m >> lift (throw e)) past quiet in
      let (x, threw) = ends-thrown world m e past in
      thrown-IsTold args.root _ (omega (arith, same)) threw

  rest-IsTold :
      (bad : Bool) (e e' : String) (ready : Ready) (commit : String) (past : List Event)
      → pushes past ≡ 1
      → IsTold args.root (
          exec world
            (guard bad e
              >> (under args.root (roll_back_merge node json args ready commit) >> lift (throw e')))
            past)
  unfolding exec handle
  rest-IsTold true e e' ready commit past n = (omega arith, tt)
  rest-IsTold false e e' ready commit past n = rolled-IsTold e' ready commit past n

  reconcile-IsTold :
      (ready : Ready) (done : Completed) (past : List Event)
      → pushes past ≡ 1
      → IsTold args.root (exec world (reconcile node json args ready done) past)
  unfolding reconcile exec pushes is_push
  reconcile-IsTold ready done past n =
      output-first (IsTold args.root) world args.root _ _ past (λ e a. (omega arith, tt))
        (λ a. elim (Bool-cases (is_at done.commit (remote_head a))) [
          | inl there ↦ rw there (omega arith, inr (refl, n, (a, past, inr (refl, there, refl))))
          | inr other ↦ rw other (rest-IsTold _ _ _ ready done.commit _ n)
        ])

  publish-IsTold :
      (push : Bool) (ready : Ready) (done : Completed) (past : List Event)
      → pushes past ≡ 0
      → done.pushed ≡ false
      → IsTold args.root
          (exec world (if push then push_merge node json args ready done else lift (ok done)) past)
  unfolding exec pushes is_push
  publish-IsTold false ready done past n quiet = (omega arith, inl (quiet, n))
  publish-IsTold true ready done past n quiet =
      output-first (IsTold args.root) world args.root _ _ past (λ e a. (omega arith, tt))
        (λ a. elim (Bool-cases (is_failure a)) [
          | inl failure ↦ rw failure (reconcile-IsTold ready done _ (omega arith))
          | inr success ↦
              rw success
                (omega arith, inr (refl, omega arith, (a, past, inl (refl, success, refl))))
        ])

  abbrev IsUnpushed : Completed → Type 0
  IsUnpushed done = done.pushed ≡ false

  merge_candidate-Gives : (ready : Ready) → Gives IsUnpushed (merge_candidate node json args ready)
  unfolding merge_candidate
  merge_candidate-Gives ready = search (gives_rules) depth 40 fits 4000

  transact-Gives : (ready : Ready) → Gives IsUnpushed (transact node json args ready)
  unfolding transact
  transact-Gives ready =
      Gives-handle _ _ (merge_candidate-Gives ready) (λ done unpushed. gives unpushed)
        (λ e. Gives-then _ (λ u. fails))

  under-Gives : (ready : Ready) → Gives IsUnpushed (under args.root (transact node json args ready))
  under-Gives ready = goes taken
    where
      taken :
          (a : Result (Unit {0}))
          → Gives IsUnpushed (locked args.root (transact node json args ready) a)
      taken (throw e) = fails
      taken (ok u) =
          Gives-handle _ _ (transact-Gives ready) (λ done unpushed. goes (λ v. gives unpushed))
            (λ e. goes (λ v. fails))

  merged-IsTold :
      (ready : Ready) (past : List Event) (r : Result Completed)
      → pushes past ≡ 0
      → ((done : Completed) → r ≡ ok done → IsUnpushed done)
      → IsTold args.root (exec world (then_ (publish_merge node json args ready) r) past)
  unfolding exec
  merged-IsTold ready past (throw e) n unpushed = (omega arith, tt)
  merged-IsTold ready past (ok done) n unpushed =
      publish-IsTold args.push ready done past n (unpushed done refl)

  ready-IsTold :
      (past : List Event) (r : Result Ready)
      → pushes past ≡ 0
      → IsTold args.root (
          exec world
            (then_
              (λ ready.
                handle
                  (under args.root (transact node json args ready))
                  (then_ (publish_merge node json args ready)))
              r)
            past)
  unfolding exec
  ready-IsTold past (throw e) n = (omega arith, tt)
  ready-IsTold past (ok ready) n =
      let m = under args.root (transact node json args ready) in
      let quiet = under-local args.root _ (transact-Only node json args ready) in
      rw (exec-handle world m (then_ (publish_merge node json args ready)) past) (
        merged-IsTold ready _ _ (exec-local world m past quiet ∙ n)
          (λ done e. exec-Gives world m past (under-Gives ready) e))

  -- Whatever the answers are, `completionGate` pushes at most once. What it returns says that the merge
  -- was not pushed only if there was no push; if it says that the merge was pushed, there was one, and
  -- the last answer was that of a push that did not fail or that of the remote, whose main was at the
  -- merge.
  pub completion_gate-IsTold : IsTold args.root (exec world (completion_gate node json args) [])
  unfolding completion_gate pushes
  completion_gate-IsTold =
      let m = prepare_completion node json args in
      let quiet = plain-local m (reading-plain m (prepare_completion-Only node json args)) in
      rw (exec-handle world m _ []) (ready-IsTold _ _ (exec-local world m [] quiet))
