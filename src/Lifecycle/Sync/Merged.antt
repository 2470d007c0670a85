-- ===== src/Lifecycle/Sync/Merged.antt =====
-- What `syncMain` takes away.
use kakesu.Prelude.{
  String, Bool, true, false, not, ◌≡◌, refl, List, [], ◌∷◌, arith, if◌then◌else◌, ◌==◌, ◌⧺◌,
  eq_refl, Bool-cases, inl, inr,
}
use kakesu.Js.{Value, prop, to_text}
use kakesu.Result.{ok}
use kakesu.Work.Node.{Node, Spawned, finished}
use kakesu.Lifecycle.Script.{
  Script, Request, Answer, Event, World, exec, spawn, exists, guard, only_if, lift, ◌>>=◌,
}
use kakesu.Lifecycle.Script.Laws.{Only, ends, asks, is_cleanup, reading-free, requests}
use kakesu.Lifecycle.Script.Happened.{happened}
use kakesu.Lifecycle.Steps.{git, file_exists}
use kakesu.Lifecycle.Steps.Requests.{read_yaml-Only}
use kakesu.Lifecycle.Sync.{
  Args, fast, check_clean, clean_up, clean_all, close_tasks, clean_tasks, sync_main,
}
use kakesu.Lifecycle.Sync.Safe.{
  sees_clean, sees_merged, Seen, is_safe, Leads, Leads-run, Leads-seq, Leads-finish, Leads-throw,
  Leads-git, Leads-exists, Leads-kept,
}
use kakesu.Lifecycle.Sync.Requests.{
  is_kept, free-kept, record_sync-Only, update_main-Only, close_tasks-Only,
}

still :
    (sees : (q : Request) → Answer q → Bool) (q : Request) (a : Answer q) (past : List Event)
    → happened sees past ≡ true
    → happened sees ((q, a) ∷ past) ≡ true
unfolding happened
still sees q a past h = ground arith

module _ (node : Node) (json : List String → String) (yaml : Value → String) (args : Args) where
  module _ (world : World) where
    -- A path was looked up.
    abbrev AfterLook : String → Bool → List Event → Type 0
    AfterLook path true past = Unit {0}
    AfterLook path false past = Seen (sees_clean path ∷ []) past

    -- Git was asked for the status of a worktree.
    abbrev AfterStatus : String → String → List Event → Type 0
    AfterStatus path status past = (status == "") ≡ true → Seen (sees_clean path ∷ []) past

    asked :
        (path : String) (past : List Event) (a : Spawned) (s : String)
        → Unit {0}
        → finished a ≡ ok s
        → AfterStatus path s ((spawn path "git" ("status" ∷ "--porcelain" ∷ []) [], a) ∷ past)
    unfolding happened
    asked path past a s p e empty = (rw (eq_refl path, e, empty) refl, tt)

    told_clean :
        (path status e : String)
        → Leads args.root world
            (AfterStatus path status)
            (λ u. Seen (sees_clean path ∷ []))
            (guard (not (status == "")) e)
    told_clean path status e = elim (Bool-cases (status == "")) [
      | inl empty ↦ rw empty (Leads-finish args.root (ok tt) (λ a past h. h empty))
      | inr other ↦ rw other (Leads-throw args.root e)
    ]

    check_clean-Leads :
        (task : Value) (worktree : String)
        → Leads args.root world
            (Seen [])
            (λ u. Seen (sees_clean worktree ∷ []))
            (check_clean node json yaml args task worktree)
    unfolding check_clean happened is_cleanup
    check_clean-Leads task worktree =
        Leads-seq args.root {Q = AfterLook worktree} (Leads-exists args.root worktree looked)
          asked_if
      where
        looked :
            (past : List Event) (b : Bool)
            → Unit {0}
            → AfterLook worktree b ((exists worktree, b) ∷ past)
        looked past true p = tt
        looked past false p = (rw (eq_refl worktree) refl, tt)

        asked_if :
            (there : Bool)
            → Leads args.root world
                (AfterLook worktree there)
                (λ u. Seen (sees_clean worktree ∷ []))
                (only_if there (do
                  status ← git worktree ("status" ∷ "--porcelain" ∷ [])
                  guard
                      (not (status == ""))
                      (to_text (prop "id" task) ⧺ ": dirty worktree blocks cleanup")))
        asked_if true =
            Leads-seq args.root {Q = AfterStatus worktree}
              (Leads-git args.root worktree ("status" ∷ "--porcelain" ∷ []) (λ past p. refl)
                (asked worktree))
              (λ status. told_clean worktree status _)
        asked_if false = Leads-finish args.root (ok tt) (λ a past p. p)

    confirmed :
        (branch path : String) (past : List Event) (a : Spawned) (s : String)
        → Seen (sees_clean path ∷ []) past
        → finished a ≡ ok s
        → Seen (sees_merged args.root branch ∷ sees_clean path ∷ []) (
            (spawn args.root "git" ("merge-base" ∷ "--is-ancestor" ∷ branch ∷ "main" ∷ []) [], a)
            ∷ past)
    unfolding happened
    confirmed branch path past a s (clean, _) e =
        (rw (eq_refl args.root, eq_refl branch, e) refl, (ground arith, tt))

    remove_if :
        (branch path : String) (there : Bool)
        → Leads args.root world
            (Seen (sees_merged args.root branch ∷ sees_clean path ∷ []))
            (λ u. Seen (sees_merged args.root branch ∷ sees_clean path ∷ []))
            (only_if there
              (do removed ← git args.root ("worktree" ∷ "remove" ∷ path ∷ []); lift (ok tt)))
    unfolding is_cleanup
    remove_if branch path false = Leads-finish args.root (ok tt) (λ a past p. p)
    remove_if branch path true =
        Leads-seq args.root {Q = λ s. Seen (sees_merged args.root branch ∷ sees_clean path ∷ [])}
          (Leads-git args.root args.root ("worktree" ∷ "remove" ∷ path ∷ [])
            (λ past (merged, (clean, _)). rw clean refl)
            (λ past a s (merged, (clean, _)) e. (still _ _ _ _ merged, (still _ _ _ _ clean, tt))))
          (λ s. Leads-finish args.root (ok tt) (λ a past p. p))

    delete_branch :
        (branch path : String)
        → Leads args.root world
            (Seen (sees_merged args.root branch ∷ sees_clean path ∷ []))
            (λ u. Seen [])
            (do deleted ← git args.root ("branch" ∷ "-d" ∷ branch ∷ []); lift (ok tt))
    unfolding is_cleanup
    delete_branch branch path =
        Leads-seq args.root {Q = λ s past. Unit {0}}
          (Leads-git args.root args.root ("branch" ∷ "-d" ∷ branch ∷ [])
            (λ past (merged, (clean, _)). rw merged refl) (λ past a s p e. tt))
          (λ s. Leads-finish args.root (ok tt) (λ a past p. tt))

    clean_up-Leads :
        (task : Value)
        → Leads args.root world (Seen []) (λ u. Seen []) (clean_up node json yaml args task)
    unfolding clean_up is_cleanup
    clean_up-Leads task =
        let branch : String = to_text (prop "branch" task) in
        Leads-seq args.root {Q = λ worktree past. Unit {0}}
          (Leads-finish args.root _ (λ a past p. tt))
          (λ worktree. Leads-seq args.root (check_clean-Leads task worktree) (λ clean.
            Leads-seq args.root
              {Q = λ s. Seen (sees_merged args.root branch ∷ sees_clean worktree ∷ [])}
              (Leads-git args.root args.root ("merge-base" ∷ "--is-ancestor" ∷ branch ∷ "main" ∷ [])
                (λ past p. refl) (confirmed branch worktree))
              (λ merged.
                Leads-seq args.root
                  (Leads-kept args.root (sees_merged args.root branch ∷ sees_clean worktree ∷ [])
                    (file_exists worktree) (asks refl (λ a. ends)))
                  (λ there.
                    Leads-seq args.root (remove_if branch worktree there)
                      (λ removed. delete_branch branch worktree)))))

    clean_all-Leads :
        (tasks : List Value)
        → Leads args.root world (Seen []) (λ u. Seen []) (clean_all node json yaml args tasks)
    unfolding clean_all
    clean_all-Leads [] = Leads-finish args.root (ok tt) (λ a past p. tt)
    clean_all-Leads (task ∷ tasks) =
        Leads-seq args.root (clean_up-Leads task) (λ u. clean_all-Leads tasks)

    clean_tasks-Leads :
        (closed : Bool)
        → Leads args.root world (Seen []) (λ u. Seen []) (clean_tasks node json yaml args closed)
    unfolding clean_tasks
    clean_tasks-Leads closed =
        Leads-seq args.root (quiet _ (free-kept _ (reading-free _ (read_yaml-Only node _))))
          (λ backlog. Leads-seq args.root {Q = λ t. Seen []} (quiet _ ends) (λ tasks.
            Leads-seq args.root {Q = λ t. Seen []} (quiet _ ends) (λ left.
              Leads-seq args.root (clean_all-Leads left)
                (λ u. quiet _ (search (requests, record_sync-Only))))))
      where
        quiet :
            {A : Type 0} (m : Script A)
            → Only is_kept m
            → Leads args.root world (Seen []) (λ a. Seen []) m
        quiet m h = Leads-kept args.root [] m h

    rest :
        (is_fast : Bool)
        → Leads args.root world
            (Seen [])
            (λ u. Seen [])
            (if is_fast
              then lift (ok fast)
              else close_tasks node json yaml args >>= clean_tasks node json yaml args)
    rest true = Leads-finish args.root (ok fast) (λ a past p. tt)
    rest false =
        Leads-seq args.root (Leads-kept args.root [] _ (close_tasks-Only node json yaml args))
          (λ closed. clean_tasks-Leads closed)

    -- Whatever the answers are, `syncMain` removes a worktree only after it was seen to be missing, or
    -- git said that nothing in it is changed; and it deletes a branch only after git said that the branch
    -- is an ancestor of main.
    pub sync_main-IsSafe :
        is_safe args.root (exec world (sync_main node json yaml args) []).1 ≡ true
    unfolding sync_main
    sync_main-IsSafe =
        Leads-run args.root
          (Leads-seq args.root (Leads-kept args.root [] _ (update_main-Only node json yaml args))
            (λ u. rest args.fast))
          tt
