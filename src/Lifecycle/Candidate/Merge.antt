-- ===== src/Lifecycle/Candidate/Merge.antt =====
-- What an accepted merge of a candidate into main holds.
use kakesu.Prelude.{
  ℕ, String, true, false, not, ◌≡◌, sym, ap, inl, inr, Bool-cases, not-eq-false, List, [], ◌∷◌,
  some, any, All, All-map, any-eq-false, arith, nat_eq,
}
use kakesu.Js.{Value, str, prop, to_text}
use kakesu.Js.Laws.{strict_eq_sound}
use kakesu.Result.{Result, ok, throw, >>=-eq-ok, throw_if-eq-ok}
use kakesu.Lifecycle.Repository.{Git}
use kakesu.Lifecycle.Candidate.{
  Verdict, contains, handover_of, tasks_of, bound_candidate, is_candidate, is_bound, bound_tasks,
  is_unapproved, only_task, check_merge,
}
use kakesu.Scope.{is_main_managed_path, matches, completion_allowed}

only_task-eq : (ts : List Value) {t : Value} → only_task ts ≡ ok t → ts ≡ t ∷ []
only_task-eq [] h = cc
only_task-eq (t ∷ []) h = cc
only_task-eq (t ∷ u ∷ ts) h = cc

is_candidate-eq :
    (candidate : String) (r : Result Value)
    → is_candidate candidate r ≡ true
    → r ≡ ok (str candidate)
is_candidate-eq candidate (ok v) h = ap ok (strict_eq_sound v (str candidate) h)
is_candidate-eq candidate (throw e) h = cc

nat_eq-eq : (m n : ℕ) → nat_eq m n ≡ true → m ≡ n
nat_eq-eq m n h = ground arith

module _ (git : Git) where
  -- The candidate of a task: one commit on its merge base with main, which changes no main-managed
  -- file.
  abbrev pub IsProductCommit : String → Value → String → Type 0
  IsProductCommit first_parent task candidate =
      (base : String) × (files : List String) × (git.merge_base first_parent candidate ≡ ok base)
      × (git.rev_list_count base candidate ≡ ok 1)
      × (git.diff_paths base candidate ≡ ok files)
      × (contains (handover_of task) files ≡ false)
      × All (λ file. is_main_managed_path file ≡ false) files

  -- Against its first parent the merge changes managed files only where completion may.
  abbrev pub ChangesEvidence : String → String → Value → Type 0
  ChangesEvidence first_parent head task =
      (merged : List String) × (git.diff_paths first_parent head ≡ ok merged)
      × All
          (λ file.
            is_main_managed_path file ≡ true
            → matches file (completion_allowed (to_text (prop "task_dir" task))) ≡ true)
          merged

  -- The merge of the one candidate that the HANDOVER of exactly one task of main's backlog names.
  abbrev pub IsMerge : String → String → Value → String → Type 0
  IsMerge head first_parent task candidate =
      (text : String) × (backlog : Value) × (tasks : List Value) × (git.show first_parent
          "backlog.yaml"
        ≡ ok text)
      × (git.parse_yaml text ≡ ok backlog)
      × (tasks_of backlog ≡ ok tasks)
      × (bound_tasks git first_parent candidate tasks ≡ task ∷ [])
      × (bound_candidate git first_parent task ≡ ok (str candidate))
      × IsProductCommit first_parent task candidate
      × ChangesEvidence first_parent head task

  bound_tasks-is_bound :
      (commit candidate : String) (tasks : List Value)
      → All (λ t. is_bound git commit candidate t ≡ true) (bound_tasks git commit candidate tasks)
  unfolding bound_tasks
  bound_tasks-is_bound commit candidate [] = tt
  bound_tasks-is_bound commit candidate (t ∷ ts) =
      elim (Bool-cases (is_bound git commit candidate t)) [
        | inl bound ↦ rw bound (bound, bound_tasks-is_bound commit candidate ts)
        | inr other ↦ rw other (bound_tasks-is_bound commit candidate ts)
      ]

  approved :
      (task : Value) (file : String)
      → is_unapproved task file ≡ false
      → is_main_managed_path file ≡ true
      → matches file (completion_allowed (to_text (prop "task_dir" task))) ≡ true
  approved task file h k = ground arith

  product_commit :
      (first_parent : String) (task : Value) (candidate base : String) (commits : ℕ)
      (files : List String)
      → git.merge_base first_parent candidate ≡ ok base
      → git.rev_list_count base candidate ≡ ok commits
      → nat_eq commits 1 ≡ true
      → git.diff_paths base candidate ≡ ok files
      → contains (handover_of task) files ≡ false
      → any is_main_managed_path files ≡ false
      → IsProductCommit first_parent task candidate
  product_commit first_parent task candidate base commits files based counted one diffed own
        product =
      (
        base,
        files,
        based,
        rw (sym (nat_eq-eq commits 1 one)) counted,
        diffed,
        own,
        any-eq-false is_main_managed_path files product,
      )

  only_candidate :
      (commit candidate : String) (tasks : List Value) {task : Value}
      → bound_tasks git commit candidate tasks ≡ task ∷ []
      → bound_candidate git commit task ≡ ok (str candidate)
  only_candidate commit candidate tasks {task} alone =
      let bound = rw alone at (bound_tasks-is_bound commit candidate tasks) in
      is_candidate-eq candidate (bound_candidate git commit task) bound.0

  pub check_merge-IsMerge :
      (files : List String) (head first_parent candidate : String) {v : Verdict}
      → check_merge git files head first_parent candidate ≡ ok v
      → (task : Value) × (v.merge ≡ some (prop "id" task, candidate))
        × (v.files ≡ files)
        × IsMerge head first_parent task candidate
  unfolding check_merge
  check_merge-IsMerge files head first_parent candidate {v} h =
      let (text, shown, h₁) = >>=-eq-ok (git.show first_parent "backlog.yaml") _ h in
      let (backlog, parsed, h₂) = >>=-eq-ok (git.parse_yaml text) _ h₁ in
      let (tasks, listed, h₃) = >>=-eq-ok (tasks_of backlog) _ h₂ in
      let (task, single, h₄) =
        >>=-eq-ok (only_task (bound_tasks git first_parent candidate tasks)) _ h₃ in
      let (base, based, h₅) = >>=-eq-ok (git.merge_base first_parent candidate) _ h₄ in
      let (commits, counted, h₆) = >>=-eq-ok (git.rev_list_count base candidate) _ h₅ in
      let (one, h₇) = throw_if-eq-ok (not (nat_eq commits 1)) _ _ h₆ in
      let (changed, diffed, h₈) = >>=-eq-ok (git.diff_paths base candidate) _ h₇ in
      let (own, h₉) = throw_if-eq-ok (contains (handover_of task) changed) _ _ h₈ in
      let (product, rest) = throw_if-eq-ok (any is_main_managed_path changed) _ _ h₉ in
      let (merged, compared, last) = >>=-eq-ok (git.diff_paths first_parent head) _ rest in
      let (evidence, made) = throw_if-eq-ok (any (is_unapproved task) merged) _ _ last in
      let same : record { files = files; merge = some (prop "id" task, candidate) } ≡ v =
        ground arith in
      let alone = only_task-eq (bound_tasks git first_parent candidate tasks) single in
      (
        task,
        ap Verdict.merge (sym same),
        ap Verdict.files (sym same),
        (
          text,
          backlog,
          tasks,
          shown,
          parsed,
          listed,
          alone,
          only_candidate first_parent candidate tasks alone,
          product_commit first_parent task candidate base commits changed based counted
              (not-eq-false _ one) diffed own product,
          (
            merged,
            compared,
            All-map (approved task) merged (any-eq-false (is_unapproved task) merged evidence),
          ),
        ),
      )
