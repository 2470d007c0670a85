-- ===== src/Lifecycle/Candidate/Laws.antt =====
-- What an accepted change of main or of a pull request holds.
use kakesu.Prelude.{
  String, true, false, not, ◌≡◌, refl, sym, ap, ◌∙◌, ◌⊎◌, inl, inr, Bool-cases, List, [], ◌∷◌, none,
  some, any, All, All-map, any-eq-false, arith, eq_iff, ◌==◌,
}
use kakesu.Js.{Value, prop}
use kakesu.Result.{>>=-eq-ok, throw_if-eq-ok, ok}
use kakesu.Lifecycle.Repository.{Git}
use kakesu.Lifecycle.Candidate.{
  Args, Verdict, allows_merge, before_of, allows_merge, check_main, scope_check, check_direct,
}
use kakesu.Lifecycle.Candidate.Merge.{IsMerge, check_merge-IsMerge}
use kakesu.Scope.{is_main_managed_path}

module _ (git : Git) where
  check_direct-managed :
      (files : List String) {v : Verdict}
      → check_direct files ≡ ok v
      → (v.merge ≡ none) × (v.files ≡ files) × All (λ file. is_main_managed_path file ≡ true) files
  check_direct-managed files {v} h =
      let facts : (any (λ file. not (is_main_managed_path file)) files ≡ false)
          × (record { files = files; merge = none } ≡ v) =
        ground arith in
      (
        ap Verdict.merge (sym facts.1),
        ap Verdict.files (sym facts.1),
        All-map (λ file k. ground arith) files
            (any-eq-false (λ file. not (is_main_managed_path file)) files facts.0),
      )

  -- What a push to main was accepted for: managed files, or a merge that is asked for.
  abbrev IsMain : Args → List String → Verdict → Type 0
  IsMain args parents v =
      ((v.merge ≡ none) × All (λ file. is_main_managed_path file ≡ true) v.files)
      ⊎ ((commit : String) × (first_parent : String) × (candidate : String) × (task : Value)
          × (parents ≡ commit ∷ first_parent ∷ candidate ∷ [])
          × (allows_merge args.allow_merge ≡ true)
          × (v.merge ≡ some (prop "id" task, candidate))
          × IsMerge git args.head first_parent task candidate)

  direct-IsMain :
      (files : List String) (args : Args) (parents : List String) {v : Verdict}
      → check_direct files ≡ ok v
      → (v.files ≡ files) × IsMain args parents v
  direct-IsMain files args parents h =
      let (direct, same, managed) = check_direct-managed files h in
      (same, inl (direct, rw same managed))

  check_main-IsMain :
      (files : List String) (args : Args) (parents : List String) {v : Verdict}
      → check_main git files args parents ≡ ok v
      → (v.files ≡ files) × IsMain args parents v
  check_main-IsMain files args (commit ∷ first_parent ∷ candidate ∷ []) {v} h =
      elim (Bool-cases (allows_merge args.allow_merge)) [
        | inl allowed ↦
            let (task, merge, same, merged) =
              check_merge-IsMerge git files args.head first_parent candidate {v = v}
                (rw allowed at h) in
            (same, inr (commit, first_parent, candidate, task, refl, allowed, merge, merged))
        | inr denied ↦ direct-IsMain files args _ (rw denied at h)
      ]
  check_main-IsMain files args parents h = direct-IsMain files args parents h

  -- The files of the verdict are those that git lists from `before` to the head.
  abbrev pub IsScoped : Args → Verdict → Type 0
  IsScoped args v =
      (before : String) × (before_of args ≡ ok before)
      × (((args.event ≡ "pr")
            × (git.diff_paths before args.head ≡ ok v.files)
            × (v.merge ≡ none)
            × All (λ file. is_main_managed_path file ≡ false) v.files)
          ⊎ ((args.event ≡ "main")
              × (git.diff_names before args.head ≡ ok v.files)
              × ((parents : List String) × (git.rev_list_parents args.head ≡ ok parents)
                  × IsMain args parents v)))

  -- The files of an accepted change are those that git lists between its ends. A pull request changes
  -- no main-managed file. A push to main changes only those, or is, where merges are allowed, the
  -- merge of the candidate that the HANDOVER of exactly one task of the first parent's backlog names:
  -- one commit on its merge base, which changes no main-managed file; and against its first parent
  -- the merge changes managed files only where the evidence of that task's completion may.
  pub scope_check-IsScoped :
      (args : Args) (v : Verdict) → scope_check git args ≡ ok v → IsScoped args v
  unfolding scope_check
  scope_check-IsScoped args v h =
      let (before, known, checked) = >>=-eq-ok (before_of args) _ h in
      elim (Bool-cases (args.event == "pr")) [
        | inl pr ↦
            let (files, diffed, rest) =
              >>=-eq-ok (git.diff_paths before args.head) _ (rw pr at checked) in
            let (product, made) = throw_if-eq-ok (any is_main_managed_path files) _ _ rest in
            let same : record { files = files; merge = none } ≡ v = ground arith in
            let named : files ≡ v.files = ap Verdict.files same in
            (
              before,
              known,
              inl (
                (eq_iff args.event "pr").0 pr,
                diffed ∙ ap ok named,
                ap Verdict.merge (sym same),
                rw (sym same) (any-eq-false is_main_managed_path files product),
              ),
            )
        | inr other ↦
            let (files, diffed, rest) =
              >>=-eq-ok (git.diff_names before args.head) _ (rw other at checked) in
            elim (Bool-cases (args.event == "main")) [
              | inr unknown ↦ ground arith
              | inl main ↦
                  let (parents, listed, last) =
                    >>=-eq-ok (git.rev_list_parents args.head) _ (rw main at rest) in
                  let (same, accepted) = check_main-IsMain files args parents {v = v} last in
                  (
                    before,
                    known,
                    inr (
                      (eq_iff args.event "main").0 main,
                      diffed ∙ ap ok (sym same),
                      (parents, listed, accepted),
                    ),
                  )
            ]
      ]
