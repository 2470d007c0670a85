-- ===== src/Lifecycle/Composite/Checked.antt =====
-- What a candidate holds that `assertComposite` lets through.
use kakesu.Prelude.{
  String, true, false, ◌≡◌, List, [], ◌∷◌, any, ◌⧺◌, ap, ◌∙◌, not-eq-false, eq_iff,
}
use kakesu.Result.{ok}
use kakesu.Scope.{is_main_managed_path}
use kakesu.Work.Node.{Node}
use kakesu.Lifecycle.Script.{Event, World, exec}
use kakesu.Lifecycle.Script.Runs.{Said, then-Said, guard-Said}
use kakesu.Js.{Value, str, prop, strict_eq}
use kakesu.Lifecycle.Completion.{diff_paths}
use kakesu.Lifecycle.Steps.{git, contains, task_dir, task_context, parse_frontmatter}
use kakesu.Lifecycle.Composite.{
  Composite, fails_review, fails_qa, branch_of, handover_of, check_files, check_head,
  check_documents, assert_composite,
}

module _ (node : Node) (root : String) where
  abbrev document_of : Value → String → String
  document_of task file = node.path_join (node.path_join root (task_dir node task)) file

  -- The files are a product's, and the independent review and the independent test have passed.
  abbrev pub IsApproved : Value → Value → Value → List String → Type 0
  IsApproved task review qa files =
      (contains (handover_of node root task) files ≡ false)
      × (any is_main_managed_path files ≡ false)
      × (fails_review node root task review ≡ false)
      × (fails_qa node root task qa ≡ false)

  module _ (world : World) (c : Composite) (end : List Event) where
    -- The handover names the head, git says that the head is one commit on its merge base with main, and
    -- the candidate is what git says it is.
    abbrev pub IsMeasured : Value → Value → Value → Value → String → List Event → Type 0
    IsMeasured task review qa handover head past =
        (base : String) × (files : List String) × (p : List Event) × (q : List Event) × (strict_eq
            (prop "candidate_commit" handover) (str head)
          ≡ true)
        × Said world (git root ("merge-base" ∷ "main" ∷ head ∷ [])) past base p
        × Said world (git root ("rev-list" ∷ "--count" ∷ (base ⧺ ".." ⧺ head) ∷ [])) p "1" q
        × Said world (diff_paths root base head) q files end
        × IsApproved task review qa files
        × (record { task = task; head = head; base = base; files = files } ≡ c)

    -- What the documents of the task say, and the head of its branch.
    abbrev pub IsDocumented : Value → List Event → Type 0
    IsDocumented task past =
        (review : Value) × (qa : Value) × (handover : Value) × (head : String) × (p : List Event)
        × (q : List Event) × (r : List Event) × (t : List Event) × Said world
            (parse_frontmatter node (document_of task "REVIEW_RESULT.md")) past review p
        × Said world (parse_frontmatter node (document_of task "QA_RESULT.md")) p qa q
        × Said world (parse_frontmatter node (document_of task "HANDOVER.md")) q handover r
        × Said world (git root ("rev-parse" ∷ branch_of task ∷ [])) r head t
        × IsMeasured task review qa handover head t

    -- From the start to this moment the task, its documents and git were asked, and what they said
    -- allows the candidate.
    abbrev pub IsChecked : String → Type 0
    IsChecked id =
        (task : Value) × (past : List Event) × Said world (task_context node root id) [] task past
        × IsDocumented task past

    check_files-IsApproved :
        (task review qa : Value) (head base : String) (files : List String) (past : List Event)
        → Said world (check_files node root task review qa head base files) past c end
        → (record { task = task; head = head; base = base; files = files } ≡ c)
          × (past ≡ end)
          × IsApproved task review qa files
    unfolding check_files exec
    check_files-IsApproved task review qa head base files past h =
        let (own, h₁) = guard-Said world _ _ _ past h in
        let (plain, h₂) = guard-Said world _ _ _ past h₁ in
        let (passed, h₃) = guard-Said world _ _ _ past h₂ in
        let (accepted, h₄) = guard-Said world _ _ _ past h₃ in
        let same : record { task = task; head = head; base = base; files = files } ≡ c = cc (h₄) in
        let done : past ≡ end = cc (h₄) in (same, done, (own, plain, passed, accepted))

    check_head-IsMeasured :
        (task review qa handover : Value) (head : String) (past : List Event)
        → Said world (check_head node root task review qa handover head) past c end
        → IsMeasured task review qa handover head past
    unfolding check_head
    check_head-IsMeasured task review qa handover head past h =
        let (named, h₁) = guard-Said world _ _ _ past h in
        let (base, p, based, h₂) = then-Said world _ _ past h₁ in
        let (count, q, counted, h₃) = then-Said world _ _ p h₂ in
        let (one, h₄) = guard-Said world _ _ _ q h₃ in
        let (files, r, diffed, h₅) = then-Said world _ _ q h₄ in
        let (same, done, approved) = check_files-IsApproved task review qa head base files r h₅ in
        let single : count ≡ "1" = (eq_iff count "1").0 (not-eq-false _ one) in
        (
          base,
          files,
          p,
          q,
          not-eq-false _ named,
          based,
          counted ∙ ap (λ n. (ok n, q)) single,
          diffed ∙ ap (λ e. (ok files, e)) done,
          approved,
          same,
        )

    check_documents-IsDocumented :
        (task : Value) (past : List Event)
        → Said world (check_documents node root task) past c end
        → IsDocumented task past
    unfolding check_documents
    check_documents-IsDocumented task past h =
        let (review, p, reviewed, h₁) = then-Said world _ _ past h in
        let (qa, q, tested, h₂) = then-Said world _ _ p h₁ in
        let (handover, r, handed, h₃) = then-Said world _ _ q h₂ in
        let (head, t, parsed, h₄) = then-Said world _ _ r h₃ in
        (
          review,
          qa,
          handover,
          head,
          p,
          q,
          r,
          t,
          reviewed,
          tested,
          handed,
          parsed,
          check_head-IsMeasured task review qa handover head t h₄,
        )

    pub assert_composite-IsChecked :
        (id : String) → Said world (assert_composite node root id) [] c end → IsChecked id
    unfolding assert_composite
    assert_composite-IsChecked id h =
        let (task, past, found, h₁) = then-Said world (task_context node root id) _ [] h in
        (task, past, found, check_documents-IsDocumented task past h₁)
