-- ===== src/Registry/Settled.antt =====
-- What the decisions are once scripts/task/validate-work.mjs reports nothing for them.
use kakesu.Prelude.{
  String, true, false, not, ◌&&◌, ◌≡◌, sym, ◌⊎◌, inl, inr, List, [], ◌∷◌, arith, All, any,
  Bool-cases, Option-cases,
}
use kakesu.Js.{Value, prop, strict_eq}
use kakesu.Result.{ok}
use kakesu.Work.Node.{Node}
use kakesu.Check.Findings.{reports}
use kakesu.Check.Findings.Laws.{
  Clean, >>=-Clean, lift-Clean, reports-Quiet, Quiet, each-Clean, pure-Clean,
}
use kakesu.Check.Values.{is}
use kakesu.Registry.Entries.{listed}
use kakesu.Registry.Decisions.{
  Page, Decision, id_of, status_of, status_by_id, is_superseded, supersession_reports, is_successor,
  successor_reports, check_supersession, check_decisions,
}

-- A decision with this id is recorded as superseded.
abbrev pub IsRetired : List Decision → Value → Type 0
IsRetired decisions id =
    any (λ d. strict_eq (id_of d) id && is "superseded" (status_of d)) decisions ≡ true

-- A decision supersedes others only, which are retired if it is accepted. If it is superseded itself,
-- an accepted decision supersedes it.
abbrev pub IsSettled : List Decision → Decision → Type 0
IsSettled decisions d =
    (superseded : List Value) × (listed (prop "supersedes" d.metadata) ≡ ok superseded)
    × All
        (λ s.
          (strict_eq s (id_of d) ≡ false)
          × ((is "accepted" (status_of d) ≡ false) ⊎ IsRetired decisions s))
        superseded
    × ((is "superseded" (status_of d) ≡ false) ⊎ (any (is_successor d) decisions ≡ true))

status_by_id-IsRetired :
    (decisions : List Decision) (id : Value)
    → is_superseded (status_by_id decisions id) ≡ true
    → IsRetired decisions id
unfolding status_by_id
status_by_id-IsRetired [] id h = cc
status_by_id-IsRetired (d ∷ ds) id h = elim (Option-cases (status_by_id ds id)) [
  | inr (s, later) ↦
      let rest = status_by_id-IsRetired ds id (rw later (rw later at h)) in ground arith
  | inl last ↦ ground arith
]

retired :
    (decisions : List Decision) (d : Decision) (s : Value)
    → (is "accepted" (status_of d) && not (is_superseded (status_by_id decisions s))) ≡ false
    → (is "accepted" (status_of d) ≡ false) ⊎ IsRetired decisions s
retired decisions d s h = elim (Bool-cases (is "accepted" (status_of d))) [
  | inr other ↦ inl other
  | inl accepted ↦ inr (status_by_id-IsRetired decisions s (ground arith))
]

supersession_reports-IsRetired :
    (ids : List Value) (decisions : List Decision) (d : Decision) (ss : List Value)
    → Quiet (supersession_reports ids decisions d ss)
    → All
        (λ s.
          (strict_eq s (id_of d) ≡ false)
          × ((is "accepted" (status_of d) ≡ false) ⊎ IsRetired decisions s))
        ss
unfolding supersession_reports
supersession_reports-IsRetired ids decisions d [] q = tt
supersession_reports-IsRetired ids decisions d (s ∷ ss) (other, (_, (gone, q))) =
    ((other, retired decisions d s gone), supersession_reports-IsRetired ids decisions d ss q)

succeeded :
    (decisions : List Decision) (d : Decision)
    → Quiet (successor_reports decisions d)
    → (is "superseded" (status_of d) ≡ false) ⊎ (any (is_successor d) decisions ≡ true)
succeeded decisions d (h, _) = elim (Bool-cases (is "superseded" (status_of d))) [
  | inr other ↦ inl other
  | inl superseded ↦ inr (ground arith)
]

module _ (node : Node) (root : String) (schema_issues : String → Value → String → List String) where
  All-IsSettled :
      (ids : List Value) (decisions ds : List Decision)
      → All (λ d. Clean (check_supersession node root schema_issues ids decisions d) tt) ds
      → All (λ d. Clean (reports (successor_reports decisions d)) tt) ds
      → All (IsSettled decisions) ds
  unfolding check_supersession
  All-IsSettled ids decisions [] h k = tt
  All-IsSettled ids decisions (d ∷ ds) (h, hs) (k, ks) =
      let (superseded, found, quiet) = >>=-Clean _ _ h in
      (
        (
          superseded,
          lift-Clean _ found,
          supersession_reports-IsRetired ids decisions d superseded (reports-Quiet _ quiet),
          succeeded decisions d (reports-Quiet _ k),
        ),
        All-IsSettled ids decisions ds hs ks,
      )

  -- Decisions for which nothing is reported are settled: none supersedes itself, what an accepted one
  -- supersedes is recorded as superseded, and each superseded one is superseded by an accepted one.
  pub check_decisions-IsSettled :
      (pages : List Page) (decisions : List Decision)
      → Clean (check_decisions node root schema_issues pages) decisions
      → All (IsSettled decisions) decisions
  unfolding check_decisions
  check_decisions-IsSettled pages decisions h =
      let ((ids, found), _, h1) = >>=-Clean _ _ h in
      let (_, first, h2) = >>=-Clean _ _ h1 in
      let (_, second, h3) = >>=-Clean _ _ h2 in
      rw (sym (pure-Clean _ h3))
        (All-IsSettled ids found found (each-Clean _ found first) (each-Clean _ found second))
