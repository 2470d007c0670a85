-- ===== src/Scope/Rules.antt =====
-- The shape of the rules that `allowedFor` and `completionAllowed` return.
use kakesu.Prelude.{
  String, Bool, true, false, ◌≡◌, refl, Option, none, some, inl, inr, List, [], ◌∷◌, ◌||◌, ◌&&◌,
  not, arith, ◌==◌, Bool-cases, All, All-append, ◌⧺◌, ends_with_char, if◌then◌else◌,
}
use kakesu.Result.{Result, ok, throw, ◌>>=◌, throw_if-eq-ok}
use kakesu.Scope.{
  main_managed_paths, Entry, task_by_id, task_context, action_files, planning_files, in_dir,
  allowed_in, allowed_for, completion_allowed,
}

-- A text that is not empty and does not end with "*".
abbrev pub is_plain : String → Bool
is_plain f = not (f == "") && not (ends_with_char b'*' f)

-- The rules that name no task.
abbrev pub fixed_rules : List String
fixed_rules =
    "wiki/semantic/" ∷ "wiki/decisions/" ∷ "wiki/ingestions/" ∷ "wiki/index.json"
    ∷ main_managed_paths

-- A class `P` of rules that holds the fixed ones, and what is appended to a directory of class `Q`.
pub record RuleClass (P Q : String → Type 0) : Type 0 where
  pub fixed : All P fixed_rules
  pub under : (dir f : String) → Q dir → is_plain f ≡ true → P (dir ⧺ f)
  pub grows : (dir : String) → Q dir → Q (dir ⧺ "/")
  pub of_id : (id : String) → Q ("tasks/" ⧺ id)

plain_files :
    (action : String) (files : List String)
    → action_files action ≡ some files
    → All (λ f. is_plain f ≡ true) files
unfolding ends_with_char
plain_files action files h = ground arith

module _ {P Q : String → Type 0} (c : RuleClass P Q) where
  abbrev pub AllRules : Result (List String) → Type 0
  AllRules (ok rules) = All P rules
  AllRules (throw e) = Unit

  AllRules-if :
      (b : Bool) (x y : Result (List String))
      → AllRules x
      → AllRules y
      → AllRules (if b then x else y)
  AllRules-if true x y h k = h
  AllRules-if false x y h k = k

  backlog : P "backlog.yaml"
  backlog = let (_, (_, (_, (_, (b, _))))) = c.fixed in b

  AllRules-sync : AllRules (ok ("backlog.yaml" ∷ "wiki/" ∷ "viewer/index.html" ∷ "tasks/" ∷ []))
  AllRules-sync =
      let (_, (_, (_, (_, (b, (_, (t, (w, (_, (v, _)))))))))) = c.fixed in (b, (w, (v, (t, tt))))

  module _ (dir : String) (q : Q dir) where
    in_dir-rules :
        (files : List String) → All (λ f. is_plain f ≡ true) files → All P (in_dir dir files)
    in_dir-rules [] h = tt
    in_dir-rules (f ∷ fs) (p, h) = (c.under (dir ⧺ "/") f (c.grows dir q) p, in_dir-rules fs h)

    AllRules-action_files :
        (o : Option (List String)) (other : Result (List String))
        → (o ≡ none → AllRules other)
        → ((files : List String) → o ≡ some files → All (λ f. is_plain f ≡ true) files)
        → AllRules (elim o [ some files ↦ ok (in_dir dir files) | none ↦ other ])
    AllRules-action_files none other h plain = h refl
    AllRules-action_files (some files) other h plain = in_dir-rules files (plain files refl)

    allowed_in-rules : (action : String) → AllRules (allowed_in action dir)
    unfolding ends_with_char
    allowed_in-rules action =
        AllRules-if (action == "planning-gate") _ _
          (backlog, in_dir-rules planning_files (refl, (refl, (refl, (refl, (refl, (refl, tt)))))))
          (AllRules-action_files (action_files action) _
            (λ _.
              AllRules-if (action == "task-start") _ _ (backlog, (c.under dir "/" q refl, tt))
                (AllRules-if (action == "main-transition") _ _
                  (
                    backlog,
                    (c.under dir "/TASK.md" q refl, (c.under dir "/HANDOVER.md" q refl, tt)),
                  )
                  (AllRules-if (action == "sync") _ _ AllRules-sync tt)))
            (plain_files action))

    pub completion_allowed-rules : All P (completion_allowed dir)
    unfolding ends_with_char
    completion_allowed-rules =
        let (_, (_, (_, (_, (b, (_, (t, (w, _)))))))) = c.fixed in
        All-append P
          ("backlog.yaml"
            ∷ in_dir dir (
                "TASK.md" ∷ "QA_PLAN.md" ∷ "REVIEW_RESULT.md" ∷ "QA_RESULT.md" ∷ "HANDOVER.md"
                ∷ []))
          ("wiki/" ∷ [])
          (
            b,
            in_dir-rules
                ("TASK.md" ∷ "QA_PLAN.md" ∷ "REVIEW_RESULT.md" ∷ "QA_RESULT.md" ∷ "HANDOVER.md"
                  ∷ [])
                (refl, (refl, (refl, (refl, (refl, tt))))),
          )
          (w, tt)

  task_by_id-dir :
      (tasks : List Entry) (id : String) (t : Entry)
      → All (λ (e : Entry). Q e.task_dir) tasks
      → task_by_id tasks id ≡ ok t
      → Q t.task_dir
  unfolding task_by_id
  task_by_id-dir [] id t h e = cc
  task_by_id-dir (s ∷ ts) id t (q, h) e = elim (Bool-cases (s.id == id)) [
    | inl same ↦ let e' : s ≡ t = ground arith in rw (← e') q
    | inr other ↦ task_by_id-dir ts id t h (rw other at e)
  ]

  context-rules :
      (tasks : List Entry) (id action : String)
      → All (λ (e : Entry). Q e.task_dir) tasks
      → AllRules (task_context tasks id >>= λ (t : Entry). allowed_in action t.task_dir)
  unfolding task_context
  context-rules tasks id action h =
      from (task_context tasks id) λ t e. task_by_id-dir tasks id t h (throw_if-eq-ok _ _ _ e).1
    where
      from :
          (r : Result Entry)
          → ((t : Entry) → r ≡ ok t → Q t.task_dir)
          → AllRules (r >>= λ (t : Entry). allowed_in action t.task_dir)
      from (throw e) q = tt
      from (ok t) q = allowed_in-rules t.task_dir (q t refl) action

  -- Every rule of an evidence action is of the class, if the task directories are.
  pub allowed_for-rules :
      (manifest : Bool) (tasks : List Entry) (action id : String)
      → All (λ (e : Entry). Q e.task_dir) tasks
      → AllRules (allowed_for manifest tasks action id)
  unfolding allowed_for ends_with_char
  allowed_for-rules manifest tasks action id h =
      AllRules-if (action == "bootstrap") _ _
        (AllRules-if (not (id == "TASK-0033") || not manifest) _ _ tt main_managed)
        (AllRules-if (action == "task-start-rollback") _ _
          (backlog, (c.under ("tasks/" ⧺ id) "-" (c.of_id id) refl, tt))
          (AllRules-if (action == "wiki") _ _ wiki (context-rules tasks id action h)))
    where
      main_managed : AllRules (ok main_managed_paths)
      main_managed = let (_, (_, (_, (_, rest)))) = c.fixed in rest

      wiki :
          AllRules (
            ok ("wiki/semantic/" ∷ "wiki/decisions/" ∷ "wiki/ingestions/" ∷ "wiki/index.json" ∷ []))
      wiki = let (a, (b, (d, (e, _)))) = c.fixed in (a, (b, (d, (e, tt))))
