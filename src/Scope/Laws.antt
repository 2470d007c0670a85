-- ===== src/Scope/Laws.antt =====
-- The files that the evidence actions may touch are managed on main, and the launcher and the
-- pre-commit hook agree on them.
use kakesu.Prelude.{
  String, Bool, true, false, ◌≡◌, refl, ◌⊎◌, inl, inr, List, [], ◌∷◌, ◌||◌, arith, eq_iff, All, ◌⧺◌,
  starts_with, starts_with_self, ends_with_char, or_split,
}
use kakesu.Result.{ok}
use kakesu.Scope.{
  is_main_managed_path, matches_rule, matches, Entry, allowed_for, completion_allowed,
}
use kakesu.Scope.Rules.{RuleClass, allowed_for-rules, completion_allowed-rules}

starts_with_trans :
    (s t u : String) → starts_with s t ≡ true → starts_with t u ≡ true → starts_with s u ≡ true
unfolding starts_with
starts_with_trans s t String.[] h k = refl
starts_with_trans s String.[] (String.◌∷◌ e u) h k = cc
starts_with_trans String.[] (String.◌∷◌ d t) (String.◌∷◌ e u) h k = cc
starts_with_trans (String.◌∷◌ c s) (String.◌∷◌ d t) (String.◌∷◌ e u) h k =
    ground (arith, starts_with_trans s t u)

starts_with-append_more : (s t p : String) → starts_with s p ≡ true → starts_with (s ⧺ t) p ≡ true
starts_with-append_more s t p h = starts_with_trans (s ⧺ t) s p (starts_with_self s t) h

-- A rule that lets only main-managed files through.
abbrev pub IsManagedRule : String → Type 0
IsManagedRule rule =
    (starts_with rule "tasks/" ≡ true)
    ⊎ (starts_with rule "wiki/" ≡ true)
    ⊎ (starts_with rule "lap30/" ≡ true)
    ⊎ (rule ≡ "backlog.yaml")
    ⊎ (rule ≡ "project.yaml")
    ⊎ (rule ≡ "viewer/index.html")

module _ (file : String) where
  under_directory :
      (starts_with file "tasks/" ≡ true)
        ⊎ (starts_with file "wiki/" ≡ true)
        ⊎ (starts_with file "lap30/" ≡ true)
      → is_main_managed_path file ≡ true
  unfolding is_main_managed_path
  under_directory h = ground arith

  matches_rule-starts_with :
      (rule p : String)
      → matches_rule file rule ≡ true
      → starts_with rule p ≡ true
      → starts_with file p ≡ true
  unfolding matches_rule
  matches_rule-starts_with rule p h k =
      ground (arith, starts_with_trans file rule p, eq_iff file rule)

  exact :
      (rule : String)
      → matches_rule file rule ≡ true
      → (ends_with_char b'/' rule || ends_with_char b'-' rule) ≡ false
      → is_main_managed_path rule ≡ true
      → is_main_managed_path file ≡ true
  unfolding matches_rule
  exact rule m plain managed =
      let same : file ≡ rule = (eq_iff file rule).0 (rw plain at m) in rw same managed

  managed_of_rule :
      (rule : String)
      → IsManagedRule rule
      → matches_rule file rule ≡ true
      → is_main_managed_path file ≡ true
  unfolding is_main_managed_path
  managed_of_rule rule (inl h) m =
      under_directory (inl (matches_rule-starts_with rule "tasks/" m h))
  managed_of_rule rule (inr (inl h)) m =
      under_directory (inr (inl (matches_rule-starts_with rule "wiki/" m h)))
  managed_of_rule rule (inr (inr (inl h))) m =
      under_directory (inr (inr (matches_rule-starts_with rule "lap30/" m h)))
  managed_of_rule rule (inr (inr (inr (inl h)))) m = exact "backlog.yaml" (rw h at m) refl refl
  managed_of_rule rule (inr (inr (inr (inr (inl h))))) m =
      exact "project.yaml" (rw h at m) refl refl
  managed_of_rule rule (inr (inr (inr (inr (inr h))))) m =
      exact "viewer/index.html" (rw h at m) refl refl

  pub managed_of_rules :
      (rules : List String)
      → All IsManagedRule rules
      → matches file rules ≡ true
      → is_main_managed_path file ≡ true
  unfolding matches
  managed_of_rules [] h m = cc
  managed_of_rules (r ∷ rs) (p, h) m = elim (or_split _ _ m) [
    | inl here ↦ managed_of_rule r p here
    | inr later ↦ managed_of_rules rs h later
  ]

abbrev pub InTasks : String → Type 0
InTasks dir = starts_with dir "tasks/" ≡ true

IsManagedRule-class : RuleClass IsManagedRule InTasks
unfolding starts_with
IsManagedRule-class = record {
  fixed = (
    inr (inl refl),
    (
      inr (inl refl),
      (
        inr (inl refl),
        (
          inr (inl refl),
          (
            inr (inr (inr (inl refl))),
            (
              inr (inr (inr (inr (inl refl)))),
              (
                inl refl,
                (inr (inl refl), (inr (inr (inl refl)), (inr (inr (inr (inr (inr refl)))), tt))),
              ),
            ),
          ),
        ),
      ),
    ),
  );
  under = λ dir f q plain. inl (starts_with-append_more dir f "tasks/" q);
  grows = λ dir q. starts_with-append_more dir "/" "tasks/" q;
  of_id = λ id. starts_with_self "tasks/" id;
}

-- Whatever the action, a file that the rules of an evidence commit let through is managed on main,
-- if the directories of the registered tasks lie under tasks/.
pub allowed_for-managed :
    (manifest : Bool) (tasks : List Entry) (action id : String) (rules : List String)
    (file : String)
    → All (λ (e : Entry). InTasks e.task_dir) tasks
    → allowed_for manifest tasks action id ≡ ok rules
    → matches file rules ≡ true
    → is_main_managed_path file ≡ true
allowed_for-managed manifest tasks action id rules file dirs e m =
    managed_of_rules file rules
      (rw e at (allowed_for-rules IsManagedRule-class manifest tasks action id dirs)) m

-- A file that the evidence rules of a completion let through is managed on main, if the
-- directory of the task lies under tasks/.
pub completion_allowed-managed :
    (dir file : String)
    → InTasks dir
    → matches file (completion_allowed dir) ≡ true
    → is_main_managed_path file ≡ true
completion_allowed-managed dir file q m =
    managed_of_rules file (completion_allowed dir)
      (completion_allowed-rules IsManagedRule-class dir q) m
