-- ===== src/Lifecycle/Sync/Safe.antt =====
-- Runs in which worktrees and branches are taken away only after what must be seen first.
use kakesu.Prelude.{
  String, Bool, true, false, not, ◌&&◌, ◌≡◌, refl, List, [], ◌∷◌, all, All, All-map, subst, ◌==◌,
  if◌then◌else◌, arith,
}
use kakesu.Result.{Result, ok, throw}
use kakesu.Work.Node.{Spawned, finished}
use kakesu.Lifecycle.Script.{
  Script, Request, Answer, Event, World, exec, finish, perform, handle, then_, spawn, exists,
  read_text, realpath, write, stat, make_dir, remove, chmod, digest, wiki_index, acquire, release,
}
use kakesu.Lifecycle.Script.Laws.{Only, asks, is_cleanup, exec-handle}
use kakesu.Lifecycle.Steps.{git, file_exists}
use kakesu.Lifecycle.Script.Happened.{happened, happened-stays}

abbrev same : List String → List String → Bool
same [] [] = true
same (s ∷ ss) (t ∷ ts) = s == t && same ss ts
same _ _ = false

abbrev is_said : (String → Bool) → Result String → Bool
is_said says (ok s) = says s
is_said says (throw _) = false

-- The worktree was looked up and is not there, or git said that nothing in it is changed.
abbrev pub sees_clean : String → (q : Request) → Answer q → Bool
sees_clean worktree (exists path) false = path == worktree
sees_clean worktree (spawn dir program args _) a =
    program == "git"
    && dir == worktree
    && same args ("status" ∷ "--porcelain" ∷ [])
    && is_said (λ s. s == "") (finished a)
sees_clean worktree _ _ = false

-- Git said that the branch is an ancestor of main.
abbrev pub sees_merged : String → String → (q : Request) → Answer q → Bool
sees_merged root branch (spawn dir program args _) a =
    program == "git"
    && dir == root
    && same args ("merge-base" ∷ "--is-ancestor" ∷ branch ∷ "main" ∷ [])
    && is_said (λ s. true) (finished a)
sees_merged root branch _ _ = false

-- All this was seen.
abbrev pub Seen : List ((q : Request) → Answer q → Bool) → List Event → Type 0
Seen sights past = All (λ sees. happened sees past ≡ true) sights

module _ (root : String) where
  abbrev may_clean_up : List Event → List String → Bool
  may_clean_up past (command ∷ option ∷ names) =
      if command == "worktree"
      then all (λ name. happened (sees_clean name) past) names
      else all (λ name. happened (sees_merged root name) past) names
  may_clean_up past _ = false

  abbrev permitted : Request → List Event → Bool
  permitted (spawn dir program args env) past =
      if is_cleanup (spawn dir program args env) then may_clean_up past args else true
  permitted _ past = true

  -- Each worktree that was removed was seen to be missing or clean before, and each branch that was
  -- deleted was seen to be merged.
  unfoldable pub is_safe : List Event → Bool
  unfolding is_cleanup
  is_safe [] = true
  is_safe ((q, a) ∷ past) = permitted q past && is_safe past

  kept-permitted :
      (q : Request) (past : List Event) → not (is_cleanup q) ≡ true → permitted q past ≡ true
  kept-permitted (spawn dir program args env) past h = ground arith
  kept-permitted (exists f) past h = refl
  kept-permitted (read_text f) past h = refl
  kept-permitted (realpath f) past h = refl
  kept-permitted (write f t) past h = refl
  kept-permitted (stat f) past h = refl
  kept-permitted (make_dir f) past h = refl
  kept-permitted (remove f) past h = refl
  kept-permitted (chmod f m) past h = refl
  kept-permitted (digest f) past h = refl
  kept-permitted (wiki_index f) past h = refl
  kept-permitted (acquire f) past h = refl
  kept-permitted (release f) past h = refl

  kept-safe :
      {A : Type 0} (world : World) (m : Script A) (past : List Event)
      → Only (λ q. not (is_cleanup q)) m
      → is_safe past ≡ true
      → is_safe (exec world m past).1 ≡ true
  unfolding exec is_safe
  kept-safe world (finish r) past h safe = safe
  kept-safe world (perform q k) past (asks here rest) safe =
      kept-safe world (k (world past q)) ((q, world past q) ∷ past) (rest (world past q))
        (rw (kept-permitted q past here, safe) refl)

  -- From a safe run where P holds, the script makes a safe run, where Q holds of its result.
  pub data Leads (world : World) {A : Type 0} (P : List Event → Type 0)
      (Q : A → List Event → Type 0) (m : Script A) : Type 0 where
    leads :
        ((past : List Event)
          → is_safe past ≡ true
          → P past
          → (is_safe (exec world m past).1 ≡ true)
            × ((a : A) → (exec world m past).0 ≡ ok a → Q a (exec world m past).1))
        → Leads world P Q m

  module _ {world : World} where
    Leads-from :
        {A : Type 0} {P : List Event → Type 0} {Q : A → List Event → Type 0} {m : Script A}
        → Leads world P Q m
        → (past : List Event) → is_safe past ≡ true
        → P past
        → (is_safe (exec world m past).1 ≡ true)
          × ((a : A) → (exec world m past).0 ≡ ok a → Q a (exec world m past).1)
    Leads-from (leads h) = h

    pub Leads-run :
        {A : Type 0} {P : List Event → Type 0} {Q : A → List Event → Type 0} {m : Script A}
        → Leads world P Q m
        → P []
        → is_safe (exec world m []).1 ≡ true
    unfolding is_safe
    Leads-run (leads h) p = (h [] refl p).0

    pub Leads-seq :
        {A B : Type 0} {P : List Event → Type 0} {Q : A → List Event → Type 0}
        {R : B → List Event → Type 0} {m : Script A} {next : A → Script B}
        → Leads world P Q m
        → ((a : A) → Leads world (Q a) R (next a))
        → Leads world P R (handle m (then_ next))
    unfolding exec
    Leads-seq {A} {B} {Q = Q} {R = R} {m = m} {next = next} (leads h) k = leads (λ past safe p.
        let (safe_after, q) = h past safe p in
        rw (exec-handle world m (then_ next) past)
          (went (exec world m past).0 (exec world m past).1 safe_after q))
      where
        went :
            (r : Result A) (now : List Event)
            → is_safe now ≡ true
            → ((a : A) → r ≡ ok a → Q a now)
            → (is_safe (exec world (then_ next r) now).1 ≡ true)
              × ((b : B)
                  → (exec world (then_ next r) now).0 ≡ ok b
                  → R b (exec world (then_ next r) now).1)
        went (throw e) now safe q = (safe, λ b wrong. absurd (ground arith))
        went (ok a) now safe q = Leads-from (k a) now safe (q a refl)

    pub Leads-finish :
        {A : Type 0} {P : List Event → Type 0} {Q : A → List Event → Type 0} (r : Result A)
        → ((a : A) (past : List Event) → P past → Q a past)
        → Leads world P Q (finish r)
    unfolding exec
    Leads-finish r h = leads (λ past safe p. (safe, λ a e. h a past p))

    pub Leads-throw :
        {A : Type 0} {P : List Event → Type 0} {Q : A → List Event → Type 0} (e : String)
        → Leads world P Q (finish (throw e))
    unfolding exec
    Leads-throw e = leads (λ past safe p. (safe, λ a wrong. absurd (ground arith)))

    pub Leads-git :
        {P : List Event → Type 0} {Q : String → List Event → Type 0} (dir : String)
        (args : List String)
        → ((past : List Event) → P past → permitted (spawn dir "git" args []) past ≡ true)
        → ((past : List Event) (a : Spawned) (s : String)
            → P past
            → finished a ≡ ok s
            → Q s ((spawn dir "git" args [], a) ∷ past))
        → Leads world P Q (git dir args)
    unfolding exec is_safe
    Leads-git dir args permit sees = leads (λ past safe p. (
      rw (permit past p, safe) refl,
      λ s e. sees past (world past (spawn dir "git" args [])) s p e,
    ))

    pub Leads-exists :
        {P : List Event → Type 0} {Q : Bool → List Event → Type 0} (path : String)
        → ((past : List Event) (b : Bool) → P past → Q b ((exists path, b) ∷ past))
        → Leads world P Q (file_exists path)
    unfolding exec is_safe
    Leads-exists {Q = Q} path sees = leads (λ past safe p.
        let a : Bool = world past (exists path) in
        (
          safe,
          λ b e.
              (let same : a ≡ b = cc in
                subst (λ c. Q c ((exists path, a) ∷ past)) same (sees past a p)),
        ))

    pub Leads-kept :
        {A : Type 0} (sights : List ((q : Request) → Answer q → Bool)) (m : Script A)
        → Only (λ q. not (is_cleanup q)) m
        → Leads world (Seen sights) (λ a. Seen sights) m
    Leads-kept sights m h = leads (λ past safe seen. (
      kept-safe world m past h safe,
      λ a e. All-map (λ sees saw. happened-stays sees world m past saw) sights seen,
    ))
