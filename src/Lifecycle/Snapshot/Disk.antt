-- ===== src/Lifecycle/Snapshot/Disk.antt =====
-- Files as a run changes them, and what the operations on files are documented to do.
use kakesu.Prelude.{
  ℕ, String, Bool, true, false, ◌≡◌, refl, Option, some, none, List, [], ◌∷◌, ◌==◌, if◌then◌else◌,
}
use kakesu.Result.{Result, ok}
use kakesu.Lifecycle.Script.{
  Script, Answer, Request, Event, World, exec, finish, perform, spawn, exists, read_text, write,
  stat, make_dir, remove, chmod,
}

-- The mode and the bytes of a file, if it is there.
abbrev pub State : Type 0
State = Option (ℕ × String)

abbrev pub written : String → State → State
written text none = some (420, text)
written text (some (mode, _)) = some (mode, text)

abbrev pub with_mode : ℕ → State → State
with_mode mode none = none
with_mode mode (some (_, text)) = some (mode, text)

-- What a program that was run has done to the files, by its directory, name and arguments.
abbrev pub Effect : Type 0
Effect = String → String → List String → (String → State) → String → State

-- The files after what happened, from what they were at the start.
unfoldable pub disk : (String → State) → Effect → List Event → String → State
disk start effect [] path = start path
disk start effect ((spawn dir program args env, _) ∷ past) path =
    effect dir program args (disk start effect past) path
disk start effect ((write f text, ok _) ∷ past) path =
    let before = disk start effect past path in if f == path then written text before else before
disk start effect ((chmod f mode, ok _) ∷ past) path =
    let before = disk start effect past path in if f == path then with_mode mode before else before
disk start effect ((remove f, ok _) ∷ past) path =
    let before = disk start effect past path in if f == path then none else before
disk start effect (_ ∷ past) path = disk start effect past path

abbrev pub is_there : State → Bool
is_there none = false
is_there (some _) = true

-- The answers fit the files and the directories, `dirs`, and an operation fails only where the file or
-- its directory is not there. `makes` and `made` are `mkdirSync` with `recursive`.
pub record IsObliging (start : String → State) (effect : Effect) (dirname : String → String)
    (dirs : List Event → String → Bool) (world : World) : Type 0 where
  pub tells :
      (past : List Event) (f : String) → world past (exists f) ≡ is_there (disk start effect past f)
  pub shows_mode :
      (past : List Event) (f : String) (mode : ℕ) (text : String)
      → disk start effect past f ≡ some (mode, text)
      → world past (stat f) ≡ ok mode
  pub shows_text :
      (past : List Event) (f : String) (mode : ℕ) (text : String)
      → disk start effect past f ≡ some (mode, text)
      → world past (read_text f) ≡ ok text
  pub writes :
      (past : List Event) (f text : String)
      → dirs past (dirname f) ≡ true
      → world past (write f text) ≡ ok tt
  pub makes : (past : List Event) (d : String) → world past (make_dir d) ≡ ok tt
  pub made : (past : List Event) (d : String) → dirs ((make_dir d, ok tt) ∷ past) d ≡ true
  pub removes :
      (past : List Event) (f : String)
      → is_there (disk start effect past f) ≡ true
      → world past (remove f) ≡ ok tt
  pub sets_mode :
      (past : List Event) (f : String) (mode : ℕ)
      → is_there (disk start effect past f) ≡ true
      → world past (chmod f mode) ≡ ok tt

pub is_there-written :
    (same : Bool) (text : String) (before : State)
    → same ≡ true
    → is_there (if same then written text before else before) ≡ true
is_there-written true text none e = refl
is_there-written true text (some _) e = refl
is_there-written false text before e = cc

pub set_state :
    (same : Bool) (before : State) (mode : ℕ) (text : String)
    → (if same
        then with_mode mode (if same then written text before else before)
        else (if same then written text before else before))
      ≡ (if same then some (mode, text) else before)
set_state false before mode text = refl
set_state true none mode text = refl
set_state true (some _) mode text = refl

pub exec-finish :
    {A : Type 0} (world : World) (r : Result A) (past : List Event)
    → exec world (finish r) past ≡ (r, past)
unfolding exec
exec-finish world r past = refl

pub exec-answered :
    {A : Type 0} (world : World) (q : Request) (k : Answer q → Script A) (past : List Event)
    {a : Answer q}
    → world past q ≡ a
    → exec world (perform q k) past ≡ exec world (k a) ((q, a) ∷ past)
unfolding exec
exec-answered world q k past e = λ i. exec world (k (e i)) ((q, e i) ∷ past)
