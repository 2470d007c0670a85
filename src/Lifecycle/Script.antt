-- ===== src/Lifecycle/Script.antt =====
-- The transactions of scripts/task/unified-lifecycle.mjs run commands and read and write files while
-- others may do so too. A transaction is a tree of requests: each has as many continuations as it
-- has answers. A run gives each request an answer that may depend on all that happened before.
pub mod Laws
pub mod Careful
pub mod Alone
pub mod Runs
pub mod Happened
pub mod Gives
pub mod Pushes
use kakesu.Prelude.{
  ℕ, String, Bool, true, false, not, ◌&&◌, ◌||◌, ◌≡◌, refl, List, [], ◌∷◌, any, ◌==◌, if◌then◌else◌,
  ◌⧺◌,
}
use kakesu.Js.{Value}
use kakesu.Result.{Result, ok, throw}
use kakesu.Work.Node.{Spawned, finished}

pub data Request : Type 0 where
  -- `spawnSync(program, args, { cwd })`: the directory, the program, its arguments, and what is added
  -- to the environment
  spawn : String → String → List String → List (String × String) → Request
  -- `fs`
  exists read_text realpath : String → Request
  write : String → String → Request
  -- `statSync(path).mode & 0o7777`, `mkdirSync(path, { recursive: true })`, `rmSync(path)` and `chmodSync`
  stat make_dir remove : String → Request
  chmod : String → ℕ → Request
  -- `changedContentDigest(root, { cached: false })`
  digest : String → Request
  -- the text of `buildWikiIndex(root)`
  wiki_index : String → Request
  -- `acquireWorkRepoLock(root, { requireClean: false })`, and the function that it returns
  acquire release : String → Request

abbrev pub Answer : Request → Type 0
Answer (spawn _ _ _ _) = Spawned
Answer (exists _) = Bool
Answer (read_text _) = Result String
Answer (realpath _) = Result String
Answer (write _ _) = Result (Unit {0})
Answer (stat _) = Result ℕ
Answer (make_dir _) = Result (Unit {0})
Answer (remove _) = Result (Unit {0})
Answer (chmod _ _) = Result (Unit {0})
Answer (digest _) = Result String
Answer (wiki_index _) = Result String
Answer (acquire _) = Result (Unit {0})
Answer (release _) = Unit {0}

pub data Script (A : Type 0) : Type 0 where
  finish : Result A → Script A
  perform : (q : Request) → (Answer q → Script A) → Script A

-- What goes on after a result, thrown or not.
unfoldable pub handle : {A B : Type 0} → Script A → (Result A → Script B) → Script B
handle (finish r) next = next r
handle (perform q k) next = perform q (λ a. handle (k a) next)

abbrev pub then_ : {A B : Type 0} → (A → Script B) → Result A → Script B
then_ next (ok a) = next a
then_ next (throw e) = finish (throw e)

infixl 5 ◌>>=◌ ◌>>◌
abbrev pub ◌>>=◌ : {A B : Type 0} (m : Script A) (next : A → Script B) → Script B
m >>= next = handle m (then_ next)

abbrev pub ◌>>◌ : {B : Type 0} (m : Script (Unit {0})) (rest : Script B) → Script B
m >> rest = m >>= λ _. rest

abbrev pub lift : {A : Type 0} → Result A → Script A
lift r = finish r

abbrev pub guard : Bool → String → Script (Unit {0})
guard true e = finish (throw e)
guard false e = finish (ok tt)

abbrev pub only_if : Bool → Script (Unit {0}) → Script (Unit {0})
only_if true m = m
only_if false m = finish (ok tt)

-- What happened, the last request first.
abbrev pub Event : Type 0
Event = (q : Request) × Answer q

-- The answer to a request, after what happened before.
abbrev pub World : Type 0
World = List Event → (q : Request) → Answer q

unfoldable pub exec : {A : Type 0} → World → Script A → List Event → Result A × List Event
exec world (finish r) past = (r, past)
exec world (perform q k) past = let a = world past q in exec world (k a) ((q, a) ∷ past)

-- The lock is held after an acquisition that did not fail, until a release.
unfoldable pub held : List Event → Bool
held [] = false
held ((acquire _, ok _) ∷ past) = true
held ((release _, _) ∷ past) = false
held (_ ∷ past) = held past

abbrev pub is_reading_command : List String → Bool
is_reading_command (command ∷ option ∷ _) =
    any (λ c. c == command)
      ("rev-parse" ∷ "diff" ∷ "ls-files" ∷ "status" ∷ "cat-file" ∷ "merge-base" ∷ "rev-list"
        ∷ "ls-remote" ∷ [])
    || (command == "worktree" && option == "list")
    || (command == "branch" && option == "--show-current")
is_reading_command _ = false

-- A request that changes nothing.
unfoldable pub is_reading : Request → Bool
is_reading (spawn _ program args _) = program == "git" && is_reading_command args
is_reading (write _ _) = false
is_reading (make_dir _) = false
is_reading (remove _) = false
is_reading (chmod _ _) = false
is_reading (acquire _) = false
is_reading (release _) = false
is_reading _ = true

unfoldable pub is_lock : Request → Bool
is_lock (acquire _) = true
is_lock (release _) = true
is_lock _ = false

-- What is not quiet is done under the lock alone, and the lock is acquired once at a time.
abbrev pub allowed : (Request → Bool) → Request → Bool → Bool
allowed quiet (acquire _) now = not now
allowed quiet q now = quiet q || now

unfoldable pub is_careful : (Request → Bool) → List Event → Bool
unfolding held
is_careful quiet [] = true
is_careful quiet ((q, a) ∷ past) = allowed quiet q (held past) && is_careful quiet past

-- Nothing is changed, and the lock is not released, unless it is held.
abbrev pub is_proper : List Event → Bool
is_proper = is_careful is_reading

-- A part that is run under the lock, which is given back whatever comes of it.
abbrev pub released : {A : Type 0} → String → Result A → Script A
released root r = perform (release root) (λ _. finish r)

abbrev pub locked : {A : Type 0} → String → Script A → Result (Unit {0}) → Script A
locked root body (throw e) = finish (throw e)
locked root body (ok _) = handle body (released root)

abbrev pub under : {A : Type 0} → String → Script A → Script A
under root body = perform (acquire root) (locked root body)
