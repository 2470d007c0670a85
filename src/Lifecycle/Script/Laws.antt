-- ===== src/Lifecycle/Script/Laws.antt =====
-- What the requests of a script are leaves the lock alone or changes nothing, and what follows for its
-- runs.
use kakesu.Prelude.{
  String, Bool, true, false, not, ◌&&◌, ◌||◌, ◌≡◌, refl, sym, ◌∙◌, ap, ◌⊎◌, inl, inr, List, [], ◌∷◌,
  arith, if◌then◌else◌, ◌==◌, eq_iff, Bool-cases, or_right,
}
use kakesu.Result.{Result, ok, throw}
use kakesu.Lifecycle.Script.{
  Request, Answer, Script, finish, perform, handle, then_, guard, only_if, Event, World, exec,
  is_reading, is_reading_command, is_lock, spawn, exists, read_text, realpath, write, stat,
  make_dir, remove, chmod, digest, wiki_index, acquire, release,
}

-- All requests of a script, whatever the answers are.
pub data Only (p : Request → Bool) {A : Type 0} : Script A → Type 0 where
  ends : {r : Result A} → Only p (finish r)
  asks :
      {q : Request} {k : Answer q → Script A}
      → p q ≡ true
      → ((a : Answer q) → Only p (k a))
      → Only p (perform q k)

abbrev pub is_cleanup_command : List String → Bool
is_cleanup_command (command ∷ option ∷ _) =
    (command == "worktree" && option == "remove")
    || (command == "branch" && (option == "-d" || option == "-D"))
is_cleanup_command _ = false

-- A worktree or a branch is taken away.
unfoldable pub is_cleanup : Request → Bool
is_cleanup (spawn _ program args _) = program == "git" && is_cleanup_command args
is_cleanup _ = false

-- Neither the lock nor a cleanup.
abbrev pub is_free : Request → Bool
is_free q = not (is_lock q) && not (is_cleanup q)

abbrev is_push_command : List String → Bool
is_push_command (command ∷ _) = command == "push"
is_push_command [] = false

unfoldable pub is_push : Request → Bool
is_push (spawn _ program args _) = program == "git" && is_push_command args
is_push _ = false

-- Nor a push.
abbrev pub is_plain : Request → Bool
is_plain q = is_free q && not (is_push q)

module _ {p : Request → Bool} where
  pub Only-handle :
      {A B : Type 0} (m : Script A) {next : Result A → Script B}
      → Only p m
      → ((r : Result A) → Only p (next r))
      → Only p (handle m next)
  unfolding handle
  Only-handle (finish r) ends k = k r
  Only-handle (perform q f) (asks here rest) k = asks here (λ a. Only-handle (f a) (rest a) k)

  pub Only-then :
      {A B : Type 0} {next : A → Script B}
      → ((a : A) → Only p (next a))
      → (r : Result A) → Only p (then_ next r)
  Only-then k (ok a) = k a
  Only-then k (throw e) = ends

  -- One step after another.
  pub Only-seq :
      {A B : Type 0} {m : Script A} {next : A → Script B}
      → Only p m
      → ((a : A) → Only p (next a))
      → Only p (handle m (then_ next))
  Only-seq {m = m} h k = Only-handle m h (Only-then k)

  pub Only-finish : {A : Type 0} (r : Result A) → Only p (finish r)
  Only-finish r = ends

  pub Only-guard : (b : Bool) (e : String) → Only p (guard b e)
  Only-guard true e = ends
  Only-guard false e = ends

  pub Only-if :
      {A : Type 0} (b : Bool) {m n : Script A} → Only p m → Only p n → Only p (if b then m else n)
  Only-if true h k = h
  Only-if false h k = k

  pub Only-only_if : (b : Bool) {m : Script (Unit {0})} → Only p m → Only p (only_if b m)
  Only-only_if true h = h
  Only-only_if false h = ends

reading_command-free :
    (args : List String) → is_reading_command args ≡ true → is_cleanup_command args ≡ false
reading_command-free (c ∷ o ∷ rest) h = elim (Bool-cases (c == "worktree" && o == "remove")) [
  | inl both ↦
      let e : c ≡ "worktree" = (eq_iff c "worktree").0 (ground arith) in
      let f : o ≡ "remove" = (eq_iff o "remove").0 (ground arith) in
      let wrong : is_reading_command ("worktree" ∷ "remove" ∷ rest) ≡ true = rw (e, f) at h in cc
  | inr other ↦ elim (Bool-cases (c == "branch" && (o == "-d" || o == "-D"))) [
    | inl both ↦
        let e : c ≡ "branch" = (eq_iff c "branch").0 (ground arith) in
        elim (Bool-cases (o == "-d")) [
          | inl f ↦
              let wrong : is_reading_command ("branch" ∷ "-d" ∷ rest) ≡ true =
                rw (e, (eq_iff o "-d").0 f) at h in
              cc
          | inr f ↦
              let g : o ≡ "-D" = (eq_iff o "-D").0 (ground arith) in
              let wrong : is_reading_command ("branch" ∷ "-D" ∷ rest) ≡ true = rw (e, g) at h in cc
        ]
    | inr neither ↦ rw (other, neither) refl
  ]
]
reading_command-free (c ∷ []) h = refl
reading_command-free [] h = refl

push_command-free :
    (args : List String) → is_push_command args ≡ true → is_cleanup_command args ≡ false
push_command-free (c ∷ []) h = refl
push_command-free [] h = refl
push_command-free (c ∷ o ∷ rest) h = let e : c ≡ "push" = (eq_iff c "push").0 h in rw e refl

pub is_reading-free : (q : Request) → is_reading q ≡ true → is_free q ≡ true
unfolding is_reading is_lock is_cleanup
is_reading-free (spawn d program args env) h =
    let quiet : is_cleanup_command args ≡ false = reading_command-free args (ground arith) in
    rw quiet (ground arith)
is_reading-free (exists f) h = refl
is_reading-free (read_text f) h = refl
is_reading-free (realpath f) h = refl
is_reading-free (write f t) h = cc
is_reading-free (make_dir f) h = cc
is_reading-free (remove f) h = cc
is_reading-free (chmod f m) h = cc
is_reading-free (stat f) h = refl
is_reading-free (digest f) h = refl
is_reading-free (wiki_index f) h = refl
is_reading-free (acquire f) h = cc
is_reading-free (release f) h = cc

is_push-free : (q : Request) → is_push q ≡ true → is_free q ≡ true
unfolding is_push is_lock is_cleanup
is_push-free (spawn d program args env) h =
    let quiet : is_cleanup_command args ≡ false = push_command-free args (ground arith) in
    rw quiet (ground arith)
is_push-free q h = cc

-- A weaker condition.
pub Only-map :
    {A : Type 0} {p p' : Request → Bool} (m : Script A)
    → ((q : Request) → p q ≡ true → p' q ≡ true)
    → Only p m
    → Only p' m
Only-map (finish r) f ends = ends
Only-map (perform q k) f (asks here rest) = asks (f q here) (λ a. Only-map (k a) f (rest a))

-- A weaker condition for each request.
pub is_remote_free : (q : Request) → (is_reading q || is_push q) ≡ true → is_free q ≡ true
unfolding is_push
is_remote_free q h = elim (Bool-cases (is_reading q)) [
  | inl reads ↦ is_reading-free q reads
  | inr other ↦ is_push-free q (ground arith)
]

pub plain-free : {A : Type 0} (m : Script A) → Only is_plain m → Only is_free m
plain-free m h = Only-map m (λ q e. ground arith) h

reading_command-push :
    (args : List String) → is_reading_command args ≡ true → is_push_command args ≡ false
reading_command-push (c ∷ o ∷ rest) h = elim (Bool-cases (c == "push")) [
  | inr other ↦ other
  | inl same ↦
      let e : c ≡ "push" = (eq_iff c "push").0 same in
      let wrong : is_reading_command ("push" ∷ o ∷ rest) ≡ true = rw e at h in cc
]
reading_command-push (c ∷ []) h = cc
reading_command-push [] h = refl

is_reading-plain : (q : Request) → is_reading q ≡ true → is_plain q ≡ true
unfolding is_reading is_lock is_push is_cleanup
is_reading-plain (spawn d program args env) h =
    let quiet : is_push_command args ≡ false = reading_command-push args (ground arith) in
    let kept : is_cleanup_command args ≡ false = reading_command-free args (ground arith) in
    rw (quiet, kept) (ground arith)
is_reading-plain (exists f) h = refl
is_reading-plain (read_text f) h = refl
is_reading-plain (realpath f) h = refl
is_reading-plain (write f t) h = cc
is_reading-plain (make_dir f) h = cc
is_reading-plain (remove f) h = cc
is_reading-plain (chmod f m) h = cc
is_reading-plain (stat f) h = refl
is_reading-plain (digest f) h = refl
is_reading-plain (wiki_index f) h = refl
is_reading-plain (acquire f) h = cc
is_reading-plain (release f) h = cc

pub reading-plain : {A : Type 0} (m : Script A) → Only is_reading m → Only is_plain m
reading-plain m h = Only-map m is_reading-plain h

-- What changes nothing leaves the lock alone.
pub reading-free : {A : Type 0} (m : Script A) → Only is_reading m → Only is_free m
reading-free m h = Only-map m is_reading-free h

pub exec-handle :
    {A B : Type 0} (world : World) (m : Script A) (next : Result A → Script B) (past : List Event)
    → exec world (handle m next) past
      ≡ exec world (next (exec world m past).0) (exec world m past).1
unfolding exec handle
exec-handle world (finish r) next past = refl
exec-handle world (perform q k) next past =
    exec-handle world (k (world past q)) next ((q, world past q) ∷ past)

-- A part that did not throw, and the rest.
pub exec-ok :
    {A B : Type 0} (world : World) (m : Script A) (next : A → Script B) (past : List Event) {a : A}
    → (exec world m past).0 ≡ ok a
    → exec world (handle m (then_ next)) past ≡ exec world (next a) (exec world m past).1
exec-ok world m next past h =
    exec-handle world m (then_ next) past
    ∙ (λ i. exec world (then_ next (h i)) (exec world m past).1)

pub ruleset requests = (refl, ends, asks, Only-seq, Only-guard, Only-if, Only-only_if)
