-- ===== src/Lifecycle/Script/Careful.antt =====
-- Runs of scripts that change nothing without the lock, and give it back.
use kakesu.Prelude.{String, Bool, true, false, ◌||◌, ◌≡◌, refl, ◌∙◌, List, ◌∷◌, arith, or_right}
use kakesu.Result.{Result, ok, throw}
use kakesu.Lifecycle.Script.{
  Request, Answer, Script, finish, perform, handle, then_, Event, World, exec, held, is_reading,
  is_lock, is_careful, is_proper, under, locked, released, spawn, exists, read_text, realpath,
  write, stat, make_dir, remove, chmod, digest, wiki_index, acquire, release,
}
use kakesu.Lifecycle.Script.Laws.{Only, asks, is_free, is_reading-free, exec-handle}

-- The lock is in the same state, and all went with care.
abbrev pub Keeps : (Request → Bool) → List Event → List Event → Type 0
Keeps quiet past now = (held now ≡ held past) × (is_careful quiet now ≡ true)

pub free-held :
    (q : Request) (a : Answer q) (past : List Event)
    → is_free q ≡ true
    → held ((q, a) ∷ past) ≡ held past
unfolding held is_lock
free-held (spawn d program args env) a past h = refl
free-held (exists f) a past h = refl
free-held (read_text f) a past h = refl
free-held (realpath f) a past h = refl
free-held (write f t) a past h = refl
free-held (stat f) a past h = refl
free-held (make_dir f) a past h = refl
free-held (remove f) a past h = refl
free-held (chmod f m) a past h = refl
free-held (digest f) a past h = refl
free-held (wiki_index f) a past h = refl
free-held (acquire f) a past h = cc
free-held (release f) a past h = cc

pub free-careful :
    (quiet : Request → Bool) (q : Request) (a : Answer q) (past : List Event)
    → is_free q ≡ true
    → (quiet q || held past) ≡ true
    → is_careful quiet past ≡ true
    → is_careful quiet ((q, a) ∷ past) ≡ true
unfolding is_careful is_lock
free-careful quiet (spawn d program args env) a past h k p = ground arith
free-careful quiet (exists f) a past h k p = ground arith
free-careful quiet (read_text f) a past h k p = ground arith
free-careful quiet (realpath f) a past h k p = ground arith
free-careful quiet (write f t) a past h k p = ground arith
free-careful quiet (stat f) a past h k p = ground arith
free-careful quiet (make_dir f) a past h k p = ground arith
free-careful quiet (remove f) a past h k p = ground arith
free-careful quiet (chmod f m) a past h k p = ground arith
free-careful quiet (digest f) a past h k p = ground arith
free-careful quiet (wiki_index f) a past h k p = ground arith
free-careful quiet (acquire f) a past h k p = cc
free-careful quiet (release f) a past h k p = cc

module _ (quiet : Request → Bool) where
  -- Under the lock, a script that leaves it alone runs with care.
  pub exec-free :
      {A : Type 0} (world : World) (m : Script A) (past : List Event)
      → Only is_free m
      → held past ≡ true
      → is_careful quiet past ≡ true
      → Keeps quiet past (exec world m past).1
  unfolding exec
  exec-free world (finish r) past h locked p = (refl, p)
  exec-free world (perform q k) past (asks here rest) locked p =
      let a = world past q in
      let same = free-held q a past here in
      let later =
        exec-free world (k a) ((q, a) ∷ past) (rest a) (same ∙ locked)
          (free-careful quiet q a past here (ground arith) p) in
      (later.0 ∙ same, later.1)

  -- A quiet script runs with care at any time.
  pub exec-quiet :
      {A : Type 0} (world : World) (m : Script A) (past : List Event)
      → ((q : Request) → quiet q ≡ true → is_free q ≡ true)
      → Only quiet m
      → is_careful quiet past ≡ true
      → Keeps quiet past (exec world m past).1
  unfolding exec
  exec-quiet world (finish r) past f h p = (refl, p)
  exec-quiet world (perform q k) past f (asks here rest) p =
      let a = world past q in
      let free = f q here in
      let same = free-held q a past free in
      let later =
        exec-quiet world (k a) ((q, a) ∷ past) f (rest a)
          (free-careful quiet q a past free (ground arith) p) in
      (later.0 ∙ same, later.1)

  -- The lock is not held, and all went with care.
  abbrev pub IsSettled : {A : Type 0} → Result A × List Event → Type 0
  IsSettled run = (is_careful quiet run.1 ≡ true) × (held run.1 ≡ false)

  -- A part under the lock, with the answer to the acquisition.
  locked-IsSettled :
      {A : Type 0} (world : World) (root : String) (m : Script A) (past : List Event)
      (a : Result (Unit {0}))
      → Only is_free m
      → held past ≡ false
      → is_careful quiet past ≡ true
      → IsSettled (exec world (locked root m a) ((acquire root, a) ∷ past))
  unfolding exec held is_careful
  locked-IsSettled world root m past (throw e) h free p = (rw (free, p) refl, free)
  locked-IsSettled world root m past (ok u) h free p =
      let now : List Event = (acquire root, ok u) ∷ past in
      let (same, careful) = exec-free world m now h refl (rw (free, p) refl) in
      let last = exec world m now in
      let freed : (quiet (release root) || held last.1) ≡ true =
        or_right (quiet (release root)) (held last.1) same in
      rw (exec-handle world m (released root) now) (rw (freed, careful) refl, refl)

  pub under-IsSettled :
      {A : Type 0} (world : World) (root : String) (m : Script A) (past : List Event)
      → Only is_free m
      → held past ≡ false
      → is_careful quiet past ≡ true
      → IsSettled (exec world (under root m) past)
  unfolding exec
  under-IsSettled world root m past h free p =
      locked-IsSettled world root m past (world past (acquire root)) h free p

  pub quiet-IsSettled :
      {A : Type 0} (world : World) (m : Script A) (past : List Event)
      → ((q : Request) → quiet q ≡ true → is_free q ≡ true)
      → Only quiet m
      → held past ≡ false
      → is_careful quiet past ≡ true
      → IsSettled (exec world m past)
  quiet-IsSettled world m past f h free p =
      let (same, careful) = exec-quiet world m past f h p in (careful, same ∙ free)

  -- One step after another.
  pub seq-IsSettled :
      {A B : Type 0} (world : World) (m : Script A) (next : A → Script B) (past : List Event)
      → IsSettled (exec world m past)
      → ((a : A) (now : List Event)
          → held now ≡ false
          → is_careful quiet now ≡ true
          → IsSettled (exec world (next a) now))
      → IsSettled (exec world (handle m (then_ next)) past)
  seq-IsSettled {A} world m next past (careful, free) k =
      rw (exec-handle world m (then_ next) past)
        (ends_or_goes (exec world m past).0 (exec world m past).1 free careful)
    where
      ends_or_goes :
          (r : Result A) (now : List Event)
          → held now ≡ false
          → is_careful quiet now ≡ true
          → IsSettled (exec world (then_ next r) now)
      ends_or_goes (throw e) now f c = unfold exec in (c, f)
      ends_or_goes (ok a) now f c = k a now f c

pub exec-reading :
    {A : Type 0} (world : World) (m : Script A) (past : List Event)
    → Only is_reading m
    → is_proper past ≡ true
    → Keeps is_reading past (exec world m past).1
exec-reading world m past h p = exec-quiet is_reading world m past is_reading-free h p
