-- ===== src/Lifecycle/Script/Pushes.antt =====
-- How often a run pushes, and runs that start with a command.
use kakesu.Prelude.{
  ℕ, suc, String, Bool, not, not-eq-true, Option, some, none, ◌≡◌, refl, ◌∙◌, List, [], ◌∷◌, arith,
  if◌then◌else◌,
}
use kakesu.Result.{Result, ok, throw}
use kakesu.Work.Node.{Spawned}
use kakesu.Lifecycle.Script.{
  Script, Request, Event, World, exec, handle, then_, finish, perform, spawn, under, locked,
}
use kakesu.Lifecycle.Script.Laws.{
  Only, Only-map, Only-handle, ends, asks, is_plain, is_push, exec-handle,
}
use kakesu.Lifecycle.Steps.{output}

-- The number of pushes among the events.
unfoldable pub pushes : List Event → ℕ
unfolding is_push
pushes [] = 0
pushes ((q, a) ∷ past) = let before = pushes past in if is_push q then suc before else before

abbrev pub is_local : Request → Bool
is_local q = not (is_push q)

-- A script that does not push.
pub exec-local :
    {A : Type 0} (world : World) (m : Script A) (past : List Event)
    → Only is_local m
    → pushes (exec world m past).1 ≡ pushes past
unfolding exec pushes
exec-local world (finish r) past ends = refl
exec-local world (perform q k) past (asks here rest) =
    let a = world past q in
    exec-local world (k a) ((q, a) ∷ past) (rest a) ∙ rw (not-eq-true (is_push q) here) refl

pub plain-local : {A : Type 0} (m : Script A) → Only is_plain m → Only is_local m
plain-local m h = Only-map m (λ q e. ground arith) h

pub under-local :
    {A : Type 0} (root : String) (m : Script A) → Only is_plain m → Only is_local (under root m)
unfolding is_push
under-local root m h = asks refl taken
  where
    taken : (a : Result (Unit {0})) → Only is_local (locked root m a)
    taken (throw e) = ends
    taken (ok u) = Only-handle m (plain-local m h) (λ r. asks refl (λ v. ends))

-- A script that throws in the end.
pub ends-thrown :
    {A B : Type 0} (world : World) (m : Script A) (e : String) (past : List Event)
    → (x : String) × ((exec world (handle m (then_ {B = B} (λ a. finish (throw e)))) past).0
        ≡ throw x)
ends-thrown {A} {B} world m e past =
    rw (exec-handle world m (then_ {B = B} (λ a. finish (throw e))) past)
      (thrown (exec world m past).0 (exec world m past).1)
  where
    thrown :
        (r : Result A) (now : List Event)
        → (x : String) × ((exec world (then_ {B = B} (λ a. finish (throw e)) r) now).0 ≡ throw x)
    thrown (throw x) now = (x, unfold exec in refl)
    thrown (ok a) now = (e, unfold exec in refl)

-- A run after a command whose failure is allowed.
pub output-first :
    {B : Type 0} (P : Result B × List Event → Type 0) (world : World) (root : String)
    (args : List String) (next : Spawned → Script B) (past : List Event)
    → ((e : String) (a : Spawned) → P (throw e, (spawn root "git" args [], a) ∷ past))
    → ((a : Spawned) → P (exec world (next a) ((spawn root "git" args [], a) ∷ past)))
    → P (exec world (handle (output root args) (then_ next)) past)
unfolding exec handle
output-first {B} P world root args next past failed went =
    let a : Spawned = world past (spawn root "git" args []) in
    answered a a.error ((spawn root "git" args [], a) ∷ past) (λ e. failed e a) (went a)
  where
    answered :
        (a : Spawned) (o : Option String) (now : List Event)
        → ((e : String) → P (throw e, now))
        → P (exec world (next a) now)
        → P (exec world (then_ next (elim o [ some e ↦ throw e | none ↦ ok a ])) now)
    answered a none now f w = w
    answered a (some e) now f w = f e
