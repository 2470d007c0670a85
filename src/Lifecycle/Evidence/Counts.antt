-- ===== src/Lifecycle/Evidence/Counts.antt =====
-- What a run tells of its pushes.
use kakesu.Prelude.{
  ℕ, ◌+◌, ◌≤◌, Bool, true, false, ◌≡◌, refl, ◌∙◌, some, none, List, [], ◌∷◌, Option, not,
  not-eq-true, if◌then◌else◌,
}
use kakesu.Result.{Result, ok, throw}
use kakesu.Work.Node.{Spawned}
use kakesu.Lifecycle.Script.{
  Script, Event, Request, Answer, World, exec, handle, finish, perform, spawn,
}
use kakesu.Lifecycle.Script.Laws.{Only, ends, asks, is_plain, is_push, exec-handle}
use kakesu.Lifecycle.Script.Pushes.{pushes, is_local, exec-local, plain-local}
use kakesu.Lifecycle.Evidence.{Outcome, is_failure}

-- Whether git was run and did not fail.
abbrev is_done : Spawned → Bool
is_done a = elim a.error [ some e ↦ false | none ↦ not (is_failure a) ]

-- Whether there was a push, of which the last one was done.
unfoldable pub has_pushed : List Event → Bool
unfolding is_push
has_pushed [] = false
has_pushed ((spawn dir program args env, a) ∷ past) =
    let before = has_pushed past in
    if is_push (spawn dir program args env) then is_done a else before
has_pushed (_ ∷ past) = has_pushed past

has_pushed-local :
    (q : Request) (a : Answer q) (past : List Event)
    → is_push q ≡ false
    → has_pushed ((q, a) ∷ past) ≡ has_pushed past
unfolding has_pushed is_push
has_pushed-local (spawn dir program args env) a past h = rw h refl
has_pushed-local q a past h = refl

-- What happened last did not push.
abbrev pub IsQuiet : List Event → List Event → Type 0
IsQuiet now past = (pushes now ≡ pushes past) × (has_pushed now ≡ has_pushed past)

exec-quiet :
    {A : Type 0} (world : World) (m : Script A) (past : List Event)
    → Only is_local m
    → has_pushed (exec world m past).1 ≡ has_pushed past
unfolding exec
exec-quiet world (finish r) past ends = refl
exec-quiet world (perform q k) past (asks here rest) =
    let a = world past q in
    exec-quiet world (k a) ((q, a) ∷ past) (rest a)
    ∙ has_pushed-local q a past (not-eq-true (is_push q) here)

exec-plain :
    {A : Type 0} (world : World) (m : Script A) (past : List Event)
    → Only is_plain m
    → IsQuiet (exec world m past).1 past
exec-plain world m past h =
    (exec-local world m past (plain-local m h), exec-quiet world m past (plain-local m h))

-- So many pushes, the last of which was not done.
abbrev pub HasFailed : ℕ → List Event → Type 0
HasFailed n events = (pushes events ≡ n) × (has_pushed events ≡ false)

pub still : {n : ℕ} (now past : List Event) → IsQuiet now past → HasFailed n past → HasFailed n now
still now past (same, kept) (n, none_done) = (same ∙ n, kept ∙ none_done)

-- A run after a part that does not push.
pub plain-first :
    {A B : Type 0} (P : Result B × List Event → Type 0) (world : World) (m : Script A)
    (next : Result A → Script B) (past : List Event)
    → Only is_plain m
    → ((r : Result A) (now : List Event) → IsQuiet now past → P (exec world (next r) now))
    → P (exec world (handle m next) past)
plain-first P world m next past plain k =
    rw (exec-handle world m next past)
      (k (exec world m past).0 (exec world m past).1 (exec-plain world m past plain))

-- What an outcome tells of the pushes: without a count of retries there was no push; with it the
-- last push was done, and there was one push more than retries.
abbrev pub IsTold : Option ℕ → Bool → List Event → Type 0
IsTold none pushed events = (pushed ≡ false) × (pushes events ≡ 0)
IsTold (some k) pushed events =
    (pushed ≡ true) × (pushes events ≡ k + 1) × (has_pushed events ≡ true)

-- After an error no push was done.
abbrev pub IsReported : Result Outcome → List Event → Type 0
IsReported (throw e) events = has_pushed events ≡ false
IsReported (ok o) events = IsTold o.retries o.pushed events

abbrev pub IsCounted : Result Outcome × List Event → Type 0
IsCounted run = (pushes run.1 ≤ 3) × IsReported run.0 run.1
