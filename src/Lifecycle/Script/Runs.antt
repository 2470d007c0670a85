-- ===== src/Lifecycle/Script/Runs.antt =====
-- The parts of a run that gave a result.
use kakesu.Prelude.{String, Bool, true, false, ◌≡◌, refl, ◌∙◌, ap, List, [], ◌∷◌, ◌++◌}
use kakesu.Result.{ok, throw}
use kakesu.Lifecycle.Script.{
  Script, Event, World, exec, finish, perform, handle, then_, guard, ◌>>◌,
}

-- From the one moment on the script gives the result at the other.
abbrev pub Said :
    {A : Type 0} (world : World) (m : Script A) (past : List Event) (a : A) (now : List Event)
    → Type 0
Said world m past a now = exec world m past ≡ (ok a, now)

pub then-Said :
    {A B : Type 0} (world : World) (m : Script A) (next : A → Script B) (past : List Event) {b : B}
    {end : List Event}
    → Said world (handle m (then_ next)) past b end
    → (a : A) × (now : List Event) × Said world m past a now × Said world (next a) now b end
unfolding exec handle
then-Said world (finish (ok a)) next past h = (a, past, refl, h)
then-Said world (finish (throw e)) next past h = cc
then-Said world (perform q k) next past h =
    let a = world past q in then-Said world (k a) next ((q, a) ∷ past) h

pub guard-Said :
    {B : Type 0} (world : World) (bad : Bool) (e : String) (m : Script B) (past : List Event)
    {b : B} {end : List Event}
    → Said world (guard bad e >> m) past b end
    → (bad ≡ false) × Said world m past b end
unfolding exec handle
guard-Said world true e m past h = cc
guard-Said world false e m past h = (refl, h)

-- What happened before stays, below what happens later.
pub exec-extends :
    {A : Type 0} (world : World) (m : Script A) (past : List Event)
    → (later : List Event) × ((exec world m past).1 ≡ (later ++ past))
unfolding exec
exec-extends world (finish r) past = ([], refl)
exec-extends world (perform q k) past =
    let a = world past q in
    let (later, e) = exec-extends world (k a) ((q, a) ∷ past) in
    (later ++ (q, a) ∷ [], e ∙ snoc later (q, a))
  where
    snoc :
        (later : List Event) (event : Event)
        → (later ++ event ∷ past) ≡ ((later ++ event ∷ []) ++ past)
    snoc [] event = refl
    snoc (e ∷ es) event = ap (◌∷◌ e) (snoc es event)
