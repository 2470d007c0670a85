-- ===== src/Lifecycle/Script/Happened.antt =====
-- What has happened in a run stays so.
use kakesu.Prelude.{Bool, true, false, ◌||◌, ◌≡◌, List, [], ◌∷◌, arith}
use kakesu.Lifecycle.Script.{Script, Request, Answer, Event, World, exec, finish, perform}

unfoldable pub happened : ((q : Request) → Answer q → Bool) → List Event → Bool
happened sees [] = false
happened sees ((q, a) ∷ past) = sees q a || happened sees past

pub happened-stays :
    {A : Type 0} (sees : (q : Request) → Answer q → Bool) (world : World) (m : Script A)
    (past : List Event)
    → happened sees past ≡ true
    → happened sees (exec world m past).1 ≡ true
unfolding exec happened
happened-stays sees world (finish r) past h = h
happened-stays sees world (perform q k) past h =
    let a = world past q in happened-stays sees world (k a) ((q, a) ∷ past) (ground arith)
