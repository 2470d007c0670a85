-- ===== src/Lifecycle/Script/Gives.antt =====
-- What holds of every result that a script can give.
use kakesu.Prelude.{String, ◌≡◌, List, ◌∷◌}
use kakesu.Result.{Result, ok, throw}
use kakesu.Lifecycle.Script.{
  Script, Request, Answer, Event, World, exec, finish, perform, handle, then_,
}

pub data Gives {A : Type 0} (P : A → Type 0) : Script A → Type 0 where
  fails : {e : String} → Gives P (finish (throw e))
  gives : {a : A} → P a → Gives P (finish (ok a))
  goes :
      {q : Request} {k : Answer q → Script A}
      → ((a : Answer q) → Gives P (k a))
      → Gives P (perform q k)

module _ {A B : Type 0} {P : A → Type 0} {Q : B → Type 0} where
  pub Gives-handle :
      (m : Script A) (next : Result A → Script B)
      → Gives P m
      → ((a : A) → P a → Gives Q (next (ok a)))
      → ((e : String) → Gives Q (next (throw e)))
      → Gives Q (handle m next)
  unfolding handle
  Gives-handle (finish (throw e)) next fails k f = f e
  Gives-handle (finish (ok a)) next (gives p) k f = k a p
  Gives-handle (perform q go) next (goes h) k f = goes (λ a. Gives-handle (go a) next (h a) k f)

module _ {A B : Type 0} {Q : B → Type 0} where
  -- Whatever comes first, the rest gives the result.
  pub Gives-then :
      (m : Script A) {next : A → Script B}
      → ((a : A) → Gives Q (next a))
      → Gives Q (handle m (then_ next))
  unfolding handle
  Gives-then (finish (throw e)) k = fails
  Gives-then (finish (ok a)) k = k a
  Gives-then (perform q go) k = goes (λ a. Gives-then (go a) k)

pub exec-Gives :
    {A : Type 0} {P : A → Type 0} (world : World) (m : Script A) (past : List Event) {a : A}
    → Gives P m
    → (exec world m past).0 ≡ ok a
    → P a
unfolding exec
exec-Gives world (finish (throw e)) past fails h = cc
exec-Gives world (finish (ok b)) past {a} (gives p) h = let same : b ≡ a = cc in rw same at p
exec-Gives world (perform q go) past (goes k) h =
    exec-Gives world (go (world past q)) ((q, world past q) ∷ past) (k (world past q)) h

pub ruleset gives_rules = (gives, fails, goes, Gives-then)
