-- ===== src/Lifecycle/Script/Alone.antt =====
-- Scripts that take the lock themselves for what is not quiet, and give it back.
use kakesu.Prelude.{
  String, Bool, true, false, ◌≡◌, refl, List, [], ◌∷◌, if◌then◌else◌, or_left, ◌∙◌,
}
use kakesu.Result.{Result, ok, throw}
use kakesu.Lifecycle.Script.{
  Script, Request, Answer, Event, World, exec, finish, perform, held, is_careful, handle, then_,
  guard, under,
}
use kakesu.Lifecycle.Script.Laws.{Only, is_free}
use kakesu.Lifecycle.Script.Careful.{
  IsSettled, quiet-IsSettled, seq-IsSettled, under-IsSettled, free-held, free-careful,
}

-- Started without the lock, the script does what is not quiet under the lock, and ends without it.
pub data Alone (quiet : Request → Bool) {A : Type 0} (m : Script A) : Type 0 where
  alone :
      ((world : World) (past : List Event)
        → held past ≡ false
        → is_careful quiet past ≡ true
        → IsSettled quiet (exec world m past))
      → Alone quiet m

pub Alone-run :
    (quiet : Request → Bool) {A : Type 0} {m : Script A}
    → Alone quiet m
    → (world : World) → IsSettled quiet (exec world m [])
unfolding held is_careful
Alone-run quiet (alone run) world = run world [] refl refl

module _ {quiet : Request → Bool} where
  pub Alone-quiet :
      {A : Type 0} (m : Script A)
      → ((q : Request) → quiet q ≡ true → is_free q ≡ true)
      → Only quiet m
      → Alone quiet m
  Alone-quiet m f h = alone (λ world past free c. quiet-IsSettled quiet world m past f h free c)

  pub Alone-finish : {A : Type 0} (r : Result A) → Alone quiet (finish r)
  Alone-finish r = alone (λ world past free c. unfold exec in (c, free))

  pub Alone-asks :
      {A : Type 0} {q : Request} {k : Answer q → Script A}
      → quiet q ≡ true
      → is_free q ≡ true
      → ((a : Answer q) → Alone quiet (k a))
      → Alone quiet (perform q k)
  unfolding exec
  Alone-asks {q = q} {k} here free go = alone (λ world past f c.
      let a = world past q in
      run_on world q a past f (free-held q a past free)
        (free-careful quiet q a past free (or_left (quiet q) (held past) here) c) (go a))
    where
      run_on :
          {A : Type 0} {m : Script A} (world : World) (q : Request) (a : Answer q)
          (past : List Event)
          → held past ≡ false
          → held ((q, a) ∷ past) ≡ held past
          → is_careful quiet ((q, a) ∷ past) ≡ true
          → Alone quiet m
          → IsSettled quiet (exec world m ((q, a) ∷ past))
      run_on world q a past f same c (alone run) = run world ((q, a) ∷ past) (same ∙ f) c

  pub Alone-guard : (b : Bool) (e : String) → Alone quiet (guard b e)
  Alone-guard true e = Alone-finish (throw e)
  Alone-guard false e = Alone-finish (ok tt)

  pub Alone-if :
      {A : Type 0} (b : Bool) {m n : Script A}
      → Alone quiet m
      → Alone quiet n
      → Alone quiet (if b then m else n)
  Alone-if true h k = h
  Alone-if false h k = k

  pub Alone-under :
      {A : Type 0} (root : String) {m : Script A} → Only is_free m → Alone quiet (under root m)
  Alone-under root {m} h =
      alone (λ world past free c. under-IsSettled quiet world root m past h free c)

  pub Alone-seq :
      {A B : Type 0} {m : Script A} {next : A → Script B}
      → Alone quiet m
      → ((a : A) → Alone quiet (next a))
      → Alone quiet (handle m (then_ next))
  Alone-seq {m = m} {next} (alone run) k = alone (λ world past free c.
      seq-IsSettled quiet world m next past (run world past free c)
        (λ a now f d. later world now f d (k a)))
    where
      later :
          {B : Type 0} {m : Script B} (world : World) (now : List Event)
          → held now ≡ false
          → is_careful quiet now ≡ true
          → Alone quiet m
          → IsSettled quiet (exec world m now)
      later world now f d (alone run) = run world now f d

pub ruleset alone_rules = (Alone-finish, Alone-guard, Alone-if, Alone-under, Alone-seq, Alone-asks)
