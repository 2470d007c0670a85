-- ===== src/Work/Lock/Invariant.antt =====
-- What holds in every state that the processes reach from a free lock.
use kakesu.Prelude.{
  ℕ, ◌≡◌, ◌≢◌, refl, inl, inr, Bool-cases, nat_eq, ap, Bool, true, false, some, none, arith,
}
use kakesu.Work.Lock.{
  Directory, Phase, outside, blocked, probing, stale, cleared, made, written, holding, releasing,
  gone, State, is_gone, place, ended, owns, recovers, free,
}

abbrev pub is_there : Directory → Bool
is_there none = false
is_there (some _) = true

-- Whether a process has ended.
abbrev pub over : State → ℕ → Bool
over s q = is_gone (s.phases q)

pub record Inv (s : State) : Type 0 where
  pub lone : (p q : ℕ) → owns (s.phases p) ≡ true → owns (s.phases q) ≡ true → p ≡ q
  pub kept : (p : ℕ) → owns (s.phases p) ≡ true → is_there s.dir ≡ true
  pub named : (p q : ℕ) → s.dir ≡ some (some q) → owns (s.phases p) ≡ true → p ≡ q
  pub left_there : (p : ℕ) → recovers (over s) (s.phases p) ≡ true → is_there s.dir ≡ true
  pub unowned : (p q : ℕ) → recovers (over s) (s.phases p) ≡ true → owns (s.phases q) ≡ false
  pub sole :
      (p q : ℕ)
      → recovers (over s) (s.phases p) ≡ true
      → recovers (over s) (s.phases q) ≡ true
      → p ≡ q

pub free-Inv : Inv free
free-Inv = record {
  lone = λ p q h. absurd (ground arith);
  kept = λ p h. absurd (ground arith);
  named = λ p q h. absurd (ground arith);
  left_there = λ p h. absurd (ground arith);
  unowned = λ p q h. refl;
  sole = λ p q h. absurd (ground arith);
}

nat_eq-eq : (m n : ℕ) → nat_eq m n ≡ true → m ≡ n
nat_eq-eq m n h = ground arith

-- What a process recovers from does not change with the step of one that has not ended by it.
pub recovers-same :
    (s : State) (p : ℕ) (x : Phase) (d : Directory) (y : Phase)
    → is_gone x ≡ is_gone (s.phases p)
    → recovers (over (place p x d s)) y ≡ recovers (over s) y
recovers-same s p x d (probing q) same = ground arith
recovers-same s p x d stale same = refl
recovers-same s p x d outside same = refl
recovers-same s p x d blocked same = refl
recovers-same s p x d cleared same = refl
recovers-same s p x d made same = refl
recovers-same s p x d written same = refl
recovers-same s p x d holding same = refl
recovers-same s p x d releasing same = refl
recovers-same s p x d gone same = refl

pub owns-recovers : (ended : ℕ → Bool) (x : Phase) → owns x ≡ true → recovers ended x ≡ false
owns-recovers ended made h = refl
owns-recovers ended written h = refl
owns-recovers ended holding h = refl
owns-recovers ended releasing h = refl
owns-recovers ended outside h = refl
owns-recovers ended blocked h = refl
owns-recovers ended (probing _) h = absurd (ground arith)
owns-recovers ended stale h = absurd (ground arith)
owns-recovers ended cleared h = refl
owns-recovers ended gone h = refl

-- Nothing more is recovered from when a process ends whose number nobody is about to ask for.
recovers-ended :
    (s : State) (p : ℕ) (y : Phase)
    → y ≢ probing p
    → recovers (over (place p gone s.dir s)) y ≡ true
    → recovers (over s) y ≡ true
recovers-ended s p (probing q) unasked h = elim (Bool-cases (nat_eq q p)) [
  | inl e ↦ absurd (unasked (ap probing (nat_eq-eq q p e)))
  | inr e ↦ rw e at h
]
recovers-ended s p stale unasked h = refl
recovers-ended s p _ unasked h = absurd (ground arith)

-- A process that ends, whether it has the lock or not.
pub end-Inv : (s : State) (p : ℕ) → Inv s → ((q : ℕ) → s.phases q ≢ probing p) → Inv (ended p s)
end-Inv s p inv unasked = record {
  lone = λ q r h k. ground (arith, inv.lone q r);
  kept = λ q h. ground (arith, inv.kept q);
  named = λ q r h k. ground (arith, inv.named q r);
  left_there = λ q h. inv.left_there q (fewer q h);
  unowned = λ q r h. (let less = inv.unowned q r (fewer q h) in ground arith);
  sole = λ q r h k. inv.sole q r (fewer q h) (fewer r k);
}
  where
    fewer :
        (q : ℕ)
        → recovers (over (ended p s)) ((ended p s).phases q) ≡ true
        → recovers (over s) (s.phases q) ≡ true
    fewer q h = elim (Bool-cases (nat_eq q p)) [
      | inl e ↦ absurd (ground arith)
      | inr e ↦ recovers-ended s p (s.phases q) (unasked q) (rw e at h)
    ]
