-- ===== src/Pool/Sole.antt =====
-- Where the objects of a pool are, and what the pooled ones hold.
use mathlib.Core.Path.{subst}
use go_metrics_stas.Prelude.{
  ℕ, suc, ◌+◌, ◌≤◌, ◌≡◌, refl, ap, List, [], ◌∷◌, ◌++◌, eqb, leb, ltb, if◌then◌else◌, All,
  Bool-cases, inl, inr, arith,
}
use go_metrics_stas.Pool
use go_metrics_stas.Pool.{
  Policy, Buffer, buffers, State, empty_pool, put, Step, gets, loses, makes, uses, puts, forgets,
  Run, next,
}

module _ {A : Type 0} (i : ℕ) where
  -- How often an identity occurs.
  abbrev pub occurs : List (ℕ × A) → ℕ
  occurs [] = 0
  occurs ((j, a) ∷ xs) = (if eqb i j then 1 else 0) + occurs xs

  occurs-middle :
      (us vs : List (ℕ × A)) (j : ℕ) (a : A)
      → occurs (us ++ (j, a) ∷ vs) ≡ (if eqb i j then 1 else 0) + occurs (us ++ vs)
  occurs-middle [] vs j a = refl
  occurs-middle ((k, b) ∷ us) vs j a = omega (arith, occurs-middle us vs j a)

  -- The identity is in one place at most, and in none before it was made.
  abbrev pub IsSole : State A → Type 0
  IsSole s = occurs s.pooled + occurs s.held ≤ (if leb (suc i) s.made then 1 else 0)

  module _ {X : Type 0} (p : Policy X A) where
    Step-IsSole : {s t : State A} → Step p s t → IsSole s → IsSole t
    Step-IsSole {s} (gets x us vs j a e o) h =
        let n : occurs s.pooled ≡ occurs (us ++ (j, a) ∷ vs) = ap occurs e in
        omega (arith, occurs-middle us vs j a)
    Step-IsSole {s} (loses x us vs j a e o) h =
        let n : occurs s.pooled ≡ occurs (us ++ (j, a) ∷ vs) = ap occurs e in
        omega (arith, occurs-middle us vs j a)
    Step-IsSole {s} (makes x o) h = ground arith
    Step-IsSole {s} (uses us vs j a b e) h =
        let n : occurs s.held ≡ occurs (us ++ (j, a) ∷ vs) = ap occurs e in
        omega (arith, occurs-middle us vs j a, occurs-middle us vs j b)
    Step-IsSole {s} (puts us vs j a e) h =
        let n : occurs s.held ≡ occurs (us ++ (j, a) ∷ vs) = ap occurs e in
        ground (arith, occurs-middle us vs j a)
    Step-IsSole {s} (forgets us vs j a e) h =
        let n : occurs s.pooled ≡ occurs (us ++ (j, a) ∷ vs) = ap occurs e in
        omega (arith, occurs-middle us vs j a)

-- Of no pool, two users hold one object at the same time.
Run-IsSole : {X A : Type 0} (p : Policy X A) (s : State A) → Run p s → (i : ℕ) → IsSole i s
Run-IsSole p s Pool.start i = omega arith
Run-IsSole p t (next {s = s} run step) i = Step-IsSole i p step (Run-IsSole p s run i)

All-remove :
    {B : Type 0} (P : B → Type 0) (us vs : List B) (x : B) → All P (us ++ x ∷ vs) → All P (us ++ vs)
All-remove P [] vs x h = h.1
All-remove P (u ∷ us) vs x h = (h.0, All-remove P us vs x h.1)

-- An empty buffer of at most 64 KB.
abbrev pub IsClean : ℕ × Buffer → Type 0
IsClean (i, b) = (b.bytes ≡ []) × (b.cap ≤ 65536)

put-IsClean :
    (i : ℕ) (b : Buffer) (pooled : List (ℕ × Buffer))
    → All IsClean pooled
    → All IsClean (put buffers i b pooled)
unfolding buffers
put-IsClean i b pooled h = elim (Bool-cases (ltb 65536 b.cap)) [
  | inl e ↦ rw e h
  | inr e ↦ rw e ((refl, ground arith), h)
]

Step-IsClean : {s t : State Buffer} → Step buffers s t → All IsClean s.pooled → All IsClean t.pooled
Step-IsClean (gets x us vs i a e o) h = All-remove IsClean us vs (i, a) (subst (All IsClean) e h)
Step-IsClean (loses x us vs i a e o) h = All-remove IsClean us vs (i, a) (subst (All IsClean) e h)
Step-IsClean (makes x o) h = h
Step-IsClean (uses us vs i a b e) h = h
Step-IsClean {s} (puts us vs i a e) h = put-IsClean i a s.pooled h
Step-IsClean (forgets us vs i a e) h = All-remove IsClean us vs (i, a) (subst (All IsClean) e h)

-- In every interleaving of users of the pool of buffers, who put back what they hold, each buffer is
-- held by one user or pooled, and not both or twice; and each buffer in the pool is empty and has at
-- most 64 KB.
pub buffers-IsSole :
    (s : State Buffer) → Run buffers s → (i : ℕ) → IsSole i s × All IsClean s.pooled
buffers-IsSole s Pool.start i = (omega arith, tt)
buffers-IsSole t (next {s = s} run step) i =
    let (sole, clean) = buffers-IsSole s run i in
    (Step-IsSole i buffers step sole, Step-IsClean step clean)
