-- ===== src/Locks/Counting.antt =====
-- The tasks that hold an entry, counted over lists that are put together.
use bustan.Prelude.{
  ℕ, ◌+◌, ◌≡◌, ◌&&◌, List, [], ◌∷◌, ◌++◌, ◌==◌, nat_eq, arith, if◌then◌else◌, All, All-append,
  All-prefix, All-suffix,
}
use bustan.Locks.{Task, holding, inside}

pub holding-append : (e : ℕ) (l m : List Task) → holding e (l ++ m) ≡ holding e l + holding e m
unfolding holding
holding-append e [] m = omega arith
holding-append e (t ∷ l) m = ground (arith, holding-append e l m)

pub inside-append : (e : ℕ) (l m : List Task) → inside e (l ++ m) ≡ inside e l + inside e m
unfolding inside
inside-append e [] m = omega arith
inside-append e (t ∷ l) m = ground (arith, inside-append e l m)

pub All-map {ℓ κ μ} :
    {A : Type ℓ} (P : A → Type κ) (Q : A → Type μ) (l : List A)
    → ((a : A) → P a → Q a)
    → All P l
    → All Q l
All-map P Q [] f every = tt
All-map P Q (a ∷ l) f every = (f a every.0, All-map P Q l f every.1)

pub All-both {ℓ κ μ ν} :
    {A : Type ℓ} (P : A → Type κ) (Q : A → Type μ) (R : A → Type ν) (l : List A)
    → ((a : A) → P a → Q a → R a)
    → All P l
    → All Q l
    → All R l
All-both P Q R [] f one other = tt
All-both P Q R (a ∷ l) f one other = (f a one.0 other.0, All-both P Q R l f one.1 other.1)

-- One task between two lists, as the steps find it.
module _ (before after : List Task) (t : Task) where
  abbrev pub around : List Task
  around = before ++ t ∷ after

  pub holding-around :
      (e : ℕ)
      → holding e around ≡ holding e (before ++ after) + (if t.entry == e && t.holds then 1 else 0)
  unfolding holding
  holding-around e =
      ground (arith, holding-append e before (t ∷ after), holding-append e before after)

  pub inside-around :
      (e : ℕ)
      → inside e around ≡ inside e (before ++ after) + (if t.entry == e && t.building then 1 else 0)
  unfolding inside
  inside-around e = ground (arith, inside-append e before (t ∷ after), inside-append e before after)

  pub All-around {κ} : (P : Task → Type κ) → All P around → P t × All P (before ++ after)
  All-around P every =
      let right = All-suffix P before (t ∷ after) every in
      (right.0, All-append P before after (All-prefix P before (t ∷ after) every) right.1)

  pub around-All {κ} : (P : Task → Type κ) → P t → All P (before ++ after) → All P around
  around-All P p every =
      All-append P before (t ∷ after) (All-prefix P before after every)
        (p, All-suffix P before after every)
