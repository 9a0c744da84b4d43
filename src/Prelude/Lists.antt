-- ===== src/Prelude/Lists.antt =====
-- Lists measured by native numbers, membership as a Boolean test, and predicates on all members.
use Prim.Native.Nat.{ℕ, zero, suc, ◌+◌, ◌≤◌}
use mathlib.Core.Path.{◌≡◌, refl, sym}
use mathlib.Core.Bool.{Bool, true, false, ◌||◌}
use mathlib.Core.List.{List, [], ◌∷◌, ◌++◌, append-nil, append_assoc}
use native.Mathlib.Omega.{arith}
use bustan.Prelude.Tests.{if◌then◌else◌}
use bustan.Prelude.Keys.{Eq, ◌==◌}

module _ {ℓ} {A : Type ℓ} where
  abbrev pub length : List A → ℕ
  length [] = 0
  length (x ∷ xs) = suc (length xs)

  pub length-append : (xs ys : List A) → length (xs ++ ys) ≡ length xs + length ys
  length-append [] ys = omega arith
  length-append (x ∷ xs) ys = omega (arith, length-append xs ys)

  -- Python's `any(p(x) for x in xs)`
  abbrev pub any : (A → Bool) → List A → Bool
  any p [] = false
  any p (x ∷ xs) = p x || any p xs

  -- The comprehension `[x for x in xs if p(x)]`
  abbrev pub keep : (A → Bool) → List A → List A
  keep p [] = []
  keep p (x ∷ xs) = let rest = keep p xs in if p x then x ∷ rest else rest

  pub keep-append : (p : A → Bool) (xs ys : List A) → keep p (xs ++ ys) ≡ keep p xs ++ keep p ys
  keep-append p [] ys = refl
  keep-append p (x ∷ xs) ys = ground (arith, keep-append p xs ys)

  abbrev pub All {κ} : (A → Type κ) → List A → Type κ
  All P [] = Unit
  All P (x ∷ xs) = P x × All P xs

  pub All-append {κ} : (P : A → Type κ) (l m : List A) → All P l → All P m → All P (l ++ m)
  All-append P [] m every more = more
  All-append P (a ∷ l) m every more = (every.0, All-append P l m every.1 more)

module _ {ℓ} {A : Type ℓ} where
  pub All-prefix {κ} : (P : A → Type κ) (l m : List A) → All P (l ++ m) → All P l
  All-prefix P [] m every = tt
  All-prefix P (a ∷ l) m every = (every.0, All-prefix P l m every.1)

  pub All-suffix {κ} : (P : A → Type κ) (l m : List A) → All P (l ++ m) → All P m
  All-suffix P [] m every = every
  All-suffix P (a ∷ l) m every = All-suffix P l m every.1

  -- Membership, for types that have no equality test.
  pub data Among (a : A) : List A → Type ℓ where
    among_first : {xs : List A} → Among a (a ∷ xs)
    among_later : {x : A} {xs : List A} → Among a xs → Among a (x ∷ xs)

  pub Among-All {κ} : (P : A → Type κ) (a : A) (xs : List A) → Among a xs → All P xs → P a
  Among-All P a _ among_first every = every.0
  Among-All P a _ (among_later {xs = xs} deeper) every = Among-All P a xs deeper every.1

  pub Among-append_left : (a : A) (l m : List A) → Among a l → Among a (l ++ m)
  Among-append_left a _ m among_first = among_first
  Among-append_left a _ m (among_later {xs = l} deeper) =
      among_later (Among-append_left a l m deeper)

  pub Among-append_right : (a : A) (l m : List A) → Among a m → Among a (l ++ m)
  Among-append_right a [] m among = among
  Among-append_right a (x ∷ l) m among = among_later (Among-append_right a l m among)

-- Python's `x in xs`
module _ {ℓ} {A : Type ℓ} ⦃e : Eq A⦄ where
  abbrev pub contains : List A → A → Bool
  contains [] a = false
  contains (x ∷ xs) a = x == a || contains xs a

  -- The list with every occurrence of `a` left out.
  unfoldable pub without : A → List A → List A
  without a [] = []
  without a (x ∷ xs) = let rest = without a xs in if x == a then rest else x ∷ rest

  length-without-le_length : (a : A) (xs : List A) → length (without a xs) ≤ length xs
  unfolding without
  length-without-le_length a [] = omega arith
  length-without-le_length a (x ∷ xs) = ground (arith, length-without-le_length a xs)

  pub length-without-le :
      (a : A) (xs : List A) → contains xs a ≡ true → suc (length (without a xs)) ≤ length xs
  unfolding without
  length-without-le a [] h = cc
  length-without-le a (x ∷ xs) h =
      ground (arith, length-without-le a xs, length-without-le_length a xs)

  pub contains-without :
      (a b : A) (xs : List A)
      → contains (without a xs) b ≡ (if a == b then false else contains xs b)
  unfolding without
  contains-without a b [] = ground arith
  contains-without a b (x ∷ xs) =
      ground (arith, e.beq_iff x a, e.beq_iff x b, e.beq_iff a b, contains-without a b xs)

module _ {ℓ} {A : Type ℓ} where
  abbrev pub take : ℕ → List A → List A
  take zero xs = []
  take (suc n) [] = []
  take (suc n) (x ∷ xs) = x ∷ take n xs

  abbrev pub drop : ℕ → List A → List A
  drop zero xs = xs
  drop (suc n) [] = []
  drop (suc n) (x ∷ xs) = drop n xs

module _ {ℓ} {A : Type ℓ} where
  unfoldable pub reverse : List A → List A
  reverse [] = []
  reverse (x ∷ xs) = reverse xs ++ x ∷ []

  pub reverse-append : (xs ys : List A) → reverse (xs ++ ys) ≡ reverse ys ++ reverse xs
  unfolding reverse
  reverse-append [] ys = sym (append-nil (reverse ys))
  reverse-append (x ∷ xs) ys =
      rw (reverse-append xs ys) (append_assoc (reverse ys) (reverse xs) (x ∷ []))

  pub reverse-reverse : (xs : List A) → reverse (reverse xs) ≡ xs
  unfolding reverse
  reverse-reverse [] = refl
  reverse-reverse (x ∷ xs) = rw (reverse-append (reverse xs) (x ∷ []), reverse-reverse xs) refl

  pub All-reverse {κ} : (P : A → Type κ) (xs : List A) → All P xs → All P (reverse xs)
  unfolding reverse
  All-reverse P [] every = every
  All-reverse P (x ∷ xs) every =
      All-append P (reverse xs) (x ∷ []) (All-reverse P xs every.1) (every.0, tt)
