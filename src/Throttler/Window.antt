-- ===== src/Throttler/Window.antt =====
-- One window: dropping what has left it, and admitting a request.
use bustan.Prelude.{
  ℕ, ◌+◌, ◌≤◌, ◌<◌, ◌≡◌, refl, List, [], ◌∷◌, ◌++◌, arith, leb, ltb, length, length-append, keep,
  if_ind, Bool-cases, inl, inr,
}
use bustan.Throttler.{expire, admit}

-- The readings of a window rise from `lo` to `hi`.
abbrev pub Rises : ℕ → List ℕ → ℕ → Type 0
Rises lo [] hi = lo ≤ hi
Rises lo (t ∷ w) hi = (lo ≤ t) × Rises t w hi

pub Rises-le : (lo : ℕ) (w : List ℕ) (hi : ℕ) → Rises lo w hi → lo ≤ hi
Rises-le lo [] hi h = h
Rises-le lo (t ∷ w) hi h = omega (arith, Rises-le t w hi h.1)

pub Rises-from : (lo t : ℕ) (w : List ℕ) (hi : ℕ) → lo ≤ t → Rises t w hi → Rises lo w hi
Rises-from lo t [] hi le h = omega arith
Rises-from lo t (u ∷ w) hi le h = (omega arith, h.1)

pub Rises-later :
    (lo : ℕ) (w : List ℕ) (hi later : ℕ) → hi ≤ later → Rises lo w hi → Rises lo w later
Rises-later lo [] hi later le h = omega arith
Rises-later lo (t ∷ w) hi later le h = (h.0, Rises-later t w hi later le h.1)

pub Rises-snoc : (lo : ℕ) (w : List ℕ) (now : ℕ) → Rises lo w now → Rises lo (w ++ now ∷ []) now
Rises-snoc lo [] now h = (h, omega arith)
Rises-snoc lo (t ∷ w) now h = (h.0, Rises-snoc t w now h.1)

module _ (span now : ℕ) where
  pub Rises-expire :
      (lo : ℕ) (w : List ℕ) (hi : ℕ) → Rises lo w hi → Rises lo (expire span now w) hi
  unfolding expire
  Rises-expire lo [] hi h = h
  Rises-expire lo (t ∷ w) hi h =
      if_ind (λ w'. Rises lo w' hi) (leb (t + span) now)
        (λ _. Rises-expire lo w hi (Rises-from lo t w hi h.0 h.1)) (λ _. h)

  pub length-expire-le : (w : List ℕ) → length (expire span now w) ≤ length w
  unfolding expire
  length-expire-le [] = omega arith
  length-expire-le (t ∷ w) = ground (arith, length-expire-le w)

  pub expire_old :
      (t : ℕ) (w : List ℕ) → t + span ≤ now → expire span now (t ∷ w) ≡ expire span now w
  unfolding expire
  expire_old t w old = ground arith

  pub expire_young : (t : ℕ) (w : List ℕ) → now < t + span → expire span now (t ∷ w) ≡ t ∷ w
  unfolding expire
  expire_young t w young = ground arith

  keep_young :
      (lo : ℕ) (w : List ℕ) (hi : ℕ)
      → now < lo + span
      → Rises lo w hi
      → keep (λ t. ltb now (t + span)) w ≡ w
  keep_young lo [] hi young h = refl
  keep_young lo (t ∷ w) hi young h = ground (arith, keep_young t w hi (omega (arith, h.0)) h.1, h.0)

  -- What is left of a rising window is exactly what is younger than the window.
  pub expire-eq-keep :
      (lo : ℕ) (w : List ℕ) (hi : ℕ)
      → Rises lo w hi
      → expire span now w ≡ keep (λ t. ltb now (t + span)) w
  unfolding expire
  expire-eq-keep lo [] hi h = refl
  expire-eq-keep lo (t ∷ w) hi h = elim (Bool-cases (leb (t + span) now)) [
    | inl old ↦ ground (arith, expire-eq-keep t w hi h.1)
    | inr young ↦ ground (arith, keep_young t w hi (ground arith) h.1)
  ]

  -- Dropping at an earlier reading first changes nothing.
  pub expire-expire :
      (before : ℕ) (w : List ℕ)
      → before ≤ now
      → expire span now (expire span before w) ≡ expire span now w
  unfolding expire
  expire-expire before [] le = refl
  expire-expire before (t ∷ w) le = ground (arith, expire-expire before w)

  -- The oldest request of a window that has been cleared is still inside it.
  pub expire-head :
      (w : List ℕ) (t : ℕ) (rest : List ℕ) → expire span now w ≡ t ∷ rest → now < t + span
  unfolding expire
  expire-head [] t rest h = cc
  expire-head (u ∷ w) t rest h = ground (arith, expire-head w t rest)

pub count-admit : (limit now : ℕ) (w : List ℕ) → (admit limit now w).0 ≡ length w + 1
unfolding admit
count-admit limit now w = ground (arith, length-append w (now ∷ []))
