-- ===== src/Throttler/Replies.antt =====
-- What one call of `count_request` reports, and when a refused caller may come back.
use bustan.Prelude.{
  ℕ, suc, ◌+◌, ◌-◌, ◌*◌, ◌≤◌, ◌<◌, ◌≡◌, refl, Text, List, [], ◌∷◌, arith, length, length-append,
  list_eq, nat_eq, some, ◌↔◌, beq_refl, ap, subst, ◌∙◌,
}
use native.Mathlib.Decide.{dec_le}
use native.Mathlib.Nat.{le-div_iff_mul-le}
use bustan.OrderedDict.{get}
use bustan.OrderedDict.Lookup.{get-set, get-trim-move_to_end}
use bustan.Throttler.{
  Storage, window_or_new, expire, admit, store_window, reset_from, count_request,
}
use bustan.Throttler.Window.{
  Rises, Rises-le, length-expire-le, expire_old, expire_young, expire-head, count-admit,
}
use bustan.Throttler.Invariant.{IsValid, IsWindow-later, expire-IsOpen, window_or_new-IsOpen}

le_of_not : {a b : ℕ} → ¬ (b < a) → a ≤ b
le_of_not h = omega arith

head_of : (w : List ℕ) → 0 < length w → (t : ℕ) × (rest : List ℕ) × (w ≡ t ∷ rest)
head_of [] pos = absurd (omega arith)
head_of (t ∷ rest) pos = (t, rest, refl)

module _ (res : ℕ) where
  -- The count reported is the number of requests still in the window, and one.
  pub count-count_request :
      (key : Text) (ttl limit now : ℕ) (s : Storage)
      → (count_request res key ttl limit now s).0.count
        ≡ length (expire (ttl * res) now (window_or_new (get key s.windows))) + 1
  unfolding count_request
  count-count_request key ttl limit now s = count-admit limit now _

  -- The wait reported is exact: the request `t` is inside the window `n` whole seconds later just
  -- for the `n` below it.
  reset_from_iff :
      (span now t n : ℕ) → 0 < res → (n < reset_from res span now t) ↔ (now + n * res < t + span)
  unfolding reset_from
  reset_from_iff span now t n pos =
      let law = le-div_iff_mul-le {k = res} {x = suc n} {y = (t + span - now) + (res - 1)} pos in
      (λ h. grind (arith, law.0 h), λ h. law.1 (grind arith))

  -- A reported wait is at least a second and at most the window.
  reset_from_bounds :
      (ttl now t : ℕ)
      → 0 < res
      → t ≤ now
      → now < t + ttl * res
      → (1 ≤ reset_from res (ttl * res) now t) × (reset_from res (ttl * res) now t ≤ ttl)
  reset_from_bounds ttl now t pos le young =
      let r = reset_from res (ttl * res) now t in
      (
        (reset_from_iff (ttl * res) now t 0 pos).1 (omega arith),
        elim (dec_le r ttl) [
          | yes h ↦ h
          | no h ↦
              absurd (omega (arith, (reset_from_iff (ttl * res) now t ttl pos).0 (omega arith)))
        ],
      )

  -- What the storage holds for the key just counted, unless its window came out empty.
  window-count_request :
      (key : Text) (ttl limit now : ℕ) (s : Storage) (t : ℕ) (rest : List ℕ)
      → 0 < s.max_keys
      → (admit limit now (expire (ttl * res) now (window_or_new (get key s.windows)))).1 ≡ t ∷ rest
      → get key (count_request res key ttl limit now s).1.windows ≡ some (t ∷ rest)
  unfolding count_request
  window-count_request key ttl limit now s t rest pos e = rw e (
      unfold store_window in
      get-trim-move_to_end s.max_keys key (t ∷ rest) _ pos (rw get-set (rw (beq_refl key))))

  reset-count_request :
      (key : Text) (ttl limit now : ℕ) (s : Storage) (t : ℕ) (rest : List ℕ)
      → (admit limit now (expire (ttl * res) now (window_or_new (get key s.windows)))).1 ≡ t ∷ rest
      → (count_request res key ttl limit now s).0.reset_after ≡ reset_from res (ttl * res) now t
  unfolding count_request
  reset-count_request key ttl limit now s t rest e = rw e (unfold store_window in refl)

  -- A request over the limit leaves its window as it was, cleared of what has expired.
  admit-refused :
      (limit now : ℕ) (w : List ℕ) → limit < (admit limit now w).0 → (admit limit now w).1 ≡ w
  unfolding admit
  admit-refused limit now w over = ground (arith, length-append w (now ∷ []))

  -- The same key, counted again `n` seconds after a refusal that left `t ∷ rest`.
  retry_count :
      (span now n limit t : ℕ) (rest : List ℕ)
      → length (t ∷ rest) ≡ limit
      → (length (expire span (now + n * res) (t ∷ rest)) + 1 ≤ limit) ↔ (t + span ≤ now + n * res)
  retry_count span now n limit t rest full = elim (dec_le (t + span) (now + n * res)) [
    | yes old ↦ (
      λ _. old,
      λ _.
          rw (expire_old span (now + n * res) t rest old)
            (omega (arith, length-expire-le span (now + n * res) rest, full)),
    )
    | no young ↦ (
      λ h. absurd (
          omega
            (arith, full, ap length (expire_young span (now + n * res) t rest (omega arith)), h)),
      λ h. absurd (young h),
    )
  ]

  -- The window that a refusal leaves behind.
  refused_window :
      (limit : Text → ℕ) (key : Text) (ttl before now : ℕ) (s : Storage)
      → 0 < limit key
      → before ≤ now
      → IsValid limit before s
      → limit key < (count_request res key ttl (limit key) now s).0.count
      → (t : ℕ) × (rest : List ℕ) × ((admit
            (limit key)
            now
            (expire (ttl * res) now (window_or_new (get key s.windows)))).1
          ≡ t ∷ rest)
        × (length (t ∷ rest) ≡ limit key)
        × (now < t + ttl * res)
        × (t ≤ now)
  refused_window limit key ttl before now s pos le h over =
      let w = expire (ttl * res) now (window_or_new (get key s.windows)) in
      let open_w = expire-IsOpen limit (ttl * res) now key _ (
        window_or_new-IsOpen limit now key s.windows
          (IsWindow-later limit before now s.windows le h.windows)) in
      let counted = count-count_request key ttl (limit key) now s in
      let full : length w ≡ limit key = omega (arith, open_w.within, counted, over) in
      let (t, rest, e) = head_of w (omega (arith, full, pos)) in
      (
        t,
        rest,
        admit-refused (limit key) now w (omega (arith, count-admit (limit key) now w, full)) ∙ e,
        cc (full, e),
        expire-head (ttl * res) now (window_or_new (get key s.windows)) t rest e,
        Rises-le t rest now (subst (λ v. Rises 0 v now) e open_w.rises).1,
      )

  -- Where the limit of the key, the storage's room and the ticks of a second are positive: a caller
  -- refused at the reading `now`, by a storage whose windows are valid for a monotonic clock, that
  -- asks again `n` whole seconds later with no request of any key counted in between is accepted just
  -- when `n` is at least the wait it was told, and that wait is between one second and the window.
  pub retry_exact :
      (limit : Text → ℕ) (key : Text) (ttl before now n : ℕ) (s : Storage)
      → 0 < res
      → 0 < limit key
      → 0 < s.max_keys
      → before ≤ now
      → IsValid limit before s
      → limit key < (count_request res key ttl (limit key) now s).0.count
      → let (state, s') = count_request res key ttl (limit key) now s in
        ((count_request res key ttl (limit key) (now + n * res) s').0.count ≤ limit key
          ↔ (state.reset_after ≤ n))
        × (1 ≤ state.reset_after)
        × (state.reset_after ≤ ttl)
  retry_exact limit key ttl before now n s pos_res pos keys le h over =
      let (t, rest, e, full, young, past) =
        refused_window limit key ttl before now s pos le h over in
      let span = ttl * res in
      let s' = (count_request res key ttl (limit key) now s).1 in
      let found = window-count_request key ttl (limit key) now s t rest keys e in
      let counted : (count_request res key ttl (limit key) (now + n * res) s').0.count
          ≡ length (expire span (now + n * res) (t ∷ rest)) + 1 =
        count-count_request key ttl (limit key) (now + n * res) s' ∙ rw found in
      let reset = reset-count_request key ttl (limit key) now s t rest e in
      let retry = retry_count span now n (limit key) t rest full in
      let wait = reset_from_iff span now t n pos_res in
      rw (counted, reset)
        (
          (
            λ fits. le_of_not (λ early. omega (arith, wait.0 early, retry.0 fits)),
            λ waited. retry.1 (le_of_not (λ early. omega (arith, wait.1 early, waited))),
          ),
          (reset_from_bounds ttl now t pos_res past young).0,
          (reset_from_bounds ttl now t pos_res past young).1,
        )
