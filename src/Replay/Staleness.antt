-- ===== src/Replay/Staleness.antt =====
-- What dropping stale entries leaves.
use bustan.Prelude.{
  ℕ, ◌≡◌, ◌≤◌, ◌<◌, refl, subst, false, ◌&&◌, none, some, [], ◌∷◌, ◌++◌, ◌==◌, list_eq, nat_eq,
  arith, length, ltb, leb, Bool-cases, inl, inr, beq→eq, beq_refl, if_ind,
}
use bustan.OrderedDict.{OrderedDict, get, has_key}
use bustan.OrderedDict.Lookup.{get-append}
use bustan.OrderedDict.Distinct.{HasDistinctKeys, has_key_of_get}
use bustan.Replay.Results.{ReplayKey, Recorded, drop_stale}

abbrev pub Entries : Type 0 → Type 0
Entries V = OrderedDict ReplayKey (Recorded V)

module _ {V : Type 0} where
  pub length-drop_stale : (limit now : ℕ) (d : Entries V) → length (drop_stale limit now d) ≤ limit
  unfolding drop_stale
  length-drop_stale limit now [] = omega arith
  length-drop_stale limit now ((i, e) ∷ d) = ground (arith, length-drop_stale limit now d)

  pub get-drop_stale :
      (limit now : ℕ) (d : Entries V) (k : ReplayKey) (r : Recorded V)
      → HasDistinctKeys d
      → get k (drop_stale limit now d) ≡ some r
      → get k d ≡ some r
  unfolding drop_stale get
  get-drop_stale limit now [] k r distinct e = e
  get-drop_stale limit now ((i, old) ∷ d) k r distinct e =
      elim (Bool-cases (leb (length ((i, old) ∷ d)) limit && ltb now old.expires_at)) [
        | inl kept ↦ ground (arith, kept, e)
        | inr dropped ↦
            let deeper = get-drop_stale limit now d k r distinct.1 (ground (arith, dropped, e)) in
            elim (Bool-cases (i == k)) [
              | inl same ↦
                  let one : i ≡ k = beq→eq same in
                  let absent = subst (λ q. has_key q d ≡ false) one distinct.0 in
                  absurd (ground (arith, absent, has_key_of_get k r d deeper))
              | inr other ↦ ground (arith, other, deeper)
            ]
      ]

  has_key-drop_stale :
      (limit now : ℕ) (d : Entries V) (k : ReplayKey)
      → has_key k d ≡ false
      → has_key k (drop_stale limit now d) ≡ false
  unfolding drop_stale has_key
  has_key-drop_stale limit now [] k absent = refl
  has_key-drop_stale limit now ((i, old) ∷ d) k absent =
      ground (arith, absent, has_key-drop_stale limit now d k)

  pub drop_stale-HasDistinctKeys :
      (limit now : ℕ) (d : Entries V) → HasDistinctKeys d → HasDistinctKeys (drop_stale limit now d)
  unfolding drop_stale
  drop_stale-HasDistinctKeys limit now [] distinct = tt
  drop_stale-HasDistinctKeys limit now ((i, old) ∷ d) distinct =
      if_ind HasDistinctKeys (leb (length ((i, old) ∷ d)) limit && ltb now old.expires_at)
        (λ kept. distinct) (λ dropped. drop_stale-HasDistinctKeys limit now d distinct.1)

  -- The newest entry stays, if it has not expired at once.
  pub get-drop_stale_newest :
      (limit now : ℕ) (d : Entries V) (k : ReplayKey) (e : Recorded V)
      → 0 < limit
      → now < e.expires_at
      → get k d ≡ none
      → get k (drop_stale limit now (d ++ (k, e) ∷ [])) ≡ some e
  unfolding drop_stale get
  get-drop_stale_newest limit now [] k e positive live absent =
      ground (arith, positive, live, beq_refl k)
  get-drop_stale_newest limit now ((i, old) ∷ d) k e positive live absent = ground (
    arith,
    absent,
    get-drop_stale_newest limit now d k e positive live,
    get-append k d ((k, e) ∷ []),
    beq_refl k,
  )
