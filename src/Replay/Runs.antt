-- ===== src/Replay/Runs.antt =====
-- The store against a log of what was recorded: it is bounded, and answers with nothing but the last
-- result recorded under a key, while that has not expired.
use bustan.Prelude.{
  ℕ, ◌+◌, ◌≡◌, ◌≤◌, ◌<◌, refl, sym, ap, subst, ◌∙◌, false, Option, none, some, List, [], ◌∷◌, ◌==◌,
  list_eq, nat_eq, arith, length, leb, Bool-cases, Option-cases, inl, inr, beq_refl, if◌then◌else◌,
}
use bustan.OrderedDict.{get, set, remove, move_to_end}
use bustan.OrderedDict.Lookup.{
  get-set, get-remove, get-move_to_end, length-remove_le, move_to_end_of_get,
}
use bustan.OrderedDict.Distinct.{
  HasDistinctKeys, set-HasDistinctKeys, remove-HasDistinctKeys, move_to_end-HasDistinctKeys,
}
use bustan.Replay.Staleness.{
  length-drop_stale, get-drop_stale, get-drop_stale_newest, drop_stale-HasDistinctKeys,
}
use bustan.Replay.Results.{
  ReplayKey, Recorded, RecordedResults, drop_stale, answer, record_result, new_results,
}

-- What was recorded last under each key.
abbrev pub Log : Type 0 → Type 0
Log V = ReplayKey → Option (Recorded V)

pub data Use (V : Type 0) : Type 0 where
  records : ℕ → ReplayKey → V → ℕ → Use V
  asks : ℕ → ReplayKey → Use V

module _ {V : Type 0} where
  abbrev pub use_results : Use V → RecordedResults V → RecordedResults V
  use_results (records now key value ttl) results = record_result now key value ttl results
  use_results (asks now key) results = (answer now key results).1

  abbrev pub log_use : Use V → Log V → Log V
  log_use (records now key value ttl) log =
      λ k. if key == k then some (record { value = value; expires_at = now + ttl }) else log k
  log_use (asks now key) log = log

  abbrev pub use_all : List (Use V) → RecordedResults V → RecordedResults V
  use_all [] results = results
  use_all (u ∷ uses) results = use_all uses (use_results u results)

  abbrev pub log_all : List (Use V) → Log V → Log V
  log_all [] log = log
  log_all (u ∷ uses) log = log_all uses (log_use u log)

  pub record IsReplay (limit : ℕ) (log : Log V) (results : RecordedResults V) : Type 0 where
    pub limited : results.limit ≡ limit
    pub distinct : HasDistinctKeys results.entries
    pub bounded : length results.entries ≤ limit
    pub logged : (k : ReplayKey) (r : Recorded V) → get k results.entries ≡ some r → log k ≡ some r

  record_result-IsReplay :
      (limit now ttl : ℕ) (key : ReplayKey) (value : V) (log : Log V) (results : RecordedResults V)
      → IsReplay limit log results
      → IsReplay limit
          (log_use (records now key value ttl) log)
          (record_result now key value ttl results)
  unfolding record_result
  record_result-IsReplay limit now ttl key value log results fine =
      let entry : Recorded V = record { value = value; expires_at = now + ttl } in
      let written = set key entry results.entries in
      let moved = move_to_end key written in
      let distinct =
        move_to_end-HasDistinctKeys key written
          (set-HasDistinctKeys key entry results.entries fine.distinct) in
      record {
        limited = fine.limited;
        distinct = drop_stale-HasDistinctKeys results.limit now moved distinct;
        bounded =
            subst (λ n. length (drop_stale results.limit now moved) ≤ n) fine.limited
              (length-drop_stale results.limit now moved);
        logged = λ k r found.
            let there =
              sym (get-set key k entry results.entries)
              ∙ sym (get-move_to_end key k written)
              ∙ get-drop_stale results.limit now moved k r distinct found in
            elim (Bool-cases (key == k)) [
              | inl same ↦ ground (arith, there, same)
              | inr other ↦ ground (arith, other, fine.logged k r (ground (arith, there, other)))
            ];
      }

  answer-IsReplay :
      (limit now : ℕ) (key : ReplayKey) (log : Log V) (results : RecordedResults V)
      → IsReplay limit log results
      → IsReplay limit log (answer now key results).1
  unfolding answer
  answer-IsReplay limit now key log results fine = elim (Option-cases (get key results.entries)) [
    | inl missing ↦ rw missing fine
    | inr (entry, found) ↦ elim (Bool-cases (leb entry.expires_at now)) [
      | inr live ↦ rw (found, live) fine
      | inl stale ↦
          rw (found, stale)
            (record {
              limited = fine.limited;
              distinct = remove-HasDistinctKeys key results.entries fine.distinct;
              bounded = omega (arith, length-remove_le key results.entries, fine.bounded);
              logged = λ k r held.
                  fine.logged k r (ground (arith, get-remove key k results.entries, held));
            })
    ]
  ]

  use_all-IsReplay :
      (limit : ℕ) (uses : List (Use V)) (log : Log V) (results : RecordedResults V)
      → IsReplay limit log results
      → IsReplay limit (log_all uses log) (use_all uses results)
  use_all-IsReplay limit [] log results fine = fine
  use_all-IsReplay limit (records now key value ttl ∷ uses) log results fine =
      use_all-IsReplay limit uses _ _
        (record_result-IsReplay limit now ttl key value log results fine)
  use_all-IsReplay limit (asks now key ∷ uses) log results fine =
      use_all-IsReplay limit uses log _ (answer-IsReplay limit now key log results fine)

  answer-some :
      (now : ℕ) (key : ReplayKey) (results after : RecordedResults V) (r : Recorded V)
      → answer now key results ≡ (some r, after)
      → (get key results.entries ≡ some r) × (now < r.expires_at)
  unfolding answer
  answer-some now key results after r e = elim (Option-cases (get key results.entries)) [
    | inl missing ↦ absurd (ground (arith, missing, e))
    | inr (entry, found) ↦ elim (Bool-cases (leb entry.expires_at now)) [
      | inl stale ↦ absurd (ground (arith, found, stale, e))
      | inr live ↦
          let one : entry ≡ r = ground (arith, found, live, e) in
          (
            found ∙ ap (λ q. some q) one,
            subst (λ (q : Recorded V). now < q.expires_at) one (ground (arith, live)),
          )
    ]
  ]

  -- After any uses of a new store, it holds no more than its limit, and what it answers under a key is
  -- the result recorded last under that key, which has not expired.
  pub answer-logged :
      (limit : ℕ) (uses : List (Use V)) (now : ℕ) (key : ReplayKey) (r : Recorded V)
      (after : RecordedResults V)
      → answer now key (use_all uses (new_results limit)) ≡ (some r, after)
      → (length (use_all uses (new_results limit)).entries ≤ limit)
        × (log_all uses (λ k. none) key ≡ some r)
        × (now < r.expires_at)
  unfolding get
  answer-logged limit uses now key r after e =
      let fine =
        use_all-IsReplay limit uses (λ k. none) (new_results limit)
          (record { limited = refl; distinct = tt; bounded = omega arith; logged = λ k q h. h }) in
      let (found, live) = answer-some now key (use_all uses (new_results limit)) after r e in
      (fine.bounded, fine.logged key r found, live)

  get-record_result :
      (now ttl : ℕ) (key : ReplayKey) (value : V) (results : RecordedResults V)
      → 0 < results.limit
      → 0 < ttl
      → get key (record_result now key value ttl results).entries
        ≡ some (record { value = value; expires_at = now + ttl })
  unfolding record_result
  get-record_result now ttl key value results positive lasting =
      let entry : Recorded V = record { value = value; expires_at = now + ttl } in
      let written = set key entry results.entries in
      let there : get key written ≡ some entry =
        get-set key key entry results.entries
        ∙ ap (λ b. if b then some entry else get key results.entries) (beq_refl key) in
      let gone : get key (remove key written) ≡ none =
        get-remove key key written ∙ ap (λ b. if b then none else get key written) (beq_refl key) in
      ap (λ m. get key (drop_stale results.limit now m))
        (move_to_end_of_get key entry written there)
      ∙ get-drop_stale_newest results.limit now (remove key written) key entry positive
          (omega (arith, lasting)) gone

  -- A result recorded in a store of positive limit is answered under its key by the next use of the
  -- store, at any reading from then on and before it expires.
  pub answer-record_result :
      (now later ttl : ℕ) (key : ReplayKey) (value : V) (results : RecordedResults V)
      → 0 < results.limit
      → now ≤ later
      → later < now + ttl
      → answer later key (record_result now key value ttl results) ≡ (
        some (record { value = value; expires_at = now + ttl }),
        record_result now key value ttl results,
      )
  unfolding answer
  answer-record_result now later ttl key value results positive ordered live =
      let stored =
        get-record_result now ttl key value results positive (omega (arith, ordered, live)) in
      let open_still : leb (now + ttl) later ≡ false = ground (arith, live) in
      rw (stored, open_still) refl
