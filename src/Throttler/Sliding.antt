-- ===== src/Throttler/Sliding.antt =====
-- The storage against a log of every accepted request: until a key is evicted, it counts exactly
-- the requests of the last `ttl` seconds.
use bustan.Prelude.{
  ℕ, ◌+◌, ◌*◌, ◌≤◌, ◌≡◌, refl, sym, ap, subst, ◌∙◌, true, false, Text, List, [], ◌∷◌, ◌++◌, arith,
  ltb, length, keep, if◌then◌else◌, if_ind, list_eq, nat_eq, inl, inr, beq_refl, beq→eq, ◌⊎◌,
  Bool-cases, ◌==◌, contains, All,
}
use bustan.OrderedDict.{OrderedDict, get, move_to_end}
use bustan.OrderedDict.Lookup.{get-set, get-remove, get-move_to_end, trim-eq_of_le}
use bustan.OrderedDict.Distinct.{
  HasDistinctKeys, KeysIn, length-le-KeysIn, move_to_end-HasDistinctKeys,
}
use bustan.OrderedDict.Values.{Entries-move_to_end}
use bustan.Throttler.Replies.{count-count_request}
use bustan.Throttler.{Storage, window_or_new, expire, admit, store_window, count_request}
use bustan.Throttler.Window.{Rises, Rises-snoc, Rises-later, expire-eq-keep, expire-expire}
use bustan.Throttler.Invariant.{store_window-HasDistinctKeys, store_window-KeysIn}
use bustan.Throttler.Runs.{Arrival, IsMonotonic, empty, arrive, serve, last_reading}

-- The readings at which requests of `key` were accepted, the oldest first.
unfoldable pub accepted : Text → List Arrival → List ℕ
accepted key [] = []
accepted key (a ∷ log) = let rest = accepted key log in if a.key == key then a.at ∷ rest else rest

-- How many accepted requests of `key` are younger than `span` at the reading `now`.
unfoldable pub recent : ℕ → ℕ → Text → List Arrival → ℕ
unfolding accepted
recent span now key log = length (keep (λ t. ltb now (t + span)) (accepted key log))

accepted-append :
    (key : Text) (log : List Arrival) (a : Arrival)
    → accepted key (log ++ a ∷ [])
      ≡ (if a.key == key then accepted key log ++ a.at ∷ [] else accepted key log)
unfolding accepted
accepted-append key [] a = ground arith
accepted-append key (b ∷ log) a = ground (arith, accepted-append key log a)

-- Clearing twice, with one more request at the end.
expire-snoc :
    (span now x : ℕ) (w : List ℕ)
    → expire span now (w ++ x ∷ []) ≡ expire span now (expire span now w ++ x ∷ [])
unfolding expire
expire-snoc span now x [] = refl
expire-snoc span now x (t ∷ w) = ground (arith, expire-snoc span now x w)

window-store_window :
    (res : ℕ) (key j : Text) (w : List ℕ) (ttl now : ℕ) (d : OrderedDict Text (List ℕ))
    → window_or_new (get j (store_window res key w ttl now d).1)
      ≡ (if key == j then w else window_or_new (get j d))
unfolding store_window
window-store_window res key j [] ttl now d = rw get-remove (ground arith)
window-store_window res key j (t ∷ w) ttl now d = rw get-move_to_end (rw get-set (ground arith))

module _ (res : ℕ) (ttl limit : Text → ℕ) where
  abbrev span : Text → ℕ
  span key = ttl key * res

  -- The log after one request: the specification of a sliding window.
  unfoldable pub log_arrival : List Arrival → Arrival → List Arrival
  log_arrival log a =
      if ltb (recent (span a.key) a.at a.key log) (limit a.key) then log ++ a ∷ [] else log

  -- The storage agrees with the log on every window, at every reading from `before` on.
  record Agrees (before : ℕ) (s : Storage) (log : List Arrival) : Type 0 where
    window :
        (key : Text) (now : ℕ)
        → before ≤ now
        → expire (span key) now (window_or_new (get key s.windows))
          ≡ expire (span key) now (accepted key log)
    rises : (key : Text) → Rises 0 (accepted key log) before

  -- What is counted is the number of recent accepted requests, and one.
  count-recent :
      (before : ℕ) (s : Storage) (log : List Arrival) (a : Arrival)
      → before ≤ a.at
      → Agrees before s log
      → length (expire (span a.key) a.at (window_or_new (get a.key s.windows)))
        ≡ recent (span a.key) a.at a.key log
  unfolding recent
  count-recent before s log a le h = ap length (
      h.window a.key a.at le
      ∙ expire-eq-keep (span a.key) a.at 0 (accepted a.key log) before (h.rises a.key))

  abbrev admitted : Storage → Arrival → ℕ × List ℕ
  admitted s a =
      admit (limit a.key) a.at (expire (span a.key) a.at (window_or_new (get a.key s.windows)))

  abbrev written : Storage → Arrival → OrderedDict Text (List ℕ)
  written s a =
      (store_window res a.key (admitted s a).1 (ttl a.key) a.at (move_to_end a.key s.windows)).1

  -- With room for every key nothing is evicted.
  windows-arrive :
      (s : Storage) (a : Arrival)
      → length (written s a) ≤ s.max_keys
      → (arrive res ttl limit s a).windows ≡ written s a
  unfolding count_request
  windows-arrive s a room = trim-eq_of_le s.max_keys (written s a) room

  arrive_window :
      (s : Storage) (a : Arrival) (j : Text)
      → length (written s a) ≤ s.max_keys
      → window_or_new (get j (arrive res ttl limit s a).windows)
        ≡ (if a.key == j then (admitted s a).1 else window_or_new (get j s.windows))
  arrive_window s a j room =
      rw (windows-arrive s a room) (rw window-store_window (rw get-move_to_end refl))

  -- The two sides after a request of `a.key` that was accepted, and after one that was refused.
  accepted_window :
      (w acc : List ℕ) (x now sp : ℕ)
      → x ≤ now
      → expire sp now w ≡ expire sp now acc
      → expire sp now (expire sp x w ++ x ∷ []) ≡ expire sp now (acc ++ x ∷ [])
  accepted_window w acc x now sp le same =
      expire-snoc sp now x (expire sp x w)
      ∙ ap (λ v. expire sp now (v ++ x ∷ [])) (expire-expire sp now x w le ∙ same)
      ∙ sym (expire-snoc sp now x acc)

  module _ (before : ℕ) (s : Storage) (log : List Arrival) (a : Arrival) (le : before ≤ a.at)
      (h : Agrees before s log) where
    -- The storage and the log take the same decision.
    admitted_cases :
        ((admitted s a).1
            ≡ expire (span a.key) a.at (window_or_new (get a.key s.windows)) ++ a.at ∷ [])
          × (log_arrival log a ≡ log ++ a ∷ [])
        ⊎ ((admitted s a).1 ≡ expire (span a.key) a.at (window_or_new (get a.key s.windows)))
          × (log_arrival log a ≡ log)
    unfolding log_arrival admit
    admitted_cases = ground (arith, count-recent before s log a le h)

    own_window :
        (now : ℕ)
        → a.at ≤ now
        → expire (span a.key) now (admitted s a).1
          ≡ expire (span a.key) now (accepted a.key (log_arrival log a))
    own_window now later =
        let w = window_or_new (get a.key s.windows) in
        let same = h.window a.key now (omega arith) in
        elim admitted_cases [
          | inl (stored, logged) ↦
              rw (stored, logged, accepted-append, beq_refl a.key)
                (accepted_window w (accepted a.key log) a.at now (span a.key) later same)
          | inr (stored, logged) ↦
              rw (stored, logged) (expire-expire (span a.key) now a.at w later ∙ same)
        ]

    other_window :
        (j : Text) → (a.key == j) ≡ false → accepted j (log_arrival log a) ≡ accepted j log
    other_window j other = elim admitted_cases [
      | inl (_, logged) ↦ rw (logged, accepted-append, other)
      | inr (_, logged) ↦ rw logged
    ]

    Rises-after : (j : Text) → Rises 0 (accepted j (log_arrival log a)) a.at
    Rises-after j =
        let old = Rises-later 0 (accepted j log) before a.at le (h.rises j) in
        elim admitted_cases [
          | inl (_, logged) ↦
              rw (logged, accepted-append)
                (if_ind (λ v. Rises 0 v a.at) (a.key == j)
                  (λ _. Rises-snoc 0 (accepted j log) a.at old) (λ _. old))
          | inr (_, logged) ↦ rw logged old
        ]

    Agrees-arrive :
        length (written s a) ≤ s.max_keys
        → Agrees a.at (arrive res ttl limit s a) (log_arrival log a)
    Agrees-arrive room = record {
      window = λ j now later. rw (arrive_window s a j room) (elim (Bool-cases (a.key == j)) [
        | inl same ↦ rw same (
            subst
              (λ i.
                expire (span i) now (admitted s a).1
                ≡ expire (span i) now (accepted i (log_arrival log a)))
              (beq→eq same) (own_window now later))
        | inr other ↦ rw (other, other_window j other) (h.window j now (omega arith))
      ]);
      rises = Rises-after;
    }

  -- What a run leaves in the log.
  unfoldable pub log_run : List Arrival → List Arrival → List Arrival
  log_run log [] = log
  log_run log (a ∷ rest) = log_run (log_arrival log a) rest

  module _ (ks : List Text) where
    -- The storage holds keys of `ks` only, each once, and has room for all of them.
    record HasRoom (s : Storage) : Type 0 where
      distinct : HasDistinctKeys s.windows
      listed : KeysIn ks s.windows
      room : length ks ≤ s.max_keys

    written-room :
        (s : Storage) (a : Arrival)
        → contains ks a.key ≡ true
        → HasRoom s
        → HasDistinctKeys (written s a) × KeysIn ks (written s a)
    written-room s a listed h =
        let w = (admitted s a).1 in
        (
          store_window-HasDistinctKeys limit res a.key w (ttl a.key) a.at _
              (move_to_end-HasDistinctKeys a.key s.windows h.distinct),
          store_window-KeysIn limit res ks a.key w (ttl a.key) a.at _ listed
              (Entries-move_to_end _ a.key s.windows h.listed),
        )

    written-fits :
        (s : Storage) (a : Arrival)
        → contains ks a.key ≡ true
        → HasRoom s
        → length (written s a) ≤ s.max_keys
    written-fits s a listed h =
        let (once, known) = written-room s a listed h in
        omega (arith, length-le-KeysIn ks (written s a) once known, h.room)

    HasRoom-arrive :
        (s : Storage) (a : Arrival)
        → contains ks a.key ≡ true
        → HasRoom s
        → HasRoom (arrive res ttl limit s a)
    HasRoom-arrive s a listed h =
        let (once, known) = written-room s a listed h in
        let kept = windows-arrive s a (written-fits s a listed h) in
        record {
          distinct = rw kept once;
          listed = rw kept known;
          room = unfold count_request in h.room;
        }

    abbrev pub KnownKeys : List Arrival → Type 0
    KnownKeys = All (λ a. contains ks a.key ≡ true)

    run_Agrees :
        (before : ℕ) (s : Storage) (log run : List Arrival)
        → IsMonotonic before run
        → KnownKeys run
        → HasRoom s
        → Agrees before s log
        → Agrees (last_reading before run) (serve res ttl limit s run) (log_run log run)
    unfolding serve log_run
    run_Agrees before s log [] m known fits h = h
    run_Agrees before s log (a ∷ rest) m known fits h =
        run_Agrees a.at (arrive res ttl limit s a) (log_arrival log a) rest m.1 known.1
          (HasRoom-arrive s a known.0 fits)
          (Agrees-arrive before s log a m.0 h (written-fits s a known.0 fits))

    -- From an empty storage with room for the keys `ks`, so that no window is dropped for room, after
    -- any run of requests for those keys on a monotonic clock, one more request is counted as the number of accepted requests of its
    -- key in the last `ttl` seconds, and one. The log of accepted requests takes a request just
    -- when that number is below the limit of its key.
    pub count-eq-recent :
        (max_keys : ℕ) (run : List Arrival) (a : Arrival)
        → length ks ≤ max_keys
        → IsMonotonic 0 run
        → KnownKeys run
        → last_reading 0 run ≤ a.at
        → (count_request res a.key
            (ttl a.key)
            (limit a.key)
            a.at
            (serve res ttl limit (empty max_keys) run)).0.count
          ≡ recent (span a.key) a.at a.key (log_run [] run) + 1
    count-eq-recent max_keys run a room m known le =
        let s = serve res ttl limit (empty max_keys) run in
        let start : Agrees 0 (empty max_keys) [] = record {
          window = λ key now _. unfold get accepted expire in refl;
          rises = λ key. unfold accepted in omega arith;
        } in
        let fits : HasRoom (empty max_keys) = record { distinct = tt; listed = tt; room = room } in
        count-count_request res a.key (ttl a.key) (limit a.key) a.at s
        ∙ ap (λ (n : ℕ). n + 1)
            (count-recent (last_reading 0 run) s (log_run [] run) a le
              (run_Agrees 0 (empty max_keys) [] run m known fits start))
