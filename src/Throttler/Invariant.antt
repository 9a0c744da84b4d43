-- ===== src/Throttler/Invariant.antt =====
-- What `count_request` keeps true of the storage, and the bound on its memory.
use bustan.Prelude.{
  ℕ, ◌*◌, ◌≤◌, ◌≡◌, ◌≢◌, true, Text, List, [], ◌∷◌, arith, ltb, length, length-append, if_ind,
  list_eq, nat_eq, contains, Option-cases, inl, inr,
}
use bustan.OrderedDict.{OrderedDict, get, set, move_to_end}
use bustan.OrderedDict.Lookup.{length-trim}
use bustan.OrderedDict.Distinct.{
  HasDistinctKeys, KeysIn, set-HasDistinctKeys, remove-HasDistinctKeys, move_to_end-HasDistinctKeys,
  trim-HasDistinctKeys,
}
use bustan.OrderedDict.Values.{
  Entries, Entries-get, Entries-set, Entries-remove, Entries-move_to_end, Entries-trim,
}
use bustan.Throttler.{Storage, window_or_new, expire, admit, store_window, count_request}
use bustan.Throttler.Window.{Rises, Rises-expire, Rises-snoc, Rises-later, length-expire-le}

-- A window that is kept: not empty, within the limit of its key, rising up to the last reading.
pub record IsWindow (limit : Text → ℕ) (now : ℕ) (key : Text) (w : List ℕ) : Type 0 where
  pub nonempty : w ≢ []
  pub within : length w ≤ limit key
  pub rises : Rises 0 w now

pub record IsValid (limit : Text → ℕ) (now : ℕ) (s : Storage) : Type 0 where
  pub distinct : HasDistinctKeys s.windows
  pub bounded : length s.windows ≤ s.max_keys
  pub windows : Entries (IsWindow limit now) s.windows

-- The same without the first part: a window while a request is counted.
pub record IsOpen (limit : Text → ℕ) (now : ℕ) (key : Text) (w : List ℕ) : Type 0 where
  pub within : length w ≤ limit key
  pub rises : Rises 0 w now

module _ (limit : Text → ℕ) where
  pub IsWindow-later :
      (before now : ℕ) (d : OrderedDict Text (List ℕ))
      → before ≤ now
      → Entries (IsWindow limit before) d
      → Entries (IsWindow limit now) d
  IsWindow-later before now [] le h = tt
  IsWindow-later before now ((k, w) ∷ d) le h = (
    record {
      nonempty = h.0.nonempty;
      within = h.0.within;
      rises = Rises-later 0 w before now le h.0.rises;
    },
    IsWindow-later before now d le h.1,
  )

  pub window_or_new-IsOpen :
      (now : ℕ) (key : Text) (d : OrderedDict Text (List ℕ))
      → Entries (IsWindow limit now) d
      → IsOpen limit now key (window_or_new (get key d))
  window_or_new-IsOpen now key d h = elim (Option-cases (get key d)) [
    | inl missing ↦ rw missing (record { within = omega arith; rises = omega arith })
    | inr (w, found) ↦
        let good = Entries-get (IsWindow limit now) key d w h found in
        rw found (record { within = good.within; rises = good.rises })
  ]

  pub expire-IsOpen :
      (span now : ℕ) (key : Text) (w : List ℕ)
      → IsOpen limit now key w
      → IsOpen limit now key (expire span now w)
  expire-IsOpen span now key w h = record {
    within = omega (arith, length-expire-le span now w, h.within);
    rises = Rises-expire span now 0 w now h.rises;
  }

  admit-IsOpen :
      (now : ℕ) (key : Text) (w : List ℕ)
      → IsOpen limit now key w
      → IsOpen limit now key (admit (limit key) now w).1
  unfolding admit
  admit-IsOpen now key w h =
      if_ind (λ (r : ℕ × List ℕ). IsOpen limit now key r.1) (ltb (length w) (limit key))
        (λ fits. record {
          within = ground (arith, length-append w (now ∷ []), fits);
          rises = Rises-snoc 0 w now h.rises;
        })
        (λ _. h)

  module _ (res : ℕ) where
    -- Writing a window back writes no key but its own.
    pub store_window-KeysIn :
        (ks : List Text) (key : Text) (w : List ℕ) (ttl now : ℕ) (d : OrderedDict Text (List ℕ))
        → contains ks key ≡ true
        → KeysIn ks d
        → KeysIn ks (store_window res key w ttl now d).1
    unfolding store_window
    store_window-KeysIn ks key [] ttl now d listed h = Entries-remove _ key d h
    store_window-KeysIn ks key (t ∷ w) ttl now d listed h =
        Entries-move_to_end _ key (set key (t ∷ w) d) (Entries-set _ key (t ∷ w) d listed h)

    store_window-Entries :
        (key : Text) (w : List ℕ) (ttl now : ℕ) (d : OrderedDict Text (List ℕ))
        → IsOpen limit now key w
        → Entries (IsWindow limit now) d
        → Entries (IsWindow limit now) (store_window res key w ttl now d).1
    unfolding store_window
    store_window-Entries key [] ttl now d o h = Entries-remove (IsWindow limit now) key d h
    store_window-Entries key (t ∷ w) ttl now d o h =
        Entries-move_to_end (IsWindow limit now) key (set key (t ∷ w) d) (
          Entries-set (IsWindow limit now) key (t ∷ w) d
            (record { nonempty = λ e. cc; within = o.within; rises = o.rises }) h)

    pub store_window-HasDistinctKeys :
        (key : Text) (w : List ℕ) (ttl now : ℕ) (d : OrderedDict Text (List ℕ))
        → HasDistinctKeys d
        → HasDistinctKeys (store_window res key w ttl now d).1
    unfolding store_window
    store_window-HasDistinctKeys key [] ttl now d h = remove-HasDistinctKeys key d h
    store_window-HasDistinctKeys key (t ∷ w) ttl now d h =
        move_to_end-HasDistinctKeys key (set key (t ∷ w) d) (set-HasDistinctKeys key (t ∷ w) d h)

    -- At a reading of the clock no earlier than the last one, whatever the key and its window
    -- length, counting a request under the limit of its key keeps the storage valid: one window
    -- for each key, at most `max_keys` of them, none empty, none over its limit, each rising.
    pub count_request-IsValid :
        (key : Text) (ttl before now : ℕ) (s : Storage)
        → before ≤ now
        → IsValid limit before s
        → IsValid limit now (count_request res key ttl (limit key) now s).1
    unfolding count_request
    count_request-IsValid key ttl before now s le h =
        let later = IsWindow-later before now s.windows le h.windows in
        let touched = move_to_end key s.windows in
        let w =
          (admit (limit key) now (expire (ttl * res) now (window_or_new (get key s.windows)))).1 in
        let open_w : IsOpen limit now key w =
          admit-IsOpen now key _
            (expire-IsOpen (ttl * res) now key _ (window_or_new-IsOpen now key s.windows later)) in
        record {
          distinct = trim-HasDistinctKeys s.max_keys _ (
              store_window-HasDistinctKeys key w ttl now touched
                (move_to_end-HasDistinctKeys key s.windows h.distinct));
          bounded = length-trim s.max_keys _;
          windows = Entries-trim (IsWindow limit now) s.max_keys _ (
              store_window-Entries key w ttl now touched open_w
                (Entries-move_to_end (IsWindow limit now) key s.windows later));
        }
