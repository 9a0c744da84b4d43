-- ===== src/InstanceStore/Laws.antt =====
-- The bounded store stays in its bound, serves what was written last, and keeps apart the tokens
-- that differ in their type only.
use bustan.Prelude.{
  ℕ, ◌≡◌, ◌≢◌, ◌≤◌, ◌<◌, refl, sym, ap, ◌∙◌, Option, none, some, List, [], ◌∷◌, nat_eq, list_eq,
  arith, beq_refl, length, length-append, Option-cases, inl, inr, if◌then◌else◌, ne→beq,
}
use bustan.OrderedDict.{OrderedDict, get, set, remove, move_to_end}
use bustan.OrderedDict.Lookup.{
  get-set, get-move_to_end, get-trim-move_to_end, length-trim, trim-eq_of_le, length-remove_le,
}
use bustan.OrderedDict.Distinct.{
  HasDistinctKeys, set-HasDistinctKeys, move_to_end-HasDistinctKeys, trim-HasDistinctKeys,
}
use bustan.InstanceStore.{CacheKey, cached_under, BoundedInstanceStore, get_item, set_item}

pub record IsValid (s : BoundedInstanceStore) : Type 0 where
  pub positive : 0 < s.limit
  pub distinct : HasDistinctKeys s.entries
  pub bounded : length s.entries ≤ s.limit

-- What `_cached_key` reads back.
abbrev cached_key : List ℕ → CacheKey
cached_key (m ∷ t ∷ v ∷ partition) = record {
  module_key = m;
  token = record { token_type = t; value = v };
  partition = partition;
}
cached_key _ = record {
  module_key = 0;
  token = record { token_type = 0; value = 0 };
  partition = [];
}

cached_key-cached_under : (key : CacheKey) → cached_key (cached_under key) ≡ key
unfolding cached_under
cached_key-cached_under key = refl

pub cached_under-injective : (k j : CacheKey) → cached_under k ≡ cached_under j → k ≡ j
cached_under-injective k j e =
    sym (cached_key-cached_under k) ∙ ap cached_key e ∙ cached_key-cached_under j

-- The instance that a read serves, without what it does to the order.
unfoldable pub served : CacheKey → BoundedInstanceStore → Option ℕ
served key s = elim (get_item key s) [ none ↦ none | some (i, after) ↦ some i ]

served-eq :
    (key : CacheKey) (s : BoundedInstanceStore) → served key s ≡ get (cached_under key) s.entries
unfolding served get_item
served-eq key s = elim (Option-cases (get (cached_under key) s.entries)) [
  | inl missing ↦ ground (arith, missing)
  | inr (i, found) ↦ ground (arith, found)
]

length-remove_lt :
    (k : List ℕ) (v : ℕ) (d : OrderedDict (List ℕ) ℕ)
    → get k d ≡ some v
    → length (remove k d) < length d
unfolding remove get
length-remove_lt k v [] found = ground (arith, found)
length-remove_lt k v ((i, w) ∷ d) found =
    ground (arith, found, length-remove_le k d, length-remove_lt k v d)

length-move_to_end_le :
    (k : List ℕ) (d : OrderedDict (List ℕ) ℕ) → length (move_to_end k d) ≤ length d
unfolding move_to_end
length-move_to_end_le k d = elim (Option-cases (get k d)) [
  | inl missing ↦ ground (arith, missing)
  | inr (v, found) ↦
      ground (arith, found, length-append (remove k d) ((k, v) ∷ []), length-remove_lt k v d found)
]

-- What a write does to the store.
pub record IsWritten (key : CacheKey) (i : ℕ) (s after : BoundedInstanceStore) : Type 0 where
  valid : IsValid after
  serves : served key after ≡ some i
  others :
      (j : CacheKey)
      → key ≢ j
      → length (set (cached_under key) i s.entries) ≤ s.limit
      → served j after ≡ served j s

-- Writing keeps a store within its limit, with one entry for each key; the key that was written is
-- served at once, whatever had to be dropped for it; and while there is room, every other key is
-- left alone, one whose token differs in its type only included.
pub set_item-IsWritten :
    (key : CacheKey) (i : ℕ) (s : BoundedInstanceStore)
    → IsValid s
    → IsWritten key i s (set_item key i s)
unfolding set_item
set_item-IsWritten key i s h =
    let slot = cached_under key in
    let written = set slot i s.entries in
    let found : get slot written ≡ some i =
      get-set slot slot i s.entries
      ∙ ap (λ b. if b then some i else get slot s.entries) (beq_refl slot) in
    record {
      valid = record {
        positive = h.positive;
        distinct = trim-HasDistinctKeys s.limit (move_to_end slot written) (
            move_to_end-HasDistinctKeys slot written
              (set-HasDistinctKeys slot i s.entries h.distinct));
        bounded = length-trim s.limit (move_to_end slot written);
      };
      serves =
          served-eq key (set_item key i s)
          ∙ get-trim-move_to_end s.limit slot i written h.positive found;
      others = λ j differs room.
          let fits : length (move_to_end slot written) ≤ s.limit =
            omega (arith, length-move_to_end_le slot written, room) in
          served-eq j (set_item key i s)
          ∙ ap (get (cached_under j)) (trim-eq_of_le s.limit (move_to_end slot written) fits)
          ∙ get-move_to_end slot (cached_under j) written
          ∙ get-set slot (cached_under j) i s.entries
          ∙ ap (λ b. if b then some i else get (cached_under j) s.entries)
              (ne→beq (λ e. differs (cached_under-injective key j e)))
          ∙ sym (served-eq j s);
    }
