-- ===== src/InstanceStore/Tests.antt =====
-- A store of two instances, and its theorem at it.
use bustan.Prelude.{ℕ, ◌≡◌, refl, none, some, [], ◌∷◌, nat_eq, list_eq, arith}
use bustan.OrderedDict.{get, set, remove, move_to_end, trim, has_key}
use bustan.InstanceStore.{
  CacheKey, cached_under, BoundedInstanceStore, create, get_item, set_item, del_item,
}
use bustan.InstanceStore.Laws.{IsValid, IsWritten, served, set_item-IsWritten}

program : Unit {0}
unfolding get set remove move_to_end trim has_key cached_under create get_item set_item del_item
    served
program = tt

abbrev key : ℕ → ℕ → CacheKey
key token_type value = record {
  module_key = 1;
  token = record { token_type = token_type; value = value };
  partition = 7 ∷ [];
}

abbrev empty : BoundedInstanceStore
empty = record { limit = 2; entries = [] }

abbrev full : BoundedInstanceStore
full = set_item (key 1 5) 11 (set_item (key 0 5) 10 empty)

types_apart : served (key 0 5) full ≡ some 10
unfolding program
types_apart = refl

oldest_dropped : served (key 0 5) (set_item (key 0 6) 12 full) ≡ none
unfolding program
oldest_dropped = refl

needs_room : create 0 ≡ none
unfolding program
needs_room = refl

full-IsValid : IsValid full
unfolding program
full-IsValid = record {
  positive = omega arith;
  distinct = (refl, (refl, tt));
  bounded = omega arith;
}

-- A third instance drops the one that was used longest ago.
set_item-IsWritten_example : IsWritten (key 0 6) 12 full (set_item (key 0 6) 12 full)
set_item-IsWritten_example = set_item-IsWritten (key 0 6) 12 full full-IsValid
