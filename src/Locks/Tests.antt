-- ===== src/Locks/Tests.antt =====
-- Two resolutions of one key and one of another, and the theorem of the locks at them.
use bustan.Prelude.{◌≡◌, refl, true, false, ◌&&◌, [], ◌∷◌, nat_eq}
use bustan.OrderedDict.{get, set, remove}
use bustan.Locks.{
  ConstructionLocks, update, count_holder, borrow_found, borrow, release, System, holding, inside,
  waiting, in_lock, out_of_lock, borrows, enters, leaves, Reach, here, next, idle,
}
use bustan.Locks.Exclusion.{one_builder}

program : Unit {0}
unfolding get set remove update count_holder borrow_found borrow release holding inside
program = tt

-- The locks after two resolutions of the key 5 and one of the key 6 borrowed.
abbrev locks : ConstructionLocks
locks = (borrow 6 (borrow 5 (borrow 5 idle.locks).1).1).1

one_entry : get 5 locks.entries ≡ get 5 (release 5 0 locks).entries
unfolding program
one_entry = refl

last_one_out : (release 5 0 (release 5 0 locks)).entries ≡ (6, 1) ∷ []
unfolding program
last_one_out = refl

abbrev queued : System
queued = record { locks = locks; tasks = waiting 6 1 ∷ waiting 5 0 ∷ waiting 5 0 ∷ [] }

abbrev busy : System
busy = record queued { tasks = waiting 6 1 ∷ waiting 5 0 ∷ in_lock 5 0 ∷ [] }

reaches_busy : Reach idle busy
unfolding program
reaches_busy =
    next (next (next (next here (borrows 5)) (borrows 5)) (borrows 6))
      (enters (waiting 6 1 ∷ waiting 5 0 ∷ []) [] 5 0 refl refl)

-- The first leaves the lock and the second enters it before the first has released the entry.
abbrev handed_over : System
handed_over = record queued { tasks = waiting 6 1 ∷ in_lock 5 0 ∷ out_of_lock 5 0 ∷ [] }

reaches_handed_over : Reach idle handed_over
unfolding program
reaches_handed_over =
    next (next reaches_busy (leaves (waiting 6 1 ∷ waiting 5 0 ∷ []) [] 5 0 refl))
      (enters (waiting 6 1 ∷ []) (out_of_lock 5 0 ∷ []) 5 0 refl refl)

one_builder_example : (true && false) ≡ false
one_builder_example =
    one_builder handed_over (waiting 6 1 ∷ []) [] [] (in_lock 5 0) (out_of_lock 5 0)
      reaches_handed_over refl refl
