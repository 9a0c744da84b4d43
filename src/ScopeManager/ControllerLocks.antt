-- ===== src/ScopeManager/ControllerLocks.antt =====
-- `get_controller_singleton_lock` of kernel/ioc/scopes.py under any interleaving of the threads that
-- ask for locks: the first lookup is unguarded, and what is under the guard is done step by step.
use bustan.Prelude.{
  ℕ, ◌≡◌, refl, sym, ap, ◌∙◌, subst, none, some, List, [], ◌∷◌, ◌++◌, ◌==◌, nat_eq, pair_eq, All,
  All-suffix, beq_refl, beq→eq, Bool-cases, Option-cases, inl, inr, if◌then◌else◌,
}
use mathlib.Core.Option.{none-ne-some, some-injective}
use bustan.OrderedDict.{get}
use bustan.OrderedDict.Lookup.{get-set}
use bustan.ScopeManager.{
  ScopeManager, ControllerKey, find_lock, new_lock, store_lock, setdefault_lock,
  get_controller_singleton_lock,
}

-- Where a thread that holds `_lock_table_guard` is: it has just entered, or its `setdefault` found no
-- lock and has the new one to store.
pub data Guarded : Type 0 where
  entered : ControllerKey → Guarded
  absent : ControllerKey → ℕ → Guarded

-- The threads that found no lock and wait for the guard, those inside it, and the locks that were
-- handed out.
pub record Threads : Type 0 where
  pub manager : ScopeManager
  pub waiting : List ControllerKey
  pub inside : List Guarded
  pub handed : List (ControllerKey × ℕ)

pub data Step (s : Threads) : Threads → Type 0 where
  finds :
      (key : ControllerKey) (lock : ℕ)
      → find_lock key s.manager ≡ some lock
      → Step s (record s { handed = (key, lock) ∷ s.handed })
  misses :
      (key : ControllerKey)
      → find_lock key s.manager ≡ none
      → Step s (record s { waiting = key ∷ s.waiting })
  enters :
      (before after : List ControllerKey) (key : ControllerKey)
      → s.waiting ≡ before ++ key ∷ after
      → s.inside ≡ []
      → Step s (record s { waiting = before ++ after; inside = entered key ∷ s.inside })
  keeps :
      (before after : List Guarded) (key : ControllerKey) (lock : ℕ)
      → s.inside ≡ before ++ entered key ∷ after
      → find_lock key s.manager ≡ some lock
      → Step s (record s {
        manager = (new_lock s.manager).1;
        inside = before ++ after;
        handed = (key, lock) ∷ s.handed;
      })
  lacks :
      (before after : List Guarded) (key : ControllerKey)
      → s.inside ≡ before ++ entered key ∷ after
      → find_lock key s.manager ≡ none
      → Step s (record s {
        manager = (new_lock s.manager).1;
        inside = before ++ absent key (new_lock s.manager).0 ∷ after;
      })
  stores :
      (before after : List Guarded) (key : ControllerKey) (lock : ℕ)
      → s.inside ≡ before ++ absent key lock ∷ after
      → Step s (record s {
        manager = store_lock key lock s.manager;
        inside = before ++ after;
        handed = (key, lock) ∷ s.handed;
      })

pub data Reach (s : Threads) : Threads → Type 0 where
  here : Reach s s
  next : {t u : Threads} → Reach s t → Step t u → Reach s u

-- What was handed out is what the table has; whoever is about to store a lock has found none.
abbrev IsHanded : ScopeManager → ControllerKey × ℕ → Type 0
IsHanded m (key, lock) = find_lock key m ≡ some lock

abbrev IsAwaited : ScopeManager → Guarded → Type 0
IsAwaited m (entered key) = Unit
IsAwaited m (absent key lock) = find_lock key m ≡ none

-- The guard lets one thread in.
abbrev IsAlone : ScopeManager → List Guarded → Type 0
IsAlone m [] = Unit
IsAlone m (g ∷ []) = IsAwaited m g
IsAlone m (g ∷ (h ∷ others)) = ⊥

record IsSound (s : Threads) : Type 0 where
  all_handed : All (IsHanded s.manager) s.handed
  alone : IsAlone s.manager s.inside

-- Whoever is inside is alone there, and what it waits for holds.
only :
    (m : ScopeManager) (before after : List Guarded) (g : Guarded)
    → IsAlone m (before ++ g ∷ after)
    → (before ++ after ≡ []) × IsAwaited m g
only m [] [] g h = (refl, h)
only m [] (other ∷ after) g h = absurd h
only m (other ∷ []) after g h = absurd h
only m (other ∷ (another ∷ before)) after g h = absurd h

goes_on :
    (m n : ScopeManager) (before after : List Guarded) (g later : Guarded)
    → IsAlone m (before ++ g ∷ after)
    → IsAwaited n later
    → IsAlone n (before ++ later ∷ after)
goes_on m n [] [] g later h awaited = awaited
goes_on m n [] (other ∷ after) g later h awaited = absurd h
goes_on m n (other ∷ []) after g later h awaited = absurd h
goes_on m n (other ∷ (another ∷ before)) after g later h awaited = absurd h

-- Once it has left nobody is inside.
left-IsAlone :
    (m n : ScopeManager) (before after : List Guarded) (g : Guarded)
    → IsAlone m (before ++ g ∷ after)
    → IsAlone n (before ++ after)
left-IsAlone m n before after g h = subst (IsAlone n) (sym (only m before after g h).0) tt

-- A lock that is new to its key leaves those of the other keys.
stored_others :
    (key : ControllerKey) (lock : ℕ) (m : ScopeManager) (handed : List (ControllerKey × ℕ))
    → find_lock key m ≡ none
    → All (IsHanded m) handed
    → All (IsHanded (store_lock key lock m)) handed
unfolding find_lock store_lock
stored_others key lock m [] missing every = tt
stored_others key lock m ((other, kept) ∷ handed) missing every =
    let table = m.controller_singleton_locks in
    (
      get-set key other lock table ∙ elim (Bool-cases (key == other)) [
        | inl same ↦
            absurd (none-ne-some kept (sym missing ∙ ap (λ k. get k table) (beq→eq same) ∙ every.0))
        | inr differs ↦ ap (λ b. if b then some lock else get other table) differs ∙ every.0
      ],
      stored_others key lock m handed missing every.1,
    )

store_lock-own :
    (key : ControllerKey) (lock : ℕ) (m : ScopeManager)
    → find_lock key (store_lock key lock m) ≡ some lock
unfolding find_lock store_lock
store_lock-own key lock m =
    let table = m.controller_singleton_locks in
    get-set key key lock table ∙ ap (λ b. if b then some lock else get key table) (beq_refl key)

Step-IsSound : {s t : Threads} → Step s t → IsSound s → IsSound t
unfolding find_lock new_lock
Step-IsSound (finds key lock found) h = record {
  all_handed = (found, h.all_handed);
  alone = h.alone;
}
Step-IsSound (misses key missing) h = record { all_handed = h.all_handed; alone = h.alone }
Step-IsSound {s} (enters before after key split free) h = record {
  all_handed = h.all_handed;
  alone = subst (λ l. IsAlone s.manager (entered key ∷ l)) (sym free) tt;
}
Step-IsSound {s} (keeps before after key lock split found) h = record {
  all_handed = (found, h.all_handed);
  alone =
      left-IsAlone s.manager (new_lock s.manager).1 before after (entered key)
        (subst (IsAlone s.manager) split h.alone);
}
Step-IsSound {s} (lacks before after key split missing) h = record {
  all_handed = h.all_handed;
  alone =
      goes_on s.manager (new_lock s.manager).1 before after (entered key)
        (absent key (new_lock s.manager).0) (subst (IsAlone s.manager) split h.alone) missing;
}
Step-IsSound {s} (stores before after key lock split) h =
    let inside = subst (IsAlone s.manager) split h.alone in
    record {
      all_handed = (
        store_lock-own key lock s.manager,
        stored_others key lock s.manager s.handed
            (only s.manager before after (absent key lock) inside).1 h.all_handed,
      );
      alone =
          left-IsAlone s.manager (store_lock key lock s.manager) before after (absent key lock)
            inside;
    }

Reach-IsSound : {s t : Threads} → IsSound s → Reach s t → IsSound t
Reach-IsSound h here = h
Reach-IsSound h (next r step) = Step-IsSound step (Reach-IsSound h r)

-- In every interleaving of the threads that ask for locks, from a moment when none was handed out and
-- nobody is inside the guard: any two that were handed a lock for the same controller have the same.
pub one_lock :
    (s t : Threads) (l m r : List (ControllerKey × ℕ)) (key : ControllerKey) (mine yours : ℕ)
    → s.handed ≡ []
    → s.inside ≡ []
    → Reach s t
    → t.handed ≡ l ++ (key, mine) ∷ (m ++ (key, yours) ∷ r)
    → mine ≡ yours
one_lock s t l m r key mine yours none_yet free reach split =
    let start : IsSound s = record {
      all_handed = subst (All (IsHanded s.manager)) (sym none_yet) tt;
      alone = subst (IsAlone s.manager) (sym free) tt;
    } in
    let h = Reach-IsSound start reach in
    let own =
      All-suffix (IsHanded t.manager) l ((key, mine) ∷ (m ++ (key, yours) ∷ r))
        (subst (All (IsHanded t.manager)) split h.all_handed) in
    let other = All-suffix (IsHanded t.manager) m ((key, yours) ∷ r) own.1 in
    some-injective mine yours (sym own.0 ∙ other.0)

-- A call that no other thread interferes with is one of the runs.
pub Reach-get_controller_singleton_lock :
    (key : ControllerKey) (m : ScopeManager) (waiting : List ControllerKey)
    (handed : List (ControllerKey × ℕ))
    → let (lock, after) = get_controller_singleton_lock key m in
      Reach
        (record { manager = m; waiting = waiting; inside = []; handed = handed })
        (record { manager = after; waiting = waiting; inside = []; handed = (key, lock) ∷ handed })
unfolding get_controller_singleton_lock setdefault_lock
Reach-get_controller_singleton_lock key m waiting handed = elim (Option-cases (find_lock key m)) [
  | inr (lock, found) ↦ rw (found, get_controller_singleton_lock) (next here (finds key lock found))
  | inl missing ↦
      let still : find_lock key (new_lock m).1 ≡ none =
        unfold find_lock in unfold new_lock in missing in
      rw (missing, get_controller_singleton_lock, still, setdefault_lock)
        (next
          (next (next (next here (misses key missing)) (enters [] waiting key refl refl))
            (lacks [] [] key refl missing))
          (stores [] [] key (new_lock m).0 refl))
]
