-- ===== src/Locks/Exclusion.antt =====
-- No instance is built twice at the same time: at most one resolution of a key is inside its lock.
use bustan.Prelude.{
  ℕ, ◌+◌, ◌-◌, ◌≤◌, ◌<◌, ◌≡◌, refl, sym, ap, ◌∙◌, subst, true, false, ◌&&◌, Option, none, some,
  List, [], ◌∷◌, ◌++◌, ◌==◌, nat_eq, arith, leb, if◌then◌else◌, All, All-suffix, Bool, beq_refl,
  beq→eq, Bool-cases, if_ind, inl, inr,
}
use mathlib.Core.Option.{some-injective}
use bustan.OrderedDict.{OrderedDict, get, remove}
use bustan.OrderedDict.Lookup.{get-set, get-remove}
use bustan.Locks.{
  ConstructionLocks, update, borrow, borrow_found, count_holder, is_entry, release, Task, System,
  holding, inside, waiting, in_lock, out_of_lock, Step, borrows, enters, leaves, releases, Reach,
  here, next, idle,
}
use bustan.Locks.Counting.{
  inside-append, All-map, All-both, holding-around, inside-around, All-around, around-All,
}

-- A task's entry is the one in the table, under its key, and it was handed out.
abbrev pub IsTabled : ConstructionLocks → Task → Type 0
IsTabled locks t = (get t.key locks.entries ≡ some t.entry) × (t.entry < locks.fresh)

-- A task that holds its entry has it in the table, and one inside the lock holds its entry.
record IsHeld (locks : ConstructionLocks) (t : Task) : Type 0 where
  tabled : t.holds ≡ true → IsTabled locks t
  kept : t.building ≡ true → t.holds ≡ true

-- The table lists its borrowers' entries; the holders are counted; a lock lets one in.
pub record IsSound (s : System) : Type 0 where
  held : All (IsHeld s.locks) s.tasks
  counted : (e : ℕ) → s.locks.holders e ≡ holding e s.tasks
  exclusive : (e : ℕ) → inside e s.tasks ≤ 1
  handed_out : (k e : ℕ) → get k s.locks.entries ≡ some e → e < s.locks.fresh

idle-IsSound : IsSound idle
unfolding get
idle-IsSound = record {
  held = tt;
  counted = λ e. unfold holding in refl;
  exclusive = λ e. unfold inside in omega arith;
  handed_out = λ k e h. ground (arith, h);
}

-- No task holds an entry that was not handed out.
holding_none :
    (locks : ConstructionLocks) (tasks : List Task) (e : ℕ)
    → locks.fresh ≤ e
    → All (IsHeld locks) tasks
    → holding e tasks ≡ 0
unfolding holding
holding_none locks [] e h every = refl
holding_none locks (t ∷ tasks) e h every =
    let rest = holding_none locks tasks e h every.1 in
    elim (Bool-cases t.holds) [
      | inl yet ↦ ground (arith, h, (every.0.tabled yet).1, nat_eq.beq_iff t.entry e, rest)
      | inr gone ↦ ground (arith, gone, rest)
    ]

module _ (s : System) (key : ℕ) (h : IsSound s) where
  -- A task's entry stays in the table when another key gets one.
  set-IsHeld :
      get key s.locks.entries ≡ none
      → (t : Task) → IsHeld s.locks t
      → IsHeld (borrow_found key none s.locks).1 t
  unfolding borrow_found count_holder
  set-IsHeld absent t held = record {
    tabled = λ yet.
        let tabled = held.tabled yet in
        (
          get-set key t.key s.locks.fresh s.locks.entries
              ∙ ground (arith, absent, tabled.0, nat_eq.beq_iff key t.key),
          omega (arith, tabled.1),
        );
    kept = held.kept;
  }

  borrow_found-IsSound :
      (found : Option ℕ)
      → get key s.locks.entries ≡ found
      → IsSound (record {
        locks = (borrow_found key found s.locks).1;
        tasks = waiting key (borrow_found key found s.locks).0 ∷ s.tasks;
      })
  unfolding borrow_found count_holder update holding inside
  borrow_found-IsSound (some entry) present = record {
    held = (
      record { tabled = λ _. (present, h.handed_out key entry present); kept = λ _. refl },
      All-map _ _ s.tasks (λ t own. record { tabled = own.tabled; kept = own.kept }) h.held,
    );
    counted = λ e. ground (arith, h.counted e, h.counted entry, nat_eq.beq_iff entry e);
    exclusive = λ e. ground (arith, h.exclusive e);
    handed_out = h.handed_out;
  }
  borrow_found-IsSound none absent = record {
    held = (
      record {
        tabled = λ _. (
          get-set key key s.locks.fresh s.locks.entries ∙ ground (arith, beq_refl key),
          omega arith,
        );
        kept = λ _. refl;
      },
      All-map _ _ s.tasks (set-IsHeld absent) h.held,
    );
    counted = λ e. ground (
      arith,
      h.counted e,
      nat_eq.beq_iff s.locks.fresh e,
      holding_none s.locks s.tasks s.locks.fresh (omega arith) h.held,
    );
    exclusive = λ e. ground (arith, h.exclusive e);
    handed_out = λ k e found.
        ground (arith, get-set key k s.locks.fresh s.locks.entries, found, h.handed_out k e);
  }

enter_alone :
    (others : ℕ → ℕ) (entry e : ℕ) {now was was_own : ℕ}
    → now ≡ others e + (if entry == e && true then 1 else 0)
    → was ≡ others e + (if entry == e && false then 1 else 0)
    → was_own ≡ others entry + (if entry == entry && false then 1 else 0)
    → was_own ≡ 0
    → was ≤ 1
    → now ≤ 1
enter_alone others entry e hnow hwas hown free one = elim (Bool-cases (entry == e)) [
  | inl same ↦
      let here_too = ap others (beq→eq same) in
      ground (arith, hnow, hwas, hown, free, one, here_too)
  | inr other ↦ ground (arith, hnow, hwas, other, one)
]

-- A task that holds its entry goes on in another way, if its lock still has one inside at most.
module _ (s : System) (before after : List Task) (key entry : ℕ)
    (entered entered' building building' : Bool) where
  abbrev was : Task
  was = record (waiting key entry) { entered = entered; building = building }

  abbrev now : Task
  now = record (waiting key entry) { entered = entered'; building = building' }

  goes_on-IsSound :
      s.tasks ≡ before ++ was ∷ after
      → ((e : ℕ) → inside e (before ++ now ∷ after) ≤ 1)
      → IsSound s
      → IsSound (record s { tasks = before ++ now ∷ after })
  goes_on-IsSound split exclusive h =
      let (own, others) =
        All-around before after was (IsHeld s.locks) (subst (All (IsHeld s.locks)) split h.held) in
      record {
        held =
            around-All before after now (IsHeld s.locks)
              (record { tabled = own.tabled; kept = λ _. refl }) others;
        counted = λ e.
            h.counted e
            ∙ ap (holding e) split
            ∙ holding-around before after was e
            ∙ sym (holding-around before after now e);
        exclusive = exclusive;
        handed_out = h.handed_out;
      }

-- The others of a key hold its entry too.
other_keys :
    (locks : ConstructionLocks) (t : Task) (tasks : List Task)
    → IsTabled locks t
    → holding t.entry tasks ≡ 0
    → All (IsHeld locks) tasks
    → All (λ u. u.holds ≡ true → (t.key == u.key) ≡ false) tasks
unfolding holding
other_keys locks t [] own alone every = tt
other_keys locks t (u ∷ tasks) own alone every = (
  λ yet. elim (Bool-cases (t.key == u.key)) [
    | inl same ↦
        let shared =
          some-injective t.entry u.entry
            (sym own.0 ∙ ap (λ k. get k locks.entries) (beq→eq same) ∙ (every.0.tabled yet).0) in
        absurd (ground (arith, shared, alone, yet))
    | inr other ↦ other
  ],
  other_keys locks t tasks own (ground (arith, alone)) every.1,
)

module _ (s : System) (before after : List Task) (t : Task) (split : s.tasks ≡ before ++ t ∷ after)
    (free : t.building ≡ false) (yet : t.holds ≡ true) (h : IsSound s) where
  abbrev gone : Task
  gone = record t { holds = false }

  abbrev mine : IsHeld s.locks t × All (IsHeld s.locks) (before ++ after)
  mine = All-around before after t (IsHeld s.locks) (subst (All (IsHeld s.locks)) split h.held)

  -- What is left is sound with any table that keeps the entries of the other tasks.
  releases_with :
      (entries : OrderedDict ℕ ℕ)
      → All (λ u. u.holds ≡ true → get u.key entries ≡ some u.entry) (before ++ after)
      → ((k e : ℕ) → get k entries ≡ some e → get k s.locks.entries ≡ some e)
      → IsSound (record {
        locks = record s.locks {
          holders = update t.entry (s.locks.holders t.entry - 1) s.locks.holders;
          entries = entries;
        };
        tasks = before ++ gone ∷ after;
      })
  unfolding update
  releases_with entries kept known = record {
    held =
        around-All before after gone _
          (record { tabled = λ e. ground (arith, e); kept = λ e. ground (arith, e, free) })
          (All-both _ _ _ (before ++ after)
            (λ u own found. record { tabled = λ e. (found e, (own.tabled e).1); kept = own.kept })
            mine.1 kept);
    counted = λ e. ground (
      arith,
      yet,
      h.counted e,
      h.counted t.entry,
      ap (holding e) split,
      ap (holding t.entry) split,
      holding-around before after t e,
      holding-around before after t t.entry,
      holding-around before after gone e,
      nat_eq.beq_iff t.entry e,
      beq_refl t.entry,
    );
    exclusive = λ e. ground (
      arith,
      h.exclusive e,
      ap (inside e) split,
      inside-around before after t e,
      inside-around before after gone e,
    );
    handed_out = λ k e found. h.handed_out k e (known k e found);
  }

  -- The last holder's entry is no other task's.
  removed_kept :
      (leb (s.locks.holders t.entry - 1) 0 && is_entry t.entry (get t.key s.locks.entries)) ≡ true
      → All
          (λ u. u.holds ≡ true → get u.key (remove t.key s.locks.entries) ≡ some u.entry)
          (before ++ after)
  removed_kept last =
      let count =
        h.counted t.entry ∙ ap (holding t.entry) split ∙ holding-around before after t t.entry in
      let alone : holding t.entry (before ++ after) ≡ 0 =
        ground (arith, count, last, beq_refl t.entry, yet) in
      All-both _ _ _ (before ++ after)
        (λ u own other e.
          get-remove t.key u.key s.locks.entries ∙ ground (arith, other e, (own.tabled e).0))
        mine.1 (other_keys s.locks t (before ++ after) (mine.0.tabled yet) alone mine.1)

  removed_known :
      (k e : ℕ) → get k (remove t.key s.locks.entries) ≡ some e → get k s.locks.entries ≡ some e
  removed_known k e found = ground (arith, get-remove t.key k s.locks.entries, found)

  releases-IsSound :
      IsSound (record { locks = release t.key t.entry s.locks; tasks = before ++ gone ∷ after })
  unfolding release
  releases-IsSound =
      if_ind
        (λ entries. IsSound (record {
          locks = record s.locks {
            holders = update t.entry (s.locks.holders t.entry - 1) s.locks.holders;
            entries = entries;
          };
          tasks = before ++ gone ∷ after;
        }))
        (leb (s.locks.holders t.entry - 1) 0 && is_entry t.entry (get t.key s.locks.entries))
        (λ last. releases_with (remove t.key s.locks.entries) (removed_kept last) removed_known)
        (λ more.
          releases_with s.locks.entries
            (All-map _ _ (before ++ after) (λ u own e. (own.tabled e).0) mine.1)
            (λ k e found. found))

Step-IsSound : {s t : System} → Step s t → IsSound s → IsSound t
Step-IsSound {s} (borrows key) h =
    unfold borrow in borrow_found-IsSound s key h (get key s.locks.entries) refl
Step-IsSound {s} (enters before after key entry split free) h =
    goes_on-IsSound s before after key entry false true false true split
      (λ e.
        enter_alone (λ j. inside j (before ++ after)) entry e
          (inside-around before after (in_lock key entry) e)
          (ap (inside e) split ∙ inside-around before after (waiting key entry) e)
          (ap (inside entry) split ∙ inside-around before after (waiting key entry) entry) free
          (h.exclusive e))
      h
Step-IsSound {s} (leaves before after key entry split) h =
    goes_on-IsSound s before after key entry true true true false split
      (λ e. ground (
        arith,
        h.exclusive e,
        ap (inside e) split,
        inside-around before after (in_lock key entry) e,
        inside-around before after (out_of_lock key entry) e,
      ))
      h
Step-IsSound {s} (releases before after t split free yet) h =
    releases-IsSound s before after t split free yet h

Reach-IsSound : {s t : System} → IsSound s → Reach s t → IsSound t
Reach-IsSound h here = h
Reach-IsSound h (next r step) = Step-IsSound step (Reach-IsSound h r)

-- In every interleaving of borrowing an entry, entering its lock, leaving the lock and releasing the
-- entry, two resolutions of one key are never inside its lock at the same time.
pub one_builder :
    (s : System) (l m r : List Task) (t u : Task)
    → Reach idle s
    → s.tasks ≡ l ++ t ∷ (m ++ u ∷ r)
    → t.key ≡ u.key
    → (t.building && u.building) ≡ false
one_builder s l m r t u reach split same = elim (Bool-cases (t.building && u.building)) [
  | inr apart ↦ apart
  | inl both ↦
      let h = Reach-IsSound idle-IsSound reach in
      let every = subst (All (IsHeld s.locks)) split h.held in
      let (own, others) = All-around l (m ++ u ∷ r) t (IsHeld s.locks) every in
      let other =
        (All-suffix (IsHeld s.locks) m (u ∷ r)
          (All-suffix (IsHeld s.locks) l (m ++ u ∷ r) others)).0 in
      let t_builds : t.building ≡ true = ground (arith, both) in
      let u_builds : u.building ≡ true = ground (arith, both) in
      let shared = some-injective t.entry u.entry (
        sym (own.tabled (own.kept t_builds)).0
        ∙ ap (λ k. get k s.locks.entries) same
        ∙ (other.tabled (other.kept u_builds)).0) in
      let count = ap (inside t.entry) split ∙ inside-around l (m ++ u ∷ r) t t.entry in
      absurd (
        ground (
          arith,
          h.exclusive t.entry,
          count,
          inside-append t.entry l (m ++ u ∷ r),
          inside-around m r u t.entry,
          shared,
          t_builds,
          u_builds,
          beq_refl t.entry,
          nat_eq.beq_iff u.entry t.entry,
        ))
]
