-- ===== src/Locks.antt =====
-- `ConstructionLocks` of kernel/ioc/scopes.py: the locks under which instances are built, and the
-- resolutions that borrow them. A cache key is named by a number; an entry is a reference to a
-- store that the table and its borrowers share, so that two of them may hold the same one.
mod Tests
pub mod Counting
pub mod Exclusion
use bustan.Prelude.{
  ℕ, suc, ◌+◌, ◌-◌, ◌≤◌, ◌≡◌, Bool, true, false, ◌&&◌, Option, none, some, List, [], ◌∷◌, ◌++◌,
  ◌==◌, nat_eq, leb, if◌then◌else◌,
}
use bustan.OrderedDict.{OrderedDict, get, set, remove}

-- `ConstructionLocks`: the table, the number of holders of each `_LockEntry`, and the reference that
-- the next entry gets.
pub record ConstructionLocks : Type 0 where
  pub entries : OrderedDict ℕ ℕ
  pub holders : ℕ → ℕ
  pub fresh : ℕ

unfoldable pub update : ℕ → ℕ → (ℕ → ℕ) → ℕ → ℕ
update entry n holders j = if entry == j then n else holders j

-- `borrow`: the entry of a key, counting one holder more.
unfoldable pub count_holder : ℕ → ConstructionLocks → ConstructionLocks
unfolding update
count_holder entry locks = record locks {
  holders = update entry (locks.holders entry + 1) locks.holders;
}

unfoldable pub borrow_found : ℕ → Option ℕ → ConstructionLocks → ℕ × ConstructionLocks
borrow_found key (some entry) locks = (entry, count_holder entry locks)
borrow_found key none locks = (
  locks.fresh,
  count_holder locks.fresh (record {
    entries = set key locks.fresh locks.entries;
    holders = update locks.fresh 0 locks.holders;
    fresh = suc locks.fresh;
  }),
)

unfoldable pub borrow : ℕ → ConstructionLocks → ℕ × ConstructionLocks
borrow key locks = borrow_found key (get key locks.entries) locks

abbrev pub is_entry : ℕ → Option ℕ → Bool
is_entry entry none = false
is_entry entry (some found) = found == entry

-- `release`: `-` stops at 0, where `holders <= 0` holds as well.
unfoldable pub release : ℕ → ℕ → ConstructionLocks → ConstructionLocks
release key entry locks =
    let left = locks.holders entry - 1 in
    let entries = locks.entries in
    record locks {
      holders = update entry left locks.holders;
      entries =
          if leb left 0 && is_entry entry (get key entries) then remove key entries else entries;
    }

-- A resolution that borrowed an entry: whether it has entered the entry's lock, is inside it, and
-- holds the entry still.
pub record Task : Type 0 where
  pub key : ℕ
  pub entry : ℕ
  pub entered : Bool
  pub building : Bool
  pub holds : Bool

abbrev pub waiting : ℕ → ℕ → Task
waiting key entry = record {
  key = key;
  entry = entry;
  entered = false;
  building = false;
  holds = true;
}

abbrev pub in_lock : ℕ → ℕ → Task
in_lock key entry = record (waiting key entry) { entered = true; building = true }

abbrev pub out_of_lock : ℕ → ℕ → Task
out_of_lock key entry = record (waiting key entry) { entered = true }

pub record System : Type 0 where
  pub locks : ConstructionLocks
  pub tasks : List Task

-- The tasks that hold an entry, and those inside its lock.
unfoldable pub holding : ℕ → List Task → ℕ
holding entry [] = 0
holding entry (t ∷ tasks) =
    let rest = holding entry tasks in if t.entry == entry && t.holds then suc rest else rest

unfoldable pub inside : ℕ → List Task → ℕ
inside entry [] = 0
inside entry (t ∷ tasks) =
    let rest = inside entry tasks in if t.entry == entry && t.building then suc rest else rest

-- `_held` and `_held_async`, step by step, in any interleaving: a resolution borrows an entry, enters
-- its lock once no other is inside, leaves the lock, and releases the entry; one that gives up while
-- it waits releases without having entered. Whoever has released stays in the list.
pub data Step (s : System) : System → Type 0 where
  borrows :
      (key : ℕ)
      → Step s (record {
        locks = (borrow key s.locks).1;
        tasks = waiting key (borrow key s.locks).0 ∷ s.tasks;
      })
  enters :
      (before after : List Task) (key entry : ℕ)
      → s.tasks ≡ before ++ waiting key entry ∷ after
      → inside entry s.tasks ≡ 0
      → Step s (record s { tasks = before ++ in_lock key entry ∷ after })
  leaves :
      (before after : List Task) (key entry : ℕ)
      → s.tasks ≡ before ++ in_lock key entry ∷ after
      → Step s (record s { tasks = before ++ out_of_lock key entry ∷ after })
  releases :
      (before after : List Task) (t : Task)
      → s.tasks ≡ before ++ t ∷ after
      → t.building ≡ false
      → t.holds ≡ true
      → Step s (record {
        locks = release t.key t.entry s.locks;
        tasks = before ++ record t { holds = false } ∷ after;
      })

pub data Reach (s : System) : System → Type 0 where
  here : Reach s s
  next : {t u : System} → Reach s t → Step t u → Reach s u

abbrev pub idle : System
idle = record { locks = record { entries = []; holders = λ _. 0; fresh = 0 }; tasks = [] }
