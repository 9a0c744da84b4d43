-- ===== src/Lifecycle/Participants.antt =====
-- The instances that take part in the lifecycle: each once, and all that the container built.
use bustan.Prelude.{
  ℕ, ◌≡◌, refl, sym, ap, ◌∙◌, Bool, true, false, not, ◌&&◌, ◌||◌, List, [], ◌∷◌, ◌++◌, ◌==◌, nat_eq,
  arith, map, contains, any, Bool-cases, inl, inr, beq→eq, subst,
}
use mathlib.Core.List.{map-append}
use bustan.OrderedDict.{OrderedDict}
use bustan.Lifecycle.Runner.{
  BindingKey, Container, Participant, provider_of, instance_of, Classes, is_constructed,
  record_instance, record_all, without_partition, constructed_instances,
}

abbrev pub IsDistinct : List ℕ → Type 0
IsDistinct [] = Unit
IsDistinct (i ∷ l) = (contains l i ≡ false) × IsDistinct l

contains-append : (l m : List ℕ) (j : ℕ) → contains (l ++ m) j ≡ (contains l j || contains m j)
contains-append [] m j = refl
contains-append (i ∷ l) m j = ground (arith, contains-append l m j)

IsDistinct-append :
    (l : List ℕ) (i : ℕ) → contains l i ≡ false → IsDistinct l → IsDistinct (l ++ i ∷ [])
IsDistinct-append [] i new h = (refl, tt)
IsDistinct-append (k ∷ l) i new h = (
  contains-append l (i ∷ []) k ∙ ground (arith, new, h.0, nat_eq.beq_iff k i, nat_eq.beq_iff i k),
  IsDistinct-append l i (ground (arith, new)) h.1,
)

absorbed : (b x y e : Bool) → (not b || x) ≡ true → (e ≡ true → x ≡ y) → y ≡ (y || (b && e))
absorbed b x y e h same = ground (arith, h, same)

module _ (c : Classes) where
  -- Whether a cache entry is an instance that the framework built.
  abbrev pub is_built : ℕ → BindingKey × ℕ → Bool
  is_built j (key, i) = is_constructed (c.get_binding key) && (i == j)

  -- What `_record` keeps: the participants are the instances seen, each once.
  record IsRecorded (found : List Participant × List ℕ) : Type 0 where
    seen : found.1 ≡ map instance_of found.0
    distinct : IsDistinct found.1

  record_instance-IsRecorded :
      (found : List Participant × List ℕ) (key : BindingKey) (i : ℕ)
      → IsRecorded found
      → IsRecorded (record_instance c found key i)
  unfolding record_instance
  record_instance-IsRecorded (constructed, seen) key i h =
      elim (Bool-cases (not (is_constructed (c.get_binding key)) || contains seen i)) [
        | inl skip ↦ rw skip h
        | inr take ↦ rw take (record {
          seen =
              ap (λ l. l ++ i ∷ []) h.seen
              ∙ sym (map-append instance_of constructed (provider_of key.1 i ∷ []));
          distinct = IsDistinct-append seen i (ground (arith, take)) h.distinct;
        })
      ]

  record_instance-seen :
      (found : List Participant × List ℕ) (key : BindingKey) (i j : ℕ)
      → contains (record_instance c found key i).1 j ≡ (contains found.1 j || is_built j (key, i))
  unfolding record_instance
  record_instance-seen (constructed, seen) key i j =
      elim (Bool-cases (not (is_constructed (c.get_binding key)) || contains seen i)) [
        | inl skip ↦ rw skip (
            absorbed (is_constructed (c.get_binding key)) (contains seen i) (contains seen j)
              (i == j) skip (λ e. ap (contains seen) (beq→eq e)))
        | inr take ↦ rw take (contains-append seen (i ∷ []) j ∙ ground (arith, take))
      ]

  or_assoc : (a b d : Bool) → ((a || b) || d) ≡ (a || (b || d))
  or_assoc a b d = ground arith

  record_all-IsRecorded :
      (found : List Participant × List ℕ) (entries : OrderedDict BindingKey ℕ)
      → IsRecorded found
      → IsRecorded (record_all c found entries)
  unfolding record_all
  record_all-IsRecorded found [] h = h
  record_all-IsRecorded found ((key, i) ∷ rest) h =
      record_all-IsRecorded (record_instance c found key i) rest
        (record_instance-IsRecorded found key i h)

  record_all-seen :
      (found : List Participant × List ℕ) (entries : OrderedDict BindingKey ℕ) (j : ℕ)
      → contains (record_all c found entries).1 j ≡ (contains found.1 j || any (is_built j) entries)
  unfolding record_all
  record_all-seen found [] j = ground arith
  record_all-seen found ((key, i) ∷ rest) j =
      record_all-seen (record_instance c found key i) rest j
      ∙ ap (λ b. b || any (is_built j) rest) (record_instance-seen found key i j)
      ∙ or_assoc (contains found.1 j) (is_built j (key, i)) (any (is_built j) rest)

  -- Every instance that the caches hold for a class or a factory takes part, and takes part once;
  -- nothing else does.
  pub constructed_instances-IsDistinct :
      (container : Container)
      → IsDistinct (map instance_of (constructed_instances c container))
        × ((j : ℕ)
            → contains (map instance_of (constructed_instances c container)) j ≡ (
                any (is_built j) container.singletons
                || any (is_built j) (without_partition c container.durable_instances)))
  unfolding constructed_instances
  constructed_instances-IsDistinct container =
      let none_yet : IsRecorded ([], []) = record { seen = refl; distinct = tt } in
      let singletons = record_all c ([], []) container.singletons in
      let durables = without_partition c container.durable_instances in
      let first = record_all-IsRecorded ([], []) container.singletons none_yet in
      let both = record_all-IsRecorded singletons durables first in
      (
        subst IsDistinct both.seen both.distinct,
        λ j.
            ap (λ l. contains l j) (sym both.seen)
            ∙ record_all-seen singletons durables j
            ∙ ap (λ b. b || any (is_built j) durables)
                (record_all-seen ([], []) container.singletons j),
      )
