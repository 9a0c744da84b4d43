-- ===== src/Routing/Groups.antt =====
-- The groups of versioned handlers that the builder holds.
use bustan.Prelude.{
  ◌≡◌, refl, sym, subst, false, List, [], ◌∷◌, ◌++◌, list_eq, nat_eq, pair_eq, Text, All,
  All-append, Option-cases, inl, inr, ok, bind-ok, ok-injective, arith,
}
use bustan.OrderedDict.{OrderedDict, get}
use bustan.OrderedDict.Values.{Entries, Entries-get, Entries-set}
use bustan.OrderedDict.Distinct.{HasDistinctKeys, set-HasDistinctKeys}
use bustan.Routing.Contracts.{RouteContract, versions_overlap}
use bustan.Routing.Plan.{
  VersionedHandler, Builder, check_version_overlap, group_of, versioned_handler, hold, hold_version,
}
use bustan.Routing.Dispatch.{IsDisjoint}

abbrev pub Key : Type 0
Key = Text × Text

abbrev pub IsKeyed : Key → VersionedHandler → Type 0
IsKeyed key handler =
    (handler.contract.method ≡ key.0)
    × (handler.contract.path ≡ key.1)
    × (handler.contract.versions ≡ handler.versions)

abbrev pub IsSome : List VersionedHandler → Type 0
IsSome [] = ⊥
IsSome (handler ∷ handlers) = Unit

pub record IsGroup (key : Key) (handlers : List VersionedHandler) : Type 0 where
  pub nonempty : IsSome handlers
  pub keyed : All (IsKeyed key) handlers
  pub disjoint : IsDisjoint handlers

pub record IsHeld (b : Builder) : Type 0 where
  pub unrouted : b.routes ≡ []
  pub distinct : HasDistinctKeys b.versioned
  pub groups : Entries IsGroup b.versioned

check_version_overlap-ok :
    (key : Key) (contract : RouteContract) (handlers : List VersionedHandler)
    → check_version_overlap key contract handlers ≡ ok tt
    → All (λ (e : VersionedHandler). versions_overlap contract.versions e.versions ≡ false) handlers
unfolding check_version_overlap versions_overlap
check_version_overlap-ok key contract [] e = tt
check_version_overlap-ok key contract (existing ∷ handlers) e =
    (ground (arith, e), check_version_overlap-ok key contract handlers (ground (arith, e)))

IsDisjoint-snoc :
    (handlers : List VersionedHandler) (handler : VersionedHandler)
    → IsDisjoint handlers
    → All (λ (e : VersionedHandler). versions_overlap handler.versions e.versions ≡ false) handlers
    → IsDisjoint (handlers ++ handler ∷ [])
IsDisjoint-snoc [] handler disjoint apart = (tt, tt)
IsDisjoint-snoc (h ∷ handlers) handler disjoint apart = (
  All-append (λ (l : VersionedHandler). versions_overlap l.versions h.versions ≡ false) handlers
      (handler ∷ []) disjoint.0 (apart.0, tt),
  IsDisjoint-snoc handlers handler disjoint.1 apart.1,
)

IsSome-snoc :
    (handlers : List VersionedHandler) (h : VersionedHandler) → IsSome (handlers ++ h ∷ [])
IsSome-snoc [] h = tt
IsSome-snoc (e ∷ handlers) h = tt

record IsPart (key : Key) (handlers : List VersionedHandler) : Type 0 where
  keyed : All (IsKeyed key) handlers
  disjoint : IsDisjoint handlers

group_of-IsPart :
    (key : Key) (d : OrderedDict Key (List VersionedHandler))
    → Entries IsGroup d
    → IsPart key (group_of (get key d))
group_of-IsPart key d groups = elim (Option-cases (get key d)) [
  | inl missing ↦
      subst (λ o. IsPart key (group_of o)) (sym missing) (record { keyed = tt; disjoint = tt })
  | inr (handlers, found) ↦
      let group = Entries-get IsGroup key d handlers groups found in
      subst (λ o. IsPart key (group_of o)) (sym found)
        (record { keyed = group.keyed; disjoint = group.disjoint })
]

pub hold_version-IsHeld :
    (contract : RouteContract) (b after : Builder)
    → IsHeld b
    → hold_version contract b ≡ ok after
    → IsHeld after
unfolding hold_version
hold_version-IsHeld contract b after held e =
    let key : Key = (contract.method, contract.path) in
    let handlers = group_of (get key b.versioned) in
    let part = group_of-IsPart key b.versioned held.groups in
    let (u, passed, stored) =
      bind-ok (check_version_overlap key contract handlers)
        (λ (u : Unit {0}). ok (hold key contract handlers b)) after e in
    let apart = check_version_overlap-ok key contract handlers passed in
    let group : IsGroup key (handlers ++ versioned_handler contract ∷ []) = record {
      nonempty = IsSome-snoc handlers (versioned_handler contract);
      keyed =
          All-append (IsKeyed key) handlers (versioned_handler contract ∷ []) part.keyed
            ((refl, refl, refl), tt);
      disjoint = IsDisjoint-snoc handlers (versioned_handler contract) part.disjoint apart;
    } in
    subst IsHeld (ok-injective _ _ stored) (record {
      unrouted = held.unrouted;
      distinct =
          set-HasDistinctKeys key (handlers ++ versioned_handler contract ∷ []) b.versioned
            held.distinct;
      groups =
          Entries-set IsGroup key (handlers ++ versioned_handler contract ∷ []) b.versioned group
            held.groups;
    })
