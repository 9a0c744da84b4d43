-- ===== src/Routing/Dispatch.antt =====
-- What the builder holds for one method and path: handlers of which no two overlap, so that it does
-- not matter in which order they were declared.
use bustan.Prelude.{
  ◌≡◌, ◌↔◌, sym, subst, true, false, some, List, [], ◌∷◌, ◌==◌, list_eq, nat_eq, pair_eq, Text, any,
  contains, All, Among, among_first, among_later, Among-All, Bool-cases, inl, inr, beq→eq, arith,
}
use bustan.Routing.Versioning.{is_neutral_version}
use bustan.Routing.Contracts.{versions_overlap}
use bustan.Routing.Plan.{VersionedHandler, serves, dispatch}

-- No handler overlaps with one that was declared before it.
abbrev pub IsDisjoint : List VersionedHandler → Type 0
IsDisjoint [] = Unit
IsDisjoint (handler ∷ handlers) =
    All (λ (h : VersionedHandler). versions_overlap h.versions handler.versions ≡ false) handlers
    × IsDisjoint handlers

abbrev pub IsVersioned : VersionedHandler → Type 0
IsVersioned handler = is_neutral_version handler.versions ≡ false

any-shared :
    (left right : List Text) (v : Text)
    → contains left v ≡ true
    → contains right v ≡ true
    → any (contains right) left ≡ true
any-shared (w ∷ left) right v in_left in_right = elim (Bool-cases (w == v)) [
  | inl same ↦
      let one : w ≡ v = beq→eq same in
      let there = subst (λ q. contains right q ≡ true) (sym one) in_right in ground (arith, there)
  | inr other ↦
      let deeper = any-shared left right v (ground (arith, in_left, other)) in_right in
      ground (arith, deeper)
]
any-shared [] right v in_left in_right = absurd (ground (arith, in_left))

shared_overlap :
    (left right : List Text) (v : Text)
    → is_neutral_version left ≡ false
    → is_neutral_version right ≡ false
    → contains left v ≡ true
    → contains right v ≡ true
    → versions_overlap left right ≡ true
unfolding versions_overlap
shared_overlap left right v open_left open_right in_left in_right =
    rw (open_left, open_right) (any-shared left right v in_left in_right)

-- Where the first handler has the version, no other has it.
first_serves :
    (entry h : VersionedHandler) (handlers : List VersionedHandler) (v : Text)
    → IsDisjoint (entry ∷ handlers)
    → All IsVersioned (entry ∷ handlers)
    → contains entry.versions v ≡ true
    → Among h (entry ∷ handlers)
    → contains h.versions v ≡ true
    → dispatch (entry ∷ handlers) (some v) ≡ some h
unfolding dispatch serves
first_serves entry _ handlers v disjoint versioned mine among_first held = ground (arith, mine)
first_serves entry h handlers v disjoint versioned mine (among_later there) held =
    let apart =
      Among-All (λ (q : VersionedHandler). versions_overlap q.versions entry.versions ≡ false) h
        handlers there disjoint.0 in
    let clash =
      shared_overlap h.versions entry.versions v
        (Among-All IsVersioned h handlers there versioned.1) versioned.0 held mine in
    absurd (ground (arith, apart, clash))

not_first :
    (entry h : VersionedHandler) (handlers : List VersionedHandler) (v : Text)
    → contains entry.versions v ≡ false
    → Among h (entry ∷ handlers)
    → contains h.versions v ≡ true
    → Among h handlers
not_first entry _ handlers v other among_first held = absurd (ground (arith, other, held))
not_first entry h handlers v other (among_later there) held = there

pub dispatch_iff :
    (handlers : List VersionedHandler) (h : VersionedHandler) (v : Text)
    → IsDisjoint handlers
    → All IsVersioned handlers
    → (dispatch handlers (some v) ≡ some h) ↔ (Among h handlers × (contains h.versions v ≡ true))
unfolding dispatch serves
dispatch_iff [] h v disjoint versioned =
    (λ e. absurd (ground (arith, e)), λ (there, held). elim there [ ])
dispatch_iff (entry ∷ handlers) h v disjoint versioned =
    let rest = dispatch_iff handlers h v disjoint.1 versioned.1 in
    elim (Bool-cases (contains entry.versions v)) [
      | inl mine ↦ (
        λ e.
            let one : entry ≡ h = ground (arith, mine, e) in
            subst
              (λ (q : VersionedHandler).
                Among q (entry ∷ handlers) × (contains q.versions v ≡ true))
              one (among_first, mine),
        λ found. first_serves entry h handlers v disjoint versioned mine found.0 found.1,
      )
      | inr other ↦ (
        λ e.
            let (there, held) = rest.0 (ground (arith, other, versioned.0, e)) in
            (among_later there, held),
        λ found.
            let passed = rest.1 (not_first entry h handlers v other found.0 found.1, found.1) in
            ground (arith, other, versioned.0, passed),
      )
    ]
