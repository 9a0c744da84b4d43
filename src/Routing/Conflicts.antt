-- ===== src/Routing/Conflicts.antt =====
-- `validate` accepts exactly the contracts of which no two conflict: its table of exact keys finds
-- nothing that the comparison of patterns would not.
use bustan.Prelude.{
  ◌≡◌, ◌↔◌, ◌∙◌, subst, among_first, refl, sym, ap, true, false, some, List, [], ◌∷◌, ◌++◌, ◌==◌,
  list_eq, nat_eq, pair_eq, Text, All, All-append, All-prefix, All-suffix, Among, Among-All,
  Among-append_left, Among-append_right, Result-cases, Bool-cases, Option-cases, inl, inr, beq_refl,
  beq→eq, ok, arith,
}
use bustan.OrderedDict.{OrderedDict, get, set}
use bustan.OrderedDict.Lookup.{get-set}
use bustan.Routing.Versioning.{is_neutral_version}
use bustan.Routing.Contracts.{RouteContract, versions_overlap, route_dimensions_overlap}
use bustan.Routing.Registry.{
  ExactKey, exact_key, conflict, check_patterns, validate_from, validate, canonical_path_pattern,
}

-- No contract conflicts with one that stands after it.
abbrev pub IsConflictFree : List RouteContract → Type 0
IsConflictFree [] = Unit
IsConflictFree (contract ∷ contracts) =
    All (λ later. conflict contract later ≡ false) contracts × IsConflictFree contracts

versions_overlap_self : (versions : List Text) → versions_overlap versions versions ≡ true
unfolding versions_overlap is_neutral_version
versions_overlap_self [] = refl
versions_overlap_self (v ∷ versions) = ground (arith, beq_refl v)

conflict-exact_key :
    (previous contract : RouteContract)
    → exact_key previous ≡ exact_key contract
    → conflict previous contract ≡ true
unfolding conflict route_dimensions_overlap
conflict-exact_key previous contract same =
    let method : previous.method ≡ contract.method = ap (λ (k : ExactKey). k.0.0) same in
    let path : previous.path ≡ contract.path = ap (λ (k : ExactKey). k.0.1) same in
    let versions : previous.versions ≡ contract.versions = ap (λ (k : ExactKey). k.1.0) same in
    let hosts : previous.hosts ≡ contract.hosts = ap (λ (k : ExactKey). k.1.1) same in
    rw
      (
        method,
        path,
        versions,
        hosts,
        beq_refl contract.method,
        beq_refl contract.hosts,
        versions_overlap_self contract.versions,
        beq_refl (canonical_path_pattern contract.path),
      )
      refl

check_patterns_iff :
    (seen : List RouteContract) (contract : RouteContract)
    → (check_patterns seen contract ≡ ok tt) ↔ All (λ p. conflict p contract ≡ false) seen
unfolding check_patterns
check_patterns_iff [] contract = (λ e. tt, λ all. refl)
check_patterns_iff (previous ∷ seen) contract =
    let rest = check_patterns_iff seen contract in
    elim (Bool-cases (conflict previous contract)) [
      | inl bad ↦ (λ e. ground (arith, bad, e), λ all. ground (arith, bad, all.0))
      | inr good ↦
          (λ e. (good, rest.0 (ground (arith, good, e))), λ all. ground (arith, good, rest.1 all.1))
    ]

-- What the table holds is among what was seen.
abbrev IsSeen : List RouteContract → OrderedDict ExactKey RouteContract → Type 0
IsSeen seen exact =
    (k : ExactKey) (p : RouteContract) → get k exact ≡ some p → (exact_key p ≡ k) × Among p seen

IsSeen-set :
    (seen : List RouteContract) (exact : OrderedDict ExactKey RouteContract)
    (contract : RouteContract)
    → IsSeen seen exact
    → IsSeen (seen ++ contract ∷ []) (set (exact_key contract) contract exact)
IsSeen-set seen exact contract held k p found =
    let looked = get-set (exact_key contract) k contract exact in
    elim (Bool-cases (exact_key contract == k)) [
      | inl same ↦
          let one_key : exact_key contract ≡ k = beq→eq same in
          let one : contract ≡ p = ground (arith, looked, same, found) in
          (
            ap exact_key (sym one) ∙ one_key,
            subst (λ q. Among q (seen ++ contract ∷ [])) one
                (Among-append_right contract seen (contract ∷ []) among_first),
          )
      | inr other ↦
          let (own, there) = held k p (ground (arith, looked, other, found)) in
          (own, Among-append_left p seen (contract ∷ []) there)
    ]

-- A contract that conflicts with none of a list.
abbrev IsClear : List RouteContract → RouteContract → Type 0
IsClear seen contract = All (λ p. conflict p contract ≡ false) seen

IsClear-snoc_iff :
    (seen contracts : List RouteContract) (contract : RouteContract)
    → All (IsClear (seen ++ contract ∷ [])) contracts
      ↔ (All (IsClear seen) contracts × All (λ later. conflict contract later ≡ false) contracts)
IsClear-snoc_iff seen [] contract = (λ all. (tt, tt), λ both. tt)
IsClear-snoc_iff seen (c ∷ contracts) contract =
    let rest = IsClear-snoc_iff seen contracts contract in
    let P : RouteContract → Type 0 = λ p. conflict p c ≡ false in
    (
      λ all.
          let more = rest.0 all.1 in
          (
            (All-prefix P seen (contract ∷ []) all.0, more.0),
            ((All-suffix P seen (contract ∷ []) all.0).0, more.1),
          ),
      λ both.
          (All-append P seen (contract ∷ []) both.0.0 (both.1.0, tt), rest.1 (both.0.1, both.1.1)),
    )

All-nil : (contracts : List RouteContract) → All (IsClear []) contracts
All-nil [] = tt
All-nil (c ∷ contracts) = (tt, All-nil contracts)

validate_from_iff :
    (exact : OrderedDict ExactKey RouteContract) (seen contracts : List RouteContract)
    → IsSeen seen exact
    → (validate_from exact seen contracts ≡ ok tt)
      ↔ (All (IsClear seen) contracts × IsConflictFree contracts)
unfolding validate_from
validate_from_iff exact seen [] held = (λ e. (tt, tt), λ all. refl)
validate_from_iff exact seen (contract ∷ contracts) held =
    let key = exact_key contract in
    let rest =
      validate_from_iff (set key contract exact) (seen ++ contract ∷ []) contracts
        (IsSeen-set seen exact contract held) in
    let clear = check_patterns_iff seen contract in
    let split = IsClear-snoc_iff seen contracts contract in
    elim (Option-cases (get key exact)) [
      | inr (previous, found) ↦
          let (same, there) = held key previous found in
          (
            λ e. absurd (ground (arith, found, e)),
            λ all.
                let fine : conflict previous contract ≡ false =
                  Among-All (λ p. conflict p contract ≡ false) previous seen there all.0.0 in
                absurd (ground (arith, fine, conflict-exact_key previous contract same)),
          )
      | inl missing ↦ elim (Result-cases (check_patterns seen contract)) [
        | inr (e', failed) ↦ (
          λ e. absurd (ground (arith, missing, failed, e)),
          λ all. absurd (ground (arith, failed, clear.1 all.0.0)),
        )
        | inl (u, passed) ↦ (
          λ e.
              let later = rest.0 (ground (arith, missing, passed, e)) in
              let more = split.0 later.0 in ((clear.0 passed, more.0), (more.1, later.1)),
          λ all.
              let later = rest.1 (split.1 (all.0.1, all.1.0), all.1.1) in
              ground (arith, missing, passed, later),
        )
      ]
    ]

-- Validation succeeds exactly if no two contracts conflict: of one method, one tuple of hosts and
-- overlapping versions, on paths of one canonical pattern.
pub validate_iff :
    (contracts : List RouteContract) → (validate contracts ≡ ok tt) ↔ IsConflictFree contracts
unfolding validate get
validate_iff contracts =
    let both = validate_from_iff [] [] contracts (λ k p found. absurd (ground (arith, found))) in
    (λ e. (both.0 e).1, λ free. both.1 (All-nil contracts, free))
