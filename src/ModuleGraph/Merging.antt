-- ===== src/ModuleGraph/Merging.antt =====
-- What a module sees of a token after each step that writes its view.
use bustan.Prelude.{
  ℕ, ◌≡◌, refl, false, none, some, List, [], ◌∷◌, arith, contains, Bool-cases, Option-cases, inl,
  inr, if◌then◌else◌, ok, nat_eq, list_eq,
}
use bustan.OrderedDict.{get, set}
use bustan.OrderedDict.Lookup.{get-set, or_else, has_key-eq-get}
use bustan.OrderedDict.Distinct.{has_key_of_get}
use bustan.ModuleGraph.Inputs.{ModuleKey, key_eq}
use bustan.ModuleGraph.Visibility.{
  TokenMap, own_tokens, export_origins, conflicts, merge_import, merge_global, with_global_fallback,
}

pub get-own_tokens :
    (key : ModuleKey) (tokens : List ℕ) (visible : TokenMap) (t : ℕ)
    → get t (own_tokens key tokens visible)
      ≡ (if contains tokens t then some key else get t visible)
unfolding own_tokens
get-own_tokens key [] visible t = refl
get-own_tokens key (s ∷ tokens) visible t =
    ground (arith, get-own_tokens key tokens (set s key visible) t, get-set s t key visible)

pub get-export_origins :
    (exports : List ℕ) (visible : TokenMap) (t : ℕ)
    → get t (export_origins exports visible) ≡ (if contains exports t then get t visible else none)
unfolding export_origins get
get-export_origins [] visible t = refl
get-export_origins (s ∷ exports) visible t = elim (Option-cases (get s visible)) [
  | inl missing ↦ ground (arith, missing, nat_eq.beq_iff s t, get-export_origins exports visible t)
  | inr (origin, found) ↦
      ground (arith, found, nat_eq.beq_iff s t, get-export_origins exports visible t)
]

conflicts-none :
    (origin previous : ModuleKey) → conflicts origin (some previous) ≡ false → previous ≡ origin
conflicts-none origin previous h = ground (arith, key_eq.beq_iff previous origin)

-- What was seen stays seen, from the module it was seen from.
pub get-merge_import_kept :
    (owner : ModuleKey) (shadowed : List ℕ) (origins visible merged : TokenMap) (t : ℕ)
    (o : ModuleKey)
    → merge_import owner shadowed origins visible ≡ ok merged
    → get t visible ≡ some o
    → get t merged ≡ some o
unfolding merge_import
get-merge_import_kept owner shadowed [] visible merged t o e seen = ground (arith, e, seen)
get-merge_import_kept owner shadowed ((s, origin) ∷ origins) visible merged t o e seen =
    elim (Bool-cases (contains shadowed s)) [
      | inl hidden ↦
          get-merge_import_kept owner shadowed origins visible merged t o
            (ground (arith, hidden, e)) seen
      | inr bare ↦ elim (Bool-cases (conflicts origin (get s visible))) [
        | inl clash ↦ absurd (ground (arith, bare, clash, e))
        | inr agree ↦
            get-merge_import_kept owner shadowed origins (set s origin visible) merged t o
              (ground (arith, bare, agree, e))
              (ground (
                arith,
                get-set s t origin visible,
                nat_eq.beq_iff s t,
                conflicts-none origin o,
                seen,
                agree,
              ))
      ]
    ]

pub get-merge_import :
    (owner : ModuleKey) (shadowed : List ℕ) (origins visible merged : TokenMap) (t : ℕ)
    → merge_import owner shadowed origins visible ≡ ok merged
    → get t merged
      ≡ (if contains shadowed t then get t visible else or_else (get t origins) (get t visible))
unfolding merge_import get
get-merge_import owner shadowed [] visible merged t e = ground (arith, e)
get-merge_import owner shadowed ((s, origin) ∷ origins) visible merged t e =
    elim (Bool-cases (contains shadowed s)) [
      | inl hidden ↦
          let rest =
            get-merge_import owner shadowed origins visible merged t (ground (arith, hidden, e)) in
          ground (arith, rest, hidden, nat_eq.beq_iff s t)
      | inr bare ↦ elim (Bool-cases (conflicts origin (get s visible))) [
        | inl clash ↦ absurd (ground (arith, bare, clash, e))
        | inr agree ↦
            let went : merge_import owner shadowed origins (set s origin visible) ≡ ok merged =
              ground (arith, bare, agree, e) in
            let rest =
              get-merge_import owner shadowed origins (set s origin visible) merged t went in
            let kept =
              get-merge_import_kept owner shadowed origins (set s origin visible) merged t origin
                went in
            ground (arith, rest, kept, bare, nat_eq.beq_iff s t, get-set s t origin visible)
      ]
    ]

-- The exports of a global module are merged as those of an import that nothing hides.
pub merge_global-merge_import :
    (key : ModuleKey) (origins visible merged : TokenMap)
    → merge_global key origins visible ≡ ok merged
    → merge_import key [] origins visible ≡ ok merged
unfolding merge_global merge_import
merge_global-merge_import key [] visible merged e = ground (arith, e)
merge_global-merge_import key ((s, origin) ∷ origins) visible merged e =
    ground (arith, e, merge_global-merge_import key origins (set s origin visible) merged)

pub get-with_global_fallback :
    (visible global : TokenMap) (t : ℕ)
    → get t (with_global_fallback visible global) ≡ or_else (get t visible) (get t global)
unfolding with_global_fallback get
get-with_global_fallback visible [] t = ground arith
get-with_global_fallback visible ((s, origin) ∷ global) t = elim (Option-cases (get s visible)) [
  | inl missing ↦
      let absent = has_key-eq-get s visible missing in
      let rest = get-with_global_fallback (set s origin visible) global t in
      ground (arith, missing, absent, rest, get-set s t origin visible, nat_eq.beq_iff s t)
  | inr (o, found) ↦
      let rest = get-with_global_fallback visible global t in
      let present = has_key_of_get s o visible found in
      ground (arith, found, present, rest, nat_eq.beq_iff s t)
]
