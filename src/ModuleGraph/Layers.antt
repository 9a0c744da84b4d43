-- ===== src/ModuleGraph/Layers.antt =====
-- The table `visible` of `_build_visibility_tables`: a module's own view first, and the exports of
-- the global modules where that has nothing.
use bustan.Prelude.{
  ℕ, ◌≡◌, ◌↔◌, ◌⊎◌, sym, ap, subst, ◌∙◌, true, Option, none, some, [], ◌∷◌, ◌==◌, arith, contains,
  Bool-cases, Option-cases, inl, inr, ok, ◌>>=◌, bind-ok, ok-injective, nat_eq, list_eq, beq→eq,
}
use bustan.OrderedDict.{get, has_key}
use bustan.ModuleGraph.Inputs.{ModuleKey, key_eq}
use bustan.ModuleGraph.Visibility.{
  TokenMap, Node, Nodes, Views, merge_global, build_global_visibility, with_global_fallback,
  with_fallbacks, or_missing, build_visibility_tables, export_origins, resolve_all,
}
use bustan.ModuleGraph.Merging.{
  get-export_origins, get-merge_import, get-merge_import_kept, merge_global-merge_import,
  get-with_global_fallback,
}
use bustan.ModuleGraph.Views.{Sees, resolve_all-Sees}

-- Some global module of the list exports the token, and its view has it from there.
abbrev pub IsGlobal : Views → ℕ → ModuleKey → Nodes → Type 0
IsGlobal views t o [] = ⊥
IsGlobal views t o ((k, n) ∷ rest) =
    ((n.is_global ≡ true)
      × (contains n.exports t ≡ true)
      × (v : TokenMap) × (get k views ≡ some v)
      × (get t v ≡ some o))
    ⊎ IsGlobal views t o rest

merge_global-exports :
    (key : ModuleKey) (node : Node) (v visibility merged : TokenMap) (t : ℕ) (o : ModuleKey)
    → merge_global key (export_origins node.exports v) visibility ≡ ok merged
    → (get t merged ≡ some o)
      ↔ ((get t visibility ≡ some o) ⊎ ((contains node.exports t ≡ true) × (get t v ≡ some o)))
unfolding get
merge_global-exports key node v visibility merged t o e =
    let went = merge_global-merge_import key (export_origins node.exports v) visibility merged e in
    let looked = get-merge_import key [] (export_origins node.exports v) visibility merged t went in
    let origins = get-export_origins node.exports v t in
    let kept =
      get-merge_import_kept key [] (export_origins node.exports v) visibility merged t o went in
    (
      λ seen. elim (Bool-cases (contains node.exports t)) [
        | inl exported ↦ elim (Option-cases (get t v)) [
          | inl missing ↦ inl (ground (arith, looked, origins, exported, missing, seen))
          | inr (p, found) ↦ inr (exported, ground (arith, looked, origins, exported, found, seen))
        ]
        | inr inside ↦ inl (ground (arith, looked, origins, inside, seen))
      ],
      λ cause. elim cause [
        | inl before ↦ kept before
        | inr (exported, found) ↦ ground (arith, looked, origins, exported, found)
      ],
    )

build_global_visibility-IsGlobal :
    (nodes : Nodes) (views : Views) (visibility global : TokenMap) (t : ℕ) (o : ModuleKey)
    → build_global_visibility nodes views visibility ≡ ok global
    → (get t global ≡ some o) ↔ ((get t visibility ≡ some o) ⊎ IsGlobal views t o nodes)
unfolding build_global_visibility
build_global_visibility-IsGlobal [] views visibility global t o e =
    let same : get t visibility ≡ get t global = ap (get t) (ok-injective _ _ e) in
    (λ h. inl (same ∙ h), λ cause. elim cause [ inl h ↦ sym same ∙ h | inr never ↦ absurd never ])
build_global_visibility-IsGlobal ((key, node) ∷ rest) views visibility global t o e =
    elim (Bool-cases node.is_global) [
      | inr local ↦
          let later =
            build_global_visibility-IsGlobal rest views visibility global t o
              (ground (arith, local, e)) in
          (
            λ h. elim (later.0 h) [ inl before ↦ inl before | inr more ↦ inr (inr more) ],
            λ cause. later.1 (elim cause [
              | inl before ↦ inl before
              | inr (inl this) ↦ absurd (ground (arith, local, this.0))
              | inr (inr more) ↦ inr more
            ]),
          )
      | inl entered ↦ elim (Option-cases (get key views)) [
        | inl missing ↦ absurd (ground (arith, entered, missing, e))
        | inr (v, found) ↦
            let (merged, first, second) =
              bind-ok (merge_global key (export_origins node.exports v) visibility)
                (λ m. build_global_visibility rest views m) global
                (ground (arith, entered, found, e)) in
            let later = build_global_visibility-IsGlobal rest views merged global t o second in
            let part = merge_global-exports key node v visibility merged t o first in
            (
              λ h. elim (later.0 h) [
                | inl before ↦ elim (part.0 before) [
                  | inl older ↦ inl older
                  | inr (exported, sees) ↦ inr (inl (entered, exported, v, found, sees))
                ]
                | inr more ↦ inr (inr more)
              ],
              λ cause. elim cause [
                | inl older ↦ later.1 (inl (part.1 (inl older)))
                | inr (inl (marked, exported, w, w_found, sees)) ↦
                    let same : w ≡ v = ground (arith, found, w_found) in
                    later.1 (
                      inl (
                        part.1
                          (inr (exported, subst (λ (q : TokenMap). get t q ≡ some o) same sees))))
                | inr (inr more) ↦ later.1 (inr more)
              ],
            )
      ]
    ]

get-with_fallbacks :
    (nodes : Nodes) (base : Views) (global : TokenMap) (visible : Views) (k : ModuleKey)
    (v : TokenMap)
    → with_fallbacks nodes base global ≡ some visible
    → has_key k nodes ≡ true
    → get k base ≡ some v
    → get k visible ≡ some (with_global_fallback v global)
unfolding with_fallbacks get has_key
get-with_fallbacks [] base global visible k v e known found = absurd (ground (arith, known))
get-with_fallbacks ((key, node) ∷ rest) base global visible k v e known found =
    elim (Option-cases (get key base)) [
      | inl missing ↦ absurd (ground (arith, missing, e))
      | inr (view, viewed) ↦ elim (Option-cases (with_fallbacks rest base global)) [
        | inl missing ↦ absurd (ground (arith, viewed, missing, e))
        | inr (others, deeper) ↦
            let stored : (key, with_global_fallback view global) ∷ others ≡ visible =
              ground (arith, viewed, deeper, e) in
            subst (λ (q : Views). get k q ≡ some (with_global_fallback v global)) stored
              (elim (Bool-cases (key == k)) [
                | inl same ↦
                    let one_key : key ≡ k = beq→eq same in
                    let one : view ≡ v = ground (arith, viewed, found, one_key) in
                    ground (arith, same, one)
                | inr other ↦ ground (
                  arith,
                  other,
                  get-with_fallbacks rest base global others k v deeper
                      (ground (arith, known, other)) found,
                )
              ])
      ]
    ]

or_missing-some :
    (o : Option Views) (visible : Views) → or_missing o ≡ ok visible → o ≡ some visible
or_missing-some none visible e = absurd (ground (arith, e))
or_missing-some (some w) visible e = ground (arith, e)

final_view :
    (fuel : ℕ) (nodes : Nodes) (visible base : Views) (global : TokenMap)
    → resolve_all nodes fuel nodes [] ≡ ok base
    → build_global_visibility nodes base [] ≡ ok global
    → with_fallbacks nodes base global ≡ some visible
    → (k : ModuleKey) → has_key k nodes ≡ true
    → (v : TokenMap) × (get k visible ≡ some v)
      × ((t : ℕ) (o : ModuleKey)
          → (get t v ≡ some o) ↔ (
              Sees nodes t k o
              ⊎ (((p : ModuleKey) → ¬ Sees nodes t k p) × IsGlobal base t o nodes)))
unfolding get
final_view fuel nodes visible base global first second third k known =
    let (own, own_found, sees) = resolve_all-Sees nodes fuel base first k known in
    (
      with_global_fallback own global,
      get-with_fallbacks nodes base global visible k own third known own_found,
      λ t o.
          let looked = get-with_global_fallback own global t in
          let layer = build_global_visibility-IsGlobal nodes base [] global t o second in
          (
            λ h. elim (Option-cases (get t own)) [
              | inl missing ↦
                  let found : get t global ≡ some o = ground (arith, looked, missing, h) in
                  inr (
                    λ p seen. ground (arith, missing, (sees t p).1 seen),
                    elim (layer.0 found) [
                      | inl never ↦ absurd (ground (arith, never))
                      | inr there ↦ there
                    ],
                  )
              | inr (p, found) ↦ inl ((sees t o).0 (ground (arith, looked, found, h)))
            ],
            λ cause. elim cause [
              | inl seen ↦ ground (arith, looked, (sees t o).1 seen)
              | inr (hidden, there) ↦
                  let found = layer.1 (inr there) in
                  elim (Option-cases (get t own)) [
                    | inl missing ↦ ground (arith, looked, missing, found)
                    | inr (p, owned) ↦ absurd (hidden p ((sees t p).0 owned))
                  ]
            ],
          ),
    )

-- Where the tables are built, every module has one, in which a token is seen from the module that
-- declares it exactly if the module's own view has it so, by the inductive description, or that
-- view has nothing for it and a global module exports it from there.
pub build_visibility_tables-Sees :
    (fuel : ℕ) (nodes : Nodes) (visible : Views)
    → build_visibility_tables fuel nodes ≡ ok visible
    → (base : Views) × (resolve_all nodes fuel nodes [] ≡ ok base)
      × ((k : ModuleKey)
          → has_key k nodes ≡ true
          → (v : TokenMap) × (get k visible ≡ some v)
            × ((t : ℕ) (o : ModuleKey)
                → (get t v ≡ some o) ↔ (
                    Sees nodes t k o
                    ⊎ (((p : ModuleKey) → ¬ Sees nodes t k p) × IsGlobal base t o nodes))))
unfolding build_visibility_tables get
build_visibility_tables-Sees fuel nodes visible e =
    let (base, first, then_global) =
      bind-ok (resolve_all nodes fuel nodes [])
        (λ (b : Views).
          build_global_visibility nodes b [] >>= λ g. or_missing (with_fallbacks nodes b g))
        visible e in
    let (global, second, third) =
      bind-ok (build_global_visibility nodes base [])
        (λ g. or_missing (with_fallbacks nodes base g)) visible then_global in
    (
      base,
      first,
      final_view fuel nodes visible base global first second (or_missing-some _ visible third),
    )
