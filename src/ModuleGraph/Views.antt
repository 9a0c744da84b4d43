-- ===== src/ModuleGraph/Views.antt =====
-- The views that `_build_visibility_tables` resolves are those of an inductive description, which
-- knows neither the order of the modules nor that of their imports.
use bustan.Prelude.{
  ℕ, zero, suc, ◌≡◌, ◌↔◌, ◌⊎◌, refl, sym, ap, subst, ◌∙◌, true, false, Option, none, some, List, [],
  ◌∷◌, ◌==◌, arith, contains, Bool-cases, Option-cases, inl, inr, if◌then◌else◌, Result, ok, ◌>>=◌,
  bind-ok, ok-injective, nat_eq, list_eq, beq→eq, beq_refl,
}
use bustan.OrderedDict.{get, set, has_key}
use bustan.OrderedDict.Lookup.{get-set, has_key-eq-get}
use bustan.OrderedDict.Distinct.{has_key-set}
use bustan.ModuleGraph.Inputs.{ModuleKey, key_eq}
use bustan.ModuleGraph.Visibility.{
  TokenMap, Node, Nodes, VisibilityError, Views, offered, merge_offered, merge_import,
  merge_imports, resolve_node, resolve, resolve_all, own_tokens, export_origins,
}
use bustan.ModuleGraph.Merging.{
  get-own_tokens, get-export_origins, get-merge_import, get-merge_import_kept,
}

module _ (nodes : Nodes) where
  -- A module sees a token of its own, and one that an import exports and sees itself, unless its
  -- own hides it.
  pub data Sees (t : ℕ) : ModuleKey → ModuleKey → Type 0 where
    own :
        {k : ModuleKey} (n : Node) → get k nodes ≡ some n → contains n.tokens t ≡ true → Sees t k k
    imported :
        {k j o : ModuleKey} (n m : Node)
        → get k nodes ≡ some n
        → contains n.tokens t ≡ false
        → contains n.imported j ≡ true
        → get j nodes ≡ some m
        → contains m.exports t ≡ true
        → Sees t j o
        → Sees t k o

  -- What one of a list of imports offers of a token.
  abbrev Offers : List ModuleKey → ℕ → ModuleKey → Type 0
  Offers l t o =
      (j : ModuleKey) × (m : Node) × (contains l j ≡ true)
      × (get j nodes ≡ some m)
      × (contains m.exports t ≡ true)
      × Sees t j o

  abbrev IsRight : Views → Type 0
  IsRight views =
      (k : ModuleKey) (v : TokenMap)
      → get k views ≡ some v
      → (t : ℕ) (o : ModuleKey) → (get t v ≡ some o) ↔ Sees t k o

  record Settles (views after : Views) : Type 0 where
    right : IsRight after
    grows : (k : ModuleKey) → has_key k views ≡ true → has_key k after ≡ true

  abbrev Resolves : (ModuleKey → Views → Result VisibilityError Views) → Type 0
  Resolves resolve =
      (k : ModuleKey) (views after : Views)
      → IsRight views
      → resolve k views ≡ ok after
      → Settles views after × (has_key k after ≡ true)

  merge_offered-some :
      (key : ModuleKey) (shadowed : List ℕ) (o : Option Node) (v : Option TokenMap)
      (visible merged : TokenMap)
      → merge_offered key shadowed (offered o v) visible ≡ ok merged
      → (m : Node) × (w : TokenMap) × (o ≡ some m)
        × (v ≡ some w)
        × (merge_import key shadowed (export_origins m.exports w) visible ≡ ok merged)
  merge_offered-some key shadowed none v visible merged e = absurd (ground (arith, e))
  merge_offered-some key shadowed (some m) none visible merged e = absurd (ground (arith, e))
  merge_offered-some key shadowed (some m) (some w) visible merged e = (m, w, refl, refl, e)

  -- One import's part in a view, as `Offers` of a list of that import alone says it.
  merged-Offers :
      (key j : ModuleKey) (node m : Node) (w visible merged : TokenMap)
      → get j nodes ≡ some m
      → ((t : ℕ) (o : ModuleKey) → (get t w ≡ some o) ↔ Sees t j o)
      → merge_import key node.tokens (export_origins m.exports w) visible ≡ ok merged
      → (t : ℕ) (o : ModuleKey)
      → (get t merged ≡ some o) ↔ (
          (get t visible ≡ some o)
          ⊎ ((contains node.tokens t ≡ false) × (contains m.exports t ≡ true) × Sees t j o))
  merged-Offers key j node m w visible merged found right e t o =
      let looked =
        get-merge_import key node.tokens (export_origins m.exports w) visible merged t e in
      let origins = get-export_origins m.exports w t in
      let kept =
        get-merge_import_kept key node.tokens (export_origins m.exports w) visible merged t o e in
      let there = right t o in
      (
        λ seen. elim (Bool-cases (contains node.tokens t)) [
          | inl hidden ↦ inl (ground (arith, looked, hidden, seen))
          | inr bare ↦ elim (Bool-cases (contains m.exports t)) [
            | inl exported ↦ elim (Option-cases (get t w)) [
              | inl missing ↦ inl (ground (arith, looked, origins, bare, exported, missing, seen))
              | inr (p, sees) ↦ inr (
                bare,
                exported,
                there.0 (ground (arith, looked, origins, bare, exported, sees, seen)),
              )
            ]
            | inr inside ↦ inl (ground (arith, looked, origins, bare, inside, seen))
          ]
        ],
        λ cause. elim cause [
          | inl before ↦ kept before
          | inr (bare, exported, sees) ↦
              let held = there.1 sees in ground (arith, looked, origins, bare, exported, held)
        ],
      )

  record Merged (node : Node) (l : List ModuleKey) (visible : TokenMap) (views : Views)
      (merged : TokenMap) (after : Views) : Type 0 where
    settled : Settles views after
    sees :
        (t : ℕ) (o : ModuleKey)
        → (get t merged ≡ some o)
          ↔ ((get t visible ≡ some o) ⊎ ((contains node.tokens t ≡ false) × Offers l t o))

  merge_imports-Merged :
      (r : ModuleKey → Views → Result VisibilityError Views)
      → Resolves r
      → (key : ModuleKey) (node : Node) (l : List ModuleKey) (visible : TokenMap) (views : Views)
        (merged : TokenMap) (after : Views)
      → IsRight views
      → merge_imports nodes r key node l visible views ≡ ok (merged, after)
      → Merged node l visible views merged after
  unfolding merge_imports
  merge_imports-Merged r resolves key node [] visible views merged after right e =
      let same : (visible, views) ≡ (merged, after) = ok-injective _ _ e in
      record {
        settled =
            subst (Settles views) (ap (λ (p : TokenMap × Views). p.1) same)
              (record { right = right; grows = λ k h. h });
        sees = λ t o.
            let before : get t visible ≡ get t merged =
              ap (λ (p : TokenMap × Views). get t p.0) same in
            (
              λ h. inl (before ∙ h),
              λ cause. elim cause [
                | inl h ↦ sym before ∙ h
                | inr (bare, offer) ↦ absurd (ground (arith, offer.2))
              ],
            );
      }
  merge_imports-Merged r resolves key node (j ∷ l) visible views merged after right e =
      let (one, first, then_merge) =
        bind-ok (r j views)
          (λ (w : Views).
            merge_offered key node.tokens (offered (get j nodes) (get j w)) visible >>= λ m.
            merge_imports nodes r key node l m w)
          (merged, after) e in
      let (two, second, third) =
        bind-ok (merge_offered key node.tokens (offered (get j nodes) (get j one)) visible)
          (λ m. merge_imports nodes r key node l m one) (merged, after) then_merge in
      let (m, w, found, viewed, merging) =
        merge_offered-some key node.tokens (get j nodes) (get j one) visible two second in
      let here = resolves j views one right first in
      let later =
        merge_imports-Merged r resolves key node l two one merged after here.0.right third in
      let part = merged-Offers key j node m w visible two found (here.0.right j w viewed) merging in
      record {
        settled = record {
          right = later.settled.right;
          grows = λ k h. later.settled.grows k (here.0.grows k h);
        };
        sees = λ t o. (
          λ h. elim ((later.sees t o).0 h) [
            | inl before ↦ elim ((part t o).0 before) [
              | inl older ↦ inl older
              | inr (bare, exported, sees) ↦
                  inr (bare, (j, m, ground (arith, beq_refl j), found, exported, sees))
            ]
            | inr (bare, (i, n, listed, node_found, exported, sees)) ↦
                inr (bare, (i, n, ground (arith, listed), node_found, exported, sees))
          ],
          λ cause. elim cause [
            | inl older ↦ (later.sees t o).1 (inl ((part t o).1 (inl older)))
            | inr (bare, (i, n, listed, node_found, exported, sees)) ↦ elim (Bool-cases (j == i)) [
              | inl same ↦
                  let one_key = beq→eq same in
                  let one_node : n ≡ m = ground (arith, found, node_found, one_key) in
                  (later.sees t o).1 (
                    inl (
                      (part t o).1 (
                        inr (
                          bare,
                          subst (λ (q : Node). contains q.exports t ≡ true) one_node exported,
                          subst (λ q. Sees t q o) (sym one_key) sees,
                        ))))
              | inr other ↦
                  (later.sees t o).1
                    (inr (bare, (i, n, ground (arith, listed, other), node_found, exported, sees)))
            ]
          ],
        );
      }

  abbrev own_view : ModuleKey → Node → TokenMap
  own_view key node = own_tokens key node.tokens []

  Sees-cause :
      (key : ModuleKey) (node : Node) (t : ℕ) (o : ModuleKey)
      → get key nodes ≡ some node
      → Sees t key o
      → (get t (own_view key node) ≡ some o)
        ⊎ ((contains node.tokens t ≡ false) × Offers node.imported t o)
  unfolding get
  Sees-cause key node t o found (own n n_found there) =
      let same : n ≡ node = ground (arith, found, n_found) in
      inl (
        get-own_tokens key node.tokens [] t
        ∙ ap (λ b. if b then some key else none)
            (subst (λ (q : Node). contains q.tokens t ≡ true) same there))
  Sees-cause key node t o found (imported {j = j} n m n_found bare listed m_found exported deeper) =
      let same : n ≡ node = ground (arith, found, n_found) in
      inr (
        subst (λ (q : Node). contains q.tokens t ≡ false) same bare,
        (
          j,
          m,
          subst (λ (q : Node). contains q.imported j ≡ true) same listed,
          m_found,
          exported,
          deeper,
        ),
      )

  -- What a module has of its own and what its imports offer is what it sees.
  view-Sees :
      (key : ModuleKey) (node : Node) (t : ℕ) (o : ModuleKey)
      → get key nodes ≡ some node
      → ((get t (own_view key node) ≡ some o)
          ⊎ ((contains node.tokens t ≡ false) × Offers node.imported t o))
        ↔ Sees t key o
  unfolding get
  view-Sees key node t o found =
      let looked = get-own_tokens key node.tokens [] t in
      (
        λ cause. elim cause [
          | inl mine ↦ elim (Bool-cases (contains node.tokens t)) [
            | inl there ↦
                let same : key ≡ o = ground (arith, looked, there, mine) in
                subst (Sees t key) same (own node found there)
            | inr bare ↦ absurd (ground (arith, looked, bare, mine))
          ]
          | inr (bare, (i, n, listed, node_found, exported, sees)) ↦
              imported node n found bare listed node_found exported sees
        ],
        Sees-cause key node t o found,
      )

  stored-Settles :
      (key : ModuleKey) (node : Node) (views mid : Views) (merged : TokenMap)
      → get key nodes ≡ some node
      → Merged node node.imported (own_view key node) views merged mid
      → Settles views (set key merged mid) × (has_key key (set key merged mid) ≡ true)
  stored-Settles key node views mid merged found done = (
    record {
      right = λ k v viewed t o. elim (Bool-cases (key == k)) [
        | inl same ↦
            let one_key : key ≡ k = beq→eq same in
            let one_view : merged ≡ v = ground (arith, viewed, same, get-set key k merged mid) in
            let cause = view-Sees key node t o found in
            let seen = done.sees t o in
            (
              λ h. subst (λ q. Sees t q o) one_key (cause.0 (seen.0 (ap (get t) one_view ∙ h))),
              λ sees.
                  sym (ap (get t) one_view)
                  ∙ seen.1 (cause.1 (subst (λ q. Sees t q o) (sym one_key) sees)),
            )
        | inr other ↦
            done.settled.right k v (ground (arith, viewed, other, get-set key k merged mid)) t o
      ];
      grows = λ k h. ground (arith, has_key-set key k merged mid, done.settled.grows k h);
    },
    ground (arith, has_key-set key key merged mid, beq_refl key),
  )

  resolve_node-Settles :
      (r : ModuleKey → Views → Result VisibilityError Views)
      → Resolves r
      → (key : ModuleKey) (views after : Views) → IsRight views
      → resolve_node nodes r key (get key nodes) views ≡ ok after
      → Settles views after × (has_key key after ≡ true)
  unfolding resolve_node
  resolve_node-Settles r resolves key views after right e = elim (Option-cases (get key nodes)) [
    | inl missing ↦ absurd (ground (arith, missing, e))
    | inr (node, found) ↦ elim (Bool-cases node.exports_module) [
      | inl bad ↦ absurd (ground (arith, found, bad, e))
      | inr good ↦
          let ((merged, mid), walked, ended) =
            bind-ok
              (merge_imports nodes r key node node.imported (own_tokens key node.tokens []) views)
              (λ (p : TokenMap × Views). ok (set key p.0 p.1)) after
              (ground (arith, found, good, e)) in
          let done =
            merge_imports-Merged r resolves key node node.imported (own_tokens key node.tokens [])
              views merged mid right walked in
          let stored : set key merged mid ≡ after = ok-injective _ _ ended in
          subst (λ (q : Views). Settles views q × (has_key key q ≡ true)) stored
            (stored-Settles key node views mid merged found done)
    ]
  ]

  resolve-Resolves : (fuel : ℕ) → Resolves (resolve nodes fuel)
  unfolding resolve
  resolve-Resolves zero key views after right e = absurd (ground (arith, e))
  resolve-Resolves (suc fuel) key views after right e = elim (Bool-cases (has_key key views)) [
    | inl known ↦
        let same : views ≡ after = ground (arith, known, e) in
        subst (λ (q : Views). Settles views q × (has_key key q ≡ true)) same
          (record { right = right; grows = λ k h. h }, known)
    | inr new ↦
        resolve_node-Settles (resolve nodes fuel) (resolve-Resolves fuel) key views after right
          (ground (arith, new, e))
  ]

  resolve_all-Settles :
      (fuel : ℕ) (rest : Nodes) (views after : Views)
      → IsRight views
      → resolve_all nodes fuel rest views ≡ ok after
      → Settles views after × ((k : ModuleKey) → has_key k rest ≡ true → has_key k after ≡ true)
  unfolding resolve_all has_key
  resolve_all-Settles fuel [] views after right e =
      let same : views ≡ after = ok-injective _ _ e in
      (
        subst (Settles views) same (record { right = right; grows = λ k h. h }),
        λ k h. absurd (ground (arith, h)),
      )
  resolve_all-Settles fuel ((key, node) ∷ rest) views after right e =
      let (mid, first, second) =
        bind-ok (resolve nodes fuel key views) (λ (w : Views). resolve_all nodes fuel rest w) after
          e in
      let one = resolve-Resolves fuel key views mid right first in
      let more = resolve_all-Settles fuel rest mid after one.0.right second in
      (
        record { right = more.0.right; grows = λ k h. more.0.grows k (one.0.grows k h) },
        λ k h. elim (Bool-cases (key == k)) [
          | inl same ↦ subst (λ q. has_key q after ≡ true) (beq→eq same) (more.0.grows key one.1)
          | inr other ↦ more.1 k (ground (arith, h, other))
        ],
      )

  -- When the views of all modules are resolved, every module has one, and a token is seen in it, from
  -- the module that declares it, exactly if the module sees it so: as its own, or by an import that
  -- exports and sees it, where no token of its own hides it.
  pub resolve_all-Sees :
      (fuel : ℕ) (views : Views)
      → resolve_all nodes fuel nodes [] ≡ ok views
      → (k : ModuleKey) → has_key k nodes ≡ true
      → (v : TokenMap) × (get k views ≡ some v)
        × ((t : ℕ) (o : ModuleKey) → (get t v ≡ some o) ↔ Sees t k o)
  unfolding get
  resolve_all-Sees fuel views e k known =
      let done = resolve_all-Settles fuel nodes [] views (λ j v h. absurd (ground (arith, h))) e in
      elim (Option-cases (get k views)) [
        | inl missing ↦ absurd (ground (arith, done.1 k known, has_key-eq-get k views missing))
        | inr (v, found) ↦ (v, found, done.0.right k v found)
      ]
