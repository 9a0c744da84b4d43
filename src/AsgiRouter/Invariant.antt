-- ===== src/AsgiRouter/Invariant.antt =====
-- What the table of static paths keeps true as routes are registered.
use mathlib.Core.List.{append-nil, append_assoc}
use mathlib.Core.Bool.{true≢false}
use mathlib.Core.Option.{some-injective, none-ne-some}
use bustan.Prelude.{
  true, false, ◌||◌, none, some, List, [], ◌∷◌, ◌++◌, ◌==◌, nat_eq, list_eq, Text, ◌≡◌, refl, ◌∙◌,
  ap, arith, contains, Option-cases, Bool-cases, inl, inr, subst, sym, keep, keep-append, All,
  All-append, beq→eq, ne→beq,
}
use bustan.OrderedDict.{OrderedDict, get, set}
use bustan.OrderedDict.Lookup.{get-set}
use bustan.AsgiRouter.Table.{AsgiRoute, matches, is_static, shadowed_by, routes_or_none}
use bustan.AsgiRouter.Static.{IsBuilt, match-static_ne, match-static_self}

-- The routes that answer a path, in registration order.
abbrev pub answering : Text → List AsgiRoute → List AsgiRoute
answering path = keep (λ route. matches route path)

-- A route that the table holds for `path`.
abbrev pub IsEntry : Text → AsgiRoute → Type 0
IsEntry path route = IsBuilt route × (route.path ≡ path)

-- A path in the table: the routes listed for it are the start of what registration order finds, and
-- all of it unless the path is shadowed.
pub record Listed (routes : List AsgiRoute) (shadowed : List Text) (path : Text)
    (entries : List AsgiRoute) : Type 0 where
  pub static_path : is_static path ≡ true
  pub own : All (IsEntry path) entries
  pub rest : List AsgiRoute
  pub split : answering path routes ≡ entries ++ rest
  pub complete : contains shadowed path ≡ false → rest ≡ []

pub record IsTrue (routes : List AsgiRoute) (static : OrderedDict Text (List AsgiRoute))
    (shadowed : List Text) (patterned : List AsgiRoute) : Type 0 where
  pub listed :
      (path : Text) (entries : List AsgiRoute)
      → get path static ≡ some entries
      → Listed routes shadowed path entries
  pub absent :
      (path : Text)
      → is_static path ≡ true
      → contains shadowed path ≡ false
      → get path static ≡ none
      → answering path routes ≡ answering path patterned

pub contains-append :
    (xs ys : List Text) (a : Text) → contains (xs ++ ys) a ≡ (contains xs a || contains ys a)
contains-append [] ys a = refl
contains-append (x ∷ xs) ys a = ground (arith, contains-append xs ys a)

pub not-contains-append :
    (xs ys : List Text) (a : Text)
    → contains (xs ++ ys) a ≡ false
    → (contains xs a ≡ false) × (contains ys a ≡ false)
not-contains-append xs ys a h = ground (arith, contains-append xs ys a)

-- A key that is not newly shadowed is not answered by the new route.
not-shadowed_by :
    (route : AsgiRoute) (d : OrderedDict Text (List AsgiRoute)) (path : Text)
    (entries : List AsgiRoute)
    → get path d ≡ some entries
    → contains (shadowed_by route d) path ≡ false
    → matches route path ≡ false
unfolding get
not-shadowed_by route [] path entries h out = cc
not-shadowed_by route ((key, found) ∷ d) path entries h out = elim (Bool-cases (key == path)) [
  | inl same ↦ elim (Bool-cases (matches route key)) [
    | inl answers ↦ absurd (true≢false (rw (answers, same) at out))
    | inr silent ↦ subst (λ k. matches route k ≡ false) (beq→eq same) silent
  ]
  | inr other ↦
      not-shadowed_by route d path entries (rw other at h) (elim (Bool-cases (matches route key)) [
        | inl answers ↦ rw (answers, other) at out
        | inr silent ↦ rw silent at out
      ])
]

module _ (routes patterned : List AsgiRoute) (static : OrderedDict Text (List AsgiRoute))
    (shadowed : List Text) (route : AsgiRoute) (h : IsTrue routes static shadowed patterned) where
  -- Registering a route that is matched by its pattern.
  pub patterned-IsTrue :
      IsTrue
        (routes ++ route ∷ [])
        static
        (shadowed ++ shadowed_by route static)
        (patterned ++ route ∷ [])
  patterned-IsTrue = record {
    listed = λ path entries found.
        let old = h.listed path entries found in
        let more = answering path (route ∷ []) in
        record {
          static_path = old.static_path;
          own = old.own;
          rest = old.rest ++ more;
          split =
              keep-append (λ r. matches r path) routes (route ∷ [])
              ∙ ap (λ (l : List AsgiRoute). l ++ more) old.split
              ∙ append_assoc entries old.rest more;
          complete = λ out.
              let (was, new) = not-contains-append shadowed (shadowed_by route static) path out in
              rw (old.complete was, not-shadowed_by route static path entries found new);
        };
    absent = λ path st out missing.
        let (was, new) = not-contains-append shadowed (shadowed_by route static) path out in
        keep-append (λ r. matches r path) routes (route ∷ [])
        ∙ ap (λ (l : List AsgiRoute). l ++ answering path (route ∷ []))
            (h.absent path st was missing)
        ∙ sym (keep-append (λ r. matches r path) patterned (route ∷ []));
  }

  module _ (built : IsBuilt route) (st : is_static route.path ≡ true) where
    -- A static route answers no static path but its own.
    other_path :
        (path : Text)
        → is_static path ≡ true
        → (route.path == path) ≡ false
        → answering path (route ∷ []) ≡ []
    other_path path st' other = ground (arith, match-static_ne route path built st st' other)

    own_path : answering route.path (route ∷ []) ≡ route ∷ []
    own_path = ground (arith, match-static_self route built st)

    grown :
        (path : Text)
        → is_static path ≡ true
        → (route.path == path) ≡ false
        → answering path (routes ++ route ∷ []) ≡ answering path routes
    grown path st' other =
        keep-append (λ r. matches r path) routes (route ∷ [])
        ∙ rw (other_path path st' other) (append-nil (answering path routes))

    -- Registering a static route whose path is shadowed, now or by this route itself.
    pub shadowed-IsTrue :
        (after : List Text)
        → contains after route.path ≡ true
        → ((path : Text) → contains after path ≡ false → contains shadowed path ≡ false)
        → IsTrue (routes ++ route ∷ []) static after patterned
    shadowed-IsTrue after shut sub = record {
      listed = λ path entries found.
          let old = h.listed path entries found in
          let more = answering path (route ∷ []) in
          record {
            static_path = old.static_path;
            own = old.own;
            rest = old.rest ++ more;
            split =
                keep-append (λ r. matches r path) routes (route ∷ [])
                ∙ ap (λ (l : List AsgiRoute). l ++ more) old.split
                ∙ append_assoc entries old.rest more;
            complete = λ out. rw (
              old.complete (sub path out),
              other_path path old.static_path (not_own after shut path out),
            );
          };
      absent = λ path st' out missing.
          grown path st' (not_own after shut path out) ∙ h.absent path st' (sub path out) missing;
    }
      where
        not_own :
            (after : List Text)
            → contains after route.path ≡ true
            → (path : Text) → contains after path ≡ false
            → (route.path == path) ≡ false
        not_own after shut path out =
            ne→beq (λ e. true≢false (sym shut ∙ ap (contains after) e ∙ out))

    -- Registering a static route whose path is not shadowed: it goes to the end of its entries.
    pub entered-IsTrue :
        contains shadowed route.path ≡ false
        → (get route.path static ≡ none → answering route.path patterned ≡ [])
        → IsTrue
            (routes ++ route ∷ [])
            (set route.path (routes_or_none (get route.path static) ++ route ∷ []) static)
            shadowed
            patterned
    entered-IsTrue clear alone = record {
      listed = λ path entries found. elim (Bool-cases (route.path == path)) [
        | inl same ↦
            subst (Listed (routes ++ route ∷ []) shadowed path)
              (some-injective now entries (sym (get_own path same) ∙ found))
              (subst (λ p. Listed (routes ++ route ∷ []) shadowed p now) (beq→eq same) own_entries)
        | inr other ↦ other_entries path entries other (sym (get_other path other) ∙ found)
      ];
      absent = λ path st' out missing. elim (Bool-cases (route.path == path)) [
        | inl same ↦ absurd (none-ne-some now (sym missing ∙ get_own path same))
        | inr other ↦
            grown path st' other ∙ h.absent path st' out (sym (get_other path other) ∙ missing)
      ];
    }
      where
        now : List AsgiRoute
        now = routes_or_none (get route.path static) ++ route ∷ []

        get_own :
            (path : Text)
            → (route.path == path) ≡ true
            → get path (set route.path now static) ≡ some now
        get_own path same = rw (get-set, same)

        get_other :
            (path : Text)
            → (route.path == path) ≡ false
            → get path (set route.path now static) ≡ get path static
        get_other path other = rw (get-set, other)

        -- The entries of the route's own path were all that registration order finds for it.
        old_entries :
            (answering route.path routes ≡ routes_or_none (get route.path static))
            × All (IsEntry route.path) (routes_or_none (get route.path static))
        old_entries = elim (Option-cases (get route.path static)) [
          | inl missing ↦ rw missing (h.absent route.path st clear missing ∙ alone missing, tt)
          | inr (entries, found) ↦
              let old = h.listed route.path entries found in
              rw found (old.split ∙ rw (old.complete clear) (append-nil entries), old.own)
        ]

        own_entries : Listed (routes ++ route ∷ []) shadowed route.path now
        own_entries = record {
          static_path = st;
          own = All-append (IsEntry route.path) _ (route ∷ []) old_entries.1 ((built, refl), tt);
          rest = [];
          split =
              keep-append (λ r. matches r route.path) routes (route ∷ [])
              ∙ rw (own_path, old_entries.0) (sym (append-nil now));
          complete = λ _. refl;
        }

        other_entries :
            (path : Text) (entries : List AsgiRoute)
            → (route.path == path) ≡ false
            → get path static ≡ some entries
            → Listed (routes ++ route ∷ []) shadowed path entries
        other_entries path entries other found =
            let old = h.listed path entries found in
            record {
              static_path = old.static_path;
              own = old.own;
              rest = old.rest;
              split = grown path old.static_path other ∙ old.split;
              complete = old.complete;
            }
