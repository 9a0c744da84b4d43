-- ===== src/AsgiRouter/Order.antt =====
-- The router answers as registration order does: the table of static paths changes no answer.
use bustan.Prelude.{
  true, false, not, ◌&&◌, none, some, List, [], ◌∷◌, ◌++◌, nat_eq, list_eq, Text, ◌≡◌, refl, ◌∙◌,
  ap, arith, contains, any, Option-cases, Bool-cases, inl, inr, subst, sym, All, beq_refl,
}
use mathlib.Core.Option.{some-injective, none-ne-some}
use mathlib.Core.List.{append-nil, append_assoc}
use bustan.OrderedDict.{get, has_key}
use bustan.OrderedDict.Lookup.{has_key-eq-get}
use bustan.AsgiRouter.Pattern.{Params}
use bustan.AsgiRouter.Table.{
  AsgiRoute, AsgiRouter, empty, match, matches, is_static, enter, add_route, add, found, scan,
  find_static, conclude, matched, resolve, union_methods,
}
use bustan.AsgiRouter.Static.{IsBuilt, match-static_self}
use bustan.AsgiRouter.Invariant.{
  contains-append, not-contains-append, answering, IsEntry, IsTrue, patterned-IsTrue,
  shadowed-IsTrue, entered-IsTrue,
}

abbrev pub TableIsTrue : AsgiRouter → Type 0
TableIsTrue r = IsTrue r.routes r.static r.shadowed r.patterned

not_answered :
    (path : Text) (routes : List AsgiRoute)
    → any (λ r. matches r path) routes ≡ false
    → answering path routes ≡ []
not_answered path [] h = refl
not_answered path (route ∷ routes) h = ground (arith, not_answered path routes)

add_route-TableIsTrue :
    (r : AsgiRouter) (route : AsgiRoute)
    → IsBuilt route
    → TableIsTrue r
    → TableIsTrue (add_route r route)
unfolding add_route enter
add_route-TableIsTrue r route built h = elim (Bool-cases (is_static route.path)) [
  | inr pattern ↦ rw pattern (patterned-IsTrue r.routes r.patterned r.static r.shadowed route h)
  | inl st ↦ elim (Bool-cases (contains r.shadowed route.path)) [
    | inl shut ↦
        rw (st, shut)
          (shadowed-IsTrue r.routes r.patterned r.static r.shadowed route h built st r.shadowed shut
            (λ path out. out))
    | inr clear ↦
        elim (Bool-cases (
          not (has_key route.path r.static)
          && any (λ earlier. matches earlier route.path) r.patterned)) [
            | inl behind ↦
                rw (st, clear, behind)
                  (shadowed-IsTrue r.routes r.patterned r.static r.shadowed route h built st
                    (r.shadowed ++ route.path ∷ [])
                    (ground (
                      arith,
                      contains-append r.shadowed (route.path ∷ []) route.path,
                      beq_refl route.path,
                    ))
                    (λ path out. (not-contains-append r.shadowed (route.path ∷ []) path out).0))
            | inr first ↦
                rw (st, clear, first)
                  (entered-IsTrue r.routes r.patterned r.static r.shadowed route h built st clear
                    (λ missing.
                      not_answered route.path r.patterned
                        (ground (arith, first, has_key-eq-get route.path r.static missing))))
          ]
  ]
]

routes-add_route :
    (r : AsgiRouter) (route : AsgiRoute) → (add_route r route).routes ≡ r.routes ++ route ∷ []
unfolding add_route enter
routes-add_route r route = ground arith

pub add-TableIsTrue :
    (r : AsgiRouter) (routes : List AsgiRoute)
    → All IsBuilt routes
    → TableIsTrue r
    → TableIsTrue (add r routes)
unfolding add
add-TableIsTrue r [] built h = h
add-TableIsTrue r (route ∷ routes) built h =
    add-TableIsTrue (add_route r route) routes built.1 (add_route-TableIsTrue r route built.0 h)

routes-add : (r : AsgiRouter) (routes : List AsgiRoute) → (add r routes).routes ≡ r.routes ++ routes
unfolding add
routes-add r [] = sym (append-nil r.routes)
routes-add r (route ∷ routes) =
    routes-add (add_route r route) routes
    ∙ ap (λ (l : List AsgiRoute). l ++ routes) (routes-add_route r route)
    ∙ append_assoc r.routes (route ∷ []) routes

-- The routes that answer, if the first does and if it does not.
answering_silent :
    (first : AsgiRoute) (routes : List AsgiRoute) (path : Text)
    → match first path ≡ none
    → answering path (first ∷ routes) ≡ answering path routes
answering_silent first routes path silent = ground (arith, silent)

answering_first :
    (first : AsgiRoute) (routes : List AsgiRoute) (path : Text) (params : Params)
    → match first path ≡ some params
    → answering path (first ∷ routes) ≡ first ∷ answering path routes
answering_first first routes path params answers = ground (arith, answers)

-- The first route that registration order finds for a path is the one that the scan stops at.
scan-find_static :
    (routes : List AsgiRoute) (path method : Text) (allowed : List Text) (route : AsgiRoute)
    → find_static (answering path routes) method ≡ some route
    → (params : Params) × (match route path ≡ some params)
      × (scan routes path method allowed ≡ found route params)
unfolding find_static scan
scan-find_static [] path method allowed route h = cc
scan-find_static (first ∷ routes) path method allowed route h =
    elim (Option-cases (match first path)) [
      | inl silent ↦
          let (params, m, e) =
            scan-find_static routes path method allowed route
              (rw (answering_silent first routes path silent) at h) in
          (params, m, rw (silent, scan) e)
      | inr (params, answers) ↦ elim (Bool-cases (contains first.methods method)) [
        | inl takes ↦
            let here =
              rw (answering_first first routes path params answers, find_static, takes) at h in
            let same : first ≡ route = some-injective first route here in
            (
              params,
              subst (λ r. match r path ≡ some params) same answers,
              rw (answers, scan, takes) (ap (λ r. found r params) same),
            )
        | inr refuses ↦
            let later =
              rw (answering_first first routes path params answers, find_static, refuses) at h in
            let (params', m, e) =
              scan-find_static routes path method (union_methods allowed first.methods) route
                later in
            (params', m, rw (answers, scan, refuses) e)
      ]
    ]

find_static-append :
    (entries rest : List AsgiRoute) (method : Text) (route : AsgiRoute)
    → find_static entries method ≡ some route
    → find_static (entries ++ rest) method ≡ some route
unfolding find_static
find_static-append [] rest method route h = cc
find_static-append (first ∷ entries) rest method route h =
    ground (arith, find_static-append entries rest method route)

-- What a table lookup returns matches its own path with no parameters.
find_static-match :
    (path method : Text) (entries : List AsgiRoute) (route : AsgiRoute)
    → is_static path ≡ true
    → All (IsEntry path) entries
    → find_static entries method ≡ some route
    → match route path ≡ some []
unfolding find_static
find_static-match path method [] route st own h = cc
find_static-match path method (first ∷ entries) route st own h =
    elim (Bool-cases (contains first.methods method)) [
      | inl takes ↦
          let same : first ≡ route = some-injective first route (rw takes at h) in
          subst (λ r. match r path ≡ some []) same
            (subst (λ p. match first p ≡ some []) own.0.1
              (match-static_self first own.0.0 (rw own.0.1 st)))
      | inr refuses ↦ find_static-match path method entries route st own.1 (rw refuses at h)
    ]

-- A router whose table is true answers as the scan over all of its routes does.
resolve-eq-scan :
    (r : AsgiRouter) (path method : Text)
    → TableIsTrue r
    → resolve r path method ≡ conclude r.routes path (scan r.routes path method [])
unfolding resolve
resolve-eq-scan r path method h = elim (Option-cases (get path r.static)) [
  | inl missing ↦ rw (resolve, missing) (unfold find_static in refl)
  | inr (entries, listed) ↦ elim (Option-cases (find_static entries method)) [
    | inl none_takes ↦ rw (resolve, listed, none_takes)
    | inr (route, takes) ↦
        let l = h.listed path entries listed in
        let first =
          subst (λ rs. find_static rs method ≡ some route) (sym l.split)
            (find_static-append entries l.rest method route takes) in
        let (params, m, e) = scan-find_static r.routes path method [] route first in
        let plain = find_static-match path method entries route l.static_path l.own takes in
        rw (resolve, listed, takes, e)
          (unfold conclude in ap (matched route) (some-injective [] params (sym plain ∙ m)))
  ]
]

empty-TableIsTrue : TableIsTrue empty
empty-TableIsTrue = record {
  listed = λ path entries found. absurd (none-ne-some entries (unfold get in found));
  absent = λ path st out missing. refl;
}

-- For any routes that `AsgiRoute` builds, registered in any number of steps on an empty router, the
-- router with its table of static paths gives every request the answer that trying every pattern
-- in registration order gives.
pub resolve-eq-registration_order :
    (routes : List AsgiRoute) (path method : Text)
    → All IsBuilt routes
    → resolve (add empty routes) path method ≡ conclude routes path (scan routes path method [])
resolve-eq-registration_order routes path method built =
    resolve-eq-scan (add empty routes) path method
      (add-TableIsTrue empty routes built empty-TableIsTrue)
    ∙ ap (λ rs. conclude rs path (scan rs path method [])) (routes-add empty routes)
