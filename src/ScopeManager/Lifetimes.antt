-- ===== src/ScopeManager/Lifetimes.antt =====
-- What a request's cache promises: all that ask for it within the request share one table, no other
-- request sees it, and it is gone once the request is over.
use bustan.Prelude.{
  ℕ, ◌≡◌, ◌≢◌, refl, sym, ap, ◌∙◌, subst, Option, none, some, nat_eq, list_eq, pair_eq,
  Option-cases, inl, inr,
}
use bustan.OrderedDict.{get}
use bustan.InstanceStore.{CacheKey, cached_under}
use bustan.ScopeManager.{
  ScopeManager, RequestState, cache_or_new, get_request_cache, table_get, keep_found, keep_instance,
  clear_request_state,
}
use bustan.ScopeManager.Tables.{
  AreSeparate, IsSeparate, cache_or_new-IsSeparate, cache_or_new-held, cache_or_new-other,
  cache_or_new-tables, clear_request_state-IsSeparate, clear_request_state-in_request, in_request,
  in_request-eq, keep_found-kept, keep_found-states, keep_found-tables, read,
}

-- What is in a slot, or what is built for it
abbrev pub held_or : ℕ → Option ℕ → ℕ
held_or i none = i
held_or i (some held) = held

keep_found-answer :
    (cache : ℕ) (key : CacheKey) (i : ℕ) (found : Option ℕ) (m : ScopeManager)
    → (keep_found cache key i found m).0 ≡ held_or i found
unfolding keep_found
keep_found-answer cache key i none m = refl
keep_found-answer cache key i (some kept) m = refl

keep_instance-again :
    (cache : ℕ) (key : CacheKey) (j kept : ℕ) (m : ScopeManager)
    → table_get cache key m ≡ some kept
    → (keep_instance cache key j m).0 ≡ kept
unfolding keep_instance
keep_instance-again cache key j kept m held =
    ap (λ found. (keep_found cache key j found m).0) held ∙ unfold keep_found in refl

-- A table that a request holds reads as the request does.
in_request-held :
    (request cache : ℕ) (key : CacheKey) (m : ScopeManager)
    → (m.request_states request).provider_cache ≡ some cache
    → in_request request key m ≡ table_get cache key m
in_request-held request cache key m held = in_request-eq request key m ∙ ap (read key m) held

-- What another request reads is as it was, where its state is and so is the table it refers to.
in_request-other :
    (other : ℕ) (key : CacheKey) (m n : ScopeManager)
    → n.request_states other ≡ m.request_states other
    → ((t : ℕ) → (m.request_states other).provider_cache ≡ some t → n.tables t ≡ m.tables t)
    → in_request other key n ≡ in_request other key m
unfolding table_get
in_request-other other key m n states tables =
    in_request-eq other key n
    ∙ ap (λ (s : RequestState). read key n s.provider_cache) states
    ∙ elim (Option-cases (m.request_states other).provider_cache) [
      | inl absent ↦ ap (read key n) absent ∙ sym (ap (read key m) absent)
      | inr (t, present) ↦
          ap (read key n) present
          ∙ ap (get (cached_under key)) (tables t present)
          ∙ sym (ap (read key m) present)
    ]
    ∙ sym (in_request-eq other key m)

module _ (request other : ℕ) (key asked : CacheKey) (i j : ℕ) (m : ScopeManager)
    (separate : IsSeparate m) (differs : request ≢ other) where
  abbrev first : ℕ
  first = (get_request_cache request m).0

  abbrev one : ScopeManager
  one = (get_request_cache request m).1

  one-held : (one.request_states request).provider_cache ≡ some first
  unfolding get_request_cache
  one-held = cache_or_new-held request (m.request_states request).provider_cache m refl

  one-IsSeparate : IsSeparate one
  unfolding get_request_cache
  one-IsSeparate =
      cache_or_new-IsSeparate request (m.request_states request).provider_cache m separate

  abbrev shared : ℕ × ScopeManager
  shared = keep_instance first key i one

  shared-IsSeparate : IsSeparate shared.1
  unfolding keep_instance
  shared-IsSeparate =
      let (states, fresh) = keep_found-states first key i (table_get first key one) one in
      subst (λ r. AreSeparate r shared.1.fresh_table) (sym states)
        (subst (AreSeparate one.request_states) (sym fresh) one-IsSeparate)

  shared-held : (shared.1.request_states request).provider_cache ≡ some first
  unfolding keep_instance
  shared-held =
      ap (λ (states : ℕ → RequestState). (states request).provider_cache)
        (keep_found-states first key i (table_get first key one) one).0
      ∙ one-held

  shared-kept : table_get first key shared.1 ≡ some shared.0
  unfolding keep_instance
  shared-kept = keep_found-kept first key i (table_get first key one) one refl

  shared-answer : shared.0 ≡ held_or i (in_request request key m)
  unfolding keep_instance in_request
  shared-answer = keep_found-answer first key i (table_get first key one) one

  other-one : one.request_states other ≡ m.request_states other
  unfolding get_request_cache
  other-one = cache_or_new-other request other (m.request_states request).provider_cache m differs

  shared-other : in_request other asked shared.1 ≡ in_request other asked m
  unfolding keep_instance
  shared-other =
      in_request-other other asked m shared.1
        (ap (λ (states : ℕ → RequestState). states other)
            (keep_found-states first key i (table_get first key one) one).0
          ∙ other-one)
        (λ t present.
          keep_found-tables first t key i (table_get first key one) one (λ same. differs (
            one-IsSeparate.own request other t (one-held ∙ ap some same)
              (ap (λ (s : RequestState). s.provider_cache) other-one ∙ present)))
          ∙ unfold get_request_cache in
            cache_or_new-tables request t (m.request_states request).provider_cache m
              (separate.made other t present))

  get_request_cache-again : get_request_cache request one ≡ (first, one)
  unfolding get_request_cache
  get_request_cache-again =
      ap (λ found. cache_or_new request found one) one-held ∙ unfold cache_or_new in refl

  -- Where requests have tables of their own: two resolutions of a request that take its cache before
  -- either has built anything are answered with one instance, the one that was held under the key or
  -- else that of whoever keeps its own first. The request reads it back, another request reads what
  -- it did before, nothing is read once the request's state is cleared, and the requests still have
  -- tables of their own.
  pub keep_instance-in_request :
      let (mine, begun) = get_request_cache request m in
      let (yours, ready) = get_request_cache request begun in
      let (kept, after) = keep_instance mine key i ready in
      let cleared = clear_request_state (some request) after in
      (kept ≡ held_or i (in_request request key m))
      × ((keep_instance yours key j after).0 ≡ kept)
      × (in_request request key after ≡ some kept)
      × (in_request other asked after ≡ in_request other asked m)
      × (in_request request asked cleared ≡ none)
      × IsSeparate after
      × IsSeparate cleared
  keep_instance-in_request =
      subst
        (λ (again : ℕ × ScopeManager).
          let (kept, after) = keep_instance first key i again.1 in
          let cleared = clear_request_state (some request) after in
          (kept ≡ held_or i (in_request request key m))
          × ((keep_instance again.0 key j after).0 ≡ kept)
          × (in_request request key after ≡ some kept)
          × (in_request other asked after ≡ in_request other asked m)
          × (in_request request asked cleared ≡ none)
          × IsSeparate after
          × IsSeparate cleared)
        (sym get_request_cache-again)
        (
          shared-answer,
          keep_instance-again first key j shared.0 shared.1 shared-kept,
          in_request-held request first key shared.1 shared-held ∙ shared-kept,
          shared-other,
          clear_request_state-in_request request asked shared.1,
          shared-IsSeparate,
          clear_request_state-IsSeparate request shared.1 shared-IsSeparate,
        )
