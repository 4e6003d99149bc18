-- ===== src/Health/Reuse.antt =====
-- How the cache of client_app/src/app/api/health/route.ts is used again.
use spectra_portal.Base.{
  ℕ, ◌-◌, ◌<◌, ◌≡◌, refl, sym, ap, ◌∙◌, String, true, false, some, inl, inr, arith, Option, none,
  Bool-cases, eq_iff, str_eq, Option-cases, eq_of_some, is_truthy,
}
use spectra_portal.Base.Dict
use spectra_portal.Base.Dict.{Dict, get-set_self, get-set_ne}
use spectra_portal.Config.Lookup.{FullClientConfig}
use spectra_portal.Health.Checks.{Network}
use spectra_portal.Health.Route.{
  Endpoints, CachedHealth, HealthyEndpoints, HealthResponse, endpoints, chain_paths, checked, store,
  is_fresh, fresh_entry, from_cache, answer_chain, get_health, cache_ttl, age_text,
}
use spectra_portal.Health.Cache.{get_health-Listing}

fresh_entry-get :
    (cache : Dict CachedHealth) (later : ℕ) (id : String) {entry : CachedHealth}
    → Dict.get id cache ≡ some entry
    → later - entry.timestamp < cache_ttl
    → fresh_entry cache later id ≡ some entry
unfolding fresh_entry is_fresh
fresh_entry-get cache later id there h = rw (there, fresh_entry) (ground arith)

module _ (full : FullClientConfig) where
  abbrev found_or : HealthyEndpoints → HealthResponse → HealthyEndpoints
  found_or d (endpoints found) = found
  found_or d _ = d

  -- What a call that answers from its own checks leaves behind.
  answer_chain-stored :
      (net : Network) (now done : ℕ) (id : String) (paths : Endpoints) (cache : Dict CachedHealth)
      {found : HealthyEndpoints} {after : Dict CachedHealth}
      → answer_chain full net now done id paths cache ≡ (endpoints found, after)
      → found.cached ≡ false
      → (entry : CachedHealth) × (after ≡ store id entry cache)
        × (found.apis ≡ entry.apis)
        × (found.rpcs ≡ entry.rpcs)
        × (entry.timestamp ≡ done)
  unfolding answer_chain from_cache checked
  answer_chain-stored net now done id paths cache {found} e own =
      elim (Option-cases (fresh_entry cache now id)) [
        | inr (entry, fresh) ↦
            let r = rw (fresh, answer_chain) at e in
            let same = ap (λ p. (found_or found p.0).cached) r in let gone = same ∙ own in cc
        | inl stale ↦
            let r = rw (stale, answer_chain) at e in
            (
              checked net paths done,
              sym (ap (λ p. p.1) r),
              sym (ap (λ p. (found_or found p.0).apis) r),
              sym (ap (λ p. (found_or found p.0).rpcs) r),
              refl,
            )
      ]

  answer_chain-fresh :
      (net : Network) (now done : ℕ) (id : String) (paths : Endpoints) (cache : Dict CachedHealth)
      {entry : CachedHealth}
      → fresh_entry cache now id ≡ some entry
      → answer_chain full net now done id paths cache ≡ (from_cache id now entry, cache)
  unfolding answer_chain
  answer_chain-fresh net now done id paths cache fresh = rw (fresh, answer_chain) refl

  get_health-fresh :
      (next : Network) (later end done : ℕ) (id : String) (paths : Endpoints)
      (cache : Dict CachedHealth) (entry : CachedHealth) (found : HealthyEndpoints)
      → is_truthy id ≡ true
      → Dict.get id (chain_paths full) ≡ some paths
      → later - done < cache_ttl
      → Dict.get id cache ≡ some entry
      → found.apis ≡ entry.apis
      → found.rpcs ≡ entry.rpcs
      → entry.timestamp ≡ done
      → get_health full next later end (some id) cache ≡ (
        endpoints (record {
          chain_path = id;
          apis = found.apis;
          rpcs = found.rpcs;
          cached = true;
          age = age_text later done;
        }),
        cache,
      )
  unfolding get_health from_cache
  get_health-fresh next later end done id paths cache entry found truthy known soon kept apis rpcs
        time =
      rw (truthy, known, apis, rpcs, ← time)
        (answer_chain-fresh next later end id paths cache
          (fresh_entry-get cache later id kept (rw time soon)))

  -- What happens to the cache behind a call for `id` that ended at `done`: another call runs from its
  -- start to its end, for whatever chain, and begins in the next two minutes if it is for `id`; or a
  -- call for another chain that began at any time ends its checks.
  pub data Between (id : String) (done : ℕ) (after : Dict CachedHealth)
      : Dict CachedHealth → Type 0 where
    nothing : Between id done after after
    called :
        (net : Network) (now end : ℕ) (chain : Option String) (cache : Dict CachedHealth)
        → (chain ≡ some id → now - done < cache_ttl)
        → Between id done after cache
        → Between id done after (get_health full net now end chain cache).1
    ended :
        (net : Network) (end : ℕ) (other : String) (paths : Endpoints) (cache : Dict CachedHealth)
        → str_eq other id ≡ false
        → Between id done after cache
        → Between id done after (store other (checked net paths end) cache)

  get_health-keeps :
      (net : Network) (now end : ℕ) (chain : Option String) (id : String)
      (cache : Dict CachedHealth) {entry : CachedHealth}
      → (chain ≡ some id → now - entry.timestamp < cache_ttl)
      → Dict.get id cache ≡ some entry
      → Dict.get id (get_health full net now end chain cache).1 ≡ some entry
  unfolding get_health answer_chain fresh_entry is_fresh
  get_health-keeps net now end none id cache soon kept = kept
  get_health-keeps net now end (some k) id cache {entry} soon kept =
      elim (Bool-cases (is_truthy k)) [
        | inr blank ↦ rw (get_health, blank) kept
        | inl named ↦ elim (Option-cases (Dict.get k (chain_paths full))) [
          | inl unknown ↦ rw (get_health, named, unknown) kept
          | inr (paths, known) ↦ elim (Option-cases (fresh_entry cache now k)) [
            | inr (cached, fresh) ↦ rw (get_health, named, known, answer_chain, fresh) kept
            | inl stale ↦
                rw (get_health, named, known, answer_chain, stale)
                  (get-set_ne id k (checked net paths end) cache (other stale) ∙ kept)
          ]
        ]
      ]
    where
      other : fresh_entry cache now k ≡ none → str_eq k id ≡ false
      other stale = elim (Bool-cases (str_eq k id)) [
        | inr differs ↦ differs
        | inl same ↦
            let is_id = (eq_iff k id).0 same in
            let there = ap (λ x. Dict.get x cache) is_id ∙ kept in
            let in_time = soon (ap some is_id) in
            let gone = rw (there, fresh_entry) at stale in absurd (ground arith)
      ]

  Between-keeps :
      {id : String} {done : ℕ} {after cache : Dict CachedHealth} {entry : CachedHealth}
      → entry.timestamp ≡ done
      → Dict.get id after ≡ some entry
      → Between id done after cache
      → Dict.get id cache ≡ some entry
  Between-keeps time kept nothing = kept
  Between-keeps {id} {done} {entry = entry} time kept
        (called net now end chain cache soon between) =
      get_health-keeps net now end chain id cache (λ e. rw time (soon e))
        (Between-keeps time kept between)
  Between-keeps {id} time kept (ended net end other paths cache differs between) =
      get-set_ne id other (checked net paths end) cache differs ∙ Between-keeps time kept between

  -- Endpoints that a call has checked itself are answered again, with their age and as cached, to every
  -- call for the same chain that begins in the next two minutes, whatever the network would answer by
  -- then, and that call leaves the cache as it is. In between there are any calls for whatever chains,
  -- those for the same chain in these two minutes too, each from its start to its end, and the ends of
  -- calls for other chains that began at any time; no other check of the same chain is under way.
  pub get_health-reuse :
      (net next : Network) (now done later end : ℕ) (id : String)
      (cache current : Dict CachedHealth) {found : HealthyEndpoints} {after : Dict CachedHealth}
      → get_health full net now done (some id) cache ≡ (endpoints found, after)
      → found.cached ≡ false
      → Between id done after current
      → later - done < cache_ttl
      → get_health full next later end (some id) current ≡ (
        endpoints (record {
          chain_path = id;
          apis = found.apis;
          rpcs = found.rpcs;
          cached = true;
          age = age_text later done;
        }),
        current,
      )
  get_health-reuse net next now done later end id cache current {found} {after} e own between soon =
      let l = get_health-Listing full net now done (some id) cache e in
      let same = sym (eq_of_some l.named) in
      let truthy = rw same at l.truthy in
      let known = rw same at l.known in
      let given = rw same at l.given in
      let (entry, is, apis, rpcs, time) =
        answer_chain-stored net now done id l.paths cache given own in
      let kept = ap (Dict.get id) is ∙ get-set_self id entry cache in
      get_health-fresh next later end done id l.paths current entry found truthy known soon
        (Between-keeps time kept between) apis rpcs time
