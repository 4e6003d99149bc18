-- ===== src/Health/Cache.antt =====
-- The cache of client_app/src/app/api/health/route.ts over many calls of its handler.
use mathlib.Core.Path.{subst}
use spectra_portal.Base.{
  ℕ, ◌≡◌, refl, ap, ◌∙◌, String, Bool, true, List, [], ◌∷◌, map, Option, none, some, filter, Mem,
  All, inl, inr, arith, Bool-cases, Option-cases, is_truthy,
}
use spectra_portal.Base.Dict
use spectra_portal.Base.Dict.{
  Dict, get-set, get-set_all, str_eq_self, AllEntries, AllEntries-set, AllEntries-get,
}
use spectra_portal.Config.{ClientChain}
use spectra_portal.Config.Lookup.{FullClientConfig, get_chain_apis, get_chain_rpcs}
use spectra_portal.Health.Checks.{
  Network, HealthCheckResult, Reply, NodeInfo, failed, replied, unreadable, contents,
  check_api_health, api_replies, api_answered, api_result, check_rpc_health,
}
use spectra_portal.Health.Endpoints.{
  Kind, rpc, api, check_one, is_healthy, check_endpoints_health, start_height,
}
use spectra_portal.Health.Listed.{rpc_reply-endpoint}
use spectra_portal.Health.Route.{
  Endpoints, CachedHealth, HealthyEndpoints, HealthResponse, endpoints, missing_chain_path,
  chain_not_found, endpoints_of, chain_paths, checked, store, is_fresh, fresh_entry, from_cache,
  answer_chain, get_health,
}

abbrev pub Within : List String → List String → Type 0
Within xs ys = All (λ x. Mem x ys) xs

All-Mem_later : (xs ys : List String) (y : String) → Within xs ys → Within xs (y ∷ ys)
All-Mem_later [] ys y h = tt
All-Mem_later (x ∷ xs) ys y (m, h) = (inr m, All-Mem_later xs ys y h)

Within-self : (xs : List String) → Within xs xs
Within-self [] = tt
Within-self (x ∷ xs) = (inl refl, All-Mem_later xs xs x (Within-self xs))

filter-Within :
    (f : String → HealthCheckResult) (test : HealthCheckResult → Bool) (xs ys : List String)
    → ((e : String) → (f e).endpoint ≡ e)
    → Within xs ys
    → Within (map (λ r. r.endpoint) (filter test (map f xs))) ys
filter-Within f test [] ys named h = tt
filter-Within f test (x ∷ xs) ys named (m, h) = elim (Bool-cases (test (f x))) [
  | inl passes ↦ rw passes (rw (named x) (m, filter-Within f test xs ys named h))
  | inr fails ↦ rw fails (filter-Within f test xs ys named h)
]

api_replies-endpoint :
    (net : Network) (endpoint : String) (info : Reply NodeInfo) (syncing : Reply (Option Bool))
    → (api_replies net endpoint info syncing).endpoint ≡ endpoint
unfolding api_replies api_answered api_result
api_replies-endpoint net endpoint (failed e) syncing = refl
api_replies-endpoint net endpoint (replied s b) (failed e) = refl
api_replies-endpoint net endpoint (replied s (unreadable e)) (replied t b) = ground arith
api_replies-endpoint net endpoint (replied s (contents i)) (replied t (unreadable e)) = ground arith
api_replies-endpoint net endpoint (replied s (contents i)) (replied t (contents j)) = ground arith

check_one-endpoint :
    (net : Network) (kind : Kind) (endpoint : String)
    → (check_one net kind endpoint).endpoint ≡ endpoint
unfolding check_one check_rpc_health check_api_health
check_one-endpoint net rpc endpoint = rpc_reply-endpoint net endpoint _
check_one-endpoint net api endpoint = api_replies-endpoint net endpoint _ _

-- Only checked endpoints are listed.
check_endpoints_health-Within :
    (net : Network) (xs : List String) (kind : Kind)
    → Within (check_endpoints_health net xs kind) xs
unfolding check_endpoints_health
check_endpoints_health-Within net xs kind =
    filter-Within (check_one net kind)
      (is_healthy kind (start_height kind (map (check_one net kind) xs))) xs xs
      (check_one-endpoint net kind) (Within-self xs)

module _ (full : FullClientConfig) where
  -- The cache of a running server: the checks of a call end at any time, when the checks of others may
  -- have ended in between.
  pub data Serving : Dict CachedHealth → Type 0 where
    empty : Serving []
    stored :
        (id : String) (paths : Endpoints) (net : Network) (done : ℕ) (cache : Dict CachedHealth)
        → Dict.get id (chain_paths full) ≡ some paths
        → Serving cache
        → Serving (store id (checked net paths done) cache)

  -- The endpoints of an entry are the configuration's for its chain.
  abbrev IsConfigured : String → CachedHealth → Type 0
  IsConfigured id entry =
      Within entry.apis (get_chain_apis full id) × Within entry.rpcs (get_chain_rpcs full id)

  chain_paths-get :
      (id : String) {paths : Endpoints}
      → Dict.get id (chain_paths full) ≡ some paths
      → paths ≡ endpoints_of full id
  unfolding chain_paths
  chain_paths-get id e =
      elim (get-set_all (endpoints_of full) (λ (c : ClientChain). c.id) full.config.chains id []
        e) [ inl made ↦ made | inr there ↦ cc ]

  checked-IsConfigured :
      (id : String) (paths : Endpoints) (net : Network) (done : ℕ)
      → paths ≡ endpoints_of full id
      → IsConfigured id (checked net paths done)
  unfolding checked endpoints_of
  checked-IsConfigured id paths net done e = rw e (
    check_endpoints_health-Within net (get_chain_apis full id) Kind.api,
    check_endpoints_health-Within net (get_chain_rpcs full id) Kind.rpc,
  )

  Serving-IsConfigured : {cache : Dict CachedHealth} → Serving cache → AllEntries IsConfigured cache
  Serving-IsConfigured empty = tt
  Serving-IsConfigured (stored id paths net done cache e s) =
      AllEntries-set IsConfigured id (checked net paths done) cache
        (checked-IsConfigured id paths net done (chain_paths-get id e)) (Serving-IsConfigured s)

  -- How a call comes to list endpoints.
  pub record Listing (net : Network) (now done : ℕ) (chain : Option String)
      (cache : Dict CachedHealth) (answer : HealthResponse × Dict CachedHealth) : Type 0 where
    pub id : String
    pub paths : Endpoints
    pub named : chain ≡ some id
    pub truthy : is_truthy id ≡ true
    pub known : Dict.get id (chain_paths full) ≡ some paths
    pub given : answer_chain full net now done id paths cache ≡ answer

  pub get_health-Listing :
      (net : Network) (now done : ℕ) (chain : Option String) (cache : Dict CachedHealth)
      {found : HealthyEndpoints} {after : Dict CachedHealth}
      → get_health full net now done chain cache ≡ (endpoints found, after)
      → Listing net now done chain cache (endpoints found, after)
  unfolding get_health
  get_health-Listing net now done none cache e = let gone = ap (λ p. p.0) e in cc
  get_health-Listing net now done (some id) cache e = elim (Bool-cases (is_truthy id)) [
    | inr blank ↦ let gone = ap (λ p. p.0) (rw blank at e) in cc
    | inl named ↦ elim (Option-cases (Dict.get id (chain_paths full))) [
      | inl unknown ↦ let gone = ap (λ p. p.0) (rw (named, unknown) at e) in cc
      | inr (paths, known) ↦ record {
        id = id;
        paths = paths;
        named = refl;
        truthy = named;
        known = known;
        given = rw (named, known) at e;
      }
    ]
  ]

  fresh_entry_sound :
      (cache : Dict CachedHealth) (now : ℕ) (id : String) {entry : CachedHealth}
      → fresh_entry cache now id ≡ some entry
      → Dict.get id cache ≡ some entry
  unfolding fresh_entry
  fresh_entry_sound cache now id e = elim (Option-cases (Dict.get id cache)) [
    | inl nothing ↦ let gone = rw (nothing, fresh_entry) at e in cc
    | inr (entry, there) ↦ elim (Bool-cases (is_fresh now entry)) [
      | inl fresh ↦ there ∙ (rw (there, fresh, fresh_entry) at e)
      | inr stale ↦ let gone = rw (there, stale, fresh_entry) at e in cc
    ]
  ]

  abbrev IsListed : String → HealthResponse → Type 0
  IsListed id missing_chain_path = Unit
  IsListed id chain_not_found = Unit
  IsListed id (endpoints found) =
      (found.chain_path ≡ id)
      × Within found.apis (get_chain_apis full id)
      × Within found.rpcs (get_chain_rpcs full id)

  answer_chain-IsListed :
      (net : Network) (now done : ℕ) (id : String) (paths : Endpoints) (cache : Dict CachedHealth)
      → paths ≡ endpoints_of full id
      → AllEntries IsConfigured cache
      → IsListed id (answer_chain full net now done id paths cache).0
  unfolding answer_chain from_cache
  answer_chain-IsListed net now done id paths cache e sound =
      elim (Option-cases (fresh_entry cache now id)) [
        | inr (entry, fresh) ↦
            let (apis, rpcs) =
              AllEntries-get IsConfigured id cache sound (fresh_entry_sound cache now id fresh) in
            rw (fresh, answer_chain) (refl, apis, rpcs)
        | inl stale ↦
            let (apis, rpcs) = checked-IsConfigured id paths net done e in
            rw (stale, answer_chain) (refl, apis, rpcs)
      ]

  -- At any time of a running server, whatever the network does: the endpoints that a call answers,
  -- from the cache or freshly checked, are those of the chain that it asks for, and each stands in the
  -- configuration of that chain.
  pub get_health-IsConfigured :
      (net : Network) (now done : ℕ) (chain : Option String) (cache : Dict CachedHealth)
      {found : HealthyEndpoints} {after : Dict CachedHealth}
      → Serving cache
      → get_health full net now done chain cache ≡ (endpoints found, after)
      → (chain ≡ some found.chain_path)
        × Within found.apis (get_chain_apis full found.chain_path)
        × Within found.rpcs (get_chain_rpcs full found.chain_path)
  get_health-IsConfigured net now done chain cache {found} serving e =
      let l = get_health-Listing net now done chain cache e in
      let listed =
        answer_chain-IsListed net now done l.id l.paths cache (chain_paths-get l.id l.known)
          (Serving-IsConfigured serving) in
      let (same, apis, rpcs) = subst (λ p. IsListed l.id p.0) l.given listed in
      rw same (l.named, apis, rpcs)
