-- ===== src/Health/Client.antt =====
-- The client's choice of an endpoint among those that the server answers
-- (client_app/src/lib/apiQueries/featchHealthyEndpoint.ts).
use spectra_portal.Base.{
  ℕ, zero, suc, ◌≡◌, refl, String, List, [], ◌∷◌, Option, none, some, if◌then◌else◌, get_elem?,
  length, is_truthy, Mem, All, inl, inr, Bool-cases, Option-cases, eq_of_some,
}
use spectra_portal.Base.Dict.{Dict}
use spectra_portal.Config.Lookup.{FullClientConfig, get_chain_apis, get_chain_rpcs}
use spectra_portal.Health.Checks.{Network, Reply, failed, replied, unreadable, contents, is_ok}
use spectra_portal.Health.Route.{
  CachedHealth, HealthResponse, endpoints, missing_chain_path, chain_not_found, status_of,
  get_health,
}
use spectra_portal.Health.Cache.{Serving, Within, get_health-IsConfigured}

-- The JSON of a response, with the fields that are read.
pub record HealthJson : Type 0 where
  pub apis : Option (List String)
  pub rpcs : Option (List String)

-- The choice from a list; `pick n` is `Math.floor(Math.random() * n)`.
unfoldable pub pick_from : (ℕ → ℕ) → Option (List String) → Option String
pick_from pick none = none
pick_from pick (some []) = none
pick_from pick (some (x ∷ xs)) = elim (get_elem? (x ∷ xs) (pick (length (x ∷ xs)))) [
  | none ↦ none
  | some url ↦ if is_truthy url then some url else none
]

-- What is chosen from the field that `field` reads.
unfoldable pub choose :
    (ℕ → ℕ) → (HealthJson → Option (List String)) → Reply HealthJson → Option String
unfolding pick_from
choose pick field (failed error) = none
choose pick field (replied status (unreadable error)) = none
choose pick field (replied status (contents json)) =
    if is_ok status then pick_from pick (field json) else none

-- `getRandomHealthyApiImperative`, with what its request answers.
unfoldable pub get_random_healthy_api : (ℕ → ℕ) → Reply HealthJson → Option String
unfolding choose
get_random_healthy_api pick reply = choose pick (λ json. json.apis) reply

-- `getRandomHealthyRpcImperative`
unfoldable pub get_random_healthy_rpc : (ℕ → ℕ) → Reply HealthJson → Option String
unfolding choose
get_random_healthy_rpc pick reply = choose pick (λ json. json.rpcs) reply

abbrev json_of : HealthResponse → HealthJson
json_of (endpoints found) = record { apis = some found.apis; rpcs = some found.rpcs }
json_of _ = record { apis = none; rpcs = none }

-- The server's response as the client receives it. The request's query string is not modelled: the
-- handler is given the chain's id, as for ids that are the same in a URL.
unfoldable pub received : HealthResponse → Reply HealthJson
unfolding status_of
received response = replied (status_of response) (contents (json_of response))

All-get_elem? :
    (P : String → Type 0) (xs : List String) (i : ℕ) {x : String}
    → All P xs
    → get_elem? xs i ≡ some x
    → P x
All-get_elem? P [] i h e = cc
All-get_elem? P (y ∷ ys) zero (p, h) e = rw (← eq_of_some e) p
All-get_elem? P (y ∷ ys) (suc i) (p, h) e = All-get_elem? P ys i h e

pick_from-Mem :
    (pick : ℕ → ℕ) (xs ys : List String) {url : String}
    → Within xs ys
    → pick_from pick (some xs) ≡ some url
    → Mem url ys
unfolding pick_from
pick_from-Mem pick [] ys h e = cc
pick_from-Mem pick (x ∷ xs) ys h e =
    elim (Option-cases (get_elem? (x ∷ xs) (pick (length (x ∷ xs))))) [
      | inl missing ↦ let gone = rw (missing, pick_from) at e in cc
      | inr (found, there) ↦ elim (Bool-cases (is_truthy found)) [
        | inl some_text ↦
            let same = eq_of_some (rw (there, some_text, pick_from) at e) in
            rw (← same) (All-get_elem? (λ u. Mem u ys) (x ∷ xs) (pick (length (x ∷ xs))) h there)
        | inr blank ↦ let gone = rw (there, blank, pick_from) at e in cc
      ]
    ]

module _ (full : FullClientConfig) (pick : ℕ → ℕ) where
  -- What an answer of the server leads to.
  abbrev LeadsTo : Option String → HealthResponse → Type 0
  LeadsTo chain missing_chain_path = Unit
  LeadsTo chain chain_not_found = Unit
  LeadsTo chain (endpoints found) =
      (chain ≡ some found.chain_path)
      × Within found.apis (get_chain_apis full found.chain_path)
      × Within found.rpcs (get_chain_rpcs full found.chain_path)

  get_health-LeadsTo :
      (net : Network) (now done : ℕ) (chain : Option String) (cache : Dict CachedHealth)
      (answer : HealthResponse) (after : Dict CachedHealth)
      → Serving full cache
      → get_health full net now done chain cache ≡ (answer, after)
      → LeadsTo chain answer
  get_health-LeadsTo net now done chain cache missing_chain_path after serving e = tt
  get_health-LeadsTo net now done chain cache chain_not_found after serving e = tt
  get_health-LeadsTo net now done chain cache (endpoints found) after serving e =
      get_health-IsConfigured full net now done chain cache serving e

  received-Mem :
      (id : String) (answer : HealthResponse) {url : String}
      → LeadsTo (some id) answer
      → get_random_healthy_api pick (received answer) ≡ some url
      → Mem url (get_chain_apis full id)
  unfolding get_random_healthy_api received choose status_of pick_from
  received-Mem id missing_chain_path h e = cc
  received-Mem id chain_not_found h e = cc
  received-Mem id (endpoints found) (same, apis, rpcs) e =
      rw (eq_of_some same)
        (pick_from-Mem pick found.apis (get_chain_apis full found.chain_path) apis e)

  -- An API that the client chooses for a chain, from what a running server answers to it, is one that
  -- the configuration has for that chain, whatever the network answers and however the choice falls.
  pub get_random_healthy_api-IsConfigured :
      (net : Network) (now done : ℕ) (id : String) (cache : Dict CachedHealth) {url : String}
      → Serving full cache
      → get_random_healthy_api pick (received (get_health full net now done (some id) cache).0)
        ≡ some url
      → Mem url (get_chain_apis full id)
  get_random_healthy_api-IsConfigured net now done id cache serving e =
      let answer = get_health full net now done (some id) cache in
      received-Mem id answer.0
        (get_health-LeadsTo net now done (some id) cache answer.0 answer.1 serving refl) e
