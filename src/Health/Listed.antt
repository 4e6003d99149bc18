-- ===== src/Health/Listed.antt =====
-- Which endpoints `checkEndpointsHealth` of client_app/src/app/api/health/route.ts lists.
use spectra_portal.Base.{
  ℕ, ◌+◌, ◌≤◌, ◌<◌, ◌≡◌, ◌≢◌, refl, String, Bool, true, List, [], ◌∷◌, map, Option, none, some,
  if◌then◌else◌, ◌&&◌, filter, Mem, All, inl, inr, ◌↔◌, arith, Bool-cases, eq_iff, ltb,
}
use spectra_portal.Health.Checks.{
  Network, HealthCheckResult, AbciInfo, Reply, failed, replied, unreadable, contents,
  check_rpc_health, rpc_reply, rpc_answered, rpc_result, check_cors_preflight_healthy, abci_url,
  is_ok, is_not_empty,
}
use spectra_portal.Health.Endpoints.{
  Kind, height_of, highest_block_height, is_healthy, check_one, check_endpoints_health,
}

abbrev pub IsAtMost : ℕ → HealthCheckResult → Type 0
IsAtMost b result = height_of result ≤ b

-- The highest block height is a least upper bound.
highest-le_iff :
    (results : List HealthCheckResult) (n b : ℕ)
    → (highest_block_height results n ≤ b) ↔ ((n ≤ b) × All (IsAtMost b) results)
unfolding highest_block_height
highest-le_iff [] n b = ground arith
highest-le_iff (r ∷ results) n b =
    let step = if ltb 0 (height_of r) && ltb n (height_of r) then height_of r else n in
    let (to, from) = highest-le_iff results step b in
    (
      λ h. let (s, rest) = to h in (ground arith, (ground arith, rest)),
      λ (h, (one, rest)). from (ground arith, rest),
    )

is_not_empty_iff : (text : Option String) → (is_not_empty text ≡ true) ↔ (text ≢ some "")
is_not_empty_iff none = ground arith
is_not_empty_iff (some text) = ground (arith, eq_iff text "")

module _ (net : Network) where
  -- An RPC serves at a height: it lets the portal's pages read it, answers with a good status a body
  -- that is read, names its version and application, and reports that height, which is positive.
  abbrev pub Serves : String → Reply AbciInfo → ℕ → Type 0
  Serves endpoint (failed error) height = ⊥
  Serves endpoint (replied status (unreadable error)) height = ⊥
  Serves endpoint (replied status (contents info)) height =
      (check_cors_preflight_healthy net (abci_url net endpoint) ≡ true)
      × (is_ok status ≡ true)
      × (info.version ≢ some "")
      × (info.app_name ≢ some "")
      × (info.last_block_height ≡ some height)
      × (0 < height)

  abbrev Reports : HealthCheckResult → ℕ → Type 0
  Reports result height = (result.healthy ≡ true) × (height_of result ≡ height) × (0 < height)

  rpc_reply-Reports_iff :
      (endpoint : String) (reply : Reply AbciInfo) (height : ℕ)
      → Reports (rpc_reply net endpoint reply) height ↔ Serves endpoint reply height
  unfolding rpc_reply rpc_answered rpc_result
  rpc_reply-Reports_iff endpoint (failed error) height = ground arith
  rpc_reply-Reports_iff endpoint (replied status (unreadable error)) height = ground arith
  rpc_reply-Reports_iff endpoint (replied status (contents info)) height =
      ground (arith, is_not_empty_iff info.version, is_not_empty_iff info.app_name)

  pub rpc_reply-endpoint :
      (endpoint : String) (reply : Reply AbciInfo)
      → (rpc_reply net endpoint reply).endpoint ≡ endpoint
  unfolding rpc_reply rpc_answered rpc_result
  rpc_reply-endpoint endpoint (failed error) = refl
  rpc_reply-endpoint endpoint (replied status (unreadable error)) = ground arith
  rpc_reply-endpoint endpoint (replied status (contents info)) = ground arith

-- The names of the results that pass a test.
Mem-filter_iff :
    (f : String → HealthCheckResult) (test : HealthCheckResult → Bool) (endpoints : List String)
    (endpoint : String)
    → ((e : String) → (f e).endpoint ≡ e)
    → Mem endpoint (map (λ r. r.endpoint) (filter test (map f endpoints)))
      ↔ (Mem endpoint endpoints × (test (f endpoint) ≡ true))
Mem-filter_iff f test [] endpoint named = (λ h. absurd h.lower, λ (h, t). absurd h.lower)
Mem-filter_iff f test (e ∷ endpoints) endpoint named =
    let (to, from) = Mem-filter_iff f test endpoints endpoint named in
    elim (Bool-cases (test (f e))) [
      | inl passes ↦ rw passes (
          rw (named e) (
            λ h. elim h [
              | inl same ↦ (inl same, rw same passes)
              | inr later ↦ let (m, t) = to later in (inr m, t)
            ],
            λ (h, t). elim h [ inl same ↦ inl same | inr later ↦ inr (from (later, t)) ],
          ))
      | inr fails ↦ rw fails (
        λ h. let (m, t) = to h in (inr m, t),
        λ (h, t). elim h [ inl same ↦ let gone = rw same at t in cc | inr later ↦ from (later, t) ],
      )
    ]

is_healthy_iff :
    (results : List HealthCheckResult) (result : HealthCheckResult)
    → height_of result ≤ highest_block_height results 0
    → (is_healthy Kind.rpc (highest_block_height results 0) result ≡ true) ↔ (
        (result.healthy ≡ true)
        × (0 < height_of result)
        × All (IsAtMost (height_of result + 100)) results)
unfolding is_healthy
is_healthy_iff results result below =
    let (to, from) = highest-le_iff results 0 (height_of result + 100) in
    (
      λ h. (ground arith, ground arith, (to (ground arith)).1),
      λ (h, positive, near). let close = from (omega arith, near) in ground arith,
    )

All-Mem :
    (f : String → HealthCheckResult) (b : ℕ) (endpoints : List String) (endpoint : String)
    → All (IsAtMost b) (map f endpoints)
    → Mem endpoint endpoints
    → height_of (f endpoint) ≤ b
All-Mem f b [] endpoint h m = absurd m.lower
All-Mem f b (e ∷ endpoints) endpoint (p, h) (inl same) = rw same p
All-Mem f b (e ∷ endpoints) endpoint (p, h) (inr later) = All-Mem f b endpoints endpoint h later

highest-bounds :
    (f : String → HealthCheckResult) (endpoints : List String) (endpoint : String)
    → Mem endpoint endpoints
    → height_of (f endpoint) ≤ highest_block_height (map f endpoints) 0
highest-bounds f endpoints endpoint m =
    let highest = highest_block_height (map f endpoints) 0 in
    let (to, from) = highest-le_iff (map f endpoints) 0 highest in
    All-Mem f highest endpoints endpoint (to (omega arith)).1 m

-- An RPC endpoint is listed exactly when it is one of those that were to be checked, serves at some
-- height, and no checked endpoint, healthy or not, reports a block more than 100 above that height.
pub check_endpoints_health-rpc_iff :
    (net : Network) (endpoints : List String) (endpoint : String)
    → Mem endpoint (check_endpoints_health net endpoints Kind.rpc) ↔ (
        Mem endpoint endpoints
        × (height : ℕ) × Serves net endpoint (net.abci_info (abci_url net endpoint)) height
        × All (IsAtMost (height + 100)) (map (check_rpc_health net) endpoints))
unfolding check_endpoints_health check_one check_rpc_health
check_endpoints_health-rpc_iff net endpoints endpoint =
    let results = map (check_rpc_health net) endpoints in
    let result = check_rpc_health net endpoint in
    let reply = net.abci_info (abci_url net endpoint) in
    let named = λ (e : String). rpc_reply-endpoint net e (net.abci_info (abci_url net e)) in
    let listed =
      Mem-filter_iff (check_rpc_health net) (is_healthy Kind.rpc (highest_block_height results 0))
        endpoints endpoint named in
    let reports = rpc_reply-Reports_iff net endpoint reply in
    let bound = highest-bounds (check_rpc_health net) endpoints endpoint in
    (
      λ h.
          let (m, t) = listed.0 h in
          let (good, positive, near) = (is_healthy_iff results result (bound m)).0 t in
          (m, height_of result, (reports (height_of result)).0 (good, refl, positive), near),
      λ (m, height, serves, near).
          let (good, same, positive) = (reports height).1 serves in
          listed.1
            (m, (is_healthy_iff results result (bound m)).1 (good, rw same positive, rw same near)),
    )
