-- ===== src/Quote/Shown.antt =====
-- What the hook of client_app/src/hooks/usePathfinderQuery.ts shows while calls are in flight.
use mathlib.Core.Path.{subst}
use spectra_portal.Base.{
  ℕ, suc, ◌+◌, ◌≤◌, ◌≡◌, refl, sym, ap, ◌∙◌, String, Bool, true, false, List, [], ◌∷◌, ◌++◌, Option,
  ◌==◌, arith, inl, inr, All, All-append, All-split, Bool-cases, Option-cases,
}
use spectra_portal.Quote.Hook.{
  PathfinderQueryParams, QueryState, Call, FetchOutcome, responded, threw, fetch_start,
  fetch_finish, guarded_request, settle_latest,
}
use spectra_portal.Quote.InFlight.{
  Session, asked, settled, Step, ask, settle, Reach, here, next, count,
}

count-append : (id : ℕ) (xs ys : List Call) → count id (xs ++ ys) ≡ count id xs + count id ys
count-append id [] ys = omega arith
count-append id (x ∷ xs) ys = omega (arith, count-append id xs ys)

abbrev pub IsBelow : ℕ → Call → Type 0
IsBelow n call = call.id ≤ n

abbrev pub loading_count : Bool → ℕ
loading_count true = 1
loading_count false = 0

loading_count_le : (b : Bool) → loading_count b ≤ 1
loading_count_le true = omega arith
loading_count_le false = omega arith

-- The hook is loading exactly while its latest call is in flight, once.
pub record IsCoherent (w : Session) : Type 0 where
  pub bounded : All (IsBelow w.state.request_id) w.in_flight
  pub latest : count w.state.request_id w.in_flight ≡ loading_count w.state.is_loading

All-IsBelow-suc : (n : ℕ) (calls : List Call) → All (IsBelow n) calls → All (IsBelow (suc n)) calls
All-IsBelow-suc n [] h = tt
All-IsBelow-suc n (c ∷ calls) (p, h) = (omega arith, All-IsBelow-suc n calls h)

count-fresh : (n : ℕ) (calls : List Call) → All (IsBelow n) calls → count (suc n) calls ≡ 0
count-fresh n [] h = refl
count-fresh n (c ∷ calls) (p, h) = ground (arith, count-fresh n calls h)

asked-IsCoherent :
    (is_positive : String → Bool) (params : Option PathfinderQueryParams) (enabled : Bool)
    (amount : String) (w : Session)
    → IsCoherent w
    → IsCoherent (asked is_positive params enabled amount w)
unfolding asked fetch_start
asked-IsCoherent is_positive params enabled amount w i =
    elim (Option-cases (guarded_request is_positive params enabled amount)) [
      | inl stopped ↦
          rw (stopped, fetch_start, asked) (record { bounded = i.bounded; latest = i.latest })
      | inr (request, sent) ↦
          rw (sent, fetch_start, asked)
            (record {
              bounded = (omega arith, All-IsBelow-suc w.state.request_id w.in_flight i.bounded);
              latest = ground (arith, count-fresh w.state.request_id w.in_flight i.bounded);
            })
    ]

settle_latest-loading :
    (outcome : FetchOutcome) (now : ℕ) (s : QueryState)
    → ((settle_latest outcome now s).0.is_loading ≡ false)
      × ((settle_latest outcome now s).0.request_id ≡ s.request_id)
unfolding settle_latest
settle_latest-loading (responded response) now s = elim (Bool-cases response.success) [
  | inl ok ↦ rw ok (refl, refl)
  | inr failed ↦ rw failed (refl, refl)
]
settle_latest-loading (threw message) now s = (refl, refl)

settled-IsCoherent :
    (before after : List Call) (call : Call) (outcome : FetchOutcome) (now : ℕ) (w : Session)
    → w.in_flight ≡ before ++ call ∷ after
    → IsCoherent w
    → IsCoherent (settled call (before ++ after) outcome now w)
unfolding settled fetch_finish
settled-IsCoherent before after call outcome now w split i =
    let n = w.state.request_id in
    let (below, (_, above)) =
      All-split (IsBelow n) before (call ∷ after) (subst (All (IsBelow n)) split i.bounded) in
    let rest = All-append (IsBelow n) before after below above in
    let all = count-append n before (call ∷ after) in
    let some_ = count-append n before after in
    let total = ap (count n) (sym split) ∙ i.latest in
    let (loaded, same) = settle_latest-loading outcome now w.state in
    elim (Bool-cases (call.id == n)) [
      | inl newest ↦
          rw (newest, fetch_finish, settled)
            (record {
              bounded = rw same rest;
              latest =
                  rw (same, loaded)
                    (ground (arith, all, some_, total, loading_count_le w.state.is_loading));
            })
      | inr older ↦
          rw (older, fetch_finish, settled)
            (record { bounded = rest; latest = ground (arith, all, some_, total) })
    ]

Step-IsCoherent :
    {is_positive : String → Bool} {v w : Session}
    → Step is_positive v w
    → IsCoherent v
    → IsCoherent w
Step-IsCoherent (ask params enabled amount v) i = asked-IsCoherent _ params enabled amount v i
Step-IsCoherent (settle before after call outcome now v split) i =
    settled-IsCoherent before after call outcome now v split i

-- In every session, the hook shows that it is loading exactly while its latest call is in flight,
-- which it is once; no call in flight has an id above the latest.
pub Reach-IsCoherent :
    {is_positive : String → Bool} {w : Session} → Reach is_positive w → IsCoherent w
Reach-IsCoherent here = record { bounded = tt; latest = refl }
Reach-IsCoherent (next r step) = Step-IsCoherent step (Reach-IsCoherent r)
