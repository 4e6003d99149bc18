-- ===== src/Quote/Backed.antt =====
-- Where the quote comes from that the hook of client_app/src/hooks/usePathfinderQuery.ts shows.
use mathlib.Core.Path.{subst}
use spectra_portal.Base.{
  ℕ, ◌≡◌, refl, String, Bool, true, List, ◌∷◌, ◌++◌, Option, none, some, ◌==◌, arith, ◌⊎◌, inl, inr,
  ◌&&◌, All, All-append, All-split, Mem, Bool-cases, Option-cases, is_truthy, eq_of_some,
}
use spectra_portal.Pathfinder.{FindPathRequest, FindPathResponse}
use spectra_portal.Quote.Hook.{
  PathfinderQueryParams, Call, FetchOutcome, responded, threw, fetch_start, fetch_finish,
  guarded_request, request_of, has_fields, settle_latest,
}
use spectra_portal.Quote.InFlight.{
  Session, asked, settled, Step, ask, settle, Reach, here, next, and_answer,
}

-- A request that may be sent: it names both chains, the token and both addresses, and its amount is
-- positive.
abbrev pub is_askable : (String → Bool) → FindPathRequest → Bool
is_askable is_positive request =
    is_truthy request.chain_from
    && (is_truthy request.chain_to
        && (is_truthy request.token_from_denom
            && (is_truthy request.sender_address
                && (is_truthy request.receiver_address && is_positive request.amount_in))))

module _ (is_positive : String → Bool) where
  -- A call in flight.
  abbrev IsAsked : Call → Type 0
  IsAsked call = is_askable is_positive call.request ≡ true

  -- A quote that is shown: the successful response to a call that was made, which is the latest one
  -- unless the hook is loading.
  pub record IsAnswer (w : Session) (response : FindPathResponse) : Type 0 where
    pub call : Call
    pub answered : Mem (call, response) w.answers
    pub success : response.success ≡ true
    pub asked_ : is_askable is_positive call.request ≡ true
    pub latest : (w.state.is_loading ≡ true) ⊎ (call.id ≡ w.state.request_id)

  abbrev Backs : Session → Option FindPathResponse → Type 0
  Backs w none = Unit
  Backs w (some response) = IsAnswer w response

  record IsBacked (w : Session) : Type 0 where
    asked_ : All IsAsked w.in_flight
    quote : Backs w w.state.data_

  guarded_request-is_askable :
      (params : Option PathfinderQueryParams) (enabled : Bool) (amount : String)
      {request : FindPathRequest}
      → guarded_request is_positive params enabled amount ≡ some request
      → is_askable is_positive request ≡ true
  unfolding guarded_request request_of
  guarded_request-is_askable none enabled amount e = cc
  guarded_request-is_askable (some params) enabled amount e =
      elim (Bool-cases (enabled && (has_fields params && is_positive amount))) [
        | inl ok ↦ rw (← eq_of_some (rw ok at e)) (ground arith)
        | inr stopped ↦ let gone = rw stopped at e in cc
      ]

  abbrev IsLatest : Session → Call → Type 0
  IsLatest w call = (w.state.is_loading ≡ true) ⊎ (call.id ≡ w.state.request_id)

  -- A quote stays backed in a session with the same answers, and perhaps more.
  Backs-kept :
      (v w : Session) (quote : Option FindPathResponse)
      → ((call : Call) (r : FindPathResponse) → Mem (call, r) v.answers → Mem (call, r) w.answers)
      → ((call : Call) → IsLatest v call → IsLatest w call)
      → Backs v quote
      → Backs w quote
  Backs-kept v w none kept still b = tt
  Backs-kept v w (some response) kept still b = record {
    call = b.call;
    answered = kept b.call response b.answered;
    success = b.success;
    asked_ = b.asked_;
    latest = still b.call b.latest;
  }

  asked-IsBacked :
      (params : Option PathfinderQueryParams) (enabled : Bool) (amount : String) (w : Session)
      → IsBacked w
      → IsBacked (asked is_positive params enabled amount w)
  unfolding asked fetch_start
  asked-IsBacked params enabled amount w i =
      elim (Option-cases (guarded_request is_positive params enabled amount)) [
        | inl stopped ↦ rw (stopped, fetch_start, asked) (record { asked_ = i.asked_; quote = tt })
        | inr (request, sent) ↦
            rw (sent, fetch_start, asked)
              (record {
                asked_ = (guarded_request-is_askable params enabled amount sent, i.asked_);
                quote = Backs-kept w _ w.state.data_ (λ call r m. m) (λ call l. inl refl) i.quote;
              })
      ]

  latest-IsBacked :
      (call : Call) (others : List Call) (outcome : FetchOutcome) (now : ℕ) (w : Session)
      → IsAsked call
      → All IsAsked others
      → call.id ≡ w.state.request_id
      → IsBacked (record {
        state = (settle_latest outcome now w.state).0;
        in_flight = others;
        answers = and_answer call outcome w.answers;
      })
  unfolding settle_latest
  latest-IsBacked call others (responded response) now w one rest newest =
      elim (Bool-cases response.success) [
        | inl ok ↦
            simp (ok, settle_latest)
              (record {
                asked_ = rest;
                quote = record {
                  call = call;
                  answered = inl refl;
                  success = ok;
                  asked_ = one;
                  latest = inr newest;
                };
              })
        | inr failed ↦ simp (failed, settle_latest) (record { asked_ = rest; quote = tt })
      ]
  latest-IsBacked call others (threw message) now w one rest newest = record {
    asked_ = rest;
    quote = tt;
  }

  and_answer-Mem :
      (call : Call) (outcome : FetchOutcome) (answers : List (Call × FindPathResponse)) (c : Call)
      (r : FindPathResponse)
      → Mem (c, r) answers
      → Mem (c, r) (and_answer call outcome answers)
  and_answer-Mem call (responded response) answers c r m = inr m
  and_answer-Mem call (threw message) answers c r m = m

  settled-IsBacked :
      (before after : List Call) (call : Call) (outcome : FetchOutcome) (now : ℕ) (w : Session)
      → w.in_flight ≡ before ++ call ∷ after
      → IsBacked w
      → IsBacked (settled call (before ++ after) outcome now w)
  unfolding settled fetch_finish
  settled-IsBacked before after call outcome now w split i =
      let (below, (one, above)) =
        All-split IsAsked before (call ∷ after) (subst (All IsAsked) split i.asked_) in
      let rest = All-append IsAsked before after below above in
      elim (Bool-cases (call.id == w.state.request_id)) [
        | inl newest ↦
            rw (newest, fetch_finish, settled)
              (latest-IsBacked call (before ++ after) outcome now w one rest (ground arith))
        | inr older ↦
            rw (older, fetch_finish, settled)
              (record {
                asked_ = rest;
                quote =
                    Backs-kept w _ w.state.data_ (and_answer-Mem call outcome w.answers) (λ c l. l)
                      i.quote;
              })
      ]

  Step-IsBacked : {v w : Session} → Step is_positive v w → IsBacked v → IsBacked w
  Step-IsBacked (ask params enabled amount v) i = asked-IsBacked params enabled amount v i
  Step-IsBacked (settle before after call outcome now v split) i =
      settled-IsBacked before after call outcome now v split i

  Reach-IsBacked : {w : Session} → Reach is_positive w → IsBacked w
  Reach-IsBacked here = record { asked_ = tt; quote = tt }
  Reach-IsBacked (next r step) = Step-IsBacked step (Reach-IsBacked r)

  -- A quote that the hook shows, in any session, is a success, the response to a call that the hook
  -- made with both chains, the token, both addresses and a positive amount; unless the hook is
  -- loading, it is the response to the latest call.
  pub Reach-IsAnswer :
      {w : Session} {response : FindPathResponse}
      → Reach is_positive w
      → w.state.data_ ≡ some response
      → IsAnswer w response
  Reach-IsAnswer {w} r shown = subst (Backs w) shown (Reach-IsBacked r).quote
