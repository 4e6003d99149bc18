-- ===== src/Task/Provider.antt =====
-- `executeTransfer` and `retryStep` of client_app/src/context/taskProvider.tsx.
use mathlib.Core.Option
use spectra_portal.Base.{
  ℕ, ◌-◌, String, Bool, true, false, List, [], ◌∷◌, Option, none, some, if◌then◌else◌, ltb, str_or,
  opt_or, length, get_elem?, get_last?, take, drop, ◌&&◌,
}
use spectra_portal.Pathfinder
use spectra_portal.Pathfinder.{
  FindPathResponse, BrokerSwapRoute, no_route, direct, indirect, broker_swap,
}
use spectra_portal.Config.{ClientConfig}
use spectra_portal.Transfer.{
  TransferMode, TransferState, TransferStep, ClientToken, fail_transfer, start_executing,
  complete_transfer, resume_transfer, generate_steps_from_response, extract_chain_path,
}
use spectra_portal.IndexDb.{
  Status, Transaction, add_transaction_to_db, resolved, rejected, TransactionUpdate,
}
use spectra_portal.Amounts.Convert.{human_to_base_units}
use spectra_portal.Task.Platform.{
  Platform, TaskExecutionResult, Outcome, done, threw, stray, World, M,
}
use spectra_portal.Task.Step.{refusal}
use spectra_portal.Task.Run.{
  ◌>>=◌, ◌>>◌, return, dispatch, update_db, call, no_update, execute_steps_with_tracking,
}

unfoldable pub broker_output : BrokerSwapRoute → String
broker_output route = elim (get_last? route.outbound_legs) [
  | some leg ↦ leg.amount
  | none ↦ str_or (opt_or (Option.map (λ s. s.amount_out) route.swap) "") "0"
]

unfoldable pub get_expected_output : FindPathResponse → String
unfolding broker_output
get_expected_output response =
    if response.success
    then elim response.route [
      | no_route ↦ "0"
      | direct transfer ↦ str_or (opt_or (Option.map (λ leg. leg.amount) transfer) "") "0"
      | indirect route ↦
          str_or (opt_or (Option.map (λ leg. leg.amount) (get_last? route.legs)) "") "0"
      | broker_swap route ↦ broker_output route
    ]
    else "0"

abbrev is_broker_swap : Pathfinder.Route → Bool
is_broker_swap (Pathfinder.Route.broker_swap route) = true
is_broker_swap _ = false

-- `fromToken?.denom || ""`
abbrev denom_of : Option ClientToken → String
denom_of none = ""
denom_of (some token) = token.denom

abbrev decimals_of : Option ClientToken → ℕ
decimals_of none = 6
decimals_of (some token) = token.decimals

-- `chainPath.length > 2 ? chainPath.slice(1, -1) : null`
abbrev trajectory_of : List String → Option (List String)
trajectory_of path =
    if ltb 2 (length path) then some (take (length path - 2) (drop 1 path)) else none

module _ (p : Platform) where
  unfoldable pub add_db : Transaction → M p ℕ
  add_db transaction w =
      let (settled, store) = add_transaction_to_db p.db transaction w.store in
      elim settled [
        | resolved id ↦ (done id, record w { store = store })
        | rejected error ↦ (threw error, record w { store = store })
      ]

  unfoldable pub transaction_of :
      TransferState
      → FindPathResponse
      → TransferMode
      → List TransferStep
      → (time : String) → Transaction
  unfolding get_expected_output
  transaction_of state response mode steps time = record {
    timestamp = time;
    from_chain_id = state.from_chain_id;
    from_chain_address = state.sender_address;
    to_chain_id = state.to_chain_id;
    to_chain_address = state.receiver_address;
    token_in = denom_of state.from_token;
    token_out = str_or (denom_of state.to_token) (denom_of state.from_token);
    amount_in = human_to_base_units p.big_int state.amount (decimals_of state.from_token);
    amount_out = get_expected_output response;
    type_of_transfer = mode;
    status = Status.in_progress;
    total_steps = length steps;
    current_step = 0;
    trajectory = trajectory_of (extract_chain_path response);
    error = none;
    swap_involved = is_broker_swap response.route;
    multi_hop_progress = none;
    multi_hop_total_chains = none;
  }

  abbrev pub success_update : List TransferStep → ℕ → TransactionUpdate
  success_update steps id = record (no_update id) {
    status = some Status.success;
    current_step = some (length steps);
  }

  -- What follows a run: the transfer is complete if the run succeeded.
  unfoldable pub conclude_transfer :
      Option ℕ → List TransferStep → TaskExecutionResult → M p (Unit {0})
  unfolding dispatch update_db
  conclude_transfer db_record_id steps result =
      if result.success
      then (do update_db db_record_id (success_update steps); dispatch complete_transfer)
      else return tt

  unfoldable pub start_transfer :
      TransferState
      → FindPathResponse
      → TransferMode
      → ClientConfig
      → List TransferStep
      → M p (Unit {0})
  unfolding call add_db dispatch conclude_transfer execute_steps_with_tracking
  start_transfer state response mode config steps = do
    time ← call p.iso_time
    id ← add_db (transaction_of state response mode steps time)
    dispatch (start_executing steps id (extract_chain_path response))
    result ←
        execute_steps_with_tracking p state config mode (extract_chain_path response) (some id)
          steps 0
    conclude_transfer (some id) steps result

  -- The generated steps, or none where their generation threw.
  unfoldable pub start_steps :
      TransferState
      → FindPathResponse
      → TransferMode
      → ClientConfig
      → Option (List TransferStep)
      → M p (Unit {0})
  unfolding start_transfer dispatch
  start_steps state response mode config none w = (threw p.type_error, w)
  start_steps state response mode config (some []) w =
      dispatch (fail_transfer "No steps generated from route") w
  start_steps state response mode config (some (step ∷ rest)) w =
      start_transfer state response mode config (step ∷ rest) w

  -- The body of the `try`.
  unfoldable pub attempt :
      TransferState → FindPathResponse → TransferMode → ClientConfig → M p (Unit {0})
  unfolding start_steps
  attempt state response mode config =
      start_steps state response mode config (generate_steps_from_response response mode)

  -- The `catch`.
  unfoldable pub recover : Outcome (Unit {0}) × World p → Outcome (Unit {0}) × World p
  unfolding dispatch
  recover (done a, w) = (done a, w)
  recover (threw error, w) = dispatch (fail_transfer error) w
  recover (stray, w) = (stray, w)

  abbrev pub locked : Bool → World p → World p
  locked b w = record w { execution_lock = b; is_executing = b }

  abbrev pub release : Outcome (Unit {0}) × World p → Outcome (Unit {0}) × World p
  release (outcome, w) = (outcome, locked false w)

  unfoldable pub execute_transfer : FindPathResponse → TransferMode → ClientConfig → M p (Unit {0})
  unfolding attempt recover dispatch
  execute_transfer response mode config w =
      if w.is_db_ready && response.success
      then if w.execution_lock
        then (done tt, w)
        else release (recover (attempt w.transfer response mode config (locked true w)))
      else dispatch (fail_transfer "Invalid transfer state") w

  unfoldable pub resume : TransferState → ℕ → M p (Unit {0})
  unfolding dispatch
  resume state index = elim state.db_record_id [
    | none ↦ return tt
    | some id ↦ dispatch (resume_transfer state.steps index id state.chain_path)
  ]

  abbrev reopened_update : ℕ → TransactionUpdate
  reopened_update id = record (no_update id) { status = some Status.in_progress; error = some none }

  abbrev set_executing : Bool → M p (Unit {0})
  set_executing b w = (done tt, record w { is_executing = b })

  unfoldable pub retry : TransferState → ℕ → ClientConfig → M p TaskExecutionResult
  unfolding resume update_db conclude_transfer execute_steps_with_tracking
  retry state index config = do
    resume state index
    update_db state.db_record_id reopened_update
    set_executing true
    result ←
        execute_steps_with_tracking p state config state.mode state.chain_path state.db_record_id
          state.steps index
    conclude_transfer state.db_record_id state.steps result
    return result

  -- The `catch` of a retry, whose own update may throw again.
  unfoldable pub recover_retry :
      Option ℕ → Outcome TaskExecutionResult × World p → Outcome TaskExecutionResult × World p
  unfolding dispatch update_db
  recover_retry db_record_id (done result, w) = (done result, w)
  recover_retry db_record_id (threw error, w) =
      (do
        dispatch (fail_transfer error)
        update_db db_record_id
            (λ id. record (no_update id) { status = some Status.failed; error = some (some error) })
        return (refusal error none))
        w
  recover_retry db_record_id (stray, w) = (stray, w)

  abbrev idle_again : Outcome TaskExecutionResult × World p → Outcome TaskExecutionResult × World p
  idle_again (outcome, w) = (outcome, record w { is_executing = false })

  unfoldable pub retry_step : ℕ → ClientConfig → M p TaskExecutionResult
  unfolding retry recover_retry
  retry_step index config w =
      if w.is_db_ready
      then elim (get_elem? w.transfer.steps index) [
        | none ↦ (done (refusal "Step not found" none), w)
        | some step ↦
            idle_again (recover_retry w.transfer.db_record_id (retry w.transfer index config w))
      ]
      else (done (refusal "Database not ready" none), w)
