-- ===== src/Task/Run.antt =====
-- `executeStepsWithTracking` of client_app/src/context/taskProvider.tsx. Its database is there, and
-- an update that is not awaited is done at once.
use spectra_portal.Base.{
  ℕ, suc, ◌+◌, ◌*◌, ◌/◌, String, Bool, true, false, List, [], ◌∷◌, Option, none, some,
  if◌then◌else◌, ltb, str_or, opt_or, or_else, length, drop, ◌&&◌, is_truthy,
}
use spectra_portal.Config.{ClientConfig}
use spectra_portal.Transfer.{
  TransferMode, smart, manual, TransferState, TransferStep, StepType, swap, multi_hop,
  wasm_execution, multi_hop_swap, StepStatus, StepPatch, TransferAction, update_step, advance_step,
  fail_transfer, set_multi_hop_progress, transfer_reducer,
}
use spectra_portal.IndexDb.{
  Status, TransactionUpdate, update_transaction_status, resolved, rejected,
}
use spectra_portal.Tracking.{
  IbcTrackingResult, default_options, track_ibc_transfer, track_smart_transfer_multi_hop,
}
use spectra_portal.Task.Platform.{Platform, TaskExecutionResult, done, threw, stray, World, M}
use spectra_portal.Task.Step.{execute_step, find_chain, refusal}

abbrev pub is_completed : StepStatus → Bool
is_completed StepStatus.completed = true
is_completed _ = false

abbrev pub is_ibc_step : StepType → Bool
is_ibc_step swap = false
is_ibc_step _ = true

abbrev pub is_forwarded : StepType → Bool
is_forwarded multi_hop_swap = true
is_forwarded multi_hop = true
is_forwarded wasm_execution = true
is_forwarded _ = false

abbrev pub in_smart_mode : TransferMode → Bool
in_smart_mode smart = true
in_smart_mode manual = false

abbrev pub is_multi_hop_step : TransferMode → StepType → Bool
is_multi_hop_step mode type = is_forwarded type && in_smart_mode mode

-- `Math.round((completed / total) * 100)`, rounded half up.
abbrev pub percentage : ℕ → ℕ → ℕ
percentage completed total = if ltb 0 total then (200 * completed + total) / (2 * total) else 0

abbrev pub status_patch : StepStatus → Option (Option String) → Option (Option String) → StepPatch
status_patch status tx_hash error = record {
  status = some status;
  tx_hash = tx_hash;
  error = error;
}

abbrev pub no_update : ℕ → TransactionUpdate
no_update id = record {
  id = id;
  status = none;
  current_step = none;
  error = none;
  swap_involved = none;
  multi_hop_progress = none;
  multi_hop_total_chains = none;
}

abbrev pub success_result : TaskExecutionResult
success_result = record { success = true; tx_hash = none; error = none; is_retryable = none }

module _ {p : Platform} where
  infixl 5 ◌>>=◌
  unfoldable pub ◌>>=◌ : {A B : Type 0} → M p A → (A → M p B) → M p B
  ◌>>=◌ m k w =
      let (result, w') = m w in
      elim result [ done a ↦ k a w' | threw error ↦ (threw error, w') | stray ↦ (stray, w') ]

  infixl 5 ◌>>◌
  abbrev pub ◌>>◌ : {A B : Type 0} → M p A → M p B → M p B
  m >> n = m >>= (λ _. n)

  abbrev pub return : {A : Type 0} → A → M p A
  return a w = (done a, w)

  unfoldable pub dispatch : TransferAction → M p (Unit {0})
  dispatch action w = elim (transfer_reducer w.transfer action) [
    | none ↦ (stray, w)
    | some transfer ↦ (done tt, record w { transfer = transfer })
  ]

  -- `if (dbRecordId != null) await UpdateTransactionStatus(db, ...)`
  unfoldable pub update_db : Option ℕ → (ℕ → TransactionUpdate) → M p (Unit {0})
  update_db none update w = (done tt, w)
  update_db (some id) update w =
      let (settled, store) = update_transaction_status p.db (update id) w.store in
      elim settled [
        | resolved _ ↦ (done tt, record w { store = store })
        | rejected error ↦ (threw error, record w { store = store })
      ]

  -- A call that only acts on the chains.
  unfoldable pub call : {A : Type 0} → (p.api.Net → A × p.api.Net) → M p A
  call f w = let (a, net) = f w.net in (done a, record w { net = net })

module _ (p : Platform) (state : TransferState) (config : ClientConfig) (mode : TransferMode)
    (chain_path : List String) (db_record_id : Option ℕ) where
  abbrev failed_update : String → ℕ → TransactionUpdate
  failed_update error id = record (no_update id) {
    status = some Status.failed;
    error = some (some error);
  }

  -- After a tracking: none goes on, a result is returned.
  unfoldable pub conclude : IbcTrackingResult → M p (Option TaskExecutionResult)
  unfolding dispatch update_db
  conclude result =
      if result.success
      then return none
      else let error = str_or (opt_or result.error "") "IBC tracking inconclusive" in
        do
          dispatch (fail_transfer error)
          update_db db_record_id (failed_update error)
          return (some (refusal error none))

  unfoldable pub track_single : ℕ → TransferStep → String → M p (Option TaskExecutionResult)
  unfolding dispatch call conclude
  track_single i step hash = do
    dispatch (update_step i (status_patch StepStatus.confirming (some (some hash)) none))
    elim (find_chain p state config step.to_chain) [
      | none ↦ return none
      | some dest ↦ do
        result ←
            call (track_ibc_transfer p.api default_options (opt_or step.from_chain "") hash dest)
        conclude result
    ]

  -- `onHopComplete`; a rejected update is only logged.
  abbrev pub on_hop : (completed total : ℕ) → World p → World p
  on_hop completed total w =
      let percent = percentage completed total in
      let saved =
        update_db db_record_id
          (λ id. record (no_update id) {
            multi_hop_progress = some (some percent);
            multi_hop_total_chains = some (some total);
          })
          w in
      (dispatch {p = p} (set_multi_hop_progress (some percent) (some (some total))) saved.1).1

  unfoldable pub follow : TransferStep → String → List String → M p IbcTrackingResult
  unfolding dispatch update_db
  follow step hash path w =
      let (result, net, w') =
        track_smart_transfer_multi_hop p.api default_options on_hop (opt_or step.from_chain "") hash
          path config.chains w.net w in
      (done result, record w' { net = net })

  abbrev pub path_of : TransferStep → List String
  path_of step = or_else step.transfer_order chain_path

  unfoldable pub track_forwarded : ℕ → TransferStep → String → M p (Option TaskExecutionResult)
  unfolding dispatch update_db follow conclude
  track_forwarded i step hash =
      let path = path_of step in
      let total = length path in
      do
        dispatch (update_step i (status_patch StepStatus.confirming (some (some hash)) none))
        if ltb total 2 then return none else do
          dispatch (set_multi_hop_progress (some 0) (some (some total)))
          update_db db_record_id (λ id. record (no_update id) {
            multi_hop_progress = some (some 0);
            multi_hop_total_chains = some (some total);
          })
          result ← follow step hash path
          dispatch (set_multi_hop_progress none none)
          conclude result

  unfoldable pub track_step : ℕ → TransferStep → String → M p (Option TaskExecutionResult)
  unfolding track_single track_forwarded
  track_step i step hash =
      if is_multi_hop_step mode step.type
      then track_forwarded i step hash
      else if is_ibc_step step.type
      then track_single i step hash
      else return none

  abbrev pub is_last : List TransferStep → Bool
  is_last [] = true
  is_last (_ ∷ _) = false

  unfoldable pub complete_step : ℕ → String → (last : Bool) → M p (Unit {0})
  unfolding dispatch update_db
  complete_step i hash last = do
    dispatch (update_step i (status_patch StepStatus.completed (some (some hash)) none))
    update_db db_record_id (λ id. record (no_update id) { current_step = some (suc i) })
    if last then return tt else dispatch advance_step

  unfoldable pub fail_step : ℕ → TaskExecutionResult → M p (Option TaskExecutionResult)
  unfolding dispatch update_db
  fail_step i result = do
    dispatch (update_step i (status_patch StepStatus.failed none (some result.error)))
    update_db db_record_id (failed_update (str_or (opt_or result.error "") "Unknown error"))
    dispatch (fail_transfer (str_or (opt_or result.error "") "Step execution failed"))
    return (
        some (record {
          success = false;
          tx_hash = none;
          error = result.error;
          is_retryable = result.is_retryable;
        }))

  -- The hash of a step that was sent, where it has one.
  abbrev pub sent_hash : TaskExecutionResult → Option String
  sent_hash result =
      if result.success && is_truthy (opt_or result.tx_hash "") then result.tx_hash else none

  -- After the tracking: an early return, or the step is completed.
  unfoldable pub finish_step :
      ℕ → String → (last : Bool) → Option TaskExecutionResult → M p (Option TaskExecutionResult)
  unfolding complete_step
  finish_step i hash last (some failed) = return (some failed)
  finish_step i hash last none = do complete_step i hash last; return none

  unfoldable pub settle_step :
      ℕ → TransferStep → (last : Bool) → TaskExecutionResult → M p (Option TaskExecutionResult)
  unfolding track_step finish_step fail_step
  settle_step i step last result = elim (sent_hash result) [
    | none ↦ fail_step i result
    | some hash ↦ do stop ← track_step i step hash; finish_step i hash last stop
  ]

  unfoldable pub run_step : ℕ → TransferStep → (last : Bool) → M p (Option TaskExecutionResult)
  unfolding dispatch call settle_step execute_step
  run_step i step last = do
    dispatch (update_step i (status_patch StepStatus.signing none none))
    result ← call (execute_step p state config step)
    settle_step i step last result

  unfoldable pub go_on :
      M p TaskExecutionResult → Option TaskExecutionResult → M p TaskExecutionResult
  go_on later (some failed) = return failed
  go_on later none = later

  -- The loop over the steps from the index `i` on.
  unfoldable pub execute_steps : ℕ → List TransferStep → M p TaskExecutionResult
  unfolding run_step go_on
  execute_steps i [] = return success_result
  execute_steps i (step ∷ rest) =
      let later = execute_steps (suc i) rest in
      if is_completed step.status
      then later
      else do stop ← run_step i step (is_last rest); go_on later stop

  unfoldable pub execute_steps_with_tracking : List TransferStep → ℕ → M p TaskExecutionResult
  unfolding execute_steps
  execute_steps_with_tracking steps start w =
      if w.is_db_ready
      then execute_steps start (drop start steps) w
      else (done (refusal "Database not ready" none), w)
