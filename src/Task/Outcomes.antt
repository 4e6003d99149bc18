-- ===== src/Task/Outcomes.antt =====
-- How a call of `executeTransfer` ends (client_app/src/context/taskProvider.tsx).
use spectra_portal.Base.{
  ℕ, ◌<◌, ◌≡◌, refl, sym, ap, ◌∙◌, arith, ◌⊎◌, inl, inr, String, Bool, true, false, List, [], ◌∷◌,
  Option, none, some, Bool-cases, length, get_elem?, ◌&&◌, if◌then◌else◌,
}
use spectra_portal.Pathfinder.{FindPathResponse}
use spectra_portal.Config.{ClientConfig}
use spectra_portal.Transfer.{
  TransferMode, TransferPhase, TransferState, TransferStep, StepStatus, start_executing,
  complete_transfer, transfer_reducer, generate_steps_from_response, extract_chain_path,
}
use spectra_portal.IndexDb.{Transaction, Settled, resolved, rejected, add_transaction_to_db}
use spectra_portal.Task.Platform.{Platform, TaskExecutionResult, Outcome, done, threw, stray, World}
use spectra_portal.Task.Run.{dispatch, call}
use spectra_portal.Task.Provider.{
  add_db, transaction_of, success_update, conclude_transfer, start_transfer, start_steps, recover,
  release, locked, execute_transfer,
}
use spectra_portal.Task.Ensures.{
  Ensures, bind-Ensures, map-Ensures, HasFailed, dispatch-fail_transfer, update_db-transfer,
}
use spectra_portal.Task.Runs.{execute_steps_with_tracking-Completes, Completes}

if-cases :
    {A : Type 0} (P : A → Type 0) (b : Bool) {x y : A}
    → (b ≡ true → P x)
    → (b ≡ false → P y)
    → P (if b then x else y)
if-cases P true on_true on_false = on_true refl
if-cases P false on_true on_false = on_false refl

if_true : {A : Type 0} (b : Bool) (x y : A) → b ≡ true → (if b then x else y) ≡ x
if_true true x y e = refl
if_true false x y e = cc

module _ (p : Platform) where
  settled-ready :
      (w : World p) (s : Settled ℕ) (store : p.db.Store)
      → Ensures {p = p} {A = ℕ}
          (λ _ w'. w'.is_db_ready ≡ w.is_db_ready)
          (elim s [
            | resolved id ↦ (done id, record w { store = store })
            | rejected error ↦ (threw error, record w { store = store })
          ])
  settled-ready w (resolved id) store = record { holds = refl }
  settled-ready w (rejected e) store = record { holds = tt }

  add_db-ready :
      (t : Transaction) (w : World p)
      → Ensures (λ _ w'. w'.is_db_ready ≡ w.is_db_ready) (add_db p t w)
  unfolding add_db
  add_db-ready t w =
      let (settled, store) = add_transaction_to_db p.db t w.store in settled-ready w settled store

  call-ready :
      {A : Type 0} (f : p.api.Net → A × p.api.Net) (w : World p)
      → Ensures (λ _ w'. w'.is_db_ready ≡ w.is_db_ready) (call {p = p} f w)
  unfolding call
  call-ready f w = record { holds = refl }

  started :
      (steps : List TransferStep) (id : ℕ) (path : List String) (w : World p)
      → Ensures
          (λ _ w'. (w'.transfer.steps ≡ steps) × (w'.is_db_ready ≡ w.is_db_ready))
          (dispatch {p = p} (start_executing steps id path) w)
  unfolding dispatch transfer_reducer
  started steps id path w = record { holds = (refl, refl) }

  completed :
      (w : World p)
      → Ensures
          (λ _ w'.
            (w'.transfer.steps ≡ w.transfer.steps) × (w'.transfer.phase ≡ TransferPhase.completed))
          (dispatch {p = p} complete_transfer w)
  unfolding dispatch transfer_reducer
  completed w = record { holds = (refl, refl) }

  -- The step at `i` is completed.
  abbrev pub IsStepCompleted : World p → ℕ → Type 0
  IsStepCompleted w i =
      (step : TransferStep) × (get_elem? w.transfer.steps i ≡ some step)
      × (step.status ≡ StepStatus.completed)

  module _ (response : FindPathResponse) (mode : TransferMode) (config : ClientConfig) where
    -- The transfer is completed, with each of the generated steps, or it has failed with an error.
    abbrev pub HasEnded : World p → Type 0
    HasEnded w =
        ((w.transfer.phase ≡ TransferPhase.completed)
          × ((steps : List TransferStep) × (generate_steps_from_response response mode ≡ some steps)
              × ((j : ℕ) → j < length steps → IsStepCompleted w j)))
        ⊎ HasFailed w

    conclude_transfer-HasEnded :
        (state : TransferState) (path : List String) (id : ℕ) (steps : List TransferStep)
        (result : TaskExecutionResult) (w : World p)
        → generate_steps_from_response response mode ≡ some steps
        → Completes p state config mode path (some id) steps 0 result w
        → Ensures (λ _ w'. HasEnded w') (conclude_transfer p (some id) steps result w)
    unfolding conclude_transfer
    conclude_transfer-HasEnded state path id steps result w generated (succeeds, fails) =
        elim (Bool-cases result.success) [
          | inr bad ↦ rw (bad, conclude_transfer) (record { holds = inr (fails bad) })
          | inl ok ↦
              rw (ok, conclude_transfer)
                (bind-Ensures _ _ w (update_db-transfer (some id) (success_update p steps) w)
                  (λ _ w1 same1. map-Ensures _ (completed w1) (λ _ w2 (same2, phase). inl (
                    phase,
                    (
                      steps,
                      generated,
                      λ j below.
                          let (step, is, done_step) = succeeds ok j (omega arith) below in
                          (
                            step,
                            ap (λ xs. get_elem? xs j) (same2 ∙ ap (λ t. t.steps) same1) ∙ is,
                            done_step,
                          ),
                    ),
                  ))))
        ]

    start_transfer-HasEnded :
        (state : TransferState) (steps : List TransferStep) (w : World p)
        → generate_steps_from_response response mode ≡ some steps
        → w.is_db_ready ≡ true
        → Ensures (λ _ w'. HasEnded w') (start_transfer p state response mode config steps w)
    unfolding start_transfer
    start_transfer-HasEnded state steps w generated ready =
        bind-Ensures _ _ w (call-ready p.iso_time w) (λ time w1 ready1.
          bind-Ensures _ _ w1 (add_db-ready (transaction_of p state response mode steps time) w1)
            (λ id w2 ready2.
              bind-Ensures _ _ w2 (started steps id (extract_chain_path response) w2)
                (λ _ w3 (same3, ready3).
                  bind-Ensures _ _ w3
                    (execute_steps_with_tracking-Completes p state config mode
                      (extract_chain_path response) (some id) steps 0 w3 same3
                      (ready3 ∙ ready2 ∙ ready1 ∙ ready))
                    (λ result w4 runs.
                      conclude_transfer-HasEnded state (extract_chain_path response) id steps result
                        w4 generated runs))))

    start_steps-HasEnded :
        (state : TransferState) (steps : Option (List TransferStep)) (w : World p)
        → generate_steps_from_response response mode ≡ steps
        → w.is_db_ready ≡ true
        → Ensures (λ _ w'. HasEnded w') (start_steps p state response mode config steps w)
    unfolding start_steps
    start_steps-HasEnded state none w generated ready = record { holds = tt }
    start_steps-HasEnded state (some []) w generated ready =
        map-Ensures _ (dispatch-fail_transfer "No steps generated from route" w)
          (λ _ w' failed. inr failed)
    start_steps-HasEnded state (some (step ∷ rest)) w generated ready =
        start_transfer-HasEnded state (step ∷ rest) w generated ready

    -- The call is done, and the transfer has ended.
    abbrev pub Ends : Outcome (Unit {0}) × World p → Type 0
    Ends x = (w' : World p) × (x ≡ (done tt, w')) × HasEnded w'

    recover-Ends :
        (x : Outcome (Unit {0}) × World p)
        → Ensures (λ _ w'. HasEnded w') x
        → Ends (release p (recover p x))
    unfolding recover dispatch transfer_reducer
    recover-Ends (done a, w) h = (locked p false w, refl, h.holds)
    recover-Ends (threw error, w) h = (_, refl, inr (refl, λ e. cc))
    recover-Ends (stray, w) h = absurd h.holds

    -- A call of `executeTransfer` that finds the lock free always comes to its end without an
    -- exception, and has ended the transfer: the phase is completed and so is every step generated from
    -- the response, or the phase is failed and there is an error.
    pub execute_transfer-Ends :
        (w : World p) → w.execution_lock ≡ false → Ends (execute_transfer p response mode config w)
    unfolding execute_transfer dispatch transfer_reducer
    execute_transfer-Ends w free =
        if-cases Ends (w.is_db_ready && response.success)
          (λ valid.
            if-cases Ends w.execution_lock (λ held. cc)
              (λ _. recover-Ends _ (
                start_steps-HasEnded w.transfer (generate_steps_from_response response mode)
                  (locked p true w) refl (ground (arith, valid)))))
          (λ invalid. (_, refl, inr (refl, λ e. cc)))

    -- A call of `executeTransfer` leaves the execution lock as it found it, however it ends; and a call
    -- with a valid response that finds the lock taken does nothing.
    pub execute_transfer-execution_lock :
        (w : World p)
        → ((execute_transfer p response mode config w).1.execution_lock ≡ w.execution_lock)
          × (w.execution_lock ≡ true
              → w.is_db_ready ≡ true
              → response.success ≡ true
              → execute_transfer p response mode config w ≡ (done tt, w))
    unfolding execute_transfer dispatch transfer_reducer
    execute_transfer-execution_lock w = (
      if-cases (λ (x : Outcome (Unit {0}) × World p). x.1.execution_lock ≡ w.execution_lock)
          (w.is_db_ready && response.success)
          (λ valid.
            if-cases (λ (x : Outcome (Unit {0}) × World p). x.1.execution_lock ≡ w.execution_lock)
              w.execution_lock (λ held. refl) (λ free. sym free))
          (λ invalid. refl),
      λ held ready success.
          if_true (w.is_db_ready && response.success) _ _ (ground (arith, ready, success))
          ∙ if_true w.execution_lock _ _ held,
    )
