-- ===== src/Task/Completes.antt =====
-- A run of the steps of a transfer (client_app/src/context/taskProvider.tsx): it completes them all, or
-- it fails and leaves a failed transfer.
use mathlib.Core.Path.{subst}
use spectra_portal.Base.{
  ℕ, ◌<◌, ◌≡◌, refl, ◌≢◌, sym, ap, ◌∙◌, arith, String, Bool, false, List, Option, none, some,
  length, get_elem?, Option-cases, Bool-cases, inl, inr, opt_or, ltb,
}
use spectra_portal.Transfer.{
  TransferMode, TransferPhase, TransferState, TransferStep, StepStatus, advance_step,
  set_multi_hop_progress, transfer_reducer, patch_step,
}
use spectra_portal.Config.{ClientConfig}
use spectra_portal.Tracking.{IbcTrackingResult, default_options, track_ibc_transfer}
use spectra_portal.Tracking.Callback.{track_smart_transfer_multi_hop-Keeps}
use spectra_portal.Task.Platform.{Platform, TaskExecutionResult, World}
use spectra_portal.Task.Step.{execute_step, find_chain}
use spectra_portal.Task.Run.{
  dispatch, conclude, track_single, track_forwarded, track_step, complete_step, fail_step,
  finish_step, settle_step, run_step, on_hop, follow, path_of, is_multi_hop_step, is_ibc_step,
  sent_hash, status_patch, is_last,
}
use spectra_portal.Task.Ensures.{
  Ensures, bind-Ensures, map-Ensures, Keeps, HasFailed, dispatch-fail_transfer,
  dispatch-update_step, dispatch-SameSteps, update_db-transfer, update_db-transfer_always,
  call-transfer,
}

module _ (p : Platform) (state : TransferState) (config : ClientConfig) (mode : TransferMode)
    (chain_path : List String) (db_record_id : Option ℕ) where
  -- After a part of a step that began in `w`: it goes on with the same other steps, or the result is
  -- a failure and the transfer has failed.
  abbrev pub Goes : ℕ → World p → Option TaskExecutionResult → World p → Type 0
  Goes i w none w' = Keeps i w w'
  Goes i w (some result) w' = (result.success ≡ false) × HasFailed w'

  conclude-Goes :
      (i : ℕ) (result : IbcTrackingResult) (w0 w : World p)
      → Keeps i w0 w
      → Ensures (Goes i w0) (conclude p state config mode chain_path db_record_id result w)
  unfolding conclude
  conclude-Goes i result w0 w h = elim (Bool-cases result.success) [
    | inl ok ↦ rw (ok, conclude) (record { holds = h })
    | inr bad ↦
        rw (bad, conclude)
          (bind-Ensures _ _ _ (dispatch-fail_transfer _ w) (λ _ w1 failed.
            bind-Ensures _ _ _ (update_db-transfer db_record_id _ w1) (λ _ w2 same. record {
              holds = (
                refl,
                subst (λ t. (t.phase ≡ TransferPhase.failed) × (t.error ≢ none)) (sym same) failed,
              );
            })))
  ]

  -- The steps are those of `w`.
  abbrev pub SameSteps : World p → World p → Type 0
  SameSteps w w' = w'.transfer.steps ≡ w.transfer.steps

  Keeps-SameSteps : (i : ℕ) (w0 w w' : World p) → Keeps i w0 w → SameSteps w w' → Keeps i w0 w'
  Keeps-SameSteps i w0 w w' (h, there) same = (
    λ j ne. ap (λ steps. get_elem? steps j) same ∙ h j ne,
    λ b. omega (arith, there b, ap length same),
  )

  progress-SameSteps :
      (progress : Option ℕ) (total : Option (Option ℕ)) (w : World p)
      → Ensures
          (λ _ w'. SameSteps w w')
          (dispatch {p = p} (set_multi_hop_progress progress total) w)
  unfolding transfer_reducer
  progress-SameSteps progress total w =
      dispatch-SameSteps (set_multi_hop_progress progress total) w (_, refl, refl)

  on_hop-SameSteps :
      (completed total : ℕ) (w0 w : World p)
      → SameSteps w0 w
      → SameSteps w0 (on_hop p state config mode chain_path db_record_id completed total w)
  unfolding dispatch transfer_reducer
  on_hop-SameSteps completed total w0 w h =
      ap (λ t. t.steps) (update_db-transfer_always db_record_id _ w) ∙ h

  follow-SameSteps :
      (step : TransferStep) (hash : String) (path : List String) (w : World p)
      → Ensures
          (λ _ w'. SameSteps w w')
          (follow p state config mode chain_path db_record_id step hash path w)
  unfolding follow
  follow-SameSteps step hash path w = record {
    holds =
        track_smart_transfer_multi_hop-Keeps p.api default_options
          (on_hop p state config mode chain_path db_record_id) (SameSteps w)
          (λ completed total w'. on_hop-SameSteps completed total w w') config.chains
          (opt_or step.from_chain "") hash path w.net w refl;
  }

  track_single-Goes :
      (i : ℕ) (step : TransferStep) (hash : String) (w : World p)
      → i < length w.transfer.steps
      → Ensures (Goes i w) (track_single p state config mode chain_path db_record_id i step hash w)
  unfolding track_single
  track_single-Goes i step hash w there =
      bind-Ensures _ _ w (dispatch-update_step i _ w there) (λ _ w1 marked.
        elim (Option-cases (find_chain p state config step.to_chain)) [
          | inl unknown ↦ rw unknown (record { holds = marked.0 })
          | inr (dest, is) ↦ rw is (
              bind-Ensures _ _ w1
                (call-transfer
                  (track_ibc_transfer p.api default_options (opt_or step.from_chain "") hash dest)
                  w1)
                (λ result w2 same.
                  conclude-Goes i result w w2
                    (Keeps-SameSteps i w w1 w2 marked.0 (ap (λ t. t.steps) same))))
        ])

  track_forwarded-Goes :
      (i : ℕ) (step : TransferStep) (hash : String) (w : World p)
      → i < length w.transfer.steps
      → Ensures
          (Goes i w)
          (track_forwarded p state config mode chain_path db_record_id i step hash w)
  unfolding track_forwarded
  track_forwarded-Goes i step hash w there =
      bind-Ensures _ _ w (dispatch-update_step i _ w there) (λ _ w1 marked.
        elim (Bool-cases
          (ltb (length (path_of p state config mode chain_path db_record_id step)) 2)) [
            | inl short ↦ rw short (record { holds = marked.0 })
            | inr long ↦ rw long (
                bind-Ensures _ _ w1 (progress-SameSteps _ _ w1) (λ _ w2 same2.
                  bind-Ensures _ _ w2 (update_db-transfer db_record_id _ w2) (λ _ w3 same3.
                    bind-Ensures _ _ w3 (follow-SameSteps step hash _ w3) (λ result w4 same4.
                      bind-Ensures _ _ w4 (progress-SameSteps none none w4) (λ _ w5 same5.
                        conclude-Goes i result w w5 (
                          Keeps-SameSteps i w w1 w5 marked.0
                            (same5 ∙ same4 ∙ ap (λ t. t.steps) same3 ∙ same2)))))))
          ])

  track_step-Goes :
      (i : ℕ) (step : TransferStep) (hash : String) (w : World p)
      → i < length w.transfer.steps
      → Ensures (Goes i w) (track_step p state config mode chain_path db_record_id i step hash w)
  unfolding track_step
  track_step-Goes i step hash w there = elim (Bool-cases (is_multi_hop_step mode step.type)) [
    | inl forwarded ↦ rw (forwarded, track_step) (track_forwarded-Goes i step hash w there)
    | inr other ↦ elim (Bool-cases (is_ibc_step step.type)) [
      | inl ibc ↦ rw (other, ibc, track_step) (track_single-Goes i step hash w there)
      | inr swapped ↦ rw (other, swapped, track_step) (record { holds = (λ j h. refl, λ b. b) })
    ]
  ]

  -- The step at `i` is completed.
  abbrev pub IsCompletedAt : ℕ → World p → Type 0
  IsCompletedAt i w =
      (step : TransferStep) × (get_elem? w.transfer.steps i ≡ some step)
      × (step.status ≡ StepStatus.completed)

  advance_step-SameSteps :
      (w : World p) → Ensures (λ _ w'. SameSteps w w') (dispatch {p = p} advance_step w)
  unfolding transfer_reducer
  advance_step-SameSteps w = dispatch-SameSteps advance_step w (_, refl, refl)

  marked-IsCompletedAt :
      (i : ℕ) (hash : String) (w w1 w2 : World p)
      → Keeps i w w1
        × ((step : TransferStep) × (get_elem? w1.transfer.steps i
              ≡ some (patch_step step (status_patch StepStatus.completed (some (some hash)) none))))
      → SameSteps w1 w2
      → Keeps i w w2 × IsCompletedAt i w2
  unfolding patch_step
  marked-IsCompletedAt i hash w w1 w2 (kept, (step, is)) same =
      (Keeps-SameSteps i w w1 w2 kept same, (_, ap (λ steps. get_elem? steps i) same ∙ is, refl))

  complete_step-IsCompletedAt :
      (i : ℕ) (hash : String) (last : Bool) (w : World p)
      → i < length w.transfer.steps
      → Ensures
          (λ _ w'. Keeps i w w' × IsCompletedAt i w')
          (complete_step p state config mode chain_path db_record_id i hash last w)
  unfolding complete_step
  complete_step-IsCompletedAt i hash last w there =
      bind-Ensures _ _ w (dispatch-update_step i _ w there) (λ _ w1 marked.
        bind-Ensures _ _ w1 (update_db-transfer db_record_id _ w1) (λ _ w2 same2.
          let steps2 : SameSteps w1 w2 = ap (λ t. t.steps) same2 in
          elim (Bool-cases last) [
            | inl is_last ↦
                rw is_last (record { holds = marked-IsCompletedAt i hash w w1 w2 marked steps2 })
            | inr more ↦ rw more (
                map-Ensures _ (advance_step-SameSteps w2)
                  (λ _ w3 same3. marked-IsCompletedAt i hash w w1 w3 marked (same3 ∙ steps2)))
          ]))

  -- After a step that began in `w`: it is completed and the others are the same, or the result is a
  -- failure and the transfer has failed.
  abbrev pub Ran : ℕ → World p → Option TaskExecutionResult → World p → Type 0
  Ran i w none w' = Keeps i w w' × IsCompletedAt i w'
  Ran i w (some result) w' = (result.success ≡ false) × HasFailed w'

  fail_step-Ran :
      (i : ℕ) (result : TaskExecutionResult) (w w0 : World p)
      → i < length w.transfer.steps
      → Ensures (Ran i w0) (fail_step p state config mode chain_path db_record_id i result w)
  unfolding fail_step
  fail_step-Ran i result w w0 there =
      bind-Ensures _ _ w (dispatch-update_step i _ w there) (λ _ w1 _.
        bind-Ensures _ _ w1 (update_db-transfer db_record_id _ w1) (λ _ w2 _.
          bind-Ensures _ _ w2 (dispatch-fail_transfer _ w2)
            (λ _ w3 failed. record { holds = (refl, failed) })))

  Keeps-trans : (i : ℕ) (w0 w w' : World p) → Keeps i w0 w → Keeps i w w' → Keeps i w0 w'
  Keeps-trans i w0 w w' h h' = (λ j ne. h'.0 j ne ∙ h.0 j ne, λ b. h'.1 (h.1 b))

  finish_step-Ran :
      (i : ℕ) (hash : String) (last : Bool) (stop : Option TaskExecutionResult) (w0 w w1 : World p)
      → i < length w0.transfer.steps
      → Keeps i w0 w
      → Goes i w stop w1
      → Ensures
          (Ran i w0)
          (finish_step p state config mode chain_path db_record_id i hash last stop w1)
  unfolding finish_step
  finish_step-Ran i hash last (some failed) w0 w w1 there h goes = record { holds = goes }
  finish_step-Ran i hash last none w0 w w1 there h goes =
      bind-Ensures _ _ w1 (complete_step-IsCompletedAt i hash last w1 (goes.1 (h.1 there)))
        (λ _ w2 (kept, completed). record {
          holds = (Keeps-trans i w0 w1 w2 (Keeps-trans i w0 w w1 h goes) kept, completed);
        })

  settle_step-Ran :
      (i : ℕ) (step : TransferStep) (last : Bool) (result : TaskExecutionResult) (w0 w : World p)
      → i < length w0.transfer.steps
      → Keeps i w0 w
      → Ensures
          (Ran i w0)
          (settle_step p state config mode chain_path db_record_id i step last result w)
  unfolding settle_step
  settle_step-Ran i step last result w0 w there h =
      elim (Option-cases (sent_hash p state config mode chain_path db_record_id result)) [
        | inl unsent ↦ rw (unsent, settle_step) (fail_step-Ran i result w w0 (h.1 there))
        | inr (hash, is) ↦
            rw (is, settle_step)
              (bind-Ensures _ _ w (track_step-Goes i step hash w (h.1 there))
                (λ stop w1 goes. finish_step-Ran i hash last stop w0 w w1 there h goes))
      ]

  pub run_step-Ran :
      (i : ℕ) (step : TransferStep) (last : Bool) (w : World p)
      → i < length w.transfer.steps
      → Ensures (Ran i w) (run_step p state config mode chain_path db_record_id i step last w)
  unfolding run_step
  run_step-Ran i step last w there =
      bind-Ensures _ _ w (dispatch-update_step i _ w there) (λ _ w1 marked.
        bind-Ensures _ _ w1 (call-transfer (execute_step p state config step) w1) (λ result w2 same.
          settle_step-Ran i step last result w w2 there
            (Keeps-SameSteps i w w1 w2 marked.0 (ap (λ t. t.steps) same))))
