-- ===== src/Transfer/Phases.antt =====
-- The phase and the error of `transferReducer` (client_app/src/context/transferContext.tsx).
use spectra_portal.Base.{
  ◌≡◌, refl, ◌≢◌, ◌⊎◌, inl, inr, List, [], ◌∷◌, Option, none, some, arith, Option-cases, ℕ,
}
use spectra_portal.Transfer.Types.{
  TransferPhase, TransferState, TransferAction, StepPatch, update_step, initial_state,
}
use spectra_portal.Transfer.Reducer.{transfer_reducer, write_step}

infixl 5 ◌>>=◌
abbrev ◌>>=◌ : {A B : Type 0} → Option A → (A → Option B) → Option B
none >>= k = none
some a >>= k = k a

-- A sequence of dispatches.
unfoldable pub run : List TransferAction → TransferState → Option TransferState
run [] state = some state
run (action ∷ actions) state = do next ← transfer_reducer state action; run actions next

-- An error is shown only where there is one: a failed transfer has its error, and an error is left
-- only in a transfer that failed, or that was advanced past its last step after it.
pub record IsConsistent (state : TransferState) : Type 0 where
  pub has_error : state.phase ≡ TransferPhase.failed → state.error ≢ none
  pub after_failure :
      state.error ≢ none
      → (state.phase ≡ TransferPhase.failed) ⊎ (state.phase ≡ TransferPhase.tracking)

module _ (state next : TransferState) (h : IsConsistent state) where
  patched-IsConsistent :
      (index : ℕ) (patch : StepPatch)
      → transfer_reducer state (update_step index patch) ≡ some next
      → IsConsistent next
  unfolding transfer_reducer
  patched-IsConsistent index patch e = elim (Option-cases (write_step state.steps index patch)) [
    | inl missing ↦ cc
    | inr (steps, found) ↦ ground arith
  ]

  pub transfer_reducer-IsConsistent :
      (action : TransferAction) → transfer_reducer state action ≡ some next → IsConsistent next
  unfolding transfer_reducer
  transfer_reducer-IsConsistent (update_step index patch) e = patched-IsConsistent index patch e
  transfer_reducer-IsConsistent action e = ground arith

run-IsConsistent_from :
    (actions : List TransferAction) (state next : TransferState)
    → IsConsistent state
    → run actions state ≡ some next
    → IsConsistent next
unfolding run
run-IsConsistent_from [] state next h e = ground arith
run-IsConsistent_from (action ∷ actions) state next h e =
    elim (Option-cases (transfer_reducer state action)) [
      | inl stray ↦ absurd (cc (rw (stray, ◌>>=◌) at e))
      | inr (middle, reduced) ↦
          run-IsConsistent_from actions middle next
            (transfer_reducer-IsConsistent state middle h action reduced) (rw (reduced, ◌>>=◌) at e)
    ]

-- After any sequence of dispatches from the initial state, a failed transfer has an error, and an
-- error stands only in a state whose phase is failed or tracking.
pub run-IsConsistent :
    (actions : List TransferAction) (state : TransferState)
    → run actions initial_state ≡ some state
    → IsConsistent state
run-IsConsistent actions state e =
    run-IsConsistent_from actions initial_state state
      (record { has_error = λ h. cc; after_failure = λ h. absurd (h refl) }) e
