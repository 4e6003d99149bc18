-- ===== src/Transfer/Selection.antt =====
-- The quote that `transferReducer` keeps (client_app/src/context/transferContext.tsx), and the
-- guard of a transfer.
use spectra_portal.Base.{
  ◌≡◌, ◌≢◌, ◌⊎◌, String, Bool, true, none, some, arith, eq_iff, ℕ, Option-cases, inl, inr,
}
use spectra_portal.Transfer.Types.{
  TransferPhase, TransferState, TransferAction, StepPatch, set_pathfinder_response, update_step,
}
use spectra_portal.Transfer.Reducer.{transfer_reducer, write_step, can_initiate_transfer, succeeded}

-- The chains and tokens for which a route was asked.
pub record SameSelection (before after : TransferState) : Type 0 where
  pub from_chain : after.from_chain_id ≡ before.from_chain_id
  pub to_chain : after.to_chain_id ≡ before.to_chain_id
  pub from_token : after.from_token ≡ before.from_token
  pub to_token : after.to_token ≡ before.to_token
  pub quote : after.pathfinder_response ≡ before.pathfinder_response

module _ (state next : TransferState) (quoted : next.pathfinder_response ≢ none) where
  patched-SameSelection :
      (index : ℕ) (patch : StepPatch)
      → transfer_reducer state (update_step index patch) ≡ some next
      → SameSelection state next
  unfolding transfer_reducer
  patched-SameSelection index patch e = elim (Option-cases (write_step state.steps index patch)) [
    | inl missing ↦ cc
    | inr (steps, found) ↦ ground arith
  ]

  -- If there is a quote after an action, then the action brought that quote, or the quote was there
  -- before and the action changed neither of the two chains and neither of the two tokens.
  pub quote-SameSelection :
      (action : TransferAction)
      → transfer_reducer state action ≡ some next
      → (action ≡ set_pathfinder_response next.pathfinder_response) ⊎ SameSelection state next
  unfolding transfer_reducer
  quote-SameSelection (update_step index patch) e = inr (patched-SameSelection index patch e)
  quote-SameSelection action e = ground arith

pub record IsReady (state : TransferState) : Type 0 where
  pub phase : state.phase ≡ TransferPhase.idle
  pub from_chain : state.from_chain_id ≢ ""
  pub to_chain : state.to_chain_id ≢ ""
  pub from_token : state.from_token ≢ none
  pub amount : state.amount ≢ ""
  pub sender : state.sender_address ≢ ""
  pub receiver : state.receiver_address ≢ ""
  pub quote : succeeded state.pathfinder_response ≡ true

-- A transfer that can be initiated is idle, has both chains, a token, a positive amount and both
-- addresses, and a quote that succeeded.
pub can_initiate_transfer-IsReady :
    (is_positive : String → Bool) (state : TransferState)
    → can_initiate_transfer is_positive state ≡ true
    → IsReady state × (is_positive state.amount ≡ true)
unfolding can_initiate_transfer
can_initiate_transfer-IsReady is_positive state h = ground (
  arith,
  eq_iff state.from_chain_id "",
  eq_iff state.to_chain_id "",
  eq_iff state.amount "",
  eq_iff state.sender_address "",
  eq_iff state.receiver_address "",
)
