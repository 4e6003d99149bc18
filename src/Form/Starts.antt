-- ===== src/Form/Starts.antt =====
-- With which quote a submission of client_app/src/components/ui/send/senderUi.tsx starts a transfer.
use mathlib.Core.Path.{subst}
use spectra_portal.Base.{
  ◌≡◌, ◌⊎◌, refl, sym, arith, true, false, ◌&&◌, Option, none, some, is_some, Bool-cases, inl, inr,
  eq_of_some,
}
use spectra_portal.Pathfinder.{FindPathResponse}
use spectra_portal.Transfer.{TransferPhase, TransferState, transfer_reducer}
use spectra_portal.Transfer.Phases.{run}
use spectra_portal.Form.Submit.{Submission, has_succeeded, can_submit, after_refetch, handle_submit}

-- A transfer that prepares, from a submission that was allowed: with a fresh quote that succeeded where
-- the shown one was stale, and with the quote that the transfer held where it was not.
pub record IsStarted (v : Submission) (state : TransferState)
    (refetched : Option (Option FindPathResponse)) (next : TransferState) : Type 0 where
  pub phase : next.phase ≡ TransferPhase.preparing
  pub was_shown : has_succeeded v.response ≡ true
  pub is_fresh :
      v.route_is_stale ≡ true
      → (refetched ≡ some next.pathfinder_response)
        × (has_succeeded next.pathfinder_response ≡ true)
  pub is_current : v.route_is_stale ≡ false → next.pathfinder_response ≡ state.pathfinder_response
  pub is_ready : v.wallets_ready ≡ true
  pub is_covered : v.insufficient_balance ≡ false
  pub is_positive : v.is_positive ≡ true
  pub is_settled :
      (v.route_loading ≡ false) × (v.route_pending ≡ false) × (v.balance_loading ≡ false)

module _ (v : Submission) (state : TransferState) where
  after_refetch-IsStarted :
      (refetched : Option (Option FindPathResponse)) {next : TransferState}
      → can_submit v ≡ true
      → v.route_is_stale ≡ true
      → run (after_refetch refetched) state ≡ some next
      → (next ≡ state) ⊎ IsStarted v state refetched next
  unfolding run transfer_reducer after_refetch can_submit
  after_refetch-IsStarted none can stale e = inl (sym (eq_of_some e))
  after_refetch-IsStarted (some response) {next} can stale e =
      elim (Bool-cases (has_succeeded response)) [
        | inr stays ↦ inl (sym (eq_of_some (rw (after_refetch, stays) at e)))
        | inl fresh ↦
            let done = eq_of_some (rw (after_refetch, fresh) at e) in
            inr (
              subst (IsStarted v state (some response)) done (record {
                phase = refl;
                was_shown = ground arith;
                is_fresh = λ _. (refl, fresh);
                is_current = λ current. absurd (ground arith);
                is_ready = ground arith;
                is_covered = ground arith;
                is_positive = ground arith;
                is_settled = (ground arith, ground arith, ground arith);
              }))
      ]

  -- A submission leaves the transfer alone, or starts it: then it prepares, while the quote that was
  -- shown had succeeded, neither a quote nor the balance was being loaded, the amount was positive, the
  -- wallets were ready and the balance was not insufficient; if the shown quote was stale, the transfer
  -- has the one that was fetched anew, which succeeded, and else the one that it had before, whichever
  -- that was.
  pub handle_submit-IsStarted :
      (refetched : Option (Option FindPathResponse)) {next : TransferState}
      → run (handle_submit refetched v) state ≡ some next
      → (next ≡ state) ⊎ IsStarted v state refetched next
  unfolding run transfer_reducer handle_submit can_submit
  handle_submit-IsStarted refetched {next} e =
      elim (Bool-cases (can_submit v && is_some v.response)) [
        | inr refused ↦ inl (sym (eq_of_some (rw (handle_submit, refused) at e)))
        | inl both ↦
            let can : can_submit v ≡ true = ground arith in
            elim (Bool-cases v.route_is_stale) [
              | inl stale ↦
                  after_refetch-IsStarted refetched can stale (rw (handle_submit, both, stale) at e)
              | inr current ↦
                  let done = eq_of_some (rw (handle_submit, both, current) at e) in
                  inr (
                    subst (IsStarted v state refetched) done (record {
                      phase = refl;
                      was_shown = ground arith;
                      is_fresh = λ stale. absurd (ground arith);
                      is_current = λ _. refl;
                      is_ready = ground arith;
                      is_covered = ground arith;
                      is_positive = ground arith;
                      is_settled = (ground arith, ground arith, ground arith);
                    }))
            ]
      ]
