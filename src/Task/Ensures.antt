-- ===== src/Task/Ensures.antt =====
-- What holds where a call of the executor is done (client_app/src/context/taskProvider.tsx).
use spectra_portal.Base.{
  ℕ, zero, suc, ◌<◌, ◌≡◌, refl, ◌≢◌, arith, String, List, [], ◌∷◌, Option, none, some, length,
  length-set, get_elem?, get_elem?-set_self, get_elem?-set_ne,
}
use spectra_portal.Transfer.{
  TransferPhase, TransferState, TransferStep, StepPatch, TransferAction, update_step, fail_transfer,
  transfer_reducer, patch_step, write_step,
}
use spectra_portal.IndexDb.{
  TransactionUpdate, update_transaction_status, Settled, resolved, rejected,
}
use spectra_portal.Task.Platform.{Platform, Outcome, done, threw, stray, World, M}
use spectra_portal.Task.Run.{◌>>=◌, return, dispatch, update_db, call}

get_elem?_of_lt {ℓ} :
    {A : Type ℓ} (xs : List A) (i : ℕ) → i < length xs → (x : A) × (get_elem? xs i ≡ some x)
get_elem?_of_lt [] i h = absurd (omega (arith, h))
get_elem?_of_lt (x ∷ xs) zero h = (x, refl)
get_elem?_of_lt (x ∷ xs) (suc i) h = get_elem?_of_lt xs i (omega (arith, h))

module _ {p : Platform} where
  -- What holds where a call is done; it may throw, but is not stray.
  abbrev pub Holds : {A : Type 0} → (A → World p → Type 0) → Outcome A × World p → Type 0
  Holds Q (done a, w) = Q a w
  Holds Q (threw error, w) = Unit
  Holds Q (stray, w) = ⊥

  pub record Ensures {A : Type 0} (Q : A → World p → Type 0) (x : Outcome A × World p)
      : Type 0 where
    pub holds : Holds Q x

  bind-Holds :
      {A B : Type 0} {Q : A → World p → Type 0} {R : B → World p → Type 0} (k : A → M p B)
      (x : Outcome A × World p)
      → Holds Q x
      → ((a : A) (w : World p) → Q a w → Ensures R (k a w))
      → Ensures R (elim x.0 [ done a ↦ k a x.1 | threw e ↦ (threw e, x.1) | stray ↦ (stray, x.1) ])
  bind-Holds k (done a, w) q h = h a w q
  bind-Holds k (threw e, w) q h = record { holds = tt }
  bind-Holds k (stray, w) q h = absurd q

  pub bind-Ensures :
      {A B : Type 0} {Q : A → World p → Type 0} {R : B → World p → Type 0} (m : M p A)
      (k : A → M p B) (w : World p)
      → Ensures Q (m w)
      → ((a : A) (w' : World p) → Q a w' → Ensures R (k a w'))
      → Ensures R ((m >>= k) w)
  unfolding ◌>>=◌
  bind-Ensures {Q = Q} {R = R} m k w q h = bind-Holds {Q = Q} {R = R} k (m w) q.holds h

  map-Holds :
      {A : Type 0} {Q R : A → World p → Type 0} (x : Outcome A × World p)
      → Holds Q x
      → ((a : A) (w : World p) → Q a w → R a w)
      → Holds R x
  map-Holds (done a, w) q h = h a w q
  map-Holds (threw e, w) q h = tt
  map-Holds (stray, w) q h = absurd q

  pub map-Ensures :
      {A : Type 0} {Q R : A → World p → Type 0} (x : Outcome A × World p)
      → Ensures Q x
      → ((a : A) (w : World p) → Q a w → R a w)
      → Ensures R x
  map-Ensures {Q = Q} {R = R} x q h = record { holds = map-Holds {Q = Q} {R = R} x q.holds h }

  -- The transfer has failed, and says why.
  abbrev pub HasFailed : World p → Type 0
  HasFailed w = (w.transfer.phase ≡ TransferPhase.failed) × (w.transfer.error ≢ none)

  pub dispatch-fail_transfer :
      (error : String) (w : World p)
      → Ensures (λ _ w'. HasFailed w') (dispatch {p = p} (fail_transfer error) w)
  unfolding dispatch transfer_reducer
  dispatch-fail_transfer error w = record { holds = (refl, λ e. cc) }

  settled-transfer :
      (w : World p) (s : Settled (Unit {0})) (store : p.db.Store)
      → Ensures {A = Unit {0}}
          (λ _ w'. w'.transfer ≡ w.transfer)
          (elim s [
            | resolved _ ↦ (done tt, record w { store = store })
            | rejected e ↦ (threw e, record w { store = store })
          ])
  settled-transfer w (resolved x) store = record { holds = refl }
  settled-transfer w (rejected e) store = record { holds = tt }

  -- An update of the history leaves the transfer alone.
  pub update_db-transfer :
      (id : Option ℕ) (u : ℕ → TransactionUpdate) (w : World p)
      → Ensures (λ _ w'. w'.transfer ≡ w.transfer) (update_db {p = p} id u w)
  unfolding update_db
  update_db-transfer none u w = record { holds = refl }
  update_db-transfer (some id) u w =
      let (settled, store) = update_transaction_status p.db (u id) w.store in
      settled-transfer w settled store

  settled-transfer_always :
      (w : World p) (s : Settled (Unit {0})) (store : p.db.Store)
      → (elim s as (λ _. Outcome (Unit {0}) × World p) [
        | resolved _ ↦ (done tt, record w { store = store })
        | rejected e ↦ (threw e, record w { store = store })
      ]).1.transfer
        ≡ w.transfer
  settled-transfer_always w (resolved x) store = refl
  settled-transfer_always w (rejected e) store = refl

  pub update_db-transfer_always :
      (id : Option ℕ) (u : ℕ → TransactionUpdate) (w : World p)
      → (update_db {p = p} id u w).1.transfer ≡ w.transfer
  unfolding update_db
  update_db-transfer_always none u w = refl
  update_db-transfer_always (some id) u w =
      let (settled, store) = update_transaction_status p.db (u id) w.store in
      settled-transfer_always w settled store

  pub call-transfer :
      {A : Type 0} (f : p.api.Net → A × p.api.Net) (w : World p)
      → Ensures (λ _ w'. w'.transfer ≡ w.transfer) (call {p = p} f w)
  unfolding call
  call-transfer f w = record { holds = refl }

  -- The steps but the one at `i` are the same, and that one is still there.
  abbrev pub Keeps : ℕ → World p → World p → Type 0
  Keeps i w w' =
      ((j : ℕ) → i ≢ j → get_elem? w'.transfer.steps j ≡ get_elem? w.transfer.steps j)
      × (i < length w.transfer.steps → i < length w'.transfer.steps)

  pub dispatch-update_step :
      (i : ℕ) (patch : StepPatch) (w : World p)
      → i < length w.transfer.steps
      → Ensures
          (λ _ w'.
            Keeps i w w'
            × ((step : TransferStep) × (get_elem? w'.transfer.steps i
                  ≡ some (patch_step step patch))))
          (dispatch {p = p} (update_step i patch) w)
  unfolding dispatch transfer_reducer write_step
  dispatch-update_step i patch w there =
      let (step, is) = get_elem?_of_lt w.transfer.steps i there in
      rw (is, dispatch)
        (record {
          holds = (
            (
              λ j h. get_elem?-set_ne w.transfer.steps (patch_step step patch) h,
              λ _. omega (arith, there, length-set w.transfer.steps i (patch_step step patch)),
            ),
            (step, get_elem?-set_self w.transfer.steps i (patch_step step patch) there),
          );
        })

  pub dispatch-SameSteps :
      (action : TransferAction) (w : World p)
      → (t : TransferState) × (transfer_reducer w.transfer action ≡ some t)
        × (t.steps ≡ w.transfer.steps)
      → Ensures (λ _ w'. w'.transfer.steps ≡ w.transfer.steps) (dispatch {p = p} action w)
  unfolding dispatch
  dispatch-SameSteps action w (t, is, same) = rw (is, dispatch) (record { holds = same })

  pub return-Ensures :
      {A : Type 0} {Q : A → World p → Type 0} (a : A) (w : World p) → Q a w → Ensures Q (return a w)
  return-Ensures a w q = record { holds = q }
