-- ===== src/Task/Runs.antt =====
-- The loop of `executeStepsWithTracking` (client_app/src/context/taskProvider.tsx): it completes every
-- step from the first on, or fails.
use mathlib.Core.Path.{subst}
use spectra_portal.Base.{
  ℕ, suc, zero, ◌+◌, ◌≤◌, ◌<◌, ◌≡◌, refl, sym, ap, ◌∙◌, arith, String, true, false, List, [], ◌∷◌,
  Option, none, some, if◌then◌else◌, length, get_elem?, get_elem?_lt, Bool-cases, inl, inr, drop,
  length-drop, ◌==◌, ==_iff,
}
use spectra_portal.Transfer.{TransferMode, TransferState, TransferStep, StepStatus}
use spectra_portal.Config.{ClientConfig}
use spectra_portal.Task.Platform.{Platform, TaskExecutionResult, World, done}
use spectra_portal.Task.Step.{refusal}
use spectra_portal.Task.Run.{
  execute_steps, execute_steps_with_tracking, is_completed, go_on, is_last,
}
use spectra_portal.Task.Ensures.{Ensures, bind-Ensures, map-Ensures, Keeps, HasFailed}
use spectra_portal.Task.Completes.{IsCompletedAt, Ran, run_step-Ran}

is_completed_lem :
    (status : StepStatus) → is_completed status ≡ true → status ≡ StepStatus.completed
is_completed_lem StepStatus.completed h = refl
is_completed_lem status h = cc

get_elem?-drop {ℓ} :
    {A : Type ℓ} (n : ℕ) (xs : List A) (k : ℕ) → get_elem? (drop n xs) k ≡ get_elem? xs (n + k)
get_elem?-drop zero xs k = ap (get_elem? xs) {x = k} {y = 0 + k} (omega arith)
get_elem?-drop (suc n) [] k = refl
get_elem?-drop (suc n) (x ∷ xs) k =
    get_elem?-drop n xs k ∙ ap (get_elem? (x ∷ xs)) {x = suc (n + k)} {y = suc n + k} (omega arith)

module _ (p : Platform) (state : TransferState) (config : ClientConfig) (mode : TransferMode)
    (chain_path : List String) (db_record_id : Option ℕ) where
  -- The steps of the transfer from the index `i` on are those of the list.
  abbrev pub Agrees : ℕ → List TransferStep → World p → Type 0
  Agrees i steps w =
      (k : ℕ) (step : TransferStep)
      → get_elem? steps k ≡ some step
      → get_elem? w.transfer.steps (i + k) ≡ some step

  -- A success leaves the steps before `i` as they were and completes those of the list; a failure
  -- leaves a transfer that failed.
  abbrev Runs : ℕ → List TransferStep → World p → TaskExecutionResult → World p → Type 0
  Runs i steps w result w' =
      (result.success ≡ true
        → ((j : ℕ) → j < i → get_elem? w'.transfer.steps j ≡ get_elem? w.transfer.steps j)
          × ((j : ℕ)
              → i ≤ j
              → j < i + length steps
              → IsCompletedAt p state config mode chain_path db_record_id j w'))
      × (result.success ≡ false → HasFailed w')

  Agrees-tail :
      (i : ℕ) (step : TransferStep) (rest : List TransferStep) (w w' : World p)
      → Agrees i (step ∷ rest) w
      → Keeps i w w'
      → Agrees (suc i) rest w'
  Agrees-tail i step rest w w' h kept k s is =
      ap (get_elem? w'.transfer.steps) {x = suc i + k} {y = i + suc k} (omega arith)
      ∙ kept.0 (i + suc k) (omega arith)
      ∙ h (suc k) s is

  -- The first step is completed, and the rest has run.
  Runs-step :
      (i : ℕ) (step : TransferStep) (rest : List TransferStep) (w w1 : World p)
      (result : TaskExecutionResult) (w' : World p)
      → Keeps i w w1
      → IsCompletedAt p state config mode chain_path db_record_id i w1
      → Runs (suc i) rest w1 result w'
      → Runs i (step ∷ rest) w result w'
  Runs-step i step rest w w1 result w' kept (s, is, completed) (succeeds, fails) = (
    λ ok.
        let (same, later) = succeeds ok in
        (
          λ j below. same j (omega (arith, below)) ∙ kept.0 j (omega (arith, below)),
          λ j from below. elim (Bool-cases (i == j)) [
            | inl e ↦
                subst (λ k. IsCompletedAt p state config mode chain_path db_record_id k w')
                  ((==_iff i j).0 e) (s, same i (omega arith) ∙ is, completed)
            | inr ne ↦ later j (ground (arith, ne, from)) (omega (arith, below))
          ],
        ),
    fails,
  )

  first_there :
      (i : ℕ) (step : TransferStep) (rest : List TransferStep) (w : World p)
      → Agrees i (step ∷ rest) w
      → i < length w.transfer.steps
  first_there i step rest w h = omega (arith, get_elem?_lt w.transfer.steps (i + 0) (h 0 step refl))

  first_completed :
      (i : ℕ) (step : TransferStep) (rest : List TransferStep) (w : World p)
      → Agrees i (step ∷ rest) w
      → is_completed step.status ≡ true
      → IsCompletedAt p state config mode chain_path db_record_id i w
  first_completed i step rest w h completed = (
    step,
    ap (get_elem? w.transfer.steps) {x = i} {y = i + 0} (omega arith) ∙ h 0 step refl,
    is_completed_lem step.status completed,
  )

  go_on-Runs :
      (i : ℕ) (step : TransferStep) (rest : List TransferStep) (w w1 : World p)
      (stop : Option TaskExecutionResult)
      → Ran p state config mode chain_path db_record_id i w stop w1
      → (Keeps i w w1
          → Ensures
              (Runs (suc i) rest w1)
              (execute_steps p state config mode chain_path db_record_id (suc i) rest w1))
      → Ensures (Runs i (step ∷ rest) w) (
          go_on p state config mode chain_path db_record_id
            (execute_steps p state config mode chain_path db_record_id (suc i) rest)
            stop
            w1)
  unfolding go_on
  go_on-Runs i step rest w w1 (some failed) (unsuccessful, has_failed) later = record {
    holds = (λ ok. cc, λ _. has_failed);
  }
  go_on-Runs i step rest w w1 none (kept, completed) later =
      map-Ensures _ (later kept)
        (λ result w' runs. Runs-step i step rest w w1 result w' kept completed runs)

  execute_steps-Runs :
      (i : ℕ) (steps : List TransferStep) (w : World p)
      → Agrees i steps w
      → Ensures
          (Runs i steps w)
          (execute_steps p state config mode chain_path db_record_id i steps w)
  unfolding execute_steps
  execute_steps-Runs i [] w h = record {
    holds = (λ _. (λ j below. refl, λ j from below. absurd (omega (arith, from, below))), λ e. cc);
  }
  execute_steps-Runs i (step ∷ rest) w h = elim (Bool-cases (is_completed step.status)) [
    | inl completed ↦
        rw (completed, execute_steps)
          (map-Ensures _
            (execute_steps-Runs (suc i) rest w
              (Agrees-tail i step rest w w h (λ j _. refl, λ b. b)))
            (λ result w' runs.
              Runs-step i step rest w w result w' (λ j _. refl, λ b. b)
                (first_completed i step rest w h completed) runs))
    | inr pending ↦
        rw (pending, execute_steps)
          (bind-Ensures _ _ w
            (run_step-Ran p state config mode chain_path db_record_id i step
              (is_last p state config mode chain_path db_record_id rest) w
              (first_there i step rest w h))
            (λ stop w1 ran.
              go_on-Runs i step rest w w1 stop ran
                (λ kept. execute_steps-Runs (suc i) rest w1 (Agrees-tail i step rest w w1 h kept))))
  ]

  if_ready :
      (start : ℕ) (rest : List TransferStep) (w : World p)
      → w.is_db_ready ≡ true
      → (if w.is_db_ready
          then execute_steps p state config mode chain_path db_record_id start rest w
          else (done (refusal "Database not ready" none), w))
        ≡ execute_steps p state config mode chain_path db_record_id start rest w
  if_ready start rest w ready =
      ap
        (λ b.
          if b
          then execute_steps p state config mode chain_path db_record_id start rest w
          else (done (refusal "Database not ready" none), w))
        ready

  abbrev pub Completes : List TransferStep → ℕ → TaskExecutionResult → World p → Type 0
  Completes steps start result w' =
      (result.success ≡ true
        → (j : ℕ) → start ≤ j
        → j < length steps
        → IsCompletedAt p state config mode chain_path db_record_id j w')
      × (result.success ≡ false → HasFailed w')

  -- If the database is ready and the executor is called with the steps of the transfer, then it never
  -- writes behind the end of the step list, and unless it throws, a result that reports success leaves
  -- each step from the start index on completed, and a result that reports a failure leaves the
  -- transfer in the phase failed, with an error.
  pub execute_steps_with_tracking-Completes :
      (steps : List TransferStep) (start : ℕ) (w : World p)
      → w.transfer.steps ≡ steps
      → w.is_db_ready ≡ true
      → Ensures
          (Completes steps start)
          (execute_steps_with_tracking p state config mode chain_path db_record_id steps start w)
  unfolding execute_steps_with_tracking
  execute_steps_with_tracking-Completes steps start w same ready =
      let agrees : Agrees start (drop start steps) w = λ k step is.
        ap (λ xs. get_elem? xs (start + k)) same ∙ sym (get_elem?-drop start steps k) ∙ is in
      subst (Ensures (Completes steps start)) (sym (if_ready start (drop start steps) w ready)) (
        map-Ensures _ (execute_steps-Runs start (drop start steps) w agrees)
          (λ result w' (succeeds, fails). (
            λ ok j from below.
                (succeeds ok).1 j from (omega (arith, from, below, length-drop start steps)),
            fails,
          )))
