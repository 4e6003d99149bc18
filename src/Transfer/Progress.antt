-- ===== src/Transfer/Progress.antt =====
-- The step list under UPDATE_STEP, and the progress that the provider shows
-- (client_app/src/context/transferContext.tsx).
use native.Mathlib.Nat.{div-lt_iff_lt-mul, div-eq_of_lt-le}
use spectra_portal.Base.{
  ℕ, suc, zero, ◌+◌, ◌*◌, ◌/◌, ◌≤◌, ◌<◌, ◌≡◌, refl, ◌≢◌, List, [], ◌∷◌, some, arith, length,
  get_elem?, set, get_elem?_lt, length-set, get_elem?-set_self, get_elem?-set_ne, if◌then◌else◌,
  ◌==◌,
}
use spectra_portal.Transfer.Types.{TransferStep, StepPatch, TransferState, update_step}
use spectra_portal.Transfer.Reducer.{transfer_reducer, write_step, patch_step, progress}

-- What a write of one step leaves as it was.
pub record IsPatched (before after : TransferState) (index : ℕ) (step : TransferStep)
    (patch : StepPatch) : Type 0 where
  pub length : length after.steps ≡ length before.steps
  pub written : get_elem? after.steps index ≡ some (patch_step step patch)
  pub others : (j : ℕ) → index ≢ j → get_elem? after.steps j ≡ get_elem? before.steps j
  pub phase : after.phase ≡ before.phase
  pub current : after.current_step_index ≡ before.current_step_index

-- An update of a step that exists succeeds: it merges the patch into that step and leaves every
-- other step, their number, the phase and the current index as they were.
pub update_step-IsPatched :
    (state : TransferState) (index : ℕ) (step : TransferStep) (patch : StepPatch)
    → get_elem? state.steps index ≡ some step
    → (next : TransferState) × (transfer_reducer state (update_step index patch) ≡ some next)
      × IsPatched state next index step patch
unfolding transfer_reducer write_step
update_step-IsPatched state index step patch e = (
  record state { steps = set state.steps index (patch_step step patch) },
  rw e refl,
  record {
    length = length-set state.steps index _;
    written = get_elem?-set_self state.steps index _ (get_elem?_lt state.steps index e);
    others = λ j ne. get_elem?-set_ne state.steps _ ne;
    phase = refl;
    current = refl;
  },
)

div_bound : (i n : ℕ) → i ≤ n → 0 < n → (200 * i + n) / (2 * n) ≤ 100
div_bound i n h p =
    let below : (200 * i + n) / (2 * n) < 101 =
      (div-lt_iff_lt-mul {k = 2 * n} (omega arith)).1 (omega arith) in
    omega arith

div_full : (n : ℕ) → 0 < n → (200 * n + n) / (2 * n) ≡ 100
div_full n p = div-eq_of_lt-le {k = 100} (2 * n) (omega arith) (omega arith)

progress_of_pos :
    (i n : ℕ)
    → i ≤ n
    → ((if n == 0 then 0 else (200 * i + n) / (2 * n)) ≤ 100)
      × (i ≡ n → 0 < n → (if n == 0 then 0 else (200 * i + n) / (2 * n)) ≡ 100)
progress_of_pos i zero h = (omega arith, λ e p. absurd (omega arith))
progress_of_pos i (suc n) h =
    (ground (arith, div_bound i (suc n) h), λ e p. rw e (ground (arith, div_full (suc n) p)))

length_pos : (xs : List TransferStep) → xs ≢ [] → 0 < length xs
length_pos [] h = absurd (h refl)
length_pos (x ∷ xs) h = omega arith

-- The progress is a percentage: 0 with no steps, at most 100 while the current index is at most
-- the number of steps, and 100 when it is that number and there is a step.
pub progress_bounds :
    (state : TransferState)
    → state.current_step_index ≤ length state.steps
    → (progress state ≤ 100)
      × (state.current_step_index ≡ length state.steps → state.steps ≢ [] → progress state ≡ 100)
unfolding progress
progress_bounds state h =
    let (below, full) = progress_of_pos state.current_step_index (length state.steps) h in
    (below, λ e some_step. full e (length_pos state.steps some_step))
