-- ===== src/Form/Debounce.antt =====
-- `useDebouncedCallback` of client_app/src/hooks/useDebounce.ts: the calls, the timer and the callback
-- that the component renders with, as steps of the page's event loop.
use spectra_portal.Base.{ℕ, ◌+◌, ◌≤◌, ◌≡◌, List, [], ◌∷◌, Option, none, some}

-- A timer that runs out at `due`.
pub record Timer (A : Type 0) : Type 0 where
  pub due : ℕ
  pub args : A

-- What happened, with the time; a callback is known by its number.
pub data Event (A : Type 0) : Type 0 where
  called : (time : ℕ) → A → Event A
  fired : (time callback : ℕ) → A → Event A
  rendered : (callback : ℕ) → Event A
  unmounted : Event A

-- The refs of the hook, and the events so far, the last one first.
pub record Debounced (A : Type 0) : Type 0 where
  pub timeout : Option (Timer A)
  pub callback : ℕ
  pub log : List (Event A)

module _ {A : Type 0} where
  unfoldable pub first_render : ℕ → Debounced A
  first_render callback = record {
    timeout = none;
    callback = callback;
    log = rendered callback ∷ [];
  }

  -- The effect of a render with another callback.
  unfoldable pub render : ℕ → Debounced A → Debounced A
  render callback s = record s { callback = callback; log = rendered callback ∷ s.log }

  -- A call of the function that the hook returns: the timer that is set is cleared for a new one, so
  -- that there is one timer at most.
  unfoldable pub call_debounced : (delay now : ℕ) → A → Debounced A → Debounced A
  call_debounced delay now args s = record s {
    timeout = some (record { due = now + delay; args = args });
    log = called now args ∷ s.log;
  }

  -- The clean-up when the component is unmounted.
  unfoldable pub unmount : Debounced A → Debounced A
  unmount s = record s { timeout = none; log = unmounted ∷ s.log }

  -- The event loop runs a timer.
  unfoldable pub run_timer : ℕ → Timer A → Debounced A → Debounced A
  run_timer now timer s = record s { timeout = none; log = fired now s.callback timer.args ∷ s.log }

  -- A timer runs at its time or later.
  pub data Step (delay : ℕ) (s : Debounced A) : Debounced A → Type 0 where
    rendering : (callback : ℕ) → Step delay s (render callback s)
    calling : (now : ℕ) (args : A) → Step delay s (call_debounced delay now args s)
    unmounting : Step delay s (unmount s)
    running :
        (now : ℕ) (timer : Timer A)
        → s.timeout ≡ some timer
        → timer.due ≤ now
        → Step delay s (run_timer now timer s)

  pub data Reach (delay first : ℕ) : Debounced A → Type 0 where
    start : Reach delay first (first_render first)
    next : {s t : Debounced A} → Reach delay first s → Step delay s t → Reach delay first t

  -- The last call is not answered yet: it was made at `time` with `args`.
  abbrev pub Awaits : (time : ℕ) → A → List (Event A) → Type 0
  Awaits time args [] = ⊥
  Awaits time args (called t a ∷ log) = (t ≡ time) × (a ≡ args)
  Awaits time args (fired t callback a ∷ log) = ⊥
  Awaits time args (rendered callback ∷ log) = Awaits time args log
  Awaits time args (unmounted ∷ log) = ⊥

  -- The callback that the component was rendered with last.
  abbrev pub IsLatest : ℕ → List (Event A) → Type 0
  IsLatest callback [] = ⊥
  IsLatest callback (rendered c ∷ log) = callback ≡ c
  IsLatest callback (_ ∷ log) = IsLatest callback log

  -- Each run of the callback answers the last call before it, once, a delay later at the earliest, by
  -- the callback of the last render.
  abbrev pub IsDebounced : ℕ → List (Event A) → Type 0
  IsDebounced delay [] = Unit
  IsDebounced delay (fired time callback args ∷ log) =
      ((t : ℕ) × Awaits t args log × t + delay ≤ time)
      × IsLatest callback log
      × IsDebounced delay log
  IsDebounced delay (called t a ∷ log) = IsDebounced delay log
  IsDebounced delay (rendered c ∷ log) = IsDebounced delay log
  IsDebounced delay (unmounted ∷ log) = IsDebounced delay log
