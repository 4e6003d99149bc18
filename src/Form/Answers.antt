-- ===== src/Form/Answers.antt =====
-- When the callback of client_app/src/hooks/useDebounce.ts runs, and that it does.
use mathlib.Core.Path.{subst}
use spectra_portal.Base.{
  ℕ, ◌+◌, ◌≤◌, ◌≡◌, refl, sym, ap, ◌∙◌, arith, List, [], ◌∷◌, Option, none, some, Option-cases, inl,
  inr,
}
use spectra_portal.Form.Debounce.{
  Timer, Event, called, fired, rendered, unmounted, Debounced, first_render, render, call_debounced,
  unmount, run_timer, Step, rendering, calling, unmounting, running, Reach, start, next, Awaits,
  IsLatest, IsDebounced,
}

module _ {A : Type 0} (delay : ℕ) where
  -- A timer is set exactly while a call awaits its answer.
  abbrev Timed : Option (Timer A) → List (Event A) → Type 0
  Timed none log = (t : ℕ) (a : A) → Awaits t a log → ⊥
  Timed (some timer) log = (t : ℕ) × Awaits t timer.args log × (t + delay ≡ timer.due)

  record IsTimed (s : Debounced A) : Type 0 where
    debounced : IsDebounced delay s.log
    latest : IsLatest s.callback s.log
    timed : Timed s.timeout s.log

  Timed-rendered :
      (o : Option (Timer A)) (c : ℕ) (log : List (Event A))
      → Timed o log
      → Timed o (rendered c ∷ log)
  Timed-rendered none c log h = h
  Timed-rendered (some timer) c log h = h

  Step-IsTimed : {s t : Debounced A} → Step delay s t → IsTimed s → IsTimed t
  unfolding render call_debounced unmount run_timer
  Step-IsTimed {s} (rendering c) h = record {
    debounced = h.debounced;
    latest = refl;
    timed = Timed-rendered s.timeout c s.log h.timed;
  }
  Step-IsTimed (calling now args) h = record {
    debounced = h.debounced;
    latest = h.latest;
    timed = (now, (refl, refl), refl);
  }
  Step-IsTimed unmounting h = record {
    debounced = h.debounced;
    latest = h.latest;
    timed = λ t a awaits. awaits;
  }
  Step-IsTimed {s} (running now timer e late) h =
      let (t, awaits, due) = subst (λ o. Timed o s.log) e h.timed in
      record {
        debounced = ((t, awaits, omega arith), h.latest, h.debounced);
        latest = h.latest;
        timed = λ t2 a no. no;
      }

  Reach-IsTimed : (first : ℕ) {s : Debounced A} → Reach delay first s → IsTimed s
  unfolding first_render
  Reach-IsTimed first start = record { debounced = tt; latest = refl; timed = λ t a no. no }
  Reach-IsTimed first (next reach step) = Step-IsTimed step (Reach-IsTimed first reach)

  -- However often the function is called, the component rendered and unmounted: each run of a callback
  -- answers the last call before it with that call's arguments, a delay later at the earliest, with no
  -- run and no unmounting between, and is of the callback of the last render.
  pub Reach-IsDebounced :
      (first : ℕ) {s : Debounced A} → Reach delay first s → IsDebounced delay s.log
  Reach-IsDebounced first reach = (Reach-IsTimed first reach).debounced

  Awaits-unique :
      (log : List (Event A)) {t u : ℕ} {a b : A}
      → Awaits t a log
      → Awaits u b log
      → (t ≡ u) × (a ≡ b)
  Awaits-unique [] h k = absurd h
  Awaits-unique (called v c ∷ log) (p, q) (p2, q2) = (sym p ∙ p2, sym q ∙ q2)
  Awaits-unique (fired v c d ∷ log) h k = absurd h
  Awaits-unique (rendered c ∷ log) h k = Awaits-unique log h k
  Awaits-unique (unmounted ∷ log) h k = absurd h

  -- A call that is the last one and that no unmounting followed is answered: from a delay after it on,
  -- the event loop can run the callback of the last render with its arguments.
  pub Reach-answers :
      (first : ℕ) {s : Debounced A}
      → Reach delay first s
      → (time now : ℕ) (args : A) → Awaits time args s.log
      → time + delay ≤ now
      → (t : Debounced A) × Step delay s t × (t.log ≡ fired now s.callback args ∷ s.log)
  unfolding run_timer
  Reach-answers first {s} reach time now args awaits late = elim (Option-cases s.timeout) [
    | inl e ↦
        absurd (subst (λ o. Timed o s.log) e (Reach-IsTimed first reach).timed time args awaits)
    | inr (timer, e) ↦
        let (t, set, due) = subst (λ o. Timed o s.log) e (Reach-IsTimed first reach).timed in
        let (same, of_call) = Awaits-unique s.log set awaits in
        (
          run_timer now timer s,
          running now timer e (omega arith),
          ap (λ a. fired now s.callback a ∷ s.log) of_call,
        )
  ]
