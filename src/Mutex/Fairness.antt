-- ===== src/Mutex/Fairness.antt =====
-- Waiting tasks are served, first come first served (client_app/src/lib/mutex/mutex.ts).
use mathlib.Core.List.{append-nil}
use spectra_portal.Base.{
  ℕ, zero, suc, ◌≤◌, ◌≡◌, refl, inl, inr, false, List, [], ◌∷◌, ◌++◌, arith, length, List-cases, ap,
  ◌∙◌,
}
use spectra_portal.Mutex.System.{
  System, start, run_resumed, call_unlock, Step, resume, leave, Reach, here, next,
}
use spectra_portal.Mutex.Exclusion.{
  IsSound, nil_of_length, Step-IsSound, Reach-IsSound, start-IsSound,
}

-- Everyone who called has been served in the order of the calls, and the mutex is free again.
pub record IsSettled (s t : System) : Type 0 where
  pub served : t.served ≡ s.called
  pub free : t.mutex.is_locked ≡ false
  pub holders : t.holders ≡ []

abbrev Settles : System → Type 0
Settles s = (t : System) × Reach s t × IsSettled s t

Reach-trans : {s t u : System} → Reach s t → Reach t u → Reach s u
Reach-trans r here = r
Reach-trans r (next k step) = next (Reach-trans r k) step

-- A sound state in which nobody holds the mutex or is about to has settled.
settled : (s : System) → IsSound s → s.mutex.is_locked ≡ false → IsSettled s s
settled s h free =
    let held : s.holders ≡ [] = nil_of_length s.holders (ground (arith, h.one)) in
    let woken : s.resumed ≡ [] = nil_of_length s.resumed (ground (arith, h.one)) in
    record {
      served = ground (arith, h.order, h.idle free, append-nil s.served);
      free = free;
      holders = held;
    }

-- Steps that take no call leave the calls as they are.
Settles-next : {s t : System} → Step s t → t.called ≡ s.called → Settles t → Settles s
Settles-next step same (u, r, k) = (
  u,
  Reach-trans (next here step) r,
  record { served = rw (← same) k.served; free = k.free; holders = k.holders },
)

-- The system after the holder `task` has left.
module _ (s : System) (task : ℕ) (others : List ℕ) (h : IsSound s)
    (held : s.holders ≡ task ∷ others) where
  left-IsSound : IsSound (call_unlock others s)
  left-IsSound = Step-IsSound (leave task others s held) h

  settle_last : s.mutex.queue ≡ [] → Settles s
  unfolding call_unlock
  settle_last empty =
      Settles-next (leave task others s held) refl
        (call_unlock others s, here, settled (call_unlock others s) left-IsSound (rw empty refl))

  left_queue :
      (first : ℕ) (queue : List ℕ)
      → s.mutex.queue ≡ first ∷ queue
      → ((call_unlock others s).resumed ≡ s.resumed ++ first ∷ [])
        × ((call_unlock others s).mutex.queue ≡ queue)
  unfolding call_unlock
  left_queue first queue e = (rw e refl, rw e refl)

  left_called : (call_unlock others s).called ≡ s.called
  unfolding call_unlock
  left_called = refl

module _ (s : System) (task : ℕ) (rest : List ℕ) (h : IsSound s)
    (woken : s.resumed ≡ task ∷ rest) where
  alone : rest ≡ []
  alone = nil_of_length rest (ground (arith, h.one, ap length woken))

  run-IsSound : IsSound (run_resumed task rest s)
  run-IsSound = Step-IsSound (resume task rest s woken) h

  run_lem :
      ((run_resumed task rest s).mutex.queue ≡ s.mutex.queue)
      × ((run_resumed task rest s).resumed ≡ rest)
      × ((run_resumed task rest s).holders ≡ task ∷ s.holders)
      × ((run_resumed task rest s).called ≡ s.called)
  unfolding run_resumed
  run_lem = (refl, refl, refl, refl)

-- The first resolved task runs and leaves, and so on down the queue; `n` bounds its length.
settle_resumed :
    (n : ℕ) (s : System) (task : ℕ) (rest : List ℕ)
    → IsSound s
    → s.resumed ≡ task ∷ rest
    → length s.mutex.queue ≤ n
    → Settles s
settle_resumed zero s task rest h woken short =
    let (queue, _, held, called) = run_lem s task rest h woken in
    Settles-next (resume task rest s woken) called (
      settle_last (run_resumed task rest s) task s.holders (run-IsSound s task rest h woken) held
        (queue ∙ nil_of_length s.mutex.queue (omega arith)))
settle_resumed (suc n) s task rest h woken short =
    let (same, resumed, held, called) = run_lem s task rest h woken in
    let s1 = run_resumed task rest s in
    let h1 = run-IsSound s task rest h woken in
    Settles-next (resume task rest s woken) called (elim (List-cases s.mutex.queue) [
      | inl empty ↦ settle_last s1 task s.holders h1 held (same ∙ empty)
      | inr (first, queue, waiting) ↦
          let (woken', shorter) =
            left_queue s1 task s.holders h1 held first queue (same ∙ waiting) in
          Settles-next (leave task s.holders s1 held) (left_called s1 task s.holders h1 held) (
            settle_resumed n (call_unlock s.holders s1) first []
              (left-IsSound s1 task s.holders h1 held)
              (rw (woken', resumed, alone s task rest h woken) refl)
              (rw shorter (omega (arith, ap length waiting))))
    ])

settle_holder :
    (s : System) (task : ℕ) (others : List ℕ) → IsSound s → s.holders ≡ task ∷ others → Settles s
settle_holder s task others h held = elim (List-cases s.mutex.queue) [
  | inl empty ↦ settle_last s task others h held empty
  | inr (first, queue, waiting) ↦
      let (woken, shorter) = left_queue s task others h held first queue waiting in
      Settles-next (leave task others s held) (left_called s task others h held) (
        settle_resumed (length queue) (call_unlock others s) first []
          (left-IsSound s task others h held)
          (rw (woken, nil_of_length s.resumed (ground (arith, h.one, ap length held))) refl)
          (rw shorter (omega arith)))
]

settle_sound : (s : System) → IsSound s → Settles s
settle_sound s h = elim (List-cases s.holders) [
  | inr (task, others, held) ↦ settle_holder s task others h held
  | inl nobody ↦ elim (List-cases s.resumed) [
    | inr (task, rest, woken) ↦
        settle_resumed (length s.mutex.queue) s task rest h woken (omega arith)
    | inl none_woken ↦
        (s, here, settled s h (ground (arith, h.one, ap length nobody, ap length none_woken)))
  ]
]

-- From every state that the tasks can reach, some further steps lead to a state in which every call
-- of `lock` has been served, in the order of the calls, nobody holds the mutex and it is free.
pub Reach-Settles : {s : System} → Reach start s → (t : System) × Reach s t × IsSettled s t
Reach-Settles {s} r = settle_sound s (Reach-IsSound start-IsSound r)
