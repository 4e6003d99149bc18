-- ===== src/Mutex/Exclusion.antt =====
-- Mutual exclusion, for every interleaving (client_app/src/lib/mutex/mutex.ts).
use mathlib.Core.List.{append_assoc, append-nil}
use spectra_portal.Base.{
  ℕ, ◌+◌, ◌≤◌, ◌≡◌, refl, false, List, [], ◌∷◌, ◌++◌, arith, length, if◌then◌else◌, append_shift,
  Bool-cases, List-cases, inl, inr, ap,
}
use spectra_portal.Mutex.System.{
  System, start, call_lock, run_resumed, call_unlock, Step, ask, resume, leave, Reach, here, next,
}

-- The lock is set as long as one task holds the mutex or is about to, there is never a second such
-- task, and nobody waits for a free mutex. Every call has been served, in order, or is in a queue.
pub record IsSound (s : System) : Type 0 where
  pub one : length s.holders + length s.resumed ≡ (if s.mutex.is_locked then 1 else 0)
  pub idle : s.mutex.is_locked ≡ false → s.mutex.queue ≡ []
  pub order : s.called ≡ s.served ++ (s.resumed ++ s.mutex.queue)

pub nil_of_length : (xs : List ℕ) → length xs ≡ 0 → xs ≡ []
nil_of_length [] e = refl
nil_of_length (x ∷ xs) e = absurd (omega arith)

-- The order of the queues when a task is put at their end, and when the first one is taken.
order_snoc :
    (called served resumed queue : List ℕ) (task : ℕ)
    → called ≡ served ++ (resumed ++ queue)
    → called ++ task ∷ [] ≡ served ++ (resumed ++ (queue ++ task ∷ []))
order_snoc called served resumed queue task e = rw e (simp append_assoc)

order_take :
    (served rest : List ℕ) (task : ℕ) → (served ++ task ∷ []) ++ rest ≡ served ++ task ∷ rest
order_take served rest task = append_shift served rest task

call_lock-IsSound : (task : ℕ) (s : System) → IsSound s → IsSound (call_lock task s)
unfolding call_lock
call_lock-IsSound task s h = elim (Bool-cases s.mutex.is_locked) [
  | inl locked ↦ ground (arith, order_snoc s.called s.served s.resumed s.mutex.queue task h.order)
  | inr free ↦ ground (
    arith,
    h.idle free,
    nil_of_length s.resumed,
    nil_of_length s.holders,
    append-nil (s.served ++ task ∷ []),
    append-nil s.served,
  )
]

run_resumed-IsSound :
    (task : ℕ) (rest : List ℕ) (s : System)
    → s.resumed ≡ task ∷ rest
    → IsSound s
    → IsSound (run_resumed task rest s)
unfolding run_resumed
run_resumed-IsSound task rest s e h =
    ground (arith, order_take s.served (rest ++ s.mutex.queue) task, ap length e)

call_unlock-IsSound :
    (task : ℕ) (others : List ℕ) (s : System)
    → s.holders ≡ task ∷ others
    → IsSound s
    → IsSound (call_unlock others s)
unfolding call_unlock
call_unlock-IsSound task others s e h = elim (List-cases s.mutex.queue) [
  | inl empty ↦ ground (arith, ap length e, nil_of_length s.resumed, nil_of_length others)
  | inr (first, queue, waiting) ↦
      ground (arith, ap length e, nil_of_length s.resumed, nil_of_length others)
]

pub Step-IsSound : {s t : System} → Step s t → IsSound s → IsSound t
Step-IsSound (ask task s) h = call_lock-IsSound task s h
Step-IsSound (resume task rest s e) h = run_resumed-IsSound task rest s e h
Step-IsSound (leave task others s e) h = call_unlock-IsSound task others s e h

pub Reach-IsSound : {s t : System} → IsSound s → Reach s t → IsSound t
Reach-IsSound h here = h
Reach-IsSound h (next r step) = Step-IsSound step (Reach-IsSound h r)

pub start-IsSound : IsSound start
start-IsSound = record { one = refl; idle = λ _. refl; order = refl }

-- In every state that the tasks can reach, at most one task holds the mutex or has been resolved to
-- hold it next, and the tasks that called `lock` are, in the order of their calls, those served, the
-- one resolved and those queued.
pub Reach-exclusive :
    {s : System}
    → Reach start s
    → (length s.holders + length s.resumed ≤ 1)
      × (s.called ≡ s.served ++ (s.resumed ++ s.mutex.queue))
Reach-exclusive {s} r =
    let h = Reach-IsSound start-IsSound r in
    let bound : (if s.mutex.is_locked then ◌+◌ 1 0 else 0) ≤ 1 = ground arith in
    (ground (arith, h.one), h.order)
