-- ===== src/Mutex/Tests.antt =====
-- A run of two tasks over the mutex of client_app/src/lib/mutex/mutex.ts.
use spectra_portal.Base.{◌+◌, ◌≤◌, ◌≡◌, refl, [], ◌++◌, length}
use spectra_portal.Mutex.System.{
  System, start, call_lock, call_unlock, ask, leave, Reach, here, next,
}
use spectra_portal.Mutex.Exclusion.{Reach-exclusive}
use spectra_portal.Mutex.Fairness.{IsSettled, Reach-Settles}

-- Task 1 takes the mutex, task 2 waits for it, and task 1 leaves.
abbrev handed_over : System
handed_over = call_unlock [] (call_lock 2 (call_lock 1 start))

Reach-handed_over : Reach start handed_over
unfolding call_lock
Reach-handed_over = next (next (next here (ask 1 start)) (ask 2 _)) (leave 1 [] _ refl)

Reach-exclusive_example :
    (length handed_over.holders + length handed_over.resumed ≤ 1)
    × (handed_over.called ≡ handed_over.served ++ (handed_over.resumed ++ handed_over.mutex.queue))
Reach-exclusive_example = Reach-exclusive {s = handed_over} Reach-handed_over

Reach-Settles_example : (t : System) × Reach handed_over t × IsSettled handed_over t
Reach-Settles_example = Reach-Settles {s = handed_over} Reach-handed_over
