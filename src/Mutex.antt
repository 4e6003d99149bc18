-- ===== src/Mutex.antt =====
-- client_app/src/lib/mutex/mutex.ts: an asynchronous lock with a queue of waiters.
pub mod System
pub mod Exclusion
pub mod Fairness
mod Tests
use spectra_portal.Base.{
  ℕ, Bool, true, false, List, [], ◌∷◌, ◌++◌, Option, none, some, if◌then◌else◌,
}

-- A waiter is the task whose promise the queued `resolve` settles.
pub record Mutex : Type 0 where
  pub is_locked : Bool
  pub queue : List ℕ

abbrev pub new_mutex : Mutex
new_mutex = record { is_locked = false; queue = [] }

-- `lock` up to its `await`: the task waits (false), or there is no `await` and it goes on (true).
unfoldable pub lock : ℕ → Mutex → Mutex × Bool
lock task m =
    if m.is_locked
    then (record m { queue = m.queue ++ task ∷ [] }, false)
    else (record m { is_locked = true }, true)

-- `lock` behind its `await`.
unfoldable pub lock_resumed : Mutex → Mutex
lock_resumed m = record m { is_locked = true }

-- `unlock`, and the task that it resolves.
unfoldable pub unlock : Mutex → Mutex × Option ℕ
unlock m = elim m.queue [
  | [] ↦ (record m { is_locked = false }, none)
  | task ∷ queue ↦ (record m { queue = queue }, some task)
]
