-- ===== src/Mutex/System.antt =====
-- Tasks that share one mutex (client_app/src/lib/mutex/mutex.ts): the event loop runs one part of a
-- task at a time, up to its next `await`.
use spectra_portal.Base.{ℕ, ◌≡◌, true, false, List, [], ◌∷◌, ◌++◌, Option, none, some}
use spectra_portal.Mutex.{Mutex, new_mutex, lock, lock_resumed, unlock}

-- `resumed` holds the tasks that are resolved and whose microtask has not run yet; `holders` those
-- between `lock` and `unlock`. `called` and `served` are histories: the tasks in the order of their
-- calls of `lock`, and in the order in which they came to hold the mutex.
pub record System : Type 0 where
  pub mutex : Mutex
  pub resumed : List ℕ
  pub holders : List ℕ
  pub called : List ℕ
  pub served : List ℕ

abbrev pub start : System
start = record { mutex = new_mutex; resumed = []; holders = []; called = []; served = [] }

abbrev pub list_of : Option ℕ → List ℕ
list_of none = []
list_of (some task) = task ∷ []

unfoldable pub call_lock : ℕ → System → System
unfolding lock
call_lock task s =
    let (m, got) = lock task s.mutex in
    elim got [
      | true ↦ record {
        mutex = m;
        resumed = s.resumed;
        holders = task ∷ s.holders;
        called = s.called ++ task ∷ [];
        served = s.served ++ task ∷ [];
      }
      | false ↦ record {
        mutex = m;
        resumed = s.resumed;
        holders = s.holders;
        called = s.called ++ task ∷ [];
        served = s.served;
      }
    ]

-- The microtask of the first resolved task.
unfoldable pub run_resumed : ℕ → List ℕ → System → System
unfolding lock_resumed
run_resumed task rest s = record {
  mutex = lock_resumed s.mutex;
  resumed = rest;
  holders = task ∷ s.holders;
  called = s.called;
  served = s.served ++ task ∷ [];
}

-- A holder leaves.
unfoldable pub call_unlock : List ℕ → System → System
unfolding unlock
call_unlock others s =
    let (m, woken) = unlock s.mutex in
    record {
      mutex = m;
      resumed = s.resumed ++ list_of woken;
      holders = others;
      called = s.called;
      served = s.served;
    }

-- Any task may ask for the mutex; only a task that holds it unlocks it.
pub data Step : System → System → Type 0 where
  ask : (task : ℕ) (s : System) → Step s (call_lock task s)
  resume :
      (task : ℕ) (rest : List ℕ) (s : System)
      → s.resumed ≡ task ∷ rest
      → Step s (run_resumed task rest s)
  leave :
      (task : ℕ) (others : List ℕ) (s : System)
      → s.holders ≡ task ∷ others
      → Step s (call_unlock others s)

pub data Reach (s : System) : System → Type 0 where
  here : Reach s s
  next : {t u : System} → Reach s t → Step t u → Reach s u
