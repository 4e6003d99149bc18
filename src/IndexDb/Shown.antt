-- ===== src/IndexDb/Shown.antt =====
-- `useTransactionHistory` of client_app/src/hooks/useTransactionHistory.ts: what it shows of the store.
use spectra_portal.Base.{
  ℕ, ◌-◌, ◌*◌, ◌/◌, String, Bool, true, false, ◌&&◌, List, [], ◌∷◌, map, filter, take, length,
  Option, none, some, if◌then◌else◌, ltb, is_truthy, opt_or, ◌<>◌, show_nat,
}
use spectra_portal.IndexDb.Types.{Status, in_progress, failed, TransactionRecord, TransactionUpdate}
use spectra_portal.IndexDb.Store.{ObjectStore}
use spectra_portal.IndexDb.Manager.{
  Settled, resolved, rejected, time_of, load_all_transactions, update_transaction_status,
}

abbrev pub max_resumable_age_ms : ℕ
max_resumable_age_ms = 4 * 60 * 60 * 1000

pub record TransactionWithMeta : Type 0 where
  pub tx : TransactionRecord
  pub is_resumable : Bool
  pub is_retryable : Bool
  pub age_ms : ℕ
  pub formatted_age : String

-- The state of the hook.
pub record History : Type 0 where
  pub transactions : List TransactionWithMeta
  pub is_loading : Bool
  pub error : Option String

abbrev pub new_history : History
new_history = record { transactions = []; is_loading = true; error = none }

unfoldable pub format_age : ℕ → String
format_age age =
    let seconds = age / 1000 in
    let minutes = seconds / 60 in
    let hours = minutes / 60 in
    let days = hours / 24 in
    if ltb 0 days
    then show_nat days <> "d ago"
    else if ltb 0 hours
    then show_nat hours <> "h ago"
    else if ltb 0 minutes
    then show_nat minutes <> "m ago"
    else "Just now"

abbrev is_in_progress : Status → Bool
is_in_progress in_progress = true
is_in_progress _ = false

abbrev is_failed : Status → Bool
is_failed failed = true
is_failed _ = false

abbrev some_matches : (String → Bool) → List String → Bool
some_matches test [] = false
some_matches test (pattern ∷ patterns) = if test pattern then true else some_matches test patterns

-- `matches pattern error` is the test of a regular expression without regard to case.
module _ (matches : String → String → Bool) where
  unfoldable pub is_retryable_error : Option String → Bool
  is_retryable_error error =
      let text = opt_or error "" in
      if is_truthy text
      then some_matches (λ pattern. matches pattern text)
          ("out of gas" ∷ "insufficient" ∷ "timeout" ∷ "network" ∷ "connection" ∷ "rate limit" ∷ [])
      else false

  module _ (get_time : String → ℕ) where
    -- An age below 0 is shown, and tested, as 0 is.
    unfoldable pub with_meta : (now : ℕ) → TransactionRecord → TransactionWithMeta
    unfolding is_retryable_error format_age
    with_meta now tx =
        let age = now - time_of get_time tx in
        record {
          tx = tx;
          age_ms = age;
          formatted_age = format_age age;
          is_resumable =
              is_in_progress tx.status
              && (ltb age max_resumable_age_ms && ltb tx.current_step tx.total_steps);
          is_retryable = is_failed tx.status && is_retryable_error tx.error;
        }

    module _ (db : ObjectStore) where
      -- `refresh` once the database is connected.
      unfoldable pub refresh : (limit now : ℕ) → db.Store → History → History
      unfolding with_meta
      refresh limit now s history = elim (load_all_transactions db get_time s) [
        | rejected e ↦ record history { is_loading = false; error = some e }
        | resolved rs ↦ record {
          transactions = map (with_meta now) (take limit rs);
          is_loading = false;
          error = none;
        }
      ]

      -- The reload behind an update.
      unfoldable pub reloaded :
          (limit now : ℕ)
          → History
          → Settled (Unit {0})
          → db.Store
          → Settled (Unit {0}) × (db.Store × History)
      unfolding refresh
      reloaded limit now history (rejected e) s = (rejected e, (s, history))
      reloaded limit now history (resolved _) s = (resolved tt, (s, refresh limit now s history))

      -- What `updateStatus` settles to, with the store and the history after it.
      unfoldable pub update_status :
          (is_connected : Bool) (limit now : ℕ)
          → TransactionUpdate
          → db.Store
          → History
          → Settled (Unit {0}) × (db.Store × History)
      unfolding reloaded
      update_status false limit now u s history = (rejected "Database not connected", (s, history))
      update_status true limit now u s history =
          let (settled, s2) = update_transaction_status db u s in
          reloaded limit now history settled s2

unfoldable pub resumable_count : History → ℕ
resumable_count history = length (filter (λ t. t.is_resumable) history.transactions)
