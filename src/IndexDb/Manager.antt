-- ===== src/IndexDb/Manager.antt =====
-- The operations of client_app/src/lib/indexDb/dbManager.ts over an object store. A rejected promise
-- is `rejected` with its message. `get_time` stands for `new Date(timestamp).getTime()`; the
-- timestamps are those of `toISOString`, which parse.
use spectra_portal.Base.{
  ℕ, ◌-◌, String, List, [], ◌∷◌, Option, none, some, if◌then◌else◌, ◌==◌, ltb, length, take,
  or_else, ◌<>◌, show_nat,
}
use spectra_portal.Base.Sort.{sort_by}
use spectra_portal.IndexDb.Types.{Transaction, TransactionRecord, TransactionUpdate}
use spectra_portal.IndexDb.Store.{ObjectStore}

pub data Settled (A : Type 0) : Type 0 where
  resolved : A → Settled A
  rejected : String → Settled A

abbrev pub max_transactions : ℕ
max_transactions = 50

-- The fields that an update gives are set; the others stay.
unfoldable pub apply_update : TransactionUpdate → TransactionRecord → TransactionRecord
apply_update u r = record r {
  transaction = record r.transaction {
    status = or_else u.status r.status;
    current_step = or_else u.current_step r.current_step;
    error = or_else u.error r.error;
    swap_involved = or_else u.swap_involved r.swap_involved;
    multi_hop_progress = or_else u.multi_hop_progress r.multi_hop_progress;
    multi_hop_total_chains = or_else u.multi_hop_total_chains r.multi_hop_total_chains;
  };
}

-- The code sorts by `time b - time a`; this is that stable sort on the negated key: the order of
-- equal times is kept.
module _ {A : Type 0} (key : A → ℕ) where
  unfoldable pub insert_newest : A → List A → List A
  insert_newest x [] = x ∷ []
  insert_newest x (y ∷ ys) =
      let later = y ∷ insert_newest x ys in if ltb (key x) (key y) then later else x ∷ y ∷ ys

  unfoldable pub sort_newest : List A → List A
  unfolding insert_newest
  sort_newest [] = []
  sort_newest (x ∷ xs) = insert_newest x (sort_newest xs)

module _ (get_time : String → ℕ) where
  abbrev pub time_of : TransactionRecord → ℕ
  time_of r = get_time r.timestamp

  -- The records that `cleanupOldTransactions` deletes.
  unfoldable pub oldest : List TransactionRecord → List TransactionRecord
  oldest rs =
      if ltb max_transactions (length rs)
      then take (length rs - max_transactions) (sort_by time_of rs)
      else []

module _ (db : ObjectStore) where
  open db use {Store, get, get_all, add, put, delete, clear}

  unfoldable pub add_transaction_to_db : Transaction → Store → Settled ℕ × Store
  add_transaction_to_db t s = elim (add t s) [
    | none ↦ (rejected "Failed to add transaction", s)
    | some (id, s') ↦ (resolved id, s')
  ]

  unfoldable pub put_back : TransactionRecord → Store → Settled (Unit {0}) × Store
  put_back r s = elim (put r s) [
    | none ↦ (rejected "Failed to update transaction", s)
    | some s' ↦ (resolved tt, s')
  ]

  unfoldable pub update_transaction_status : TransactionUpdate → Store → Settled (Unit {0}) × Store
  unfolding put_back apply_update
  update_transaction_status u s = elim (get u.id s) [
    | none ↦ (rejected "Failed to fetch transaction", s)
    | some found ↦ elim found [
      | none ↦ (rejected ("Transaction with id " <> show_nat u.id <> " not found"), s)
      | some r ↦ put_back (apply_update u r) s
    ]
  ]

  -- An id of 0 is falsy too.
  unfoldable pub update_transaction_in_db : TransactionRecord → Store → Settled (Unit {0}) × Store
  unfolding put_back
  update_transaction_in_db r s =
      if or_else r.id 0 == 0
      then (rejected "Transaction must have an id to be updated", s)
      else put_back r s

  unfoldable pub fetch_transaction_by_id : ℕ → Store → Settled TransactionRecord
  fetch_transaction_by_id id s = elim (get id s) [
    | none ↦ rejected "Failed to fetch transaction"
    | some found ↦ elim found [
      | none ↦ rejected ("Transaction with id " <> show_nat id <> " not found")
      | some r ↦ resolved r
    ]
  ]

  unfoldable pub delete_transaction_by_id : ℕ → Store → Settled (Unit {0}) × Store
  delete_transaction_by_id id s = elim (delete id s) [
    | none ↦ (rejected "Failed to delete transaction", s)
    | some s' ↦ (resolved tt, s')
  ]

  unfoldable pub clear_all_transactions : Store → Settled (Unit {0}) × Store
  clear_all_transactions s = elim (clear s) [
    | none ↦ (rejected "Failed to clear transactions", s)
    | some s' ↦ (resolved tt, s')
  ]

  -- The requests `store.delete(t.id)` of one IndexedDB transaction, in their order.
  unfoldable pub delete_each : List TransactionRecord → Store → Option Store
  delete_each [] s = some s
  delete_each (r ∷ rs) s = elim r.id [
    | none ↦ delete_each rs s
    | some id ↦ elim (delete id s) [ none ↦ none | some s' ↦ delete_each rs s' ]
  ]

  module _ (get_time : String → ℕ) where
    unfoldable pub load_all_transactions : Store → Settled (List TransactionRecord)
    unfolding sort_newest
    load_all_transactions s = elim (get_all s) [
      | none ↦ rejected "Failed to load transactions"
      | some rs ↦ resolved (sort_newest (time_of get_time) rs)
    ]

    -- A delete that fails aborts the IndexedDB transaction, which undoes the others; the promise is
    -- resolved all the same.
    unfoldable pub cleanup_old_transactions : Store → Settled (Unit {0}) × Store
    unfolding oldest delete_each
    cleanup_old_transactions s = elim (get_all s) [
      | none ↦ (rejected "Failed to cleanup transactions", s)
      | some rs ↦ (resolved tt, or_else (delete_each (oldest get_time rs) s) s)
    ]
