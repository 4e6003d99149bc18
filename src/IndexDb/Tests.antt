-- ===== src/IndexDb/Tests.antt =====
-- Runs of the manager of client_app/src/lib/indexDb/dbManager.ts over a store in memory.
use spectra_portal.Base.{
  true, str_eq, show_nat, ◌==◌, if◌then◌else◌, ℕ, ◌≡◌, refl, false, List, [], ◌∷◌, none, some,
  text_length,
}
use mathlib.Core.List.{Perm}
use spectra_portal.Transfer.{TransferMode}
use spectra_portal.IndexDb.Types.{Status, Transaction, TransactionRecord, TransactionUpdate}
use spectra_portal.IndexDb.Store.{IsKeyed, find_id}
use spectra_portal.IndexDb.Merged.{IsMerged}
use spectra_portal.IndexDb.Manager.{
  Settled, resolved, time_of, oldest, add_transaction_to_db, update_transaction_status,
  load_all_transactions, delete_each, cleanup_old_transactions,
}
use spectra_portal.IndexDb.History.{IsNewestFirst, load_all_transactions_lem}
use spectra_portal.IndexDb.Cleanup.{IsTrimmed, cleanup_old_transactions-IsTrimmed}
use spectra_portal.IndexDb.Shown.{History, new_history, update_status, format_age}
use spectra_portal.IndexDb.Refreshed.{Shows, update_status-Shows}
use spectra_portal.IndexDb.Memory.{memory, empty, Cells}

abbrev transaction : Transaction
transaction = record {
  timestamp = "2025-01-01";
  from_chain_id = "a";
  from_chain_address = "a1";
  to_chain_id = "b";
  to_chain_address = "b1";
  token_in = "uatom";
  token_out = "uatom";
  amount_in = "5";
  amount_out = "5";
  type_of_transfer = TransferMode.smart;
  status = Status.in_progress;
  total_steps = 1;
  current_step = 0;
  trajectory = none;
  error = none;
  swap_involved = false;
  multi_hop_progress = none;
  multi_hop_total_chains = none;
}

abbrev stored : Cells
stored = (add_transaction_to_db memory transaction empty).1

abbrev update : TransactionUpdate
update = record {
  id = 1;
  status = some Status.success;
  current_step = some 1;
  error = some none;
  swap_involved = none;
  multi_hop_progress = none;
  multi_hop_total_chains = none;
}

abbrev first_record : TransactionRecord
first_record = record { id = some 1; transaction = transaction }

added : add_transaction_to_db memory transaction empty ≡ (resolved 1, stored)
unfolding add_transaction_to_db
added = refl

found_again : memory.get 1 stored ≡ some (some first_record)
unfolding add_transaction_to_db
found_again = refl

loaded : load_all_transactions memory text_length stored ≡ resolved (first_record ∷ [])
unfolding load_all_transactions add_transaction_to_db
loaded = refl

load_all_transactions_example :
    IsNewestFirst (time_of text_length) (first_record ∷ [])
    × ((rs : List TransactionRecord) × Perm (first_record ∷ []) rs
        × IsKeyed rs
        × ((id : ℕ) → find_id id rs ≡ memory.contents stored id))
load_all_transactions_example =
    load_all_transactions_lem memory text_length stored {loaded = first_record ∷ []} loaded

all_read : memory.get_all stored ≡ some (first_record ∷ [])
unfolding add_transaction_to_db
all_read = refl

nothing_deleted : delete_each memory (oldest text_length (first_record ∷ [])) stored ≡ some stored
unfolding delete_each oldest
nothing_deleted = refl

cleanup_old_transactions-IsTrimmed_example :
    (cleanup_old_transactions memory text_length stored ≡ (resolved tt, stored))
    × ((kept : List TransactionRecord) × IsTrimmed memory text_length stored
          {rs = first_record ∷ []} {s' = stored} all_read nothing_deleted kept)
cleanup_old_transactions-IsTrimmed_example =
    cleanup_old_transactions-IsTrimmed memory text_length stored {rs = first_record ∷ []}
      {s' = stored} all_read nothing_deleted

abbrev after_update : Settled (Unit {0}) × (Cells × History)
after_update = update_status str_eq text_length memory true 20 400 update stored new_history

update_status-Shows_example :
    (old : TransactionRecord) × (new : TransactionRecord) × (memory.contents stored 1 ≡ some old)
    × IsMerged update old new
    × Shows str_eq text_length memory 20
        (λ id. if 1 == id then some new else memory.contents stored id)
        after_update.1.1
unfolding update_status update_transaction_status add_transaction_to_db load_all_transactions
update_status-Shows_example =
    update_status-Shows str_eq text_length memory 20 400 update stored new_history
      {after = after_update.1.0} {shown = after_update.1.1} settles fine
  where
    settles :
        update_status str_eq text_length memory true 20 400 update stored new_history
        ≡ (resolved tt, after_update.1)
    settles = refl

    fine : after_update.1.1.error ≡ none
    fine = refl

aged : format_age 7199999 ≡ "1h ago"
unfolding format_age show_nat
aged = refl
