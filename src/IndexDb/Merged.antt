-- ===== src/IndexDb/Merged.antt =====
-- What an update of client_app/src/lib/indexDb/dbManager.ts makes of a record, field by field.
use spectra_portal.Base.{◌≡◌, refl, Option, none, some, or_else}
use spectra_portal.IndexDb.Types.{Transaction, TransactionRecord, TransactionUpdate}
use spectra_portal.IndexDb.Manager.{apply_update}

-- A field that is given has its new value, and one that is left out its old one.
abbrev pub IsGiven : {A : Type 0} → Option A → A → A → Type 0
IsGiven none old new = new ≡ old
IsGiven (some v) old new = new ≡ v

-- The fields that no update changes.
abbrev pub SameRest : Transaction → Transaction → Type 0
SameRest t s =
    (t.timestamp ≡ s.timestamp)
    × (t.from_chain_id ≡ s.from_chain_id)
    × (t.from_chain_address ≡ s.from_chain_address)
    × (t.to_chain_id ≡ s.to_chain_id)
    × (t.to_chain_address ≡ s.to_chain_address)
    × (t.token_in ≡ s.token_in)
    × (t.token_out ≡ s.token_out)
    × (t.amount_in ≡ s.amount_in)
    × (t.amount_out ≡ s.amount_out)
    × (t.type_of_transfer ≡ s.type_of_transfer)
    × (t.total_steps ≡ s.total_steps)
    × (t.trajectory ≡ s.trajectory)

-- The record with the fields of the update.
pub record IsMerged (u : TransactionUpdate) (old new : TransactionRecord) : Type 0 where
  pub id : new.id ≡ old.id
  pub rest : SameRest new.transaction old.transaction
  pub status : IsGiven u.status old.status new.status
  pub current_step : IsGiven u.current_step old.current_step new.current_step
  pub error : IsGiven u.error old.error new.error
  pub swap_involved : IsGiven u.swap_involved old.swap_involved new.swap_involved
  pub multi_hop_progress :
      IsGiven u.multi_hop_progress old.multi_hop_progress new.multi_hop_progress
  pub multi_hop_total_chains :
      IsGiven u.multi_hop_total_chains old.multi_hop_total_chains new.multi_hop_total_chains

or_else-IsGiven : {A : Type 0} (given : Option A) (old : A) → IsGiven given old (or_else given old)
or_else-IsGiven none old = refl
or_else-IsGiven (some v) old = refl

pub apply_update-IsMerged :
    (u : TransactionUpdate) (old : TransactionRecord) → IsMerged u old (apply_update u old)
unfolding apply_update
apply_update-IsMerged u old = record {
  id = refl;
  rest = (refl, refl, refl, refl, refl, refl, refl, refl, refl, refl, refl, refl);
  status = or_else-IsGiven u.status old.status;
  current_step = or_else-IsGiven u.current_step old.current_step;
  error = or_else-IsGiven u.error old.error;
  swap_involved = or_else-IsGiven u.swap_involved old.swap_involved;
  multi_hop_progress = or_else-IsGiven u.multi_hop_progress old.multi_hop_progress;
  multi_hop_total_chains = or_else-IsGiven u.multi_hop_total_chains old.multi_hop_total_chains;
}
