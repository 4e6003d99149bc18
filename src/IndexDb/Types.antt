-- ===== src/IndexDb/Types.antt =====
-- `TransactionRecord` and `TransactionUpdate` of client_app/src/lib/indexDb/dbManager.ts.
use spectra_portal.Base.{ℕ, String, Bool, List, Option}
use spectra_portal.Transfer.{TransferMode}

pub data Status : Type 0 where
  success failed in_progress canceled : Status

-- `Omit<TransactionRecord, "id">`
pub record Transaction : Type 0 where
  pub timestamp : String
  pub from_chain_id : String
  pub from_chain_address : String
  pub to_chain_id : String
  pub to_chain_address : String
  pub token_in : String
  pub token_out : String
  pub amount_in : String
  pub amount_out : String
  pub type_of_transfer : TransferMode
  pub status : Status
  pub total_steps : ℕ
  pub current_step : ℕ
  pub trajectory : Option (List String)
  pub error : Option String
  pub swap_involved : Bool
  pub multi_hop_progress : Option ℕ
  pub multi_hop_total_chains : Option ℕ

pub record TransactionRecord : Type 0 where
  pub id : Option ℕ
  pub transaction : Transaction
  pub open transaction use *

-- A key that is left out is `none`; a key that is null is `some none`.
pub record TransactionUpdate : Type 0 where
  pub id : ℕ
  pub status : Option Status
  pub current_step : Option ℕ
  pub error : Option (Option String)
  pub swap_involved : Option Bool
  pub multi_hop_progress : Option (Option ℕ)
  pub multi_hop_total_chains : Option (Option ℕ)
