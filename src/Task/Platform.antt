-- ===== src/Task/Platform.antt =====
-- What the executor of client_app/src/context/taskProvider.tsx is given, and the world that it acts
-- on.
use spectra_portal.Base.{ℕ, String, Bool, Option}
use spectra_portal.Config.{ClientChain}
use spectra_portal.Messages.{EncodeObject}
use spectra_portal.Transfer.{TransferState}
use spectra_portal.IndexDb.{ObjectStore}
use spectra_portal.Tracking.{ChainApi}

-- The wallet's answer: the code and the hash of the transaction, or the message of an exception.
pub data SendResult : Type 0 where
  sent : (code : ℕ) → (hash : String) → SendResult
  threw_error : String → SendResult

-- `get_address` and `send_transaction` are those of the wallet context; `iso_time` is
-- `new Date().toISOString()`; `to_lower_case` and `includes` are the methods of texts;
-- `big_int` is `BigInt(text).toString()`; `type_error` is the message of the
-- exception on a missing leg.
pub record Platform : Type 1 where
  pub api : ChainApi
  pub db : ObjectStore
  pub get_address : String → Option String
  pub send_transaction :
      String → EncodeObject → (memo : String) → ClientChain → api.Net → SendResult × api.Net
  pub iso_time : api.Net → String × api.Net
  pub to_lower_case : String → String
  pub includes : String → String → Bool
  pub big_int : String → Option String
  pub type_error : String

pub record TaskExecutionResult : Type 0 where
  pub success : Bool
  pub tx_hash : Option String
  pub error : Option String
  pub is_retryable : Option Bool

-- An awaited call is done, throws, or writes behind the end of the step list, which leaves the types
-- of the program.
pub data Outcome (A : Type 0) : Type 0 where
  done : A → Outcome A
  threw : String → Outcome A
  stray : Outcome A

module _ (p : Platform) where
  -- `execution_lock` is the ref of that name, and `is_db_ready` says that `db` is not null.
  pub record World : Type 0 where
    pub transfer : TransferState
    pub store : p.db.Store
    pub net : p.api.Net
    pub is_db_ready : Bool
    pub is_executing : Bool
    pub execution_lock : Bool

  abbrev pub M : Type 0 → Type 0
  M A = World → Outcome A × World
