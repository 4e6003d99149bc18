-- ===== src/Tracking/Types.antt =====
-- The types of client_app/src/hooks/ibcTracking/types.ts, and of the responses of
-- client_app/src/components/modules/cosmosApiData.ts that the tracking reads.
use spectra_portal.Base.{ℕ, String, Bool, List, Option, none, some, false}
use spectra_portal.Config.{ClientChain}

pub record PacketData : Type 0 where
  pub packet_data_hex : String
  pub packet_timeout : String
  pub packet_sequence : String
  pub packet_src_port : String
  pub packet_src_channel : String
  pub packet_dst_port : String
  pub packet_dst_channel : String
  pub packet_channel_ordering : String
  pub packet_connection_id : String

pub record EventAttribute : Type 0 where
  pub key : String
  pub value : String

pub record TransactionEvents : Type 0 where
  pub type : String
  pub attributes : List EventAttribute

-- A transaction of a `tx_response` or of the list `tx_responses`.
pub record TxResponse : Type 0 where
  pub txhash : String
  pub code : ℕ
  pub timestamp : String
  pub events : List TransactionEvents

-- `EvTransactionResponse | TransactionResponseError | null`
pub data FetchResult : Type 0 where
  found : List TxResponse → FetchResult
  failed : ℕ → String → FetchResult
  missing : FetchResult

pub record IbcTrackingResult : Type 0 where
  pub success : Bool
  pub tx_hash : Option String
  pub error : Option String
  pub next_send_packet : Option PacketData
  pub recv_timestamp : Option String

pub record TrackingOptions : Type 0 where
  pub max_attempts : ℕ
  pub poll_interval : ℕ
  pub timeout : ℕ

abbrev pub default_options : TrackingOptions
default_options = record { max_attempts = 60; poll_interval = 10000; timeout = 600000 }

abbrev pub failure : String → Option String → IbcTrackingResult
failure error tx_hash = record {
  success = false;
  tx_hash = tx_hash;
  error = some error;
  next_send_packet = none;
  recv_timestamp = none;
}

-- What the tracking asks of the chains, the clock and the abort signal; a call may change the `Net`.
-- `by_hash` is `fetchTransactionByHash`, `by_events` is `fetchTransactionByEvents` and `healthy_api`
-- is `getRandomHealthyApiImperative`; `get_time` is `new Date(timestamp).getTime()`, where `none` is
-- NaN.
pub record ChainApi : Type 1 where
  pub Net : Type 0
  pub healthy_api : String → Net → Option String × Net
  pub by_events : ClientChain → List String → Net → FetchResult × Net
  pub by_hash : String → String → Net → Option TxResponse × Net
  pub now : Net → ℕ × Net
  pub new_controller : Net → Net
  pub aborted : Net → Bool × Net
  pub sleep : ℕ → Net → Net
  pub get_time : String → Option ℕ
