-- ===== src/Task/Tests.antt =====
-- A run of the executor of client_app/src/context/taskProvider.tsx: one swap.
use spectra_portal.Base.{
  ℕ, Bool, String, show_nat, suc, ◌≡◌, refl, true, false, [], ◌∷◌, none, some, str_eq,
}
use spectra_portal.Pathfinder
use spectra_portal.Pathfinder.{BrokerSwapRoute, FindPathResponse, osmosis_route_data}
use spectra_portal.Config.{ClientChain, ClientConfig}
use spectra_portal.Transfer.{
  smart, transfer_reducer, TransferState, TransferStep, StepType, new_step, initial_state,
}
use spectra_portal.IndexDb.Memory.{memory, empty}
use spectra_portal.Tracking.{ChainApi, missing}
use spectra_portal.Task.{
  sent, World, done, ◌>>=◌, execute_steps_with_tracking, execute_transfer, success_result,
}
use spectra_portal.Task.Platform
use spectra_portal.Messages.{EncodeObject, msg_swap, to_number}
use spectra_portal.Health.Checks.{replied, contents}
use spectra_portal.Health.Client.{get_random_healthy_rpc}
use spectra_portal.Wallet.Utility.{keplr}
use spectra_portal.Wallet.Provider.{Wallets, get_address}
use spectra_portal.Wallet.Send
use spectra_portal.Wallet.Send.{
  Signing, TransactionOptions, continue_with, answered, send_transaction,
}
use spectra_portal.Wallet.Quiet.{Signs}
use spectra_portal.Wallet.Signs.{IsSigned, send_transaction-Signs}
use spectra_portal.Task.Step.{prepare, prepared, swap_message}
use spectra_portal.Task.Sender.{SignsOwn, send_transaction-SignsOwn}
use spectra_portal.Task.Ensures.{Ensures}
use spectra_portal.Task.Outcomes.{Ends, execute_transfer-Ends, execute_transfer-execution_lock}
use spectra_portal.Task.Runs.{Completes, execute_steps_with_tracking-Completes}

-- No chain answers a query.
abbrev silent : ChainApi
silent = record {
  Net = ℕ;
  healthy_api = λ _ n. (none, n);
  by_events = λ _ _ n. (missing, n);
  by_hash = λ _ _ n. (none, n);
  now = λ n. (n, suc n);
  new_controller = λ n. n;
  aborted = λ n. (false, n);
  sleep = λ _ n. n;
  get_time = λ _. none;
}

-- The wallet has an address on each chain and sends every transaction.
abbrev platform : Platform.Platform
platform = record {
  api = silent;
  db = memory;
  get_address = λ chain. some chain;
  send_transaction = λ _ _ _ _ n. (sent 0 "AB", n);
  iso_time = λ n. ("2025-01-01", n);
  to_lower_case = λ text. text;
  includes = str_eq;
  big_int = λ amount. some amount;
  type_error = "undefined";
}

abbrev osmosis : ClientChain
osmosis = record {
  name = "Osmosis";
  id = "osmosis-1";
  bech32_prefix = "osmo";
  cosmos_sdk_version = "0.50";
  chain_logo = none;
  rpc_endpoints = [];
  rest_endpoints = [];
  native_tokens = [];
  ibc_tokens = [];
  connected_chains = [];
  is_dex = false;
  keplr_chain_config = record { fee_currencies = [] };
}

abbrev config : ClientConfig
config = record { version = "1"; chains = osmosis ∷ []; all_tokens = [] }

abbrev route : BrokerSwapRoute
route = record {
  path = "osmosis-1" ∷ [];
  inbound_legs = [];
  swap = some (record {
    broker = "osmosis";
    token_in = none;
    token_out = none;
    amount_in = "5";
    amount_out = "7";
    price_impact = "0";
    route_data = osmosis_route_data (
        record {
          pools = record { id = 1; token_out_denom = "uosmo" } ∷ [];
          out_amount = "7";
          in_amount = "5";
        }
        ∷ []);
  });
  outbound_legs = [];
  outbound_supports_pfm = false;
  execution = none;
}

abbrev swap_step : TransferStep
swap_step =
    new_step "swap" StepType.swap (some "osmosis-1") (some "osmosis-1")
      (record {
        channel = none;
        port = none;
        amount = some "5";
        denom = none;
        memo = none;
        smart_contract_data = none;
      })
      none

abbrev quoted : TransferState
quoted = record initial_state {
  pathfinder_response =
      some
        (record { success = true; error_message = ""; route = Pathfinder.Route.broker_swap route });
  steps = swap_step ∷ [];
}

abbrev before : World platform
before = record {
  transfer = quoted;
  store = empty;
  net = 0;
  is_db_ready = true;
  is_executing = true;
  execution_lock = true;
}

abbrev after : World platform
after =
    (execute_steps_with_tracking platform quoted config smart [] none (swap_step ∷ []) 0 before).1

swapped :
    execute_steps_with_tracking platform quoted config smart [] none (swap_step ∷ []) 0 before
    ≡ (done success_result, after)
unfolding execute_steps_with_tracking ◌>>=◌ transfer_reducer
swapped = refl

execute_steps_with_tracking-Completes_example :
    Ensures
      (Completes platform quoted config smart [] none (swap_step ∷ []) 0)
      (execute_steps_with_tracking platform quoted config smart [] none (swap_step ∷ []) 0 before)
execute_steps_with_tracking-Completes_example =
    execute_steps_with_tracking-Completes platform quoted config smart [] none (swap_step ∷ []) 0
      before refl refl

abbrev answer : FindPathResponse
answer = record { success = true; error_message = ""; route = Pathfinder.Route.broker_swap route }

abbrev waiting : World platform
waiting = record before { is_executing = false; execution_lock = false }

execute_transfer-Ends_example :
    Ends platform answer smart config (execute_transfer platform answer smart config waiting)
execute_transfer-Ends_example = execute_transfer-Ends platform answer smart config waiting refl

execute_transfer-execution_lock_example :
    ((execute_transfer platform answer smart config before).1.execution_lock ≡ true)
    × (before.execution_lock ≡ true
        → before.is_db_ready ≡ true
        → answer.success ≡ true
        → execute_transfer platform answer smart config before ≡ (done tt, before))
execute_transfer-execution_lock_example =
    execute_transfer-execution_lock platform answer smart config before

-- A wallet that signs whatever it is asked to, with a key on a Ledger where `is_ledger` says so.
abbrev signing : Bool → Signing
signing is_ledger = record {
  Net = ℕ;
  Keplr = ℕ;
  Signer = ℕ;
  Price = String;
  Client = ℕ;
  Signed = ℕ;
  get_wallet = λ _ n. (answered 0, n);
  is_nano_ledger = λ _ _ n. (answered is_ledger, n);
  get_offline_signer_auto = λ _ _ n. (answered 0, n);
  gas_price = λ text. some text;
  fetch_health =
      λ _ n. (replied 200 (contents (record { apis = none; rpcs = some ("rpc" ∷ []) })), n);
  pick = λ _ _. 0;
  connect_with_signer = λ _ _ _ n. (answered 0, n);
  connect = λ _ n. (answered 0, n);
  simulate = λ _ _ _ _ n. (answered (some 101), n);
  calculate_fee = λ gas price. record { amount = []; gas = show_nat gas };
  get_account = λ _ _ n. (answered (some (3, 4)), n);
  sign = λ _ _ _ _ _ _ n. (answered 0, n);
  broadcast = λ _ _ n. (answered (record { transaction_hash = "AB"; code = 0; height = none }), n);
  sign_and_broadcast =
      λ _ _ _ _ _ n. (answered (record { transaction_hash = "AB"; code = 0; height = none }), n);
}

abbrev priced : ClientChain
priced = record osmosis {
  keplr_chain_config = record {
    fee_currencies = record { coin_minimal_denom = "uosmo"; average = "0.03" } ∷ [];
  };
}

abbrev wallets : Wallets
wallets = record {
  connections =
      ("osmosis-1", record { chain_id = "osmosis-1"; address = "osmo1"; chain_config = priced })
      ∷ [];
  wallet_type = some keplr;
  storage = [];
}

abbrev automatic : TransactionOptions
automatic = record { fee = none; memo = some "hi"; gas_adjustment = none; chain_config = none }

abbrev unsigned : (is_ledger : Bool) → Send.WalletWorld (signing is_ledger)
unsigned is_ledger = record { net = 0; requests = [] }

abbrev swap_out : EncodeObject
swap_out =
    msg_swap "osmo1" (record { amount = "5"; denom = "" })
      (record { pool_id = 1; token_out_denom = "uosmo" } ∷ []) "7"

-- 101 units of gas, adjusted by one and a half and rounded up, are 152.
ledger_signs :
    (send_transaction
      (signing true)
      wallets
      "osmosis-1"
      (swap_out ∷ [])
      automatic
      (unsigned true)).1.requests
    ≡ record {
      address = "osmo1";
      messages = swap_out ∷ [];
      fee = record { amount = []; gas = "152" };
      memo = "hi";
      explicit = some (record { account_number = 3; sequence = 4; chain_id = "osmosis-1" });
    }
      ∷ []
unfolding send_transaction continue_with get_random_healthy_rpc show_nat
ledger_signs = refl

send_transaction-Signs_example :
    Signs
      (signing true)
      (IsSigned (signing true) wallets "osmosis-1" (swap_out ∷ []) automatic)
      []
      (send_transaction
        (signing true)
        wallets
        "osmosis-1"
        (swap_out ∷ [])
        automatic
        (unsigned true))
send_transaction-Signs_example =
    send_transaction-Signs (signing true) wallets "osmosis-1" (swap_out ∷ []) automatic
      (unsigned true)

shown : get_address wallets "osmosis-1" ≡ some "osmo1"
unfolding get_address
shown = refl

made : prepare platform quoted 0 swap_step "osmo1" ≡ prepared swap_out "Spectra Osmosis Swap"
unfolding prepare swap_message
made = refl

send_transaction-SignsOwn_example : Signs (signing false) SignsOwn [] (
    send_transaction (signing false) wallets "osmosis-1" (swap_out ∷ []) automatic (unsigned false))
send_transaction-SignsOwn_example =
    send_transaction-SignsOwn platform quoted (signing false) wallets "osmosis-1" 0 swap_step
      automatic (unsigned false) shown made

rounded : to_number 1700000000123456789 ≡ 1700000000123456768
unfolding to_number
rounded = refl

exact : to_number 9007199254740991 ≡ 9007199254740991
unfolding to_number
exact = refl
