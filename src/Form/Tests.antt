-- ===== src/Form/Tests.antt =====
-- The form and its address, and a burst of calls of the debounced function.
use spectra_portal.Base.{
  none, some, inl, inr, Bool, true, false, map, ◌≡◌, ◌⊎◌, refl, arith, String, List, [], ◌∷◌,
}
use spectra_portal.Base.Dict.{Dict}
use spectra_portal.Config.{ClientChain, ClientConfig}
use spectra_portal.Form.Chains.{chain_of, has_chain, available_receive_chains}
use spectra_portal.Form.Network.{is_reachable}
use spectra_portal.Form.Reachable.{available_receive_chains-is_reachable}
use spectra_portal.Pathfinder.{FindPathResponse, no_route}
use spectra_portal.Transfer.{TransferPhase, TransferState, initial_state, transfer_reducer}
use spectra_portal.Transfer.Phases.{run}
use spectra_portal.Wallet.Provider.{ChainConnection, Wallets, no_wallets, is_connected_to_chain}
use spectra_portal.Form.Submit.{
  Submission, can_submit, after_refetch, handle_submit, required_chains, is_wallet_ready,
}
use spectra_portal.Form.Ready.{is_wallet_ready-is_connected_to_chain}
use spectra_portal.Form.Starts.{IsStarted, handle_submit-IsStarted}
use spectra_portal.Form.Address.{Page, open_page}
use spectra_portal.Form.Mirrors.{
  Change, send_chain, receive_chain, send_token, amount, change_all, open_page-change_all,
}
use spectra_portal.Form.Debounce.{
  Debounced, fired, first_render, render, call_debounced, run_timer, Step, rendering, calling,
  running, Reach, start, next, IsDebounced, Awaits,
}
use spectra_portal.Form.Answers.{Reach-IsDebounced, Reach-answers}

abbrev params : Dict String
params = ("from_chain", "osmosis-1") ∷ ("send_asset", "OSMO") ∷ []

abbrev changes : List Change
changes = receive_chain "noble-1" ∷ send_chain "cosmoshub-4" ∷ send_token "ATOM" ∷ amount "5" ∷ []

abbrev page : Page
page = change_all changes (open_page params)

page_params : page.params ≡ ("from_chain", "cosmoshub-4") ∷ ("send_asset", "ATOM") ∷ []
unfolding change_all open_page
page_params = refl

open_page-change_all_example :
    ((open_page page.params).form.send_chain ≡ page.form.send_chain)
    × ((open_page page.params).form.receive_chain ≡ page.form.receive_chain)
    × ((open_page page.params).form.send_token ≡ page.form.send_token)
    × ((open_page page.params).form.receive_token ≡ page.form.receive_token)
open_page-change_all_example = open_page-change_all params changes

-- The amount is not written to the address.
amount_lost : ((open_page page.params).form.amount ≡ "") × (page.form.amount ≡ "5")
unfolding change_all open_page
amount_lost = (refl, refl)

-- Two calls within the delay, a render with the callback 1, and the run of its timer.
abbrev typed : Debounced String
typed = render 1 (call_debounced 2000 700 "12" (call_debounced 2000 500 "1" (first_render 0)))

Reach-typed : Reach 2000 0 typed
Reach-typed = next (next (next start (calling 500 "1")) (calling 700 "12")) (rendering 1)

awaits : Awaits 700 "12" typed.log
unfolding render call_debounced
awaits = (refl, refl)

Reach-answers_example :
    (t : Debounced String) × Step 2000 typed t
    × (t.log ≡ fired 2705 typed.callback "12" ∷ typed.log)
Reach-answers_example =
    Reach-answers 2000 0 {s = typed} Reach-typed 700 2705 "12" awaits (omega arith)

abbrev answered : Debounced String
answered = run_timer 2705 (record { due = 2700; args = "12" }) typed

Reach-answered : Reach 2000 0 answered
unfolding render call_debounced
Reach-answered =
    next Reach-typed (running 2705 (record { due = 2700; args = "12" }) refl (omega arith))

Reach-IsDebounced_example : IsDebounced 2000 answered.log
Reach-IsDebounced_example = Reach-IsDebounced 2000 0 {s = answered} Reach-answered

abbrev chain : String → Bool → List String → ClientChain
chain id is_dex connected = record {
  name = id;
  id = id;
  bech32_prefix = id;
  cosmos_sdk_version = "v0.50.1";
  chain_logo = none;
  rpc_endpoints = [];
  rest_endpoints = [];
  native_tokens = [];
  ibc_tokens = [];
  connected_chains =
      map (λ c. record { id = c; name = c; logo = none; sendable_tokens = [] }) connected;
  is_dex = is_dex;
  keplr_chain_config = record { fee_currencies = [] };
}

-- The broker is connected to both others, of which one is connected to the broker alone.
abbrev config : ClientConfig
config = record {
  version = "1";
  chains =
      chain "hub" false ("dex" ∷ [])
      ∷ chain "dex" true ("hub" ∷ "noble" ∷ "gone" ∷ [])
      ∷ chain "noble" false ("dex" ∷ [])
      ∷ [];
  all_tokens = [];
}

listed : map (λ c. c.id) (available_receive_chains config "hub") ≡ "dex" ∷ "noble" ∷ []
unfolding available_receive_chains
listed = refl

available_receive_chains-is_reachable_example :
    has_chain "noble" (available_receive_chains config "hub") ≡ is_reachable config "hub" "noble"
available_receive_chains-is_reachable_example =
    available_receive_chains-is_reachable config "hub" "noble" refl

abbrev connection : String → ChainConnection
connection id = record { chain_id = id; address = "1"; chain_config = chain id false [] }

-- The broker between is connected too.
abbrev wallets : Wallets
wallets = record no_wallets {
  connections =
      ("hub", connection "hub") ∷ ("dex", connection "dex") ∷ ("noble", connection "noble") ∷ [];
}

is_ready :
    is_wallet_ready wallets (required_chains config "hub" "noble" ("dex" ∷ "noble" ∷ [])) ≡ true
unfolding is_wallet_ready required_chains is_connected_to_chain chain_of
is_ready = refl

-- Without wallets it is not ready.
is_missed : is_wallet_ready no_wallets (required_chains config "hub" "noble" ("dex" ∷ [])) ≡ false
unfolding is_wallet_ready required_chains is_connected_to_chain chain_of
is_missed = refl

is_wallet_ready-is_connected_to_chain_example : is_connected_to_chain wallets "dex" ≡ true
unfolding chain_of
is_wallet_ready-is_connected_to_chain_example =
    is_wallet_ready-is_connected_to_chain config wallets "hub" "noble" ("dex" ∷ "noble" ∷ []) "dex"
      {chain = chain "dex" true ("hub" ∷ "noble" ∷ "gone" ∷ [])} is_ready (inr (inl (inl refl)))
      refl

abbrev answer : String → FindPathResponse
answer message = record { success = true; error_message = message; route = no_route }

-- The quote that is shown is stale.
abbrev submission : Submission
submission = record {
  wallets_ready = true;
  response = some (answer "shown");
  route_loading = false;
  route_pending = false;
  is_positive = true;
  insufficient_balance = false;
  balance_loading = false;
  route_is_stale = true;
}

abbrev shown : TransferState
shown = record initial_state { pathfinder_response = some (answer "shown") }

abbrev submitted : TransferState
submitted = record shown {
  phase = TransferPhase.preparing;
  pathfinder_response = some (answer "fresh");
}

starts : run (handle_submit (some (some (answer "fresh"))) submission) shown ≡ some submitted
unfolding run transfer_reducer handle_submit can_submit after_refetch
starts = refl

handle_submit-IsStarted_example :
    (submitted ≡ shown) ⊎ IsStarted submission shown (some (some (answer "fresh"))) submitted
handle_submit-IsStarted_example =
    handle_submit-IsStarted submission shown (some (some (answer "fresh"))) {next = submitted}
      starts
