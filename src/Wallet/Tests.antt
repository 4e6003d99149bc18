-- ===== src/Wallet/Tests.antt =====
-- Runs of the wallets' provider of client_app/src/context/walletContext.tsx and of the wait of
-- client_app/src/lib/wallets/walletUtility.ts.
use spectra_portal.Base.{
  false, ℕ, ◌+◌, ◌<◌, ◌≡◌, refl, Bool, true, [], ◌∷◌, none, some, leb, All, inl, ◌⊎◌, arith,
}
use spectra_portal.Base.Dict
use spectra_portal.Config.{ClientChain}
use spectra_portal.Wallet.Utility.{
  WalletType, keplr, leap, name_of, Ends, wait_for_wallet, wait_for_wallet-Ends,
}
use spectra_portal.Wallet.Storage.{type_key, plain, load_all_wallet_states}
use spectra_portal.Wallet.Provider.{
  Wallets, no_wallets, Extension, connect, connected, other_wallet, disconnect, get_address, reload,
}
use spectra_portal.Wallet.OneWallet.{connecting, Reach, here, next, Reach-one_wallet}
use spectra_portal.Wallet.Connected.{reload-get_address}

-- The extension appears at the time 250.
abbrev installed : WalletType → ℕ → Bool
installed type time = leb 250 time

abbrev timer : ℕ → ℕ
timer time = time + 100

timer-later : (t : ℕ) → t < timer t
timer-later t = omega arith

wait_for_wallet-Ends_example :
    Ends installed timer keplr 1000 7 (wait_for_wallet installed timer keplr 1000 7)
wait_for_wallet-Ends_example = wait_for_wallet-Ends installed timer timer-later keplr 1000 7

abbrev osmosis : ClientChain
osmosis = record {
  name = "osmosis";
  id = "osmosis-1";
  bech32_prefix = "osmo";
  cosmos_sdk_version = "v0.50.1";
  chain_logo = none;
  rpc_endpoints = [];
  rest_endpoints = [];
  native_tokens = [];
  ibc_tokens = [];
  connected_chains = [];
  is_dex = false;
  keplr_chain_config = record { fee_currencies = [] };
}

abbrev extension : Extension
extension = record {
  available = true;
  enable_all = λ ids. true;
  enable_one = λ id. true;
  suggest = λ chains. true;
  enable_suggested = λ ids. true;
  get_key = λ id. some "osmo1";
}

abbrev one : Wallets
one = (connect extension (osmosis ∷ []) keplr no_wallets).1

one-connected : connect extension (osmosis ∷ []) keplr no_wallets ≡ (connected, one)
unfolding connect
one-connected = refl

reload-get_address_example :
    (get_address one "osmosis-1" ≡ some "osmo1")
    × (get_address (reload extension.get_key one.storage) "osmosis-1" ≡ some "osmo1")
reload-get_address_example =
    reload-get_address extension (osmosis ∷ []) keplr no_wallets osmosis {after = one}
      {address = "osmo1"} one-connected (inl refl) refl refl refl

Reach-one : Reach one
Reach-one = next here (connecting extension (osmosis ∷ []) keplr no_wallets)

Reach-one_wallet_example :
    (load_all_wallet_states one.storage ≡ [])
    ⊎ ((type : WalletType) × (Dict.get type_key one.storage ≡ some (plain (name_of type)))
        × All (λ s. s.wallet_type ≡ type) (load_all_wallet_states one.storage)
        × ((one.wallet_type ≡ none) ⊎ (one.wallet_type ≡ some type)))
Reach-one_wallet_example = Reach-one_wallet {w = one} Reach-one

-- The only chain is disconnected by its id: no wallet is left, and yet another one is refused.
abbrev left : Wallets
left = disconnect (some ("osmosis-1" ∷ [])) one

left-connections : left.connections ≡ []
unfolding disconnect connect
left-connections = refl

left-refuses : (connect extension (osmosis ∷ []) leap left).0 ≡ other_wallet
unfolding disconnect connect
left-refuses = refl
