-- ===== src/Wallet/Provider.antt =====
-- `WalletProvider` of client_app/src/context/walletContext.tsx: its state and the operations that
-- connect and disconnect chains.
use mathlib.Core.Option
use spectra_portal.Base.{
  String, Bool, true, false, List, [], ◌∷◌, map, Option, none, some, if◌then◌else◌, ◌&&◌, not,
  str_eq, is_truthy, is_some, length, filter, ◌==◌,
}
use spectra_portal.Base.Dict
use spectra_portal.Base.Dict.{Dict}
use spectra_portal.Config.{ClientChain}
use spectra_portal.Wallet.Utility.{WalletType, name_of}
use spectra_portal.Wallet.Storage.{
  WalletConnectionState, Item, plain, state_item, is_present, type_key, save_wallet_state,
  load_all_wallet_states, clear_all, clear_wallet_state,
}

pub record ChainConnection : Type 0 where
  pub chain_id : String
  pub address : String
  pub chain_config : ClientChain

-- The state of the provider, and the local storage.
pub record Wallets : Type 0 where
  pub connections : Dict ChainConnection
  pub wallet_type : Option WalletType
  pub storage : Dict Item

abbrev pub no_wallets : Wallets
no_wallets = record { connections = []; wallet_type = none; storage = [] }

unfoldable pub is_connected : Wallets → Bool
is_connected w = not (length w.connections == 0)

unfoldable pub get_address : Wallets → String → Option String
get_address w chain_id = elim (Dict.get chain_id w.connections) [
  | none ↦ none
  | some connection ↦ if is_truthy connection.address then some connection.address else none
]

unfoldable pub get_chain_config : Wallets → String → Option ClientChain
get_chain_config w chain_id =
    Option.map (λ connection. connection.chain_config) (Dict.get chain_id w.connections)

unfoldable pub is_connected_to_chain : Wallets → String → Bool
is_connected_to_chain w chain_id = is_some (Dict.get chain_id w.connections)

-- What the extension answers during one call: whether there is a provider; `enable` of all chains, of
-- one, and of those that were suggested; `experimentalSuggestChain` of them; and the address of
-- `getKey`, where `none` is that it rejects.
pub record Extension : Type 0 where
  pub available : Bool
  pub enable_all : List String → Bool
  pub enable_one : String → Bool
  pub suggest : List ClientChain → Bool
  pub enable_suggested : List String → Bool
  pub get_key : String → Option String

abbrev ids_of : List ClientChain → List String
ids_of chains = map (λ chain. chain.id) chains

-- Whether the chains are enabled, those that the extension does not know after it was asked to add
-- them.
unfoldable pub enable_chains : Extension → List ClientChain → Bool
enable_chains extension chains =
    let missing = filter (λ chain. not (extension.enable_one chain.id)) chains in
    if extension.enable_all (ids_of chains)
    then true
    else if length missing == 0
    then true
    else extension.suggest missing && extension.enable_suggested (ids_of missing)

-- The chains whose keys were got, with their addresses.
unfoldable pub keyed : Extension → List ClientChain → List ChainConnection
keyed extension [] = []
keyed extension (chain ∷ chains) =
    let rest = keyed extension chains in
    elim (extension.get_key chain.id) [
      | none ↦ rest
      | some address ↦
          record { chain_id = chain.id; address = address; chain_config = chain } ∷ rest
    ]

abbrev pub state_of : WalletType → ChainConnection → WalletConnectionState
state_of type connection = record {
  wallet_type = type;
  address = connection.address;
  chain_id = connection.chain_id;
  chain_config = connection.chain_config;
}

pub data ConnectResult : Type 0 where
  connected : ConnectResult
  other_wallet : ConnectResult
  failed : ConnectResult

-- Each operation runs from its call to its end before the next one starts.
-- The loop over the keys that were got.
unfoldable pub record_connections : WalletType → List ChainConnection → Wallets → Wallets
unfolding save_wallet_state
record_connections type [] w = w
record_connections type (connection ∷ rest) w = record_connections type rest (record w {
  connections = Dict.set connection.chain_id connection w.connections;
  storage = save_wallet_state (state_of type connection) w.storage;
})

-- `existing === walletType`
abbrev pub is_named : WalletType → Item → Bool
is_named type (plain t) = str_eq t (name_of type)
is_named type (state_item s) = false

-- `existingWalletType && existingWalletType !== walletTypeParam`
abbrev pub is_other : WalletType → Dict Item → Bool
is_other type storage = elim (Dict.get type_key storage) [
  | none ↦ false
  | some existing ↦ is_present existing && not (is_named type existing)
]

abbrev with_type : WalletType → Wallets → Wallets
with_type type w = record w { wallet_type = some type }

unfoldable pub connect :
    Extension → List ClientChain → WalletType → Wallets → ConnectResult × Wallets
unfolding enable_chains keyed record_connections
connect extension chains type w =
    if is_other type w.storage
    then (other_wallet, w)
    else if extension.available && enable_chains extension chains
    then (connected, with_type type (record_connections type (keyed extension chains) w))
    else (failed, w)

-- The loop of `disconnect` over the chains.
unfoldable pub delete_chains : List String → Wallets → Wallets
unfolding clear_wallet_state
delete_chains [] w = w
delete_chains (id ∷ ids) w = delete_chains ids (record w {
  connections = Dict.delete id w.connections;
  storage = clear_wallet_state id w.storage;
})

unfoldable pub disconnect_all : Wallets → Wallets
unfolding clear_all
disconnect_all w = record { connections = []; wallet_type = none; storage = clear_all w.storage }

-- `connections.size` is the size before the chains are deleted.
unfoldable pub disconnect : Option (List String) → Wallets → Wallets
unfolding delete_chains disconnect_all
disconnect none w = disconnect_all w
disconnect (some []) w = disconnect_all w
disconnect (some (id ∷ ids)) w =
    let left = delete_chains (id ∷ ids) w in
    if length w.connections == length (id ∷ ids) then record left { wallet_type = none } else left

-- `autoReconnectToChain`, with the wallet type that its closure saw when it was rendered, and what the
-- wallet answers to `getKey`, if it is there.
unfoldable pub auto_reconnect_to_chain :
    (seen : Option WalletType) → Option String → WalletConnectionState → Wallets → Wallets
unfolding clear_wallet_state
auto_reconnect_to_chain seen (some address) saved w = record w {
  connections =
      Dict.set saved.chain_id
        (record { chain_id = saved.chain_id; address = address; chain_config = saved.chain_config })
        w.connections;
  wallet_type = if is_some seen then w.wallet_type else some saved.wallet_type;
}
auto_reconnect_to_chain seen none saved w = record w {
  storage = clear_wallet_state saved.chain_id w.storage;
}

-- The effect of the first rendering: each saved state is reconnected.
unfoldable pub auto_reconnect :
    (seen : Option WalletType)
    → (String → Option String)
    → List WalletConnectionState
    → Wallets
    → Wallets
unfolding auto_reconnect_to_chain
auto_reconnect seen get_key [] w = w
auto_reconnect seen get_key (saved ∷ states) w =
    auto_reconnect seen get_key states
      (auto_reconnect_to_chain seen (get_key saved.chain_id) saved w)

-- A page that is loaded anew with a local storage.
unfoldable pub reload : (String → Option String) → Dict Item → Wallets
unfolding auto_reconnect
reload get_key storage =
    auto_reconnect none get_key (load_all_wallet_states storage)
      (record { connections = []; wallet_type = none; storage = storage })
