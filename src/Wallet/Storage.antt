-- ===== src/Wallet/Storage.antt =====
-- What client_app/src/context/walletContext.tsx keeps in the browser's local storage.
use spectra_portal.Base.{
  String, Bool, true, List, [], ◌∷◌, Option, none, some, if◌then◌else◌, ◌&&◌, not, str_eq,
  is_truthy, starts_with, ◌<>◌,
}
use spectra_portal.Base.Dict
use spectra_portal.Base.Dict.{Dict}
use spectra_portal.Config.{ClientChain}
use spectra_portal.Wallet.Utility.{WalletType, name_of}

-- `WalletConnectionState`, with the chain's configuration.
pub record WalletConnectionState : Type 0 where
  pub wallet_type : WalletType
  pub address : String
  pub chain_id : String
  pub chain_config : ClientChain

abbrev pub key_prefix : String
key_prefix = "spectra_portal_wallet_"

abbrev pub type_key : String
type_key = "spectra_portal_wallet_type"

abbrev pub key_of : String → String
key_of chain_id = key_prefix <> chain_id

-- `key?.startsWith("spectra_portal_wallet_") && key !== "spectra_portal_wallet_type"`
abbrev pub is_state_key : String → Bool
is_state_key key = starts_with key_prefix key && not (str_eq key type_key)

-- A text that is stored; the JSON of a state is kept as the state.
pub data Item : Type 0 where
  plain : String → Item
  state_item : WalletConnectionState → Item

-- `JSON.parse`, where `none` is its exception.
unfoldable pub parse : Item → Option WalletConnectionState
parse (plain t) = none
parse (state_item s) = some s

-- `!!item`
abbrev pub is_present : Item → Bool
is_present (plain t) = is_truthy t
is_present (state_item s) = true

unfoldable pub save_wallet_state : WalletConnectionState → Dict Item → Dict Item
save_wallet_state state storage =
    Dict.set type_key (plain (name_of state.wallet_type))
      (Dict.set (key_of state.chain_id) (state_item state) storage)

abbrev pub and_parsed :
    Option WalletConnectionState → List WalletConnectionState → List WalletConnectionState
and_parsed none states = states
and_parsed (some state) states = state ∷ states

-- The loop over the keys.
unfoldable pub saved_states : Dict Item → List WalletConnectionState
unfolding parse
saved_states [] = []
saved_states ((key, item) ∷ storage) =
    let states = saved_states storage in
    if is_state_key key && is_present item then and_parsed (parse item) states else states

unfoldable pub load_all_wallet_states : Dict Item → List WalletConnectionState
unfolding saved_states
load_all_wallet_states storage = elim (Dict.get type_key storage) [
  | none ↦ []
  | some type ↦ if is_present type then saved_states storage else []
]

-- `clearWalletState` without a chain: the keys with the prefix are removed.
unfoldable pub clear_all : Dict Item → Dict Item
clear_all [] = []
clear_all ((key, item) ∷ storage) =
    let rest = clear_all storage in if starts_with key_prefix key then rest else (key, item) ∷ rest

unfoldable pub clear_wallet_state : String → Dict Item → Dict Item
unfolding clear_all
clear_wallet_state chain_id storage =
    if is_truthy chain_id then Dict.delete (key_of chain_id) storage else clear_all storage
