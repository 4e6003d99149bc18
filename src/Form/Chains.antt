-- ===== src/Form/Chains.antt =====
-- The chains to receive on, as client_app/src/components/ui/send/senderUi.tsx lists them for a chain to
-- send from: those that it is connected to, and those behind a broker chain.
use spectra_portal.Base.{
  String, Bool, false, not, ◌&&◌, ◌||◌, List, [], ◌∷◌, ◌++◌, Option, none, some, if◌then◌else◌,
  find, filter, str_eq, is_truthy,
}
use spectra_portal.Config.{ClientChain, ConnectedChainInfo, ClientConfig}

-- `config.chains.find((chain) => chain.id === chainId)`
unfoldable pub chain_of : ClientConfig → String → Option ClientChain
chain_of config id = find (λ chain. str_eq chain.id id) config.chains

-- `xs.some((x) => x.id === id)` on chains, and on the entries of a chain.
unfoldable pub has_chain : String → List ClientChain → Bool
has_chain id [] = false
has_chain id (chain ∷ chains) = str_eq chain.id id || has_chain id chains

unfoldable pub has_connected : String → List ConnectedChainInfo → Bool
has_connected id [] = false
has_connected id (chain ∷ chains) = str_eq chain.id id || has_connected id chains

-- `.map((cc) => getChainById(cc.id)).filter((c) => c !== undefined)`
unfoldable pub known_chains : ClientConfig → List ConnectedChainInfo → List ClientChain
unfolding chain_of
known_chains config [] = []
known_chains config (entry ∷ entries) =
    let rest = known_chains config entries in
    elim (chain_of config entry.id) [ none ↦ rest | some chain ↦ chain ∷ rest ]

unfoldable pub get_connected_chains : ClientConfig → String → List ClientChain
unfolding chain_of known_chains
get_connected_chains config id = elim (chain_of config id) [
  | none ↦ []
  | some chain ↦ known_chains config chain.connected_chains
]

-- `sourceChain?.connected_chains.some((cc) => cc.id === broker.id) || sendChain === broker.id`
unfoldable pub can_use : ClientConfig → (send_chain : String) → ClientChain → Bool
unfolding chain_of has_connected
can_use config send_chain broker = elim (chain_of config send_chain) [
  | none ↦ str_eq send_chain broker.id
  | some source ↦ has_connected broker.id source.connected_chains || str_eq send_chain broker.id
]

module _ (config : ClientConfig) (send_chain : String) (direct : List ClientChain) where
  -- A chain that a broker is connected to.
  unfoldable pub add_connected : ConnectedChainInfo → List ClientChain → List ClientChain
  unfolding chain_of has_chain
  add_connected entry via =
      if not (has_chain entry.id direct) && not (str_eq entry.id send_chain)
      then elim (chain_of config entry.id) [
        | none ↦ via
        | some chain ↦ if has_chain chain.id via then via else via ++ chain ∷ []
      ]
      else via

  unfoldable pub add_all : List ConnectedChainInfo → List ClientChain → List ClientChain
  unfolding add_connected
  add_all [] via = via
  add_all (entry ∷ entries) via = add_all entries (add_connected entry via)

  -- The loop over the broker chains.
  unfoldable pub add_brokers : List ClientChain → List ClientChain → List ClientChain
  unfolding add_all can_use
  add_brokers [] via = via
  add_brokers (broker ∷ brokers) via =
      add_brokers brokers
        (if can_use config send_chain broker then add_all broker.connected_chains via else via)

unfoldable pub available_receive_chains : ClientConfig → String → List ClientChain
unfolding add_brokers get_connected_chains
available_receive_chains config send_chain =
    let direct = get_connected_chains config send_chain in
    if is_truthy send_chain
    then direct
      ++ add_brokers config send_chain direct (filter (λ chain. chain.is_dex) config.chains) []
    else []
