-- ===== src/Form/Network.antt =====
-- Which chains can be reached from a chain by the configuration alone: what
-- client_app/src/components/ui/send/senderUi.tsx is to list, without how it computes it.
use spectra_portal.Base.{
  ◌≡◌, refl, ap, ◌∙◌, arith, String, Bool, false, not, ◌&&◌, ◌||◌, List, [], ◌∷◌, map, none, some,
  find, str_eq, is_some, Bool-cases, Option-cases, inl, inr, eq_iff,
}
use spectra_portal.Config.{ClientChain, ConnectedChainInfo, ClientConfig}
use spectra_portal.Form.Chains.{chain_of, has_connected, can_use}

abbrev pub names : String → List String → Bool
names id [] = false
names id (k ∷ ks) = str_eq k id || names id ks

abbrev pub linked : ClientChain → List String
linked chain = map (λ entry. entry.id) chain.connected_chains

-- The ids that a chain is connected to.
abbrev pub neighbours : ClientConfig → String → List String
neighbours config id = elim (find (λ chain. str_eq chain.id id) config.chains) [
  | none ↦ []
  | some chain ↦ linked chain
]

-- Whether one of the chains is a broker that is connected to `id`, and is the chain to send from or
-- one that this is connected to.
abbrev pub behind_broker : ClientConfig → (send_chain id : String) → List ClientChain → Bool
behind_broker config send_chain id [] = false
behind_broker config send_chain id (chain ∷ chains) =
    (chain.is_dex
      && ((str_eq chain.id send_chain || names chain.id (neighbours config send_chain))
          && names id (linked chain)))
    || behind_broker config send_chain id chains

-- A chain to receive on: it is configured, and the chain to send from is connected to it, or it is
-- another chain behind a broker.
unfoldable pub is_reachable : ClientConfig → String → String → Bool
is_reachable config send_chain id =
    names id (map (λ chain. chain.id) config.chains)
    && (names id (neighbours config send_chain)
        || (not (str_eq id send_chain) && behind_broker config send_chain id config.chains))

pub has_connected-names :
    (id : String) (entries : List ConnectedChainInfo)
    → has_connected id entries ≡ names id (map (λ entry. entry.id) entries)
unfolding has_connected
has_connected-names id [] = refl
has_connected-names id (entry ∷ entries) =
    ap (λ b. str_eq entry.id id || b) (has_connected-names id entries)

find-names :
    (id : String) (chains : List ClientChain)
    → is_some (find (λ chain. str_eq chain.id id) chains)
      ≡ names id (map (λ chain. chain.id) chains)
find-names id [] = refl
find-names id (chain ∷ chains) = elim (Bool-cases (str_eq chain.id id)) [
  | inl same ↦ rw same refl
  | inr other ↦ rw other (find-names id chains)
]

pub chain_of-names :
    (config : ClientConfig) (id : String)
    → is_some (chain_of config id) ≡ names id (map (λ chain. chain.id) config.chains)
unfolding chain_of
chain_of-names config id = find-names id config.chains

str_eq_comm : (a b : String) → str_eq a b ≡ str_eq b a
str_eq_comm a b = ground (arith, eq_iff a b, eq_iff b a)

pub can_use-names :
    (config : ClientConfig) (send_chain : String) (broker : ClientChain)
    → can_use config send_chain broker
      ≡ (str_eq broker.id send_chain || names broker.id (neighbours config send_chain))
unfolding can_use chain_of
can_use-names config send_chain broker =
    elim (Option-cases (find (λ chain. str_eq chain.id send_chain) config.chains)) [
      | inl e ↦ rw (can_use, e) (str_eq_comm send_chain broker.id ∙ (ground arith))
      | inr (source, e) ↦
          rw
            (
              can_use,
              e,
              has_connected-names broker.id source.connected_chains,
              str_eq_comm send_chain broker.id,
            )
            (ground arith)
    ]
