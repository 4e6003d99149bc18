-- ===== src/Form/Reachable.antt =====
-- Which chains client_app/src/components/ui/send/senderUi.tsx lists to receive on.
use spectra_portal.Base.{
  ◌≡◌, refl, sym, ap, ◌∙◌, arith, String, Bool, true, false, not, ◌&&◌, ◌||◌, List, [], ◌∷◌, ◌++◌,
  none, some, find, filter, str_eq, is_truthy, is_some, Bool-cases, Option-cases, inl, inr, eq_iff,
  eq_of_some,
}
use spectra_portal.Config.{ClientChain, ConnectedChainInfo, ClientConfig}
use spectra_portal.Form.Network.{
  names, neighbours, behind_broker, is_reachable, has_connected-names, chain_of-names,
  can_use-names,
}
use spectra_portal.Form.Chains.{
  chain_of, has_chain, has_connected, known_chains, get_connected_chains, add_connected, add_all,
  can_use, add_brokers, available_receive_chains,
}

pub has_chain-append :
    (id : String) (xs ys : List ClientChain)
    → has_chain id (xs ++ ys) ≡ (has_chain id xs || has_chain id ys)
unfolding has_chain
has_chain-append id [] ys = refl
has_chain-append id (x ∷ xs) ys = ground (arith, has_chain-append id xs ys)

or_and : (a b c d : Bool) → ((a || (b && d)) || (c && d)) ≡ (a || ((b || c) && d))
or_and true b c d = refl
or_and false true c true = refl
or_and false true c false = ground arith
or_and false false c d = refl

-- The chains behind a broker are listed where they are not neighbours, which are listed already.
absorb :
    (n s b k : Bool)
    → ((n && s) || (false || (b && ((not (n && s) && not k) && s)))) ≡ (s && (n || (not k && b)))
absorb true true b k = refl
absorb false s true true = ground arith
absorb false s true false = ground arith
absorb false s false k = ground arith
absorb true false true k = ground arith
absorb true false false k = refl

find_id :
    (id : String) (chains : List ClientChain) {chain : ClientChain}
    → find (λ c. str_eq c.id id) chains ≡ some chain
    → chain.id ≡ id
find_id id [] e = absurd cc
find_id id (c ∷ chains) {chain} e = elim (Bool-cases (str_eq c.id id)) [
  | inl same ↦ ap (λ x. x.id) (sym (eq_of_some (rw same at e))) ∙ (eq_iff c.id id).0 same
  | inr other ↦ find_id id chains (rw other at e)
]

pub chain_of_id :
    (config : ClientConfig) (id : String) {chain : ClientChain}
    → chain_of config id ≡ some chain
    → chain.id ≡ id
unfolding chain_of
chain_of_id config id e = find_id id config.chains e

-- Whether an entry names the chain, and the chain is configured.
has_chain-known_chains :
    (config : ClientConfig) (id : String) (entries : List ConnectedChainInfo)
    → has_chain id (known_chains config entries)
      ≡ (has_connected id entries && is_some (chain_of config id))
unfolding has_chain known_chains has_connected
has_chain-known_chains config id [] = refl
has_chain-known_chains config id (entry ∷ entries) =
    elim (Option-cases (chain_of config entry.id)) [
      | inl missing ↦ elim (Bool-cases (str_eq entry.id id)) [
        | inl same ↦
            let gone : chain_of config id ≡ none =
              ap (chain_of config) (sym ((eq_iff entry.id id).0 same)) ∙ missing in
            rw (known_chains, missing, same, gone)
              (rw (has_chain-known_chains config id entries, gone) (ground arith))
        | inr other ↦ rw (known_chains, missing, other) (has_chain-known_chains config id entries)
      ]
      | inr (chain, found) ↦ elim (Bool-cases (str_eq entry.id id)) [
        | inl same ↦
            let here : chain_of config id ≡ some chain =
              ap (chain_of config) (sym ((eq_iff entry.id id).0 same)) ∙ found in
            rw (known_chains, found, same, here, chain_of_id config id here)
              (ground (arith, eq_iff id id))
        | inr other ↦
            rw (known_chains, found, other, chain_of_id config entry.id found, other)
              (has_chain-known_chains config id entries)
      ]
    ]

-- The chain to send from is configured and connected to the other one.
abbrev is_neighbour : ClientConfig → String → String → Bool
is_neighbour config send_chain id = elim (chain_of config send_chain) [
  | none ↦ false
  | some source ↦ has_connected id source.connected_chains
]

has_chain-get_connected_chains :
    (config : ClientConfig) (send_chain id : String)
    → has_chain id (get_connected_chains config send_chain)
      ≡ (is_neighbour config send_chain id && is_some (chain_of config id))
unfolding get_connected_chains has_chain
has_chain-get_connected_chains config send_chain id =
    elim (Option-cases (chain_of config send_chain)) [
      | inl e ↦ rw (get_connected_chains, is_neighbour, e) refl
      | inr (source, e) ↦
          rw (get_connected_chains, is_neighbour, e)
            (has_chain-known_chains config id source.connected_chains)
    ]

-- Whether a broker that can be used is connected to the chain.
abbrev is_behind : ClientConfig → (send_chain id : String) → List ClientChain → Bool
is_behind config send_chain id [] = false
is_behind config send_chain id (broker ∷ brokers) =
    (can_use config send_chain broker && has_connected id broker.connected_chains)
    || is_behind config send_chain id brokers

module _ (config : ClientConfig) (send_chain : String) (direct : List ClientChain)
    (id : String) where
  -- The chain is configured, is not the one to send from, and is not listed already.
  abbrev eligible : Bool
  eligible =
      (not (has_chain id direct) && not (str_eq id send_chain)) && is_some (chain_of config id)

  has_chain-add_connected :
      (entry : ConnectedChainInfo) (via : List ClientChain)
      → has_chain id (add_connected config send_chain direct entry via)
        ≡ (has_chain id via || (str_eq entry.id id && eligible))
  unfolding add_connected
  has_chain-add_connected entry via = elim (Bool-cases (str_eq entry.id id)) [
    | inl same ↦ rw same (here ((eq_iff entry.id id).0 same))
    | inr other ↦ rw other (elsewhere other)
  ]
    where
      here :
          entry.id ≡ id
          → has_chain id (add_connected config send_chain direct entry via)
            ≡ (has_chain id via || eligible)
      here p =
          let test = ap (λ k. not (has_chain k direct) && not (str_eq k send_chain)) p in
          let known = ap (chain_of config) p in
          elim (Bool-cases (not (has_chain id direct) && not (str_eq id send_chain))) [
            | inr f ↦ rw (add_connected, test ∙ f, f) (ground arith)
            | inl t ↦ elim (Option-cases (chain_of config id)) [
              | inl missing ↦
                  rw (add_connected, test ∙ t, known ∙ missing, t, missing) (ground arith)
              | inr (chain, found) ↦ elim (Bool-cases (has_chain chain.id via)) [
                | inl listed ↦
                    let there : has_chain id via ≡ true =
                      ap (λ k. has_chain k via) (sym (chain_of_id config id found)) ∙ listed in
                    rw (add_connected, test ∙ t, known ∙ found, listed, t, found)
                      (there ∙ rw there refl)
                | inr new ↦
                    rw (add_connected, test ∙ t, known ∙ found, new, t, found)
                      (has_chain-append id via (chain ∷ [])
                        ∙ rw (has_chain, chain_of_id config id found)
                            (ground (arith, eq_iff id id)))
              ]
            ]
          ]

      elsewhere :
          str_eq entry.id id ≡ false
          → has_chain id (add_connected config send_chain direct entry via)
            ≡ (has_chain id via || false)
      elsewhere other =
          elim (Bool-cases (not (has_chain entry.id direct) && not (str_eq entry.id send_chain))) [
            | inr f ↦ rw (add_connected, f) (ground arith)
            | inl t ↦ elim (Option-cases (chain_of config entry.id)) [
              | inl missing ↦ rw (add_connected, t, missing) (ground arith)
              | inr (chain, found) ↦ elim (Bool-cases (has_chain chain.id via)) [
                | inl listed ↦ rw (add_connected, t, found, listed) (ground arith)
                | inr new ↦
                    rw (add_connected, t, found, new)
                      (has_chain-append id via (chain ∷ [])
                        ∙ rw (has_chain, chain_of_id config entry.id found, other) refl)
              ]
            ]
          ]

  has_chain-add_all :
      (entries : List ConnectedChainInfo) (via : List ClientChain)
      → has_chain id (add_all config send_chain direct entries via)
        ≡ (has_chain id via || (has_connected id entries && eligible))
  unfolding add_all has_connected
  has_chain-add_all [] via = ground arith
  has_chain-add_all (entry ∷ entries) via =
      has_chain-add_all entries (add_connected config send_chain direct entry via)
      ∙ rw (has_chain-add_connected entry via)
          (or_and (has_chain id via) (str_eq entry.id id) (has_connected id entries) eligible)

  has_chain-add_brokers :
      (brokers via : List ClientChain)
      → has_chain id (add_brokers config send_chain direct brokers via)
        ≡ (has_chain id via || (is_behind config send_chain id brokers && eligible))
  unfolding add_brokers
  has_chain-add_brokers [] via = ground arith
  has_chain-add_brokers (broker ∷ brokers) via =
      elim (Bool-cases (can_use config send_chain broker)) [
        | inl e ↦
            rw (add_brokers, e)
              (has_chain-add_brokers brokers
                  (add_all config send_chain direct broker.connected_chains via)
                ∙ rw (has_chain-add_all broker.connected_chains via) (
                    or_and (has_chain id via) (has_connected id broker.connected_chains)
                      (is_behind config send_chain id brokers) eligible))
        | inr e ↦ rw (add_brokers, e) (has_chain-add_brokers brokers via)
      ]

is_neighbour-names :
    (config : ClientConfig) (send_chain id : String)
    → is_neighbour config send_chain id ≡ names id (neighbours config send_chain)
unfolding chain_of
is_neighbour-names config send_chain id =
    elim (Option-cases (find (λ chain. str_eq chain.id send_chain) config.chains)) [
      | inl e ↦ rw (is_neighbour, neighbours, e) refl
      | inr (source, e) ↦
          rw (is_neighbour, neighbours, e) (has_connected-names id source.connected_chains)
    ]

is_behind_broker :
    (config : ClientConfig) (send_chain id : String) (chains : List ClientChain)
    → is_behind config send_chain id (filter (λ chain. chain.is_dex) chains)
      ≡ behind_broker config send_chain id chains
unfolding can_use
is_behind_broker config send_chain id [] = refl
is_behind_broker config send_chain id (chain ∷ chains) = elim (Bool-cases chain.is_dex) [
  | inr plain ↦ rw plain (is_behind_broker config send_chain id chains)
  | inl broker ↦
      rw
        (
          broker,
          can_use-names config send_chain chain,
          has_connected-names id chain.connected_chains,
          is_behind_broker config send_chain id chains,
        )
        refl
]

-- For a chain that is chosen to send from, a chain is listed to receive on exactly if it is reachable.
pub available_receive_chains-is_reachable :
    (config : ClientConfig) (send_chain id : String)
    → is_truthy send_chain ≡ true
    → has_chain id (available_receive_chains config send_chain) ≡ is_reachable config send_chain id
unfolding available_receive_chains is_reachable has_chain
available_receive_chains-is_reachable config send_chain id chosen =
    let direct = get_connected_chains config send_chain in
    let brokers = filter (λ chain. chain.is_dex) config.chains in
    rw (available_receive_chains, chosen)
      (has_chain-append id direct (add_brokers config send_chain direct brokers [])
        ∙ rw
            (
              has_chain-add_brokers config send_chain direct id brokers [],
              has_chain-get_connected_chains config send_chain id,
              ← is_behind_broker config send_chain id config.chains,
              ← chain_of-names config id,
              ← is_neighbour-names config send_chain id,
            )
            (absorb (is_neighbour config send_chain id) (is_some (chain_of config id))
              (is_behind config send_chain id brokers) (str_eq id send_chain)))
