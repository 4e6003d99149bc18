-- ===== src/Wallet/Connected.antt =====
-- What a call of `connect` of client_app/src/context/walletContext.tsx achieves, in the page and in the
-- next one.
use spectra_portal.Base.{
  ◌≡◌, refl, sym, ap, ◌∙◌, String, true, List, [], ◌∷◌, Option, none, some, ◌&&◌, str_eq, is_truthy,
  Mem, All, inl, inr, ◌⊎◌, arith, Bool-cases, Option-cases, eq_of_some, eq_iff,
}
use spectra_portal.Base.Dict
use spectra_portal.Base.Dict.{Dict, get-set, get-set_self, get-set_ne, str_eq_self, str_ne_sym}
use spectra_portal.Config.{ClientChain}
use spectra_portal.Wallet.Utility.{WalletType}
use spectra_portal.Wallet.Storage.{WalletConnectionState, save_wallet_state, load_all_wallet_states}
use spectra_portal.Wallet.Provider.{
  ChainConnection, Wallets, Extension, keyed, enable_chains, state_of, record_connections, is_other,
  connect, connected, get_address, auto_reconnect_to_chain, auto_reconnect, reload,
}
use spectra_portal.Wallet.Saved.{IsChainId}
use spectra_portal.Wallet.Kept.{Covers, record_connections-IsSaved, loaded-Mem}

-- A chain is connected with an address.
abbrev pub IsAt : String → String → Wallets → Type 0
IsAt id address w =
    (c : ChainConnection) × (Dict.get id w.connections ≡ some c) × (c.address ≡ address)

IsAt-get_address :
    (id address : String) (w : Wallets)
    → is_truthy address ≡ true
    → IsAt id address w
    → get_address w id ≡ some address
unfolding get_address
IsAt-get_address id address w named (c, there, same) =
    rw (there, get_address) (rw same (rw named refl))

abbrev fresh : WalletConnectionState → String → ChainConnection
fresh s a = record { chain_id = s.chain_id; address = a; chain_config = s.chain_config }

-- The reconnection of the saved states, where the wallet has a key for a chain.
module _ (seen : Option WalletType) (get_key : String → Option String) (id address : String) where
  step-IsAt :
      (answer : Option String) (s : WalletConnectionState) (w : Wallets)
      → get_key s.chain_id ≡ answer
      → get_key id ≡ some address
      → (s.chain_id ≡ id) ⊎ IsAt id address w
      → IsAt id address (auto_reconnect_to_chain seen answer s w)
  unfolding auto_reconnect_to_chain
  step-IsAt none s w given key (inl same) =
      let gone = sym given ∙ (ap get_key same ∙ key) in absurd (ground arith)
  step-IsAt none s w given key (inr at) = at
  step-IsAt (some a) s w given key h = elim (Bool-cases (str_eq s.chain_id id)) [
    | inl this ↦
        let same = (eq_iff s.chain_id id).0 this in
        (
          fresh s a,
          rw (← same) (get-set_self s.chain_id (fresh s a) w.connections),
          eq_of_some (sym given ∙ (ap get_key same ∙ key)),
        )
    | inr other ↦ elim h [
      | inl same ↦ let yes = (eq_iff s.chain_id id).1 same in absurd (ground arith)
      | inr (c, there, at) ↦
          (c, get-set_ne id s.chain_id (fresh s a) w.connections other ∙ there, at)
    ]
  ]

  auto_reconnect-IsAt :
      (states : List WalletConnectionState) (w : Wallets)
      → get_key id ≡ some address
      → ((s : WalletConnectionState) × Mem s states × (s.chain_id ≡ id)) ⊎ IsAt id address w
      → IsAt id address (auto_reconnect seen get_key states w)
  unfolding auto_reconnect
  auto_reconnect-IsAt [] w key (inl (s, m, own)) = absurd m.lower
  auto_reconnect-IsAt [] w key (inr at) = at
  auto_reconnect-IsAt (s ∷ states) w key (inl (t, inl same, own)) =
      auto_reconnect-IsAt states _ key (
        inr (
          step-IsAt (get_key s.chain_id) s w refl key
            (inl (ap (λ x. x.chain_id) (sym same) ∙ own))))
  auto_reconnect-IsAt (s ∷ states) w key (inl (t, inr later, own)) =
      auto_reconnect-IsAt states _ key (inl (t, later, own))
  auto_reconnect-IsAt (s ∷ states) w key (inr at) =
      auto_reconnect-IsAt states _ key (inr (step-IsAt (get_key s.chain_id) s w refl key (inr at)))

module _ (extension : Extension) where
  abbrev IsGiven : ChainConnection → Type 0
  IsGiven c = extension.get_key c.chain_id ≡ some c.address

  keyed-IsGiven : (chains : List ClientChain) → All IsGiven (keyed extension chains)
  unfolding keyed
  keyed-IsGiven [] = tt
  keyed-IsGiven (chain ∷ chains) = elim (Option-cases (extension.get_key chain.id)) [
    | inl no_key ↦ rw (no_key, keyed) (keyed-IsGiven chains)
    | inr (address, key) ↦ rw (key, keyed) (key, keyed-IsGiven chains)
  ]

  keyed-Covers :
      (chains : List ClientChain) (chain : ClientChain) {address : String}
      → Mem chain chains
      → extension.get_key chain.id ≡ some address
      → Covers chain.id (keyed extension chains)
  unfolding keyed
  keyed-Covers [] chain m key = absurd m.lower
  keyed-Covers (c ∷ chains) chain (inl same) key =
      rw (ap (λ x. extension.get_key x.id) (sym same) ∙ key, keyed)
        (inl (ap (λ x. x.id) (sym same)))
  keyed-Covers (c ∷ chains) chain (inr later) key =
      let rest = keyed-Covers chains chain later key in
      elim (Option-cases (extension.get_key c.id)) [
        | inl no_key ↦ rw (no_key, keyed) rest
        | inr (address, given) ↦ rw (given, keyed) (inr rest)
      ]

  record_connections-IsAt :
      (id address : String) (type : WalletType) (connections : List ChainConnection) (w : Wallets)
      → extension.get_key id ≡ some address
      → All IsGiven connections
      → Covers id connections ⊎ IsAt id address w
      → IsAt id address (record_connections type connections w)
  unfolding record_connections
  record_connections-IsAt id address type [] w key given (inl nothing) = absurd nothing
  record_connections-IsAt id address type [] w key given (inr at) = at
  record_connections-IsAt id address type (c ∷ rest) w key (one, given) h =
      let next = record w {
        connections = Dict.set c.chain_id c w.connections;
        storage = save_wallet_state (state_of type c) w.storage;
      } in
      let go = record_connections-IsAt id address type rest next key given in
      elim (Bool-cases (str_eq c.chain_id id)) [
        | inl this ↦
            let same = (eq_iff c.chain_id id).0 this in
            go (
              inr (
                c,
                rw (← same) (get-set_self c.chain_id c w.connections),
                eq_of_some (sym one ∙ (ap extension.get_key same ∙ key)),
              ))
        | inr other ↦ go (elim h [
          | inl (inl same) ↦ let yes = (eq_iff c.chain_id id).1 same in absurd (ground arith)
          | inl (inr later) ↦ inl later
          | inr (d, there, at) ↦ inr (d, get-set_ne id c.chain_id c w.connections other ∙ there, at)
        ])
      ]

-- What a call that succeeds leaves behind.
connect-after :
    (extension : Extension) (chains : List ClientChain) (type : WalletType) (w : Wallets)
    {after : Wallets}
    → connect extension chains type w ≡ (connected, after)
    → let recorded = record_connections type (keyed extension chains) w in
      (after.connections ≡ recorded.connections) × (after.storage ≡ recorded.storage)
unfolding connect
connect-after extension chains type w e = elim (Bool-cases (is_other type w.storage)) [
  | inl other ↦ let gone = ap (λ p. p.0) (rw (other, connect) at e) in absurd (ground arith)
  | inr own ↦ elim (Bool-cases (extension.available && enable_chains extension chains)) [
    | inr refused ↦
        let gone = ap (λ p. p.0) (rw (own, refused, connect) at e) in absurd (ground arith)
    | inl enabled ↦
        let is = rw (own, enabled, connect) at e in
        (sym (ap (λ p. p.1.connections) is), sym (ap (λ p. p.1.storage) is))
  ]
]

-- A chain whose id is not `type` and for which the wallet has a key, with an address that is not empty,
-- is connected, with the wallet's address, once a call of `connect` succeeds; and a page that is loaded
-- anew with the storage that the call leaves connects it again with that address, where the wallet
-- still has the key.
pub reload-get_address :
    (extension : Extension) (chains : List ClientChain) (type : WalletType) (w : Wallets)
    (chain : ClientChain) {after : Wallets} {address : String}
    → connect extension chains type w ≡ (connected, after)
    → Mem chain chains
    → extension.get_key chain.id ≡ some address
    → is_truthy address ≡ true
    → IsChainId chain.id
    → (get_address after chain.id ≡ some address)
      × (get_address (reload extension.get_key after.storage) chain.id ≡ some address)
unfolding reload
reload-get_address extension chains type w chain {after} {address} e m key truthy named =
    let (same_connections, same_storage) = connect-after extension chains type w e in
    let covers = keyed-Covers extension chains chain m key in
    let (c, there, at) =
      record_connections-IsAt extension chain.id address type (keyed extension chains) w key
        (keyed-IsGiven extension chains) (inl covers) in
    let saved =
      record_connections-IsSaved chain.id type (keyed extension chains) w named (inl covers) in
    (
      IsAt-get_address chain.id address after truthy (c, rw same_connections there, at),
      IsAt-get_address chain.id address _ truthy (
          auto_reconnect-IsAt none extension.get_key chain.id address
            (load_all_wallet_states after.storage) _ key
            (inl (loaded-Mem chain.id type after.storage named (rw same_storage saved)))),
    )
