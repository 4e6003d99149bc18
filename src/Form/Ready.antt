-- ===== src/Form/Ready.antt =====
-- Which wallets are connected when client_app/src/components/ui/send/senderUi.tsx finds them ready.
use spectra_portal.Base.{
  ◌≡◌, ◌⊎◌, refl, sym, ap, ◌∙◌, arith, String, true, List, [], ◌∷◌, Option, none, some, str_eq, Mem,
  Bool-cases, Option-cases, inl, inr, eq_iff,
}
use spectra_portal.Config.{ClientChain, ClientConfig}
use spectra_portal.Wallet.Provider.{Wallets, is_connected_to_chain}
use spectra_portal.Form.Chains.{chain_of, has_chain}
use spectra_portal.Form.Reachable.{has_chain-append, chain_of_id}
use spectra_portal.Form.Submit.{
  has_text, Collected, push, add_sender, add_intermediate, add_intermediates, add_receiver,
  required_chains, is_wallet_ready,
}

-- The ids are those of the chains.
abbrev Matches : Collected → Type 0
Matches c = (k : String) → has_text k c.added ≡ has_chain k c.chains

push-Matches :
    (chain : ClientChain) (id : String) (c : Collected)
    → chain.id ≡ id
    → Matches c
    → Matches (push chain id c)
unfolding push has_text has_chain
push-Matches chain id c e h k =
    rw (has_chain-append k c.chains (chain ∷ []), has_chain, e, h k) (ground arith)

-- A chain that is pushed is listed, and so is what was listed before.
push_self :
    (chain : ClientChain) (id : String) (c : Collected)
    → chain.id ≡ id
    → has_chain id (push chain id c).chains ≡ true
unfolding push has_chain
push_self chain id c e =
    rw (has_chain-append id c.chains (chain ∷ []), has_chain, e) (ground (arith, eq_iff id id))

push_keeps :
    (chain : ClientChain) (k id : String) (c : Collected)
    → has_chain k c.chains ≡ true
    → has_chain k (push chain id c).chains ≡ true
unfolding push
push_keeps chain k id c h = rw (has_chain-append k c.chains (chain ∷ []), h) refl

module _ (config : ClientConfig) where
  add_intermediate-Matches :
      (id : String) (c : Collected) → Matches c → Matches (add_intermediate config id c)
  unfolding add_intermediate
  add_intermediate-Matches id c h = elim (Bool-cases (has_text id c.added)) [
    | inl e ↦ rw (add_intermediate, e) h
    | inr e ↦ elim (Option-cases (chain_of config id)) [
      | inl f ↦ rw (add_intermediate, e, f) h
      | inr (chain, f) ↦
          rw (add_intermediate, e, f) (push-Matches chain id c (chain_of_id config id f) h)
    ]
  ]

  add_intermediate_keeps :
      (k id : String) (c : Collected)
      → has_chain k c.chains ≡ true
      → has_chain k (add_intermediate config id c).chains ≡ true
  unfolding add_intermediate
  add_intermediate_keeps k id c h = elim (Bool-cases (has_text id c.added)) [
    | inl e ↦ rw (add_intermediate, e) h
    | inr e ↦ elim (Option-cases (chain_of config id)) [
      | inl f ↦ rw (add_intermediate, e, f) h
      | inr (chain, f) ↦ rw (add_intermediate, e, f) (push_keeps chain k id c h)
    ]
  ]

  add_intermediate_self :
      (id : String) (c : Collected) {chain : ClientChain}
      → Matches c
      → chain_of config id ≡ some chain
      → has_chain id (add_intermediate config id c).chains ≡ true
  unfolding add_intermediate
  add_intermediate_self id c {chain} h known = elim (Bool-cases (has_text id c.added)) [
    | inl e ↦ rw (add_intermediate, e) (sym (h id) ∙ e)
    | inr e ↦ rw (add_intermediate, e, known) (push_self chain id c (chain_of_id config id known))
  ]

  add_intermediates_keeps :
      (k : String) (ids : List String) (c : Collected)
      → has_chain k c.chains ≡ true
      → has_chain k (add_intermediates config ids c).chains ≡ true
  unfolding add_intermediates
  add_intermediates_keeps k [] c h = h
  add_intermediates_keeps k (id ∷ ids) c h =
      add_intermediates_keeps k ids (add_intermediate config id c) (add_intermediate_keeps k id c h)

  add_intermediates-Matches :
      (ids : List String) (c : Collected) → Matches c → Matches (add_intermediates config ids c)
  unfolding add_intermediates
  add_intermediates-Matches [] c h = h
  add_intermediates-Matches (id ∷ ids) c h =
      add_intermediates-Matches ids (add_intermediate config id c) (add_intermediate-Matches id c h)

  add_intermediates-Mem :
      (k : String) (ids : List String) (c : Collected) {chain : ClientChain}
      → Matches c
      → chain_of config k ≡ some chain
      → Mem k ids
      → has_chain k (add_intermediates config ids c).chains ≡ true
  unfolding add_intermediates
  add_intermediates-Mem k [] c h known none_ = absurd none_.lower
  add_intermediates-Mem k (id ∷ ids) c h known (inl same) = add_intermediates_keeps k ids _ (
      ap (λ i. has_chain k (add_intermediate config i c).chains) (sym same)
      ∙ add_intermediate_self k c h known)
  add_intermediates-Mem k (id ∷ ids) c h known (inr there) =
      add_intermediates-Mem k ids (add_intermediate config id c) (add_intermediate-Matches id c h)
        known there

  add_receiver_keeps :
      (k : String) (receiver : Option ClientChain) (c : Collected)
      → has_chain k c.chains ≡ true
      → has_chain k (add_receiver config receiver c) ≡ true
  unfolding add_receiver
  add_receiver_keeps k none c h = h
  add_receiver_keeps k (some chain) c h = elim (Bool-cases (has_text chain.id c.added)) [
    | inl e ↦ rw (add_receiver, e) h
    | inr e ↦ rw (add_receiver, e) (rw (has_chain-append k c.chains (chain ∷ []), h) refl)
  ]

  add_receiver_self :
      (chain : ClientChain) (c : Collected)
      → Matches c
      → has_chain chain.id (add_receiver config (some chain) c) ≡ true
  unfolding add_receiver has_chain
  add_receiver_self chain c h = elim (Bool-cases (has_text chain.id c.added)) [
    | inl e ↦ rw (add_receiver, e) (sym (h chain.id) ∙ e)
    | inr e ↦
        rw (add_receiver, e)
          (rw (has_chain-append chain.id c.chains (chain ∷ []), has_chain)
            (ground (arith, eq_iff chain.id chain.id)))
  ]

  add_sender-Matches : (id : String) → Matches (add_sender config (chain_of config id))
  unfolding add_sender has_text has_chain
  add_sender-Matches id = elim (Option-cases (chain_of config id)) [
    | inl e ↦ rw (add_sender, e) (λ k. refl)
    | inr (chain, e) ↦
        rw (add_sender, e)
          (push-Matches chain chain.id (record { chains = []; added = [] }) refl (λ k. refl))
  ]

connected_of_ready :
    (wallets : Wallets) (k : String) (chains : List ClientChain)
    → is_wallet_ready wallets chains ≡ true
    → has_chain k chains ≡ true
    → is_connected_to_chain wallets k ≡ true
unfolding is_wallet_ready has_chain
connected_of_ready wallets k [] ready listed = absurd cc
connected_of_ready wallets k (chain ∷ chains) ready listed =
    elim (Bool-cases (is_connected_to_chain wallets chain.id)) [
      | inr e ↦ let gone = rw (is_wallet_ready, e) at ready in absurd (ground arith)
      | inl e ↦
          let rest : is_wallet_ready wallets chains ≡ true = rw (is_wallet_ready, e) at ready in
          elim (Bool-cases (str_eq chain.id k)) [
            | inl same ↦ ap (is_connected_to_chain wallets) (sym ((eq_iff chain.id k).0 same)) ∙ e
            | inr other ↦ connected_of_ready wallets k chains rest (rw (has_chain, other) at listed)
          ]
    ]

-- A chain of the transfer: the one to send from, one between, or the one to receive on.
abbrev pub IsOnRoute : (send_chain receive_chain : String) → List String → String → Type 0
IsOnRoute send_chain receive_chain ids k = (k ≡ send_chain) ⊎ (Mem k ids ⊎ (k ≡ receive_chain))

sender_listed :
    (config : ClientConfig) (send_chain : String) {chain : ClientChain}
    → chain_of config send_chain ≡ some chain
    → has_chain send_chain (add_sender config (chain_of config send_chain)).chains ≡ true
unfolding add_sender push has_chain
sender_listed config send_chain {chain} known =
    rw (known, add_sender, chain_of_id config send_chain known)
      (ground (arith, eq_iff send_chain send_chain))

required_listed :
    (config : ClientConfig) (send_chain receive_chain : String) (ids : List String) (k : String)
    {chain : ClientChain}
    → IsOnRoute send_chain receive_chain ids k
    → chain_of config k ≡ some chain
    → has_chain k (required_chains config send_chain receive_chain ids) ≡ true
unfolding required_chains
required_listed config send_chain receive_chain ids k {chain} (inl is_send) known =
    let start = add_sender config (chain_of config send_chain) in
    let at_send = ap (chain_of config) (sym is_send) ∙ known in
    let listed =
      ap (λ i. has_chain i start.chains) is_send ∙ sender_listed config send_chain at_send in
    add_receiver_keeps config k (chain_of config receive_chain) (add_intermediates config ids start)
      (add_intermediates_keeps config k ids start listed)
required_listed config send_chain receive_chain ids k {chain} (inr (inl between)) known =
    let start = add_sender config (chain_of config send_chain) in
    add_receiver_keeps config k (chain_of config receive_chain) (add_intermediates config ids start)
      (add_intermediates-Mem config k ids start (add_sender-Matches config send_chain) known
        between)
required_listed config send_chain receive_chain ids k {chain} (inr (inr is_receive)) known =
    let start = add_sender config (chain_of config send_chain) in
    let collected = add_intermediates config ids start in
    let at_receive = ap (chain_of config) (sym is_receive) ∙ known in
    let own =
      add_receiver_self config chain collected
        (add_intermediates-Matches config ids start (add_sender-Matches config send_chain)) in
    ap (λ o. has_chain k (add_receiver config o collected)) at_receive
    ∙ ap (λ i. has_chain i (add_receiver config (some chain) collected))
        (sym (chain_of_id config k known))
    ∙ own

-- When the wallets are ready, a wallet is connected to every configured chain of the transfer: the one
-- to send from, those between, and the one to receive on.
pub is_wallet_ready-is_connected_to_chain :
    (config : ClientConfig) (wallets : Wallets) (send_chain receive_chain : String)
    (ids : List String) (k : String) {chain : ClientChain}
    → is_wallet_ready wallets (required_chains config send_chain receive_chain ids) ≡ true
    → IsOnRoute send_chain receive_chain ids k
    → chain_of config k ≡ some chain
    → is_connected_to_chain wallets k ≡ true
is_wallet_ready-is_connected_to_chain config wallets send_chain receive_chain ids k ready on known =
    connected_of_ready wallets k _ ready
      (required_listed config send_chain receive_chain ids k on known)
