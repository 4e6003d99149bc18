-- ===== src/Task/Sender.antt =====
-- The message of a step (client_app/src/context/taskProvider.tsx) and the address that signs it
-- (client_app/src/context/walletContext.tsx).
use mathlib.Core.Path.{subst}
use spectra_portal.Base.{
  ℕ, ◌≡◌, refl, sym, ◌∙◌, String, List, [], ◌∷◌, Option, none, some, is_truthy, ltb, length,
  Bool-cases, Option-cases, inl, inr, All, eq_of_some,
}
use spectra_portal.Base.Dict
use spectra_portal.Pathfinder.{
  FindPathResponse, SwapQuote, OsmosisRoute, no_data, osmosis_route_data, WasmMsg, RouteData,
}
use spectra_portal.Messages.{
  EncodeObject, msg_transfer, msg_swap, msg_split_swap, msg_execute_contract, Built, built, thrown,
  Coin, SwapAmountInRoute, SwapAmountInSplitRoute, create_swap_message,
  create_split_route_swap_message, create_wasm_execution_message, create_ibc_transfer_message,
}
use spectra_portal.Transfer.{
  TransferState, TransferStep, StepType, ibc_transfer, swap, multi_hop, wasm_execution,
  multi_hop_swap,
}
use spectra_portal.Wallet.Provider.{ChainConnection, Wallets, get_address}
use spectra_portal.Wallet.Send.{
  Signing, SignRequest, TransactionOptions, WalletWorld, send_transaction,
}
use spectra_portal.Wallet.Quiet.{Signs, Signs-mono}
use spectra_portal.Wallet.Signs.{IsSigned, send_transaction-Signs}
use spectra_portal.Task.Platform.{Platform}
use spectra_portal.Task.Step.{
  Prepared, prepared, refused, raised, refusal, from_built, prepare, prepare_ibc, prepare_wasm,
  prepare_swap, swap_message, ibc_message, broker_route, contract_call, and_then,
}

-- The field `sender` of a message.
abbrev pub sender_of : EncodeObject → String
sender_of (msg_transfer m) = m.sender
sender_of (msg_swap sender token routes amount) = sender
sender_of (msg_split_swap sender routes denom amount) = sender
sender_of (msg_execute_contract sender contract msg funds) = sender

-- A message, if there is one, names `sender`.
abbrev IsFrom : String → Prepared → Type 0
IsFrom sender (prepared message memo) = sender_of message ≡ sender
IsFrom sender (refused result) = Unit
IsFrom sender (raised error) = Unit

abbrev IsBuiltFrom : String → Built → Type 0
IsBuiltFrom sender (built message) = sender_of message ≡ sender
IsBuiltFrom sender (thrown error) = Unit

IsFrom-from_built :
    (sender memo : String) (b : Built) → IsBuiltFrom sender b → IsFrom sender (from_built memo b)
IsFrom-from_built sender memo (built message) h = h
IsFrom-from_built sender memo (thrown error) h = tt

IsBuiltFrom-create_swap_message :
    (sender : String) (token : Coin) (routes : List SwapAmountInRoute) (amount : String)
    → IsBuiltFrom sender (create_swap_message sender token routes amount)
unfolding create_swap_message
IsBuiltFrom-create_swap_message sender token [] amount = tt
IsBuiltFrom-create_swap_message sender token (r ∷ rs) amount = refl

IsBuiltFrom-create_split_route_swap_message :
    (sender denom : String) (routes : List SwapAmountInSplitRoute) (amount : String)
    → IsBuiltFrom sender (create_split_route_swap_message sender denom routes amount)
unfolding create_split_route_swap_message
IsBuiltFrom-create_split_route_swap_message sender denom [] amount = tt
IsBuiltFrom-create_split_route_swap_message sender denom (r ∷ rs) amount = refl

IsBuiltFrom-swap_message :
    (sender : String) (quote : SwapQuote) (routes : List OsmosisRoute)
    → IsBuiltFrom sender (swap_message sender quote routes)
unfolding swap_message
IsBuiltFrom-swap_message sender quote routes = elim (Bool-cases (ltb 1 (length routes))) [
  | inl e ↦ rw (swap_message, e) (IsBuiltFrom-create_split_route_swap_message _ _ _ _)
  | inr e ↦ rw (swap_message, e) (IsBuiltFrom-create_swap_message _ _ _ _)
]

IsFrom-prepare_swap :
    (response : Option FindPathResponse) (sender : String)
    → IsFrom sender (prepare_swap response sender)
unfolding prepare_swap
IsFrom-prepare_swap response sender =
    elim (Option-cases (and_then (broker_route response) (λ route. route.swap))) [
      | inl none_ ↦ rw (prepare_swap, none_) tt
      | inr (quote, some_) ↦ rw (prepare_swap, some_) (of_data quote quote.route_data)
    ]
  where
    of_data :
        (quote : SwapQuote) (data_ : RouteData)
        → IsFrom sender (elim data_ [
          | no_data ↦ refused (refusal "Swap route data not found" none)
          | osmosis_route_data routes ↦
              from_built "Spectra Osmosis Swap" (swap_message sender quote routes)
        ])
    of_data quote no_data = tt
    of_data quote (osmosis_route_data routes) =
        IsFrom-from_built sender _ _ (IsBuiltFrom-swap_message sender quote routes)

IsBuiltFrom-create_wasm_execution_message :
    (sender contract : String) (msg : WasmMsg) (funds : List Coin)
    → IsBuiltFrom sender (create_wasm_execution_message sender contract msg funds)
unfolding create_wasm_execution_message
IsBuiltFrom-create_wasm_execution_message sender contract msg funds =
    elim (Option-cases msg.swap_and_action) [
      | inl e ↦ rw (create_wasm_execution_message, e) tt
      | inr (action, e) ↦ rw (create_wasm_execution_message, e) refl
    ]

IsFrom-prepare_wasm :
    (response : Option FindPathResponse) (sender : String)
    → IsFrom sender (prepare_wasm response sender)
unfolding prepare_wasm
IsFrom-prepare_wasm response sender = elim (Option-cases (broker_route response)) [
  | inl e ↦ rw (prepare_wasm, e) tt
  | inr (route, e) ↦ elim (Option-cases (contract_call route)) [
    | inl f ↦ rw (prepare_wasm, e, f) tt
    | inr ((contract, msg), f) ↦
        rw (prepare_wasm, e, f)
          (IsFrom-from_built sender _ _
            (IsBuiltFrom-create_wasm_execution_message sender contract msg _))
  ]
]

module _ (p : Platform) (state : TransferState) where
  IsFrom-prepare_ibc :
      (now : ℕ) (step : TransferStep) (sender receiver memo : String)
      → IsFrom sender (prepare_ibc p state now step sender receiver memo)
  unfolding prepare_ibc ibc_message create_ibc_transfer_message
  IsFrom-prepare_ibc now step sender receiver memo = elim (Bool-cases (is_truthy receiver)) [
    | inl e ↦ rw (prepare_ibc, e) refl
    | inr e ↦ rw (prepare_ibc, e) tt
  ]

  IsFrom-prepare_type :
      (now : ℕ) (step : TransferStep) (sender : String) (type : StepType)
      → IsFrom sender (prepare p state now (record step { type = type }) sender)
  unfolding prepare
  IsFrom-prepare_type now step sender ibc_transfer =
      IsFrom-prepare_ibc now (record step { type = ibc_transfer }) sender _ "Spectra IBC transfer"
  IsFrom-prepare_type now step sender multi_hop =
      IsFrom-prepare_ibc now (record step { type = multi_hop }) sender _ "Spectra IBC transfer"
  IsFrom-prepare_type now step sender multi_hop_swap =
      IsFrom-prepare_ibc now (record step { type = multi_hop_swap }) sender _
        "Spectra IBC multi-hop + swap"
  IsFrom-prepare_type now step sender wasm_execution =
      IsFrom-prepare_wasm state.pathfinder_response sender
  IsFrom-prepare_type now step sender swap = IsFrom-prepare_swap state.pathfinder_response sender

  -- The message of any step names the sender that it is made for.
  pub sender_of-prepare :
      (now : ℕ) (step : TransferStep) (sender : String) {message : EncodeObject} {memo : String}
      → prepare p state now step sender ≡ prepared message memo
      → sender_of message ≡ sender
  sender_of-prepare now step sender e =
      subst (IsFrom sender) e (IsFrom-prepare_type now step sender step.type)

-- A request to sign whose messages all name the address that signs.
abbrev pub SignsOwn : SignRequest → Type 0
SignsOwn r = All (λ m. sender_of m ≡ r.address) r.messages

connection_address :
    (wallets : Wallets) (chain : String) {sender : String} {connection : ChainConnection}
    → get_address wallets chain ≡ some sender
    → Dict.get chain wallets.connections ≡ some connection
    → connection.address ≡ sender
unfolding get_address
connection_address wallets chain {sender} {connection} shown e =
    let known = rw (get_address, e) at shown in
    elim (Bool-cases (is_truthy connection.address)) [
      | inl f ↦ eq_of_some (rw f at known)
      | inr f ↦ let gone = rw f at known in absurd cc
    ]

module _ (p : Platform) (state : TransferState) (s : Signing) where
  -- Where the executor makes a message for the address that the wallet shows for the chain of the step,
  -- and has the wallet send it for that chain, the wallet asks only for signatures of the address that
  -- the message names as its sender.
  pub send_transaction-SignsOwn :
      (wallets : Wallets) (chain : String) (now : ℕ) (step : TransferStep)
      (options : TransactionOptions) (w : WalletWorld s) {sender memo : String}
      {message : EncodeObject}
      → get_address wallets chain ≡ some sender
      → prepare p state now step sender ≡ prepared message memo
      → Signs s SignsOwn w.requests (send_transaction s wallets chain (message ∷ []) options w)
  send_transaction-SignsOwn wallets chain now step options w {sender} {memo} {message} shown made =
      Signs-mono s w.requests _ _ own
        (send_transaction-Signs s wallets chain (message ∷ []) options w)
    where
      own : (r : SignRequest) → IsSigned s wallets chain (message ∷ []) options r → SignsOwn r
      own r h =
          let named = sender_of-prepare p state now step sender made in
          let shown_ = connection_address wallets chain shown h.is_connected in
          subst (λ ms. All (λ m. sender_of m ≡ r.address) ms) (sym h.is_asked.of_messages)
            (named ∙ sym shown_ ∙ sym h.is_asked.of_address, tt)
