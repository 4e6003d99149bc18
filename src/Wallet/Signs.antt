-- ===== src/Wallet/Signs.antt =====
-- What `sendTransaction` asks the wallet to sign.
use spectra_portal.Base.{
  ℕ, ◌==◌, ◌≡◌, ◌≢◌, ◌⊎◌, inl, inr, refl, sym, arith, String, Bool, true, false, List, Option, none,
  some, or_else, Bool-cases, if◌then◌else◌,
}
use spectra_portal.Base.Dict
use spectra_portal.Config.{ClientChain}
use spectra_portal.Messages.{EncodeObject}
use spectra_portal.Wallet.Utility.{WalletType}
use spectra_portal.Wallet.Provider.{ChainConnection, Wallets}
use spectra_portal.Wallet.Send.{
  Signing, StdFee, Fee, auto, fixed, TransactionOptions, TransactionResult, SignerData, Answer,
  answered, SignRequest, adjusted_gas, WalletWorld, call, random_rpc, price_of, estimated, fee_for,
  sign_by_ledger, sign_directly, send_connected, send_transaction,
}
use spectra_portal.Wallet.Quiet.{
  IsQuiet, IsQuiet-call, IsQuiet-or_throw, IsQuiet-estimated, IsQuiet-bind, Signs, Signs-bind,
  Signs-request, Signs-then, Signs-mono, bind-answered, same_answer, or_throw-answered,
}

module _ (s : Signing) where
  -- The fee is the one that is given, or is computed from an estimate that is not 0.
  abbrev pub IsFee : Fee → ℕ × ℕ → StdFee → Type 0
  IsFee (fixed fee) adjustment f = f ≡ fee
  IsFee auto adjustment f =
      (gas : ℕ) × (price : s.Price) × gas ≢ 0
      × f ≡ s.calculate_fee (adjusted_gas gas adjustment) price

  -- The request to sign that a call with these arguments makes.
  pub record IsAsked (connection : ChainConnection) (chain : String) (messages : List EncodeObject)
      (options : TransactionOptions) (r : SignRequest) : Type 0 where
    pub of_address : r.address ≡ connection.address
    pub of_messages : r.messages ≡ messages
    pub of_memo : r.memo ≡ or_else options.memo ""
    pub of_fee : IsFee (or_else options.fee auto) (or_else options.gas_adjustment (3, 2)) r.fee
    pub of_explicit :
        (r.explicit ≡ none) ⊎ ((d : SignerData) × r.explicit ≡ some d × d.chain_id ≡ chain)

  estimated-answered :
      (simulated : Option ℕ) (w : WalletWorld s) {gas : ℕ}
      → (estimated s simulated w).0 ≡ answered gas
      → gas ≢ 0
  unfolding estimated
  estimated-answered none w e = absurd cc
  estimated-answered (some n) w {gas} e = elim (Bool-cases (n == 0)) [
    | inl z ↦ let gone = rw (estimated, z) at e in absurd cc
    | inr z ↦ let same = same_answer s (rw (estimated, z) at e) in λ zero. ground arith
  ]

  fee_for-IsFee :
      (fee : Fee) (adjustment : ℕ × ℕ) (price : s.Price) (client : s.Client) (address : String)
      (messages : List EncodeObject) (memo : String) (w : WalletWorld s) {f : StdFee}
      → (fee_for s fee adjustment price client address messages memo w).0 ≡ answered f
      → IsFee fee adjustment f
  unfolding fee_for call
  fee_for-IsFee (fixed fee) adjustment price client address messages memo w {f} e = cc
  fee_for-IsFee auto adjustment price client address messages memo w {f} e =
      let (simulated, got, e1) = bind-answered s _ _ w e in
      let (gas, estimate, e2) = bind-answered s _ _ _ e1 in
      (gas, price, estimated-answered simulated _ estimate, sym (same_answer s e2))

  IsQuiet-fee_for :
      (fee : Fee) (adjustment : ℕ × ℕ) (price : s.Price) (client : s.Client) (address : String)
      (messages : List EncodeObject) (memo : String)
      → IsQuiet s (fee_for s fee adjustment price client address messages memo)
  unfolding fee_for
  IsQuiet-fee_for (fixed fee) adjustment price client address messages memo = λ w. refl
  IsQuiet-fee_for auto adjustment price client address messages memo =
      IsQuiet-bind s _ _ (IsQuiet-call s (s.simulate client address messages memo))
        (λ simulated. IsQuiet-bind s _ _ (IsQuiet-estimated s simulated) (λ gas w. refl))

  IsQuiet-price_of : (config : ClientChain) → IsQuiet s (price_of s config)
  unfolding price_of
  IsQuiet-price_of config =
      IsQuiet-bind s _ _ (IsQuiet-or_throw s _ _) (λ currency. IsQuiet-or_throw s _ _)

  IsQuiet-random_rpc : (chain : String) → IsQuiet s (random_rpc s chain)
  unfolding random_rpc
  IsQuiet-random_rpc chain w = refl

  module _ (connection : ChainConnection) (chain : String) (messages : List EncodeObject)
      (options : TransactionOptions) (old : List SignRequest) where
    abbrev Asks : Answer TransactionResult × WalletWorld s → Type 0
    Asks = Signs s (IsAsked connection chain messages options) old

    Asks-sign_by_ledger :
        (rpc : String) (client : s.Client) (fee : StdFee) (w : WalletWorld s)
        → w.requests ≡ old
        → IsFee (or_else options.fee auto) (or_else options.gas_adjustment (3, 2)) fee
        → Asks (
            sign_by_ledger s chain rpc client connection.address messages fee
              (or_else options.memo "")
              w)
    unfolding sign_by_ledger
    Asks-sign_by_ledger rpc client fee w h is_fee =
        Signs-bind s (IsAsked connection chain messages options) old _ _ w h
          (IsQuiet-call s (s.connect rpc))
          (λ query w1 e1 h1.
            Signs-bind s (IsAsked connection chain messages options) old _ _ w1 h1
              (IsQuiet-call s (s.get_account query connection.address))
              (λ found w2 e2 h2.
                Signs-bind s (IsAsked connection chain messages options) old _ _ w2 h2
                  (IsQuiet-or_throw s _ _)
                  (λ account w3 e3 h3.
                    let data_of : SignerData = record {
                      account_number = account.0;
                      sequence = account.1;
                      chain_id = chain;
                    } in
                    let asked : SignRequest = record {
                      address = connection.address;
                      messages = messages;
                      fee = fee;
                      memo = or_else options.memo "";
                      explicit = some data_of;
                    } in
                    Signs-then s (IsAsked connection chain messages options) old _ _ w3
                      (Signs-request s (IsAsked connection chain messages options) old asked
                        (s.sign client connection.address messages fee (or_else options.memo "")
                          data_of)
                        w3 h3
                        (record {
                          of_address = refl;
                          of_messages = refl;
                          of_memo = refl;
                          of_fee = is_fee;
                          of_explicit = inr (data_of, refl, refl);
                        }))
                      (λ signed. IsQuiet-call s (s.broadcast client signed)))))

    Asks-sign_directly :
        (client : s.Client) (fee : StdFee) (w : WalletWorld s)
        → w.requests ≡ old
        → IsFee (or_else options.fee auto) (or_else options.gas_adjustment (3, 2)) fee
        → Asks (sign_directly s client connection.address messages fee (or_else options.memo "") w)
    unfolding sign_directly
    Asks-sign_directly client fee w h is_fee =
        Signs-request s (IsAsked connection chain messages options) old _
          (s.sign_and_broadcast client connection.address messages fee (or_else options.memo "")) w
          h
          (record {
            of_address = refl;
            of_messages = refl;
            of_memo = refl;
            of_fee = is_fee;
            of_explicit = inl refl;
          })

    Asks-send_connected :
        (type : WalletType) (config : ClientChain) (w : WalletWorld s)
        → w.requests ≡ old
        → Asks (send_connected s type connection config chain messages options w)
    unfolding send_connected
    Asks-send_connected type config w h =
        Signs-bind s (IsAsked connection chain messages options) old _ _ w h
          (IsQuiet-call s (s.get_wallet type))
          (λ wallet w1 e1 h1.
            Signs-bind s (IsAsked connection chain messages options) old _ _ w1 h1
              (IsQuiet-call s (s.is_nano_ledger wallet chain))
              (λ is_ledger w2 e2 h2.
                Signs-bind s (IsAsked connection chain messages options) old _ _ w2 h2
                  (IsQuiet-call s (s.get_offline_signer_auto wallet chain))
                  (λ signer w3 e3 h3.
                    Signs-bind s (IsAsked connection chain messages options) old _ _ w3 h3
                      (IsQuiet-price_of config)
                      (λ price w4 e4 h4.
                        Signs-bind s (IsAsked connection chain messages options) old _ _ w4 h4
                          (IsQuiet-random_rpc chain)
                          (λ healthy w5 e5 h5.
                            Signs-bind s (IsAsked connection chain messages options) old _ _ w5 h5
                              (IsQuiet-or_throw s _ _)
                              (λ rpc w6 e6 h6.
                                Signs-bind s (IsAsked connection chain messages options) old _ _ w6
                                  h6 (IsQuiet-call s (s.connect_with_signer rpc signer price))
                                  (λ client w7 e7 h7.
                                    Signs-bind s (IsAsked connection chain messages options) old _ _
                                      w7 h7 (IsQuiet-fee_for _ _ price client _ messages _)
                                      (λ fee w8 e8 h8.
                                        signed is_ledger rpc client fee w8 h8 (
                                          fee_for-IsFee _ _ price client _ messages _ w7 e8)))))))))
      where
        signed :
            (is_ledger : Bool) (rpc : String) (client : s.Client) (fee : StdFee) (w : WalletWorld s)
            → w.requests ≡ old
            → IsFee (or_else options.fee auto) (or_else options.gas_adjustment (3, 2)) fee
            → Asks (
                (if is_ledger
                    then sign_by_ledger s chain rpc client connection.address messages fee
                        (or_else options.memo "")
                    else sign_directly s client connection.address messages fee
                        (or_else options.memo ""))
                  w)
        signed true rpc client fee w h is_fee = Asks-sign_by_ledger rpc client fee w h is_fee
        signed false rpc client fee w h is_fee = Asks-sign_directly client fee w h is_fee

  -- The request is for a chain that is connected, while a wallet type is known.
  pub record IsSigned (wallets : Wallets) (chain : String) (messages : List EncodeObject)
      (options : TransactionOptions) (r : SignRequest) : Type 0 where
    pub connection : ChainConnection
    pub type : WalletType
    pub is_connected : Dict.get chain wallets.connections ≡ some connection
    pub has_type : wallets.wallet_type ≡ some type
    pub is_asked : IsAsked connection chain messages options r

  -- A call that answers has asked for one signature, and a call that throws for one at most. It is
  -- asked for a chain that is connected, of the address of that connection, with the messages and the
  -- memo that were given, with the fee that was given or one for an estimate that is not 0, and, where
  -- the data of the signer are given, for that chain.
  pub send_transaction-Signs :
      (wallets : Wallets) (chain : String) (messages : List EncodeObject)
      (options : TransactionOptions) (w : WalletWorld s)
      → Signs s
          (IsSigned wallets chain messages options)
          w.requests
          (send_transaction s wallets chain messages options w)
  unfolding send_transaction
  send_transaction-Signs wallets chain messages options w =
      Signs-bind s (IsSigned wallets chain messages options) w.requests _ _ w refl
        (IsQuiet-or_throw s _ _)
        (λ connection w1 e1 h1.
          Signs-bind s (IsSigned wallets chain messages options) w.requests _ _ w1 h1
            (IsQuiet-or_throw s _ _)
            (λ type w2 e2 h2.
              Signs-mono s w.requests _ _
                (λ r p. record {
                  connection = connection;
                  type = type;
                  is_connected = or_throw-answered s _ _ w e1;
                  has_type = or_throw-answered s _ _ w1 e2;
                  is_asked = p;
                })
                (Asks-send_connected connection chain messages options w.requests type
                  (or_else options.chain_config connection.chain_config) w2 h2)))
