-- ===== src/Wallet/Send.antt =====
-- `sendTransaction` of client_app/src/context/walletContext.tsx, without its logging.
use spectra_portal.Base.{
  ℕ, ◌+◌, ◌*◌, ◌/◌, ◌==◌, String, Bool, List, [], ◌∷◌, ◌++◌, Option, none, some, or_else,
  if◌then◌else◌, ◌<>◌, get_elem?,
}
use spectra_portal.Base.Dict
use spectra_portal.Config.{ClientChain}
use spectra_portal.Messages.{Coin, EncodeObject}
use spectra_portal.Health.Checks.{Reply}
use spectra_portal.Health.Client.{HealthJson, get_random_healthy_rpc}
use spectra_portal.Wallet.Utility.{WalletType}
use spectra_portal.Wallet.Provider.{ChainConnection, Wallets}

pub record StdFee : Type 0 where
  pub amount : List Coin
  pub gas : String

pub data Fee : Type 0 where
  auto : Fee
  fixed : StdFee → Fee

-- A gas adjustment is a fraction: its numerator and its denominator.
pub record TransactionOptions : Type 0 where
  pub fee : Option Fee
  pub memo : Option String
  pub gas_adjustment : Option (ℕ × ℕ)
  pub chain_config : Option ClientChain

pub record TransactionResult : Type 0 where
  pub transaction_hash : String
  pub code : ℕ
  pub height : Option ℕ

pub record SignerData : Type 0 where
  pub account_number : ℕ
  pub sequence : ℕ
  pub chain_id : String

-- What a promise settles to: a value, or the message of the error that it is rejected with.
pub data Answer (A : Type 0) : Type 0 where
  answered : A → Answer A
  failed : String → Answer A

-- The wallet extension and the clients of @cosmjs/stargate. A call may change the `Net`.
pub record Signing : Type 1 where
  pub Net : Type 0
  pub Keplr : Type 0
  pub Signer : Type 0
  pub Price : Type 0
  pub Client : Type 0
  pub Signed : Type 0
  pub get_wallet : WalletType → Net → Answer Keplr × Net
  pub is_nano_ledger : Keplr → String → Net → Answer Bool × Net
  pub get_offline_signer_auto : Keplr → String → Net → Answer Signer × Net
  pub gas_price : String → Option Price
  pub fetch_health : String → Net → Reply HealthJson × Net
  pub pick : Net → ℕ → ℕ
  pub connect_with_signer : String → Signer → Price → Net → Answer Client × Net
  pub connect : String → Net → Answer Client × Net
  pub simulate : Client → String → List EncodeObject → String → Net → Answer (Option ℕ) × Net
  pub calculate_fee : ℕ → Price → StdFee
  pub get_account : Client → String → Net → Answer (Option (ℕ × ℕ)) × Net
  pub sign :
      Client → String → List EncodeObject → StdFee → String → SignerData → Net → Answer Signed × Net
  pub broadcast : Client → Signed → Net → Answer TransactionResult × Net
  pub sign_and_broadcast :
      Client → String → List EncodeObject → StdFee → String → Net → Answer TransactionResult × Net

-- A request to sign; the data of the signer are given for a Ledger alone.
pub record SignRequest : Type 0 where
  pub address : String
  pub messages : List EncodeObject
  pub fee : StdFee
  pub memo : String
  pub explicit : Option SignerData

-- `Math.round(gas * adjustment)`
unfoldable pub adjusted_gas : ℕ → ℕ × ℕ → ℕ
adjusted_gas gas (num, den) = (2 * gas * num + den) / (2 * den)

module _ (s : Signing) where
  -- `requests` are the requests to sign so far, the oldest first.
  pub record WalletWorld : Type 0 where
    pub net : s.Net
    pub requests : List SignRequest

  abbrev pub M : Type 0 → Type 0
  M A = WalletWorld → Answer A × WalletWorld

  unfoldable pub continue_with : {A B : Type 0} → (A → M B) → Answer A → M B
  continue_with f (failed e) w = (failed e, w)
  continue_with f (answered a) w = f a w

  infixl 5 ◌>>=◌
  abbrev pub ◌>>=◌ : {A B : Type 0} → M A → (A → M B) → M B
  unfolding continue_with
  ◌>>=◌ m f w = let (a, w2) = m w in continue_with f a w2

  abbrev pub throw : {A : Type 0} → String → M A
  throw e w = (failed e, w)

  abbrev pub pure : {A : Type 0} → A → M A
  pure a w = (answered a, w)

  unfoldable pub call : {A : Type 0} → (s.Net → Answer A × s.Net) → M A
  call f w = let (a, net) = f w.net in (a, record w { net = net })

  -- A call that asks for a signature.
  unfoldable pub request : {A : Type 0} → SignRequest → (s.Net → Answer A × s.Net) → M A
  request r f w =
      let (a, net) = f w.net in (a, record { net = net; requests = w.requests ++ r ∷ [] })

  unfoldable pub or_throw : {A : Type 0} → Option A → String → M A
  or_throw none e = throw e
  or_throw (some a) e = pure a

  -- `getRandomHealthyRpcImperative(chainId)`
  unfoldable pub random_rpc : String → M (Option String)
  random_rpc chain w =
      let (reply, net) = s.fetch_health chain w.net in
      (answered (get_random_healthy_rpc (s.pick net) reply), record w { net = net })

  unfoldable pub price_of : ClientChain → M s.Price
  unfolding or_throw
  price_of config = do
    currency ←
        or_throw (get_elem? config.keplr_chain_config.fee_currencies 0)
          "No fee currency found in chain config"
    or_throw (s.gas_price (currency.average <> currency.coin_minimal_denom))
        "Invalid gas price string"

  -- `!gasEstimated` holds of `undefined` and of 0.
  unfoldable pub estimated : Option ℕ → M ℕ
  estimated none = throw "Gas estimated is undefined"
  estimated (some gas) = if gas == 0 then throw "Gas estimated is undefined" else pure gas

  unfoldable pub fee_for :
      Fee → ℕ × ℕ → s.Price → s.Client → String → List EncodeObject → String → M StdFee
  unfolding call estimated adjusted_gas
  fee_for (fixed fee) adjustment price client address messages memo = pure fee
  fee_for auto adjustment price client address messages memo = do
    simulated ← call (s.simulate client address messages memo)
    gas ← estimated simulated
    pure (s.calculate_fee (adjusted_gas gas adjustment) price)

  unfoldable pub sign_by_ledger :
      String
      → String
      → s.Client
      → String
      → List EncodeObject
      → StdFee
      → String
      → M TransactionResult
  unfolding call or_throw request
  sign_by_ledger chain rpc client address messages fee memo = do
    query ← call (s.connect rpc)
    found ← call (s.get_account query address)
    account ← or_throw found "Could not retrieve account details for signing."
    let data_of : SignerData = record {
      account_number = account.0;
      sequence = account.1;
      chain_id = chain;
    }
    signed ←
        request
          (record {
            address = address;
            messages = messages;
            fee = fee;
            memo = memo;
            explicit = some data_of;
          })
          (s.sign client address messages fee memo data_of)
    call (s.broadcast client signed)

  unfoldable pub sign_directly :
      s.Client → String → List EncodeObject → StdFee → String → M TransactionResult
  unfolding request
  sign_directly client address messages fee memo =
      request
        (record { address = address; messages = messages; fee = fee; memo = memo; explicit = none })
        (s.sign_and_broadcast client address messages fee memo)

  -- The `try` of the call.
  unfoldable pub send_connected :
      WalletType
      → ChainConnection
      → ClientChain
      → String
      → List EncodeObject
      → TransactionOptions
      → M TransactionResult
  unfolding call price_of random_rpc or_throw fee_for sign_by_ledger sign_directly
  send_connected type connection config chain messages options = do
    let address = connection.address
    let memo = or_else options.memo ""
    wallet ← call (s.get_wallet type)
    is_ledger ← call (s.is_nano_ledger wallet chain)
    signer ← call (s.get_offline_signer_auto wallet chain)
    price ← price_of config
    healthy ← random_rpc chain
    rpc ← or_throw healthy ("No healthy RPC found for chain " <> chain)
    client ← call (s.connect_with_signer rpc signer price)
    fee ←
        fee_for (or_else options.fee auto) (or_else options.gas_adjustment (3, 2)) price client
          address messages memo
    if is_ledger
        then sign_by_ledger chain rpc client address messages fee memo
        else sign_directly client address messages fee memo

  unfoldable pub send_transaction :
      Wallets → String → List EncodeObject → TransactionOptions → M TransactionResult
  unfolding send_connected or_throw
  send_transaction w chain messages options = do
    let refusal = "Wallet not connected to chain " <> chain
    connection ← or_throw (Dict.get chain w.connections) refusal
    type ← or_throw w.wallet_type refusal
    send_connected type connection (or_else options.chain_config connection.chain_config) chain
        messages options
