-- ===== src/Form/Submit.antt =====
-- What client_app/src/components/ui/send/senderUi.tsx checks before a transfer starts: the chains whose
-- wallets have to be connected, and the submission.
use spectra_portal.Base.{
  String, Bool, false, not, ◌&&◌, ◌||◌, List, [], ◌∷◌, ◌++◌, Option, none, some, is_some,
  if◌then◌else◌, filter, length, ◌==◌, str_eq,
}
use spectra_portal.Config.{ClientChain, ClientConfig}
use spectra_portal.Pathfinder.{FindPathResponse}
use spectra_portal.Transfer.{TransferAction, set_pathfinder_response, start_preparing}
use spectra_portal.Wallet.Provider.{Wallets, is_connected_to_chain}
use spectra_portal.Form.Chains.{chain_of}

-- `addedIds.has(id)`
unfoldable pub has_text : String → List String → Bool
has_text id [] = false
has_text id (t ∷ ts) = str_eq t id || has_text id ts

-- The chains that are collected, and their ids.
pub record Collected : Type 0 where
  pub chains : List ClientChain
  pub added : List String

unfoldable pub push : ClientChain → String → Collected → Collected
push chain id c = record { chains = c.chains ++ chain ∷ []; added = id ∷ c.added }

module _ (config : ClientConfig) where
  unfoldable pub add_sender : Option ClientChain → Collected
  unfolding push
  add_sender none = record { chains = []; added = [] }
  add_sender (some chain) = push chain chain.id (record { chains = []; added = [] })

  unfoldable pub add_intermediate : String → Collected → Collected
  unfolding has_text push
  add_intermediate id c =
      if has_text id c.added
      then c
      else elim (chain_of config id) [ none ↦ c | some chain ↦ push chain id c ]

  unfoldable pub add_intermediates : List String → Collected → Collected
  unfolding add_intermediate
  add_intermediates [] c = c
  add_intermediates (id ∷ ids) c = add_intermediates ids (add_intermediate id c)

  unfoldable pub add_receiver : Option ClientChain → Collected → List ClientChain
  unfolding has_text
  add_receiver none c = c.chains
  add_receiver (some chain) c =
      if has_text chain.id c.added then c.chains else c.chains ++ chain ∷ []

  unfoldable pub required_chains :
      (send_chain receive_chain : String)
      → (intermediate_chain_ids : List String) → List ClientChain
  unfolding add_sender add_intermediates add_receiver
  required_chains send_chain receive_chain ids =
      add_receiver (chain_of config receive_chain)
        (add_intermediates ids (add_sender (chain_of config send_chain)))

-- `isWalletReady.ready`
unfoldable pub is_wallet_ready : Wallets → List ClientChain → Bool
is_wallet_ready wallets chains =
    length (filter (λ chain. not (is_connected_to_chain wallets chain.id)) chains) == 0

-- What `canSubmit` reads; `is_positive` is `Number.parseFloat(amount) > 0`.
pub record Submission : Type 0 where
  pub wallets_ready : Bool
  pub response : Option FindPathResponse
  pub route_loading : Bool
  pub route_pending : Bool
  pub is_positive : Bool
  pub insufficient_balance : Bool
  pub balance_loading : Bool
  pub route_is_stale : Bool

-- `response?.success === true`
abbrev pub has_succeeded : Option FindPathResponse → Bool
has_succeeded none = false
has_succeeded (some response) = response.success

unfoldable pub can_submit : Submission → Bool
can_submit v =
    v.wallets_ready
    && (has_succeeded v.response
        && (not v.route_loading
            && (not v.route_pending
                && (v.is_positive && (not v.insufficient_balance && not v.balance_loading)))))

-- The actions behind the fetch of a fresh quote: `none` is that it rejects.
unfoldable pub after_refetch : Option (Option FindPathResponse) → List TransferAction
after_refetch none = []
after_refetch (some response) =
    if has_succeeded response then set_pathfinder_response response ∷ start_preparing ∷ [] else []

-- The actions that `handleSubmit` dispatches, with what `refetchFresh` settles to; the flag that shows
-- that the quote is fetched again is left out.
unfoldable pub handle_submit : Option (Option FindPathResponse) → Submission → List TransferAction
unfolding can_submit after_refetch
handle_submit refetched v =
    if can_submit v && is_some v.response
    then if v.route_is_stale then after_refetch refetched else start_preparing ∷ []
    else []
