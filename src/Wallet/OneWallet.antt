-- ===== src/Wallet/OneWallet.antt =====
-- The connections that client_app/src/context/walletContext.tsx saves are those of one wallet.
use mathlib.Core.Path.{subst}
use spectra_portal.Base.{
  ◌≡◌, refl, ap, String, false, List, [], ◌∷◌, Option, none, some, ◌&&◌, not, Mem, All, inl, inr,
  ◌⊎◌, Bool-cases, is_some, if◌then◌else◌, or_else, length, ◌==◌,
}
use spectra_portal.Base.Dict
use spectra_portal.Base.Dict.{
  Dict, get-set, get-delete, str_eq_self, AllEntries, AllEntries-set, AllEntries-delete,
}
use spectra_portal.Config.{ClientChain}
use spectra_portal.Wallet.Utility.{WalletType, keplr, leap, cosmostation, name_of}
use spectra_portal.Wallet.Storage.{
  WalletConnectionState, Item, plain, is_present, type_key, save_wallet_state,
  load_all_wallet_states, clear_wallet_state,
}
use spectra_portal.Wallet.Provider.{
  ChainConnection, Wallets, no_wallets, Extension, keyed, enable_chains, state_of,
  record_connections, is_other, is_named, connect, delete_chains, disconnect, disconnect_all,
  auto_reconnect_to_chain,
}
use spectra_portal.Wallet.Saved.{
  IsChainId, IsClean, Holds, Entry, Agrees, IsOne, NoState-Entry, save-Holds, clear-IsOne,
  no_current, loaded_type, loaded-clean, clear_all-IsClean,
}

record_connections-Holds :
    (type : WalletType) (connections : List ChainConnection) (w : Wallets)
    → AllEntries (Entry type) w.storage
    → ((record_connections type connections w).storage ≡ w.storage)
      ⊎ Holds type (record_connections type connections w).storage
unfolding record_connections
record_connections-Holds type [] w h = inl refl
record_connections-Holds type (c ∷ rest) w h =
    let saved = save-Holds (state_of type c) w.storage h in
    let next = record w {
      connections = Dict.set c.chain_id c w.connections;
      storage = save_wallet_state (state_of type c) w.storage;
    } in
    elim (record_connections-Holds type rest next saved.states) [
      | inl same ↦ inr (rw same saved)
      | inr holds ↦ inr holds
    ]

-- A wallet that is not refused is the one whose type is saved.
not_other :
    (saved type : WalletType) (storage : Dict Item)
    → Dict.get type_key storage ≡ some (plain (name_of saved))
    → is_other type storage ≡ false
    → saved ≡ type
not_other saved type storage e h = same saved type (rw (e, is_other) at h)
  where
    same :
        (a b : WalletType)
        → (is_present (plain (name_of a)) && not (is_named b (plain (name_of a)))) ≡ false
        → a ≡ b
    same keplr keplr h = refl
    same keplr leap h = cc
    same keplr cosmostation h = cc
    same leap keplr h = cc
    same leap leap h = refl
    same leap cosmostation h = cc
    same cosmostation keplr h = cc
    same cosmostation leap h = cc
    same cosmostation cosmostation h = refl

-- A wallet that connects in a clean storage, or in one that holds its own states.
connected-IsOne :
    (type : WalletType) (connections : List ChainConnection) (w : Wallets)
    → IsClean w.storage ⊎ Holds type w.storage
    → IsOne (some type) (record_connections type connections w).storage
connected-IsOne type connections w (inl clean) =
    elim (record_connections-Holds type connections w
      (NoState-Entry type w.storage clean.no_states)) [
        | inl same ↦ rw same (inl clean)
        | inr holds ↦ inr (type, holds, inr refl)
      ]
connected-IsOne type connections w (inr holds) =
    elim (record_connections-Holds type connections w holds.states) [
      | inl same ↦ rw same (inr (type, holds, inr refl))
      | inr after ↦ inr (type, after, inr refl)
    ]

connect-IsOne :
    (extension : Extension) (chains : List ClientChain) (type : WalletType) (w : Wallets)
    → IsOne w.wallet_type w.storage
    → IsOne
        (connect extension chains type w).1.wallet_type
        (connect extension chains type w).1.storage
unfolding connect
connect-IsOne extension chains type w h = elim (Bool-cases (is_other type w.storage)) [
  | inl other ↦ rw (other, connect) h
  | inr own ↦ elim (Bool-cases (extension.available && enable_chains extension chains)) [
    | inr refused ↦ rw (own, refused, connect) h
    | inl enabled ↦
        rw (own, enabled, connect)
          (connected-IsOne type (keyed extension chains) w (elim h [
            | inl clean ↦ inl clean
            | inr (saved, holds, agrees) ↦ inr (
                subst (λ t. Holds t w.storage) (not_other saved type w.storage holds.saved_type own)
                  holds)
          ]))
  ]
]

delete_chains-IsOne :
    (ids : List String) (w : Wallets)
    → All IsChainId ids
    → IsOne w.wallet_type w.storage
    → IsOne (delete_chains ids w).wallet_type (delete_chains ids w).storage
unfolding delete_chains
delete_chains-IsOne [] w named h = h
delete_chains-IsOne (id ∷ ids) w (one, named) h =
    delete_chains-IsOne ids
      (record w {
        connections = Dict.delete id w.connections;
        storage = clear_wallet_state id w.storage;
      })
      named (clear-IsOne id w.wallet_type w.storage one h)

disconnect-IsOne :
    (ids : Option (List String)) (w : Wallets)
    → All IsChainId (or_else ids [])
    → IsOne w.wallet_type w.storage
    → IsOne (disconnect ids w).wallet_type (disconnect ids w).storage
unfolding disconnect disconnect_all
disconnect-IsOne none w named h = inl (clear_all-IsClean w.storage)
disconnect-IsOne (some []) w named h = inl (clear_all-IsClean w.storage)
disconnect-IsOne (some (id ∷ ids)) w named h =
    let left = delete_chains-IsOne (id ∷ ids) w named h in
    elim (Bool-cases (length w.connections == length (id ∷ ids))) [
      | inl last ↦ rw (last, disconnect) (no_current _ _ left)
      | inr more ↦ rw (more, disconnect) left
    ]

All-Mem :
    (type : WalletType) (states : List WalletConnectionState) (saved : WalletConnectionState)
    → All (λ s. s.wallet_type ≡ type) states
    → Mem saved states
    → saved.wallet_type ≡ type
All-Mem type [] saved h m = absurd m.lower
All-Mem type (s ∷ states) saved (own, h) (inl same) = rw same own
All-Mem type (s ∷ states) saved (own, h) (inr later) = All-Mem type states saved h later

agrees_after :
    (seen current : Option WalletType) (type own : WalletType)
    → own ≡ type
    → Agrees current type
    → Agrees (if is_some seen then current else some own) type
agrees_after none current type own same h = inr (ap some same)
agrees_after (some t) current type own same h = h

auto_reconnect-IsOne :
    (seen : Option WalletType) (answer : Option String) (saved : WalletConnectionState)
    (w : Wallets)
    → Mem saved (load_all_wallet_states w.storage)
    → IsChainId saved.chain_id
    → IsOne w.wallet_type w.storage
    → IsOne
        (auto_reconnect_to_chain seen answer saved w).wallet_type
        (auto_reconnect_to_chain seen answer saved w).storage
unfolding auto_reconnect_to_chain
auto_reconnect-IsOne seen none saved w m named h =
    clear-IsOne saved.chain_id w.wallet_type w.storage named h
auto_reconnect-IsOne seen (some address) saved w m named (inl clean) = inl clean
auto_reconnect-IsOne seen (some address) saved w m named (inr (type, holds, agrees)) =
    let own =
      All-Mem type (load_all_wallet_states w.storage) saved (loaded_type type w.storage holds) m in
    inr (type, holds, (agrees_after seen w.wallet_type type saved.wallet_type own agrees))

-- The operations of the provider, and a page that is loaded anew: its local storage stays.
pub data Step : Wallets → Wallets → Type 0 where
  connecting :
      (extension : Extension) (chains : List ClientChain) (type : WalletType) (w : Wallets)
      → Step w (connect extension chains type w).1
  disconnecting :
      (ids : Option (List String)) (w : Wallets)
      → All IsChainId (or_else ids [])
      → Step w (disconnect ids w)
  reconnecting :
      (seen : Option WalletType) (answer : Option String) (saved : WalletConnectionState)
      (w : Wallets)
      → Mem saved (load_all_wallet_states w.storage)
      → IsChainId saved.chain_id
      → Step w (auto_reconnect_to_chain seen answer saved w)
  reloading : (w : Wallets) → Step w (record no_wallets { storage = w.storage })

pub data Reach : Wallets → Type 0 where
  here : Reach no_wallets
  next : {v w : Wallets} → Reach v → Step v w → Reach w

Step-IsOne :
    {v w : Wallets} → Step v w → IsOne v.wallet_type v.storage → IsOne w.wallet_type w.storage
Step-IsOne (connecting extension chains type v) h = connect-IsOne extension chains type v h
Step-IsOne (disconnecting ids v named) h = disconnect-IsOne ids v named h
Step-IsOne (reconnecting seen answer saved v m named) h =
    auto_reconnect-IsOne seen answer saved v m named h
Step-IsOne (reloading v) h = no_current v.wallet_type v.storage h

Reach-IsOne : {w : Wallets} → Reach w → IsOne w.wallet_type w.storage
Reach-IsOne here = inl (record { no_type = refl; no_states = tt })
Reach-IsOne (next r step) = Step-IsOne step (Reach-IsOne r)

-- Where no chain has the id `type`, whose key is that of the wallet's type, the connections that are
-- saved are all of one wallet: either none is loaded on a reload, or there is a wallet whose type is
-- saved, of which every loaded state is, and the provider's current wallet is that one or none.
pub Reach-one_wallet :
    {w : Wallets}
    → Reach w
    → (load_all_wallet_states w.storage ≡ [])
      ⊎ ((type : WalletType) × (Dict.get type_key w.storage ≡ some (plain (name_of type)))
          × All (λ s. s.wallet_type ≡ type) (load_all_wallet_states w.storage)
          × ((w.wallet_type ≡ none) ⊎ (w.wallet_type ≡ some type)))
Reach-one_wallet {w} r = elim (Reach-IsOne r) [
  | inl clean ↦ inl (loaded-clean w.storage clean)
  | inr (type, holds, agrees) ↦
      inr (type, holds.saved_type, loaded_type type w.storage holds, agrees)
]
