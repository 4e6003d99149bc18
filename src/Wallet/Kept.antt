-- ===== src/Wallet/Kept.antt =====
-- What the calls of `connect` of client_app/src/context/walletContext.tsx keep in the local storage.
use text.Mathlib.TextLemmas.{append_cancel_left}
use spectra_portal.Base.{
  ◌≡◌, refl, ◌∙◌, String, Bool, true, false, List, [], ◌∷◌, Option, none, some, if◌then◌else◌, ◌&&◌,
  str_eq, starts_with-append, Mem, inl, inr, ◌⊎◌, Bool-cases, eq_of_some, eq_iff,
}
use spectra_portal.Base.Dict
use spectra_portal.Base.Dict.{Dict, get-set, get-set_self, get-set_ne, str_eq_self, str_ne_sym}
use spectra_portal.Wallet.Utility.{WalletType, keplr, leap, cosmostation, name_of}
use spectra_portal.Wallet.Storage.{
  WalletConnectionState, Item, plain, state_item, parse, is_present, key_prefix, type_key, key_of,
  is_state_key, save_wallet_state, and_parsed, saved_states, load_all_wallet_states,
}
use spectra_portal.Wallet.Provider.{ChainConnection, Wallets, state_of, record_connections}
use spectra_portal.Wallet.Saved.{IsChainId}

key_of-eq : (a b : String) → str_eq a b ≡ false → str_eq (key_of a) (key_of b) ≡ false
key_of-eq a b apart = elim (Bool-cases (str_eq (key_of a) (key_of b))) [
  | inr other ↦ other
  | inl same ↦
      let e = append_cancel_left key_prefix a b ((eq_iff (key_of a) (key_of b)).0 same) in
      let yes = (eq_iff a b).1 e in cc
]

key_of-is_state_key : (id : String) → IsChainId id → is_state_key (key_of id) ≡ true
key_of-is_state_key id named = rw (starts_with-append key_prefix id, named) refl

abbrev pub Covers : String → List ChainConnection → Type 0
Covers id [] = ⊥
Covers id (c ∷ connections) = (c.chain_id ≡ id) ⊎ Covers id connections

-- A state of a chain is saved.
abbrev pub IsSaved : String → WalletType → Dict Item → Type 0
IsSaved id type storage =
    (s : WalletConnectionState) × (Dict.get (key_of id) storage ≡ some (state_item s))
    × (s.chain_id ≡ id)
    × (Dict.get type_key storage ≡ some (plain (name_of type)))

save-IsSaved :
    (id : String) (s : WalletConnectionState) (storage : Dict Item)
    → IsChainId id
    → (s.chain_id ≡ id) ⊎ (str_eq s.chain_id id ≡ false) × IsSaved id s.wallet_type storage
    → IsSaved id s.wallet_type (save_wallet_state s storage)
unfolding save_wallet_state
save-IsSaved id s storage named h =
    let item = state_item s in
    let inner = Dict.set (key_of s.chain_id) item storage in
    let type_there = get-set_self type_key (plain (name_of s.wallet_type)) inner in
    let under =
      get-set_ne (key_of id) type_key (plain (name_of s.wallet_type)) inner
        (str_ne_sym (key_of id) type_key named) in
    elim h [
      | inl same ↦ (
        s,
        rw (← same) (rw (← same) at under ∙ get-set_self (key_of s.chain_id) item storage),
        same,
        type_there,
      )
      | inr (other, (t, there, own, type)) ↦ (
        t,
        under
            ∙ (get-set_ne (key_of id) (key_of s.chain_id) item storage
                  (key_of-eq s.chain_id id other)
                ∙ there),
        own,
        type_there,
      )
    ]

pub record_connections-IsSaved :
    (id : String) (type : WalletType) (connections : List ChainConnection) (w : Wallets)
    → IsChainId id
    → Covers id connections ⊎ IsSaved id type w.storage
    → IsSaved id type (record_connections type connections w).storage
unfolding record_connections
record_connections-IsSaved id type [] w named (inl nothing) = absurd nothing
record_connections-IsSaved id type [] w named (inr saved) = saved
record_connections-IsSaved id type (c ∷ rest) w named h =
    let next = record w {
      connections = Dict.set c.chain_id c w.connections;
      storage = save_wallet_state (state_of type c) w.storage;
    } in
    let save = save-IsSaved id (state_of type c) w.storage named in
    elim (Bool-cases (str_eq c.chain_id id)) [
      | inl this ↦
          record_connections-IsSaved id type rest next named
            (inr (save (inl ((eq_iff c.chain_id id).0 this))))
      | inr other ↦ record_connections-IsSaved id type rest next named (elim h [
        | inl (inl same) ↦ inr (save (inl same))
        | inl (inr later) ↦ inl later
        | inr saved ↦ inr (save (inr (other, saved)))
      ])
    ]

kept :
    (b : Bool) (o : Option WalletConnectionState) (states : List WalletConnectionState)
    (s : WalletConnectionState)
    → Mem s states
    → Mem s (if b then and_parsed o states else states)
kept false o states s m = m
kept true none states s m = m
kept true (some t) states s m = inr m

saved_states-Mem :
    (key : String) (storage : Dict Item) (s : WalletConnectionState)
    → is_state_key key ≡ true
    → Dict.get key storage ≡ some (state_item s)
    → Mem s (saved_states storage)
unfolding saved_states
saved_states-Mem key [] s ours e = cc
saved_states-Mem key ((k, item) ∷ storage) s ours e = elim (Bool-cases (str_eq k key)) [
  | inl same ↦
      let is = eq_of_some (rw same at e) in
      let key_is = (eq_iff k key).0 same in rw (is, key_is, ours) (inl refl)
  | inr other ↦
      let rest = saved_states-Mem key storage s ours (rw other at e) in
      kept (is_state_key k && is_present item) (parse item) (saved_states storage) s rest
]

pub loaded-Mem :
    (id : String) (type : WalletType) (storage : Dict Item)
    → IsChainId id
    → (saved : IsSaved id type storage)
    → (s : WalletConnectionState) × Mem s (load_all_wallet_states storage) × (s.chain_id ≡ id)
unfolding load_all_wallet_states
loaded-Mem id type storage named (s, there, own, type_there) = (
  s,
  rw (type_there, load_all_wallet_states)
      (loaded type (saved_states-Mem (key_of id) storage s (key_of-is_state_key id named) there)),
  own,
)
  where
    loaded :
        (t : WalletType)
        → Mem s (saved_states storage)
        → Mem s (if is_present (plain (name_of t)) then saved_states storage else [])
    loaded keplr m = m
    loaded leap m = m
    loaded cosmostation m = m
