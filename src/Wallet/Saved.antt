-- ===== src/Wallet/Saved.antt =====
-- What it means that the local storage of client_app/src/context/walletContext.tsx holds the states of
-- one wallet.
use spectra_portal.Base.{
  ◌≡◌, refl, ◌∙◌, String, false, [], ◌∷◌, Option, none, some, if◌then◌else◌, ◌&&◌, str_eq,
  is_truthy, starts_with, All, inl, inr, ◌⊎◌, arith, Bool-cases, eq_iff,
}
use spectra_portal.Base.Dict
use spectra_portal.Base.Dict.{
  Dict, get-set, get-delete, str_eq_self, AllEntries, AllEntries-set, AllEntries-delete,
}
use spectra_portal.Wallet.Utility.{WalletType, keplr, leap, cosmostation, name_of}
use spectra_portal.Wallet.Storage.{
  WalletConnectionState, Item, plain, state_item, is_present, key_prefix, type_key, key_of,
  is_state_key, save_wallet_state, saved_states, load_all_wallet_states, clear_all,
  clear_wallet_state,
}

-- No chain's state is saved under the key of the wallet's type.
abbrev pub IsChainId : String → Type 0
IsChainId id = str_eq (key_of id) type_key ≡ false

abbrev pub NoState : String → Item → Type 0
NoState key item = is_state_key key ≡ false

-- No wallet is saved.
pub record IsClean (storage : Dict Item) : Type 0 where
  pub no_type : Dict.get type_key storage ≡ none
  pub no_states : AllEntries NoState storage

type_key_lem : is_state_key type_key ≡ false
unfolding starts_with
type_key_lem = refl

foreign_lem : (key : String) → starts_with key_prefix key ≡ false → str_eq key type_key ≡ false
unfolding starts_with
foreign_lem key foreign = elim (Bool-cases (str_eq key type_key)) [
  | inr other ↦ other
  | inl same ↦ let gone = rw ((eq_iff key type_key).0 same) at foreign in cc
]

pub clear_all-IsClean : (storage : Dict Item) → IsClean (clear_all storage)
unfolding clear_all starts_with
clear_all-IsClean [] = record { no_type = refl; no_states = tt }
clear_all-IsClean ((key, item) ∷ storage) =
    let rest = clear_all-IsClean storage in
    elim (Bool-cases (starts_with key_prefix key)) [
      | inl ours ↦ rw (ours, clear_all) rest
      | inr foreign ↦
          rw (foreign, clear_all)
            (record {
              no_type = rw (foreign_lem key foreign, rest.no_type) refl;
              no_states = (rw foreign refl, rest.no_states);
            })
    ]

abbrev pub Entry : WalletType → String → Item → Type 0
Entry type key item =
    (is_state_key key ≡ false)
    ⊎ ((s : WalletConnectionState) × (item ≡ state_item s) × (s.wallet_type ≡ type))

-- A wallet's type is saved, and no state of another one.
pub record Holds (type : WalletType) (storage : Dict Item) : Type 0 where
  pub saved_type : Dict.get type_key storage ≡ some (plain (name_of type))
  pub states : AllEntries (Entry type) storage

abbrev pub Agrees : Option WalletType → WalletType → Type 0
Agrees current type = (current ≡ none) ⊎ (current ≡ some type)

abbrev pub IsOne : Option WalletType → Dict Item → Type 0
IsOne current storage =
    IsClean storage ⊎ ((type : WalletType) × Holds type storage × Agrees current type)

pub NoState-Entry :
    (type : WalletType) (storage : Dict Item)
    → AllEntries NoState storage
    → AllEntries (Entry type) storage
NoState-Entry type [] h = tt
NoState-Entry type ((key, item) ∷ storage) (p, h) = (inl p, NoState-Entry type storage h)

pub save-Holds :
    (state : WalletConnectionState) (storage : Dict Item)
    → AllEntries (Entry state.wallet_type) storage
    → Holds state.wallet_type (save_wallet_state state storage)
unfolding save_wallet_state
save-Holds state storage h = record {
  saved_type =
      rw
        (get-set type_key type_key (plain (name_of state.wallet_type))
          (Dict.set (key_of state.chain_id) (state_item state) storage))
        refl;
  states =
      AllEntries-set (Entry state.wallet_type) type_key (plain (name_of state.wallet_type))
        (Dict.set (key_of state.chain_id) (state_item state) storage) (inl type_key_lem)
        (AllEntries-set (Entry state.wallet_type) (key_of state.chain_id) (state_item state) storage
          (inr (state, refl, refl)) h);
}

pub clear-IsOne :
    (id : String) (current : Option WalletType) (storage : Dict Item)
    → IsChainId id
    → IsOne current storage
    → IsOne current (clear_wallet_state id storage)
unfolding clear_wallet_state
clear-IsOne id current storage named h = elim (Bool-cases (is_truthy id)) [
  | inr blank ↦ rw (blank, clear_wallet_state) (inl (clear_all-IsClean storage))
  | inl some_id ↦
      let kept = get-delete type_key (key_of id) storage in
      rw (some_id, clear_wallet_state)
        (elim h [
          | inl clean ↦ inl (record {
            no_type = kept ∙ (rw (named, clean.no_type) refl);
            no_states = AllEntries-delete NoState (key_of id) storage clean.no_states;
          })
          | inr (type, holds, agrees) ↦ inr (
            type,
            record {
              saved_type = kept ∙ (rw (named, holds.saved_type) refl);
              states = AllEntries-delete (Entry type) (key_of id) storage holds.states;
            },
            agrees,
          )
        ])
]

pub no_current :
    (current : Option WalletType) (storage : Dict Item) → IsOne current storage → IsOne none storage
no_current current storage (inl clean) = inl clean
no_current current storage (inr (type, holds, agrees)) = inr (type, holds, inl refl)

saved_states-All :
    (type : WalletType) (storage : Dict Item)
    → AllEntries (Entry type) storage
    → All (λ s. s.wallet_type ≡ type) (saved_states storage)
unfolding saved_states
saved_states-All type [] h = tt
saved_states-All type ((key, item) ∷ storage) (p, h) =
    let rest = saved_states-All type storage h in
    elim (Bool-cases (is_state_key key && is_present item)) [
      | inr skipped ↦ rw (skipped, saved_states) rest
      | inl read ↦
          rw (read, saved_states)
            (elim p [
              | inl foreign ↦ absurd (ground arith)
              | inr (state, is, own) ↦ rw is (own, rest)
            ])
    ]

pub loaded_type :
    (type : WalletType) (storage : Dict Item)
    → Holds type storage
    → All (λ s. s.wallet_type ≡ type) (load_all_wallet_states storage)
unfolding load_all_wallet_states
loaded_type type storage holds = rw (holds.saved_type, load_all_wallet_states) (named type)
  where
    named :
        (t : WalletType)
        → All
            (λ s. s.wallet_type ≡ type)
            (if is_present (plain (name_of t)) then saved_states storage else [])
    named keplr = saved_states-All type storage holds.states
    named leap = saved_states-All type storage holds.states
    named cosmostation = saved_states-All type storage holds.states

pub loaded-clean : (storage : Dict Item) → IsClean storage → load_all_wallet_states storage ≡ []
unfolding load_all_wallet_states
loaded-clean storage clean = rw (clean.no_type, load_all_wallet_states) refl
