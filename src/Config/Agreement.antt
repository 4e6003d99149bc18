-- ===== src/Config/Agreement.antt =====
-- The lookups of client_app/src/lib/config/config.ts against the lists of the configuration.
use spectra_portal.Base.{
  ◌≡◌, refl, ◌∙◌, String, Bool, List, [], ◌∷◌, Option, none, some, if◌then◌else◌, find, str_eq, inl,
  inr, arith, Bool-cases, eq_iff,
}
use spectra_portal.Base.Dict
use spectra_portal.Base.Dict.{Dict, get-set}
use spectra_portal.Config.{ClientChain, ClientConfig}
use spectra_portal.Config.Lookup.{new_full_client_config, get_chain_by_id, chain_entries}

-- The last element that passes a test.
abbrev pub find_last {ℓ} : {A : Type ℓ} → (A → Bool) → List A → Option A
find_last test [] = none
find_last test (x ∷ xs) = elim (find_last test xs) [
  | some y ↦ some y
  | none ↦ if test x then some x else none
]

abbrev has_id : String → ClientChain → Bool
has_id id chain = str_eq chain.id id

abbrev else_ : Option ClientChain → Option ClientChain → Option ClientChain
else_ none d = d
else_ (some c) d = some c

get-set_all :
    (id : String) (chains : List ClientChain) (d : Dict ClientChain)
    → Dict.get id (Dict.set_all (chain_entries chains) d)
      ≡ else_ (find_last (has_id id) chains) (Dict.get id d)
get-set_all id [] d = refl
get-set_all id (c ∷ chains) d =
    ground (arith, get-set_all id chains (Dict.set c.id c d), get-set id c.id c d)

else_-none : (c : Option ClientChain) → else_ c none ≡ c
else_-none none = refl
else_-none (some c) = refl

-- A chain is looked up as the last one of the configuration with its id.
pub get_chain_by_id-find_last :
    (config : ClientConfig) (id : String)
    → get_chain_by_id (new_full_client_config config) id
      ≡ find_last (λ chain. str_eq chain.id id) config.chains
unfolding get_chain_by_id new_full_client_config
get_chain_by_id-find_last config id = get-set_all id config.chains [] ∙ else_-none _

-- No two chains have one id.
abbrev pub AreDistinct : List ClientChain → Type 0
AreDistinct [] = Unit
AreDistinct (c ∷ chains) =
    (find_last (λ chain. str_eq chain.id c.id) chains ≡ none) × AreDistinct chains

find_last-find :
    (id : String) (chains : List ClientChain)
    → AreDistinct chains
    → find_last (λ chain. str_eq chain.id id) chains ≡ find (λ chain. str_eq chain.id id) chains
find_last-find id [] h = refl
find_last-find id (c ∷ chains) (apart, h) = elim (Bool-cases (str_eq c.id id)) [
  | inl same ↦ let alone = rw ((eq_iff c.id id).0 same) at apart in rw alone (rw same refl)
  | inr other ↦ rw other (ground (arith, find_last-find id chains h))
]

-- Where no two chains of the configuration have one id, the lookup of a chain agrees with the search
-- through the configuration that the transfers and the tracking make.
pub get_chain_by_id-find :
    (config : ClientConfig) (id : String)
    → AreDistinct config.chains
    → get_chain_by_id (new_full_client_config config) id
      ≡ find (λ chain. str_eq chain.id id) config.chains
get_chain_by_id-find config id distinct =
    get_chain_by_id-find_last config id ∙ find_last-find id config.chains distinct
