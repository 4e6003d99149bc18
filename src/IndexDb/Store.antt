-- ===== src/IndexDb/Store.antt =====
-- The object store of the browser's IndexedDB, which the code calls: an interface of its requests
-- and of what is documented of them. Its key path is `id`, with a key generator.
use spectra_portal.Base.{ℕ, ◌≡◌, ◌≢◌, List, [], ◌∷◌, Option, none, some, if◌then◌else◌, ◌==◌}
use spectra_portal.IndexDb.Types.{Transaction, TransactionRecord}

-- The record with a given key in a list of records.
abbrev pub has_id : ℕ → TransactionRecord → Option TransactionRecord → Option TransactionRecord
has_id id r rest = elim r.id [ none ↦ rest | some j ↦ if j == id then some r else rest ]

abbrev pub find_id : ℕ → List TransactionRecord → Option TransactionRecord
find_id id [] = none
find_id id (r ∷ rs) = has_id id r (find_id id rs)

-- Each record has a key, and no two have the same.
abbrev pub IsKeyed : List TransactionRecord → Type 0
IsKeyed [] = Unit
IsKeyed (r ∷ rs) = (id : ℕ) × (r.id ≡ some id) × (find_id id rs ≡ none) × IsKeyed rs

-- A request fires `onerror` where it returns `none`, and the store is then as before. `contents` is
-- what the store holds.
pub record ObjectStore : Type 1 where
  pub Store : Type 0
  pub contents : Store → ℕ → Option TransactionRecord
  pub get : ℕ → Store → Option (Option TransactionRecord)
  pub get_all : Store → Option (List TransactionRecord)
  pub add : Transaction → Store → Option (ℕ × Store)
  pub put : TransactionRecord → Store → Option Store
  pub delete : ℕ → Store → Option Store
  pub clear : Store → Option Store
  -- Each record lies under its own key.
  pub keyed : (s : Store) (id : ℕ) {r : TransactionRecord} → contents s id ≡ some r → r.id ≡ some id
  pub get_lem :
      (s : Store) (id : ℕ) {r : Option TransactionRecord} → get id s ≡ some r → r ≡ contents s id
  -- All records, each with its key, and no two with one key.
  pub get_all_lem :
      (s : Store) {rs : List TransactionRecord}
      → get_all s ≡ some rs
      → IsKeyed rs × ((id : ℕ) → find_id id rs ≡ contents s id)
  -- The generated key is new, and never 0.
  pub add_lem :
      (t : Transaction) (s : Store) {id : ℕ} {s' : Store}
      → add t s ≡ some (id, s')
      → (id ≢ 0)
        × (contents s id ≡ none)
        × ((j : ℕ)
            → contents s' j
              ≡ (if id == j then some (record { id = some id; transaction = t }) else contents s j))
  pub put_lem :
      (r : TransactionRecord) (s : Store) {id : ℕ} {s' : Store}
      → r.id ≡ some id
      → put r s ≡ some s'
      → (j : ℕ) → contents s' j ≡ (if id == j then some r else contents s j)
  pub delete_lem :
      (id : ℕ) (s : Store) {s' : Store}
      → delete id s ≡ some s'
      → (j : ℕ) → contents s' j ≡ (if id == j then none else contents s j)
  pub clear_lem : (s : Store) {s' : Store} → clear s ≡ some s' → (j : ℕ) → contents s' j ≡ none
