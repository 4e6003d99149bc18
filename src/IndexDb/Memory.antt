-- ===== src/IndexDb/Memory.antt =====
-- A store in memory, which shows that what is asked of the object store can be met
-- (client_app/src/lib/indexDb/dbManager.ts). A put under a key that was never generated fails.
use mathlib.Core.Path.{subst}
use spectra_portal.Base.{
  ℕ, zero, suc, ◌≡◌, refl, ◌≢◌, List, [], ◌∷◌, Option, none, some, arith, if◌then◌else◌, ◌==◌, ltb,
  leb, ◌&&◌, eq_of_some, ◌∙◌, sym, Option-cases, inl, inr, Bool, Bool-cases,
}
use spectra_portal.IndexDb.Types.{Transaction, TransactionRecord}
use spectra_portal.IndexDb.Store.{ObjectStore, find_id, IsKeyed}

pub record Cells : Type 0 where
  pub size : ℕ
  pub cell : ℕ → Option Transaction

abbrev pub is_used : ℕ → Cells → Bool
is_used id s = ltb 0 id && leb id s.size

abbrev pub record_at : ℕ → Option Transaction → Option TransactionRecord
record_at id none = none
record_at id (some t) = some (record { id = some id; transaction = t })

abbrev pub contents : Cells → ℕ → Option TransactionRecord
contents s id = if is_used id s then record_at id (s.cell id) else none

-- The records with the keys `n`, …, 1.
abbrev pub list_down : ℕ → (ℕ → Option Transaction) → List TransactionRecord
list_down zero cell = []
list_down (suc n) cell = elim (cell (suc n)) [
  | none ↦ list_down n cell
  | some t ↦ record { id = some (suc n); transaction = t } ∷ list_down n cell
]

abbrev pub write : Cells → ℕ → Option Transaction → Cells
write s id o = record s { cell = λ j. if id == j then o else s.cell j }

abbrev pub add : Transaction → Cells → Option (ℕ × Cells)
add t s = some (suc s.size, record (write s (suc s.size) (some t)) { size = suc s.size })

abbrev pub put : TransactionRecord → Cells → Option Cells
put r s = elim r.id [
  | none ↦ none
  | some id ↦ if is_used id s then some (write s id (some r.transaction)) else none
]

find_id-list_down :
    (cell : ℕ → Option Transaction) (n id : ℕ)
    → find_id id (list_down n cell) ≡ contents (record { size = n; cell = cell }) id
find_id-list_down cell zero id = ground arith
find_id-list_down cell (suc n) id = elim (Option-cases (cell (suc n))) [
  | inl e ↦ ground (arith, e, find_id-list_down cell n id)
  | inr (t, e) ↦ ground (arith, e, find_id-list_down cell n id)
]

list_down-IsKeyed : (cell : ℕ → Option Transaction) (n : ℕ) → IsKeyed (list_down n cell)
list_down-IsKeyed cell zero = tt
list_down-IsKeyed cell (suc n) = elim (Option-cases (cell (suc n))) [
  | inl e ↦ rw (e, IsKeyed) (list_down-IsKeyed cell n)
  | inr (t, e) ↦
      rw (e, IsKeyed)
        (suc n, refl, find_id-list_down cell n (suc n) ∙ (ground arith), list_down-IsKeyed cell n)
]

pub keyed : (s : Cells) (id : ℕ) {r : TransactionRecord} → contents s id ≡ some r → r.id ≡ some id
keyed s id e = elim (Bool-cases (is_used id s)) [ inl used ↦ ground arith | inr out ↦ ground arith ]

abbrev pub IsAdded : Transaction → Cells → ℕ × Cells → Type 0
IsAdded t s (id, s') =
    (id ≢ 0)
    × (contents s id ≡ none)
    × ((j : ℕ)
        → contents s' j
          ≡ (if id == j then some (record { id = some id; transaction = t }) else contents s j))

pub add_lem :
    (t : Transaction) (s : Cells) {id : ℕ} {s' : Cells}
    → add t s ≡ some (id, s')
    → IsAdded t s (id, s')
add_lem t s {id} {s'} e =
    subst (IsAdded t s) (eq_of_some e) (omega arith, ground arith, λ j. ground arith)

pub put_lem :
    (r : TransactionRecord) (s : Cells) {id : ℕ} {s' : Cells}
    → r.id ≡ some id
    → put r s ≡ some s'
    → (j : ℕ) → contents s' j ≡ (if id == j then some r else contents s j)
put_lem r s {id} {s'} ri e j = elim (Bool-cases (is_used id s)) [
  | inl used ↦
      subst (λ t. contents t j ≡ (if id == j then some r else contents s j))
        (eq_of_some (rw (ri, used) at e)) (ground (arith, ri))
  | inr out ↦ absurd (cc (rw (ri, out) at e))
]

pub get_all_lem :
    (s : Cells) {rs : List TransactionRecord}
    → some (list_down s.size s.cell) ≡ some rs
    → IsKeyed rs × ((id : ℕ) → find_id id rs ≡ contents s id)
get_all_lem s {rs} e =
    subst (λ l. IsKeyed l × ((id : ℕ) → find_id id l ≡ contents s id)) (eq_of_some e)
      (list_down-IsKeyed s.cell s.size, find_id-list_down s.cell s.size)

pub delete_lem :
    (id : ℕ) (s : Cells) {s' : Cells}
    → some (write s id none) ≡ some s'
    → (j : ℕ) → contents s' j ≡ (if id == j then none else contents s j)
delete_lem id s {s'} e j =
    subst (λ t. contents t j ≡ (if id == j then none else contents s j)) (eq_of_some e)
      (ground arith)

abbrev pub wipe : Cells → Cells
wipe s = record s { cell = λ _. none }

pub clear_lem : (s : Cells) {s' : Cells} → some (wipe s) ≡ some s' → (j : ℕ) → contents s' j ≡ none
clear_lem s {s'} e j = subst (λ t. contents t j ≡ none) (eq_of_some e) (ground arith)

pub get_lem :
    (s : Cells) (id : ℕ) {r : Option TransactionRecord}
    → some (contents s id) ≡ some r
    → r ≡ contents s id
get_lem s id e = sym (eq_of_some e)

abbrev pub memory : ObjectStore
memory = record {
  Store = Cells;
  contents = contents;
  get = λ id s. some (contents s id);
  get_all = λ s. some (list_down s.size s.cell);
  add = add;
  put = put;
  delete = λ id s. some (write s id none);
  clear = λ s. some (wipe s);
  keyed = keyed;
  get_lem = get_lem;
  get_all_lem = get_all_lem;
  add_lem = add_lem;
  put_lem = put_lem;
  delete_lem = delete_lem;
  clear_lem = clear_lem;
}

abbrev pub empty : Cells
empty = record { size = 0; cell = λ _. none }
