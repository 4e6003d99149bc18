-- ===== src/IndexDb/Updates.antt =====
-- What adding, updating and deleting a transaction change (client_app/src/lib/indexDb/dbManager.ts).
use mathlib.Core.Path.{subst}
use spectra_portal.Base.{
  ℕ, ◌≡◌, refl, ◌≢◌, Option, none, some, arith, if◌then◌else◌, ◌==◌, Option-cases, inl, inr, ◌∙◌,
  sym, ap, ◌<>◌, show_nat,
}
use spectra_portal.IndexDb.Types.{Transaction, TransactionRecord, TransactionUpdate}
use spectra_portal.IndexDb.Store.{ObjectStore}
use spectra_portal.IndexDb.Manager.{
  Settled, resolved, rejected, apply_update, put_back, add_transaction_to_db,
  update_transaction_status, fetch_transaction_by_id, delete_transaction_by_id,
}

module _ (db : ObjectStore) where
  open db use {Store, contents, get, add, put, delete, clear}

  -- After an add: the new record lies under a new key, and nothing else changes.
  abbrev pub Adds : Transaction → Store → Settled ℕ × Store → Type 0
  Adds t s (resolved id, s') =
      (id ≢ 0)
      × (contents s id ≡ none)
      × ((j : ℕ)
          → contents s' j
            ≡ (if id == j then some (record { id = some id; transaction = t }) else contents s j))
  Adds t s (rejected e, s') = s' ≡ s

  -- Adding a transaction stores it under a new key that is not 0 and changes nothing else, or is
  -- rejected and leaves the store alone.
  pub add_transaction_to_db-Adds :
      (t : Transaction) (s : Store) → Adds t s (add_transaction_to_db db t s)
  unfolding add_transaction_to_db
  add_transaction_to_db-Adds t s = elim (Option-cases (add t s)) [
    | inl e ↦
        subst (Adds t s) {x = (rejected "Failed to add transaction", s)}
          (rw (e, add_transaction_to_db)) refl
    | inr ((id, s'), e) ↦
        subst (Adds t s) {x = (resolved id, s')} (rw (e, add_transaction_to_db)) (db.add_lem t s e)
  ]

  abbrev pub Updates : TransactionUpdate → Store → Settled (Unit {0}) × Store → Type 0
  Updates u s (resolved _, s') =
      (old : TransactionRecord) × (contents s u.id ≡ some old)
      × ((j : ℕ) → contents s' j ≡ (if u.id == j then some (apply_update u old) else contents s j))
  Updates u s (rejected e, s') = s' ≡ s

  put_back-Updates :
      (u : TransactionUpdate) (s : Store) (old : TransactionRecord)
      → contents s u.id ≡ some old
      → Updates u s (put_back db (apply_update u old) s)
  unfolding put_back apply_update
  put_back-Updates u s old stored = elim (Option-cases (put (apply_update u old) s)) [
    | inl e ↦
        subst (Updates u s) {x = (rejected "Failed to update transaction", s)} (rw (e, put_back))
          refl
    | inr (s', e) ↦
        subst (Updates u s) {x = (resolved tt, s')} (rw (e, put_back))
          (old, stored, db.put_lem (apply_update u old) s (db.keyed s u.id stored) e)
  ]

  -- An update merges its fields into the stored record with its key and changes no other record, or
  -- is rejected and leaves the store alone.
  pub update_transaction_status-Updates :
      (u : TransactionUpdate) (s : Store) → Updates u s (update_transaction_status db u s)
  unfolding update_transaction_status
  update_transaction_status-Updates u s = elim (Option-cases (get u.id s)) [
    | inl e ↦
        subst (Updates u s) {x = (rejected "Failed to fetch transaction", s)}
          (rw (e, update_transaction_status)) refl
    | inr (found, e) ↦ elim (Option-cases found) [
      | inl missing ↦
          subst (Updates u s)
            {x = (rejected ("Transaction with id " <> show_nat u.id <> " not found"), s)}
            (rw (e, missing, update_transaction_status)) refl
      | inr (old, is) ↦
          subst (Updates u s) {x = put_back db (apply_update u old) s}
            (rw (e, is, update_transaction_status))
            (put_back-Updates u s old (sym (db.get_lem s u.id (e ∙ ap some is))))
    ]
  ]

  -- A transaction that was added is fetched back, with its key.
  pub fetch_transaction_by_id-add :
      (t : Transaction) (s : Store) {id : ℕ} {s' : Store} {found : Option TransactionRecord}
      → add_transaction_to_db db t s ≡ (resolved id, s')
      → get id s' ≡ some found
      → fetch_transaction_by_id db id s' ≡ resolved (record { id = some id; transaction = t })
  unfolding fetch_transaction_by_id
  fetch_transaction_by_id-add t s {id} {s'} {found} added reads =
      let (_, _, stored) = rw added at (add_transaction_to_db-Adds t s) in
      let here : found ≡ some (record { id = some id; transaction = t }) =
        db.get_lem s' id reads ∙ stored id ∙ (ground arith) in
      rw (reads, here, fetch_transaction_by_id) refl

  abbrev pub Deletes : ℕ → Store → Settled (Unit {0}) × Store → Type 0
  Deletes id s (resolved _, s') = (j : ℕ) → contents s' j ≡ (if id == j then none else contents s j)
  Deletes id s (rejected e, s') = s' ≡ s

  -- A delete removes the record with its key and no other, or is rejected and changes nothing.
  pub delete_transaction_by_id-Deletes :
      (id : ℕ) (s : Store) → Deletes id s (delete_transaction_by_id db id s)
  unfolding delete_transaction_by_id
  delete_transaction_by_id-Deletes id s = elim (Option-cases (delete id s)) [
    | inl e ↦
        subst (Deletes id s) {x = (rejected "Failed to delete transaction", s)}
          (rw (e, delete_transaction_by_id)) refl
    | inr (s', e) ↦
        subst (Deletes id s) {x = (resolved tt, s')} (rw (e, delete_transaction_by_id))
          (db.delete_lem id s e)
  ]
