-- ===== src/IndexDb/History.antt =====
-- The order in which transactions are loaded (client_app/src/lib/indexDb/dbManager.ts).
use mathlib.Core.List.{Perm}
use mathlib.Core.List.Perm
use spectra_portal.Base.{
  ℕ, ◌≤◌, ◌≡◌, String, List, [], ◌∷◌, arith, All, Bool-cases, Option-cases, inl, inr, ltb,
}
use spectra_portal.IndexDb.Types.{TransactionRecord}
use spectra_portal.IndexDb.Store.{ObjectStore, find_id, IsKeyed}
use spectra_portal.IndexDb.Manager.{
  resolved, time_of, insert_newest, sort_newest, load_all_transactions,
}

module _ {A : Type 0} (key : A → ℕ) where
  -- No entry is followed by a larger key.
  abbrev pub IsNewestFirst : List A → Type 0
  IsNewestFirst [] = Unit
  IsNewestFirst (x ∷ xs) = All (λ y. key y ≤ key x) xs × IsNewestFirst xs

  pub insert_newest-All :
      (P : A → Type 0) (x : A) (ys : List A) → P x → All P ys → All P (insert_newest key x ys)
  unfolding insert_newest
  insert_newest-All P x [] p h = (p, tt)
  insert_newest-All P x (y ∷ ys) p h = elim (Bool-cases (ltb (key x) (key y))) [
    | inl e ↦ rw e (h.0, insert_newest-All P x ys p h.1)
    | inr e ↦ rw e (p, h)
  ]

  All-above :
      (x y : A) (ys : List A)
      → key y ≤ key x
      → All (λ z. key z ≤ key y) ys
      → All (λ z. key z ≤ key x) ys
  All-above x y [] p h = tt
  All-above x y (z ∷ ys) p h = (omega arith, All-above x y ys p h.1)

  insert_newest_lem :
      (x : A) (ys : List A)
      → IsNewestFirst ys
      → IsNewestFirst (insert_newest key x ys) × Perm (insert_newest key x ys) (x ∷ ys)
  unfolding insert_newest
  insert_newest_lem x [] h = ((tt, tt), Perm.refl _)
  insert_newest_lem x (y ∷ ys) h = elim (Bool-cases (ltb (key x) (key y))) [
    | inl e ↦
        let (sorted, perm) = insert_newest_lem x ys h.1 in
        let p : key x ≤ key y = ground arith in
        rw e (
          (insert_newest-All (λ z. key z ≤ key y) x ys p h.0, sorted),
          Perm.trans (Perm.cons y perm) (Perm.swap x y ys),
        )
    | inr e ↦
        let p : key y ≤ key x = ground arith in rw e (((p, All-above x y ys p h.0), h), Perm.refl _)
  ]

  sort_newest_lem :
      (xs : List A) → IsNewestFirst (sort_newest key xs) × Perm (sort_newest key xs) xs
  unfolding sort_newest
  sort_newest_lem [] = (tt, Perm.refl _)
  sort_newest_lem (x ∷ xs) =
      let (sorted, perm) = sort_newest_lem xs in
      let (sorted', perm') = insert_newest_lem x (sort_newest key xs) sorted in
      (sorted', Perm.trans perm' (Perm.cons x perm))

resolved_inj : {A : Type 0} {a b : A} → resolved a ≡ resolved b → a ≡ b
resolved_inj e = cc

-- What loading resolves to are the stored records, the newest first: a permutation of records that
-- have different keys, each of which is what the store holds under its key, and that leave out none.
pub load_all_transactions_lem :
    (db : ObjectStore) (get_time : String → ℕ) (s : db.Store) {loaded : List TransactionRecord}
    → load_all_transactions db get_time s ≡ resolved loaded
    → IsNewestFirst (time_of get_time) loaded
      × ((rs : List TransactionRecord) × Perm loaded rs
          × IsKeyed rs
          × ((id : ℕ) → find_id id rs ≡ db.contents s id))
unfolding load_all_transactions
load_all_transactions_lem db get_time s e = elim (Option-cases (db.get_all s)) [
  | inl fails ↦ cc (rw (fails, load_all_transactions) at e)
  | inr (rs, reads) ↦
      let same : sort_newest (time_of get_time) rs ≡ _ =
        resolved_inj (rw (reads, load_all_transactions) at e) in
      let (sorted, perm) = sort_newest_lem (time_of get_time) rs in
      rw (← same) (sorted, (rs, perm, (db.get_all_lem s reads).0, (db.get_all_lem s reads).1))
]
