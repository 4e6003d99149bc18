-- ===== src/IndexDb/Cleanup.antt =====
-- The cleanup of old transactions keeps the newest (client_app/src/lib/indexDb/dbManager.ts).
use mathlib.Core.Path.{subst}
use spectra_portal.Base.{
  ℕ, ◌-◌, ◌≤◌, ◌≡◌, refl, String, List, [], ◌∷◌, ◌++◌, Option, none, some, arith, All, Bool-cases,
  Option-cases, inl, inr, ltb, leb, length, take, drop, length-drop, take-append-drop, ◌∙◌, sym, ap,
  eq_of_some, ◌≢◌, true, false, ltb→lt,
}
use Prim.Native.Nat.{min}
use spectra_portal.Base.Sort.{sort_by, insert_by, sort_by-IsSorted, length-sort_by, take-le-drop}
use spectra_portal.IndexDb.Types.{TransactionRecord}
use spectra_portal.IndexDb.Store.{ObjectStore, find_id, has_id, IsKeyed}
use spectra_portal.IndexDb.Manager.{
  resolved, time_of, oldest, max_transactions, delete_each, cleanup_old_transactions,
}

-- `o ?? p`, for what two lists hold under a key.
abbrev either : Option TransactionRecord → Option TransactionRecord → Option TransactionRecord
either none p = p
either (some r) p = some r

find_id-append :
    (id : ℕ) (rs ss : List TransactionRecord)
    → find_id id (rs ++ ss) ≡ either (find_id id rs) (find_id id ss)
find_id-append id [] ss = refl
find_id-append id (r ∷ rs) ss = ground (arith, find_id-append id rs ss)

module _ (key : TransactionRecord → ℕ) where
  -- A sort of records with distinct keys changes what no key finds.
  find_id-insert_by :
      (id : ℕ) (r : TransactionRecord) (rs : List TransactionRecord)
      → IsKeyed (r ∷ rs)
      → find_id id (insert_by key r rs) ≡ find_id id (r ∷ rs)
  unfolding insert_by
  find_id-insert_by id r [] k = refl
  find_id-insert_by id r (s ∷ rs) (i, ri, fresh, (j, sj, fresh', k)) =
      ground (arith, find_id-insert_by id r rs (i, ri, ground arith, k))

  insert_by-IsKeyed :
      (r : TransactionRecord) (rs : List TransactionRecord)
      → IsKeyed (r ∷ rs)
      → IsKeyed (insert_by key r rs)
  unfolding insert_by
  insert_by-IsKeyed r [] k = k
  insert_by-IsKeyed r (s ∷ rs) (i, ri, fresh, (j, sj, fresh', k)) =
      elim (Bool-cases (leb (key r) (key s))) [
        | inl e ↦ rw e (i, ri, fresh, (j, sj, fresh', k))
        | inr e ↦ rw e (
          j,
          sj,
          find_id-insert_by j r rs (i, ri, ground arith, k) ∙ (ground arith),
          insert_by-IsKeyed r rs (i, ri, ground arith, k),
        )
      ]

  sort_by-IsKeyed :
      (rs : List TransactionRecord)
      → IsKeyed rs
      → IsKeyed (sort_by key rs) × ((id : ℕ) → find_id id (sort_by key rs) ≡ find_id id rs)
  unfolding sort_by
  sort_by-IsKeyed [] k = (tt, λ id. refl)
  sort_by-IsKeyed (r ∷ rs) (i, ri, fresh, k) =
      let (keyed, same) = sort_by-IsKeyed rs k in
      let whole : IsKeyed (r ∷ sort_by key rs) = (i, ri, same i ∙ fresh, keyed) in
      (
        insert_by-IsKeyed r (sort_by key rs) whole,
        λ id. find_id-insert_by id r (sort_by key rs) whole ∙ ap (has_id id r) (same id),
      )

-- In a list with distinct keys, what its first part holds its second part does not.
IsKeyed-append :
    (rs ss : List TransactionRecord)
    → IsKeyed (rs ++ ss)
    → IsKeyed rs × IsKeyed ss × ((id : ℕ) → find_id id rs ≢ none → find_id id ss ≡ none)
IsKeyed-append [] ss k = (tt, k, λ id e. absurd (e refl))
IsKeyed-append (r ∷ rs) ss (i, ri, fresh, k) =
    let (keyed, keyed', apart) = IsKeyed-append rs ss k in
    (
      (i, ri, ground (arith, find_id-append i rs ss), keyed),
      keyed',
      λ id e. ground (arith, find_id-append i rs ss, apart id),
    )

module _ (db : ObjectStore) where
  open db use {Store, contents}

  delete_each_lem :
      (rs : List TransactionRecord) (s : Store) {s' : Store}
      → IsKeyed rs
      → delete_each db rs s ≡ some s'
      → (id : ℕ) → contents s' id ≡ elim (find_id id rs) [ none ↦ contents s id | some _ ↦ none ]
  unfolding delete_each
  delete_each_lem [] s k e id = ap (λ t. contents t id) (sym (eq_of_some e))
  delete_each_lem (r ∷ rs) s {s'} (i, ri, fresh, k) e id = elim (Option-cases (db.delete i s)) [
    | inl fails ↦ absurd (cc (rw (ri, fails) at e))
    | inr (t, deleted) ↦
        let later = delete_each_lem rs t k (rw (ri, deleted) at e) id in
        ground (arith, later, db.delete_lem i s deleted id)
  ]

  module _ (get_time : String → ℕ) (s : Store) {rs : List TransactionRecord} {s' : Store}
      (reads : db.get_all s ≡ some rs)
      (deletes : delete_each db (oldest get_time rs) s ≡ some s') where
    -- What the cleanup leaves: at most 50 records, none older than a deleted one.
    pub record IsTrimmed (kept : List TransactionRecord) : Type 0 where
      pub count : length kept ≡ min 50 (length rs)
      pub newer :
          All
            (λ gone. All (λ r. time_of get_time gone ≤ time_of get_time r) kept)
            (oldest get_time rs)
      pub keyed : IsKeyed kept
      pub left : (id : ℕ) → contents s' id ≡ find_id id kept
      pub unchanged : (id : ℕ) → contents s' id ≢ none → contents s' id ≡ contents s id

    abbrev sorted : List TransactionRecord
    sorted = sort_by (time_of get_time) rs

    -- Where the deleted records are the first of the sorted ones, the rest is left.
    left_behind :
        (kept : List TransactionRecord)
        → oldest get_time rs ++ kept ≡ sorted
        → IsKeyed kept
          × ((id : ℕ) → contents s' id ≡ find_id id kept)
          × ((id : ℕ) → contents s' id ≢ none → contents s' id ≡ contents s id)
    left_behind kept split =
        let (keyed, stored) = db.get_all_lem s reads in
        let (sorted_keyed, same) = sort_by-IsKeyed (time_of get_time) rs keyed in
        let (gone_keyed, kept_keyed, apart) =
          IsKeyed-append (oldest get_time rs) kept (subst IsKeyed (sym split) sorted_keyed) in
        let found : (id : ℕ) → find_id id (oldest get_time rs ++ kept) ≡ contents s id =
          λ id. ap (find_id id) split ∙ same id ∙ stored id in
        let gone = delete_each_lem (oldest get_time rs) s gone_keyed deletes in
        (
          kept_keyed,
          λ id.
              ground
                (arith, gone id, find_id-append id (oldest get_time rs) kept, found id, apart id),
          λ id h. ground (arith, gone id),
        )

    kept_many :
        ltb max_transactions (length rs) ≡ true
        → IsTrimmed (drop (length rs - max_transactions) sorted)
    unfolding oldest sort_by
    kept_many many =
        let n = length rs - max_transactions in
        let is : oldest get_time rs ≡ take n sorted = rw (many, oldest) in
        let (keyed, left, unchanged) =
          left_behind (drop n sorted) (rw is (take-append-drop n sorted)) in
        record {
          count =
              omega (
                arith,
                length-drop n sorted,
                length-sort_by (time_of get_time) rs,
                ltb→lt _ _ many,
              );
          newer =
              rw is
                (take-le-drop (time_of get_time) n sorted (sort_by-IsSorted (time_of get_time) rs));
          keyed = keyed;
          left = left;
          unchanged = unchanged;
        }

    kept_few : ltb max_transactions (length rs) ≡ false → IsTrimmed sorted
    unfolding oldest
    kept_few few =
        let is : oldest get_time rs ≡ [] = rw (few, oldest) in
        let short : length rs ≤ 50 = ground arith in
        let (keyed, left, unchanged) = left_behind sorted (rw is refl) in
        record {
          count = omega (arith, length-sort_by (time_of get_time) rs);
          newer = rw is tt;
          keyed = keyed;
          left = left;
          unchanged = unchanged;
        }

    -- When its requests succeed, the cleanup resolves and leaves 50 of the stored records, or all if
    -- there are fewer, each unchanged under its key; no record that it deletes is newer than one that
    -- it leaves.
    pub cleanup_old_transactions-IsTrimmed :
        (cleanup_old_transactions db get_time s ≡ (resolved tt, s'))
        × ((kept : List TransactionRecord) × IsTrimmed kept)
    unfolding cleanup_old_transactions
    cleanup_old_transactions-IsTrimmed = (
      rw (reads, deletes, cleanup_old_transactions) refl,
      elim (Bool-cases (ltb max_transactions (length rs))) [
        | inl many ↦ (drop (length rs - max_transactions) sorted, kept_many many)
        | inr few ↦ (sorted, kept_few few)
      ],
    )
