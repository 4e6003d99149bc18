-- ===== src/IndexDb/Refreshed.antt =====
-- The history that client_app/src/hooks/useTransactionHistory.ts shows is what the store holds.
use mathlib.Core.Path.{subst}
use spectra_portal.Base.{
  ℕ, zero, suc, ◌≤◌, ◌<◌, Mem, ltb, eq_of_some, ◌≡◌, refl, sym, ap, ◌∙◌, arith, String, Bool, true,
  false, List, [], ◌∷◌, map, take, length, length-map, length-take, Option, none, some,
  if◌then◌else◌, ◌==◌, All, All-mono, Option-cases, Bool-cases, inl, inr,
}
use spectra_portal.IndexDb.Types.{TransactionRecord, TransactionUpdate}
use spectra_portal.IndexDb.Store.{ObjectStore, find_id, IsKeyed}
use spectra_portal.IndexDb.Manager.{
  Settled, resolved, rejected, apply_update, time_of, insert_newest, sort_newest,
  load_all_transactions, update_transaction_status,
}
use spectra_portal.IndexDb.Updates.{Updates, update_transaction_status-Updates}
use spectra_portal.IndexDb.History.{insert_newest-All}
use spectra_portal.IndexDb.Merged.{IsMerged, apply_update-IsMerged}
use spectra_portal.IndexDb.Shown.{History, with_meta, refresh, reloaded, update_status}

-- A record that `lookup` finds under its key.
abbrev pub IsUnder : (ℕ → Option TransactionRecord) → TransactionRecord → Type 0
IsUnder lookup r = (id : ℕ) × r.id ≡ some id × lookup id ≡ some r

find_id-cons :
    (r : TransactionRecord) (rs : List TransactionRecord) {i : ℕ} (j : ℕ)
    → r.id ≡ some i
    → find_id j (r ∷ rs) ≡ (if i == j then some r else find_id j rs)
find_id-cons r rs {i} j e = rw e refl

IsUnder-cons :
    (r x : TransactionRecord) (rs : List TransactionRecord) {i : ℕ}
    → r.id ≡ some i
    → find_id i rs ≡ none
    → IsUnder (λ id. find_id id rs) x
    → IsUnder (λ id. find_id id (r ∷ rs)) x
IsUnder-cons r x rs {i} e new (id, own, there) = elim (Bool-cases (i == id)) [
  | inl same ↦
      let equal : i ≡ id = ground arith in
      let gone = sym new ∙ ap (λ k. find_id k rs) equal ∙ there in absurd cc
  | inr other ↦ (id, own, find_id-cons r rs id e ∙ rw other there)
]

All-IsKeyed : (rs : List TransactionRecord) → IsKeyed rs → All (IsUnder (λ id. find_id id rs)) rs
All-IsKeyed [] h = tt
All-IsKeyed (r ∷ rs) (i, e, new, h) = (
  (i, e, find_id-cons r rs i e ∙ (ground arith)),
  All-mono (λ x. IsUnder-cons r x rs e new) rs (All-IsKeyed rs h),
)

All-sort_newest :
    (key : TransactionRecord → ℕ) (P : TransactionRecord → Type 0) (rs : List TransactionRecord)
    → All P rs
    → All P (sort_newest key rs)
unfolding sort_newest
All-sort_newest key P [] h = tt
All-sort_newest key P (r ∷ rs) (p, h) =
    insert_newest-All key P r (sort_newest key rs) p (All-sort_newest key P rs h)

All-take : {A : Type 0} (P : A → Type 0) (n : ℕ) (xs : List A) → All P xs → All P (take n xs)
All-take P zero xs h = tt
All-take P (suc n) [] h = tt
All-take P (suc n) (x ∷ xs) (p, h) = (p, All-take P n xs h)

find_id-Mem :
    (id : ℕ) (rs : List TransactionRecord) {r : TransactionRecord}
    → find_id id rs ≡ some r
    → Mem r rs
find_id-Mem id [] e = absurd cc
find_id-Mem id (x ∷ rs) {r} e = elim (Option-cases x.id) [
  | inl blank ↦ inr (find_id-Mem id rs (rw blank at e))
  | inr (j, keyed) ↦
      let step = sym (find_id-cons x rs id keyed) ∙ e in
      elim (Bool-cases (j == id)) [
        | inl same ↦ inl (sym (eq_of_some (rw same at step)))
        | inr other ↦ inr (find_id-Mem id rs (rw other at step))
      ]
]

module _ {A : Type 0} (key : A → ℕ) where
  Mem-insert_newest : (r x : A) (ys : List A) → Mem r (x ∷ ys) → Mem r (insert_newest key x ys)
  unfolding insert_newest
  Mem-insert_newest r x [] m = m
  Mem-insert_newest r x (y ∷ ys) m = elim (Bool-cases (ltb (key x) (key y))) [
    | inr stays ↦ rw (insert_newest, stays) m
    | inl later ↦
        rw (insert_newest, later)
          (elim m [
            | inl own ↦ inr (Mem-insert_newest r x ys (inl own))
            | inr (inl first) ↦ inl first
            | inr (inr rest) ↦ inr (Mem-insert_newest r x ys (inr rest))
          ])
  ]

  Mem-sort_newest : (r : A) (xs : List A) → Mem r xs → Mem r (sort_newest key xs)
  unfolding sort_newest
  Mem-sort_newest r [] m = m
  Mem-sort_newest r (x ∷ xs) (inl own) = Mem-insert_newest r x (sort_newest key xs) (inl own)
  Mem-sort_newest r (x ∷ xs) (inr rest) =
      Mem-insert_newest r x (sort_newest key xs) (inr (Mem-sort_newest r xs rest))

-- What is shorter than the bound is whole.
Mem-take :
    {A : Type 0} (r : A) (n : ℕ) (xs : List A)
    → length (take n xs) < n
    → Mem r xs
    → Mem r (take n xs)
Mem-take r zero xs short m = absurd (omega arith)
Mem-take r (suc n) [] short m = m
Mem-take r (suc n) (x ∷ xs) short (inl own) = inl own
Mem-take r (suc n) (x ∷ xs) short (inr rest) = inr (Mem-take r n xs (omega arith) rest)

module _ (matches : String → String → Bool) (get_time : String → ℕ) (db : ObjectStore) where
  -- The history shows at most `limit` transactions, each as the store holds it under its key, and all
  -- that the store holds if it shows fewer.
  pub record Shows (limit : ℕ) (lookup : ℕ → Option TransactionRecord) (history : History)
      : Type 0 where
    pub is_short : length history.transactions ≤ limit
    pub is_held : All (λ t. IsUnder lookup t.tx) history.transactions
    pub is_whole :
        (id : ℕ) (r : TransactionRecord)
        → lookup id ≡ some r
        → length history.transactions < limit
        → Mem r (map (λ t. t.tx) history.transactions)

  All-with_meta :
      (now : ℕ) (lookup : ℕ → Option TransactionRecord) (rs : List TransactionRecord)
      → All (IsUnder lookup) rs
      → All (λ t. IsUnder lookup t.tx) (map (with_meta matches get_time now) rs)
  unfolding with_meta
  All-with_meta now lookup [] h = tt
  All-with_meta now lookup (r ∷ rs) (p, h) = (p, All-with_meta now lookup rs h)

  map-with_meta :
      (now : ℕ) (rs : List TransactionRecord)
      → map (λ t. t.tx) (map (with_meta matches get_time now) rs) ≡ rs
  unfolding with_meta
  map-with_meta now [] = refl
  map-with_meta now (r ∷ rs) = ap (λ xs. r ∷ xs) (map-with_meta now rs)

  Shows-loaded :
      (limit now : ℕ) (lookup : ℕ → Option TransactionRecord) (rs : List TransactionRecord)
      → All (IsUnder lookup) rs
      → ((id : ℕ) (r : TransactionRecord) → lookup id ≡ some r → Mem r rs)
      → Shows limit lookup (record {
        transactions = map (with_meta matches get_time now) (take limit rs);
        is_loading = false;
        error = none;
      })
  Shows-loaded limit now lookup rs h whole =
      let mapped = length-map (take limit rs) (with_meta matches get_time now) in
      let taken = length-take limit rs in
      record {
        is_short = omega arith;
        is_held = All-with_meta now lookup (take limit rs) (All-take (IsUnder lookup) limit rs h);
        is_whole = λ id r there short.
            subst (Mem r) (sym (map-with_meta now (take limit rs)))
              (Mem-take r limit rs (omega arith) (whole id r there));
      }

  refresh-Shows :
      (limit now : ℕ) (s : db.Store) (history : History)
      → (refresh matches get_time db limit now s history).error ≡ none
      → Shows limit (db.contents s) (refresh matches get_time db limit now s history)
  unfolding refresh load_all_transactions
  refresh-Shows limit now s history fine = elim (Option-cases (db.get_all s)) [
    | inl fails ↦ let gone = rw (refresh, load_all_transactions, fails) at fine in absurd cc
    | inr (rs, reads) ↦
        let (keyed, held) = db.get_all_lem s reads in
        let under = All-mono (λ r. holds rs held r) rs (All-IsKeyed rs keyed) in
        let sorted = All-sort_newest (time_of get_time) (IsUnder (db.contents s)) rs under in
        rw (refresh, load_all_transactions, reads)
          (Shows-loaded limit now (db.contents s) (sort_newest (time_of get_time) rs) sorted
            (λ id r there.
              Mem-sort_newest (time_of get_time) r rs (find_id-Mem id rs (held id ∙ there))))
  ]
    where
      holds :
          (rs : List TransactionRecord)
          → ((id : ℕ) → find_id id rs ≡ db.contents s id)
          → (r : TransactionRecord) → IsUnder (λ id. find_id id rs) r
          → IsUnder (db.contents s) r
      holds rs held r (id, own, there) = (id, own, sym (held id) ∙ there)

  reloaded-Shows :
      (limit now : ℕ) (u : TransactionUpdate) (s : db.Store) (history : History)
      (settled : Settled (Unit {0})) (s2 : db.Store) {after : db.Store} {shown : History}
      → Updates db u s (settled, s2)
      → reloaded matches get_time db limit now history settled s2 ≡ (resolved tt, (after, shown))
      → shown.error ≡ none
      → (old : TransactionRecord) × (new : TransactionRecord) × (db.contents s u.id ≡ some old)
        × IsMerged u old new
        × Shows limit (λ id. if u.id == id then some new else db.contents s id) shown
  unfolding reloaded
  reloaded-Shows limit now u s history (rejected t) s2 h e fine =
      let gone = ap (λ x. x.0) e in absurd cc
  reloaded-Shows limit now u s history (resolved _) s2 {after} {shown} (old, was, changed) e fine =
      let same : refresh matches get_time db limit now s2 history ≡ shown = ap (λ x. x.1.1) e in
      let shows = refresh-Shows limit now s2 history (ap (λ x. x.error) same ∙ fine) in
      (
        old,
        apply_update u old,
        was,
        apply_update-IsMerged u old,
        subst (Shows limit _) same (record {
          is_short = shows.is_short;
          is_held = All-mono (λ t h. (h.0, h.1, sym (changed h.0) ∙ h.2)) _ shows.is_held;
          is_whole = λ id r there short. shows.is_whole id r (changed id ∙ there) short;
        }),
      )

  -- An update that is resolved, and whose reload of the history meets no error, has found its record.
  -- The history then shows at most `limit` transactions, and all of them if it shows fewer: the record
  -- of the update with the new value of every field that is given and the old value of every other, and
  -- any other record as the store held it before.
  pub update_status-Shows :
      (limit now : ℕ) (u : TransactionUpdate) (s : db.Store) (history : History) {after : db.Store}
      {shown : History}
      → update_status matches get_time db true limit now u s history ≡ (resolved tt, (after, shown))
      → shown.error ≡ none
      → (old : TransactionRecord) × (new : TransactionRecord) × (db.contents s u.id ≡ some old)
        × IsMerged u old new
        × Shows limit (λ id. if u.id == id then some new else db.contents s id) shown
  unfolding update_status
  update_status-Shows limit now u s history {after} {shown} e fine =
      reloaded-Shows limit now u s history (update_transaction_status db u s).0
        (update_transaction_status db u s).1 (update_transaction_status-Updates db u s) e fine
