-- ===== src/Base/Dict.antt =====
-- JavaScript's `Map` with texts for keys: its entries in the order in which their keys came first.
use mathlib.Core.Path.{◌≡◌, refl, sym, ap, ◌∙◌}
use mathlib.Core.Logic.{◌⊎◌, inl, inr}
use mathlib.Core.Bool.{true, false}
use mathlib.Core.List.{List, [], ◌∷◌, map}
use mathlib.Core.Option.{Option, none, some}
use Prim.Native.String.{String}
use native.Mathlib.Omega.{arith}
use text.Mathlib.TextEquality.{eq_iff}
use spectra_portal.Base.Tests.{if◌then◌else◌, Bool-cases, eq_of_some}
use spectra_portal.Base.Text.{str_eq}

abbrev pub Dict {ℓ} : Type ℓ → Type ℓ
Dict A = List (String × A)

pub str_eq_self : (s : String) → str_eq s s ≡ true
str_eq_self s = (eq_iff s s).1 refl

pub str_ne_sym : (s t : String) → str_eq s t ≡ false → str_eq t s ≡ false
str_ne_sym s t other = ground (arith, eq_iff s t, eq_iff t s)

module _ {ℓ} {A : Type ℓ} where
  -- `d.get(key)`
  abbrev pub get : String → Dict A → Option A
  get key [] = none
  get key ((k, v) ∷ d) = if str_eq k key then some v else get key d

  -- `d.set(key, value)`: a key that is there keeps its place.
  abbrev pub set : String → A → Dict A → Dict A
  set key value [] = (key, value) ∷ []
  set key value ((k, v) ∷ d) =
      let rest = set key value d in if str_eq k key then (k, value) ∷ d else (k, v) ∷ rest

  -- `d.delete(key)`
  abbrev pub delete : String → Dict A → Dict A
  delete key [] = []
  delete key ((k, v) ∷ d) = let rest = delete key d in if str_eq k key then rest else (k, v) ∷ rest

  -- `Array.from(d.values())`
  abbrev pub values : Dict A → List A
  values [] = []
  values ((k, v) ∷ d) = v ∷ values d

  -- `d` after `d.set` of each entry in turn.
  abbrev pub set_all : List (String × A) → Dict A → Dict A
  set_all [] d = d
  set_all ((k, v) ∷ entries) d = set_all entries (set k v d)

  -- `new Map(entries)`
  abbrev pub of_entries : List (String × A) → Dict A
  of_entries entries = set_all entries []

  pub get-set :
      (key k : String) (value : A) (d : Dict A)
      → get key (set k value d) ≡ (if str_eq k key then some value else get key d)
  get-set key k value [] = refl
  get-set key k value ((h, v) ∷ d) = elim (Bool-cases (str_eq h k)) [
    | inl same ↦ rw same (rw ((eq_iff h k).0 same) (ground arith))
    | inr other ↦
        rw other (ground (arith, get-set key k value d, eq_iff h k, eq_iff h key, eq_iff k key))
  ]

  pub get-set_self : (k : String) (value : A) (d : Dict A) → get k (set k value d) ≡ some value
  get-set_self k value d =
      get-set k k value d ∙ ap (λ b. if b then some value else get k d) (str_eq_self k)

  pub get-set_ne :
      (key k : String) (value : A) (d : Dict A)
      → str_eq k key ≡ false
      → get key (set k value d) ≡ get key d
  get-set_ne key k value d other =
      get-set key k value d ∙ ap (λ b. if b then some value else get key d) other

  -- A property of the entries of a table, by their keys.
  abbrev pub AllEntries {κ} : (String → A → Type κ) → Dict A → Type κ
  AllEntries P [] = Unit
  AllEntries P ((k, v) ∷ d) = P k v × AllEntries P d

  pub AllEntries-set {κ} :
      (P : String → A → Type κ) (k : String) (v : A) (d : Dict A)
      → P k v
      → AllEntries P d
      → AllEntries P (set k v d)
  AllEntries-set P k v [] p h = (p, tt)
  AllEntries-set P k v ((key, w) ∷ d) p (q, h) = elim (Bool-cases (str_eq key k)) [
    | inl same ↦ rw (same, (eq_iff key k).0 same) (p, h)
    | inr other ↦ rw other (q, AllEntries-set P k v d p h)
  ]

  pub AllEntries-get {κ} :
      (P : String → A → Type κ) (k : String) (d : Dict A) {v : A}
      → AllEntries P d
      → get k d ≡ some v
      → P k v
  AllEntries-get P k [] h e = cc
  AllEntries-get P k ((key, w) ∷ d) (q, h) e = elim (Bool-cases (str_eq key k)) [
    | inl same ↦ rw (← eq_of_some (rw same at e)) (rw (← (eq_iff key k).0 same) q)
    | inr other ↦ AllEntries-get P k d h (rw other at e)
  ]

  -- What a table holds that was filled with the values of a function on keys.
  pub get-set_all {κ} :
      {B : Type κ} (f : String → A) (key_of : B → String) (xs : List B) (k : String) (d : Dict A)
      {v : A}
      → get k (set_all (map (λ x. (key_of x, f (key_of x))) xs) d) ≡ some v
      → (v ≡ f k) ⊎ (get k d ≡ some v)
  get-set_all f key_of [] k d e = inr e
  get-set_all f key_of (x ∷ xs) k d e =
      elim (get-set_all f key_of xs k (set (key_of x) (f (key_of x)) d) e) [
        | inl made ↦ inl made
        | inr there ↦
            let here = sym (get-set k (key_of x) (f (key_of x)) d) ∙ there in
            elim (Bool-cases (str_eq (key_of x) k)) [
              | inl same ↦
                  inl (sym (eq_of_some (rw same at here)) ∙ ap f ((eq_iff (key_of x) k).0 same))
              | inr other ↦ inr (rw other at here)
            ]
      ]

  pub get-delete :
      (key k : String) (d : Dict A)
      → get key (delete k d) ≡ (if str_eq k key then none else get key d)
  get-delete key k [] = ground arith
  get-delete key k ((h, v) ∷ d) = elim (Bool-cases (str_eq h k)) [
    | inl same ↦ rw same (rw ((eq_iff h k).0 same) (ground (arith, get-delete key k d)))
    | inr other ↦
        rw other (ground (arith, get-delete key k d, eq_iff h k, eq_iff h key, eq_iff k key))
  ]

  pub AllEntries-delete {κ} :
      (P : String → A → Type κ) (k : String) (d : Dict A)
      → AllEntries P d
      → AllEntries P (delete k d)
  AllEntries-delete P k [] h = tt
  AllEntries-delete P k ((key, v) ∷ d) (p, h) = elim (Bool-cases (str_eq key k)) [
    | inl same ↦ rw same (AllEntries-delete P k d h)
    | inr other ↦ rw other (p, AllEntries-delete P k d h)
  ]
