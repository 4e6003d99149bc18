-- ===== src/Amounts/Value.antt =====
-- What number `humanToBaseUnits` of client_app/src/lib/utils.ts writes.
use Prim.Native.Char.{Char, code}
use native.Mathlib.Nat.{pow-succ', mul_comm}
use text.Mathlib.TextLemmas.{nil-append, cons-append}
use spectra_portal.Base.{
  ℕ, zero, suc, ◌+◌, ◌-◌, ◌*◌, ◌^◌, ◌≤◌, ◌≡◌, refl, sym, ap, ◌∙◌, String, Bool, true, false, Option,
  some, ◌&&◌, leb, arith, ◌<>◌, show_nat, is_truthy, str_eq, eq_iff, Bool-cases, inl, inr, str_or,
  not, ◌||◌,
}
use spectra_portal.Amounts.Convert.{
  first_part, after_dot, second_part, pad_end, slice, full_amount, human_to_base_units,
}

-- The number that decimal digits read as, behind digits that read as `acc`.
unfoldable pub value_from : ℕ → String → ℕ
value_from acc String.[] = acc
value_from acc (String.◌∷◌ c s) = value_from (acc * 10 + (code c - 48)) s

unfoldable pub all_digits : String → Bool
all_digits String.[] = true
all_digits (String.◌∷◌ c s) =
    let rest = all_digits s in leb 48 (code c) && (leb (code c) 57 && rest)

-- The number of characters.
unfoldable pub count : String → ℕ
count String.[] = 0
count (String.◌∷◌ c s) = suc (count s)

abbrev dot : Char
dot = "."

abbrev nought : Char
nought = "0"

dot_lem : (rest : String) → "." <> rest ≡ String.◌∷◌ dot rest
dot_lem rest = cons-append dot "" rest ∙ ap (String.◌∷◌ dot) (nil-append rest)

nought_lem : (rest : String) → "0" <> rest ≡ String.◌∷◌ nought rest
nought_lem rest = cons-append nought "" rest ∙ ap (String.◌∷◌ nought) (nil-append rest)

digit-code :
    (c : Char) (s : String)
    → all_digits (String.◌∷◌ c s) ≡ true
    → (48 ≤ code c) × (code c ≤ 57) × (all_digits s ≡ true)
unfolding all_digits
digit-code c s h = ground arith

first_part-digits : (i rest : String) → all_digits i ≡ true → first_part (i <> "." <> rest) ≡ i
unfolding first_part
first_part-digits String.[] rest h = rw (nil-append, dot_lem rest) refl
first_part-digits (String.◌∷◌ c i) rest h =
    let (low, high, digits) = digit-code c i h in
    rw (cons-append c i ("." <> rest)) (ground (arith, first_part-digits i rest digits))

first_part-all : (f : String) → all_digits f ≡ true → first_part f ≡ f
unfolding first_part
first_part-all String.[] h = refl
first_part-all (String.◌∷◌ c f) h =
    let (low, high, digits) = digit-code c f h in ground (arith, first_part-all f digits)

after_dot-digits :
    (i rest : String) → all_digits i ≡ true → after_dot (i <> "." <> rest) ≡ some rest
unfolding after_dot
after_dot-digits String.[] rest h = rw (nil-append, dot_lem rest) refl
after_dot-digits (String.◌∷◌ c i) rest h =
    let (low, high, digits) = digit-code c i h in
    rw (cons-append c i ("." <> rest)) (ground (arith, after_dot-digits i rest digits))

abbrev fill : ℕ → String → String
fill n f = slice n (pad_end n f)

scale : (a p : ℕ) → (a * 10 + 0) * p ≡ a * (p * 10)
scale a p = grind arith

ten_pow_suc : (n : ℕ) → 10 ^ suc n ≡ 10 ^ n * 10
ten_pow_suc n = pow-succ' 10 n ∙ mul_comm 10 (10 ^ n)

sub_suc : (n m : ℕ) → n - m ≡ suc n - suc m
sub_suc n m = omega arith

value_from-zeros : (n acc : ℕ) → value_from acc (fill n "") ≡ acc * 10 ^ n
unfolding value_from slice pad_end
value_from-zeros zero acc = omega arith
value_from-zeros (suc n) acc = rw (nought_lem (pad_end n "")) (
    value_from-zeros n (acc * 10 + (code nought - 48))
    ∙ (scale acc (10 ^ n) ∙ ap (λ p. acc * p) (sym (ten_pow_suc n))))

minus_zero : (n : ℕ) → n ≡ n - 0
minus_zero n = omega arith

value_from-fill :
    (n acc : ℕ) (f : String)
    → count f ≤ n
    → value_from acc (fill n f) ≡ value_from acc f * 10 ^ (n - count f)
unfolding value_from slice pad_end count
value_from-fill n acc String.[] h = value_from-zeros n acc ∙ ap (λ k. acc * 10 ^ k) (minus_zero n)
value_from-fill zero acc (String.◌∷◌ c f) h = absurd (omega arith)
value_from-fill (suc n) acc (String.◌∷◌ c f) h =
    value_from-fill n (acc * 10 + (code c - 48)) f (omega arith)
    ∙ ap (λ k. value_from (acc * 10 + (code c - 48)) f * 10 ^ k) (sub_suc n (count f))

value_from-append :
    (acc : ℕ) (s t : String) → value_from acc (s <> t) ≡ value_from (value_from acc s) t
unfolding value_from
value_from-append acc String.[] t = rw nil-append refl
value_from-append acc (String.◌∷◌ c s) t =
    rw cons-append (value_from-append (acc * 10 + (code c - 48)) s t)

all_digits-append :
    (s t : String) → all_digits s ≡ true → all_digits t ≡ true → all_digits (s <> t) ≡ true
unfolding all_digits
all_digits-append String.[] t h k = rw nil-append k
all_digits-append (String.◌∷◌ c s) t h k =
    let (low, high, digits) = digit-code c s h in
    rw cons-append (ground (arith, all_digits-append s t digits k))

all_digits-fill : (n : ℕ) (f : String) → all_digits f ≡ true → all_digits (fill n f) ≡ true
unfolding all_digits slice pad_end
all_digits-fill zero f h = refl
all_digits-fill (suc n) String.[] h =
    rw (nought_lem (pad_end n "")) (ground (arith, all_digits-fill n "" refl))
all_digits-fill (suc n) (String.◌∷◌ c f) h =
    let (low, high, digits) = digit-code c f h in ground (arith, all_digits-fill n f digits)

str_or_empty : (s : String) → str_or s "" ≡ s
str_or_empty s = elim (Bool-cases (is_truthy s)) [
  | inl some_text ↦ rw some_text refl
  | inr empty ↦ rw empty (sym ((eq_iff s "").0 (ground arith)))
]

full_amount-digits :
    (i f : String) (decimals : ℕ)
    → is_truthy i ≡ true
    → all_digits i ≡ true
    → all_digits f ≡ true
    → full_amount (i <> "." <> f) decimals ≡ i <> fill decimals f
unfolding full_amount second_part
full_amount-digits i f decimals some_digits di df =
    rw (first_part-digits i f di, after_dot-digits i f di, some_digits)
      (rw (first_part-all f df, str_or_empty f) refl)

-- An amount with a dot is not one of the texts that are taken for nothing.
dotted_lem :
    (i f : String)
    → is_truthy i ≡ true
    → all_digits i ≡ true
    → (not (is_truthy (i <> "." <> f)) || str_eq (i <> "." <> f) "0") ≡ false
unfolding first_part after_dot
dotted_lem i f some_digits di = elim (Bool-cases (str_eq (i <> "." <> f) "")) [
  | inl empty ↦
      let e =
        sym (first_part-digits i f di) ∙ ap first_part ((eq_iff (i <> "." <> f) "").0 empty) in
      let gone = (eq_iff i "").1 e in absurd (ground arith)
  | inr some_text ↦ elim (Bool-cases (str_eq (i <> "." <> f) "0")) [
    | inl zero_text ↦
        let gone =
          sym (after_dot-digits i f di) ∙ ap after_dot ((eq_iff (i <> "." <> f) "0").0 zero_text) in
        absurd (ground arith)
    | inr other ↦ rw (some_text, other) refl
  ]
]

-- An amount of one digit or more, a dot and at most as many digits as the token has decimals is converted to the
-- number that all its digits make, times ten to the decimals that are left, if `BigInt` reads decimal
-- digits as their number.
pub human_to_base_units-digits :
    (big_int : String → Option String)
    → ((s : String) → all_digits s ≡ true → big_int s ≡ some (show_nat (value_from 0 s)))
    → (i f : String) (decimals : ℕ) → is_truthy i ≡ true
    → all_digits i ≡ true
    → all_digits f ≡ true
    → count f ≤ decimals
    → human_to_base_units big_int (i <> "." <> f) decimals
      ≡ show_nat (value_from 0 (i <> f) * 10 ^ (decimals - count f))
unfolding human_to_base_units
human_to_base_units-digits big_int reads i f decimals some_digits di df short =
    let digits = all_digits-append i (fill decimals f) di (all_digits-fill decimals f df) in
    let number =
      value_from-append 0 i (fill decimals f)
      ∙ (value_from-fill decimals (value_from 0 i) f short
          ∙ ap (λ v. v * 10 ^ (decimals - count f)) (sym (value_from-append 0 i f))) in
    rw
      (
        dotted_lem i f some_digits di,
        full_amount-digits i f decimals some_digits di df,
        reads (i <> fill decimals f) digits,
      )
      (ap show_nat number)
