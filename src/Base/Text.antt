-- ===== src/Base/Text.antt =====
-- Texts: their JavaScript length, truth value and joins.
use Prim.Native.Nat.{ℕ, zero, suc, ◌+◌, ◌/◌, ◌%◌}
use Prim.Native.Char.{code}
use Prim.Native.String.{String}
use Prim.Native.String
use mathlib.Core.Path.{◌≡◌, refl}
use mathlib.Core.Bool.{Bool, true, false, not}
use mathlib.Core.List.{List, [], ◌∷◌}
use mathlib.Core.Option.{Option, none, some}
use native.Mathlib.Omega.{arith}
use text.Mathlib.Text.{◌==◌ as text_beq}
use text.Mathlib.TextLemmas.{nil-append, cons-append}
use spectra_portal.Base.Tests.{ltb, if◌then◌else◌, or_else, ◌==◌}
use spectra_portal.Base.Lists.{get_elem?}

abbrev pub str_eq : String → String → Bool
str_eq s t = text_beq s t

-- `!!s`: the empty text alone is falsy.
abbrev pub is_truthy : String → Bool
is_truthy s = not (str_eq s "")

-- `s || t`
abbrev pub str_or : String → String → String
str_or s t = if is_truthy s then s else t

-- `o || t`, where `o` may be undefined.
abbrev pub opt_or : Option String → String → String
opt_or none t = t
opt_or (some s) t = str_or s t

infixr 65 ◌<>◌
abbrev pub ◌<>◌ : String → String → String
s <> t = String.◌++◌ s t

-- `s.length`, in UTF-16 units.
unfoldable pub text_length : String → ℕ
text_length String.[] = 0
text_length (String.◌∷◌ c s) = (if ltb (code c) 0x10000 then 1 else 2) + text_length s

-- `parts.join(sep)`
unfoldable pub join : String → List String → String
join sep [] = ""
join sep (s ∷ []) = s
join sep (s ∷ t ∷ parts) = s <> sep <> join sep (t ∷ parts)

-- `s.startsWith(prefix)`
unfoldable pub starts_with : String → String → Bool
starts_with String.[] s = true
starts_with (String.◌∷◌ c prefix) String.[] = false
starts_with (String.◌∷◌ c prefix) (String.◌∷◌ d s) =
    let rest = starts_with prefix s in if code c == code d then rest else false

pub starts_with-append : (prefix s : String) → starts_with prefix (prefix <> s) ≡ true
unfolding starts_with
starts_with-append String.[] s = refl
starts_with-append (String.◌∷◌ c prefix) s =
    rw cons-append (ground (arith, starts_with-append prefix s))

pub text_length-append : (s t : String) → text_length (s <> t) ≡ text_length s + text_length t
unfolding text_length
text_length-append String.[] t = rw nil-append (omega arith)
text_length-append (String.◌∷◌ c s) t = rw cons-append (omega (arith, text_length-append s t))

digit : ℕ → String
digit d = or_else (get_elem? ("0" ∷ "1" ∷ "2" ∷ "3" ∷ "4" ∷ "5" ∷ "6" ∷ "7" ∷ "8" ∷ "9" ∷ []) d) ""

show_fuel : ℕ → ℕ → String
unfolding digit
show_fuel zero n = ""
show_fuel (suc f) n =
    let front = show_fuel f (n / 10) in if n / 10 == 0 then digit n else front <> digit (n % 10)

-- `${n}`: the decimal digits; `n + 1` rounds are enough, since a round divides `n` by ten.
unfoldable pub show_nat : ℕ → String
unfolding show_fuel
show_nat n = show_fuel (suc n) n
