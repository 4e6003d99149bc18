-- ===== src/Amounts/Convert.antt =====
-- `humanToBaseUnits`, `buildExplorerTxUrl` and `buildExplorerAccountUrl` of client_app/src/lib/utils.ts.
use Prim.Native.Char.{code}
use mathlib.Core.Option
use spectra_portal.Base.{
  ℕ, zero, suc, String, Option, none, some, if◌then◌else◌, ◌||◌, not, ◌==◌, str_eq, is_truthy,
  str_or, opt_or, or_else, ◌<>◌,
}

-- `text.split(".")[0]`
unfoldable pub first_part : String → String
first_part String.[] = ""
first_part (String.◌∷◌ c s) =
    let rest = first_part s in if code c == 46 then "" else String.◌∷◌ c rest

-- The text behind the first dot.
unfoldable pub after_dot : String → Option String
after_dot String.[] = none
after_dot (String.◌∷◌ c s) = let rest = after_dot s in if code c == 46 then some s else rest

-- `text.split(".")[1]`
unfoldable pub second_part : String → Option String
unfolding first_part after_dot
second_part s = Option.map first_part (after_dot s)

-- `s.padEnd(n, "0")`
unfoldable pub pad_end : ℕ → String → String
pad_end zero s = s
pad_end (suc n) String.[] = "0" <> pad_end n ""
pad_end (suc n) (String.◌∷◌ c s) = String.◌∷◌ c (pad_end n s)

-- `s.slice(0, n)`
unfoldable pub slice : ℕ → String → String
slice zero s = ""
slice (suc n) String.[] = ""
slice (suc n) (String.◌∷◌ c s) = String.◌∷◌ c (slice n s)

unfoldable pub full_amount : String → ℕ → String
unfolding first_part second_part pad_end slice
full_amount amount decimals =
    str_or (first_part amount) "0"
    <> slice decimals (pad_end decimals (opt_or (second_part amount) ""))

-- `big_int` is `BigInt(text).toString()`, where `none` is its exception.
unfoldable pub human_to_base_units : (String → Option String) → String → ℕ → String
unfolding full_amount
human_to_base_units big_int amount decimals =
    if not (is_truthy amount) || str_eq amount "0"
    then "0"
    else or_else (big_int (full_amount amount decimals)) "0"

-- `s.endsWith("/") ? s.slice(0, -1) : s`
unfoldable pub without_last_slash : String → String
without_last_slash String.[] = ""
without_last_slash (String.◌∷◌ c String.[]) = if code c == 47 then "" else String.◌∷◌ c ""
without_last_slash (String.◌∷◌ c (String.◌∷◌ d s)) =
    String.◌∷◌ c (without_last_slash (String.◌∷◌ d s))

-- `s.startsWith("/") ? s.slice(1) : s`
unfoldable pub without_first_slash : String → String
without_first_slash String.[] = ""
without_first_slash (String.◌∷◌ c s) = if code c == 47 then s else String.◌∷◌ c s

-- `replace` is `path.replace`, of the first occurrence of a text.
module _ (replace : String → String → String → String) where
  unfoldable pub build_explorer_tx_url : String → String → String → String
  unfolding without_last_slash without_first_slash
  build_explorer_tx_url base_url transaction_path tx_hash =
      without_last_slash base_url
      <> "/"
      <> without_first_slash (replace transaction_path "{tx_hash}" tx_hash)

  unfoldable pub build_explorer_account_url : String → String → String → String
  unfolding without_last_slash without_first_slash
  build_explorer_account_url base_url account_path address =
      without_last_slash base_url
      <> "/"
      <> without_first_slash (replace account_path "{address}" address)
