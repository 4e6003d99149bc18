-- ===== src/Amounts/Tests.antt =====
-- Conversions of client_app/src/lib/utils.ts.
use spectra_portal.Base.{
  ◌-◌, ◌*◌, ◌^◌, ◌≡◌, refl, String, true, Option, none, some, if◌then◌else◌, ◌<>◌, show_nat, arith,
}
use spectra_portal.Amounts.Convert.{human_to_base_units, build_explorer_tx_url}
use spectra_portal.Amounts.Value.{value_from, all_digits, count, human_to_base_units-digits}

-- Reads decimal digits alone.
abbrev big_int : String → Option String
big_int s = if all_digits s then some (show_nat (value_from 0 s)) else none

big_int_reads : (s : String) → all_digits s ≡ true → big_int s ≡ some (show_nat (value_from 0 s))
big_int_reads s digits = rw digits refl

one_and_a_half : human_to_base_units big_int "1.5" 6 ≡ "1500000"
unfolding human_to_base_units all_digits value_from show_nat
one_and_a_half = refl

human_to_base_units-digits_example :
    human_to_base_units big_int ("1" <> "." <> "5") 6
    ≡ show_nat (value_from 0 ("1" <> "5") * 10 ^ (6 - count "5"))
unfolding all_digits count
human_to_base_units-digits_example =
    human_to_base_units-digits big_int big_int_reads "1" "5" 6 refl refl refl (omega arith)

explorer_url :
    build_explorer_tx_url
      (λ path pattern hash. "/tx/" <> hash)
      "https://explorer/"
      "/tx/{tx_hash}"
      "AB"
    ≡ "https://explorer/tx/AB"
unfolding build_explorer_tx_url
explorer_url = refl
