-- ===== src/Wire/Tests.antt =====
-- The codecs on a wire that carries numbers and texts as they are.
use spectra_portal.Base.{
  ℕ, ◌<◌, ◌≤◌, ◌++◌, ◌^◌, ◌≡◌, ◌≢◌, refl, arith, String, List, [], ◌∷◌, length, Option, none, some,
}
use mathlib.Core.Option
use spectra_portal.Messages.{
  Coin, SwapAmountInRoute, SwapAmountInSplitRoute, create_swap_message,
  create_split_route_swap_message,
}
use spectra_portal.Wire.{Wire, WireLaws, read, thrown, out_of_fuel}
use spectra_portal.Wire.Coin as Coin_codec
use spectra_portal.Wire.Route as Route
use spectra_portal.Wire.SplitRoute as SplitRoute
use spectra_portal.Wire.Swap as Swap
use spectra_portal.Wire.SplitSwap as SplitSwap
use spectra_portal.Wire.Total.{decode_ends}
use spectra_portal.Wire.Unknown.{decode_unknown-encode}
use spectra_portal.Wire.Schema.{print_swap, print_split_swap}
use spectra_portal.Wire.Signed.{encode_built, decode-encode_built, decode_split-encode_built}

data Token : Type 0 where
  number : ℕ → Token
  text : String → Token

abbrev take_number : List Token → Option (ℕ × List Token)
take_number [] = none
take_number (number n ∷ rest) = some (n, rest)
take_number (text s ∷ rest) = none

abbrev take_text : List Token → Option (String × List Token)
take_text [] = none
take_text (number n ∷ rest) = none
take_text (text s ∷ rest) = some (s, rest)

abbrev skip_token : ℕ → List Token → Option (List Token)
skip_token kind [] = none
skip_token kind (token ∷ rest) = some rest

abbrev token_wire : Wire Token
token_wire = record {
  put_uint32 = λ n. number n ∷ [];
  put_uint64 = λ n. number n ∷ [];
  put_string = λ s. text s ∷ [];
  get_uint32 = take_number;
  get_uint64 = take_number;
  get_string = take_text;
  skip_value = skip_token;
}

take_number_less :
    (bytes : List Token) (n : ℕ) (rest : List Token)
    → take_number bytes ≡ some (n, rest)
    → length rest < length bytes
take_number_less [] n rest e = cc
take_number_less (number k ∷ bytes) n rest e = ground arith
take_number_less (text s ∷ bytes) n rest e = cc

take_text_less :
    (bytes : List Token) (s : String) (rest : List Token)
    → take_text bytes ≡ some (s, rest)
    → length rest < length bytes
take_text_less [] n rest e = cc
take_text_less (number k ∷ bytes) n rest e = cc
take_text_less (text s ∷ bytes) n rest e = ground arith

skip_token_le :
    (kind : ℕ) (bytes rest : List Token)
    → skip_token kind bytes ≡ some rest
    → length rest ≤ length bytes
skip_token_le kind [] rest e = cc
skip_token_le kind (token ∷ bytes) rest e = ground arith

token_laws : WireLaws token_wire
token_laws = record {
  uint32_read = λ n rest h. refl;
  uint64_read = λ n rest h. refl;
  string_read = λ s rest h. refl;
  uint32_taken = take_number_less;
  uint64_taken = take_number_less;
  string_taken = take_text_less;
  skip_taken = skip_token_le;
}

abbrev atom : Coin
atom = record { denom = "uatom"; amount = "25" }

abbrev first_route : SwapAmountInRoute
first_route = record { pool_id = 1; token_out_denom = "uosmo" }

abbrev second_route : SwapAmountInRoute
second_route = record { pool_id = 0; token_out_denom = "uion" }

abbrev two_hops : SwapAmountInSplitRoute
two_hops = record { pools = first_route ∷ second_route ∷ []; token_in_amount = "15" }

abbrev swap : Swap.MsgSwapExactAmountIn
swap = record {
  sender = "osmo1";
  routes = first_route ∷ second_route ∷ [];
  token_in = some atom;
  token_out_min_amount = "";
}

swap_bytes : List Token
swap_bytes = Swap.encode token_wire swap []

-- The pool id 0 and the empty text are left out.
swap_bytes_lem :
    swap_bytes
    ≡ number 10
      ∷ text "osmo1"
      ∷ number 18
      ∷ number 4
      ∷ number 8
      ∷ number 1
      ∷ number 18
      ∷ text "uosmo"
      ∷ number 18
      ∷ number 2
      ∷ number 18
      ∷ text "uion"
      ∷ number 26
      ∷ number 4
      ∷ number 10
      ∷ text "uatom"
      ∷ number 18
      ∷ text "25"
      ∷ []
unfolding swap_bytes Swap.encode Route.encode Coin_codec.encode
swap_bytes_lem = refl

-- A pool id that is no safe number stops the decoder.
unsafe_id :
    Swap.decode token_wire (number 18 ∷ number 2 ∷ number 8 ∷ number 9007199254740992 ∷ []) ≡ thrown
unfolding Swap.decode Swap.fields Route.fields
unsafe_id = refl

decode-encode_built_example :
    (encode_built token_wire
        (create_swap_message "osmo1" atom (first_route ∷ second_route ∷ []) "7")
      ≡ some (print_swap token_wire "osmo1" (first_route ∷ second_route ∷ []) atom "7"))
    × (Option.map (Swap.decode token_wire) (
          encode_built token_wire
            (create_swap_message "osmo1" atom (first_route ∷ second_route ∷ []) "7"))
        ≡ some (
            read (record {
              sender = "osmo1";
              routes = first_route ∷ second_route ∷ [];
              token_in = some atom;
              token_out_min_amount = "7";
            })))
unfolding Swap.encode Route.encode Coin_codec.encode
decode-encode_built_example =
    decode-encode_built token_wire token_laws "osmo1" atom first_route (second_route ∷ []) "7"
      (omega arith, (omega arith, tt)) fits
  where
    fits :
        length (
          Swap.encode token_wire
            (record {
              sender = "osmo1";
              routes = first_route ∷ second_route ∷ [];
              token_in = some atom;
              token_out_min_amount = "7";
            })
            [])
        < 2 ^ 32
    fits = omega arith

decode_split-encode_built_example :
    (encode_built token_wire (create_split_route_swap_message "osmo1" "uatom" (two_hops ∷ []) "7")
      ≡ some (print_split_swap token_wire "osmo1" (two_hops ∷ []) "uatom" "7"))
    × (Option.map (SplitSwap.decode token_wire) (
          encode_built token_wire
            (create_split_route_swap_message "osmo1" "uatom" (two_hops ∷ []) "7"))
        ≡ some (
            read (record {
              sender = "osmo1";
              routes = two_hops ∷ [];
              token_in_denom = "uatom";
              token_out_min_amount = "7";
            })))
unfolding SplitSwap.encode SplitRoute.encode Route.encode
decode_split-encode_built_example =
    decode_split-encode_built token_wire token_laws "osmo1" "uatom" two_hops [] "7"
      ((omega arith, (omega arith, tt)), tt) fits
  where
    fits :
        length (
          SplitSwap.encode token_wire
            (record {
              sender = "osmo1";
              routes = two_hops ∷ [];
              token_in_denom = "uatom";
              token_out_min_amount = "7";
            })
            [])
        < 2 ^ 32
    fits = omega arith

-- Bytes that end within a message.
decode_ends_example :
    (Swap.decode token_wire (number 18 ∷ number 9 ∷ number 8 ∷ []) ≢ out_of_fuel)
    × (SplitSwap.decode token_wire (number 18 ∷ number 9 ∷ number 8 ∷ []) ≢ out_of_fuel)
decode_ends_example = decode_ends token_wire token_laws (number 18 ∷ number 9 ∷ number 8 ∷ [])

decode_unknown-encode_example :
    Swap.decode token_wire ((number 42 ∷ text "referrer" ∷ []) ++ swap_bytes) ≡ read swap
unfolding swap_bytes Swap.encode Route.encode Coin_codec.encode
decode_unknown-encode_example =
    decode_unknown-encode token_wire token_laws 42 (text "referrer" ∷ []) swap (omega arith)
      (omega arith) refl (λ rest. refl) (omega arith, (omega arith, tt)) fits
  where
    fits : length (Swap.encode token_wire swap []) < 2 ^ 32
    fits = omega arith
