-- ===== src/Wire/Signed.antt =====
-- The swap messages from the hook that builds them (client_app/src/hooks/useTransactionConstr.ts)
-- through the types that `sendTransaction` of client_app/src/context/walletContext.tsx registers to
-- bytes, and back through the client's own `decode`. The chain's decoder is not modelled.
use spectra_portal.Base.{
  String, List, [], ◌∷◌, map, Option, none, some, ◌≡◌, ap, ◌<◌, ◌^◌, length, All,
}
use mathlib.Core.Option
use spectra_portal.Messages.{
  Coin, SwapAmountInRoute, SwapAmountInSplitRoute, EncodeObject, msg_transfer, msg_swap,
  msg_split_swap, msg_execute_contract, Built, built, thrown, create_swap_message,
  create_split_route_swap_message,
}
use spectra_portal.Wire.{Wire, WireLaws, read}
use spectra_portal.Wire.Route as Route
use spectra_portal.Wire.SplitRoute as SplitRoute
use spectra_portal.Wire.Swap as Swap
use spectra_portal.Wire.SplitSwap as SplitSwap
use spectra_portal.Wire.Schema.{
  print_swap, print_split_swap, encode_swap_lem, encode_split_swap_lem,
}
use spectra_portal.Wire.Partial.{
  coin_of, swap_of, split_swap_of, whole_coin, whole_route, whole_split_route, map-route_of,
  map-split_route_of,
}

module _ {Byte : Type 0} (w : Wire Byte) where
  -- The registry makes a whole message of a value and encodes it; the other types are the package's.
  unfoldable pub registry_encode : EncodeObject → Option (List Byte)
  unfolding swap_of split_swap_of
  registry_encode (msg_transfer m) = none
  registry_encode (msg_swap sender token_in routes min_amount) = some (
      Swap.encode w
        (swap_of (record {
          sender = some sender;
          routes = some (map whole_route routes);
          token_in = some (whole_coin token_in);
          token_out_min_amount = some min_amount;
        }))
        [])
  registry_encode (msg_split_swap sender routes denom min_amount) = some (
      SplitSwap.encode w
        (split_swap_of (record {
          sender = some sender;
          routes = some (map whole_split_route routes);
          token_in_denom = some denom;
          token_out_min_amount = some min_amount;
        }))
        [])
  registry_encode (msg_execute_contract sender contract msg funds) = none

  unfoldable pub encode_built : Built → Option (List Byte)
  unfolding registry_encode
  encode_built (thrown e) = none
  encode_built (built object) = registry_encode object

abbrev asked_swap : String → Coin → List SwapAmountInRoute → String → Swap.MsgSwapExactAmountIn
asked_swap sender token_in routes min_amount = record {
  sender = sender;
  routes = routes;
  token_in = some token_in;
  token_out_min_amount = min_amount;
}

abbrev asked_split_swap :
    String
    → String
    → List SwapAmountInSplitRoute
    → String
    → SplitSwap.MsgSplitRouteSwapExactAmountIn
asked_split_swap sender denom routes min_amount = record {
  sender = sender;
  routes = routes;
  token_in_denom = denom;
  token_out_min_amount = min_amount;
}

module _ {Byte : Type 0} (w : Wire Byte) (laws : WireLaws w) where
  -- The swap that the hook builds is encoded as protobuf documents it, with the fields sender 1, routes
  -- 2, token in 3 and least amount out 4, and those of the routes and the coin, and the client's own
  -- `decode` reads it back: the sender, every route in its order, the token and the least amount out.
  -- There is a route, `longToNumber` lets the pool ids through and the bytes are below 4 GB.
  pub decode-encode_built :
      (sender : String) (token_in : Coin) (route : SwapAmountInRoute)
      (routes : List SwapAmountInRoute) (min_amount : String)
      → All Route.IsSafe (route ∷ routes)
      → length (Swap.encode w (asked_swap sender token_in (route ∷ routes) min_amount) []) < 2 ^ 32
      → (encode_built w (create_swap_message sender token_in (route ∷ routes) min_amount)
          ≡ some (print_swap w sender (route ∷ routes) token_in min_amount))
        × (Option.map
              (Swap.decode w)
              (encode_built w (create_swap_message sender token_in (route ∷ routes) min_amount))
            ≡ some (read (asked_swap sender token_in (route ∷ routes) min_amount)))
  unfolding encode_built create_swap_message swap_of coin_of
  decode-encode_built sender token_in route routes min_amount safe small =
      rw (map-route_of (route ∷ routes)) (
        ap some (encode_swap_lem w sender (route ∷ routes) token_in min_amount),
        ap some (
            Swap.decode-encode w laws (asked_swap sender token_in (route ∷ routes) min_amount) safe
              small),
      )

  -- The split swap that the hook builds is encoded as protobuf documents it, with the fields sender 1,
  -- routes 2, denom in 3 and least amount out 4, and those of the splits and their routes, and the
  -- client's own `decode` reads it back: the sender, every split with its routes in their order and its
  -- amount, the denom and the least amount out. There is a split, `longToNumber` lets the pool ids
  -- through and the bytes are below 4 GB.
  pub decode_split-encode_built :
      (sender denom : String) (split : SwapAmountInSplitRoute)
      (splits : List SwapAmountInSplitRoute) (min_amount : String)
      → All SplitRoute.IsSafe (split ∷ splits)
      → length (SplitSwap.encode w (asked_split_swap sender denom (split ∷ splits) min_amount) [])
        < 2 ^ 32
      → (encode_built w (create_split_route_swap_message sender denom (split ∷ splits) min_amount)
          ≡ some (print_split_swap w sender (split ∷ splits) denom min_amount))
        × (Option.map (SplitSwap.decode w) (
              encode_built w
                (create_split_route_swap_message sender denom (split ∷ splits) min_amount))
            ≡ some (read (asked_split_swap sender denom (split ∷ splits) min_amount)))
  unfolding encode_built create_split_route_swap_message split_swap_of
  decode_split-encode_built sender denom split splits min_amount safe small =
      rw (map-split_route_of (split ∷ splits)) (
        ap some (encode_split_swap_lem w sender (split ∷ splits) denom min_amount),
        ap some (
            SplitSwap.decode_split-encode w laws
              (asked_split_swap sender denom (split ∷ splits) min_amount) safe small),
      )
