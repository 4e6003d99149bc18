-- ===== src/Wire/Partial.antt =====
-- The `fromPartial` of the messages the wallet registers: a field that is missing gets its default.
use spectra_portal.Base.{ℕ, String, List, [], ◌∷◌, map, Option, some, or_else, ◌≡◌, refl, ap}
use mathlib.Core.Option
use spectra_portal.Messages.{Coin, SwapAmountInRoute, SwapAmountInSplitRoute}
use spectra_portal.Wire.Swap.{MsgSwapExactAmountIn}
use spectra_portal.Wire.SplitSwap.{MsgSplitRouteSwapExactAmountIn}

pub record PartialCoin : Type 0 where
  pub denom : Option String
  pub amount : Option String

pub record PartialRoute : Type 0 where
  pub pool_id : Option ℕ
  pub token_out_denom : Option String

pub record PartialSplitRoute : Type 0 where
  pub pools : Option (List PartialRoute)
  pub token_in_amount : Option String

pub record PartialSwap : Type 0 where
  pub sender : Option String
  pub routes : Option (List PartialRoute)
  pub token_in : Option PartialCoin
  pub token_out_min_amount : Option String

pub record PartialSplitSwap : Type 0 where
  pub sender : Option String
  pub routes : Option (List PartialSplitRoute)
  pub token_in_denom : Option String
  pub token_out_min_amount : Option String

unfoldable pub coin_of : PartialCoin → Coin
coin_of object = record { denom = or_else object.denom ""; amount = or_else object.amount "" }

unfoldable pub route_of : PartialRoute → SwapAmountInRoute
route_of object = record {
  pool_id = or_else object.pool_id 0;
  token_out_denom = or_else object.token_out_denom "";
}

-- `object.pools?.map((e) => SwapAmountInRoute.fromPartial(e)) || []`
unfoldable pub split_route_of : PartialSplitRoute → SwapAmountInSplitRoute
unfolding route_of
split_route_of object = record {
  pools = or_else (Option.map (map route_of) object.pools) [];
  token_in_amount = or_else object.token_in_amount "";
}

unfoldable pub swap_of : PartialSwap → MsgSwapExactAmountIn
unfolding route_of coin_of
swap_of object = record {
  sender = or_else object.sender "";
  routes = or_else (Option.map (map route_of) object.routes) [];
  token_in = Option.map coin_of object.token_in;
  token_out_min_amount = or_else object.token_out_min_amount "";
}

unfoldable pub split_swap_of : PartialSplitSwap → MsgSplitRouteSwapExactAmountIn
unfolding split_route_of
split_swap_of object = record {
  sender = or_else object.sender "";
  routes = or_else (Option.map (map split_route_of) object.routes) [];
  token_in_denom = or_else object.token_in_denom "";
  token_out_min_amount = or_else object.token_out_min_amount "";
}

-- Objects with every field, as `DeepPartial` takes them.
abbrev pub whole_coin : Coin → PartialCoin
whole_coin c = record { denom = some c.denom; amount = some c.amount }

abbrev pub whole_route : SwapAmountInRoute → PartialRoute
whole_route r = record { pool_id = some r.pool_id; token_out_denom = some r.token_out_denom }

abbrev pub whole_split_route : SwapAmountInSplitRoute → PartialSplitRoute
whole_split_route r = record {
  pools = some (map whole_route r.pools);
  token_in_amount = some r.token_in_amount;
}

map_back {ℓ κ} :
    {A : Type ℓ} {B : Type κ} (f : A → B) (g : B → A)
    → ((b : B) → f (g b) ≡ b)
    → (bs : List B) → map f (map g bs) ≡ bs
map_back f g h [] = refl
map_back f g h (b ∷ bs) = rw (h b, map_back f g h bs)

pub map-route_of : (rs : List SwapAmountInRoute) → map route_of (map whole_route rs) ≡ rs
unfolding route_of
map-route_of rs = map_back route_of whole_route (λ r. refl) rs

pub map-split_route_of :
    (rs : List SwapAmountInSplitRoute) → map split_route_of (map whole_split_route rs) ≡ rs
unfolding split_route_of
map-split_route_of rs =
    map_back split_route_of whole_split_route
      (λ r.
        ap (λ ps. record { pools = ps; token_in_amount = r.token_in_amount })
          (map-route_of r.pools))
      rs
