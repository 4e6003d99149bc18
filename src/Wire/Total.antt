-- ===== src/Wire/Total.antt =====
-- The `decode` of each message that the wallet registers ends on all bytes.
use spectra_portal.Base.{◌/◌, ◌==◌, ◌≢◌, List}
use spectra_portal.Wire.{Wire, WireLaws, out_of_fuel}
use spectra_portal.Wire.Ends.{
  AlwaysLeaves, Leaves-long_to_number, Leaves-read_uint64, Leaves-read_string, Leaves-read_part,
  Leaves-case, Leaves-if, decode_whole_ends,
}
use spectra_portal.Wire.Coin as Coin_codec
use spectra_portal.Wire.Route as Route
use spectra_portal.Wire.SplitRoute as SplitRoute
use spectra_portal.Wire.Swap as Swap
use spectra_portal.Wire.SplitSwap as SplitSwap

module _ {Byte : Type 0} (w : Wire Byte) (laws : WireLaws w) where
  coin_leaves : AlwaysLeaves w (Coin_codec.fields w)
  unfolding Coin_codec.fields
  coin_leaves tag m r =
      Leaves-if w _ (tag / 8 == 1) _ _ (Leaves-case w _ 10 tag _ _ (Leaves-read_string w laws r)) (
        Leaves-if w _ (tag / 8 == 2) _ _ (Leaves-case w _ 18 tag _ _ (Leaves-read_string w laws r))
          tt)

  route_leaves : AlwaysLeaves w (Route.fields w)
  unfolding Route.fields
  route_leaves tag m r =
      Leaves-if w _ (tag / 8 == 1) _ _
        (Leaves-case w _ 8 tag _ _ (Leaves-long_to_number w _ _ (Leaves-read_uint64 w laws r)))
        (Leaves-if w _ (tag / 8 == 2) _ _ (Leaves-case w _ 18 tag _ _ (Leaves-read_string w laws r))
          tt)

  split_route_leaves : AlwaysLeaves w (SplitRoute.fields w)
  unfolding SplitRoute.fields
  split_route_leaves tag m r =
      Leaves-if w _ (tag / 8 == 1) _ _
        (Leaves-case w _ 10 tag _ _ (Leaves-read_part w laws _ route_leaves Route.base r))
        (Leaves-if w _ (tag / 8 == 2) _ _ (Leaves-case w _ 18 tag _ _ (Leaves-read_string w laws r))
          tt)

  swap_leaves : AlwaysLeaves w (Swap.fields w)
  unfolding Swap.fields
  swap_leaves tag m r =
      Leaves-if w _ (tag / 8 == 1) _ _ (Leaves-case w _ 10 tag _ _ (Leaves-read_string w laws r)) (
        Leaves-if w _ (tag / 8 == 2) _ _
          (Leaves-case w _ 18 tag _ _ (Leaves-read_part w laws _ route_leaves Route.base r))
          (Leaves-if w _ (tag / 8 == 3) _ _
            (Leaves-case w _ 26 tag _ _ (Leaves-read_part w laws _ coin_leaves Coin_codec.base r))
            (Leaves-if w _ (tag / 8 == 4) _ _
              (Leaves-case w _ 34 tag _ _ (Leaves-read_string w laws r)) tt)))

  split_swap_leaves : AlwaysLeaves w (SplitSwap.fields w)
  unfolding SplitSwap.fields
  split_swap_leaves tag m r =
      Leaves-if w _ (tag / 8 == 1) _ _ (Leaves-case w _ 10 tag _ _ (Leaves-read_string w laws r)) (
        Leaves-if w _ (tag / 8 == 2) _ _
          (Leaves-case w _ 18 tag _ _
            (Leaves-read_part w laws _ split_route_leaves SplitRoute.base r))
          (Leaves-if w _ (tag / 8 == 3) _ _
            (Leaves-case w _ 26 tag _ _ (Leaves-read_string w laws r))
            (Leaves-if w _ (tag / 8 == 4) _ _
              (Leaves-case w _ 34 tag _ _ (Leaves-read_string w laws r)) tt)))

  -- On any bytes at all, the loops of `decode` end, those of the nested messages included, for both
  -- messages: each answers a message or throws.
  pub decode_ends :
      (bytes : List Byte)
      → (Swap.decode w bytes ≢ out_of_fuel) × (SplitSwap.decode w bytes ≢ out_of_fuel)
  unfolding Swap.decode SplitSwap.decode
  decode_ends bytes = (
    decode_whole_ends w laws (Swap.fields w) swap_leaves Swap.base bytes,
    decode_whole_ends w laws (SplitSwap.fields w) split_swap_leaves SplitSwap.base bytes,
  )
