-- ===== src/Wire/SplitRoute.antt =====
-- client_app/src/lib/generated/osmosis/osmosis/poolmanager/v1beta1/swap_route.ts:
-- `SwapAmountInSplitRoute`.
use spectra_portal.Base.{
  List, ◌∷◌, ◌++◌, none, if◌then◌else◌, ◌==◌, ◌/◌, [], refl, arith, All, All-mono,
}
use spectra_portal.Messages.{SwapAmountInSplitRoute}
use spectra_portal.Wire.{Wire, WireLaws, read, read_string, read_uint32}
use spectra_portal.Wire.Writer.{write_text, write_messages}
use spectra_portal.Wire.Loop.{Fields, decode_part, assign, on_tag}
use spectra_portal.Wire.Route as Route
use spectra_portal.Wire.Writes.{Takes, Takes-nil, Takes-write_text, Takes-write_messages}

unfoldable pub base : SwapAmountInSplitRoute
base = record { pools = []; token_in_amount = "" }

module _ {Byte : Type 0} (w : Wire Byte) where
  unfoldable pub encode : SwapAmountInSplitRoute → List Byte → List Byte
  unfolding write_text write_messages
  encode message writer =
      write_text w 18 message.token_in_amount
        (write_messages w (Route.encode w) 10 message.pools writer)

  unfoldable pub fields : Fields w SwapAmountInSplitRoute
  unfolding read_string read_uint32 decode_part assign on_tag
  fields tag message r =
      if tag / 8 == 1
      then on_tag w 10 tag (
          assign w (λ route. record message { pools = message.pools ++ route ∷ [] })
            (decode_part w (Route.fields w) Route.base (read_uint32 w r)))
      else if tag / 8 == 2
      then on_tag w 18 tag
          (assign w (λ s. record message { token_in_amount = s }) (read_string w r))
      else read none

abbrev pub IsSafe : SwapAmountInSplitRoute → Type 0
IsSafe m = All Route.IsSafe m.pools

module _ {Byte : Type 0} (w : Wire Byte) (laws : WireLaws w) where
  pub Takes-encode :
      (m : SwapAmountInSplitRoute) → IsSafe m → Takes w laws (fields w) base (encode w m []) m
  unfolding base encode fields on_tag
  Takes-encode m safe =
      Takes-write_text w laws (fields w) 18 (λ s. record { pools = m.pools; token_in_amount = s })
        m.token_in_amount (omega arith) (λ r. refl)
        (Takes-write_messages w laws (fields w) (Route.fields w) Route.base (Route.encode w) 10
          (λ ps. record { pools = ps; token_in_amount = "" }) [] m.pools (omega arith)
          (λ ys r. refl) (All-mono (Route.Takes-encode w laws) m.pools safe)
          (Takes-nil w laws (fields w) base))
