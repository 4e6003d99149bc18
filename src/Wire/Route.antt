-- ===== src/Wire/Route.antt =====
-- client_app/src/lib/generated/osmosis/osmosis/poolmanager/v1beta1/swap_route.ts: `SwapAmountInRoute`.
use spectra_portal.Base.{List, none, if◌then◌else◌, ◌==◌, ◌/◌, [], refl, arith, ◌≤◌}
use spectra_portal.Messages.{SwapAmountInRoute}
use spectra_portal.Wire.{
  Wire, WireLaws, read, read_string, read_uint64, long_to_number, max_safe_integer,
}
use spectra_portal.Wire.Writer.{write_text, write_number}
use spectra_portal.Wire.Loop.{Fields, assign, on_tag}
use spectra_portal.Wire.Writes.{Takes, Takes-nil, Takes-write_text, Takes-write_number}

unfoldable pub base : SwapAmountInRoute
base = record { pool_id = 0; token_out_denom = "" }

module _ {Byte : Type 0} (w : Wire Byte) where
  unfoldable pub encode : SwapAmountInRoute → List Byte → List Byte
  unfolding write_text write_number
  encode message writer =
      write_text w 18 message.token_out_denom (write_number w 8 message.pool_id writer)

  unfoldable pub fields : Fields w SwapAmountInRoute
  unfolding read_string read_uint64 long_to_number assign on_tag
  fields tag message r =
      if tag / 8 == 1
      then on_tag w 8 tag
          (assign w (λ n. record message { pool_id = n }) (long_to_number (read_uint64 w r)))
      else if tag / 8 == 2
      then on_tag w 18 tag
          (assign w (λ s. record message { token_out_denom = s }) (read_string w r))
      else read none

-- The numbers that `longToNumber` lets through.
abbrev pub IsSafe : SwapAmountInRoute → Type 0
IsSafe m = m.pool_id ≤ max_safe_integer

module _ {Byte : Type 0} (w : Wire Byte) (laws : WireLaws w) where
  pub Takes-encode :
      (m : SwapAmountInRoute) → IsSafe m → Takes w laws (fields w) base (encode w m []) m
  unfolding base encode fields on_tag
  Takes-encode m safe =
      Takes-write_text w laws (fields w) 18
        (λ s. record { pool_id = m.pool_id; token_out_denom = s }) m.token_out_denom (omega arith)
        (λ r. refl)
        (Takes-write_number w laws (fields w) 8 (λ n. record { pool_id = n; token_out_denom = "" })
          m.pool_id (omega arith) safe (λ r. refl) (Takes-nil w laws (fields w) base))
