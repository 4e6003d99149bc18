-- ===== src/Wire/Unknown.antt =====
-- Fields that a `decode` does not know, as a later version of the chain may write them.
use spectra_portal.Base.{
  ℕ, ◌/◌, ◌%◌, ◌==◌, ◌≤◌, ◌<◌, ◌^◌, ◌≡◌, arith, false, List, [], ◌++◌, length, none, some,
}
use spectra_portal.Wire.{Wire, WireLaws, Reader, read}
use spectra_portal.Wire.Reads.{Reads-append, Reads-skipped, decode_whole-Reads}
use spectra_portal.Wire.Swap as Swap

module _ {Byte : Type 0} (w : Wire Byte) (laws : WireLaws w) where
  unknown_field :
      (tag : ℕ) (m : Swap.MsgSwapExactAmountIn) (r : Reader Byte)
      → 5 ≤ tag / 8
      → Swap.fields w tag m r ≡ read none
  unfolding Swap.fields
  unknown_field tag m r h = ground arith

  -- A field of a number that the message does not have, which is no end of a group and whose value
  -- the reader can skip, changes nothing: the swap behind it is decoded as it was encoded.
  pub decode_unknown-encode :
      (tag : ℕ) (value : List Byte) (m : Swap.MsgSwapExactAmountIn)
      → 5 ≤ tag / 8
      → tag < 2 ^ 32
      → (tag % 8 == 4) ≡ false
      → ((rest : List Byte) → w.skip_value (tag % 8) (value ++ rest) ≡ some rest)
      → Swap.IsSafe m
      → length (Swap.encode w m []) < 2 ^ 32
      → Swap.decode w ((w.put_uint32 tag ++ value) ++ Swap.encode w m []) ≡ read m
  unfolding Swap.decode
  decode_unknown-encode tag value m new small plain skips safe fits =
      decode_whole-Reads w laws (Swap.fields w) (
        Reads-append w laws (Swap.fields w)
          (Reads-skipped w laws (Swap.fields w) tag value small (ground arith)
            (λ r. unknown_field tag Swap.base r new) skips)
          (Swap.Takes-encode w laws m safe fits))
