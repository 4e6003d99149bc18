-- ===== src/Wire/Coin.antt =====
-- client_app/src/lib/generated/osmosis/cosmos/base/v1beta1/coin.ts: `Coin`.
use spectra_portal.Base.{List, none, if◌then◌else◌, ◌==◌, ◌/◌, [], refl, arith}
use spectra_portal.Messages.{Coin}
use spectra_portal.Wire.{Wire, WireLaws, read, read_string}
use spectra_portal.Wire.Writer.{write_text}
use spectra_portal.Wire.Loop.{Fields, assign, on_tag}
use spectra_portal.Wire.Writes.{Takes, Takes-nil, Takes-write_text}

unfoldable pub base : Coin
base = record { denom = ""; amount = "" }

module _ {Byte : Type 0} (w : Wire Byte) where
  unfoldable pub encode : Coin → List Byte → List Byte
  unfolding write_text
  encode message writer = write_text w 18 message.amount (write_text w 10 message.denom writer)

  unfoldable pub fields : Fields w Coin
  unfolding read_string assign on_tag
  fields tag message r =
      if tag / 8 == 1
      then on_tag w 10 tag (assign w (λ s. record message { denom = s }) (read_string w r))
      else if tag / 8 == 2
      then on_tag w 18 tag (assign w (λ s. record message { amount = s }) (read_string w r))
      else read none

module _ {Byte : Type 0} (w : Wire Byte) (laws : WireLaws w) where
  pub Takes-encode : (m : Coin) → Takes w laws (fields w) base (encode w m []) m
  unfolding base encode fields on_tag
  Takes-encode m =
      Takes-write_text w laws (fields w) 18 (λ s. record { denom = m.denom; amount = s }) m.amount
        (omega arith) (λ r. refl)
        (Takes-write_text w laws (fields w) 10 (λ s. record { denom = s; amount = "" }) m.denom
          (omega arith) (λ r. refl) (Takes-nil w laws (fields w) base))
