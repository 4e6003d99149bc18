-- ===== src/Wire/Swap.antt =====
-- client_app/src/lib/generated/osmosis/osmosis/poolmanager/v1beta1/tx.ts: `MsgSwapExactAmountIn`.
use spectra_portal.Base.{
  ℕ, String, List, ◌∷◌, ◌++◌, Option, none, some, if◌then◌else◌, ◌==◌, ◌/◌, ◌^◌, ◌<◌, ◌≡◌, [], refl,
  arith, All, All-mono, length,
}
use spectra_portal.Messages.{Coin, SwapAmountInRoute}
use spectra_portal.Wire.{Wire, WireLaws, Read, read, read_string, read_uint32}
use spectra_portal.Wire.Writer.{write_text, write_message, write_messages}
use spectra_portal.Wire.Loop.{Fields, decode_part, decode_whole, assign, on_tag}
use spectra_portal.Wire.Coin as Coin_codec
use spectra_portal.Wire.Route as Route
use spectra_portal.Wire.Writes.{
  Takes, Takes-nil, Takes-write_text, Takes-write_message, Takes-write_messages, decode_whole-Takes,
}

pub record MsgSwapExactAmountIn : Type 0 where
  pub sender : String
  pub routes : List SwapAmountInRoute
  pub token_in : Option Coin
  pub token_out_min_amount : String

unfoldable pub base : MsgSwapExactAmountIn
base = record { sender = ""; routes = []; token_in = none; token_out_min_amount = "" }

module _ {Byte : Type 0} (w : Wire Byte) where
  -- `if (message.tokenIn !== undefined) { … }`
  unfoldable pub write_coin : ℕ → Option Coin → List Byte → List Byte
  unfolding write_message
  write_coin tag none writer = writer
  write_coin tag (some coin) writer = write_message w (Coin_codec.encode w) tag coin writer

  unfoldable pub encode : MsgSwapExactAmountIn → List Byte → List Byte
  unfolding write_text write_messages write_coin
  encode message writer =
      let writer = write_text w 10 message.sender writer in
      let writer = write_messages w (Route.encode w) 18 message.routes writer in
      let writer = write_coin 26 message.token_in writer in
      write_text w 34 message.token_out_min_amount writer

  unfoldable pub fields : Fields w MsgSwapExactAmountIn
  unfolding read_string read_uint32 decode_part assign on_tag
  fields tag message r =
      if tag / 8 == 1
      then on_tag w 10 tag (assign w (λ s. record message { sender = s }) (read_string w r))
      else if tag / 8 == 2
      then on_tag w 18 tag (
          assign w (λ route. record message { routes = message.routes ++ route ∷ [] })
            (decode_part w (Route.fields w) Route.base (read_uint32 w r)))
      else if tag / 8 == 3
      then on_tag w 26 tag (
          assign w (λ coin. record message { token_in = some coin })
            (decode_part w (Coin_codec.fields w) Coin_codec.base (read_uint32 w r)))
      else if tag / 8 == 4
      then on_tag w 34 tag
          (assign w (λ s. record message { token_out_min_amount = s }) (read_string w r))
      else read none

  unfoldable pub decode : List Byte → Read MsgSwapExactAmountIn
  unfolding decode_whole
  decode bytes = decode_whole w fields base bytes

abbrev pub IsSafe : MsgSwapExactAmountIn → Type 0
IsSafe m = All Route.IsSafe m.routes

module _ {Byte : Type 0} (w : Wire Byte) (laws : WireLaws w) where
  Takes-write_coin :
      (m : MsgSwapExactAmountIn) (token : Option Coin) (writer : List Byte)
      → Takes w laws (fields w) base writer (record m { token_in = none })
      → Takes w laws (fields w) base (write_coin w 26 token writer) (record m { token_in = token })
  unfolding fields on_tag write_coin
  Takes-write_coin m none writer h = h
  Takes-write_coin m (some coin) writer h =
      Takes-write_message w laws (fields w) (Coin_codec.fields w) Coin_codec.base
        (Coin_codec.encode w) 26 (λ c. record m { token_in = some c })
        (record m { token_in = none }) coin (omega arith) (λ r. refl)
        (Coin_codec.Takes-encode w laws coin) h

  pub Takes-encode :
      (m : MsgSwapExactAmountIn) → IsSafe m → Takes w laws (fields w) base (encode w m []) m
  unfolding base encode fields on_tag
  Takes-encode m safe =
      Takes-write_text w laws (fields w) 34
        (λ s. record {
          sender = m.sender;
          routes = m.routes;
          token_in = m.token_in;
          token_out_min_amount = s;
        })
        m.token_out_min_amount (omega arith) (λ r. refl)
        (Takes-write_coin
          (record {
            sender = m.sender;
            routes = m.routes;
            token_in = none;
            token_out_min_amount = "";
          })
          m.token_in _
          (Takes-write_messages w laws (fields w) (Route.fields w) Route.base (Route.encode w) 18
            (λ rs. record {
              sender = m.sender;
              routes = rs;
              token_in = none;
              token_out_min_amount = "";
            })
            [] m.routes (omega arith) (λ ys r. refl)
            (All-mono (Route.Takes-encode w laws) m.routes safe)
            (Takes-write_text w laws (fields w) 10
              (λ s. record { sender = s; routes = []; token_in = none; token_out_min_amount = "" })
              m.sender (omega arith) (λ r. refl) (Takes-nil w laws (fields w) base))))

  -- A swap message whose pool ids `longToNumber` lets through and whose bytes are below 4 GB is
  -- decoded as it was encoded.
  pub decode-encode :
      (m : MsgSwapExactAmountIn)
      → IsSafe m
      → length (encode w m []) < 2 ^ 32
      → decode w (encode w m []) ≡ read m
  unfolding decode
  decode-encode m safe small = decode_whole-Takes w laws (fields w) (Takes-encode m safe) small
