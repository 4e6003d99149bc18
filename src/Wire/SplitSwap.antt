-- ===== src/Wire/SplitSwap.antt =====
-- client_app/src/lib/generated/osmosis/osmosis/poolmanager/v1beta1/tx.ts:
-- `MsgSplitRouteSwapExactAmountIn`.
use spectra_portal.Base.{
  String, List, ◌∷◌, ◌++◌, none, if◌then◌else◌, ◌==◌, ◌/◌, ◌^◌, ◌<◌, ◌≡◌, [], refl, arith, All,
  All-mono, length,
}
use spectra_portal.Messages.{SwapAmountInSplitRoute}
use spectra_portal.Wire.{Wire, WireLaws, Read, read, read_string, read_uint32}
use spectra_portal.Wire.Writer.{write_text, write_messages}
use spectra_portal.Wire.Loop.{Fields, decode_part, decode_whole, assign, on_tag}
use spectra_portal.Wire.SplitRoute as SplitRoute
use spectra_portal.Wire.Writes.{
  Takes, Takes-nil, Takes-write_text, Takes-write_messages, decode_whole-Takes,
}

pub record MsgSplitRouteSwapExactAmountIn : Type 0 where
  pub sender : String
  pub routes : List SwapAmountInSplitRoute
  pub token_in_denom : String
  pub token_out_min_amount : String

unfoldable pub base : MsgSplitRouteSwapExactAmountIn
base = record { sender = ""; routes = []; token_in_denom = ""; token_out_min_amount = "" }

module _ {Byte : Type 0} (w : Wire Byte) where
  unfoldable pub encode : MsgSplitRouteSwapExactAmountIn → List Byte → List Byte
  unfolding write_text write_messages
  encode message writer =
      let writer = write_text w 10 message.sender writer in
      let writer = write_messages w (SplitRoute.encode w) 18 message.routes writer in
      let writer = write_text w 26 message.token_in_denom writer in
      write_text w 34 message.token_out_min_amount writer

  unfoldable pub fields : Fields w MsgSplitRouteSwapExactAmountIn
  unfolding read_string read_uint32 decode_part assign on_tag
  fields tag message r =
      if tag / 8 == 1
      then on_tag w 10 tag (assign w (λ s. record message { sender = s }) (read_string w r))
      else if tag / 8 == 2
      then on_tag w 18 tag (
          assign w (λ route. record message { routes = message.routes ++ route ∷ [] })
            (decode_part w (SplitRoute.fields w) SplitRoute.base (read_uint32 w r)))
      else if tag / 8 == 3
      then on_tag w 26 tag (assign w (λ s. record message { token_in_denom = s }) (read_string w r))
      else if tag / 8 == 4
      then on_tag w 34 tag
          (assign w (λ s. record message { token_out_min_amount = s }) (read_string w r))
      else read none

  unfoldable pub decode : List Byte → Read MsgSplitRouteSwapExactAmountIn
  unfolding decode_whole
  decode bytes = decode_whole w fields base bytes

abbrev pub IsSafe : MsgSplitRouteSwapExactAmountIn → Type 0
IsSafe m = All SplitRoute.IsSafe m.routes

module _ {Byte : Type 0} (w : Wire Byte) (laws : WireLaws w) where
  Takes-encode :
      (m : MsgSplitRouteSwapExactAmountIn)
      → IsSafe m
      → Takes w laws (fields w) base (encode w m []) m
  unfolding base encode fields on_tag
  Takes-encode m safe =
      Takes-write_text w laws (fields w) 34
        (λ s. record {
          sender = m.sender;
          routes = m.routes;
          token_in_denom = m.token_in_denom;
          token_out_min_amount = s;
        })
        m.token_out_min_amount (omega arith) (λ r. refl)
        (Takes-write_text w laws (fields w) 26
          (λ s. record {
            sender = m.sender;
            routes = m.routes;
            token_in_denom = s;
            token_out_min_amount = "";
          })
          m.token_in_denom (omega arith) (λ r. refl)
          (Takes-write_messages w laws (fields w) (SplitRoute.fields w) SplitRoute.base
            (SplitRoute.encode w) 18
            (λ rs. record {
              sender = m.sender;
              routes = rs;
              token_in_denom = "";
              token_out_min_amount = "";
            })
            [] m.routes (omega arith) (λ ys r. refl)
            (All-mono (SplitRoute.Takes-encode w laws) m.routes safe)
            (Takes-write_text w laws (fields w) 10
              (λ s. record {
                sender = s;
                routes = [];
                token_in_denom = "";
                token_out_min_amount = "";
              })
              m.sender (omega arith) (λ r. refl) (Takes-nil w laws (fields w) base))))

  -- A split swap message whose pool ids `longToNumber` lets through and whose bytes are below 4 GB is
  -- decoded as it was encoded, every route of every split included.
  pub decode_split-encode :
      (m : MsgSplitRouteSwapExactAmountIn)
      → IsSafe m
      → length (encode w m []) < 2 ^ 32
      → decode w (encode w m []) ≡ read m
  unfolding decode
  decode_split-encode m safe small =
      decode_whole-Takes w laws (fields w) (Takes-encode m safe) small
