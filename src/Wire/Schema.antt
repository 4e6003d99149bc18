-- ===== src/Wire/Schema.antt =====
-- The swap messages of Osmosis in protobuf's encoding, from the numbers and types of their fields:
-- what the `encode` functions under client_app/src/lib/generated/osmosis are to write.
use mathlib.Core.List.{append_assoc, append-nil}
use spectra_portal.Base.{
  ℕ, ◌+◌, ◌*◌, ◌==◌, ◌≡◌, refl, sym, ap, ◌∙◌, String, List, [], ◌∷◌, ◌++◌, map, length, some,
  if◌then◌else◌, is_truthy, Bool-cases, inl, inr,
}
use spectra_portal.Messages.{Coin, SwapAmountInRoute, SwapAmountInSplitRoute}
use spectra_portal.Wire.{Wire, write_uint32, write_uint64, write_string, join_fork}
use spectra_portal.Wire.Writer.{write_text, write_number, write_message, write_messages}
use spectra_portal.Wire.Coin as Coin_codec
use spectra_portal.Wire.Route as Route
use spectra_portal.Wire.SplitRoute as SplitRoute
use spectra_portal.Wire.Swap as Swap
use spectra_portal.Wire.SplitSwap as SplitSwap

-- A field with its number: a text, a uint64, or a message by its bytes.
pub data Field (Byte : Type 0) : Type 0 where
  text : ℕ → String → Field Byte
  number : ℕ → ℕ → Field Byte
  message : ℕ → List Byte → Field Byte

module _ {Byte : Type 0} (w : Wire Byte) where
  -- The key of a field is its number times 8 and the type of what follows: 0 for an integer, 2 for
  -- what has a length. A text or an integer that is the default is left out.
  abbrev pub print_field : Field Byte → List Byte
  print_field (text n s) = if is_truthy s then w.put_uint32 (n * 8 + 2) ++ w.put_string s else []
  print_field (number n k) = if k == 0 then [] else w.put_uint32 (n * 8) ++ w.put_uint64 k
  print_field (message n bytes) = w.put_uint32 (n * 8 + 2) ++ (w.put_uint32 (length bytes) ++ bytes)

  abbrev pub print_fields : List (Field Byte) → List Byte
  print_fields [] = []
  print_fields (field ∷ fields) = print_field field ++ print_fields fields

  -- `cosmos.base.v1beta1.Coin`
  abbrev pub print_coin : Coin → List Byte
  print_coin coin = print_fields (text 1 coin.denom ∷ text 2 coin.amount ∷ [])

  -- `osmosis.poolmanager.v1beta1.SwapAmountInRoute`
  abbrev pub print_route : SwapAmountInRoute → List Byte
  print_route route = print_fields (number 1 route.pool_id ∷ text 2 route.token_out_denom ∷ [])

  -- `osmosis.poolmanager.v1beta1.SwapAmountInSplitRoute`
  abbrev pub print_split : SwapAmountInSplitRoute → List Byte
  print_split split = print_fields (
      map (λ route. message 1 (print_route route)) split.pools ++ text 2 split.token_in_amount ∷ [])

  -- `osmosis.poolmanager.v1beta1.MsgSwapExactAmountIn`
  abbrev pub print_swap : String → List SwapAmountInRoute → Coin → String → List Byte
  print_swap sender routes token_in min_amount = print_fields (
      text 1 sender
      ∷ (map (λ route. message 2 (print_route route)) routes
          ++ message 3 (print_coin token_in) ∷ text 4 min_amount ∷ []))

  -- `osmosis.poolmanager.v1beta1.MsgSplitRouteSwapExactAmountIn`
  abbrev pub print_split_swap : String → List SwapAmountInSplitRoute → String → String → List Byte
  print_split_swap sender splits denom min_amount = print_fields (
      text 1 sender
      ∷ (map (λ split. message 2 (print_split split)) splits
          ++ text 3 denom ∷ text 4 min_amount ∷ []))

  print_fields-append :
      (xs ys : List (Field Byte)) → print_fields (xs ++ ys) ≡ print_fields xs ++ print_fields ys
  print_fields-append [] ys = refl
  print_fields-append (x ∷ xs) ys =
      ap (λ r. print_field x ++ r) (print_fields-append xs ys)
      ∙ sym (append_assoc (print_field x) (print_fields xs) (print_fields ys))

  write_text_lem :
      (n : ℕ) (s : String) (writer : List Byte)
      → write_text w (n * 8 + 2) s writer ≡ writer ++ print_field (text n s)
  unfolding write_text write_string write_uint32
  write_text_lem n s writer = elim (Bool-cases (is_truthy s)) [
    | inl e ↦ rw (write_text, e) (append_assoc writer (w.put_uint32 (n * 8 + 2)) (w.put_string s))
    | inr e ↦ rw (write_text, e) (sym (append-nil writer))
  ]

  write_number_lem :
      (n k : ℕ) (writer : List Byte)
      → write_number w (n * 8) k writer ≡ writer ++ print_field (number n k)
  unfolding write_number write_uint64 write_uint32
  write_number_lem n k writer = elim (Bool-cases (k == 0)) [
    | inl e ↦ rw (write_number, e) (sym (append-nil writer))
    | inr e ↦ rw (write_number, e) (append_assoc writer (w.put_uint32 (n * 8)) (w.put_uint64 k))
  ]

  module _ {A : Type 0} (encode : A → List Byte → List Byte) (print : A → List Byte)
      (same : (a : A) → encode a [] ≡ print a) where
    write_message_lem :
        (n : ℕ) (a : A) (writer : List Byte)
        → write_message w encode (n * 8 + 2) a writer ≡ writer ++ print_field (message n (print a))
    unfolding write_message join_fork write_uint32
    write_message_lem n a writer = rw (same a) (
        append_assoc writer (w.put_uint32 (n * 8 + 2)) (w.put_uint32 (length (print a)) ++ print a))

    write_messages_lem :
        (n : ℕ) (vs : List A) (writer : List Byte)
        → write_messages w encode (n * 8 + 2) vs writer
          ≡ writer ++ print_fields (map (λ a. message n (print a)) vs)
    unfolding write_messages
    write_messages_lem n [] writer = sym (append-nil writer)
    write_messages_lem n (v ∷ vs) writer =
        write_messages_lem n vs (write_message w encode (n * 8 + 2) v writer)
        ∙ ap (λ x. x ++ print_fields (map (λ a. message n (print a)) vs))
            (write_message_lem n v writer)
        ∙ append_assoc writer (print_field (message n (print v)))
            (print_fields (map (λ a. message n (print a)) vs))

  encode_coin_lem : (coin : Coin) → Coin_codec.encode w coin [] ≡ print_coin coin
  unfolding Coin_codec.encode
  encode_coin_lem coin =
      write_text_lem 2 coin.amount (write_text w 10 coin.denom [])
      ∙ ap (λ x. x ++ print_field (text 2 coin.amount)) (write_text_lem 1 coin.denom [])
      ∙ ap (λ x. print_field (text 1 coin.denom) ++ x)
          (sym (append-nil (print_field (text 2 coin.amount))))

  encode_route_lem : (route : SwapAmountInRoute) → Route.encode w route [] ≡ print_route route
  unfolding Route.encode
  encode_route_lem route =
      write_text_lem 2 route.token_out_denom (write_number w 8 route.pool_id [])
      ∙ ap (λ x. x ++ print_field (text 2 route.token_out_denom))
          (write_number_lem 1 route.pool_id [])
      ∙ ap (λ x. print_field (number 1 route.pool_id) ++ x)
          (sym (append-nil (print_field (text 2 route.token_out_denom))))

  encode_split_lem :
      (split : SwapAmountInSplitRoute) → SplitRoute.encode w split [] ≡ print_split split
  unfolding SplitRoute.encode
  encode_split_lem split =
      let pools = map (λ route. message 1 (print_route route)) split.pools in
      let amount = print_field (text 2 split.token_in_amount) in
      write_text_lem 2 split.token_in_amount (write_messages w (Route.encode w) 10 split.pools [])
      ∙ ap (λ x. x ++ amount)
          (write_messages_lem (Route.encode w) print_route encode_route_lem 1 split.pools [])
      ∙ ap (λ x. print_fields pools ++ x) (sym (append-nil amount))
      ∙ sym (print_fields-append pools (text 2 split.token_in_amount ∷ []))

  -- Three fields of one kind each behind a text.
  behind : (a b c d : List Byte) → ((a ++ b) ++ c) ++ d ≡ a ++ (b ++ (c ++ (d ++ [])))
  behind a b c d =
      append_assoc (a ++ b) c d
      ∙ append_assoc a b (c ++ d)
      ∙ ap (λ x. a ++ (b ++ (c ++ x))) (sym (append-nil d))

  pub encode_swap_lem :
      (sender : String) (routes : List SwapAmountInRoute) (token_in : Coin) (min_amount : String)
      → Swap.encode w
          (record {
            sender = sender;
            routes = routes;
            token_in = some token_in;
            token_out_min_amount = min_amount;
          })
          []
        ≡ print_swap sender routes token_in min_amount
  unfolding Swap.encode Swap.write_coin
  encode_swap_lem sender routes token_in min_amount =
      let hops = map (λ route. message 2 (print_route route)) routes in
      let one = write_text w 10 sender [] in
      let two = write_messages w (Route.encode w) 18 routes one in
      let three = write_message w (Coin_codec.encode w) 26 token_in two in
      let coin = print_field (message 3 (print_coin token_in)) in
      let amount = print_field (text 4 min_amount) in
      write_text_lem 4 min_amount three
      ∙ ap (λ x. x ++ amount)
          (write_message_lem (Coin_codec.encode w) print_coin encode_coin_lem 3 token_in two
            ∙ ap (λ x. x ++ coin)
                (write_messages_lem (Route.encode w) print_route encode_route_lem 2 routes one
                  ∙ ap (λ x. x ++ print_fields hops) (write_text_lem 1 sender [])))
      ∙ behind (print_field (text 1 sender)) (print_fields hops) coin amount
      ∙ ap (λ x. print_field (text 1 sender) ++ x)
          (sym
            (print_fields-append hops (message 3 (print_coin token_in) ∷ text 4 min_amount ∷ [])))

  pub encode_split_swap_lem :
      (sender : String) (splits : List SwapAmountInSplitRoute) (denom min_amount : String)
      → SplitSwap.encode w
          (record {
            sender = sender;
            routes = splits;
            token_in_denom = denom;
            token_out_min_amount = min_amount;
          })
          []
        ≡ print_split_swap sender splits denom min_amount
  unfolding SplitSwap.encode
  encode_split_swap_lem sender splits denom min_amount =
      let parts = map (λ split. message 2 (print_split split)) splits in
      let one = write_text w 10 sender [] in
      let two = write_messages w (SplitRoute.encode w) 18 splits one in
      let three = write_text w 26 denom two in
      let token = print_field (text 3 denom) in
      let amount = print_field (text 4 min_amount) in
      write_text_lem 4 min_amount three
      ∙ ap (λ x. x ++ amount)
          (write_text_lem 3 denom two
            ∙ ap (λ x. x ++ token)
                (write_messages_lem (SplitRoute.encode w) print_split encode_split_lem 2 splits one
                  ∙ ap (λ x. x ++ print_fields parts) (write_text_lem 1 sender [])))
      ∙ behind (print_field (text 1 sender)) (print_fields parts) token amount
      ∙ ap (λ x. print_field (text 1 sender) ++ x)
          (sym (print_fields-append parts (text 3 denom ∷ text 4 min_amount ∷ [])))
