-- ===== src/Wire/Loop.antt =====
-- The loop that every `decode` of client_app/src/lib/generated/osmosis is.
use spectra_portal.Base.{
  ℕ, zero, suc, ◌+◌, ◌%◌, Bool, true, false, ◌||◌, List, length, Option, none, some, if◌then◌else◌,
  ltb, ◌==◌,
}
use spectra_portal.Wire.{Wire, Reader, Read, read, thrown, out_of_fuel, map_read, pos, read_uint32}

module _ {Byte : Type 0} (w : Wire Byte) where
  -- What the `switch` of a `decode` does with a tag: `none` where no case ends in `continue`.
  abbrev pub Fields : Type 0 → Type 0
  Fields A = ℕ → A → Reader Byte → Read (Option (A × Reader Byte))

  -- `set` with the value read, and `continue`.
  unfoldable pub assign :
      {A B : Type 0} → (B → A) → Read (B × Reader Byte) → Read (Option (A × Reader Byte))
  assign set thrown = thrown
  assign set out_of_fuel = out_of_fuel
  assign set (read (b, r)) = read (some (set b, r))

  -- `if (tag !== want) { break; }` at the head of a case.
  unfoldable pub on_tag : {A : Type 0} → ℕ → ℕ → Read (Option A) → Read (Option A)
  on_tag want tag handled = if tag == want then handled else read none

  -- `reader.skip(tag & 7)`, unless a group ends or the tag is 0, where the loop is left.
  unfoldable pub skip_field : {A : Type 0} → ℕ → A → Reader Byte → Read (Bool × (A × Reader Byte))
  skip_field tag m r =
      if (tag % 8 == 4) || (tag == 0)
      then read (false, (m, r))
      else elim (w.skip_value (tag % 8) r.rest) [
        | none ↦ thrown
        | some rest ↦ read (true, (m, record { len = r.len; rest = rest }))
      ]

  unfoldable pub after_switch :
      {A : Type 0}
      → ℕ
      → A
      → Reader Byte
      → Read (Option (A × Reader Byte))
      → Read (Bool × (A × Reader Byte))
  unfolding skip_field
  after_switch tag m r thrown = thrown
  after_switch tag m r out_of_fuel = out_of_fuel
  after_switch tag m r (read none) = skip_field tag m r
  after_switch tag m r (read (some next)) = read (true, next)

  unfoldable pub with_tag :
      {A : Type 0} → Fields A → A → Read (ℕ × Reader Byte) → Read (Bool × (A × Reader Byte))
  unfolding after_switch
  with_tag fields m thrown = thrown
  with_tag fields m out_of_fuel = out_of_fuel
  with_tag fields m (read (tag, r)) = after_switch tag m r (fields tag m r)

  -- A round of the loop: whether the loop goes on.
  unfoldable pub round :
      {A : Type 0} → Fields A → ℕ → A → Reader Byte → Read (Bool × (A × Reader Byte))
  unfolding with_tag pos read_uint32
  round fields end m r =
      if ltb (pos r) end then with_tag fields m (read_uint32 w r) else read (false, (m, r))

  -- The rest of the loop, once a round is done.
  unfoldable pub after_round :
      {A : Type 0}
      → (A → Reader Byte → Read (A × Reader Byte))
      → Read (Bool × (A × Reader Byte))
      → Read (A × Reader Byte)
  after_round again thrown = thrown
  after_round again out_of_fuel = out_of_fuel
  after_round again (read (false, state)) = read state
  after_round again (read (true, (m, r))) = again m r

  -- `while (reader.pos < end) { … } return message;`
  unfoldable pub decode_loop :
      {A : Type 0} → Fields A → ℕ → ℕ → A → Reader Byte → Read (A × Reader Byte)
  unfolding after_round round
  decode_loop fields zero end m r = out_of_fuel
  decode_loop fields (suc fuel) end m r =
      after_round (decode_loop fields fuel end) (round fields end m r)

  -- `decode(reader, length)`: a round takes a byte at least, which bounds the rounds.
  unfoldable pub decode_part :
      {A : Type 0} → Fields A → A → Read (ℕ × Reader Byte) → Read (A × Reader Byte)
  unfolding decode_loop pos
  decode_part fields base thrown = thrown
  decode_part fields base out_of_fuel = out_of_fuel
  decode_part fields base (read (size, r)) =
      decode_loop fields (suc (length r.rest)) (pos r + size) base r

  -- `decode(bytes)`
  unfoldable pub decode_whole : {A : Type 0} → Fields A → A → List Byte → Read A
  unfolding decode_loop
  decode_whole fields base bytes =
      map_read (λ state. state.0)
        (decode_loop fields (suc (length bytes)) (length bytes) base
          (record { len = length bytes; rest = bytes }))
