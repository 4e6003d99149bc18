-- ===== src/Wire/Reads.antt =====
-- How the loop of a `decode` takes the bytes of a field, whichever message it reads.
use spectra_portal.Base.{
  ℕ, zero, suc, ◌+◌, ◌-◌, ◌^◌, ◌≤◌, ◌<◌, ◌≡◌, refl, ap, ◌∙◌, arith, true, false, List, [], ◌++◌,
  length, length-append, none, some, ◌==◌, ◌||◌, ◌%◌, ltb,
}
use mathlib.Core.List.{append-nil, append_assoc}
use spectra_portal.Wire.{Wire, WireLaws, Reader, read, map_read, pos, read_uint32, take_read}
use spectra_portal.Wire.Loop.{
  Fields, decode_loop, decode_part, decode_whole, round, with_tag, after_switch, skip_field,
}

ltb_of_lt : (a b : ℕ) → a < b → ltb a b ≡ true
ltb_of_lt a b h = ground arith

ltb_of_le : (a b : ℕ) → b ≤ a → ltb a b ≡ false
ltb_of_le a b h = ground arith

module _ {Byte : Type 0} (w : Wire Byte) (laws : WireLaws w) where
  module _ {A : Type 0} (fields : Fields w A) where
    -- The loop takes `bytes`, in front of whatever bytes, from the message `m` to `m2`, in a round for
    -- each byte at most.
    pub record Reads (m : A) (bytes : List Byte) (m2 : A) : Type 0 where
      pub takes :
          (len : ℕ) (rest : List Byte) (end fuel left : ℕ)
          → length bytes + length rest ≤ len
          → len - length rest ≤ end
          → length bytes + left ≤ fuel
          → (fuel2 : ℕ) × left ≤ fuel2
            × decode_loop w fields fuel end m (record { len = len; rest = bytes ++ rest })
              ≡ decode_loop w fields fuel2 end m2 (record { len = len; rest = rest })

    pub Reads-nil : (m : A) → Reads m [] m
    Reads-nil m = record {
      takes = λ len rest end fuel left fits ends enough. (fuel, omega arith, refl);
    }

    pub Reads-append :
        {m m2 m3 : A} {xs ys : List Byte} → Reads m xs m2 → Reads m2 ys m3 → Reads m (xs ++ ys) m3
    Reads-append {m} {m2} {m3} {xs} {ys} h k = record {
      takes = λ len rest end fuel left fits ends enough.
          let sizes = length-append xs ys in
          let behind = length-append ys rest in
          let (f, le, e) =
            h.takes len (ys ++ rest) end fuel (length ys + left) (omega arith) (omega arith)
              (omega arith) in
          let (g, le2, e2) = k.takes len rest end f left (omega arith) ends (omega arith) in
          (
            g,
            le2,
            ap (λ bs. decode_loop w fields fuel end m (record { len = len; rest = bs }))
                  (append_assoc xs ys rest)
                ∙ e
                ∙ e2,
          );
    }

    tag_taken :
        (tag : ℕ) (rest : List Byte)
        → tag < 2 ^ 32
        → length rest < length (w.put_uint32 tag ++ rest)
    tag_taken tag rest fits = laws.uint32_taken _ tag rest (laws.uint32_read tag rest fits)

    tag_nonempty : (tag : ℕ) → tag < 2 ^ 32 → 0 < length (w.put_uint32 tag)
    tag_nonempty tag fits = rw append-nil at (tag_taken tag [] fits)

    -- The round on the tag of a field that a case of the `switch` reads.
    round_step :
        (tag : ℕ) (len end : ℕ) (m m2 : A) (behind rest : List Byte)
        → tag < 2 ^ 32
        → length (w.put_uint32 tag ++ behind) ≤ len
        → len - length behind ≤ end
        → fields tag m (record { len = len; rest = behind })
          ≡ read (some (m2, record { len = len; rest = rest }))
        → round w fields end m (record { len = len; rest = w.put_uint32 tag ++ behind })
          ≡ read (true, (m2, record { len = len; rest = rest }))
    unfolding round pos read_uint32 take_read after_switch with_tag
    round_step tag len end m m2 behind rest small fits ends e =
        let taken = tag_taken tag behind small in
        rw (
          ltb_of_lt (len - length (w.put_uint32 tag ++ behind)) end (omega arith),
          laws.uint32_read tag behind small,
          e,
        )

    -- The round on a field that no case reads: its value is skipped.
    skip_step :
        (tag : ℕ) (len end : ℕ) (m : A) (behind rest : List Byte)
        → tag < 2 ^ 32
        → length (w.put_uint32 tag ++ behind) ≤ len
        → len - length behind ≤ end
        → ((tag % 8 == 4) || (tag == 0)) ≡ false
        → fields tag m (record { len = len; rest = behind }) ≡ read none
        → w.skip_value (tag % 8) behind ≡ some rest
        → round w fields end m (record { len = len; rest = w.put_uint32 tag ++ behind })
          ≡ read (true, (m, record { len = len; rest = rest }))
    unfolding round pos read_uint32 take_read after_switch with_tag skip_field
    skip_step tag len end m behind rest small fits ends plain e skips =
        let taken = tag_taken tag behind small in
        rw (
          ltb_of_lt (len - length (w.put_uint32 tag ++ behind)) end (omega arith),
          laws.uint32_read tag behind small,
          e,
          plain,
          skips,
        )

    one_round :
        (len : ℕ) (rest : List Byte) (end fuel left : ℕ) (m m2 : A) (r : Reader Byte)
        → round w fields end m r ≡ read (true, (m2, record { len = len; rest = rest }))
        → left < fuel
        → (fuel2 : ℕ) × left ≤ fuel2
          × decode_loop w fields fuel end m r
            ≡ decode_loop w fields fuel2 end m2 (record { len = len; rest = rest })
    unfolding decode_loop
    one_round len rest end zero left m m2 r e enough = absurd (omega arith)
    one_round len rest end (suc f) left m m2 r e enough = (f, omega arith, rw (decode_loop, e))

    -- What a round does with the tag and the value, as a step of the loop.
    Reads-round :
        (tag : ℕ) {m m2 : A} (body : List Byte)
        → tag < 2 ^ 32
        → ((len end : ℕ) (rest : List Byte)
            → length (w.put_uint32 tag ++ (body ++ rest)) ≤ len
            → len - length (body ++ rest) ≤ end
            → round w fields end m (record { len = len; rest = w.put_uint32 tag ++ (body ++ rest) })
              ≡ read (true, (m2, record { len = len; rest = rest })))
        → Reads m (w.put_uint32 tag ++ body) m2
    Reads-round tag {m} {m2} body small rounds = record {
      takes = λ len rest end fuel left fits ends enough.
          let sizes = length-append (w.put_uint32 tag) body in
          let behind = length-append body rest in
          let whole = length-append (w.put_uint32 tag) (body ++ rest) in
          let taken = tag_nonempty tag small in
          let stepped = rounds len end rest (omega arith) (omega arith) in
          let (f, le, looped) = one_round len rest end fuel left m m2 _ stepped (omega arith) in
          (
            f,
            le,
            ap (λ bs. decode_loop w fields fuel end m (record { len = len; rest = bs }))
                  (append_assoc (w.put_uint32 tag) body rest)
                ∙ looped,
          );
    }

    pub Reads-field :
        (tag : ℕ) {m m2 : A} (body : List Byte)
        → tag < 2 ^ 32
        → ((len : ℕ) (rest : List Byte)
            → length rest + length body ≤ len
            → fields tag m (record { len = len; rest = body ++ rest })
              ≡ read (some (m2, record { len = len; rest = rest })))
        → Reads m (w.put_uint32 tag ++ body) m2
    Reads-field tag {m} {m2} body small e = Reads-round tag body small (λ len end rest fits ends.
        let whole = length-append (w.put_uint32 tag) (body ++ rest) in
        let behind = length-append body rest in
        round_step tag len end m m2 (body ++ rest) rest small fits ends (e len rest (omega arith)))

    pub Reads-skipped :
        (tag : ℕ) {m : A} (body : List Byte)
        → tag < 2 ^ 32
        → ((tag % 8 == 4) || (tag == 0)) ≡ false
        → ((r : Reader Byte) → fields tag m r ≡ read none)
        → ((rest : List Byte) → w.skip_value (tag % 8) (body ++ rest) ≡ some rest)
        → Reads m (w.put_uint32 tag ++ body) m
    Reads-skipped tag {m} body small plain unknown skips =
        Reads-round tag body small (λ len end rest fits ends.
          skip_step tag len end m (body ++ rest) rest small fits ends plain (unknown _)
            (skips rest))

    -- A loop that is behind its bytes ends.
    pub decode_loop_ends :
        (fuel end : ℕ) (m : A) (r : Reader Byte)
        → end ≤ pos r
        → 0 < fuel
        → decode_loop w fields fuel end m r ≡ read (m, r)
    unfolding pos round decode_loop
    decode_loop_ends zero end m r h enough = absurd (omega arith)
    decode_loop_ends (suc f) end m r h enough = rw (decode_loop, round, ltb_of_le _ end h)

    pub decode_part-Reads :
        {base m : A} {bytes : List Byte}
        → Reads base bytes m
        → length bytes < 2 ^ 32
        → (len : ℕ) (rest : List Byte)
        → length (w.put_uint32 (length bytes) ++ bytes) + length rest ≤ len
        → decode_part w fields base (
            read_uint32 w
              (record { len = len; rest = (w.put_uint32 (length bytes) ++ bytes) ++ rest }))
          ≡ read (m, record { len = len; rest = rest })
    unfolding decode_part read_uint32 take_read pos
    decode_part-Reads {base} {m} {bytes} h small len rest fits =
        let sizes = length-append (w.put_uint32 (length bytes)) bytes in
        let behind = length-append bytes rest in
        let end : ℕ = len - length (bytes ++ rest) + length bytes in
        let (f, le, e) =
          h.takes len rest end (suc (length (bytes ++ rest))) 1 (omega arith) (omega arith)
            (omega arith) in
        rw
          (
            append_assoc (w.put_uint32 (length bytes)) bytes rest,
            laws.uint32_read (length bytes) (bytes ++ rest) small,
            e,
          )
          (decode_loop_ends f end m _ (omega arith) (omega arith))

    pub decode_whole-Reads :
        {base m : A} {bytes : List Byte}
        → Reads base bytes m
        → decode_whole w fields base bytes ≡ read m
    unfolding decode_whole pos
    decode_whole-Reads {base} {m} {bytes} h =
        let (f, le, e) =
          h.takes (length bytes) [] (length bytes) (suc (length bytes)) 1 (omega arith)
            (omega arith) (omega arith) in
        let ends =
          decode_loop_ends f (length bytes) m (record { len = length bytes; rest = [] })
            (omega arith) (omega arith) in
        ap (map_read (λ state. state.0)) (rw (append-nil bytes, ends) at e)
