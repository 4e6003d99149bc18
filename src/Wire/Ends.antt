-- ===== src/Wire/Ends.antt =====
-- Every `decode` ends, whatever the bytes: the loop of each message, and the loops it nests.
use spectra_portal.Base.{
  ℕ, zero, suc, ◌%◌, ◌≤◌, ◌<◌, ◌≡◌, ◌≢◌, refl, arith, Bool, true, false, ◌||◌, List, length, Option,
  none, some, Option-cases, Bool-cases, inl, inr, if◌then◌else◌, ltb, leb, ◌==◌,
}
use spectra_portal.Wire.{
  Wire, WireLaws, Reader, Read, read, thrown, out_of_fuel, map_read, pos, take_read, read_uint32,
  read_uint64, read_string, long_to_number, max_safe_integer,
}
use spectra_portal.Wire.Loop.{
  Fields, assign, on_tag, skip_field, after_switch, with_tag, round, after_round, decode_loop,
  decode_part, decode_whole,
}

module _ {Byte : Type 0} where
  -- A result that came about, with at most `n` bytes left.
  abbrev pub Leaves : {A : Type 0} → ℕ → Read (A × Reader Byte) → Type 0
  Leaves n (read (a, r)) = length r.rest ≤ n
  Leaves n thrown = Unit
  Leaves n out_of_fuel = ⊥

  abbrev pub LeavesField : {A : Type 0} → ℕ → Read (Option (A × Reader Byte)) → Type 0
  LeavesField n (read none) = Unit
  LeavesField n (read (some (a, r))) = length r.rest ≤ n
  LeavesField n thrown = Unit
  LeavesField n out_of_fuel = ⊥

  Leaves-le : {A : Type 0} {n k : ℕ} (x : Read (A × Reader Byte)) → n ≤ k → Leaves n x → Leaves k x
  Leaves-le (read (a, r)) le h = omega arith
  Leaves-le thrown le h = tt
  Leaves-le out_of_fuel le h = h

  abbrev pub LeavesLess : {A : Type 0} → ℕ → Read (A × Reader Byte) → Type 0
  LeavesLess n (read (a, r)) = length r.rest < n
  LeavesLess n thrown = Unit
  LeavesLess n out_of_fuel = ⊥

  Leaves-of_less : {A : Type 0} (n : ℕ) (x : Read (A × Reader Byte)) → LeavesLess n x → Leaves n x
  Leaves-of_less n (read (a, r)) h = omega arith
  Leaves-of_less n thrown h = tt
  Leaves-of_less n out_of_fuel h = h

  map_read_ends :
      {A B : Type 0} (n : ℕ) (f : A × Reader Byte → B) (x : Read (A × Reader Byte))
      → Leaves n x
      → map_read f x ≢ out_of_fuel
  map_read_ends n f (read state) h = λ e. cc
  map_read_ends n f thrown h = λ e. cc
  map_read_ends n f out_of_fuel h = absurd h

  module _ (w : Wire Byte) where
    abbrev pub AlwaysLeaves : {A : Type 0} → Fields w A → Type 0
    AlwaysLeaves {A} fields =
        (tag : ℕ) (m : A) (r : Reader Byte) → LeavesField (length r.rest) (fields tag m r)

    pub Leaves-long_to_number :
        (n : ℕ) (x : Read (ℕ × Reader Byte)) → Leaves n x → Leaves n (long_to_number x)
    unfolding long_to_number
    Leaves-long_to_number n thrown h = h
    Leaves-long_to_number n out_of_fuel h = h
    Leaves-long_to_number n (read (k, r)) h = elim (Bool-cases (leb k max_safe_integer)) [
      | inl e ↦ rw (long_to_number, e) h
      | inr e ↦ rw (long_to_number, e) tt
    ]

    pub Leaves-assign :
        {A B : Type 0} (n : ℕ) (set : B → A) (x : Read (B × Reader Byte))
        → Leaves n x
        → LeavesField n (assign w set x)
    unfolding assign
    Leaves-assign n set thrown h = h
    Leaves-assign n set out_of_fuel h = h
    Leaves-assign n set (read (b, r)) h = h

    pub Leaves-on_tag :
        {A : Type 0} (n want tag : ℕ) (x : Read (Option (A × Reader Byte)))
        → LeavesField n x
        → LeavesField n (on_tag w want tag x)
    unfolding on_tag
    Leaves-on_tag n want tag x h = elim (Bool-cases (tag == want)) [
      | inl e ↦ rw (on_tag, e) h
      | inr e ↦ rw (on_tag, e) tt
    ]

    -- A case of the `switch`.
    pub Leaves-case :
        {A B : Type 0} (n want tag : ℕ) (set : B → A) (x : Read (B × Reader Byte))
        → Leaves n x
        → LeavesField n (on_tag w want tag (assign w set x))
    Leaves-case n want tag set x h = Leaves-on_tag n want tag _ (Leaves-assign n set x h)

    pub Leaves-if :
        {A : Type 0} (n : ℕ) (b : Bool) (x y : Read (Option (A × Reader Byte)))
        → LeavesField n x
        → LeavesField n y
        → LeavesField n (if b then x else y)
    Leaves-if n true x y h k = h
    Leaves-if n false x y h k = k

  module _ (w : Wire Byte) (laws : WireLaws w) where
    Leaves-take_read :
        {A : Type 0} (n len : ℕ) (x : Option (A × List Byte))
        → ((a : A) (rest : List Byte) → x ≡ some (a, rest) → length rest < n)
        → LeavesLess n (take_read len x)
    unfolding take_read
    Leaves-take_read n len none taken = tt
    Leaves-take_read n len (some (a, rest)) taken = taken a rest refl

    pub Leaves-read_uint32 : (r : Reader Byte) → LeavesLess (length r.rest) (read_uint32 w r)
    unfolding read_uint32
    Leaves-read_uint32 r = Leaves-take_read _ r.len (w.get_uint32 r.rest) (laws.uint32_taken r.rest)

    pub Leaves-read_uint64 : (r : Reader Byte) → Leaves (length r.rest) (read_uint64 w r)
    unfolding read_uint64
    Leaves-read_uint64 r =
        Leaves-of_less _ _
          (Leaves-take_read _ r.len (w.get_uint64 r.rest) (laws.uint64_taken r.rest))

    pub Leaves-read_string : (r : Reader Byte) → Leaves (length r.rest) (read_string w r)
    unfolding read_string
    Leaves-read_string r =
        Leaves-of_less _ _
          (Leaves-take_read _ r.len (w.get_string r.rest) (laws.string_taken r.rest))

    module _ {A : Type 0} (fields : Fields w A) (always : AlwaysLeaves w fields) where
      -- After a round that goes on, a byte less is left.
      abbrev Advances : ℕ → Read (Bool × (A × Reader Byte)) → Type 0
      Advances n (read (true, (m, r))) = length r.rest < n
      Advances n (read (false, (m, r))) = length r.rest ≤ n
      Advances n thrown = Unit
      Advances n out_of_fuel = ⊥

      Advances-skip_field :
          (n tag : ℕ) (m : A) (r : Reader Byte)
          → length r.rest < n
          → Advances n (skip_field w tag m r)
      unfolding skip_field
      Advances-skip_field n tag m r h = elim (Bool-cases ((tag % 8 == 4) || (tag == 0))) [
        | inl e ↦ rw (skip_field, e) (omega arith)
        | inr e ↦ elim (Option-cases (w.skip_value (tag % 8) r.rest)) [
          | inl gone ↦ rw (skip_field, e, gone) tt
          | inr (rest, got) ↦ rw (skip_field, e, got) (omega (arith, laws.skip_taken _ _ _ got))
        ]
      ]

      Advances-after_switch :
          (n tag : ℕ) (m : A) (r : Reader Byte) (x : Read (Option (A × Reader Byte)))
          → length r.rest < n
          → LeavesField (length r.rest) x
          → Advances n (after_switch w tag m r x)
      unfolding after_switch
      Advances-after_switch n tag m r thrown h k = tt
      Advances-after_switch n tag m r out_of_fuel h k = k
      Advances-after_switch n tag m r (read none) h k = Advances-skip_field n tag m r h
      Advances-after_switch n tag m r (read (some (a, s))) h k = omega arith

      Advances-with_tag :
          (n : ℕ) (m : A) (x : Read (ℕ × Reader Byte))
          → LeavesLess n x
          → Advances n (with_tag w fields m x)
      unfolding with_tag
      Advances-with_tag n m thrown h = tt
      Advances-with_tag n m out_of_fuel h = h
      Advances-with_tag n m (read (tag, r)) h =
          Advances-after_switch n tag m r (fields tag m r) h (always tag m r)

      Advances-round :
          (end : ℕ) (m : A) (r : Reader Byte) → Advances (length r.rest) (round w fields end m r)
      unfolding round
      Advances-round end m r = elim (Bool-cases (ltb (pos r) end)) [
        | inl e ↦ rw (round, e) (Advances-with_tag _ m _ (Leaves-read_uint32 r))
        | inr e ↦ rw (round, e) (omega arith)
      ]

      Leaves-after_round :
          (n : ℕ) (again : A → Reader Byte → Read (A × Reader Byte))
          (x : Read (Bool × (A × Reader Byte)))
          → Advances n x
          → ((m : A) (r : Reader Byte) → length r.rest < n → Leaves (length r.rest) (again m r))
          → Leaves n (after_round w again x)
      unfolding after_round
      Leaves-after_round n again thrown h k = tt
      Leaves-after_round n again out_of_fuel h k = h
      Leaves-after_round n again (read (false, (m, r))) h k = h
      Leaves-after_round n again (read (true, (m, r))) h k = Leaves-le _ (omega arith) (k m r h)

      pub Leaves-decode_loop :
          (fuel end : ℕ) (m : A) (r : Reader Byte)
          → length r.rest < fuel
          → Leaves (length r.rest) (decode_loop w fields fuel end m r)
      unfolding decode_loop
      Leaves-decode_loop zero end m r h = absurd (omega arith)
      Leaves-decode_loop (suc f) end m r h =
          Leaves-after_round _ _ _ (Advances-round end m r)
            (λ m2 r2 less. Leaves-decode_loop f end m2 r2 (omega arith))

      pub Leaves-decode_part :
          (base : A) (n : ℕ) (x : Read (ℕ × Reader Byte))
          → Leaves n x
          → Leaves n (decode_part w fields base x)
      unfolding decode_part
      Leaves-decode_part base n thrown h = h
      Leaves-decode_part base n out_of_fuel h = h
      Leaves-decode_part base n (read (size, r)) h =
          Leaves-le _ h (Leaves-decode_loop (suc (length r.rest)) _ base r (omega arith))

      -- A size and the message of that size, read from `r`.
      pub Leaves-read_part :
          (base : A) (r : Reader Byte)
          → Leaves (length r.rest) (decode_part w fields base (read_uint32 w r))
      Leaves-read_part base r =
          Leaves-decode_part base _ _ (Leaves-of_less _ _ (Leaves-read_uint32 r))

      pub decode_whole_ends :
          (base : A) (bytes : List Byte) → decode_whole w fields base bytes ≢ out_of_fuel
      unfolding decode_whole
      decode_whole_ends base bytes =
          map_read_ends _ (λ state. state.0) _
            (Leaves-decode_loop (suc (length bytes)) _ base _ (omega arith))
