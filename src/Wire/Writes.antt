-- ===== src/Wire/Writes.antt =====
-- The writes of an `encode`, each with the reads that take it back.
use spectra_portal.Base.{
  ℕ, ◌+◌, ◌^◌, ◌≤◌, ◌<◌, ◌≡◌, ap, ◌∙◌, arith, String, true, List, [], ◌∷◌, ◌++◌, length,
  length-append, append_shift, some, is_truthy, All, leb, ◌==◌, Bool-cases, inl, inr,
}
use mathlib.Core.List.{append-nil, append_assoc}
use text.Mathlib.TextEquality.{eq_iff}
use spectra_portal.Wire.{
  Wire, WireLaws, Reader, read, read_uint32, read_uint64, read_string, take_read, write_string,
  write_uint32, join_fork, write_uint64, long_to_number, max_safe_integer,
}
use spectra_portal.Wire.Writer.{write_text, write_message, write_messages, write_number}
use spectra_portal.Wire.Loop.{Fields, decode_part, decode_whole, assign}
use spectra_portal.Wire.Reads.{
  Reads, Reads-nil, Reads-append, Reads-field, decode_part-Reads, decode_whole-Reads,
}

leb_of_le : (a b : ℕ) → a ≤ b → leb a b ≡ true
leb_of_le a b h = ground arith

module _ {Byte : Type 0} (w : Wire Byte) (laws : WireLaws w) where
  -- `bytes` are below 4 GB only if a `decode` takes them all, from `m` to `m2`.
  abbrev pub Takes : {A : Type 0} → Fields w A → A → List Byte → A → Type 0
  Takes fields m bytes m2 = length bytes < 2 ^ 32 → Reads w laws fields m bytes m2

  pub Takes-nil : {A : Type 0} (fields : Fields w A) (m : A) → Takes fields m [] m
  Takes-nil fields m small = Reads-nil w laws fields m

  module _ {A : Type 0} (fields : Fields w A) {base : A} where
    -- A value of any kind put behind its tag.
    Takes-value :
        {B : Type 0} (tag : ℕ) (set : B → A) (blank : A) (v : B) (body : List Byte)
        {writer : List Byte}
        → tag < 2 ^ 32
        → ((len : ℕ) (rest : List Byte)
            → length body < 2 ^ 32
            → length rest + length body ≤ len
            → fields tag blank (record { len = len; rest = body ++ rest })
              ≡ read (some (set v, record { len = len; rest = rest })))
        → Takes fields base writer blank
        → Takes fields base (writer ++ (w.put_uint32 tag ++ body)) (set v)
    Takes-value tag set blank v body {writer} small reads before total =
        let sizes = length-append writer (w.put_uint32 tag ++ body) in
        let behind = length-append (w.put_uint32 tag) body in
        Reads-append w laws fields (before (omega arith))
          (Reads-field w laws fields tag body small (λ len rest. reads len rest (omega arith)))

    pub Takes-write_text :
        (tag : ℕ) (set : String → A) (s : String) {writer : List Byte}
        → tag < 2 ^ 32
        → ((r : Reader Byte) → fields tag (set "") r ≡ assign w set (read_string w r))
        → Takes fields base writer (set "")
        → Takes fields base (write_text w tag s writer) (set s)
    unfolding write_text write_string write_uint32 assign read_string take_read
    Takes-write_text tag set s {writer} small reads before = elim (Bool-cases (is_truthy s)) [
      | inl full ↦
          rw (full, append_assoc writer)
            (Takes-value tag set (set "") s (w.put_string s) small
              (λ len rest fits enough. reads _ ∙ rw (laws.string_read s rest fits)) before)
      | inr empty ↦ let blank : s ≡ "" = ground (arith, eq_iff s "") in rw (empty, blank) before
    ]

    pub Takes-write_number :
        (tag : ℕ) (set : ℕ → A) (n : ℕ) {writer : List Byte}
        → tag < 2 ^ 32
        → n ≤ max_safe_integer
        → ((r : Reader Byte)
            → fields tag (set 0) r ≡ assign w set (long_to_number (read_uint64 w r)))
        → Takes fields base writer (set 0)
        → Takes fields base (write_number w tag n writer) (set n)
    unfolding write_number write_uint64 write_uint32 assign read_uint64 take_read long_to_number
    Takes-write_number tag set n {writer} small safe reads before = elim (Bool-cases (n == 0)) [
      | inl empty ↦ let blank : n ≡ 0 = ground arith in rw (empty, blank) before
      | inr full ↦
          rw (full, append_assoc writer)
            (Takes-value tag set (set 0) n (w.put_uint64 n) small
              (λ len rest fits enough.
                reads _
                ∙ rw (laws.uint64_read n rest (omega arith), leb_of_le n max_safe_integer safe))
              before)
    ]

    pub Takes-write_message :
        {B : Type 0} (parts : Fields w B) (blank : B) (encode : B → List Byte → List Byte) (tag : ℕ)
        (set : B → A) (before_it : A) (v : B) {writer : List Byte}
        → tag < 2 ^ 32
        → ((r : Reader Byte)
            → fields tag before_it r ≡ assign w set (decode_part w parts blank (read_uint32 w r)))
        → Takes parts blank (encode v []) v
        → Takes fields base writer before_it
        → Takes fields base (write_message w encode tag v writer) (set v)
    unfolding write_message join_fork write_uint32 assign
    Takes-write_message parts blank encode tag set before_it v {writer} small reads inner before =
        let framed = length-append (w.put_uint32 (length (encode v []))) (encode v []) in
        rw append_assoc (
          Takes-value tag set before_it v _ small
            (λ len rest fits enough.
              reads _
              ∙ ap (assign w set) (
                  decode_part-Reads w laws parts (inner (omega arith)) (omega arith) len rest
                    (omega arith)))
            before)

    pub Takes-write_messages :
        {B : Type 0} (parts : Fields w B) (blank : B) (encode : B → List Byte → List Byte) (tag : ℕ)
        (set : List B → A) (xs vs : List B) {writer : List Byte}
        → tag < 2 ^ 32
        → ((ys : List B) (r : Reader Byte)
            → fields tag (set ys) r
              ≡ assign w (λ v. set (ys ++ v ∷ [])) (decode_part w parts blank (read_uint32 w r)))
        → All (λ v. Takes parts blank (encode v []) v) vs
        → Takes fields base writer (set xs)
        → Takes fields base (write_messages w encode tag vs writer) (set (xs ++ vs))
    unfolding write_messages
    Takes-write_messages parts blank encode tag set xs [] small reads goods before =
        rw (append-nil xs) before
    Takes-write_messages parts blank encode tag set xs (v ∷ vs) small reads (good, goods) before =
        rw (append_shift xs vs v) at (
          Takes-write_messages parts blank encode tag set (xs ++ v ∷ []) vs small reads goods (
            Takes-write_message parts blank encode tag (λ x. set (xs ++ x ∷ [])) (set xs) v small
              (reads xs) good before))

    pub decode_whole-Takes :
        {bytes : List Byte} {m : A}
        → Takes fields base bytes m
        → length bytes < 2 ^ 32
        → decode_whole w fields base bytes ≡ read m
    decode_whole-Takes h small = decode_whole-Reads w laws fields (h small)
