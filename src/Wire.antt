-- ===== src/Wire.antt =====
-- The protobuf codecs under client_app/src/lib/generated/osmosis: the writer, the reader and the loop
-- that every `decode` of those files is. `BinaryWriter` and `BinaryReader` are of the package
-- @bufbuild/protobuf, which is not in the repository.
pub mod Writer
pub mod Loop
pub mod Coin
pub mod Reads
pub mod Writes
pub mod Ends
pub mod Route
pub mod SplitRoute
pub mod Swap
pub mod SplitSwap
pub mod Total
pub mod Unknown
pub mod Schema
pub mod Partial
pub mod Signed
mod Tests
use spectra_portal.Base.{
  ℕ, zero, suc, ◌+◌, ◌-◌, ◌/◌, ◌%◌, ◌^◌, ◌≤◌, ◌<◌, ◌≡◌, String, Bool, true, false, ◌||◌, List, [],
  ◌∷◌, ◌++◌, length, Option, none, some, if◌then◌else◌, ltb, leb, ◌==◌, is_truthy,
}

-- What the package puts on the wire and takes off it. A read is `none` where the reader throws, and
-- else the value with the bytes behind it.
pub record Wire (Byte : Type 0) : Type 0 where
  pub put_uint32 : ℕ → List Byte
  pub put_uint64 : ℕ → List Byte
  pub put_string : String → List Byte
  pub get_uint32 : List Byte → Option (ℕ × List Byte)
  pub get_uint64 : List Byte → Option (ℕ × List Byte)
  pub get_string : List Byte → Option (String × List Byte)
  pub skip_value : ℕ → List Byte → Option (List Byte)

-- `len` and the bytes from `pos` on.
pub record Reader (Byte : Type 0) : Type 0 where
  pub len : ℕ
  pub rest : List Byte

-- What a call answers; `out_of_fuel` is of the model alone.
pub data Read (A : Type 0) : Type 0 where
  read : A → Read A
  thrown : Read A
  out_of_fuel : Read A

abbrev pub map_read : {A B : Type 0} → (A → B) → Read A → Read B
map_read f (read a) = read (f a)
map_read f thrown = thrown
map_read f out_of_fuel = out_of_fuel

-- `Number.MAX_SAFE_INTEGER`
abbrev pub max_safe_integer : ℕ
max_safe_integer = 9007199254740991

-- `longToNumber` of a uint64, which is never below `MIN_SAFE_INTEGER`.
unfoldable pub long_to_number : {A : Type 0} → Read (ℕ × A) → Read (ℕ × A)
long_to_number thrown = thrown
long_to_number out_of_fuel = out_of_fuel
long_to_number (read (n, r)) = if leb n max_safe_integer then read (n, r) else thrown

module _ {Byte : Type 0} where
  unfoldable pub pos : Reader Byte → ℕ
  pos r = r.len - length r.rest

  -- A read of the reader, which moves `pos` behind the value.
  unfoldable pub take_read : {A : Type 0} → ℕ → Option (A × List Byte) → Read (A × Reader Byte)
  take_read len none = thrown
  take_read len (some (a, rest)) = read (a, record { len = len; rest = rest })

  module _ (w : Wire Byte) where
    unfoldable pub write_uint32 : ℕ → List Byte → List Byte
    write_uint32 n writer = writer ++ w.put_uint32 n

    unfoldable pub write_uint64 : ℕ → List Byte → List Byte
    write_uint64 n writer = writer ++ w.put_uint64 n

    unfoldable pub write_string : String → List Byte → List Byte
    write_string s writer = writer ++ w.put_string s

    -- `join` puts the bytes written since `fork` behind their number.
    unfoldable pub join_fork : List Byte → List Byte → List Byte
    join_fork inner writer = writer ++ (w.put_uint32 (length inner) ++ inner)

    unfoldable pub read_uint32 : Reader Byte → Read (ℕ × Reader Byte)
    unfolding take_read
    read_uint32 r = take_read r.len (w.get_uint32 r.rest)

    unfoldable pub read_uint64 : Reader Byte → Read (ℕ × Reader Byte)
    unfolding take_read
    read_uint64 r = take_read r.len (w.get_uint64 r.rest)

    unfoldable pub read_string : Reader Byte → Read (String × Reader Byte)
    unfolding take_read
    read_string r = take_read r.len (w.get_string r.rest)

-- What the package documents: a value is read back as it was put, and takes a byte at least; a
-- message is below 4 GB.
pub record WireLaws {Byte : Type 0} (w : Wire Byte) : Type 0 where
  pub uint32_read :
      (n : ℕ) (rest : List Byte)
      → n < 2 ^ 32
      → w.get_uint32 (w.put_uint32 n ++ rest) ≡ some (n, rest)
  pub uint64_read :
      (n : ℕ) (rest : List Byte)
      → n < 2 ^ 64
      → w.get_uint64 (w.put_uint64 n ++ rest) ≡ some (n, rest)
  pub string_read :
      (s : String) (rest : List Byte)
      → length (w.put_string s) < 2 ^ 32
      → w.get_string (w.put_string s ++ rest) ≡ some (s, rest)
  pub uint32_taken :
      (bytes : List Byte) (n : ℕ) (rest : List Byte)
      → w.get_uint32 bytes ≡ some (n, rest)
      → length rest < length bytes
  pub uint64_taken :
      (bytes : List Byte) (n : ℕ) (rest : List Byte)
      → w.get_uint64 bytes ≡ some (n, rest)
      → length rest < length bytes
  pub string_taken :
      (bytes : List Byte) (s : String) (rest : List Byte)
      → w.get_string bytes ≡ some (s, rest)
      → length rest < length bytes
  pub skip_taken :
      (kind : ℕ) (bytes rest : List Byte)
      → w.skip_value kind bytes ≡ some rest
      → length rest ≤ length bytes
