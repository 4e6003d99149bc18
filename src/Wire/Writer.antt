-- ===== src/Wire/Writer.antt =====
-- The writes that every `encode` of client_app/src/lib/generated/osmosis is made of.
use spectra_portal.Base.{ℕ, ◌==◌, String, List, [], ◌∷◌, if◌then◌else◌, is_truthy}
use spectra_portal.Wire.{Wire, write_uint32, write_uint64, write_string, join_fork}

module _ {Byte : Type 0} (w : Wire Byte) where
  -- `if (s !== "") { writer.uint32(tag).string(s); }`
  unfoldable pub write_text : ℕ → String → List Byte → List Byte
  unfolding write_string write_uint32
  write_text tag s writer =
      if is_truthy s then write_string w s (write_uint32 w tag writer) else writer

  -- `if (n !== 0) { writer.uint32(tag).uint64(n); }`
  unfoldable pub write_number : ℕ → ℕ → List Byte → List Byte
  unfolding write_uint64 write_uint32
  write_number tag n writer =
      if n == 0 then writer else write_uint64 w n (write_uint32 w tag writer)

  -- `M.encode(v!, writer.uint32(tag).fork()).join();`
  unfoldable pub write_message :
      {A : Type 0} → (A → List Byte → List Byte) → ℕ → A → List Byte → List Byte
  unfolding join_fork write_uint32
  write_message encode tag v writer = join_fork w (encode v []) (write_uint32 w tag writer)

  -- The loop over a repeated field.
  unfoldable pub write_messages :
      {A : Type 0} → (A → List Byte → List Byte) → ℕ → List A → List Byte → List Byte
  unfolding write_message
  write_messages encode tag [] writer = writer
  write_messages encode tag (v ∷ vs) writer =
      write_messages encode tag vs (write_message encode tag v writer)
