-- ===== src/Nanopb/Encoder.antt =====
-- pb_encode.h. A primitive writes one run of bytes to the stream; the fields that `pb_encode` writes by
-- itself are lists of runs. The sizes are those of the protobuf wire format.
use se_scope_target.Prelude.{
  ℕ, ◌+◌, ◌^◌, ◌≤◌, ◌<◌, ◌≡◌, Bool, true, false, List, length, concat, ltb, ◌==◌, if◌then◌else◌,
}

-- pb_ostream_t without its callback, over the type of what the callback writes to.
pub record OStream (Y : Type 0) : Type 0 where
  pub state : Y
  pub max_size : ℕ
  pub bytes_written : ℕ

-- The bytes of a varint of up to 32 bits: seven bits each.
abbrev pub varint_size : ℕ → ℕ
varint_size v =
    if ltb v (2 ^ 7)
    then 1
    else if ltb v (2 ^ 14)
    then 2
    else if ltb v (2 ^ 21)
    then 3
    else if ltb v (2 ^ 28)
    then 4
    else 5

abbrev pub size : List (List ℕ) → ℕ
size runs = length (concat runs)

pub record Encoder (F : Type 0) : Type 1 where
  -- `pb_write`, with the callback of the stream.
  pub pb_write : {Y : Type 0} → (Y → List ℕ → Y) → OStream Y → List ℕ → OStream Y × Bool
  pub pb_encode_tag : ℕ → ℕ → List ℕ
  pub pb_encode_varint : ℕ → List ℕ
  pub pb_encode_fixed32 : ℕ → List ℕ
  pub pb_encode_float : F → List ℕ
  -- Fields of the types UINT32 or UENUM, FLOAT, STRING and MESSAGE, by their numbers.
  pub uint32_field : ℕ → ℕ → List (List ℕ)
  pub float_field : ℕ → F → List (List ℕ)
  pub string_field : ℕ → List ℕ → List (List ℕ)
  pub message_field : ℕ → List (List ℕ) → List (List ℕ)
  -- A run is written whole, or not at all if it would exceed the maximal size.
  pub write_fits :
      {Y : Type 0} (callback : Y → List ℕ → Y) (o : OStream Y) (run : List ℕ)
      → o.bytes_written + length run ≤ o.max_size
      → pb_write callback o run ≡ (
        record o { state = callback o.state run; bytes_written = o.bytes_written + length run },
        true,
      )
  pub write_full :
      {Y : Type 0} (callback : Y → List ℕ → Y) (o : OStream Y) (run : List ℕ)
      → o.max_size < o.bytes_written + length run
      → pb_write callback o run ≡ (o, false)
  pub length-tag : (wire_type field : ℕ) → field < 16 → length (pb_encode_tag wire_type field) ≡ 1
  pub length-varint : (v : ℕ) → v < 2 ^ 32 → length (pb_encode_varint v) ≡ varint_size v
  pub length-fixed32 : (v : ℕ) → length (pb_encode_fixed32 v) ≡ 4
  pub length-float : (x : F) → length (pb_encode_float x) ≡ 4
  pub size-uint32_field :
      (field v : ℕ)
      → field < 16
      → v < 2 ^ 32
      → size (uint32_field field v) ≡ (if v == 0 then 0 else 1 + varint_size v)
  pub size-float_field : (field : ℕ) (x : F) → field < 16 → size (float_field field x) ≤ 5
  pub size-string_field :
      (field : ℕ) (text : List ℕ)
      → field < 16
      → length text < 2 ^ 32
      → size (string_field field text) ≤ 1 + varint_size (length text) + length text
  pub size-message_field :
      (field : ℕ) (runs : List (List ℕ))
      → field < 16
      → size runs < 2 ^ 32
      → size (message_field field runs) ≡ 1 + varint_size (size runs) + size runs
