-- ===== src/Nanopb/Models.antt =====
-- A concrete encoder and decoder of the protobuf wire format that meet the interfaces of nanopb, for the
-- examples; floats are natural numbers.
use se_scope_target.Prelude.{
  ℕ, ◌+◌, ◌*◌, ◌/◌, ◌%◌, ◌^◌, ◌<◌, ◌≤◌, ◌≡◌, refl, Bool, true, false, List, [], ◌∷◌, ◌++◌,
  if◌then◌else◌, arith, length, length-append, ltb, concat, ◌==◌,
}
use se_scope_target.Nanopb.Encoder.{OStream, Encoder, size, varint_size}
use se_scope_target.Nanopb.Decoder.{
  Decoded, Decoder, PbRunningConfig, PbAddressConfig, PbCfTrigger, Consumes,
}

-- The last seven bits of what is left above `n` bits, with the mark that more follow.
abbrev low : ℕ → ℕ → ℕ
low v n = v / 2 ^ n % 2 ^ 7 + 2 ^ 7

abbrev varint : ℕ → List ℕ
varint v =
    if ltb v (2 ^ 7)
    then v ∷ []
    else if ltb v (2 ^ 14)
    then low v 0 ∷ v / 2 ^ 7 ∷ []
    else if ltb v (2 ^ 21)
    then low v 0 ∷ low v 7 ∷ v / 2 ^ 14 ∷ []
    else if ltb v (2 ^ 28)
    then low v 0 ∷ low v 7 ∷ low v 14 ∷ v / 2 ^ 21 ∷ []
    else low v 0 ∷ low v 7 ∷ low v 14 ∷ low v 21 ∷ v / 2 ^ 28 ∷ []

abbrev tag : ℕ → ℕ → List ℕ
tag wire_type field = (field * 8 + wire_type) ∷ []

abbrev fixed32 : ℕ → List ℕ
fixed32 v = v % 2 ^ 8 ∷ v / 2 ^ 8 % 2 ^ 8 ∷ v / 2 ^ 16 % 2 ^ 8 ∷ v / 2 ^ 24 % 2 ^ 8 ∷ []

abbrev uint32_runs : ℕ → ℕ → List (List ℕ)
uint32_runs field v = if v == 0 then [] else tag 0 field ∷ varint v ∷ []

abbrev float_runs : ℕ → ℕ → List (List ℕ)
float_runs field v = if v == 0 then [] else tag 5 field ∷ fixed32 v ∷ []

abbrev string_runs : ℕ → List ℕ → List (List ℕ)
string_runs field [] = []
string_runs field (c ∷ cs) = tag 2 field ∷ varint (length (c ∷ cs)) ∷ (c ∷ cs) ∷ []

abbrev message_runs : ℕ → List (List ℕ) → List (List ℕ)
message_runs field runs = tag 2 field ∷ varint (size runs) ∷ runs

abbrev pb_write : {Y : Type 0} → (Y → List ℕ → Y) → OStream Y → List ℕ → OStream Y × Bool
pb_write callback o run = if ltb o.max_size (o.bytes_written + length run) then (o, false) else (
  record o { state = callback o.state run; bytes_written = o.bytes_written + length run },
  true,
)

pub pb_write_fits :
    {Y : Type 0} (callback : Y → List ℕ → Y) (o : OStream Y) (run : List ℕ)
    → o.bytes_written + length run ≤ o.max_size
    → pb_write callback o run ≡ (
      record o { state = callback o.state run; bytes_written = o.bytes_written + length run },
      true,
    )
pb_write_fits callback o run h = ground arith

pub pb_write_full :
    {Y : Type 0} (callback : Y → List ℕ → Y) (o : OStream Y) (run : List ℕ)
    → o.max_size < o.bytes_written + length run
    → pb_write callback o run ≡ (o, false)
pb_write_full callback o run h = ground arith

pub length-varint : (v : ℕ) → length (varint v) ≡ varint_size v
length-varint v = ground arith

pub size-uint32_runs :
    (field v : ℕ)
    → field < 16
    → v < 2 ^ 32
    → size (uint32_runs field v) ≡ (if v == 0 then 0 else 1 + varint_size v)
size-uint32_runs field v f h = ground (arith, length-varint v, length-append (varint v) [])

pub size-float_runs : (field v : ℕ) → field < 16 → size (float_runs field v) ≤ 5
size-float_runs field v f = ground arith

pub size-string_runs :
    (field : ℕ) (text : List ℕ)
    → field < 16
    → length text < 2 ^ 32
    → size (string_runs field text) ≤ 1 + varint_size (length text) + length text
size-string_runs field [] f h = ground arith
size-string_runs field (c ∷ cs) f h = omega (
  arith,
  length-varint (length (c ∷ cs)),
  length-append (varint (length (c ∷ cs))) ((c ∷ cs) ++ []),
  length-append cs [],
)

pub size-message_runs :
    (field : ℕ) (runs : List (List ℕ))
    → field < 16
    → size runs < 2 ^ 32
    → size (message_runs field runs) ≡ 1 + varint_size (size runs) + size runs
size-message_runs field runs f h =
    omega (arith, length-varint (size runs), length-append (varint (size runs)) (concat runs))

abbrev pub wire_encoder : Encoder ℕ
wire_encoder = record {
  pb_write = pb_write;
  pb_encode_tag = tag;
  pb_encode_varint = varint;
  pb_encode_fixed32 = fixed32;
  pb_encode_float = fixed32;
  uint32_field = uint32_runs;
  float_field = float_runs;
  string_field = string_runs;
  message_field = message_runs;
  write_fits = pb_write_fits;
  write_full = pb_write_full;
  length-tag = λ w f h. refl;
  length-varint = λ v h. length-varint v;
  length-fixed32 = λ v. refl;
  length-float = λ v. refl;
  size-uint32_field = size-uint32_runs;
  size-float_field = size-float_runs;
  size-string_field = size-string_runs;
  size-message_field = size-message_runs;
}

-- Entries with both fields, of one byte each: the tag and the length of the entry, then the fields.
abbrev running_entries : List ℕ → List PbRunningConfig × Bool
running_entries [] = ([], true)
running_entries (t ∷ n ∷ t1 ∷ id ∷ t2 ∷ on ∷ bytes) = (
  record { cl_id = id; new_state = on == 1 } ∷ (running_entries bytes).0,
  (running_entries bytes).1,
)
running_entries _ = ([], false)

abbrev whole : {A : Type 0} → A → List ℕ → Decoded A
whole a bytes = record { reads = length bytes ∷ []; message = a; status = true }

pub whole-Consumes : {A : Type 0} (a : A) (bytes : List ℕ) → Consumes (whole a bytes) bytes
whole-Consumes a bytes = (omega arith, λ h. omega arith)

abbrev decode_running : List ℕ → Decoded (List PbRunningConfig)
decode_running bytes = record {
  reads = length bytes ∷ [];
  message = (running_entries bytes).0;
  status = (running_entries bytes).1;
}

-- Of the other messages, those without fields.
abbrev pub wire_decoder : Decoder ℕ
wire_decoder = record {
  decode_poll = whole 0;
  decode_t_inc = whole 0;
  decode_trigger = whole (record { cl_id = 0; mode = 0; level = 0; edge = false });
  decode_running = decode_running;
  decode_address = whole [];
  decode_poll-Consumes = whole-Consumes {A = ℕ} 0;
  decode_t_inc-Consumes = whole-Consumes {A = ℕ} 0;
  decode_trigger-Consumes =
      whole-Consumes {A = PbCfTrigger ℕ} (record { cl_id = 0; mode = 0; level = 0; edge = false });
  decode_running-Consumes = λ bytes. (omega arith, λ h. omega arith);
  decode_address-Consumes = whole-Consumes {A = List PbAddressConfig} [];
}
