-- ===== src/Nanopb/Decoder.antt =====
-- pb_decode.h: `pb_decode` on the messages of the host. It reads the stream by the callback, in pieces,
-- and a callback of a repeated field is called for each entry in turn.
use se_scope_target.Prelude.{ℕ, ◌+◌, ◌≤◌, ◌≡◌, Bool, true, List, [], ◌∷◌, length}

-- The counts that the callback of the stream is called with, what is decoded, and the result. Of a
-- repeated field the entries up to the first that fails are decoded.
pub record Decoded (A : Type 0) : Type 0 where
  pub reads : List ℕ
  pub message : A
  pub status : Bool

-- PB_RunningConfig, PB_AddressConfig and PB_CF_Trigger; an enum is its number.
pub record PbRunningConfig : Type 0 where
  pub cl_id : ℕ
  pub new_state : Bool

pub record PbAddressConfig : Type 0 where
  pub cl_id : ℕ
  pub address : ℕ
  pub type : ℕ

pub record PbCfTrigger (F : Type 0) : Type 0 where
  pub cl_id : ℕ
  pub mode : ℕ
  pub level : F
  pub edge : Bool

abbrev pub sum : List ℕ → ℕ
sum [] = 0
sum (n ∷ ns) = n + sum ns

-- The decoder reads no more than the stream has, and all of it if it succeeds.
abbrev pub Consumes : {A : Type 0} → Decoded A → List ℕ → Type 0
Consumes d bytes = (sum d.reads ≤ length bytes) × (d.status ≡ true → sum d.reads ≡ length bytes)

pub record Decoder (F : Type 0) : Type 0 where
  pub decode_poll : List ℕ → Decoded ℕ
  pub decode_t_inc : List ℕ → Decoded ℕ
  pub decode_trigger : List ℕ → Decoded (PbCfTrigger F)
  pub decode_running : List ℕ → Decoded (List PbRunningConfig)
  pub decode_address : List ℕ → Decoded (List PbAddressConfig)
  pub decode_poll-Consumes : (bytes : List ℕ) → Consumes (decode_poll bytes) bytes
  pub decode_t_inc-Consumes : (bytes : List ℕ) → Consumes (decode_t_inc bytes) bytes
  pub decode_trigger-Consumes : (bytes : List ℕ) → Consumes (decode_trigger bytes) bytes
  pub decode_running-Consumes : (bytes : List ℕ) → Consumes (decode_running bytes) bytes
  pub decode_address-Consumes : (bytes : List ℕ) → Consumes (decode_address bytes) bytes
