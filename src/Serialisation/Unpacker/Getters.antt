-- ===== src/Serialisation/Unpacker/Getters.antt =====
-- `unpack` on the messages with arrays: when it has a result, and what the getters return then.
use se_scope_target.Prelude.{
  ℕ, ◌<◌, ◌≤◌, ◌≡◌, refl, ap, sym, ◌∙◌, true, List, [], ◌∷◌, map, none, some, arith, length,
  length-map, drop_add, or_else, take, drop, length-drop, take_of_length_le, drop_of_length_le,
}
use se_scope_target.Nanopb.Decoder.{Decoded, Decoder, sum, Consumes}
use se_scope_target.SeLib.Ring.{Ring}
use se_scope_target.ScopeTypes.{cf_running, cf_addr}
use se_scope_target.Core.Trigger.{◌>>=◌}
use se_scope_target.Control.Commands.{CfRunningDef, CfAddressDef, entries}
use se_scope_target.Serialisation.Unpacker.{
  Entries, NanopbUnpacker, store_all, read_all, read_buffer, unpack, get_unpacker, running_def,
  address_def, get_channel,
}
use se_scope_target.Serialisation.Unpacker.Arrays.{
  store_all-fits, store_all_full, entries-get_channel,
}

-- The arrays have one entry for each channel.
abbrev pub IsAllocated : {F : Type 0} → NanopbUnpacker F → Type 0
IsAllocated u =
    (length u.running.channels ≡ u.max_number_of_channels)
    × (length u.address.channels ≡ u.max_number_of_channels)

take_all : {A : Type 0} (n : ℕ) (xs : List A) → n ≡ length xs → take n xs ≡ xs
take_all n xs e = take_of_length_le n xs (omega (arith, e))

-- An array that is filled from its start: the getter returns what was stored.
filled :
    {A : Type 0} (e : Entries A) (xs : List A) (d : A)
    → length xs ≤ length e.channels
    → (e' : Entries A) × (store_all (record e { amount = 0 }) xs ≡ some e')
      × (entries (λ i. or_else (get_channel e' i) d) 0 e'.amount ≡ xs)
      × (length e'.channels ≡ length e.channels)
filled e xs d h =
    let (e', eq, kept) = store_all-fits (record e { amount = 0 }) xs (omega (arith, h)) in
    (e', eq, entries-get_channel e' d (omega (arith, kept.1, kept.2, h)) ∙ kept.0, kept.2)

module _ {F B : Type 0} (R : Ring ℕ B) (D : Decoder F) where
  -- The reads of the decoder take their bytes from the input.
  pub contents-read_all :
      (input : B) (ns : List ℕ)
      → sum ns ≤ length (R.contents input)
      → R.contents (read_all R D input ns) ≡ drop (sum ns) (R.contents input)
  unfolding read_all read_buffer
  contents-read_all input [] h = refl
  contents-read_all input (n ∷ ns) h =
      let (b, e, c, _) = R.read_fits input n (omega (arith, R.used_lem input)) in
      let read : (read_buffer R D input n).0 ≡ b = ground (arith, e, R.used_lem input) in
      ap (λ i. R.contents (read_all R D i ns)) read
      ∙ (contents-read_all b ns (omega (arith, ap length c, length-drop n (R.contents input)))
          ∙ (ap (drop (sum ns)) c ∙ sym (drop_add n (sum ns) (R.contents input))))

  -- A message that is decoded leaves nothing.
  pub contents-decoded :
      {A : Type 0} (input : B) (m : Decoded A)
      → Consumes m (R.contents input)
      → m.status ≡ true
      → R.contents (read_all R D input m.reads) ≡ []
  contents-decoded input m c ok =
      contents-read_all input m.reads c.0
      ∙ drop_of_length_le (sum m.reads) (R.contents input) (omega (arith, c.1 ok))

  -- Both messages with an array, for what the getters return and for what is left of the input.
  pub unpack_running :
      (d : CfRunningDef) (a : CfAddressDef) (u : NanopbUnpacker F) (input : B)
      → IsAllocated u
      → (D.decode_running (R.contents input)).status ≡ true
      → length (D.decode_running (R.contents input)).message ≤ u.max_number_of_channels
      → (u' : NanopbUnpacker F) × (left : B) × (unpack R D u input cf_running
          ≡ some (u', left, true))
        × (entries
              (get_unpacker d a u').cf_running_get_channel
              0
              (get_unpacker d a u').cf_running_get_amount
            ≡ map running_def (D.decode_running (R.contents input)).message)
        × (R.contents left ≡ [])
        × IsAllocated u'
  unfolding unpack get_unpacker
  unpack_running d a u input h ok l =
      let m = D.decode_running (R.contents input) in
      let (e, stored, found, size) =
        filled u.running (map running_def m.message) d
          (omega (arith, length-map running_def m.message, h)) in
      let left = read_all R D input m.reads in
      (
        record u { running = e },
        left,
        ap (λ q. q >>= λ e'. some (record u { running = e' }, left, m.status)) stored
            ∙ ap (λ b. some (record u { running = e }, left, b)) ok,
        found,
        contents-decoded input m (D.decode_running-Consumes (R.contents input)) ok,
        (size ∙ h.0, h.1),
      )

  unpack_running_faults :
      (u : NanopbUnpacker F) (input : B)
      → IsAllocated u
      → u.max_number_of_channels < length (D.decode_running (R.contents input)).message
      → unpack R D u input cf_running ≡ none
  unfolding unpack
  unpack_running_faults u input h l =
      let m = D.decode_running (R.contents input) in
      ap (λ q. q >>= λ e. some (record u { running = e }, read_all R D input m.reads, m.status))
        (store_all_full (record u.running { amount = 0 }) (map running_def m.message) (omega arith)
          (omega (arith, length-map running_def m.message, h)))

  pub unpack_address :
      (d : CfRunningDef) (a : CfAddressDef) (u : NanopbUnpacker F) (input : B)
      → IsAllocated u
      → (D.decode_address (R.contents input)).status ≡ true
      → length (D.decode_address (R.contents input)).message ≤ u.max_number_of_channels
      → (u' : NanopbUnpacker F) × (left : B) × (unpack R D u input cf_addr ≡ some (u', left, true))
        × (entries
              (get_unpacker d a u').cf_address_get_channel
              0
              (get_unpacker d a u').cf_address_get_amount
            ≡ map address_def (D.decode_address (R.contents input)).message)
        × (R.contents left ≡ [])
        × IsAllocated u'
  unfolding unpack get_unpacker
  unpack_address d a u input h ok l =
      let m = D.decode_address (R.contents input) in
      let (e, stored, found, size) =
        filled u.address (map address_def m.message) a
          (omega (arith, length-map address_def m.message, h)) in
      let left = read_all R D input m.reads in
      (
        record u { address = e },
        left,
        ap (λ q. q >>= λ e'. some (record u { address = e' }, left, m.status)) stored
            ∙ ap (λ b. some (record u { address = e }, left, b)) ok,
        found,
        contents-decoded input m (D.decode_address-Consumes (R.contents input)) ok,
        (h.0, size ∙ h.1),
      )

  unpack_address_faults :
      (u : NanopbUnpacker F) (input : B)
      → IsAllocated u
      → u.max_number_of_channels < length (D.decode_address (R.contents input)).message
      → unpack R D u input cf_addr ≡ none
  unfolding unpack
  unpack_address_faults u input h l =
      let m = D.decode_address (R.contents input) in
      ap (λ q. q >>= λ e. some (record u { address = e }, read_all R D input m.reads, m.status))
        (store_all_full (record u.address { amount = 0 }) (map address_def m.message) (omega arith)
          (omega (arith, length-map address_def m.message, h)))

  -- With an array of one entry for each channel, a message with more entries than channels that are
  -- decoded makes `unpack` write outside of the array, for CF_RUNNING and for CF_ADDR.
  pub unpack_faults :
      (u : NanopbUnpacker F) (input : B)
      → IsAllocated u
      → (u.max_number_of_channels < length (D.decode_running (R.contents input)).message
          → unpack R D u input cf_running ≡ none)
        × (u.max_number_of_channels < length (D.decode_address (R.contents input)).message
            → unpack R D u input cf_addr ≡ none)
  unpack_faults u input h = (unpack_running_faults u input h, unpack_address_faults u input h)
