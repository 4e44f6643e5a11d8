-- ===== src/Serialisation/Unpacker/Total.antt =====
-- `unpack` on every message: it has a result unless an array is too short, and keeps the arrays.
use se_scope_target.Prelude.{
  ℕ, ◌≤◌, ◌≡◌, ◌∙◌, Bool, List, map, some, arith, length, length-map, Returns,
}
use se_scope_target.Nanopb.Decoder.{Decoder}
use se_scope_target.SeLib.Ring.{Ring}
use se_scope_target.ScopeTypes.{MessageType}
use se_scope_target.Control.Commands.{CfRunningDef, CfAddressDef}
use se_scope_target.Serialisation.Unpacker.{
  Entries, NanopbUnpacker, store_all, unpack, running_def, address_def,
}
use se_scope_target.Serialisation.Unpacker.Arrays.{store_all-fits}
use se_scope_target.Serialisation.Unpacker.Getters.{IsAllocated}

-- The arrays have one entry for each channel, and no more are in use.
pub record IsFilled {F : Type 0} (u : NanopbUnpacker F) : Type 0 where
  pub allocated : IsAllocated u
  pub within : u.running.amount ≤ u.max_number_of_channels

module _ {F B : Type 0} (R : Ring ℕ B) (D : Decoder F) where
  -- A payload has no more entries than there are channels, whichever message it is taken for.
  abbrev pub FewEntries : ℕ → List ℕ → Type 0
  FewEntries n bytes =
      (length (D.decode_running bytes).message ≤ n) × (length (D.decode_address bytes).message ≤ n)

  -- What stays as it is.
  abbrev pub Unpacked : NanopbUnpacker F → NanopbUnpacker F × B × Bool → Type 0
  Unpacked u r = IsFilled r.0 × (r.0.max_number_of_channels ≡ u.max_number_of_channels)

  running_stored :
      (u : NanopbUnpacker F) (input : B)
      → IsFilled u
      → FewEntries u.max_number_of_channels (R.contents input)
      → (e : Entries CfRunningDef) × (store_all
            (record u.running { amount = 0 })
            (map running_def (D.decode_running (R.contents input)).message)
          ≡ some e)
        × (e.amount ≤ u.max_number_of_channels)
        × (length e.channels ≡ u.max_number_of_channels)
  running_stored u input i f =
      let message = (D.decode_running (R.contents input)).message in
      let sized = length-map running_def message in
      let (e, stored, kept) =
        store_all-fits (record u.running { amount = 0 }) (map running_def message)
          (omega (arith, sized, f.0, i.allocated.0)) in
      (e, stored, omega (arith, kept.1, sized, f.0), kept.2 ∙ i.allocated.0)

  address_stored :
      (u : NanopbUnpacker F) (input : B)
      → IsFilled u
      → FewEntries u.max_number_of_channels (R.contents input)
      → (e : Entries CfAddressDef) × (store_all
            (record u.address { amount = 0 })
            (map address_def (D.decode_address (R.contents input)).message)
          ≡ some e)
        × (length e.channels ≡ u.max_number_of_channels)
  address_stored u input i f =
      let message = (D.decode_address (R.contents input)).message in
      let sized = length-map address_def message in
      let (e, stored, kept) =
        store_all-fits (record u.address { amount = 0 }) (map address_def message)
          (omega (arith, sized, f.1, i.allocated.1)) in
      (e, stored, kept.2 ∙ i.allocated.1)

  pub unpack-Unpacked :
      (u : NanopbUnpacker F) (input : B) (type : MessageType)
      → IsFilled u
      → FewEntries u.max_number_of_channels (R.contents input)
      → Returns (Unpacked u) (unpack R D u input type)
  unfolding unpack
  unpack-Unpacked u input type i f =
      let (e, stored, within, size) = running_stored u input i f in
      let (a, stored_address, size_address) = address_stored u input i f in
      ground (arith, i.allocated, i.within, stored, within, size, stored_address, size_address)
