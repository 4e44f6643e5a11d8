-- ===== src/Control/Commands/Tests.antt =====
-- The theorems on the commands, and on the announcements, at concrete inputs.
use se_scope_target.Prelude.{
  ℕ, zero, suc, ◌<◌, ◌≡◌, refl, true, false, List, [], ◌∷◌, map, none, some, arith, length, All,
  inr, ◌↔◌, Returns, min, replicate,
}
use se_scope_target.ScopeTypes.{channel_stopped, channel_running, se_ack, cf_running, cf_addr}
use se_scope_target.Core.Trigger.Machine.Invariant.{IsSound}
use se_scope_target.Control.Commands.{
  Unpacker, RunningEntry, Commands, entries, addr_entry, run_addr, run_running, dispatch,
}
use se_scope_target.SeLib.Models.{list_core}
use se_scope_target.Core.Tests.{memory, full_scope, full_rig-IsSound}
use se_scope_target.Control.Commands.Safety.{dispatch-Keeps}
use se_scope_target.Control.Commands.Answers.{
  run_running_answer, AddrPasses, changed, StopsShort, dispatch-addr_refused,
}
use se_scope_target.Control.AnnounceStorage.{
  AddressDefinition, AnnounceStorage, add_announce_address, get_address_to_transmit, text_of,
}
use se_scope_target.Control.AnnounceStorage.Names.{
  IsText, text_of_sevens, add_announce_address_lem, add_unterminated,
}

abbrev one_command : Commands ℕ
one_command = record {
  amount_of_channels = 1;
  addr_config = record { changed_channel = 0; new_address = 100; type = 0 } ∷ [];
  running_config = [];
  time_increment = 1;
  trigger_config = record { level = 5; edge = true; mode = 0; channel_id = 0 };
}

-- A message with the null address, which also starts channel 0.
abbrev unpacked : Unpacker ℕ
unpacked = record {
  cf_running_get_amount = 1;
  cf_running_get_channel = λ i. record { id = 0; new_state = true };
  cf_trigger_get_trigger_config = record { level = 7; edge = false; mode = 1; channel_id = 0 };
  cf_t_inc_get_inc = 10;
  cf_address_get_amount = 1;
  cf_address_get_channel = λ i. record { id = 0; address = 0; type = 0 };
}

dispatch-Keeps_example :
    Returns
      (λ r. IsSound list_core r.1.rig × (length r.1.rig.channels ≡ 1))
      (dispatch list_core one_command unpacked full_scope memory 130 cf_running)
dispatch-Keeps_example =
    dispatch-Keeps list_core one_command unpacked full_scope memory 130 cf_running full_rig-IsSound
      (inr (omega arith))

-- Channel 0 is stopped; channel 1 does not exist.
abbrev beyond : List RunningEntry
beyond =
    record { changed_channel = 0; new_state = channel_stopped }
    ∷ record { changed_channel = 1; new_state = channel_running }
    ∷ []

run_running_answer_example :
    (((run_running list_core 1 full_scope beyond).1 ≡ se_ack ∷ [])
      ↔ All (λ (e : RunningEntry). e.changed_channel < 1) beyond)
    × (All (λ (e : RunningEntry). e.changed_channel < 1) beyond
        → run_running list_core 1 full_scope beyond
          ≡ (changed list_core full_scope beyond, se_ack ∷ []))
    × (¬ All (λ (e : RunningEntry). e.changed_channel < 1) beyond
        → StopsShort list_core 1 full_scope beyond)
run_running_answer_example = run_running_answer list_core 1 full_scope beyond

unpacked-AddrPasses : ¬ (
    AddrPasses one_command.amount_of_channels (
      map addr_entry (
        entries unpacked.cf_address_get_channel 0
          (min one_command.amount_of_channels unpacked.cf_address_get_amount))))
unfolding entries
unpacked-AddrPasses = ground arith

dispatch-addr_refused_example :
    dispatch list_core one_command unpacked full_scope memory 130 cf_addr
    ≡ some (
      one_command,
      (run_addr list_core 1 full_scope one_command.addr_config).0,
      (run_addr list_core 1 full_scope one_command.addr_config).1,
    )
dispatch-addr_refused_example =
    dispatch-addr_refused list_core one_command unpacked full_scope memory 130 unpacked-AddrPasses

abbrev storage : AnnounceStorage ℕ ℕ
storage = record {
  configured_amount_of_addresses = 0;
  addresses = record { name = replicate 30 7; type = 6; address = 0 } ∷ [];
  max_amount_of_channels = 1;
  time_base = 1;
  version = 3;
}

add_announce_address_lem_example :
    let (s, done) = add_announce_address storage (65 ∷ 66 ∷ []) 100 1 in
    (done ≡ true)
    × (s.configured_amount_of_addresses ≡ 1)
    × (length s.addresses ≡ 1)
    × (d : AddressDefinition) × (get_address_to_transmit s 0 ≡ some d)
    × (d.address ≡ 100)
    × (d.type ≡ 1)
    × (text_of d.name ≡ some (65 ∷ 66 ∷ []))
add_announce_address_lem_example =
    add_announce_address_lem storage (65 ∷ 66 ∷ []) 100 1
      (record { name = replicate 30 7; type = 6; address = 0 }) refl
      (omega arith, (omega arith, tt)) (omega arith) (omega arith)

-- 29 characters.
abbrev long_name : List ℕ
long_name = replicate 29 65

replicate-IsText : (n : ℕ) → IsText (replicate n 65)
replicate-IsText zero = tt
replicate-IsText (suc n) = (omega arith, replicate-IsText n)

add_unterminated_example :
    let (s, done) = add_announce_address storage long_name 100 1 in
    (done ≡ true)
    × (d : AddressDefinition) × (get_address_to_transmit s 0 ≡ some d)
    × (text_of d.name ≡ none)
add_unterminated_example =
    add_unterminated storage long_name 100 1
      (record { name = replicate 30 7; type = 6; address = 0 }) refl (replicate-IsText 29)
      (omega arith) (omega arith) (omega arith) text_of_sevens
