-- ===== src/FramedIo/Receive/Tests.antt =====
-- The theorems on the receiver at concrete inputs.
use se_scope_target.Prelude.{
  ℕ, ◌≡◌, refl, true, false, List, [], ◌∷◌, ◌++◌, none, some, if◌then◌else◌, arith, inl,
}
use se_scope_target.SeLib.Models.{ListRing, list_ring, list_create}
use se_scope_target.FramedIo.{Rx, start_flag, type_field, length_field, se_none}
use se_scope_target.FramedIo.Frame.{frame, frame_head, sum}
use se_scope_target.FramedIo.Receive.{
  put_rx_data, put_loop, check_all, check_start_flag, check_type, check_length, check_data,
  check_checksum, check_end_flag, find_start, read_type, end_length, read_length,
}
use se_scope_target.FramedIo.Receive.Automaton.Frames.{IsIdle}
use se_scope_target.FramedIo.Receive.Automaton.{feed, Settled}
use se_scope_target.FramedIo.Receive.Chunks.{put_rx_data-append, put_rx_data-eq-feed}
use se_scope_target.FramedIo.Receive.Messages.{
  put_rx_data-frame, put_rx_data-damaged, put_rx_data-stuck,
}

-- An idle receiver with the given input buffer.
abbrev idle_rx : ListRing ℕ → Rx (ListRing ℕ)
idle_rx b = record {
  input = b;
  data_ready = false;
  expected_length = 0;
  type = se_none;
  state_byte_count = 0;
  checksum = 0;
  checksum_compare = 0;
  state = start_flag;
}

idle_rx-IsIdle : (b : ListRing ℕ) → IsIdle (idle_rx b)
idle_rx-IsIdle b = record {
  waiting = refl;
  counter = refl;
  expected = refl;
  summed = refl;
  compared = refl;
}

abbrev empty_rx : Rx (ListRing ℕ)
empty_rx = idle_rx (list_create 8)

abbrev payload : List ℕ
payload = 200 ∷ 100 ∷ 3 ∷ []

put_rx_data-frame_example :
    (t : Rx (ListRing ℕ)) × (put_rx_data list_ring 20 empty_rx (frame 105 payload) ≡ some (t, true))
    × (t.data_ready ≡ true)
    × (t.type ≡ 105)
    × (t.input.items ≡ payload)
    × IsIdle t
unfolding sum
put_rx_data-frame_example =
    put_rx_data-frame list_ring 20 empty_rx 105 payload (omega arith)
      (idle_rx-IsIdle (list_create 8)) refl refl (omega arith) (omega arith)

put_rx_data-damaged_example :
    (t : Rx (ListRing ℕ)) × (put_rx_data list_ring 20 empty_rx
        (frame_head 105 3 ++ (payload ++ (1 ∷ 48 ∷ b']' ∷ [])))
      ≡ some (t, false))
    × (t.data_ready ≡ false)
    × (t.input.items ≡ [])
    × IsIdle t
unfolding sum
put_rx_data-damaged_example =
    put_rx_data-damaged list_ring 20 empty_rx 105 payload 1 48 b']' (omega arith)
      (idle_rx-IsIdle (list_create 8)) refl refl (omega arith) (omega arith) (omega arith)
      (omega arith) (inl ((omega arith), refl))

put_rx_data-stuck_example :
    put_rx_data list_ring 1000
      (idle_rx (record { items = 7 ∷ 8 ∷ []; room = 6 }))
      (frame_head 105 1 ++ (9 ∷ []))
    ≡ none
put_rx_data-stuck_example =
    put_rx_data-stuck list_ring 1000 (idle_rx (record { items = 7 ∷ 8 ∷ []; room = 6 })) 105 1 9 []
      (idle_rx-IsIdle (record { items = 7 ∷ 8 ∷ []; room = 6 })) refl (omega arith) (omega arith)

empty_rx-Settled : Settled list_ring empty_rx
empty_rx-Settled = ground arith

put_rx_data-eq-feed_example :
    put_rx_data list_ring 20 empty_rx (frame 105 payload)
    ≡ (if false then some (empty_rx, false) else feed list_ring empty_rx (frame 105 payload) false)
unfolding sum
put_rx_data-eq-feed_example =
    put_rx_data-eq-feed list_ring 20 empty_rx (frame 105 payload) (omega arith) empty_rx-Settled

flagged_rx :
    put_rx_data list_ring 5 empty_rx (b'[' ∷ [])
    ≡ some (record empty_rx { state = type_field }, false)
unfolding put_rx_data put_loop check_all check_start_flag check_type check_length check_data
    check_checksum check_end_flag find_start read_type
flagged_rx = refl

typed_rx :
    put_rx_data list_ring 5 (record empty_rx { state = type_field }) (50 ∷ [])
    ≡ some (record empty_rx { state = length_field; type = 50 }, false)
unfolding put_rx_data put_loop check_all check_start_flag check_type check_length check_data
    check_checksum check_end_flag find_start read_type end_length read_length
typed_rx = refl

put_rx_data-append_example :
    put_rx_data list_ring 5 empty_rx (b'[' ∷ 50 ∷ [])
    ≡ some (record empty_rx { state = length_field; type = 50 }, false)
put_rx_data-append_example =
    put_rx_data-append list_ring 5 5 5 empty_rx (record empty_rx { state = type_field })
      (record empty_rx { state = length_field; type = 50 }) (b'[' ∷ []) (50 ∷ []) false false
      (omega arith) (omega arith) (omega arith) empty_rx-Settled refl flagged_rx refl typed_rx
