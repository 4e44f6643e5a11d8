-- ===== src/FramedIo/Tests.antt =====
-- The theorems on the sender, and on sender and receiver together, at concrete inputs.
use se_scope_target.Prelude.{ℕ, ◌≡◌, refl, true, false, [], ◌∷◌, some, arith, inl, inr, concat}
use se_scope_target.SeLib.Models.{ListRing, list_ring, list_create}
use se_scope_target.FramedIo.{Rx, Tx, start_flag, se_none, idle, body}
use se_scope_target.FramedIo.Frame.{frame, sum}
use se_scope_target.FramedIo.Receive.{run_rx}
use se_scope_target.FramedIo.Receive.Pieces.{put_all}
use se_scope_target.FramedIo.Receive.Automaton.Frames.{IsIdle}
use se_scope_target.FramedIo.Transmit.{run_tx, update_tx, get_tx_data}
use se_scope_target.FramedIo.Transmit.Pending.{pending, IsSound}
use se_scope_target.FramedIo.Transmit.Calls.{get_tx_data-Takes, get_all, get_all-Takes}
use se_scope_target.FramedIo.Transmit.Runs.{pending-run_tx, Step-IsSound, notified}
use se_scope_target.FramedIo.Delivery.{delivery}

-- An idle sender with a message of type 50.
abbrev sender : Tx (ListRing ℕ)
sender = record {
  output = record { items = 200 ∷ 100 ∷ 3 ∷ []; room = 5 };
  frame_head = list_create 6;
  frame_tail = list_create 3;
  data_framing_ready = true;
  type = 50;
  checksum = 0;
  state = idle;
}

sender-IsSound : IsSound list_ring sender
sender-IsSound = record {
  head_size = refl;
  tail_size = refl;
  summed = omega arith;
  cleared = inr refl;
  unsummed = inr refl;
}

-- The same in the middle of the payload, with its first byte sent.
abbrev sending : Tx (ListRing ℕ)
sending = record sender {
  output = record { items = 100 ∷ 3 ∷ []; room = 6 };
  checksum = 200;
  state = body;
}

sending-IsSound : IsSound list_ring sending
sending-IsSound = record {
  head_size = refl;
  tail_size = refl;
  summed = omega arith;
  cleared = inr refl;
  unsummed = inl refl;
}

get_tx_data-Takes_example :
    let (t, xs) = get_tx_data list_ring sending 4 in
    (xs ≡ 100 ∷ 3 ∷ 1 ∷ 47 ∷ []) × (pending list_ring t ≡ b']' ∷ []) × IsSound list_ring t
unfolding sum
get_tx_data-Takes_example = get_tx_data-Takes list_ring sending 4 sending-IsSound

get_all-Takes_example :
    let (t, xss) = get_all list_ring sending (1 ∷ 2 ∷ []) in
    (concat xss ≡ 100 ∷ 3 ∷ 1 ∷ []) × (pending list_ring t ≡ 47 ∷ b']' ∷ []) × IsSound list_ring t
unfolding sum
get_all-Takes_example = get_all-Takes list_ring sending (1 ∷ 2 ∷ []) sending-IsSound

pending-run_tx_example :
    let (t, ran, called) = run_tx list_ring true sender in
    (pending list_ring t ≡ frame 50 (200 ∷ 100 ∷ 3 ∷ []))
    × (ran ≡ true)
    × (called ≡ true)
    × IsSound list_ring t
pending-run_tx_example =
    pending-run_tx list_ring sender true sender-IsSound refl refl (omega arith) (omega arith)

Step-IsSound_example : IsSound list_ring (update_tx list_ring sending 2)
Step-IsSound_example = Step-IsSound list_ring (notified 2) sending-IsSound

abbrev receiver : Rx (ListRing ℕ)
receiver = record {
  input = list_create 8;
  data_ready = false;
  expected_length = 0;
  type = se_none;
  state_byte_count = 0;
  checksum = 0;
  checksum_compare = 0;
  state = start_flag;
}

receiver-IsIdle : IsIdle receiver
receiver-IsIdle = record {
  waiting = refl;
  counter = refl;
  expected = refl;
  summed = refl;
  compared = refl;
}

delivery_example :
    let (t, pieces) = get_all list_ring (run_tx list_ring false sender).0 (5 ∷ 1 ∷ 20 ∷ []) in
    (u : Rx (ListRing ℕ)) × (put_all list_ring 20 receiver pieces ≡ some (u, true))
    × (pending list_ring t ≡ [])
    × ((run_rx list_ring u).2 ≡ some 50)
    × ((run_rx list_ring u).0.input.items ≡ 200 ∷ 100 ∷ 3 ∷ [])
    × IsIdle (run_rx list_ring u).0
unfolding sum
delivery_example =
    delivery list_ring list_ring 20 false sender receiver (5 ∷ 1 ∷ 20 ∷ []) sender-IsSound refl refl
      (omega arith) (omega arith) receiver-IsIdle refl refl (omega arith) (omega arith)
      (omega arith)
