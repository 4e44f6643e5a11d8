-- ===== src/Serialisation/Unpacker/Sizes.antt =====
-- `NanopbUnpacker_calculateBufferSize` against the sizes of the messages.
use se_scope_target.Prelude.{ℕ, ◌≤◌, List, [], ◌∷◌, if◌then◌else◌, arith, All, ltb}
use se_scope_target.Serialisation.Unpacker.{biggest, calculate_buffer_size, message_sizes}

biggest_start : (b : ℕ) (ns : List ℕ) → b ≤ biggest b ns
unfolding biggest
biggest_start b [] = omega arith
biggest_start b (n ∷ ns) = ground (arith, biggest_start (if ltb b n then n else b) ns)

biggest-All : (b : ℕ) (ns : List ℕ) → All (λ n. n ≤ biggest b ns) ns
unfolding biggest
biggest-All b [] = tt
biggest-All b (n ∷ ns) = (
  ground (arith, biggest_start (if ltb b n then n else b) ns),
  biggest-All (if ltb b n then n else b) ns,
)

-- The input buffer has room for each message of the host at its maximal size, with an entry for each
-- channel.
pub message_sizes_fit :
    (max_channels : ℕ)
    → All (λ n. n ≤ calculate_buffer_size max_channels) (message_sizes max_channels)
unfolding calculate_buffer_size
message_sizes_fit max_channels = biggest-All 0 (message_sizes max_channels)
