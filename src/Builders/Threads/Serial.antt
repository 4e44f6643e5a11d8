-- ===== src/Builders/Threads/Serial.antt =====
-- Every interleaving of the threads has the effect of whole blocks in turn.
use se_scope_target.Prelude.{◌≡◌, refl, true, List, [], ◌∷◌, ◌++◌, arith}
use se_scope_target.Builders.{ScopeRunnable, transmit, run}
use se_scope_target.Builders.Threads.{
  StackPc, World, ScopeStep, StackStep, Reached, started, stack_aggregated, stack_packed,
  scope_locks_config, scope_wants_data, scope_rests, scope_locks_data, scope_skips, scope_runs,
  scope_unlocks_data, scope_unlocks_config, receives, unpacks, finds_command, finds_none,
  stack_locks_config, skips_command, parses, stack_unlocks_config, stack_locks_data, skips_sending,
  aggregates, packs, sends, stack_unlocks_data, at_start, scope_steps, stack_steps, wants_data,
}
use se_scope_target.Builders.Threads.Exclusion.{IsExclusive, Reached-IsExclusive}

-- What runs undisturbed: one call, or the three calls that send.
pub data Block : Type 0 where
  receive_block unpack_block parse_block scope_block transmit_block : Block

module _ {T : Type 0} (S : ScopeRunnable T) where
  abbrev pub run_block : T → Block → T
  run_block s receive_block = S.run_communication_rx s
  run_block s unpack_block = S.run_unpacker s
  run_block s parse_block = S.run_command_parser s
  run_block s scope_block = S.run_scope s
  run_block s transmit_block = transmit S s

  abbrev pub run_blocks : T → List Block → T
  run_blocks s [] = s
  run_blocks s (b ∷ bs) = run_blocks (run_block s b) bs

  -- The part of the sending that a stack thread has done.
  abbrev pub unfinished : StackPc → T → T
  unfinished stack_aggregated s = S.run_data_aggregator s
  unfinished stack_packed s = S.run_packer (S.run_data_aggregator s)
  unfinished _ s = s

  pub run_blocks-append :
      (s : T) (bs : List Block) (b : Block)
      → run_blocks s (bs ++ (b ∷ [])) ≡ run_block (run_blocks s bs) b
  run_blocks-append s [] b = refl
  run_blocks-append s (c ∷ bs) b = run_blocks-append (run_block s c) bs b

  abbrev Serial : T → World T → Type 0
  Serial s w = (bs : List Block) × (w.state ≡ unfinished w.stack (run_blocks s bs))

  ScopeStep-Serial :
      (s : T) {v w : World T} → ScopeStep S v w → IsExclusive v → Serial s v → Serial s w
  ScopeStep-Serial s (scope_locks_config h l) i x = x
  ScopeStep-Serial s (scope_wants_data h l) i x = x
  ScopeStep-Serial s (scope_rests h l) i x = x
  ScopeStep-Serial s (scope_locks_data h l) i x = x
  ScopeStep-Serial s (scope_skips h) i x = x
  ScopeStep-Serial s (scope_unlocks_data h) i x = x
  ScopeStep-Serial s (scope_unlocks_config h) i x = x
  ScopeStep-Serial s (scope_runs h) i (bs, e) =
      (bs ++ (scope_block ∷ []), ground (arith, run_blocks-append s bs scope_block))

  StackStep-Serial : (s : T) {v w : World T} → StackStep S v w → Serial s v → Serial s w
  StackStep-Serial s (receives h) (bs, e) =
      (bs ++ (receive_block ∷ []), ground (arith, run_blocks-append s bs receive_block))
  StackStep-Serial s (unpacks h) (bs, e) =
      (bs ++ (unpack_block ∷ []), ground (arith, run_blocks-append s bs unpack_block))
  StackStep-Serial s (parses h) (bs, e) =
      (bs ++ (parse_block ∷ []), ground (arith, run_blocks-append s bs parse_block))
  StackStep-Serial s (sends h) (bs, e) =
      (bs ++ (transmit_block ∷ []), ground (arith, run_blocks-append s bs transmit_block))
  StackStep-Serial s (finds_command h l) (bs, e) = (bs, ground arith)
  StackStep-Serial s (finds_none h l) (bs, e) = (bs, ground arith)
  StackStep-Serial s (stack_locks_config h l) (bs, e) = (bs, ground arith)
  StackStep-Serial s (skips_command h) (bs, e) = (bs, ground arith)
  StackStep-Serial s (stack_unlocks_config h) (bs, e) = (bs, ground arith)
  StackStep-Serial s (stack_locks_data h l) (bs, e) = (bs, ground arith)
  StackStep-Serial s (skips_sending h) (bs, e) = (bs, ground arith)
  StackStep-Serial s (aggregates h) (bs, e) = (bs, ground arith)
  StackStep-Serial s (packs h) (bs, e) = (bs, ground arith)
  StackStep-Serial s (stack_unlocks_data h) (bs, e) = (bs, ground arith)

  -- Every interleaving of the two threads has the effect of a sequence of whole blocks: single calls,
  -- and the aggregator, the packer and the sender together; of the last block a stack thread may have
  -- done the first one or two calls.
  pub Reached-Serial :
      (s : T) {w : World T}
      → Reached S s w
      → (bs : List Block) × (w.state ≡ unfinished w.stack (run_blocks s bs))
  Reached-Serial s at_start = ([], refl)
  Reached-Serial s (scope_steps r step) =
      ScopeStep-Serial s step (Reached-IsExclusive S s r) (Reached-Serial s r)
  Reached-Serial s (stack_steps r step) = StackStep-Serial s step (Reached-Serial s r)

  -- One pass of both threads, in which the scope's comes behind the command parser and no lock fails, does
  -- what `ScopeRunner_run` does, if there is a command and the scope then wants to run.
  pub Reached-run :
      (s : T)
      → S.command_pending (S.run_unpacker (S.run_communication_rx s)) ≡ true
      → wants_data S (S.run_command_parser (S.run_unpacker (S.run_communication_rx s))) ≡ true
      → Reached S s (started (run S s))
  unfolding run
  Reached-run s pending wants =
      let r1 = stack_steps at_start (receives refl) in
      let r2 = stack_steps r1 (unpacks refl) in
      let r3 = stack_steps r2 (finds_command refl pending) in
      let r4 = stack_steps r3 (stack_locks_config refl refl) in
      let r5 = stack_steps r4 (parses refl) in
      let r6 = stack_steps r5 (stack_unlocks_config refl) in
      let r7 = scope_steps r6 (scope_locks_config refl refl) in
      let r8 = scope_steps r7 (scope_wants_data refl wants) in
      let r9 = scope_steps r8 (scope_locks_data refl refl) in
      let r10 = scope_steps r9 (scope_runs refl) in
      let r11 = scope_steps r10 (scope_unlocks_data refl) in
      let r12 = scope_steps r11 (scope_unlocks_config refl) in
      let r13 = stack_steps r12 (stack_locks_data refl refl) in
      let r14 = stack_steps r13 (aggregates refl) in
      let r15 = stack_steps r14 (packs refl) in
      let r16 = stack_steps r15 (sends refl) in stack_steps r16 (stack_unlocks_data refl)
