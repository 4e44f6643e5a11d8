-- ===== src/Core/Scope/Calls.antt =====
-- Everything that the rest of the program does to a scope, in any order, over a memory of which some
-- addresses can be read; the addresses that are configured are of those.
use se_scope_target.Prelude.{
  ℕ, ◌<◌, ◌≡◌, ◌≢◌, ◌∙◌, Bool, true, List, map, none, some, arith, length, length-map, Option,
}
use se_scope_target.ScopeTypes.{TriggerConfiguration, MessageType, DataType}
use se_scope_target.SeLib.Core.{CoreLib}
use se_scope_target.Core.Channel.{Channel}
use se_scope_target.Core.Channel
use se_scope_target.Core.Timestamper
use se_scope_target.Core.Trigger.{Trigger}
use se_scope_target.Core.Trigger.Machine.Invariant.{IsSound, create-IsSound, length-create}
use se_scope_target.Core.Scope.{
  Scope, configure_channel, configure_trigger, configure_timestamp_increment, set_channel_running,
  set_channel_stopped, clear, create,
}
use se_scope_target.Core.Scope.Safety.{poll-Keeps}
use se_scope_target.Core.Channel.Faults.{readings}
use se_scope_target.Core.Trigger.Machine.Addresses.{AllBacked}
use se_scope_target.Core.Scope.Faults.{poll_faulting, poll_faulting-poll, poll_faulting_returns}
use se_scope_target.Core.Scope.Keeping.{
  Keeps, configure_channel-Keeps, configure_trigger-Keeps, set_channel_running-Keeps,
  set_channel_stopped-Keeps, clear-Keeps, increment-Keeps,
}
use se_scope_target.Core.Scope.Addresses.{
  poll-AllBacked, configure_channel-AllBacked, configure_trigger-AllBacked, increment-AllBacked,
  set_channel_running-AllBacked, set_channel_stopped-AllBacked, clear-AllBacked,
  scope_create-AllBacked, AllBacked-AllReadable,
}

module _ {F B S I : Type 0} (L : CoreLib F B S I) (IsReadable : ℕ → Type 0) where
  -- A call of one of the scope's operations, and the scope after it.
  pub data Call (s : Scope F B S I) : Scope F B S I → Type 0 where
    polls :
        {s' : Scope F B S I} (memory : ℕ → Option ℕ) (attached : Bool) (now : ℕ) (running : Bool)
        (sent : List MessageType)
        → poll_faulting L s memory attached now ≡ some (s', running, sent)
        → Call s s'
    configures_channel :
        (id address : ℕ) (type : DataType)
        → IsReadable address
        → Call s (configure_channel L s id address type)
    configures_trigger :
        {s' : Scope F B S I} (conf : TriggerConfiguration F)
        → configure_trigger L s conf ≡ some s'
        → Call s s'
    configures_increment : (n : ℕ) → Call s (configure_timestamp_increment L s n)
    sets_running : (id : ℕ) → Call s (set_channel_running L s id)
    sets_stopped : (id : ℕ) → Call s (set_channel_stopped L s id)
    clears : Call s (clear L s)

  -- The scopes that calls lead to, from one that was created over the given memory.
  pub data Reached (size : ℕ) (raws : List (Channel F B S)) (raw : Trigger F)
      : Scope F B S I → Type 0 where
    created : Reached size raws raw (create L size raws raw)
    called : {s s' : Scope F B S I} → Reached size raws raw s → Call s s' → Reached size raws raw s'

  Call-Keeps : {s s' : Scope F B S I} → Call s s' → IsSound L s.rig → Keeps L s s'
  Call-Keeps {s} {s'} (polls memory attached now running sent e) v =
      let kept = poll-Keeps L s (readings memory) now v in
      ground (arith, poll_faulting-poll L s memory attached now (s', running, sent) e)
  Call-Keeps {s} (configures_channel id address type readable) v =
      configure_channel-Keeps L s id address type v
  Call-Keeps {s} {s'} (configures_trigger conf e) v =
      let kept = configure_trigger-Keeps L s conf v in ground arith
  Call-Keeps {s} (configures_increment n) v = increment-Keeps L s n v
  Call-Keeps {s} (sets_running id) v = set_channel_running-Keeps L s id v
  Call-Keeps {s} (sets_stopped id) v = set_channel_stopped-Keeps L s id v
  Call-Keeps {s} clears v = clear-Keeps L s v

  pub Reached-Keeps :
      (size : ℕ) (raws : List (Channel F B S)) (raw : Trigger F) {s : Scope F B S I}
      → 0 < length raws
      → Reached size raws raw s
      → IsSound L s.rig × (length s.rig.channels ≡ length raws)
  unfolding create
  Reached-Keeps size raws raw h created =
      let cs = map (λ c. Channel.create L c size) raws in
      let n = length-map (λ c. Channel.create L c size) raws in
      let t = Timestamper.create L.ints size in
      (create-IsSound L raw cs size t (omega arith), length-create L raw cs size t ∙ n)
  Reached-Keeps size raws raw h (called {s} r c) =
      let (v, n) = Reached-Keeps size raws raw h r in let (w, m) = Call-Keeps c v in (w, m ∙ n)

  Call-AllBacked :
      {s s' : Scope F B S I}
      → Call s s'
      → AllBacked L IsReadable s.rig.channels
      → AllBacked L IsReadable s'.rig.channels
  Call-AllBacked {s} {s'} (polls memory attached now running sent e) v =
      poll-AllBacked L IsReadable s (s', running, sent) (readings memory) now v
        (poll_faulting-poll L s memory attached now (s', running, sent) e)
  Call-AllBacked {s} (configures_channel id address type readable) v =
      configure_channel-AllBacked L IsReadable s id address type v readable
  Call-AllBacked {s} {s'} (configures_trigger conf e) v =
      configure_trigger-AllBacked L IsReadable s s' conf v e
  Call-AllBacked {s} (configures_increment n) v = increment-AllBacked L IsReadable s n v
  Call-AllBacked {s} (sets_running id) v = set_channel_running-AllBacked L IsReadable s id v
  Call-AllBacked {s} (sets_stopped id) v = set_channel_stopped-AllBacked L IsReadable s id v
  Call-AllBacked {s} clears v = clear-AllBacked L IsReadable s v

  Reached-AllBacked :
      (size : ℕ) (raws : List (Channel F B S)) (raw : Trigger F) {s : Scope F B S I}
      → Reached size raws raw s
      → AllBacked L IsReadable s.rig.channels
  Reached-AllBacked size raws raw created = scope_create-AllBacked L IsReadable size raws raw
  Reached-AllBacked size raws raw (called r c) =
      Call-AllBacked c (Reached-AllBacked size raws raw r)

  -- A scope of at least one channel, after any calls of its operations that returned, in any order, with
  -- any ids, triggers, time increments and times, where each address that was configured is one that
  -- can be read: it still has its channels; the next poll returns, without a read through another
  -- address, if its observer is attached and these addresses can be read; and the next configuration
  -- of the trigger returns.
  pub Reached-Returns :
      (size : ℕ) (raws : List (Channel F B S)) (raw : Trigger F) {s : Scope F B S I}
      (memory : ℕ → Option ℕ) (now : ℕ) (conf : TriggerConfiguration F)
      → 0 < length raws
      → ((a : ℕ) → IsReadable a → (w : ℕ) × (memory a ≡ some w))
      → Reached size raws raw s
      → (length s.rig.channels ≡ length raws)
        × (poll_faulting L s memory true now ≢ none)
        × (configure_trigger L s conf ≢ none)
  Reached-Returns size raws raw {s} memory now conf h reads r =
      let (v, n) = Reached-Keeps size raws raw h r in
      let backed = Reached-AllBacked size raws raw r in
      let polled = poll-Keeps L s (readings memory) now v in
      let same =
        poll_faulting_returns L s memory now
          (AllBacked-AllReadable L IsReadable memory s.rig.channels reads backed) in
      let configured = configure_trigger-Keeps L s conf v in (n, ground arith, ground arith)
