-- ===== src/Control/Commands.antt =====
-- src/Control/Commands and src/Control/CommandParserDispatcher.c: the commands of the host. A parser
-- takes its arguments from the unpacker and stores them in its command, which then runs on the scope.
-- The parallel arrays of a configuration are one list, as long as `numberOfChangedChannels`. A command
-- tells the pack observer the messages in its result; `none` is a fault.
pub mod Safety
pub mod Answers
pub mod Accepted
pub mod Amount
mod Tests
use se_scope_target.Prelude.{
  ℕ, zero, suc, ◌+◌, ◌-◌, ◌*◌, ◌/◌, ◌%◌, ◌^◌, ◌<◌, ◌≤◌, ◌≡◌, ◌≢◌, refl, subst, ap, sym, ◌∙◌,
  fun_ext, Bool, true, false, not, ◌||◌, ◌&&◌, List, [], ◌∷◌, ◌++◌, map, Option, none, some,
  if◌then◌else◌, arith, length, append-nil, append_assoc, length-append, length-map, get_elem?-map,
  get_elem?_bound, get_elem?_total, All, Option-cases, Bool-cases, ◌⊎◌, inl, inr, ◌↔◌, u8, u16, u32,
  bool_eq, Returns, Returns-cases, ltb, leb, concat, take_add, drop_add, ◌==◌, or_else, min, take,
  drop, length-take, length-drop, take-append-drop, take-append_ge, take-append_le, drop-append_ge,
  drop-append_le, take_of_length_le, take_last, take_last-append, drop_of_length_le, replicate,
  get_elem?, set, length-set, get_elem?-set_self, get_elem?-set_ne, dec_lt, ℕ_discrete, ==_iff,
}
use se_scope_target.SeLib.Core.{CoreLib}
use se_scope_target.ScopeTypes.{
  MessageType, DataType, TriggerConfiguration, ChannelState, channel_running, channel_stopped,
  se_ack, sc_announce, sc_detect, cf_running, ev_poll, cf_addr, cf_t_inc, ev_trans, cf_trigger,
  ev_announce, ev_clear, ev_detect,
}
use se_scope_target.Core.Trigger.{◌>>=◌}
use se_scope_target.Core.Scope.{
  Scope, transmit, set_channel_running, set_channel_stopped, configure_channel, configure_trigger,
  configure_timestamp_increment,
}
use se_scope_target.Core.Scope

-- CfRunningDef, CfTriggerDef and CfAddressDef
pub record CfRunningDef : Type 0 where
  pub id : ℕ
  pub new_state : Bool

pub record CfTriggerDef (F : Type 0) : Type 0 where
  pub level : F
  pub edge : Bool
  pub mode : ℕ
  pub channel_id : ℕ

pub record CfAddressDef : Type 0 where
  pub id : ℕ
  pub address : ℕ
  pub type : DataType

-- What the getters of IUnpacker return for the message that was unpacked last.
pub record Unpacker (F : Type 0) : Type 0 where
  pub cf_running_get_amount : ℕ
  pub cf_running_get_channel : ℕ → CfRunningDef
  pub cf_trigger_get_trigger_config : CfTriggerDef F
  pub cf_t_inc_get_inc : ℕ
  pub cf_address_get_amount : ℕ
  pub cf_address_get_channel : ℕ → CfAddressDef

-- An entry of CommandRunningConf, and of CommandAddrConf, where the null pointer is 0.
pub record RunningEntry : Type 0 where
  pub changed_channel : ℕ
  pub new_state : ChannelState

pub record AddrEntry : Type 0 where
  pub changed_channel : ℕ
  pub new_address : ℕ
  pub type : DataType

-- The commands that keep data; `amount_of_channels` is that of the scope.
pub record Commands (F : Type 0) : Type 0 where
  pub amount_of_channels : ℕ
  pub addr_config : List AddrEntry
  pub running_config : List RunningEntry
  pub time_increment : ℕ
  pub trigger_config : TriggerConfiguration F

-- The commands as `CommandParserDispatcher_create` makes them; `raw` is what the memory holds in the
-- configuration of the trigger.
unfoldable pub create_commands : {F : Type 0} → TriggerConfiguration F → ℕ → Commands F
create_commands raw amount = record {
  amount_of_channels = amount;
  addr_config = [];
  running_config = [];
  time_increment = 0;
  trigger_config = raw;
}

-- The entries `i` to `i + n - 1` of a getter.
unfoldable pub entries : {A : Type 0} → (ℕ → A) → ℕ → ℕ → List A
entries get i zero = []
entries get i (suc n) = get i ∷ entries get (i + 1) n

-- The checks of `CommandAddr_setAttributes` and of `CommandRunning_setAttributes` on the entries.
pub addr_entries_pass : ℕ → List AddrEntry → Bool
addr_entries_pass amount [] = true
addr_entries_pass amount (e ∷ es) =
    if ltb amount e.changed_channel
    then false
    else if e.new_address == 0
    then false
    else addr_entries_pass amount es

abbrev pub is_startable : ChannelState → Bool
is_startable channel_stopped = true
is_startable channel_running = true
is_startable _ = false

pub running_entries_pass : ℕ → List RunningEntry → Bool
running_entries_pass amount [] = true
running_entries_pass amount (e ∷ es) =
    if ltb amount e.changed_channel
    then false
    else if not (is_startable e.new_state)
    then false
    else running_entries_pass amount es

pub set_addr_attributes : {F : Type 0} → Commands F → List AddrEntry → Commands F
unfolding addr_entries_pass
set_addr_attributes c conf =
    if ltb c.amount_of_channels (length conf)
    then c
    else if addr_entries_pass c.amount_of_channels conf
    then record c { addr_config = conf }
    else c

pub set_running_attributes : {F : Type 0} → Commands F → List RunningEntry → Commands F
unfolding running_entries_pass
set_running_attributes c conf =
    if ltb c.amount_of_channels (length conf)
    then c
    else if running_entries_pass c.amount_of_channels conf
    then record c { running_config = conf }
    else c

abbrev pub addr_entry : CfAddressDef → AddrEntry
addr_entry d = record { changed_channel = d.id; new_address = d.address; type = d.type }

abbrev pub running_entry : CfRunningDef → RunningEntry
running_entry d = record {
  changed_channel = d.id;
  new_state = if d.new_state then channel_running else channel_stopped;
}

-- `CommandAddrParser_getCommand`
pub parse_addr : {F : Type 0} → Commands F → Unpacker F → Commands F
unfolding entries set_addr_attributes
parse_addr c u =
    let amount =
      if ltb c.amount_of_channels u.cf_address_get_amount
      then c.amount_of_channels
      else u.cf_address_get_amount in
    set_addr_attributes c (map addr_entry (entries u.cf_address_get_channel 0 amount))

-- `CommandRunningParser_getCommand`: it writes to arrays of `amountOfChannels` entries, and it is a
-- fault if there are more.
pub parse_running : {F : Type 0} → Commands F → Unpacker F → Option (Commands F)
unfolding entries set_running_attributes
parse_running c u =
    if ltb c.amount_of_channels u.cf_running_get_amount
    then none
    else some (
        set_running_attributes c
          (map running_entry (entries u.cf_running_get_channel 0 u.cf_running_get_amount)))

-- `CommandTIncParser_getCommand` and `CommandTriggerParser_getCommand`
pub parse_t_inc : {F : Type 0} → Commands F → Unpacker F → Commands F
parse_t_inc c u = record c { time_increment = u.cf_t_inc_get_inc }

pub parse_trigger : {F : Type 0} → Commands F → Unpacker F → Commands F
parse_trigger c u =
    let t = u.cf_trigger_get_trigger_config in
    record c {
      trigger_config = record {
        level = t.level;
        edge = t.edge;
        mode = t.mode;
        channel_id = t.channel_id;
      };
    }

module _ {F B S I : Type 0} (L : CoreLib F B S I) where
  -- The `run` functions of the commands. That of CommandAddr and of CommandRunning loops over its
  -- entries, and returns in the middle at a channel that does not exist.
  pub run_addr : ℕ → Scope F B S I → List AddrEntry → Scope F B S I × List MessageType
  run_addr amount s [] = (s, se_ack ∷ [])
  run_addr amount s (e ∷ es) =
      if leb amount e.changed_channel
      then (s, [])
      else run_addr amount (configure_channel L s e.changed_channel e.new_address e.type) es

  pub change_state : Scope F B S I → RunningEntry → Scope F B S I
  change_state s e = elim e.new_state [
    | channel_running ↦ set_channel_running L s e.changed_channel
    | channel_stopped ↦ set_channel_stopped L s e.changed_channel
    | _ ↦ s
  ]

  pub run_running : ℕ → Scope F B S I → List RunningEntry → Scope F B S I × List MessageType
  unfolding change_state
  run_running amount s [] = (s, se_ack ∷ [])
  run_running amount s (e ∷ es) =
      if leb amount e.changed_channel then (s, []) else run_running amount (change_state s e) es

  -- CommandPoll, whose scope may tell the observer of data before the acknowledge.
  pub run_poll : Scope F B S I → (ℕ → ℕ) → ℕ → Option (Scope F B S I × List MessageType)
  run_poll s memory now = Scope.poll L s memory now >>= λ r. some (r.0, r.2 ++ (se_ack ∷ []))

  pub run_trigger :
      Scope F B S I → TriggerConfiguration F → Option (Scope F B S I × List MessageType)
  run_trigger s conf = configure_trigger L s conf >>= λ s'. some (s', se_ack ∷ [])

  abbrev pub run_t_inc : Scope F B S I → ℕ → Scope F B S I × List MessageType
  run_t_inc s n = (configure_timestamp_increment L s n, se_ack ∷ [])

  abbrev pub run_trans : Scope F B S I → Scope F B S I × List MessageType
  run_trans s = (s, transmit L)

  abbrev pub run_clear : Scope F B S I → Scope F B S I × List MessageType
  run_clear s = (Scope.clear L s, se_ack ∷ [])

  abbrev pub run_announce : Scope F B S I → Scope F B S I × List MessageType
  run_announce s = (s, sc_announce ∷ [])

  abbrev pub run_detect : Scope F B S I → Scope F B S I × List MessageType
  run_detect s = (s, sc_detect ∷ [])

  abbrev pub with_commands :
      Commands F
      → Scope F B S I × List MessageType
      → Option (Commands F × Scope F B S I × List MessageType)
  with_commands c r = some (c, r.0, r.1)

  -- `CommandParserDispatcher_run`, and the `run` of the command that it returns, if there is one.
  pub dispatch :
      Commands F
      → Unpacker F
      → Scope F B S I
      → (ℕ → ℕ)
      → ℕ
      → MessageType
      → Option (Commands F × Scope F B S I × List MessageType)
  unfolding parse_addr parse_running parse_t_inc parse_trigger run_addr run_running run_poll
      run_trigger
  dispatch c u s memory now type =
      if type == cf_running
      then (parse_running c u >>= λ c'.
          with_commands c' (run_running c'.amount_of_channels s c'.running_config))
      else if type == ev_poll
      then (run_poll s memory now >>= λ r. with_commands c r)
      else if type == cf_addr
      then (let c' = parse_addr c u in
          with_commands c' (run_addr c'.amount_of_channels s c'.addr_config))
      else if type == cf_t_inc
      then (let c' = parse_t_inc c u in with_commands c' (run_t_inc s c'.time_increment))
      else if type == ev_trans
      then with_commands c (run_trans s)
      else if type == cf_trigger
      then (let c' = parse_trigger c u in
          run_trigger s c'.trigger_config >>= λ r. with_commands c' r)
      else if type == ev_announce
      then with_commands c (run_announce s)
      else if type == ev_clear
      then with_commands c (run_clear s)
      else if type == ev_detect
      then with_commands c (run_detect s)
      else with_commands c (s, [])
