-- ===== src/Control/Commands/Amount.antt =====
-- A command keeps the amount of channels.
use se_scope_target.Prelude.{ℕ, ◌≡◌, List, map, some, if◌then◌else◌, arith, ltb}
use se_scope_target.SeLib.Core.{CoreLib}
use se_scope_target.ScopeTypes.{MessageType}
use se_scope_target.Core.Scope.{Scope}
use se_scope_target.Control.Commands.{
  Commands, Unpacker, RunningEntry, AddrEntry, set_running_attributes, set_addr_attributes,
  parse_running, parse_addr, parse_t_inc, parse_trigger, dispatch, entries, running_entry,
  addr_entry,
}

module _ {F B S I : Type 0} (L : CoreLib F B S I) where
  amount-set_running_attributes :
      (c : Commands F) (es : List RunningEntry)
      → (set_running_attributes c es).amount_of_channels ≡ c.amount_of_channels
  unfolding set_running_attributes
  amount-set_running_attributes c es = ground arith

  amount-set_addr_attributes :
      (c : Commands F) (es : List AddrEntry)
      → (set_addr_attributes c es).amount_of_channels ≡ c.amount_of_channels
  unfolding set_addr_attributes
  amount-set_addr_attributes c es = ground arith

  abbrev pub KeepsAmount : Commands F → Commands F × Scope F B S I × List MessageType → Type 0
  KeepsAmount c r = r.0.amount_of_channels ≡ c.amount_of_channels

  pub amount-dispatch :
      (c : Commands F) (u : Unpacker F) (s : Scope F B S I) (memory : ℕ → ℕ) (now : ℕ)
      (type : MessageType) (r : Commands F × Scope F B S I × List MessageType)
      → dispatch L c u s memory now type ≡ some r
      → KeepsAmount c r
  unfolding dispatch parse_running parse_addr parse_t_inc parse_trigger
  amount-dispatch c u s memory now type r e =
      let es = map running_entry (entries u.cf_running_get_channel 0 u.cf_running_get_amount) in
      let amount =
        if ltb c.amount_of_channels u.cf_address_get_amount
        then c.amount_of_channels
        else u.cf_address_get_amount in
      let places = map addr_entry (entries u.cf_address_get_channel 0 amount) in
      ground (arith, e, amount-set_running_attributes c es, amount-set_addr_attributes c places)
