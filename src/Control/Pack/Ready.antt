-- ===== src/Control/Pack/Ready.antt =====
-- The calls of CommandPackData, as a list of the channels that are ready.
use se_scope_target.Prelude.{
  Option, ℕ, zero, suc, ◌+◌, ◌≤◌, ◌≡◌, refl, ap, ◌∙◌, List, [], ◌∷◌, ◌++◌, map, none, some,
  if◌then◌else◌, arith, length,
}
use se_scope_target.SeLib.Core.{CoreLib}
use se_scope_target.SeLib.Stream.{Stream}
use se_scope_target.Core.Scope.{
  Scope, get_trigger_data, channel_has_to_be_packed, get_channel_buffer,
}
use se_scope_target.ScopeTypes.{sc_data}
use se_scope_target.Control.AnnounceStorage.{AnnounceStorage}
use se_scope_target.Control.Pack.{
  PackerCall, add_channel, add_trigger, add_timestamp, add_time_increment, pack_channels, pack_data,
  dispatch_pack, is_empty,
}

module _ {F B S I : Type 0} (L : CoreLib F B S I) where
  -- The channels from `i` on, `n` of them, that have a full swap buffer.
  abbrev pub ready : Scope F B S I → ℕ → ℕ → List (ℕ × B)
  ready s i zero = []
  ready s i (suc n) =
      let rest = ready s (i + 1) n in
      if channel_has_to_be_packed L s i
      then (elim (get_channel_buffer L s i) [ none ↦ rest | some b ↦ (i, b) ∷ rest ])
      else rest

  abbrev pub ready_channels : Scope F B S I → List (ℕ × B)
  ready_channels s = ready s 0 (length s.rig.channels)

  abbrev pub calls_of : {V : Type 0} → List (ℕ × B) → List (PackerCall F B I V)
  calls_of cs = map (λ (c : ℕ × B). add_channel c.0 c.1) cs

  -- The calls that follow those for the channels, if there are any.
  abbrev pub data_calls : {V : Type 0} → Scope F B S I → List (ℕ × B) → List (PackerCall F B I V)
  data_calls s [] = []
  data_calls s (c ∷ cs) =
      calls_of (c ∷ cs)
      ++ (add_trigger (get_trigger_data L s)
          ∷ add_timestamp s.rig.timestamper.swap_timestamps
          ∷ add_time_increment s.rig.timestamper.time_increment
          ∷ [])

  abbrev after_channels : {V : Type 0} → Scope F B S I → List (PackerCall F B I V)
  after_channels s =
      add_trigger (get_trigger_data L s)
      ∷ add_timestamp s.rig.timestamper.swap_timestamps
      ∷ add_time_increment s.rig.timestamper.time_increment
      ∷ []

  pub length-ready : (s : Scope F B S I) (i n : ℕ) → length (ready s i n) ≤ n
  length-ready s i zero = omega arith
  length-ready s i (suc n) = ground (arith, length-ready s (i + 1) n)

  module _ {Y : Type 0} (V : Type 0) (bytes : Stream ℕ Y) where
    pack_channels-ready :
        (s : Scope F B S I) (i n : ℕ) → pack_channels {V = V} L bytes s i n ≡ calls_of (ready s i n)
    unfolding pack_channels
    pack_channels-ready s i zero = refl
    pack_channels-ready s i (suc n) = ground (arith, pack_channels-ready s (i + 1) n)

    calls_or_none :
        (s : Scope F B S I) (cs : List (ℕ × B))
        → (if is_empty L bytes (calls_of {V = V} cs)
            then []
            else calls_of {V = V} cs ++ after_channels s)
          ≡ data_calls s cs
    calls_or_none s [] = refl
    calls_or_none s (c ∷ cs) = refl

    pub pack_data-ready :
        (s : Scope F B S I) → pack_data {V = V} L bytes s ≡ data_calls s (ready_channels s)
    unfolding pack_data
    pack_data-ready s =
        ap (λ calls. if is_empty L bytes calls then [] else calls ++ after_channels s)
          (pack_channels-ready s 0 (length s.rig.channels))
        ∙ calls_or_none s (ready_channels s)

    pub dispatch_pack_data :
        (s : Scope F B S I) (storage : Option (AnnounceStorage F V)) (log : Y)
        → dispatch_pack L bytes s storage log sc_data ≡ (log, pack_data L bytes s)
    unfolding dispatch_pack
    dispatch_pack_data s storage log = refl
