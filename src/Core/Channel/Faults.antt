-- ===== src/Core/Channel/Faults.antt =====
-- `Channel_poll` over a memory of which only some addresses can be read: `castDataToFloat` reads through
-- `pollAddress`, whatever it holds, and the read of another address is a fault.
use se_scope_target.Prelude.{
  none, zero, suc, get_elem?, ℕ, ◌≡◌, refl, true, List, [], ◌∷◌, map, Option, some, if◌then◌else◌,
  arith, All, Option-cases, Bool-cases, inl, inr, or_else,
}
use se_scope_target.SeLib.Core.{CoreLib}
use se_scope_target.Core.Trigger.{◌>>=◌}
use se_scope_target.Core.Channel.{
  Channel, cast_word, cast_data_to_float, add_trigger_data, poll_running, is_running, poll,
}

-- What a memory reads as where it can be read.
abbrev pub readings : (ℕ → Option ℕ) → ℕ → ℕ
readings memory a = or_else (memory a) 0

module _ {F B S I : Type 0} (L : CoreLib F B S I) where
  -- `Channel_poll`, with its faults.
  unfoldable pub poll_faulting : Channel F B S → (ℕ → Option ℕ) → Option (Channel F B S)
  poll_faulting c memory =
      if is_running L c
      then (memory c.poll_address >>= λ w. some (poll_running L c (cast_word L c.poll_data_type w)))
      else some c

  -- The loop of `Scope_poll` over the channels.
  pub poll_channels : List (Channel F B S) → (ℕ → Option ℕ) → Option (List (Channel F B S))
  unfolding poll_faulting
  poll_channels [] memory = some []
  poll_channels (c ∷ cs) memory =
      poll_faulting c memory >>= λ d. poll_channels cs memory >>= λ ds. some (d ∷ ds)

  -- The channels that run have addresses that can be read.
  abbrev pub AllReadable : (ℕ → Option ℕ) → List (Channel F B S) → Type 0
  AllReadable memory cs =
      All (λ c. is_running L c ≡ true → (w : ℕ) × (memory c.poll_address ≡ some w)) cs

  poll_faulting_returns :
      (c : Channel F B S) (memory : ℕ → Option ℕ)
      → (is_running L c ≡ true → (w : ℕ) × (memory c.poll_address ≡ some w))
      → poll_faulting c memory ≡ some (poll L c (readings memory))
  unfolding poll_faulting poll cast_data_to_float
  poll_faulting_returns c memory h = elim (Bool-cases (is_running L c)) [
    | inl running ↦ let (w, e) = h running in ground arith
    | inr stopped ↦ ground arith
  ]

  poll_faulting-poll :
      (c d : Channel F B S) (memory : ℕ → Option ℕ)
      → poll_faulting c memory ≡ some d
      → d ≡ poll L c (readings memory)
  unfolding poll_faulting poll cast_data_to_float
  poll_faulting-poll c d memory e = elim (Bool-cases (is_running L c)) [
    | inl running ↦ elim (Option-cases (memory c.poll_address)) [
      | inl p ↦ ground arith
      | inr (w, p) ↦ ground arith
    ]
    | inr stopped ↦ ground arith
  ]

  -- If all can be read, the channels are polled.
  pub poll_channels_returns :
      (cs : List (Channel F B S)) (memory : ℕ → Option ℕ)
      → AllReadable memory cs
      → poll_channels cs memory ≡ some (map (λ c. poll L c (readings memory)) cs)
  unfolding poll_channels
  poll_channels_returns [] memory h = refl
  poll_channels_returns (c ∷ cs) memory (h, hs) =
      ground (arith, poll_faulting_returns c memory h, poll_channels_returns cs memory hs)

  -- If no read faults, the channels are polled.
  pub poll_channels-poll :
      (cs ds : List (Channel F B S)) (memory : ℕ → Option ℕ)
      → poll_channels cs memory ≡ some ds
      → ds ≡ map (λ c. poll L c (readings memory)) cs
  unfolding poll_channels
  poll_channels-poll [] ds memory e = ground arith
  poll_channels-poll (c ∷ cs) ds memory e = elim (Option-cases (poll_faulting c memory)) [
    | inl p ↦ ground arith
    | inr (d, p) ↦ elim (Option-cases (poll_channels cs memory)) [
      | inl q ↦ ground arith
      | inr (rest, q) ↦
          ground (arith, poll_faulting-poll c d memory p, poll_channels-poll cs rest memory q)
    ]
  ]

  -- If the address of a channel that runs cannot be read, the loop faults.
  pub poll_channels_faults :
      (cs : List (Channel F B S)) (i : ℕ) (c : Channel F B S) (memory : ℕ → Option ℕ)
      → get_elem? cs i ≡ some c
      → is_running L c ≡ true
      → memory c.poll_address ≡ none
      → poll_channels cs memory ≡ none
  unfolding poll_channels poll_faulting
  poll_channels_faults [] i c memory e running h = ground arith
  poll_channels_faults (d ∷ cs) zero c memory e running h = ground arith
  poll_channels_faults (d ∷ cs) (suc i) c memory e running h =
      let rest = poll_channels_faults cs i c memory e running h in
      elim (Option-cases (poll_faulting d memory)) [
        | inl p ↦ ground arith
        | inr (d', p) ↦ ground arith
      ]

  pub poll_keeps_address :
      (c : Channel F B S) (memory : ℕ → ℕ)
      → ((poll L c memory).poll_address ≡ c.poll_address) × ((poll L c memory).state ≡ c.state)
  unfolding poll poll_running add_trigger_data
  poll_keeps_address c memory = elim (Bool-cases (is_running L c)) [
    | inr stopped ↦ ground arith
    | inl running ↦
        let x = cast_data_to_float L c memory in
        let c' = add_trigger_data L c x in
        elim (Option-cases (L.ring.write c'.poll_buffer (x ∷ []))) [
          | inl p ↦ ground arith
          | inr (b, p) ↦ ground arith
        ]
  ]
