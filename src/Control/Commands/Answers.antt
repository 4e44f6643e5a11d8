-- ===== src/Control/Commands/Answers.antt =====
-- What a command with entries does and answers, and what becomes of a configuration that is refused.
use se_scope_target.Prelude.{
  ℕ, ◌<◌, ◌≤◌, ◌≡◌, true, List, [], ◌∷◌, map, some, arith, length, All, ◌↔◌, min, ◌++◌, ◌⊎◌, inl,
  inr, refl, ap, subst, dec_lt,
}
use se_scope_target.SeLib.Core.{CoreLib}
use se_scope_target.ScopeTypes.{se_ack, cf_addr}
use se_scope_target.Core.Scope.{Scope, configure_channel}
use se_scope_target.Control.Commands.{
  Unpacker, RunningEntry, AddrEntry, Commands, entries, addr_entries_pass, running_entries_pass,
  is_startable, set_addr_attributes, addr_entry, parse_addr, run_addr, change_state, run_running,
  dispatch,
}

-- What the checks of CommandAddr and CommandRunning let pass: as many entries as there are channels,
-- with ids up to the amount of channels, and with addresses, or with states that can be set.
abbrev pub AddrPasses : ℕ → List AddrEntry → Type 0
AddrPasses amount es =
    (length es ≤ amount)
    × All (λ (e : AddrEntry). (e.changed_channel ≤ amount) × (0 < e.new_address)) es

abbrev pub RunningPasses : ℕ → List RunningEntry → Type 0
RunningPasses amount es =
    (length es ≤ amount)
    × All (λ (e : RunningEntry). (e.changed_channel ≤ amount) × (is_startable e.new_state ≡ true))
        es

addr_entries_pass_iff :
    (amount : ℕ) (es : List AddrEntry)
    → (addr_entries_pass amount es ≡ true)
      ↔ All (λ (e : AddrEntry). (e.changed_channel ≤ amount) × (0 < e.new_address)) es
unfolding addr_entries_pass
addr_entries_pass_iff amount [] = ground arith
addr_entries_pass_iff amount (e ∷ es) = ground (arith, addr_entries_pass_iff amount es)

running_entries_pass_iff :
    (amount : ℕ) (es : List RunningEntry)
    → (running_entries_pass amount es ≡ true)
      ↔ All
          (λ (e : RunningEntry). (e.changed_channel ≤ amount) × (is_startable e.new_state ≡ true))
          es
unfolding running_entries_pass
running_entries_pass_iff amount [] = ground arith
running_entries_pass_iff amount (e ∷ es) = ground (arith, running_entries_pass_iff amount es)

module _ {F B S I : Type 0} (L : CoreLib F B S I) where
  run_addr_answer :
      (amount : ℕ) (s : Scope F B S I) (es : List AddrEntry)
      → ((run_addr L amount s es).1 ≡ se_ack ∷ [])
        ↔ All (λ (e : AddrEntry). e.changed_channel < amount) es
  unfolding run_addr
  run_addr_answer amount s [] = ground arith
  run_addr_answer amount s (e ∷ es) = ground (
    arith,
    run_addr_answer amount (configure_channel L s e.changed_channel e.new_address e.type) es,
  )

  pub run_running_ack :
      (amount : ℕ) (s : Scope F B S I) (es : List RunningEntry)
      → ((run_running L amount s es).1 ≡ se_ack ∷ [])
        ↔ All (λ (e : RunningEntry). e.changed_channel < amount) es
  unfolding run_running
  run_running_ack amount s [] = ground arith
  run_running_ack amount s (e ∷ es) = ground (arith, run_running_ack amount (change_state L s e) es)

  -- The scope after each of the entries has changed the state of its channel.
  abbrev pub changed : Scope F B S I → List RunningEntry → Scope F B S I
  changed s [] = s
  changed s (e ∷ es) = changed (change_state L s e) es

  -- `CommandRunning` has changed the channels of some first entries, which all exist, and then answers
  -- nothing, as the channel of the next entry does not exist.
  abbrev pub StopsShort : ℕ → Scope F B S I → List RunningEntry → Type 0
  StopsShort amount s es =
      (before : List RunningEntry) × (e : RunningEntry) × (behind : List RunningEntry) × (es
        ≡ before ++ (e ∷ behind))
      × All (λ (d : RunningEntry). d.changed_channel < amount) before
      × (amount ≤ e.changed_channel)
      × (run_running L amount s es ≡ (changed s before, []))

  run_running_cases :
      (amount : ℕ) (s : Scope F B S I) (es : List RunningEntry)
      → (All (λ (e : RunningEntry). e.changed_channel < amount) es
          × (run_running L amount s es ≡ (changed s es, se_ack ∷ [])))
        ⊎ StopsShort amount s es
  unfolding run_running
  run_running_cases amount s [] = inl (tt, refl)
  run_running_cases amount s (e ∷ es) = elim (dec_lt e.changed_channel amount) [
    | no missing ↦ inr ([], e, es, refl, tt, omega arith, ground arith)
    | yes exists ↦ elim (run_running_cases amount (change_state L s e) es) [
      | inl (all, p) ↦ inl ((exists, all), ground arith)
      | inr (before, d, behind, split, all, missing, p) ↦
          inr (e ∷ before, d, behind, ap (λ l. e ∷ l) split, (exists, all), missing, ground arith)
    ]
  ]

  StopsShort-missing :
      (amount : ℕ) (s : Scope F B S I) (es : List RunningEntry)
      → StopsShort amount s es
      → ¬ All (λ (e : RunningEntry). e.changed_channel < amount) es
  StopsShort-missing amount s es (before, e, behind, split, all, missing, p) every =
      All_missing before
        (subst (All (λ (d : RunningEntry). d.changed_channel < amount)) split every)
    where
      All_missing :
          (l : List RunningEntry)
          → All (λ (d : RunningEntry). d.changed_channel < amount) (l ++ (e ∷ behind))
          → ⊥
      All_missing [] (h, _) = omega arith
      All_missing (d ∷ l) (_, h) = All_missing l h

  -- `CommandRunning` answers with an acknowledge exactly if all its channels exist, and has then changed
  -- the states of all of them, in the order of the entries; else it has changed exactly those before
  -- the first that does not exist, and answers nothing.
  pub run_running_answer :
      (amount : ℕ) (s : Scope F B S I) (es : List RunningEntry)
      → (((run_running L amount s es).1 ≡ se_ack ∷ [])
          ↔ All (λ (e : RunningEntry). e.changed_channel < amount) es)
        × (All (λ (e : RunningEntry). e.changed_channel < amount) es
            → run_running L amount s es ≡ (changed s es, se_ack ∷ []))
        × (¬ All (λ (e : RunningEntry). e.changed_channel < amount) es → StopsShort amount s es)
  run_running_answer amount s es = elim (run_running_cases amount s es) [
    | inl (all, p) ↦ (run_running_ack amount s es, λ _. p, λ h. absurd (h all))
    | inr short ↦ (
      run_running_ack amount s es,
      λ all. absurd (StopsShort-missing amount s es short all),
      λ _. short,
    )
  ]

  addr_refused :
      (c : Commands F) (es : List AddrEntry)
      → ¬ (AddrPasses c.amount_of_channels es)
      → set_addr_attributes c es ≡ c
  unfolding set_addr_attributes
  addr_refused c es h = ground (arith, addr_entries_pass_iff c.amount_of_channels es)

  -- A message that sets addresses, one of which is null or for an id above the amount of channels: the
  -- command refuses its entries, and applies those of the last message that it accepted once more,
  -- with the answer of that one.
  pub dispatch-addr_refused :
      (c : Commands F) (u : Unpacker F) (s : Scope F B S I) (memory : ℕ → ℕ) (now : ℕ)
      → ¬ (
          AddrPasses c.amount_of_channels (
            map addr_entry (
              entries u.cf_address_get_channel 0
                (min c.amount_of_channels u.cf_address_get_amount))))
      → dispatch L c u s memory now cf_addr
        ≡ some (
          c,
          (run_addr L c.amount_of_channels s c.addr_config).0,
          (run_addr L c.amount_of_channels s c.addr_config).1,
        )
  unfolding dispatch parse_addr
  dispatch-addr_refused c u s memory now h =
      let es =
        map addr_entry
          (entries u.cf_address_get_channel 0 (min c.amount_of_channels u.cf_address_get_amount)) in
      ground (arith, addr_refused c es h)
