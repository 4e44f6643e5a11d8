-- ===== src/Control/Pack/Channels.antt =====
-- What is packed.
use se_scope_target.Prelude.{
  ℕ, zero, suc, ◌+◌, ◌<◌, ◌≤◌, ◌≡◌, refl, subst, ap, sym, ◌∙◌, true, List, [], ◌∷◌, ◌++◌, some,
  arith, length, ◌⊎◌, ◌↔◌, take, drop, take_of_length_le, drop_of_length_le, dec_lt, ℕ_discrete,
}
use se_scope_target.SeLib.Core.{CoreLib}
use se_scope_target.SeLib.Stream.{Stream}
use se_scope_target.Core.Scope.{
  Scope, get_trigger_data, channel_has_to_be_packed, get_channel_buffer,
}
use se_scope_target.Control.Pack.{
  PackerCall, add_channel, add_trigger, add_timestamp, add_time_increment, add_address_announcement,
  add_announcement, add_log, pack_channels, pack_data, pack_log, log_size,
}

-- A channel with its buffer is among the calls.
abbrev pub Packs : {F B I V : Type 0} → List (PackerCall F B I V) → ℕ → B → Type 0
Packs [] id b = ⊥
Packs (add_channel i c ∷ calls) id b = ((i ≡ id) × (c ≡ b)) ⊎ Packs calls id b
Packs (_ ∷ calls) id b = Packs calls id b

-- A channel of the scope whose swap buffer is full, with that buffer.
abbrev pub IsReady : {F B S I : Type 0} → CoreLib F B S I → Scope F B S I → ℕ → B → Type 0
IsReady L s id b = (channel_has_to_be_packed L s id ≡ true) × (get_channel_buffer L s id ≡ some b)

module _ {F B S I Y : Type 0} (V : Type 0) (L : CoreLib F B S I) (bytes : Stream ℕ Y) where
  Packs-pack_channels :
      (s : Scope F B S I) (i n id : ℕ) (b : B)
      → Packs (pack_channels {V = V} L bytes s i n) id b
        ↔ ((i ≤ id) × (id < i + n) × IsReady L s id b)
  unfolding pack_channels
  Packs-pack_channels s i zero id b = ground arith
  Packs-pack_channels s i (suc n) id b = elim (ℕ_discrete i id) [
    | yes e ↦ ground (arith, Packs-pack_channels s (i + 1) n id b)
    | no e ↦ ground (arith, Packs-pack_channels s (i + 1) n id b)
  ]

  Packs-append_rest :
      (calls : List (PackerCall F B I V)) (id : ℕ) (b : B) (rest : List (PackerCall F B I V))
      → (Packs rest id b → ⊥)
      → Packs (calls ++ rest) id b ↔ Packs calls id b
  Packs-append_rest [] id b rest h = ground arith
  Packs-append_rest (add_channel i c ∷ calls) id b rest h =
      ground (arith, Packs-append_rest calls id b rest h)
  Packs-append_rest (add_trigger x ∷ calls) id b rest h = Packs-append_rest calls id b rest h
  Packs-append_rest (add_timestamp x ∷ calls) id b rest h = Packs-append_rest calls id b rest h
  Packs-append_rest (add_time_increment x ∷ calls) id b rest h = Packs-append_rest calls id b rest h
  Packs-append_rest (add_address_announcement i a ∷ calls) id b rest h =
      Packs-append_rest calls id b rest h
  Packs-append_rest (add_announcement x y z ∷ calls) id b rest h =
      Packs-append_rest calls id b rest h
  Packs-append_rest (add_log x ∷ calls) id b rest h = Packs-append_rest calls id b rest h

  -- A data message has exactly the channels of the scope whose swap buffer is full, each with that
  -- buffer.
  pub Packs-pack_data :
      (s : Scope F B S I) (id : ℕ) (b : B)
      → Packs (pack_data {V = V} L bytes s) id b ↔ ((id < length s.rig.channels) × IsReady L s id b)
  unfolding pack_data
  Packs-pack_data s id b =
      by_channels (pack_channels {V = V} L bytes s 0 (length s.rig.channels)) refl
    where
      by_channels :
          (calls : List (PackerCall F B I V))
          → pack_channels {V = V} L bytes s 0 (length s.rig.channels) ≡ calls
          → Packs (pack_data {V = V} L bytes s) id b
            ↔ ((id < length s.rig.channels) × IsReady L s id b)
      by_channels [] e = ground (arith, Packs-pack_channels s 0 (length s.rig.channels) id b)
      by_channels (c ∷ calls) e =
          let tail =
            add_trigger (get_trigger_data L s)
            ∷ add_timestamp s.rig.timestamper.swap_timestamps
            ∷ add_time_increment s.rig.timestamper.time_increment
            ∷ [] in
          let whole : pack_data {V = V} L bytes s ≡ (c ∷ calls) ++ tail = ground arith in
          let found = Packs-append_rest (c ∷ calls) id b tail (λ x. x) in
          let among =
            subst
              (λ (x : List (PackerCall F B I V)).
                Packs x id b ↔ ((0 ≤ id) × (id < 0 + length s.rig.channels) × IsReady L s id b))
              e (Packs-pack_channels s 0 (length s.rig.channels) id b) in
          subst
            (λ (x : List (PackerCall F B I V)).
              Packs x id b ↔ ((id < length s.rig.channels) × IsReady L s id b))
            (sym whole)
            (
              (λ p. let (_, below, is) = among.0 (found.0 p) in (omega (arith, below), is)),
              (λ q. found.1 (among.1 (omega arith, omega (arith, q.0), q.1))),
            )

  read_all :
      (log : Y)
      → bytes.stream_length log ≤ 48
      → ((bytes.read log (bytes.stream_length log)).1 ≡ take 48 (bytes.contents log))
        × (bytes.contents (bytes.read log (bytes.stream_length log)).0
            ≡ drop 48 (bytes.contents log))
  read_all log h =
      let n = bytes.stream_length log in
      let xs = bytes.contents log in
      let (p, q) = bytes.read_fits log n (omega arith) in
      let l = bytes.stream_length_lem log in
      (
        p
            ∙ (take_of_length_le n xs (omega (arith, l))
                ∙ sym (take_of_length_le 48 xs (omega (arith, l)))),
        q
            ∙ (drop_of_length_le n xs (omega (arith, l))
                ∙ sym (drop_of_length_le 48 xs (omega (arith, l)))),
      )

  abbrev log_calls : List ℕ → List (PackerCall F B I V)
  log_calls xs = add_log xs ∷ []

  -- What a read of `n` bytes gives a message, and leaves in the stream.
  abbrev LogRead : Y → ℕ → Type 0
  LogRead log n =
      (log_calls (bytes.read log n).1 ≡ log_calls (take 48 (bytes.contents log)))
      × (bytes.contents (bytes.read log n).0 ≡ drop 48 (bytes.contents log))

  log_size_long : (n : ℕ) → 48 < n → log_size n ≡ 48
  unfolding log_size
  log_size_long n h = ground arith

  log_size_short : (n : ℕ) → n ≤ 48 → log_size n ≡ n
  unfolding log_size
  log_size_short n h = ground arith

  -- A log message has the next bytes of the log stream, at most 48, and leaves the rest there.
  pub pack_log_lem :
      (log : Y)
      → let (log', calls) = pack_log {F = F} {B = B} {I = I} {V = V} L bytes log in
        (calls ≡ add_log (take 48 (bytes.contents log)) ∷ [])
        × (bytes.contents log' ≡ drop 48 (bytes.contents log))
  unfolding pack_log
  pack_log_lem log =
      let n = bytes.stream_length log in
      elim (dec_lt 48 n) [
        | yes more ↦
            let (p, q) = bytes.read_fits log 48 (omega arith) in
            subst (LogRead log) (sym (log_size_long n more)) (ap log_calls p, q)
        | no fits ↦
            let (p, q) = read_all log (omega arith) in
            subst (LogRead log) (sym (log_size_short n (omega arith))) (ap log_calls p, q)
      ]
