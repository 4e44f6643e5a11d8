-- ===== src/Serialisation/Packer/Data/Writes.antt =====
-- Packing with room for all of it: every callback of NanopbPacker.c writes its encoding, and drains
-- the buffers that it reads.
use se_scope_target.Prelude.{
  ℕ, ◌+◌, ◌*◌, ◌≤◌, ◌≡◌, refl, ap, sym, ◌∙◌, true, false, List, [], ◌∷◌, ◌++◌, map, some,
  if◌then◌else◌, arith, length, append-nil, append_assoc, length-append, concat, take, drop,
}
use se_scope_target.Nanopb.Encoder.{OStream, Encoder, size}
use se_scope_target.SeLib.Ring.{Ring, put, contents-put_fits, capacity-put}
use se_scope_target.SeLib.Core.{CoreLib}
use se_scope_target.Core.Trigger.{◌>>=◌}
use se_scope_target.Serialisation.Packer.{pb_wt_string}
use se_scope_target.Serialisation.Packer.Data.{
  first, write_all, write, write_stream, write_stamps, write_timestamp, write_samples,
  write_channel_data,
}

module _ {F B S I C : Type 0} (L : CoreLib F B S I) (P : Encoder F) (R : Ring ℕ C) where
  -- The stream and its buffer have room for `n` bytes.
  abbrev pub Room : OStream C → ℕ → Type 0
  Room o n = (o.bytes_written + n ≤ o.max_size) × (R.used o.state + n ≤ R.capacity o.state)

  -- `d` was written, and nothing else changed.
  abbrev pub Wrote : OStream C → List ℕ → OStream C → Type 0
  Wrote o d o' =
      (R.contents o'.state ≡ R.contents o.state ++ d)
      × (o'.bytes_written ≡ o.bytes_written + length d)
      × (o'.max_size ≡ o.max_size)
      × (R.capacity o'.state ≡ R.capacity o.state)

  pub Wrote-refl : (o : OStream C) → Wrote o [] o
  Wrote-refl o = (sym (append-nil (R.contents o.state)), omega arith, refl, refl)

  pub Wrote-trans :
      (o1 o2 o3 : OStream C) (d e : List ℕ) → Wrote o1 d o2 → Wrote o2 e o3 → Wrote o1 (d ++ e) o3
  Wrote-trans o1 o2 o3 d e w v =
      ground (arith, append_assoc (R.contents o1.state) d e, length-append d e)

  -- Room for two runs in turn.
  pub Room-append : (o : OStream C) (d e : List ℕ) → Room o (length (d ++ e)) → Room o (length d)
  Room-append o d e r = ground (arith, length-append d e)

  pub Room-Wrote :
      (o o' : OStream C) (d e : List ℕ)
      → Wrote o d o'
      → Room o (length (d ++ e))
      → Room o' (length e)
  Room-Wrote o o' d e w r = ground (
    arith,
    R.used_lem o.state,
    R.used_lem o'.state,
    ap length w.0,
    length-append d e,
    length-append (R.contents o.state) d,
  )

  pub write-Wrote :
      (o : OStream C) (run : List ℕ)
      → Room o (length run)
      → (o' : OStream C) × (write L P R o run ≡ (o', true)) × Wrote o run o'
  write-Wrote o run r = (
    record o { state = put R o.state run; bytes_written = o.bytes_written + length run },
    P.write_fits (write_stream L P R) o run r.0,
    (contents-put_fits R o.state run r.1, refl, refl, capacity-put R o.state run),
  )

  pub write_all-Wrote :
      (o : OStream C) (runs : List (List ℕ))
      → Room o (size runs)
      → (o' : OStream C) × (write_all L P R o runs ≡ (o', true)) × Wrote o (concat runs) o'
  unfolding write_all
  write_all-Wrote o [] r = (o, refl, Wrote-refl o)
  write_all-Wrote o (run ∷ runs) r =
      let (o1, e1, w1) = write-Wrote o run (Room-append o run (concat runs) r) in
      let (o2, e2, w2) = write_all-Wrote o1 runs (Room-Wrote o o1 run (concat runs) w1 r) in
      (
        o2,
        ap (λ x. if x.1 then write_all L P R x.0 runs else (x.0, false)) e1 ∙ e2,
        Wrote-trans o o1 o2 run (concat runs) w1 w2,
      )

  -- The samples of `n` reads.
  pub write_samples-Wrote :
      (o : OStream C) (b : B) (xs : List F)
      → L.ring.contents b ≡ xs
      → Room o (size (map P.pb_encode_float xs))
      → (o' : OStream C) × (b' : B) × (write_samples L P R o b (length xs) ≡ some (o', b', true))
        × (L.ring.contents b' ≡ [])
        × Wrote o (concat (map P.pb_encode_float xs)) o'
  unfolding write_samples
  write_samples-Wrote o b [] e r = (o, b, refl, e, Wrote-refl o)
  write_samples-Wrote o b (x ∷ xs) e r =
      let (b1, read, left, _) = L.ring.read_fits b 1 (ground (arith, L.ring.used_lem b)) in
      let (o1, e1, w1) = write-Wrote o (P.pb_encode_float x) (Room-append o _ _ r) in
      let (o2, b2, e2, d2, w2) =
        write_samples-Wrote o1 b1 xs (left ∙ ap (drop 1) e) (Room-Wrote o o1 _ _ w1 r) in
      (
        o2,
        b2,
        ap
              (λ q. q >>= λ r. first r.1 >>= λ x.
                let (o', done) = write L P R o (P.pb_encode_float x) in
                let rest = write_samples L P R o' r.0 (length xs) in
                if done then rest else some (o', r.0, false))
              (read ∙ ap (λ d. some (b1, take 1 d)) e)
            ∙ (ap
                  (λ q.
                    let rest = write_samples L P R q.0 b1 (length xs) in
                    if q.1 then rest else some (q.0, b1, false))
                  e1
                ∙ e2),
        d2,
        Wrote-trans o o1 o2 _ _ w1 w2,
      )

  -- The time stamps of `n` reads.
  pub write_stamps-Wrote :
      (o : OStream C) (i : I) (xs : List ℕ)
      → L.ints.contents i ≡ xs
      → Room o (size (map P.pb_encode_fixed32 xs))
      → (o' : OStream C) × (i' : I) × (write_stamps L P R o i (length xs) ≡ some (o', i', true))
        × (L.ints.contents i' ≡ [])
        × Wrote o (concat (map P.pb_encode_fixed32 xs)) o'
  unfolding write_stamps
  write_stamps-Wrote o i [] e r = (o, i, refl, e, Wrote-refl o)
  write_stamps-Wrote o i (x ∷ xs) e r =
      let i1 = (L.ints.read i 1).0 in
      let (read, left) = L.ints.read_fits i 1 (ground (arith, L.ints.stream_length_lem i)) in
      let (o1, e1, w1) = write-Wrote o (P.pb_encode_fixed32 x) (Room-append o _ _ r) in
      let (o2, i2, e2, d2, w2) =
        write_stamps-Wrote o1 i1 xs (left ∙ ap (drop 1) e) (Room-Wrote o o1 _ _ w1 r) in
      (
        o2,
        i2,
        ap
              (λ q. first q >>= λ x.
                let (o', done) = write L P R o (P.pb_encode_fixed32 x) in
                let rest = write_stamps L P R o' i1 (length xs) in
                if done then rest else some (o', i1, false))
              (read ∙ ap (take 1) e)
            ∙ (ap
                  (λ q.
                    let rest = write_stamps L P R q.0 i1 (length xs) in
                    if q.1 then rest else some (q.0, i1, false))
                  e1
                ∙ e2),
        d2,
        Wrote-trans o o1 o2 _ _ w1 w2,
      )

  -- The field of the time stamps, and that of a channel's samples.
  abbrev pub stamps_head : ℕ → List (List ℕ)
  stamps_head n = P.pb_encode_tag pb_wt_string 2 ∷ P.pb_encode_varint (n * 4) ∷ []

  abbrev pub stamps_bytes : List ℕ → List ℕ
  stamps_bytes xs = concat (stamps_head (length xs)) ++ concat (map P.pb_encode_fixed32 xs)

  abbrev pub samples_head : ℕ → List (List ℕ)
  samples_head n = P.pb_encode_tag pb_wt_string 1 ∷ P.pb_encode_varint (n * 4) ∷ []

  abbrev pub samples_bytes : List F → List ℕ
  samples_bytes xs = concat (samples_head (length xs)) ++ concat (map P.pb_encode_float xs)

  pub write_timestamp-Wrote :
      (o : OStream C) (i : I)
      → Room o (length (stamps_bytes (L.ints.contents i)))
      → (o' : OStream C) × (i' : I) × (write_timestamp L P R o i ≡ some (o', i', true))
        × (L.ints.contents i' ≡ [])
        × Wrote o (stamps_bytes (L.ints.contents i)) o'
  unfolding write_timestamp
  write_timestamp-Wrote o i r =
      let n = length (L.ints.contents i) in
      let (o1, e1, w1) = write_all-Wrote o (stamps_head n) (Room-append o _ _ r) in
      let (o2, i2, e2, d2, w2) =
        write_stamps-Wrote o1 i (L.ints.contents i) refl (Room-Wrote o o1 _ _ w1 r) in
      (
        o2,
        i2,
        ap
              (λ m.
                let (o', done) = write_all L P R o (stamps_head m) in
                if done then write_stamps L P R o' i m else some (o', i, false))
              (L.ints.stream_length_lem i)
            ∙ (ap (λ q. if q.1 then write_stamps L P R q.0 i n else some (q.0, i, false)) e1 ∙ e2),
        d2,
        Wrote-trans o o1 o2 _ _ w1 w2,
      )

  pub write_channel_data-Wrote :
      (o : OStream C) (b : B)
      → Room o (length (samples_bytes (L.ring.contents b)))
      → (o' : OStream C) × (b' : B) × (write_channel_data L P R o b ≡ some (o', b', true))
        × (L.ring.contents b' ≡ [])
        × Wrote o (samples_bytes (L.ring.contents b)) o'
  unfolding write_channel_data
  write_channel_data-Wrote o b r =
      let n = length (L.ring.contents b) in
      let (o1, e1, w1) = write_all-Wrote o (samples_head n) (Room-append o _ _ r) in
      let (o2, b2, e2, d2, w2) =
        write_samples-Wrote o1 b (L.ring.contents b) refl (Room-Wrote o o1 _ _ w1 r) in
      (
        o2,
        b2,
        ap
              (λ m.
                let (o', done) = write_all L P R o (samples_head m) in
                if done then write_samples L P R o' b m else some (o', b, false))
              (L.ring.used_lem b)
            ∙ (ap (λ q. if q.1 then write_samples L P R q.0 b n else some (q.0, b, false)) e1 ∙ e2),
        d2,
        Wrote-trans o o1 o2 _ _ w1 w2,
      )
