-- ===== src/FramedIo/Transmit/Pending.antt =====
-- What is left of a frame that is being sent, and how `FramedIO_getTxData` consumes it.
use se_scope_target.Prelude.{
  ℕ, zero, suc, ◌+◌, ◌-◌, ◌/◌, ◌%◌, ◌^◌, ◌<◌, ◌≤◌, ◌≡◌, refl, ◌∙◌, List, [], ◌∷◌, ◌++◌,
  if◌then◌else◌, arith, append-nil, ◌⊎◌, leb, take, drop, take-append_ge, take-append_le,
  drop-append_ge, drop-append_le, take_of_length_le, drop_of_length_le, dec_lt,
}
use se_scope_target.SeLib.Ring.{
  Ring, put, contents-put_fits, capacity-put, used-put_fits, used-clear,
}
use se_scope_target.FramedIo.{head, body, foot, idle, Tx, u16}
use se_scope_target.FramedIo.Frame.{sum}
use se_scope_target.FramedIo.Transmit.{fetch, add_bytes, write_foot, get_body, get_foot}

sum-take-drop : (n : ℕ) (xs : List ℕ) → sum (take n xs) + sum (drop n xs) ≡ sum xs
unfolding sum
sum-take-drop zero xs = omega arith
sum-take-drop (suc n) [] = refl
sum-take-drop (suc n) (x ∷ xs) = omega (arith, sum-take-drop n xs)

pub add_bytes_lem :
    {B : Type 0} (R : Ring ℕ B) (c : ℕ) (xs : List ℕ)
    → c < 2 ^ 16
    → add_bytes R c xs ≡ u16 (c + sum xs)
unfolding add_bytes sum
add_bytes_lem R c [] h = omega arith
add_bytes_lem R c (x ∷ xs) h = omega (arith, add_bytes_lem R (u16 (c + x)) xs)

-- The foot that is sent behind a payload with the checksum `c`.
abbrev pub foot_bytes : ℕ → List ℕ
foot_bytes c = c / 2 ^ 8 % 2 ^ 8 ∷ c % 2 ^ 8 ∷ b']' ∷ []

module _ {B : Type 0} (R : Ring ℕ B) where
  -- The bytes of the current frame that are still to be fetched.
  abbrev pub pending : Tx B → List ℕ
  pending t = elim t.state [
    | head ↦
        R.contents t.frame_head
        ++ (R.contents t.output ++ foot_bytes (u16 (t.checksum + sum (R.contents t.output))))
    | body ↦ R.contents t.output ++ foot_bytes (u16 (t.checksum + sum (R.contents t.output)))
    | foot ↦ R.contents t.frame_tail
    | idle ↦ []
  ]

  -- The buffers for head and foot have their sizes, `uint16_t txChecksum` is in range, only a head
  -- that is being sent is in its buffer, and only a body has a checksum.
  pub record IsSound (t : Tx B) : Type 0 where
    pub head_size : R.capacity t.frame_head ≡ 6
    pub tail_size : R.capacity t.frame_tail ≡ 3
    pub summed : t.checksum < 2 ^ 16
    pub cleared : (t.state ≡ head) ⊎ (R.contents t.frame_head ≡ [])
    pub unsummed : (t.state ≡ body) ⊎ (t.checksum ≡ 0)

  -- What a call takes and leaves of `k` wanted bytes.
  abbrev pub Takes : Tx B → ℕ → Tx B × List ℕ → Type 0
  Takes t k r = (r.1 ≡ take k (pending t)) × (pending r.0 ≡ drop k (pending t)) × IsSound r.0

  pub fetch_lem :
      (b : B) (n : ℕ)
      → n ≤ R.used b
      → let (b', xs) = fetch R b n in
        (xs ≡ take n (R.contents b))
        × (R.contents b' ≡ drop n (R.contents b))
        × (R.capacity b' ≡ R.capacity b)
  fetch_lem b n h = ground (arith, R.read_fits b n h)

  contents-write_foot :
      (b : B) (c : ℕ) → R.capacity b ≡ 3 → R.contents (write_foot R b c) ≡ foot_bytes c
  unfolding write_foot
  contents-write_foot b c h =
      let b0 = R.clear b in
      let b1 = put R b0 (c / 2 ^ 8 % 2 ^ 8 ∷ []) in
      let b2 = put R b1 (c % 2 ^ 8 ∷ []) in
      ground (
        arith,
        R.contents-clear b,
        R.capacity-clear b,
        used-clear R b,
        contents-put_fits R b0 (c / 2 ^ 8 % 2 ^ 8 ∷ []),
        used-put_fits R b0 (c / 2 ^ 8 % 2 ^ 8 ∷ []),
        capacity-put R b0 (c / 2 ^ 8 % 2 ^ 8 ∷ []),
        contents-put_fits R b1 (c % 2 ^ 8 ∷ []),
        used-put_fits R b1 (c % 2 ^ 8 ∷ []),
        capacity-put R b1 (c % 2 ^ 8 ∷ []),
        contents-put_fits R b2 (b']' ∷ []),
      )

  capacity-write_foot : (b : B) (c : ℕ) → R.capacity (write_foot R b c) ≡ R.capacity b
  unfolding write_foot
  capacity-write_foot b c =
      let b0 = R.clear b in
      let b1 = put R b0 (c / 2 ^ 8 % 2 ^ 8 ∷ []) in
      let b2 = put R b1 (c % 2 ^ 8 ∷ []) in
      capacity-put R b2 (b']' ∷ [])
      ∙ capacity-put R b1 (c % 2 ^ 8 ∷ [])
      ∙ capacity-put R b0 (c / 2 ^ 8 % 2 ^ 8 ∷ [])
      ∙ R.capacity-clear b

  pub get_foot-Takes :
      (t : Tx B) (size index : ℕ)
      → t.state ≡ foot
      → IsSound t
      → let (t', _, xs) = get_foot R t size index in Takes t (size - index) (t', xs)
  unfolding get_foot
  get_foot-Takes t size index st v =
      let tail = R.contents t.frame_tail in
      let left = R.used t.frame_tail in
      elim (dec_lt (size - index) left) [
        | yes some_left ↦
            ground (arith, R.used_lem t.frame_tail, fetch_lem t.frame_tail (size - index))
        | no all_read ↦ ground (
          arith,
          R.used_lem t.frame_tail,
          fetch_lem t.frame_tail left,
          take_of_length_le left tail,
          take_of_length_le (size - index) tail,
          drop_of_length_le (size - index) tail,
        )
      ]

  -- The body's block: part of the payload, or all of it, when the foot is prepared.
  get_body_part :
      (t : Tx B) (size index : ℕ)
      → t.state ≡ body
      → IsSound t
      → size - index < R.used t.output
      → let (t', i, xs) = get_body R t size index in
        Takes t (size - index) (t', xs) × (i ≡ index + (size - index))
  unfolding get_body
  get_body_part t size index st v h =
      let out = R.contents t.output in
      let k = size - index in
      let pay = foot_bytes (u16 (t.checksum + sum out)) in
      ground (
        arith,
        R.used_lem t.output,
        fetch_lem t.output k,
        add_bytes_lem R t.checksum (take k out),
        take-append_le k out pay,
        drop-append_le k out pay,
        sum-take-drop k out,
      )

  get_body_all :
      (t : Tx B) (size index : ℕ)
      → t.state ≡ body
      → IsSound t
      → R.used t.output ≤ size - index
      → let (t', i, xs) = get_body R t size index in
        (xs ≡ R.contents t.output)
        × (t'.state ≡ foot)
        × (R.contents t'.frame_tail ≡ foot_bytes (u16 (t.checksum + sum (R.contents t.output))))
        × (i ≡ index + R.used t.output)
        × IsSound t'
  unfolding get_body
  get_body_all t size index st v h =
      let out = R.contents t.output in
      let left = R.used t.output in
      let c = u16 (t.checksum + sum out) in
      ground (
        arith,
        R.used_lem t.output,
        fetch_lem t.output left,
        take_of_length_le left out,
        add_bytes_lem R t.checksum out,
        contents-write_foot t.frame_tail c,
        capacity-write_foot t.frame_tail c,
      )

  -- The body's block and the foot's.
  abbrev pub rest_of_call : Tx B → ℕ → ℕ → Tx B × List ℕ
  rest_of_call t size index =
      let (t2, i2, x2) = get_body R t size index in
      if leb size i2 then (t2, x2) else let (t3, _, x3) = get_foot R t2 size i2 in (t3, x2 ++ x3)

  pub rest_of_call-Takes :
      (t : Tx B) (size index : ℕ)
      → t.state ≡ body
      → IsSound t
      → Takes t (size - index) (rest_of_call t size index)
  rest_of_call-Takes t size index st v = elim (dec_lt (size - index) (R.used t.output)) [
    | yes h ↦ ground (arith, get_body_part t size index st v h)
    | no h ↦
        let out = R.contents t.output in
        let pay = foot_bytes (u16 (t.checksum + sum out)) in
        let r = get_body R t size index in
        ground (
          arith,
          R.used_lem t.output,
          get_body_all t size index st v (omega arith),
          get_foot-Takes r.0 size r.1,
          take-append_ge (size - index) out pay,
          drop-append_ge (size - index) out pay,
          append-nil out,
        )
  ]
