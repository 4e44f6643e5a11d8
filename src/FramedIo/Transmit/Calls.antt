-- ===== src/FramedIo/Transmit/Calls.antt =====
-- Calls of `FramedIO_getTxData`, one and many.
use se_scope_target.Prelude.{
  ℕ, ◌+◌, ◌-◌, ◌<◌, ◌≤◌, ◌≡◌, refl, List, [], ◌∷◌, ◌++◌, arith, length, append-nil, length-append,
  concat, take_add, drop_add, take, drop, take-append_ge, take-append_le, drop-append_ge,
  drop-append_le, take_of_length_le, drop_of_length_le, dec_lt,
}
use se_scope_target.SeLib.Ring.{Ring}
use se_scope_target.FramedIo.{TxState, head, body, foot, idle, Tx, u16}
use se_scope_target.FramedIo.Frame.{sum}
use se_scope_target.FramedIo.Transmit.{get_head, get_body, get_tx_data, amount_of_tx_data_pending}
use se_scope_target.FramedIo.Transmit.Pending.{
  foot_bytes, pending, IsSound, Takes, fetch_lem, get_foot-Takes, rest_of_call-Takes,
}

module _ {B : Type 0} (R : Ring ℕ B) where
  get_head_part :
      (t : Tx B) (size : ℕ)
      → t.state ≡ head
      → IsSound R t
      → size < R.used t.frame_head
      → let (t', i, xs) = get_head R t size 0 in Takes R t size (t', xs) × (i ≡ size)
  unfolding get_head
  get_head_part t size st v h =
      let fh = R.contents t.frame_head in
      let out = R.contents t.output in
      let pay = out ++ foot_bytes (u16 (t.checksum + sum out)) in
      ground (
        arith,
        R.used_lem t.frame_head,
        fetch_lem R t.frame_head size,
        take-append_le size fh pay,
        drop-append_le size fh pay,
      )

  get_head_all :
      (t : Tx B) (size : ℕ)
      → t.state ≡ head
      → IsSound R t
      → R.used t.frame_head ≤ size
      → let (t', i, xs) = get_head R t size 0 in
        (xs ≡ R.contents t.frame_head)
        × (t'.state ≡ body)
        × (t'.output ≡ t.output)
        × (t'.checksum ≡ t.checksum)
        × (i ≡ R.used t.frame_head)
        × IsSound R t'
  unfolding get_head
  get_head_all t size st v h =
      let fh = R.contents t.frame_head in
      let left = R.used t.frame_head in
      ground (
        arith,
        R.used_lem t.frame_head,
        fetch_lem R t.frame_head left,
        take_of_length_le left fh,
        drop_of_length_le left fh,
      )

  get_tx_data_head :
      (t : Tx B) (size : ℕ) → t.state ≡ head → IsSound R t → Takes R t size (get_tx_data R t size)
  unfolding get_tx_data
  get_tx_data_head t size st v = elim (dec_lt size (R.used t.frame_head)) [
    | yes h ↦ ground (arith, get_head_part t size st v h)
    | no h ↦
        let fh = R.contents t.frame_head in
        let out = R.contents t.output in
        let pay = out ++ foot_bytes (u16 (t.checksum + sum out)) in
        let r = get_head R t size 0 in
        ground (
          arith,
          R.used_lem t.frame_head,
          get_head_all t size st v (omega arith),
          rest_of_call-Takes R r.0 size r.1,
          take-append_ge size fh pay,
          drop-append_ge size fh pay,
          append-nil fh,
        )
  ]

  get_tx_data_body :
      (t : Tx B) (size : ℕ) → t.state ≡ body → IsSound R t → Takes R t size (get_tx_data R t size)
  unfolding get_tx_data get_head
  get_tx_data_body t size st v =
      let k : size - 0 ≡ size = omega arith in ground (arith, rest_of_call-Takes R t size 0 st v, k)

  get_tx_data_foot :
      (t : Tx B) (size : ℕ) → t.state ≡ foot → IsSound R t → Takes R t size (get_tx_data R t size)
  unfolding get_tx_data get_head get_body
  get_tx_data_foot t size st v =
      let k : size - 0 ≡ size = omega arith in ground (arith, get_foot-Takes R t size 0 st v, k)

  get_tx_data_idle :
      (t : Tx B) (size : ℕ) → t.state ≡ idle → IsSound R t → Takes R t size (get_tx_data R t size)
  unfolding get_tx_data
  get_tx_data_idle t size st v = ground (
    arith,
    take_of_length_le {A = ℕ} size [] (omega arith),
    drop_of_length_le {A = ℕ} size [] (omega arith),
  )

  -- A call of `FramedIO_getTxData` for `size` bytes hands out the next `size` bytes of the frame that
  -- is being sent, or all that are left of it, and leaves the rest for the next calls.
  pub get_tx_data-Takes :
      (t : Tx B) (size : ℕ)
      → IsSound R t
      → let (t', xs) = get_tx_data R t size in
        (xs ≡ take size (pending R t)) × (pending R t' ≡ drop size (pending R t)) × IsSound R t'
  get_tx_data-Takes t size v = by_state t.state refl
    where
      by_state : (x : TxState) → t.state ≡ x → Takes R t size (get_tx_data R t size)
      by_state head e = get_tx_data_head t size e v
      by_state body e = get_tx_data_body t size e v
      by_state foot e = get_tx_data_foot t size e v
      by_state idle e = get_tx_data_idle t size e v

  -- `FramedIO_amountOfTxDataPending` is the number of bytes that are left to be fetched.
  pub amount-pending :
      (t : Tx B) → IsSound R t → amount_of_tx_data_pending R t ≡ length (pending R t)
  unfolding amount_of_tx_data_pending
  amount-pending t v =
      let out = R.contents t.output in
      let pay = foot_bytes (u16 (t.checksum + sum out)) in
      ground (
        arith,
        R.used_lem t.frame_head,
        R.used_lem t.output,
        R.used_lem t.frame_tail,
        length-append (R.contents t.frame_head) (out ++ pay),
        length-append out pay,
      )

  -- Successive calls with arrays of the given sizes.
  pub get_all : Tx B → List ℕ → Tx B × List (List ℕ)
  get_all t [] = (t, [])
  get_all t (n ∷ ns) =
      let (t', xs) = get_tx_data R t n in let (t'', xss) = get_all t' ns in (t'', xs ∷ xss)

  -- Whatever the sizes of the arrays that a transport fetches a frame with, the pieces that it gets,
  -- joined, are the next bytes of the frame, as many as it asked for, and what is left is the rest.
  pub get_all-Takes :
      (t : Tx B) (ns : List ℕ)
      → IsSound R t
      → let (t', xss) = get_all t ns in
        (concat xss ≡ take (sum ns) (pending R t))
        × (pending R t' ≡ drop (sum ns) (pending R t))
        × IsSound R t'
  unfolding get_all sum
  get_all-Takes t [] v = (refl, refl, v)
  get_all-Takes t (n ∷ ns) v =
      let r = get_tx_data R t n in
      ground (
        arith,
        get_tx_data-Takes t n v,
        get_all-Takes r.0 ns,
        take_add n (sum ns) (pending R t),
        drop_add n (sum ns) (pending R t),
      )
