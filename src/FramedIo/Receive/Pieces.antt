-- ===== src/FramedIo/Receive/Pieces.antt =====
-- `FramedIO_putRxData` called with the pieces in which a transport delivers a frame.
use se_scope_target.Prelude.{
  ℕ, ◌^◌, ◌<◌, ◌≤◌, ◌≡◌, refl, ap, sym, ◌∙◌, Bool, true, false, ◌||◌, List, [], ◌∷◌, ◌++◌, Option,
  none, some, arith, length, append-nil, append_assoc, length-append, Bool-cases, inl, inr, concat,
  List-cases,
}
use se_scope_target.SeLib.Ring.{Ring}
use se_scope_target.FramedIo.{Rx, u16, end_flag}
use se_scope_target.FramedIo.Frame.{sum, be16, frame_head, frame}
use se_scope_target.FramedIo.Receive.{put_rx_data}
use se_scope_target.FramedIo.Receive.Automaton.{feed, Settled}
use se_scope_target.FramedIo.Receive.Automaton.Frames.{IsIdle, feed-good_checksum}
use se_scope_target.FramedIo.Receive.Automaton.Streams.{
  feed-nil, feed-append, feed-prefix, feed_reported, feed_unready, feed-Settled,
}
use se_scope_target.FramedIo.Receive.Chunks.{put_rx_data-eq-feed}
use se_scope_target.FramedIo.Receive.Messages.{
  filled, received, feed-head_payload, feed_frame, contents-received, IsIdle-Settled,
}

-- A list that ends in `x`, split in front of its end.
split_last {ℓ} :
    {A : Type ℓ} (d : List A) (c : A) (cs body : List A) (x : A)
    → d ++ (c ∷ cs) ≡ body ++ (x ∷ [])
    → (rest : List A) × (body ≡ d ++ rest) × (c ∷ cs ≡ rest ++ (x ∷ []))
split_last [] c cs body x e = (body, refl, e)
split_last (y ∷ d) c cs [] x e =
    let n = ap length e in absurd (omega (arith, length-append d (c ∷ cs)))
split_last (y ∷ d) c cs (z ∷ body) x e =
    let (rest, p, q) = split_last d c cs body x (cc) in (rest, ground arith, q)

module _ {B : Type 0} (R : Ring ℕ B) where
  -- The pieces in turn, and whether any call reported a frame.
  pub put_all : ℕ → Rx B → List (List ℕ) → Option (Rx B × Bool)
  put_all f s [] = some (s, false)
  put_all f s (d ∷ ds) = elim (put_rx_data R f s d) [
    | none ↦ none
    | some (t, v) ↦ elim (put_all f t ds) [ none ↦ none | some (u, w) ↦ some (u, w || v) ]
  ]

  put_all_empty :
      (f : ℕ) (s : Rx B) (ds : List (List ℕ))
      → 0 < f
      → Settled R s
      → concat ds ≡ []
      → put_all f s ds ≡ some (s, false)
  unfolding put_all
  put_all_empty f s [] h c e = refl
  put_all_empty f s ([] ∷ ds) h c e =
      ground
        (arith, put_rx_data-eq-feed R f s [] h c, feed-nil R s false, put_all_empty f s ds h c e)
  put_all_empty f s ((b ∷ d) ∷ ds) h c e = cc

  -- A piece that ends before the last byte of a frame: the receiver takes it and reports nothing.
  first_piece :
      (f : ℕ) (s u : Rx B) (d rest : List ℕ)
      → Settled R s
      → s.data_ready ≡ false
      → length d < f
      → feed R s (d ++ rest) false ≡ some (u, false)
      → (s' : Rx B) × (put_rx_data R f s d ≡ some (s', false))
        × (feed R s d false ≡ some (s', false))
        × (s'.data_ready ≡ false)
        × Settled R s'
  first_piece f s u d rest c r h p =
      let (s', v, g) = feed-prefix R s d rest false {r = (u, false)} p in
      let quiet : v ≡ false = elim (Bool-cases v) [
        | inl yes_v ↦
            ground (arith, feed-append R s s' d rest false v g, feed_reported R s' u rest false)
        | inr no_v ↦ no_v
      ] in
      (
        s',
        ground (arith, put_rx_data-eq-feed R f s d h c),
        ground arith,
        feed_unready R s s' d false (ground arith) r,
        feed-Settled R s s' d false v c g,
      )

  -- Pieces of a stream whose last byte ends a frame, and no byte before it does.
  put_all_frame :
      (f : ℕ) (s u t : Rx B) (ds : List (List ℕ)) (body : List ℕ) (x : ℕ) (w : Bool)
      → Settled R s
      → s.data_ready ≡ false
      → concat ds ≡ body ++ (x ∷ [])
      → length (concat ds) < f
      → feed R s body false ≡ some (u, false)
      → feed R s (body ++ (x ∷ [])) false ≡ some (t, w)
      → put_all f s ds ≡ some (t, w)
  unfolding put_all
  put_all_frame f s u t [] body x w c r e h p q =
      let n = ap length e in absurd (omega (arith, length-append body (x ∷ [])))
  put_all_frame f s u t (d ∷ ds) body x w c r e h p q = elim (List-cases (concat ds)) [
    | inl none_left ↦
        let whole : d ≡ body ++ (x ∷ []) =
          sym (append-nil d) ∙ ap (λ k. d ++ k) (sym none_left) ∙ e in
        let q' : feed R s d false ≡ some (t, w) = ap (λ k. feed R s k false) whole ∙ q in
        ground (
          arith,
          length-append d (concat ds),
          put_rx_data-eq-feed R f s d,
          put_all_empty f t ds,
          feed-Settled R s t d false w c q',
        )
    | inr (c0, cs, some_left) ↦
        let (rest, pb, pq) = split_last d c0 cs body x (ap (λ k. d ++ k) (sym some_left) ∙ e) in
        let (s', put_d, feed_d, r', c') =
          first_piece f s u d rest c r (omega (arith, length-append d (concat ds)))
            (ap (λ k. feed R s k false) (sym pb) ∙ p) in
        let p' : feed R s' rest false ≡ some (u, false) =
          sym (feed-append R s s' d rest false false feed_d)
          ∙ ap (λ k. feed R s k false) (sym pb)
          ∙ p in
        let q' : feed R s' (rest ++ (x ∷ [])) false ≡ some (t, w) =
          sym (feed-append R s s' d (rest ++ (x ∷ [])) false false feed_d)
          ∙ ap (λ k. feed R s k false)
              (sym (append_assoc d rest (x ∷ [])) ∙ ap (λ k. k ++ (x ∷ [])) (sym pb))
          ∙ q in
        let tail_put : put_all f s' ds ≡ some (t, w) =
          put_all_frame f s' u t ds rest x w c' r' (some_left ∙ pq)
            (omega (arith, length-append d (concat ds))) p' q' in
        ground arith
  ]

  -- A frame without its end flag.
  abbrev unended : ℕ → List ℕ → List ℕ
  unended ty p = frame_head ty (length p) ++ (p ++ be16 (u16 (sum p)))

  frame-unended : (ty : ℕ) (p : List ℕ) → unended ty p ++ (b']' ∷ []) ≡ frame ty p
  frame-unended ty p =
      ap (λ k. frame_head ty (length p) ++ k) (append_assoc p (be16 (u16 (sum p))) (b']' ∷ []))

  feed-unended :
      (s : Rx B) (ty : ℕ) (p : List ℕ)
      → IsIdle s
      → R.contents s.input ≡ []
      → length p ≤ R.capacity s.input
      → length p < 2 ^ 32
      → (u : Rx B) × (feed R s (unended ty p) false ≡ some (u, false))
  feed-unended s ty p i em r h =
      let u = record (filled R s ty p) {
        state_byte_count = 0;
        state = end_flag;
        checksum_compare = 0;
        checksum = 0;
      } in
      (
        u,
        feed-head_payload R s ty p (be16 (u16 (sum p))) false i em r h
            ∙ feed-good_checksum R (filled R s ty p) (u16 (sum p)) [] false refl i.counter
                i.compared (omega arith) (omega arith)
            ∙ feed-nil R u false,
      )

  -- However a transport cuts a frame into pieces, an idle receiver with an empty input buffer that
  -- the payload fits takes all of them, and reports the frame: the payload alone is in the buffer,
  -- the type is the frame's, the message waits to be fetched, and the receiver is idle again.
  pub put_all-frame :
      (f : ℕ) (s : Rx B) (ty : ℕ) (p : List ℕ) (ds : List (List ℕ))
      → concat ds ≡ frame ty p
      → length (frame ty p) < f
      → IsIdle s
      → s.data_ready ≡ false
      → R.contents s.input ≡ []
      → length p ≤ R.capacity s.input
      → length p < 2 ^ 32
      → (t : Rx B) × (put_all f s ds ≡ some (t, true))
        × (t.data_ready ≡ true)
        × (t.type ≡ ty)
        × (R.contents t.input ≡ p)
        × IsIdle t
  put_all-frame f s ty p ds e hf i ready em r h =
      let (u, fed) = feed-unended s ty p i em r h in
      let whole = frame-unended ty p in
      (
        received R s ty p,
        put_all_frame f s u (received R s ty p) ds (unended ty p) b']' true (IsIdle-Settled R s i)
            ready (e ∙ sym whole) (omega (arith, ap length e)) fed
            (ap (λ k. feed R s k false) whole
              ∙ feed_frame R s ty p [] false i em r h
              ∙ feed-nil R (received R s ty p) true),
        refl,
        refl,
        contents-received R s ty p em r,
        ground arith,
      )
