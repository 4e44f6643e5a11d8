-- ===== src/SeLib/Ring.antt =====
-- `ByteRingBuffer` and `FloatRingBuffer` of se-lib-c: a bounded FIFO with all-or-nothing writes and
-- reads, as test/GeneralPurpose/FloatRingBuffer-test.cpp exercises it. `contents` is the view by
-- which the laws are stated, the oldest item first.
use se_scope_target.Prelude.{
  refl, ◌∙◌, sym, append-nil, append_assoc, [], ◌∷◌, ℕ, ◌+◌, ◌≤◌, ◌<◌, ◌≡◌, List, [], ◌++◌, Option,
  none, some, arith, length, length-append, take, drop, or_else, dec_lt,
}

pub record Ring (A B : Type 0) : Type 0 where
  pub create : ℕ → B
  pub capacity : B → ℕ
  pub contents : B → List A
  pub used : B → ℕ
  pub free : B → ℕ
  -- `none` is the result -1, which leaves the buffer as it was.
  pub write : B → List A → Option B
  pub read : B → ℕ → Option (B × List A)
  pub clear : B → B
  pub contents-create : (n : ℕ) → contents (create n) ≡ []
  pub capacity-create : (n : ℕ) → capacity (create n) ≡ n
  pub used_lem : (b : B) → used b ≡ length (contents b)
  pub free_lem : (b : B) → free b + used b ≡ capacity b
  pub write_fits :
      (b : B) (d : List A)
      → used b + length d ≤ capacity b
      → (b' : B) × (write b d ≡ some b')
        × (contents b' ≡ contents b ++ d)
        × (capacity b' ≡ capacity b)
  pub write_full : (b : B) (d : List A) → capacity b < used b + length d → write b d ≡ none
  pub read_fits :
      (b : B) (n : ℕ)
      → n ≤ used b
      → (b' : B) × (read b n ≡ some (b', take n (contents b)))
        × (contents b' ≡ drop n (contents b))
        × (capacity b' ≡ capacity b)
  pub read_short : (b : B) (n : ℕ) → used b < n → read b n ≡ none
  pub contents-clear : (b : B) → contents (clear b) ≡ []
  pub capacity-clear : (b : B) → capacity (clear b) ≡ capacity b

-- Calls of `write` and `read` whose result the caller ignores.
module _ {A B : Type 0} (R : Ring A B) where
  unfoldable pub put : B → List A → B
  put b d = or_else (R.write b d) b

  pub contents-put_fits :
      (b : B) (d : List A)
      → R.used b + length d ≤ R.capacity b
      → R.contents (put b d) ≡ R.contents b ++ d
  unfolding put
  contents-put_fits b d h = ground (arith, R.write_fits b d h)

  pub put_full : (b : B) (d : List A) → R.capacity b < R.used b + length d → put b d ≡ b
  unfolding put
  put_full b d h = ground (arith, R.write_full b d h)

  pub capacity-put : (b : B) (d : List A) → R.capacity (put b d) ≡ R.capacity b
  unfolding put
  capacity-put b d = elim (dec_lt (R.capacity b) (R.used b + length d)) [
    | yes full ↦ ground (arith, R.write_full b d full)
    | no fits ↦ ground (arith, R.write_fits b d (omega arith))
  ]

  pub used-put_fits :
      (b : B) (d : List A)
      → R.used b + length d ≤ R.capacity b
      → R.used (put b d) ≡ R.used b + length d
  used-put_fits b d h = ground (
    arith,
    R.used_lem b,
    R.used_lem (put b d),
    contents-put_fits b d h,
    length-append (R.contents b) d,
  )

  pub used-le-capacity : (b : B) → R.used b ≤ R.capacity b
  used-le-capacity b = omega (arith, R.free_lem b)

  pub used-clear : (b : B) → R.used (R.clear b) ≡ 0
  used-clear b = ground (arith, R.used_lem (R.clear b), R.contents-clear b)

  -- Several writes of one item each.
  unfoldable pub put_each : B → List A → B
  put_each b [] = b
  put_each b (x ∷ xs) = put_each (put b (x ∷ [])) xs

  pub contents-put_each :
      (b : B) (p : List A)
      → R.used b + length p ≤ R.capacity b
      → R.contents (put_each b p) ≡ R.contents b ++ p
  unfolding put_each
  contents-put_each b [] h = sym (append-nil (R.contents b))
  contents-put_each b (x ∷ xs) h = ground (
    arith,
    contents-put_each (put b (x ∷ [])) xs,
    contents-put_fits b (x ∷ []),
    used-put_fits b (x ∷ []),
    capacity-put b (x ∷ []),
    append_assoc (R.contents b) (x ∷ []) xs,
  )

  pub capacity-put_each : (b : B) (p : List A) → R.capacity (put_each b p) ≡ R.capacity b
  unfolding put_each
  capacity-put_each b [] = refl
  capacity-put_each b (x ∷ xs) = capacity-put_each (put b (x ∷ [])) xs ∙ capacity-put b (x ∷ [])
