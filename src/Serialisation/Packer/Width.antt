-- ===== src/Serialisation/Packer/Width.antt =====
-- The length that `writeChannel` announces, and the length of what follows.
use se_scope_target.Prelude.{
  ℕ, ◌+◌, ◌*◌, ◌^◌, ◌<◌, ◌≤◌, ◌≡◌, List, [], ◌∷◌, ◌++◌, map, if◌then◌else◌, arith, length,
  length-append, ◌⊎◌, ◌↔◌, ltb, concat, ◌==◌,
}
use se_scope_target.Nanopb.Encoder.{Encoder, size, varint_size}
use se_scope_target.Serialisation.Packer.{
  pb_wt_string, width_loop, get_width_of_varint, announced_length,
}

-- Where `getWidthOfVarint` agrees with the size of a varint.
abbrev pub WidthIsRight : ℕ → Type 0
WidthIsRight id = (id < 16) ⊎ ((128 ≤ id) × (id < 256))

get_width_lem :
    (v : ℕ)
    → v < 4096
    → get_width_of_varint v ≡ (if ltb v 16 then 1 else if ltb v 256 then 2 else 3)
unfolding get_width_of_varint width_loop
get_width_lem v h = ground arith

pub get_width_le : (v : ℕ) → get_width_of_varint v ≤ 3
unfolding get_width_of_varint width_loop
get_width_le v = ground arith

pub announced_length_lt : (id n : ℕ) → n < 2 ^ 25 → announced_length id n < 2 ^ 28
unfolding announced_length
announced_length_lt id n h = ground (arith, get_width_le id, get_width_le n)

pub length-concat_map :
    {A : Type 0} (f : A → List ℕ) (n : ℕ) (xs : List A)
    → ((x : A) → length (f x) ≡ n)
    → size (map f xs) ≡ length xs * n
length-concat_map f n [] h = omega arith
length-concat_map f n (x ∷ xs) h =
    omega (arith, length-append (f x) (concat (map f xs)), h x, length-concat_map f n xs h)

pub size-append : (xs ys : List (List ℕ)) → size (xs ++ ys) ≡ size xs + size ys
size-append [] ys = omega arith
size-append (x ∷ xs) ys =
    omega
      (arith, length-append x (concat (xs ++ ys)), length-append x (concat xs), size-append xs ys)

module _ {F : Type 0} (P : Encoder F) where
  -- A channel's message: its samples in one field, and its id.
  abbrev pub channel_runs : ℕ → List F → List (List ℕ)
  channel_runs id xs =
      (P.pb_encode_tag pb_wt_string 1
        ∷ P.pb_encode_varint (length xs * 4)
        ∷ map P.pb_encode_float xs)
      ++ P.uint32_field 2 id

  pub size-channel_runs :
      (id : ℕ) (xs : List F)
      → id < 2 ^ 32
      → length xs * 4 < 2 ^ 32
      → size (channel_runs id xs)
        ≡ 1
          + varint_size (length xs * 4)
          + length xs * 4
          + (if id == 0 then 0 else 1 + varint_size id)
  size-channel_runs id xs h k = ground (
    arith,
    size-append
        (P.pb_encode_tag pb_wt_string 1
          ∷ P.pb_encode_varint (length xs * 4)
          ∷ map P.pb_encode_float xs)
        (P.uint32_field 2 id),
    length-append (P.pb_encode_tag pb_wt_string 1)
        (P.pb_encode_varint (length xs * 4) ++ concat (map P.pb_encode_float xs)),
    length-append (P.pb_encode_varint (length xs * 4)) (concat (map P.pb_encode_float xs)),
    length-concat_map P.pb_encode_float 4 xs P.length-float,
    P.length-tag pb_wt_string 1 (omega arith),
    P.length-varint (length xs * 4) k,
    P.size-uint32_field 2 id (omega arith) h,
  )

-- The other half: 16 to 31 samples, and 256 of them or more, are announced with one byte too many.
abbrev pub CountIsRight : ℕ → Type 0
CountIsRight n = (n < 16) ⊎ ((32 ≤ n) × (n < 256))

-- What the announced length has too much, for the id and for the count.
abbrev id_excess : ℕ → ℕ
id_excess id = if ltb id 16 then 0 else if ltb id 128 then 1 else if ltb id 256 then 0 else 1

abbrev count_excess : ℕ → ℕ
count_excess n = if ltb n 16 then 0 else if ltb n 32 then 1 else if ltb n 256 then 0 else 1

width_of_id :
    (id : ℕ)
    → id < 4096
    → (if id == 0 then 0 else 1 + get_width_of_varint id)
      ≡ (if id == 0 then 0 else 1 + varint_size id) + id_excess id
width_of_id id h = ground (arith, get_width_lem id h)

width_of_count : (n : ℕ) → n < 4096 → get_width_of_varint n ≡ varint_size (n * 4) + count_excess n
width_of_count n h = ground (arith, get_width_lem n h)

announced_too_much :
    (id n : ℕ)
    → id < 4096
    → n < 4096
    → announced_length id n
      ≡ 1
        + varint_size (n * 4)
        + n * 4
        + (if id == 0 then 0 else 1 + varint_size id)
        + (count_excess n + id_excess id)
unfolding announced_length
announced_too_much id n h k = omega (arith, width_of_id id h, width_of_count n k)

-- Sound both ways: nothing is too much exactly in the two ranges.
too_much_iff : (id n : ℕ) → (count_excess n + id_excess id ≡ 0) ↔ (CountIsRight n × WidthIsRight id)
too_much_iff id n = (λ e. ground arith, λ c. ground arith)

module _ {F : Type 0} (P : Encoder F) where
  -- The length that `writeChannel` announces is the length of what it writes for ids and counts below
  -- 4096 exactly if the count is below 16 or from 32 to 255, and the id below 16 or from 128 to 255.
  pub announced_length-size :
      (id : ℕ) (xs : List F)
      → id < 4096
      → length xs < 4096
      → (announced_length id (length xs) ≡ size (channel_runs P id xs))
        ↔ (CountIsRight (length xs) × WidthIsRight id)
  announced_length-size id xs h k = (
    λ e. (too_much_iff id (length xs)).0 (
        omega (
          arith,
          e,
          size-channel_runs P id xs (omega arith) (omega arith),
          announced_too_much id (length xs) h k,
        )),
    λ c.
        (omega (
          arith,
          (too_much_iff id (length xs)).1 c,
          size-channel_runs P id xs (omega arith) (omega arith),
          announced_too_much id (length xs) h k,
        )),
  )
