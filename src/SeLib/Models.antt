-- ===== src/SeLib/Models.antt =====
-- Concrete buffers that meet the interfaces of se-lib-c, for the examples: a list of items and the
-- number of free places behind it.
use se_scope_target.Prelude.{
  ℕ, ◌+◌, ◌-◌, ◌≤◌, ◌<◌, ◌≡◌, refl, List, [], ◌∷◌, ◌++◌, Option, none, some, arith, length,
  length-append, take, drop, leb, if◌then◌else◌, length-drop,
}
use se_scope_target.Prelude.{ltb, ◌==◌}
use se_scope_target.Prelude.Int.{ℤ, pos, negsuc}
use se_scope_target.SeLib.Ring.{Ring}
use se_scope_target.SeLib.Stream.{Stream}
use se_scope_target.SeLib.Float.{Float}
use se_scope_target.SeLib.Core.{CoreLib}

pub record ListRing (A : Type 0) : Type 0 where
  pub items : List A
  pub room : ℕ

pub list_size : (n : ℕ) → n + 0 ≡ n
list_size n = omega arith

module _ {A : Type 0} where
  abbrev pub list_create : ℕ → ListRing A
  list_create n = record { items = []; room = n }

  abbrev pub list_write : ListRing A → List A → Option (ListRing A)
  list_write b d =
      if leb (length d) b.room
      then some (record { items = b.items ++ d; room = b.room - length d })
      else none

  abbrev pub list_read : ListRing A → ℕ → Option (ListRing A × List A)
  list_read b n =
      if leb n (length b.items)
      then some (record { items = drop n b.items; room = b.room + n }, take n b.items)
      else none

  abbrev pub list_clear : ListRing A → ListRing A
  list_clear b = record { items = []; room = b.room + length b.items }

  pub list_write_fits :
      (b : ListRing A) (d : List A)
      → length b.items + length d ≤ b.room + length b.items
      → (b' : ListRing A) × (list_write b d ≡ some b')
        × (b'.items ≡ b.items ++ d)
        × (b'.room + length b'.items ≡ b.room + length b.items)
  list_write_fits b d h = (
    record { items = b.items ++ d; room = b.room - length d },
    ground arith,
    refl,
    omega (arith, length-append b.items d),
  )

  pub list_write_full :
      (b : ListRing A) (d : List A)
      → b.room + length b.items < length b.items + length d
      → list_write b d ≡ none
  list_write_full b d h = ground arith

  pub list_read_fits :
      (b : ListRing A) (n : ℕ)
      → n ≤ length b.items
      → (b' : ListRing A) × (list_read b n ≡ some (b', take n b.items))
        × (b'.items ≡ drop n b.items)
        × (b'.room + length b'.items ≡ b.room + length b.items)
  list_read_fits b n h = (
    record { items = drop n b.items; room = b.room + n },
    ground arith,
    refl,
    omega (arith, length-drop n b.items),
  )

  pub list_read_short : (b : ListRing A) (n : ℕ) → length b.items < n → list_read b n ≡ none
  list_read_short b n h = ground arith

  pub list_clear_size : (b : ListRing A) → b.room + length b.items + 0 ≡ b.room + length b.items
  list_clear_size b = omega arith

  abbrev pub list_ring : Ring A (ListRing A)
  list_ring = record {
    create = list_create;
    capacity = λ b. b.room + length b.items;
    contents = λ b. b.items;
    used = λ b. length b.items;
    free = λ b. b.room;
    write = list_write;
    read = list_read;
    clear = list_clear;
    contents-create = λ n. refl;
    capacity-create = list_size;
    used_lem = λ b. refl;
    free_lem = λ b. refl;
    write_fits = list_write_fits;
    write_full = list_write_full;
    read_fits = list_read_fits;
    read_short = list_read_short;
    contents-clear = λ b. refl;
    capacity-clear = list_clear_size;
  }

  -- A stream on the same buffer: a write to a full one is dropped.
  abbrev pub list_write_data : ListRing A → A → ListRing A
  list_write_data s a =
      if ltb 0 s.room then record { items = s.items ++ (a ∷ []); room = s.room - 1 } else s

  abbrev pub list_take : ListRing A → ℕ → ListRing A × List A
  list_take s n = (
    record { items = drop n s.items; room = s.room + (length s.items - length (drop n s.items)) },
    take n s.items,
  )

  pub list_length_le : (s : ListRing A) → length s.items ≤ s.room + length s.items
  list_length_le s = omega arith

  pub list_write_data_fits :
      (s : ListRing A) (a : A)
      → length s.items < s.room + length s.items
      → (list_write_data s a).items ≡ s.items ++ (a ∷ [])
  list_write_data_fits s a h = ground arith

  pub list_write_data_size :
      (s : ListRing A) (a : A)
      → (list_write_data s a).room + length (list_write_data s a).items ≡ s.room + length s.items
  list_write_data_size s a = ground (arith, length-append s.items (a ∷ []))

  pub list_take_size :
      (s : ListRing A) (n : ℕ)
      → (list_take s n).0.room + length (list_take s n).0.items ≡ s.room + length s.items
  list_take_size s n = omega (arith, length-drop n s.items)

  abbrev pub list_stream : Stream A (ListRing A)
  list_stream = record {
    create = list_create;
    capacity = λ s. s.room + length s.items;
    contents = λ s. s.items;
    stream_length = λ s. length s.items;
    write_data = list_write_data;
    read = list_take;
    flush = list_clear;
    contents-create = λ n. refl;
    capacity-create = list_size;
    stream_length_lem = λ s. refl;
    stream_length-le = list_length_le;
    write_fits = list_write_data_fits;
    capacity-write = list_write_data_size;
    read_fits = λ s n h. (refl, refl);
    capacity-read = list_take_size;
    contents-flush = λ s. refl;
    capacity-flush = list_clear_size;
  }

-- Floats that are the natural numbers, with the negative ones at 0.
abbrev pub ℕ_of_int : ℤ → ℕ
ℕ_of_int (pos n) = n
ℕ_of_int (negsuc n) = 0

abbrev pub ℕ_float : Float ℕ
ℕ_float = record { zero_float = 0; less = ltb; same = ◌==◌; of_int = ℕ_of_int; of_bits = λ n. n }

abbrev pub list_core : CoreLib ℕ (ListRing ℕ) (ListRing ℕ) (ListRing ℕ)
list_core = record { float = ℕ_float; ring = list_ring; stream = list_stream; ints = list_stream }
