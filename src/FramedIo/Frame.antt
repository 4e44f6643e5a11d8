-- ===== src/FramedIo/Frame.antt =====
-- The wire format of FramedIO.c: `[`, the type, the payload's length in four bytes, the payload, the
-- 16-bit sum of its bytes in two, and `]`; the fields are big-endian.
use se_scope_target.Prelude.{ℕ, ◌+◌, ◌/◌, ◌%◌, ◌^◌, List, [], ◌∷◌, ◌++◌, length}
use se_scope_target.FramedIo.{u16}

unfoldable pub sum : List ℕ → ℕ
sum [] = 0
sum (b ∷ bs) = b + sum bs

-- Big-endian fields of two and of four bytes.
abbrev pub be16 : ℕ → List ℕ
be16 n = n / 2 ^ 8 % 2 ^ 8 ∷ n % 2 ^ 8 ∷ []

abbrev pub be32 : ℕ → List ℕ
be32 n = n / 2 ^ 24 % 2 ^ 8 ∷ n / 2 ^ 16 % 2 ^ 8 ∷ n / 2 ^ 8 % 2 ^ 8 ∷ n % 2 ^ 8 ∷ []

-- The head of a frame: start flag, type and announced length.
abbrev pub frame_head : ℕ → ℕ → List ℕ
frame_head ty n = b'[' ∷ ty ∷ be32 n

-- Its foot: the sum of the payload's bytes and the end flag.
abbrev pub frame_foot : List ℕ → List ℕ
frame_foot p = be16 (u16 (sum p)) ++ (b']' ∷ [])

abbrev pub frame : ℕ → List ℕ → List ℕ
frame ty p = frame_head ty (length p) ++ (p ++ frame_foot p)
