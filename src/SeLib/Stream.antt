-- ===== src/SeLib/Stream.antt =====
-- `BufferedFloatStream` and `BufferedIntStream` of se-lib-c: a bounded FIFO that is written item by
-- item. `contents` is the view by which the laws are stated, the oldest item first. Nothing is
-- assumed of a write to a full stream but that the stream stays within its capacity.
use se_scope_target.Prelude.{ℕ, ◌≤◌, ◌<◌, ◌≡◌, List, [], ◌∷◌, ◌++◌, length, take, drop}

pub record Stream (A S : Type 0) : Type 0 where
  pub create : ℕ → S
  pub capacity : S → ℕ
  pub contents : S → List A
  pub stream_length : S → ℕ
  pub write_data : S → A → S
  pub read : S → ℕ → S × List A
  pub flush : S → S
  pub contents-create : (n : ℕ) → contents (create n) ≡ []
  pub capacity-create : (n : ℕ) → capacity (create n) ≡ n
  pub stream_length_lem : (s : S) → stream_length s ≡ length (contents s)
  pub stream_length-le : (s : S) → stream_length s ≤ capacity s
  pub write_fits :
      (s : S) (a : A)
      → stream_length s < capacity s
      → contents (write_data s a) ≡ contents s ++ (a ∷ [])
  pub capacity-write : (s : S) (a : A) → capacity (write_data s a) ≡ capacity s
  pub read_fits :
      (s : S) (n : ℕ)
      → n ≤ stream_length s
      → ((read s n).1 ≡ take n (contents s)) × (contents (read s n).0 ≡ drop n (contents s))
  pub capacity-read : (s : S) (n : ℕ) → capacity (read s n).0 ≡ capacity s
  pub contents-flush : (s : S) → contents (flush s) ≡ []
  pub capacity-flush : (s : S) → capacity (flush s) ≡ capacity s
