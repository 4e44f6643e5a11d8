-- ===== src/SeLib/Queue.antt =====
-- `AgingPriorityQueue` of se-lib-c: a bounded queue of items with priorities. `count` is the view by
-- which the laws are stated, how often an item is in the queue. Nothing is assumed of the order in
-- which the items come out, nor of when the queue is too full to take one.
use se_scope_target.Prelude.{
  ℕ, ◌+◌, ◌<◌, ◌≡◌, ◌⊎◌, ◌↔◌, Bool, true, Option, some, if◌then◌else◌, ◌==◌,
}

pub record Queue (Q : Type 0) : Type 0 where
  pub create : ℕ → ℕ → ℕ → Q
  pub push : Q → ℕ → ℕ → Q
  -- `none` is a negative result.
  pub pop : Q → Option (ℕ × Q)
  pub empty : Q → Bool
  pub contains : Q → ℕ → Bool
  pub count : Q → ℕ → ℕ
  pub count-create : (a b c x : ℕ) → count (create a b c) x ≡ 0
  pub count-push :
      (q : Q) (x p y : ℕ)
      → (count (push q x p) y ≡ count q y)
        ⊎ (count (push q x p) y ≡ count q y + (if x == y then 1 else 0))
  pub count-pop :
      (q q' : Q) (x y : ℕ)
      → pop q ≡ some (x, q')
      → count q y ≡ count q' y + (if x == y then 1 else 0)
  pub contains_lem : (q : Q) (x : ℕ) → (contains q x ≡ true) ↔ (0 < count q x)
