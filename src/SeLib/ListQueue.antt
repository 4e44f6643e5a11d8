-- ===== src/SeLib/ListQueue.antt =====
-- A concrete queue that meets the interface of `AgingPriorityQueue`, for the examples: a list without
-- priorities.
use se_scope_target.Prelude.{
  ℕ, ◌+◌, ◌<◌, ◌≡◌, refl, inr, ◌↔◌, Bool, true, false, Option, none, some, if◌then◌else◌, ◌==◌, ltb,
  List, [], ◌∷◌, ◌++◌, arith,
}
use se_scope_target.SeLib.Queue.{Queue}

abbrev pub list_count : List ℕ → ℕ → ℕ
list_count [] y = 0
list_count (x ∷ xs) y = list_count xs y + (if x == y then 1 else 0)

abbrev pub list_pop : List ℕ → Option (ℕ × List ℕ)
list_pop [] = none
list_pop (x ∷ xs) = some (x, xs)

abbrev pub list_empty : List ℕ → Bool
list_empty [] = true
list_empty (x ∷ xs) = false

pub list_count-append :
    (xs : List ℕ) (x y : ℕ)
    → list_count (xs ++ (x ∷ [])) y ≡ list_count xs y + (if x == y then 1 else 0)
list_count-append [] x y = refl
list_count-append (z ∷ xs) x y = omega (arith, list_count-append xs x y)

pub list_count-pop :
    (q q' : List ℕ) (x y : ℕ)
    → list_pop q ≡ some (x, q')
    → list_count q y ≡ list_count q' y + (if x == y then 1 else 0)
list_count-pop [] q' x y e = ground arith
list_count-pop (z ∷ zs) q' x y e = ground arith

pub list_contains_lem :
    (q : List ℕ) (x : ℕ) → (ltb 0 (list_count q x) ≡ true) ↔ (0 < list_count q x)
list_contains_lem q x = ground arith

abbrev pub list_queue : Queue (List ℕ)
list_queue = record {
  create = λ a b c. [];
  push = λ q x p. q ++ (x ∷ []);
  pop = list_pop;
  empty = list_empty;
  contains = λ q x. ltb 0 (list_count q x);
  count = list_count;
  count-create = λ a b c x. refl;
  count-push = λ q x p y. inr (list_count-append q x y);
  count-pop = list_count-pop;
  contains_lem = list_contains_lem;
}
