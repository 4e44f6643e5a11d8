-- ===== src/Serialisation/Unpacker/Arrays.antt =====
-- The arrays of the unpacker: what the callbacks store, and what the getters find.
use se_scope_target.Prelude.{
  ℕ, zero, suc, ◌+◌, ◌<◌, ◌≤◌, ◌≡◌, refl, ap, sym, ◌∙◌, List, [], ◌∷◌, ◌++◌, none, some, arith,
  length, append-nil, append_assoc, or_else, take, get_elem?, set, length-set, dec_lt,
}
use se_scope_target.Serialisation.Unpacker.{Entries, store, store_all, get_channel}
use se_scope_target.Core.Trigger.{◌>>=◌}
use se_scope_target.Control.Commands.{entries}

module _ {A : Type 0} where
  -- What is in use of an array.
  abbrev pub in_use : Entries A → List A
  in_use e = take e.amount e.channels

  take-set :
      (xs : List A) (n : ℕ) (x : A)
      → n < length xs
      → take (n + 1) (set xs n x) ≡ take n xs ++ (x ∷ [])
  take-set [] n x h = absurd (omega arith)
  take-set (y ∷ ys) zero x h = refl
  take-set (y ∷ ys) (suc n) x h =
      let e : suc n + 1 ≡ suc (n + 1) = omega arith in
      ap (λ k. take k (y ∷ set ys n x)) e ∙ ap (λ r. y ∷ r) (take-set ys n x (omega arith))

  -- Storing has a result exactly if the array has room, and appends then.
  abbrev pub Stored : Entries A → List A → Entries A → Type 0
  Stored e xs e' =
      (in_use e' ≡ in_use e ++ xs)
      × (e'.amount ≡ e.amount + length xs)
      × (length e'.channels ≡ length e.channels)

  pub store_all-fits :
      (e : Entries A) (xs : List A)
      → e.amount + length xs ≤ length e.channels
      → (e' : Entries A) × (store_all e xs ≡ some e') × Stored e xs e'
  unfolding store_all store
  store_all-fits e [] h = (e, refl, (sym (append-nil (in_use e)), omega arith, refl))
  store_all-fits e (x ∷ xs) h =
      let e1 : Entries A = record { amount = e.amount + 1; channels = set e.channels e.amount x } in
      let sized = length-set e.channels e.amount x in
      let stored : store e x ≡ some e1 = ground arith in
      let (e2, eq, kept) = store_all-fits e1 xs (omega (arith, sized)) in
      (
        e2,
        ap (λ q. q >>= λ e'. store_all e' xs) stored ∙ eq,
        (
          kept.0
              ∙ (ap (λ r. r ++ xs) (take-set e.channels e.amount x (omega arith))
                  ∙ append_assoc (in_use e) (x ∷ []) xs),
          omega (arith, kept.1),
          kept.2 ∙ sized,
        ),
      )

  pub store_all_full :
      (e : Entries A) (xs : List A)
      → e.amount ≤ length e.channels
      → length e.channels < e.amount + length xs
      → store_all e xs ≡ none
  unfolding store_all store
  store_all_full e [] b h = absurd (omega (arith, b, h))
  store_all_full e (x ∷ xs) b h =
      let e1 : Entries A = record { amount = e.amount + 1; channels = set e.channels e.amount x } in
      elim (dec_lt e.amount (length e.channels)) [
        | yes more ↦
            let stored : store e x ≡ some e1 = ground arith in
            let sized = length-set e.channels e.amount x in
            ap (λ q. q >>= λ e'. store_all e' xs) stored
            ∙ store_all_full e1 xs (omega (arith, sized)) (omega (arith, sized))
        | no end ↦
            let stored : store e x ≡ none = ground arith in
            ap (λ q. q >>= λ e'. store_all e' xs) stored
      ]

  -- The getter finds what is in use.
  get_channel_in_use :
      (e : Entries A) (i : ℕ) → i < e.amount → get_channel e i ≡ get_elem? e.channels i
  unfolding get_channel
  get_channel_in_use e i h = ground arith

  entries-take :
      (f : ℕ → A) (d : A) (i n : ℕ) (xs : List A)
      → n ≤ length xs
      → ((k : ℕ) → k < n → f (i + k) ≡ or_else (get_elem? xs k) d)
      → entries f i n ≡ take n xs
  unfolding entries
  entries-take f d i zero xs l h = refl
  entries-take f d i (suc n) [] l h = absurd (omega arith)
  entries-take f d i (suc n) (x ∷ xs) l g =
      let head : f i ≡ x = ap f (omega arith) ∙ g 0 (omega arith) in
      let next : (k : ℕ) → k < n → f (i + 1 + k) ≡ or_else (get_elem? xs k) d =
        λ k b. ap f (omega arith) ∙ g (suc k) (omega (arith, b)) in
      ap (λ y. y ∷ entries f (i + 1) n) head
      ∙ ap (λ r. x ∷ r) (entries-take f d (i + 1) n xs (omega arith) next)

  -- The entries that the getter returns in turn.
  pub entries-get_channel :
      (e : Entries A) (d : A)
      → e.amount ≤ length e.channels
      → entries (λ i. or_else (get_channel e i) d) 0 e.amount ≡ in_use e
  entries-get_channel e d h =
      entries-take (λ i. or_else (get_channel e i) d) d 0 e.amount e.channels h
        (λ k l.
          ap (λ i. or_else (get_channel e i) d) (omega arith)
          ∙ ap (λ o. or_else o d) (get_channel_in_use e k l))
