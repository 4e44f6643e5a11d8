-- ===== src/Control/AnnounceStorage/Names.antt =====
-- What an added address reads like.
use se_scope_target.Prelude.{
  ℕ, zero, suc, ◌+◌, ◌-◌, ◌<◌, ◌≤◌, ◌≡◌, refl, subst, sym, true, List, [], ◌∷◌, ◌++◌, none, some,
  arith, length, get_elem?_bound, All, take, drop, take-append_le, replicate, get_elem?, length-set,
  get_elem?-set_self,
}
use se_scope_target.ScopeTypes.{DataType}
use se_scope_target.Control.AnnounceStorage.{
  max_length_of_announce_name, AddressDefinition, AnnounceStorage, strncpy, text_of,
  add_announce_address, get_address_to_transmit,
}

-- A text has no zeros.
abbrev pub IsText : List ℕ → Type 0
IsText cs = All (λ c. 0 < c) cs

pub text_of_sevens : text_of (7 ∷ []) ≡ none
unfolding text_of
text_of_sevens = refl

text_of_padded :
    (cs ds : List ℕ) (n m : ℕ)
    → IsText cs
    → length cs < n
    → 0 < m
    → text_of (take n (cs ++ replicate m 0) ++ ds) ≡ some cs
unfolding text_of
text_of_padded [] ds zero m h l k = absurd (omega arith)
text_of_padded [] ds (suc n) zero h l k = absurd (omega arith)
text_of_padded [] ds (suc n) (suc m) h l k = refl
text_of_padded (c ∷ cs) ds zero m h l k = absurd (omega arith)
text_of_padded (c ∷ cs) ds (suc n) m h l k =
    ground (arith, text_of_padded cs ds n m h.1 (omega arith) k)

text_of_cut :
    (cs ds : List ℕ) (n : ℕ)
    → IsText cs
    → n ≤ length cs
    → text_of ds ≡ none
    → text_of (take n cs ++ ds) ≡ none
unfolding text_of
text_of_cut cs ds zero h l e = e
text_of_cut [] ds (suc n) h l e = absurd (omega arith)
text_of_cut (c ∷ cs) ds (suc n) h l e = ground (arith, text_of_cut cs ds n h.1 (omega arith) e)

module _ {F V : Type 0} where
  -- A storage with a place left takes a name of at most 28 characters for an address that is not null:
  -- the next definition has the address and the type and reads as the name, and the storage counts
  -- one more.
  pub add_announce_address_lem :
      (s : AnnounceStorage F V) (name : List ℕ) (address : ℕ) (type : DataType)
      (old : AddressDefinition)
      → get_elem? s.addresses s.configured_amount_of_addresses ≡ some old
      → IsText name
      → length name ≤ 28
      → 0 < address
      → let (s', done) = add_announce_address s name address type in
        (done ≡ true)
        × (s'.configured_amount_of_addresses ≡ s.configured_amount_of_addresses + 1)
        × (length s'.addresses ≡ length s.addresses)
        × (d : AddressDefinition) × (get_address_to_transmit s' s.configured_amount_of_addresses
            ≡ some d)
        × (d.address ≡ address)
        × (d.type ≡ type)
        × (text_of d.name ≡ some name)
  unfolding add_announce_address strncpy get_address_to_transmit
  add_announce_address_lem s name address type old e h l n =
      let i = s.configured_amount_of_addresses in
      let b = get_elem?_bound s.addresses i old e in
      let d : AddressDefinition = record {
        name = strncpy old.name name (max_length_of_announce_name - 1);
        type = type;
        address = address;
      } in
      (
        ground arith,
        ground arith,
        ground (arith, length-set s.addresses i d),
        d,
        ground (arith, get_elem?-set_self s.addresses i d b),
        refl,
        refl,
        text_of_padded name (drop 29 old.name) 29 29 h (omega arith) (omega arith),
      )

  -- A name of 29 or 30 characters is taken as well, but its array has no end: it reads as a text only
  -- if the last character of the array was a zero before.
  pub add_unterminated :
      (s : AnnounceStorage F V) (name : List ℕ) (address : ℕ) (type : DataType)
      (old : AddressDefinition)
      → get_elem? s.addresses s.configured_amount_of_addresses ≡ some old
      → IsText name
      → 28 < length name
      → length name ≤ 30
      → 0 < address
      → text_of (drop 29 old.name) ≡ none
      → let (s', done) = add_announce_address s name address type in
        (done ≡ true)
        × (d : AddressDefinition) × (get_address_to_transmit s' s.configured_amount_of_addresses
            ≡ some d)
        × (text_of d.name ≡ none)
  unfolding add_announce_address strncpy get_address_to_transmit
  add_unterminated s name address type old e h l m n g =
      let i = s.configured_amount_of_addresses in
      let b = get_elem?_bound s.addresses i old e in
      let d : AddressDefinition = record {
        name = strncpy old.name name (max_length_of_announce_name - 1);
        type = type;
        address = address;
      } in
      let cut = take-append_le 29 name (replicate 29 0) (omega arith) in
      (
        ground arith,
        d,
        ground (arith, get_elem?-set_self s.addresses i d b),
        subst (λ x. text_of (x ++ drop 29 old.name) ≡ none) (sym cut)
            (text_of_cut name (drop 29 old.name) 29 h (omega arith) g),
      )
