-- ===== src/Control/AnnounceStorage.antt =====
-- src/Control/AnnounceStorage.c: the addresses that are announced to the host. A name is an array of
-- 30 characters, of which a text takes those before the first zero.
pub mod Names
use se_scope_target.Prelude.{
  ℕ, zero, suc, ◌+◌, ◌-◌, ◌*◌, ◌/◌, ◌%◌, ◌^◌, ◌<◌, ◌≤◌, ◌≡◌, ◌≢◌, refl, subst, ap, sym, ◌∙◌,
  fun_ext, Bool, true, false, not, ◌||◌, ◌&&◌, List, [], ◌∷◌, ◌++◌, map, Option, none, some,
  if◌then◌else◌, arith, length, append-nil, append_assoc, length-append, length-map, get_elem?-map,
  get_elem?_bound, get_elem?_total, All, Option-cases, Bool-cases, ◌⊎◌, inl, inr, ◌↔◌, u8, u16, u32,
  bool_eq, Returns, Returns-cases, ltb, leb, concat, take_add, drop_add, ◌==◌, or_else, min, take,
  drop, length-take, length-drop, take-append-drop, take-append_ge, take-append_le, drop-append_ge,
  drop-append_le, take_of_length_le, take_last, take_last-append, drop_of_length_le, replicate,
  get_elem?, set, length-set, get_elem?-set_self, get_elem?-set_ne, dec_lt, ℕ_discrete, ==_iff,
}
use se_scope_target.ScopeTypes.{DataType, se_float}

abbrev pub max_length_of_announce_name : ℕ
max_length_of_announce_name = 30

pub record AddressDefinition : Type 0 where
  pub name : List ℕ
  pub type : DataType
  pub address : ℕ

-- AnnounceStoragePrivateData, over the types of floats and of texts; the maximal amount of addresses is
-- the length of the list.
pub record AnnounceStorage (F V : Type 0) : Type 0 where
  pub configured_amount_of_addresses : ℕ
  pub addresses : List AddressDefinition
  pub max_amount_of_channels : ℕ
  pub time_base : F
  pub version : V

-- `name[0] = '\0'`, and the other fields as they are set first.
pub cleared_address : AddressDefinition → AddressDefinition
cleared_address a = record { name = set a.name 0 0; type = se_float; address = 0 }

-- `AnnounceStorage_create`; `raws` is what the allocated memory holds, for each address.
pub create : {F V : Type 0} → V → List AddressDefinition → ℕ → F → AnnounceStorage F V
unfolding cleared_address
create version raws channels time_base = record {
  configured_amount_of_addresses = 0;
  addresses = map cleared_address raws;
  max_amount_of_channels = channels;
  time_base = time_base;
  version = version;
}

-- `strncpy` of a text to an array of at least `n` characters.
pub strncpy : List ℕ → List ℕ → ℕ → List ℕ
strncpy array text n = take n (text ++ replicate n 0) ++ drop n array

-- The text in an array: what comes before the first zero. Without one, `none`: a reader runs on.
unfoldable pub text_of : List ℕ → Option (List ℕ)
text_of [] = none
text_of (c ∷ cs) =
    let rest = text_of cs in
    if c == 0 then some [] else elim rest [ none ↦ none | some text ↦ some (c ∷ text) ]

-- `AnnounceStorage_addAnnounceAddress`
pub add_announce_address :
    {F V : Type 0} → AnnounceStorage F V → List ℕ → ℕ → DataType → AnnounceStorage F V × Bool
unfolding strncpy
add_announce_address s name address type =
    if address == 0
    then (s, false)
    else if leb (length s.addresses) s.configured_amount_of_addresses
    then (s, false)
    else if ltb max_length_of_announce_name (length name)
    then (s, false)
    else elim (get_elem? s.addresses s.configured_amount_of_addresses) [
      | none ↦ (s, false)
      | some old ↦ (
        record s {
          addresses = set s.addresses s.configured_amount_of_addresses (record {
            name = strncpy old.name name (max_length_of_announce_name - 1);
            type = type;
            address = address;
          });
          configured_amount_of_addresses = s.configured_amount_of_addresses + 1;
        },
        true,
      )
    ]

pub clear_addresses : {F V : Type 0} → AnnounceStorage F V → AnnounceStorage F V
unfolding cleared_address
clear_addresses s = record s {
  addresses = map cleared_address s.addresses;
  configured_amount_of_addresses = 0;
}

-- `AnnounceStorage_getAddressToTransmit`: `none` is beyond the array.
pub get_address_to_transmit : {F V : Type 0} → AnnounceStorage F V → ℕ → Option AddressDefinition
get_address_to_transmit s id = get_elem? s.addresses id
