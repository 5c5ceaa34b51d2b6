-- ===== src/Tests/Objects.antt =====
-- A base storage held in memory (test_utils.go, InMemBaseStorage, is of this kind), a codec of
-- one-byte slabs, and some identifiers.
use atree.Prelude.{
  ℕ, zero, suc, ◌≡◌, ◌+◌, refl, arith, List, [], ◌∷◌, Option, none, some, Bool, true, false,
  if◌then◌else◌,
}
use atree.Ids.{SlabId, SlabId_eq_iff}
use atree.Errors.{Result, ok, err, new_slab_data_error}
use atree.GoMap
use atree.GoMap.{GoMap, lookup-insert, lookup-delete}
use atree.Settings.{Settings, IsSettings}
use atree.Storage.Base.{BaseStorage, Codec, IsLawfulBase}

abbrev pub id_of : ℕ → ℕ → SlabId
id_of address index = record {
  address = record { b0 = 0; b1 = 0; b2 = 0; b3 = 0; b4 = 0; b5 = 0; b6 = 0; b7 = address };
  index = record { b0 = 0; b1 = 0; b2 = 0; b3 = 0; b4 = 0; b5 = 0; b6 = 0; b7 = index };
}

unfoldable pub memory : BaseStorage (GoMap (List ℕ))
memory = record {
  store = λ id bytes b. (ok tt, GoMap.insert id bytes b);
  retrieve = λ id b. (ok (GoMap.lookup id b), b);
  remove = λ id b. (ok tt, GoMap.delete id b);
  generate_slab_id = λ address b. (ok (record { address = address; index = (id_of 0 9).index }), b);
}

unfoldable pub memory_laws : IsLawfulBase memory
unfolding memory
memory_laws = record {
  read = λ b id. ok (GoMap.lookup id b);
  retrieve-read = λ id b. refl;
  read-retrieve = λ id j b. refl;
  store-other = λ id j bytes b h. ground (arith, lookup-insert id j bytes b, h);
  store-self = λ id bytes b h. ground (arith, lookup-insert id id bytes b, SlabId_eq_iff id id);
  remove-other = λ id j b h. ground (arith, lookup-delete id j b, h);
  remove-self = λ id b h. ground (arith, lookup-delete id id b, SlabId_eq_iff id id);
  generate-read = λ address id b. refl;
}

unfoldable pub decode_byte : List ℕ → Result ℕ
decode_byte (n ∷ []) = ok n
decode_byte _ = err new_slab_data_error

-- The slab 255 has no encoding.
unfoldable pub encode_byte : ℕ → Result (List ℕ)
encode_byte n = if atree.Prelude.◌==◌ n 255 then err new_slab_data_error else ok (n ∷ [])

unfoldable pub byte_codec : Codec ℕ
unfolding decode_byte encode_byte
byte_codec = record {
  encode_slab = encode_byte;
  decode_slab = λ id. decode_byte;
  byte_size = λ n. 1;
}

-- The settings for a threshold of 256 bytes.
abbrev pub small_settings : Settings
small_settings = record {
  target_threshold = 256;
  min_threshold = 128;
  max_threshold = 384;
  max_inline_array_element_size = 117;
  max_inline_map_element_size = 107;
  max_inline_map_key_size = 53;
}

pub small_settings-IsSettings : IsSettings small_settings
small_settings-IsSettings = omega arith
