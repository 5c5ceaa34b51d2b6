-- ===== src/Map/Single.antt =====
-- singleElement (map_element.go) and singleElements (map_elements_nokey.go): one key with its value,
-- and the list of those whose keys have the same digests at all levels.
use atree.Prelude.{
  ℕ, suc, Option, none, some, List, [], ◌∷◌, ◌++◌, ◌==◌, if◌then◌else◌, ltb, length, get_elem?, set,
  remove_at, add32, sub32, map, reverse,
}
use atree.Bytes.{Bytes8}
use atree.Errors.{
  Result, ok, err, new_unreachable_error, new_key_not_found_error, new_hash_level_error,
  new_index_out_of_bounds_error,
}
use atree.Action.{Action, pure, raise, ◌>>=◌}
use atree.Storage.Interface.{wrapped}
use atree.Settings.{
  Settings, single_element_prefix_size, single_elements_prefix_size, max_inline_map_value_size,
}
use atree.Map.Slab.{SingleElement, SingleElements}
use atree.Map.Client.{Client, Digester}

module _ {E : Type 0} (byte_size : E → ℕ) where
  unfoldable pub single_of : E → E → SingleElement E
  single_of key value = record {
    key = key;
    value = value;
    size = add32 (add32 single_element_prefix_size (byte_size key)) (byte_size value);
  }

module _ {E : Type 0} where
  unfoldable pub new_single_elements_with_element : ℕ → SingleElement E → SingleElements E
  new_single_elements_with_element level e = record {
    elems = e ∷ [];
    size = add32 single_elements_prefix_size e.size;
    level = level;
  }

  unfoldable pub size_of_singles : ℕ → List (SingleElement E) → ℕ
  size_of_singles size [] = size
  size_of_singles size (e ∷ es) = size_of_singles (add32 size e.size) es

  unfoldable pub with_single : SingleElements E → ℕ → SingleElement E → SingleElements E
  unfolding size_of_singles
  with_single g i e = record g {
    elems = set g.elems i e;
    size = size_of_singles single_elements_prefix_size (set g.elems i e);
  }

  unfoldable pub with_appended : SingleElements E → SingleElement E → SingleElements E
  with_appended g e = record g { elems = g.elems ++ e ∷ []; size = add32 g.size e.size }

  unfoldable pub without_single : SingleElements E → ℕ → SingleElement E → SingleElements E
  without_single g i e = record g { elems = remove_at g.elems i; size = sub32 g.size e.size }

  unfoldable pub single_at : SingleElements E → ℕ → Result (SingleElement E)
  single_at g i = elim (get_elem? g.elems i) [
    | some e ↦ ok e
    | none ↦ err (new_index_out_of_bounds_error i 0 (length g.elems))
  ]

  -- PopIterate: the calls of the callback, in order, and what is left.
  unfoldable pub pop_singles : SingleElements E → List (E × E) × SingleElements E
  pop_singles g = (
    reverse (map (λ e. (e.key, e.value)) g.elems),
    record g { elems = []; size = single_elements_prefix_size },
  )

module _ {E S V : Type 0} (client : Client E S V) (c : Settings) where
  unfoldable pub new_single_element : Bytes8 → V → V → Action S (SingleElement E)
  unfolding single_of
  new_single_element address key value = do
    ks ← wrapped (client.storable address c.max_inline_map_key_size key)
    vs ← wrapped (client.storable address (max_inline_map_value_size c (client.byte_size ks)) value)
    pure (single_of client.byte_size ks vs)

  -- The value of an existing key is overwritten.
  unfoldable pub overwritten : Bytes8 → SingleElement E → V → Action S (SingleElement E)
  unfolding single_of
  overwritten address e value = do
    vs ←
        wrapped
          (client.storable address (max_inline_map_value_size c (client.byte_size e.key)) value)
    pure (single_of client.byte_size e.key vs)

module _ {E S V : Type 0} (client : Client E S V) where
  unfoldable pub single_get : SingleElement E → V → Action S (E × E)
  single_get e key = do
    equal ← wrapped (client.comparator key e.key)
    if equal then pure (e.key, e.value) else raise new_key_not_found_error

  -- The linear search, from index `i`.
  unfoldable pub find_single :
      V → ℕ → List (SingleElement E) → Action S (Option (ℕ × SingleElement E))
  find_single key i [] = pure none
  find_single key i (e ∷ es) =
      let rest = find_single key (suc i) es in
      do equal ← wrapped (client.comparator key e.key); if equal then pure (some (i, e)) else rest

  abbrev at_last_level : {A : Type 0} → Digester → ℕ → Action S A → Action S A
  at_last_level d level action = if level == d.levels then action else raise new_hash_level_error

  unfoldable pub get_single : Digester → ℕ → V → SingleElements E → Action S (E × E × ℕ)
  unfolding find_single
  get_single d level key g = at_last_level d level (do
    found ← find_single key 0 g.elems
    elim found [ none ↦ raise new_key_not_found_error | some (i, e) ↦ pure (e.key, e.value, i) ])

  unfoldable pub remove_single :
      Digester → ℕ → V → SingleElements E → Action S (SingleElements E × E × E)
  unfolding find_single without_single
  remove_single d level key g = at_last_level d level (do
    found ← find_single key 0 g.elems
    elim found [
      | none ↦ raise new_key_not_found_error
      | some (i, e) ↦ pure (without_single g i e, e.key, e.value)
    ])

  -- The stored key comes back, with the old value if there was one.
  unfoldable pub set_single :
      Settings
      → Bytes8
      → Digester
      → ℕ
      → V
      → V
      → SingleElements E
      → Action S (SingleElements E × E × Option E)
  unfolding find_single new_single_element overwritten with_single with_appended
  set_single c address d level key value g = at_last_level d level (do
    found ← find_single key 0 g.elems
    elim found [
      | some (i, e) ↦ do
        e' ← overwritten client c address e value
        pure (with_single g i e', e.key, some e.value)
      | none ↦ do
        e ← new_single_element client c address key value
        pure (with_appended g e, e.key, none)
    ])

  -- getElementAndNextKey: the next key of the list comes back too.
  abbrev next_single : ℕ → List (SingleElement E) → Action S (Option E)
  next_single next elems = elim (get_elem? elems next) [
    | some e ↦ pure (some e.key)
    | none ↦ if ltb (length elems) next then raise new_unreachable_error else pure none
  ]

  unfoldable pub get_single_and_next :
      Digester → ℕ → V → SingleElements E → Action S (E × E × Option E)
  unfolding get_single
  get_single_and_next d level key g = do
    r ← get_single d level key g
    next ← next_single (suc (r.2)) g.elems
    pure (r.0, r.1, next)
