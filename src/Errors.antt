-- ===== src/Errors.antt =====
-- errors.go: the errors that the modelled code returns, and their three categories. Messages and
-- wrapped error texts are left out, and the cause keeps the numbers and IDs that the source keeps.
use atree.Prelude.{ℕ}
use atree.Ids.{SlabId}

pub data Cause : Type 0 where
  index_out_of_bounds : ℕ → ℕ → ℕ → Cause
  slice_out_of_bounds : ℕ → ℕ → ℕ → ℕ → Cause
  invalid_slice_index : ℕ → ℕ → Cause
  not_value : SlabId → Cause
  slab_not_found : SlabId → Cause
  collision_limit : ℕ → Cause
  slab_id_error slab_split slab_merge slab_rebalance slab_data encoding decoding : Cause
  key_not_found hash_level map_element_count not_applicable unreachable other : Cause

-- An `error` value. One that a client's interface returns is `uncategorized`, with a number of the
-- client's own.
pub data Error : Type 0 where
  user fatal : Cause → Error
  external uncategorized : ℕ → Error

pub data Result {ℓ} (A : Type ℓ) : Type ℓ where
  ok : A → Result A
  err : Error → Result A
  -- a Go panic: an index out of range, a failed type assertion or a nil dereference
  panic : Result A

infixl 5 ◌>>=◌ ◌>>◌
abbrev pub ◌>>=◌ {ℓ κ} : {A : Type ℓ} {B : Type κ} → Result A → (A → Result B) → Result B
ok a >>= f = f a
err e >>= f = err e
panic >>= f = panic

abbrev pub ◌>>◌ {ℓ} : {B : Type ℓ} → Result (Unit {0}) → Result B → Result B
m >> k = m >>= λ _. k

-- `wrapErrorfAsExternalErrorIfNeeded`: a categorized error is left as it is.
unfoldable pub wrap_error_as_external_if_needed : Error → Error
wrap_error_as_external_if_needed (user c) = user c
wrap_error_as_external_if_needed (fatal c) = fatal c
wrap_error_as_external_if_needed (external n) = external n
wrap_error_as_external_if_needed (uncategorized n) = external n

-- The same on the result of a call of a client's interface.
unfoldable pub wrap_result {ℓ} : {A : Type ℓ} → Result A → Result A
wrap_result (ok a) = ok a
wrap_result (err e) = err (wrap_error_as_external_if_needed e)
wrap_result panic = panic

-- The constructors of errors that the modelled code calls, with their categories.
unfoldable pub new_index_out_of_bounds_error : ℕ → ℕ → ℕ → Error
new_index_out_of_bounds_error i lo hi = user (index_out_of_bounds i lo hi)

unfoldable pub new_slab_id_error : Error
new_slab_id_error = fatal slab_id_error

unfoldable pub new_slab_not_found_error : SlabId → Error
new_slab_not_found_error id = fatal (slab_not_found id)

unfoldable pub new_slab_split_error : Error
new_slab_split_error = fatal slab_split

unfoldable pub new_slab_data_error : Error
new_slab_data_error = fatal slab_data

unfoldable pub new_slab_merge_error : Error
new_slab_merge_error = fatal slab_merge

unfoldable pub new_slab_rebalance_error : Error
new_slab_rebalance_error = fatal slab_rebalance

-- The errors of maps. The key of a KeyNotFoundError is left out.
unfoldable pub new_key_not_found_error : Error
new_key_not_found_error = user key_not_found

unfoldable pub new_hash_level_error : Error
new_hash_level_error = fatal hash_level

unfoldable pub new_collision_limit_error : ℕ → Error
new_collision_limit_error limit = fatal (collision_limit limit)

unfoldable pub new_map_element_count_error : Error
new_map_element_count_error = fatal map_element_count

unfoldable pub new_not_applicable_error : Error
new_not_applicable_error = fatal not_applicable

unfoldable pub new_unreachable_error : Error
new_unreachable_error = fatal unreachable

-- An error that has a category: what the library's own functions return.
pub data IsCategorized : Error → Type 0 where
  is_user : (c : Cause) → IsCategorized (user c)
  is_fatal : (c : Cause) → IsCategorized (fatal c)
  is_external : (n : ℕ) → IsCategorized (external n)

pub wrap_error-IsCategorized : (e : Error) → IsCategorized (wrap_error_as_external_if_needed e)
unfolding wrap_error_as_external_if_needed
wrap_error-IsCategorized (user c) = is_user c
wrap_error-IsCategorized (fatal c) = is_fatal c
wrap_error-IsCategorized (external n) = is_external n
wrap_error-IsCategorized (uncategorized n) = is_external n
