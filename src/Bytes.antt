-- ===== src/Bytes.antt =====
-- The eight-byte arrays of slab_id.go, with the operations of Go's encoding/binary and bytes on
-- them.
mod Defs
mod Order
unfoldable pub use Defs.{be_uint64, put_uint64, Bytes8_eq, compare_bytes, of_list}
pub use Defs.{
  Bytes8, then_compare, IsByte8, to_list, undefined, Bytes8_eq_iff, be_uint64-put_uint64,
  put_uint64-be_uint64, put_uint64-IsByte8, be_uint64-lt, of_list-to_list,
}
pub use Order.{compare_bytes-be_uint64}
