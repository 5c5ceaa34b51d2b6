-- ===== src/Tests/Nodes.antt =====
-- Inner nodes with a few children.
use atree.Prelude.{
  ℕ, ◌+◌, ◌*◌, ◌≡◌, refl, arith, List, [], ◌∷◌, ◌++◌, none, some, length, add32, take, drop, set,
  remove_at, Bool, true,
}
use atree.Errors.{ok}
use atree.Array.Slab.{ArraySlabHeader, ArrayMetaDataSlab}
use atree.Array.Meta.{
  count_sums, child_slab_index_info, merge, split_of, lend_to_right, borrow_from_right,
}
use atree.Array.Meta.Shape.{IsMeta, AreFilled, counts}
use atree.Array.Meta.Search.{Finds, child_slab_index_info-Finds}
use atree.Array.Meta.Rebalance.{
  Shares, split_of-Shares, merge_lem, lend_to_right_lem, borrow_from_right_lem,
}
use atree.Array.Tree.{ArraySlab, node, plan, with_split, with_rebalanced, with_merged}
use atree.Array.Tree.Parent.{with_split_lem, with_rebalanced_lem, with_merged_lem}
use atree.Array.Tree.Siblings.{Fits, plan-Fits}
use atree.Array.Ops.{insert_place, with_one_more}
use atree.Array.Ops.Place.{Accepts, insert_place-Accepts}
use atree.Array.Ops.Count.{Recounts, with_one_more_lem}
use atree.Tests.Objects.{id_of}

abbrev Node : Type 0
Node = ArrayMetaDataSlab (Unit {0})

abbrev child : ℕ → ArraySlabHeader
child n = record { slab_id = id_of 1 n; size = 200; count = n }

abbrev node_at : ℕ → List ArraySlabHeader → List ℕ → Node
node_at index hs sums = record {
  header = record { slab_id = id_of 1 index; size = 12 + 14 * length hs; count = counts hs };
  children_headers = hs;
  children_count_sum = sums;
  extra_data = none;
}

abbrev wide : Node
wide = node_at 20 (child 3 ∷ child 4 ∷ child 5 ∷ []) (3 ∷ 7 ∷ 12 ∷ [])

abbrev narrow : Node
narrow = node_at 21 (child 6 ∷ []) (6 ∷ [])

wide-IsMeta : IsMeta wide
unfolding count_sums add32
wide-IsMeta = record {
  sized = refl;
  counted = refl;
  summed = refl;
  fits = omega arith;
  few = omega arith;
}

narrow-IsMeta : IsMeta narrow
unfolding count_sums add32
narrow-IsMeta = record {
  sized = refl;
  counted = refl;
  summed = refl;
  fits = omega arith;
  few = omega arith;
}

wide-AreFilled : AreFilled wide.children_headers
wide-AreFilled = omega arith

child_slab_index_info-Finds_example :
    (j : ℕ) × (i : ℕ) × (h : ArraySlabHeader) × (child_slab_index_info wide 5
      ≡ ok (j, i, h.slab_id))
    × Finds wide.children_headers 5 j i h
child_slab_index_info-Finds_example =
    child_slab_index_info-Finds wide wide-IsMeta 5 wide-AreFilled (omega arith)

split_of-Shares_run :
    Shares wide.children_headers wide.header.slab_id
      (id_of 1 5)
      (split_of (id_of 1 5) wide).0
      (split_of (id_of 1 5) wide).1
split_of-Shares_run = split_of-Shares (id_of 1 5) wide wide-IsMeta

merge_lem_run :
    (m : Node) × (merge wide narrow ≡ ok m)
    × IsMeta m
    × (m.children_headers ≡ wide.children_headers ++ narrow.children_headers)
    × (m.header.slab_id ≡ wide.header.slab_id)
merge_lem_run =
    merge_lem wide narrow wide-IsMeta narrow-IsMeta (omega arith) (omega arith) (omega arith)

lend_to_right_lem_run :
    (l : Node) × (r : Node) × (lend_to_right wide narrow ≡ ok (l, r))
    × Shares
        (wide.children_headers ++ narrow.children_headers)
        wide.header.slab_id
        narrow.header.slab_id
        l
        r
lend_to_right_lem_run =
    lend_to_right_lem wide narrow wide-IsMeta narrow-IsMeta (omega arith) (omega arith)
      (omega arith)

borrow_from_right_lem_run :
    (l : Node) × (r : Node) × (borrow_from_right narrow wide ≡ ok (l, r))
    × Shares
        (narrow.children_headers ++ wide.children_headers)
        narrow.header.slab_id
        wide.header.slab_id
        l
        r
borrow_from_right_lem_run =
    borrow_from_right_lem narrow wide narrow-IsMeta wide-IsMeta (omega arith) (omega arith)
      (omega arith)

with_split_lem_example :
    (m : Node) × (with_split wide 1 (child 3) (child 1) ≡ ok m)
    × IsMeta m
    × (m.children_headers
        ≡ take 1 wide.children_headers ++ child 3 ∷ child 1 ∷ drop 2 wide.children_headers)
with_split_lem_example =
    with_split_lem wide wide-IsMeta 1 (child 4) (child 3) (child 1) refl refl (omega arith)

with_rebalanced_lem_run :
    (m : Node) × (with_rebalanced wide 1 4 (child 6) (child 3) ≡ ok m)
    × IsMeta m
    × (m.children_headers ≡ set (set wide.children_headers 1 (child 6)) 2 (child 3))
with_rebalanced_lem_run =
    with_rebalanced_lem wide wide-IsMeta 1 (child 4) (child 5) (child 6) (child 3) refl refl refl

with_merged_lem_example :
    (m : Node) × (with_merged wide 0 (child 7) ≡ ok m)
    × IsMeta m
    × (m.children_headers ≡ remove_at (set wide.children_headers 0 (child 7)) 1)
with_merged_lem_example =
    with_merged_lem wide wide-IsMeta 0 (child 3) (child 4) (child 7) refl refl refl

always : ArraySlab ℕ (Unit {0}) → Bool
always s = true

plan-Fits_run :
    Fits always always
      (some (node wide))
      (some (node narrow))
      (plan always always (some (node wide)) (some (node narrow)))
plan-Fits_run = plan-Fits always always (some (node wide)) (some (node narrow))

insert_place_at_end :
    (j : ℕ) × (i : ℕ) × (h : ArraySlabHeader) × (insert_place wide 12 ≡ ok (j, i, h.slab_id))
    × Accepts wide.children_headers 12 j i h
insert_place_at_end =
    insert_place-Accepts wide 12 wide-IsMeta (omega arith) (omega arith) (omega arith)

with_one_more-wide :
    (m : Node) × (with_one_more wide 1 (child 5) ≡ ok m) × Recounts wide m 1 (child 5)
with_one_more-wide =
    with_one_more_lem wide wide-IsMeta 1 (child 4) (child 5) refl refl (omega arith)
