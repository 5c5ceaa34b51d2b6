-- ===== src/Lib.antt =====
-- A model of atree, scalable arrays and ordered maps over a storage of slabs (Go).
--
-- The program keeps containers as trees of slabs. A slab has an ID (slab_id.go, value_id.go), and
-- its size in bytes is kept between thresholds (settings.go). Arrays are trees of leaves
-- (array_data_slab.go) and inner nodes (array_metadata_slab.go), which split, merge, lend and borrow
-- to stay within the thresholds; the array (array.go) holds the root and lets the tree grow and
-- shrink. Maps (map.go) are trees of the same kind, whose leaves (map_data_slab.go) hold elements by
-- the digests of their keys (map_elements_hashkey.go): keys with equal digests share a group
-- (map_element.go), which goes by the digests of the next level, and a plain list after the last
-- level (map_elements_nokey.go). The slabs live in a SlabStorage (storage.go): a BasicSlabStorage,
-- which is a map, or a PersistentSlabStorage, which keeps uncommitted changes over a read cache over
-- a base storage of encoded slabs; the two bytes at the head of an encoded slab say what it is
-- (flag.go, slab.go).
--
-- The files:
--   Prelude      shared names; lists, Boolean tests and unsigned words over the native numbers
--   Bytes        [8]byte and big-endian numbers
--   Ids, SlabId  SlabID, ValueID and their operations (slab_id.go, value_id.go)
--   Errors       errors and their categories (errors.go); a panic is a result too
--   Action       methods: a state goes in, and a result and a new state come out, also on an error
--   GoMap        map[SlabID]V as a list of entries, whose order stands for the order of `range`
--   Flag         the head of an encoded slab (flag.go, slab.go)
--   Settings     SetThreshold and the size constants (settings.go, array_size_consts.go,
--                map_size_consts.go)
--   Storage      storage.go: Base and Interface hold the interfaces, with what a storage promises
--                the arrays; Basic is BasicSlabStorage; Ledger is LedgerBaseStorage, over a
--                ledger; of PersistentSlabStorage, Persistent and Retrieve are the methods, View what
--                a client can read, Reads Retrieve after the other methods, Keys the keys to commit,
--                and Commit Commit and FastCommit
--   Array        Slab the data, Data the leaves, Meta the inner nodes, Tree what an inner node does
--                with children that are too large or too small, Ops the operations down the tree,
--                and Root the type Array of array.go. Below Ops, Under says which sequence of
--                elements a tree of slabs in a storage holds, and which IDs are its own, Read
--                and Inserted are about Get and Insert, and Carry about
--                MergeOrRebalanceChildSlab on leaves; below Root, Grow is about splitRoot, and
--                Create, Insert and Index about NewArray, Append, Insert and the positions of
--                mutable elements
--   Map          Slab the data, Client what the client gives a map, Hkey the slices of hkeyElements
--                with their search, updates, split, merge, lend and borrow, Single singleElement and
--                singleElements, Element the methods Get, Set and Remove of elements and groups. In
--                Hkey, Shape is the invariant, and Search, Update, Cut, Lend, Borrow and Join are
--                about one operation each; below Element, Fuel is about the fuel of Get; Lookup is
--                the finite map that elements stand for, with Get and Update about Get and Set
--   Tests        runs on small inputs
--
-- Parameters: the base storage, which is an interface (storage.go), with the laws IsLawfulBase,
-- which LedgerBaseStorage keeps over a ledger that keeps the promises IsLawfulLedger: a ledger
-- lies outside the repository's code; the encoder and decoder of slabs (Codec), which stand on a
-- CBOR library, and of which Commit relies on HasData and RoundTrips; the type of storables and
-- their sizes; a value's Storable and a storable's StoredValue methods, and the ID of a mutable
-- value; for maps, the comparison of keys and the digests of keys (Client), with the promises
-- IsLawfulClient, and the Get and Set of a MapMetaDataSlab (MetaSlabs). Arrays work over any
-- SlabStorage, whose promises are IsLawfulStorage.
--
-- Numbers: a uint32 or uint64 is a natural number, with wrap-around written out (add32, sub32 and so
-- on in Prelude/Words). Header sizes and counts are bounded by 2 ^ 30 and the like in the invariants
-- IsLeaf, IsDataSlab, IsMeta and IsHkeyElements, so that no sum of two wraps around. The binary search
-- runs on fuel, and its caller gives one unit more than there are sums, which is enough, since the span
-- shrinks in every round. The operations down a tree run on fuel for its depth, and panic without:
-- one unit more than the depth is enough. The methods of map elements run on fuel for the levels of
-- digests that are left, which is enough, since every group goes one level deeper and no digest
-- is asked for beyond the last level.
--
-- A method that changes its receiver returns the changed slab beside its result. Where such a method
-- fails after it has changed the slab, the model drops the changed slab, since the callers give up.
-- FastCommit takes the order in which the workers' results arrive as an argument; that all the jobs
-- are done is the workers' part of the model, for one worker or more. Empty encoded data stands for
-- a nil slice.
--
-- Of setCallbackWithChild, the entry in the array's index is modelled, and the callback that the
-- child gets is not, since it is a closure over both containers; the callback to an array's own
-- parent is a field of the model. Of Array.Set and Array.Remove, the methods set and remove that they
-- call first are modelled, and the un-inlining of the old element is not.
--
-- Not modelled: the inner nodes of maps and OrderedMap, encoding and decoding, iterators, batch
-- creation and copying of arrays, the storage's migration and preload methods, and the checking,
-- dumping and statistics code.
mod Prelude
pub mod Bytes
pub mod Ids
pub mod Errors
pub mod SlabId
pub mod Action
pub mod GoMap
pub mod Flag
pub mod Settings
pub mod Storage
pub mod Array
pub mod Map
mod Tests
