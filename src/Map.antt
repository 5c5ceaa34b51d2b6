-- ===== src/Map.antt =====
-- Maps: the elements of a map slab (map_element.go, map_elements.go, map_elements_nokey.go,
-- map_elements_hashkey.go) and the leaf that holds them (map_data_slab.go).
pub mod Slab
pub mod Hkey
pub mod Client
pub mod Single
pub mod Element
pub mod Lookup
