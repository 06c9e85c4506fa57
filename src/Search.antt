-- ===== src/Search.antt =====
-- The search over published index generations: backend/wiseway/search.py and search_cache.py.
pub mod Cache
pub mod Words
pub mod Samples
pub mod Schemas
pub mod Items
pub mod Query
pub mod Match
pub mod Order
pub mod Facets
pub mod Results
pub mod Index
