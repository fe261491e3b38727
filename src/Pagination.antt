-- ===== src/Pagination.antt =====
-- shared: parsing of page queries, filters and sorting.
pub mod Texts
pub mod Sort
pub mod Terms
pub mod Filters
pub mod Where
pub mod Tests
