-- ===== src/Search.antt =====
-- The search module (src/search_module.cc, include/search_module.hpp).
pub mod Edit
pub mod Rank
pub mod Handle
