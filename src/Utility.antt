-- ===== src/Utility.antt =====
-- execution/utility/src: the containers of pointers the engine keeps its tokens and messages in.
pub mod Erase
pub mod Expired
pub mod AutoList
pub mod AutoSet
