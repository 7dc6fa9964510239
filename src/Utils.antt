-- ===== src/Utils.antt =====
-- src/ZToolLib/ztl_utils.c: binary search, numbers and strings.
pub mod Search
pub mod Numbers
pub mod Decimal
pub mod Text
pub mod Pieces
mod Tests
