-- ===== src/Utils.antt =====
-- internal/utils: helpers that the other packages share.
pub mod Strings
pub mod Time
