-- ===== src/Helper.antt =====
-- The offline helper, which applies what only a closed editor allows.
pub mod ProcessListing
