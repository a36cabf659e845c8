-- ===== src/Preprocessor.antt =====
-- cgull/preprocessor: symbolic conditions and exact queries about them.
pub mod Expression
pub mod Exec
pub mod Robdd
pub mod Branches
pub mod Profiles
