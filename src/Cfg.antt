-- ===== src/Cfg.antt =====
-- cgull/cfg: the data-flow analyses of a function's control-flow graph.
pub mod Domains
pub mod Syntax
pub mod Literal
pub mod Affine
pub mod Ranges
pub mod FixedPoint
