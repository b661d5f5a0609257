-- ===== src/Entropy.antt =====
-- internal/entropy: the whitening pipeline, the pool of conditioned bytes and its HTTP interface.
pub mod Whitening
pub mod Pool
pub mod HttpServer
