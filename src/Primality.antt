-- ===== src/Primality.antt =====
-- The probable prime tests on the processor, new_src/primality_limbs.c and its siblings.
mod Tests
pub mod Exact
pub mod Limbs
pub mod Word
pub mod Window
pub mod Adapters
pub mod Big
pub mod Builtins
