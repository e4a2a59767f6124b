-- ===== src/GapcoinWork.antt =====
-- new_src/gapcoin_work.c: the header that is hashed, the coinbase transaction, the merkle root and
-- the block that is submitted.
pub mod Encode
pub mod Coinbase
pub mod Work
pub mod Submission
mod Tests
