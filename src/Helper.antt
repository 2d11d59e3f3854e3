-- ===== src/Helper.antt =====
-- `index_repair_helper.py`: the bounds of a candidate index, the fingerprint of a volume, and the
-- removal of an incomplete last record. Files are lists of bytes.
pub mod Needle
pub mod Bounds
pub mod Fingerprint
pub mod Tail
mod Tests
