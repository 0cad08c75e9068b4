-- ===== src/Collections.antt =====
pub mod Queue
