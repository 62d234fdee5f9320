-- ===== src/Util.antt =====
-- metrics/util: what the processors share.
pub mod LabelCopier
