-- ===== src/Journal/Frame/Kind.antt =====
-- storage.rs: `FrameKind`, what a journal frame carries.
pub data FrameKind : Type 0 where
  logged_op commit_end : FrameKind
