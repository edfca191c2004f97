-- ===== src/Btree/Record.antt =====
-- btree.rs: `LogRecord`, a write as it goes into the log.
use rfs.Bytes.{Bytes}
use rfs.Entry.Kind.{EntryKind}

pub record LogRecord : Type 0 where
  pub sortable_key : Bytes
  pub kind : EntryKind
  pub value : Bytes
