-- ===== src/Fs/Result.antt =====
-- fs.rs: `FsError` and `FsResult`. A panic is a third outcome.
use rfs.Prelude.{Bool, true, false, Option, none, some}
use rfs.Prelude.Outcome.{Outcome, Error}

pub data FsError : Type 0 where
  btree : Error → FsError
  not_found not_a_directory not_empty already_exists exhausted invalid busy : FsError

pub data FsResult {ℓ} (A : Type ℓ) : Type ℓ where
  ok : A → FsResult A
  err : FsError → FsResult A
  panic : FsResult A

infixl 10 ◌>>=◌
abbrev pub ◌>>=◌ {ℓ κ} : {A : Type ℓ} {B : Type κ} → FsResult A → (A → FsResult B) → FsResult B
ok a >>= f = f a
err e >>= f = err e
panic >>= f = panic

-- `From<btree::Error>`, as the operator `?` applies it.
abbrev pub lift {ℓ} : {A : Type ℓ} → Outcome A → FsResult A
lift (Outcome.ok a) = ok a
lift (Outcome.err e) = err (FsError.btree e)
lift Outcome.panic = panic

-- `ok_or(FsError::NotFound)?`.
abbrev pub or_not_found {ℓ} : {A : Type ℓ} → Option A → FsResult A
or_not_found none = err FsError.not_found
or_not_found (some a) = ok a

-- `if test { return Err(e); }`.
abbrev pub refuse : Bool → FsError → FsResult (Unit {0})
refuse true e = err e
refuse false e = ok tt

-- A tree that a transaction left, unless it failed.
abbrev pub after {ℓ κ} : {A : Type ℓ} {B : Type κ} → Outcome A → B → FsResult B
after (Outcome.ok a) b = ok b
after (Outcome.err e) b = err (FsError.btree e)
after Outcome.panic b = panic
