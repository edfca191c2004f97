-- ===== src/Fuse.antt =====
-- fuse.rs: the helpers `validate_name` and `errno_for_fs_error`. `Errno` has the values of the FUSE
-- library's type that they return.
use rfs.Prelude.{
  ℕ, ◌≤◌, ◌≡◌, refl, Bool, true, false, ◌||◌, [], ◌∷◌, ◌++◌, arith, length, ltb, leb, if◌then◌else◌,
  ◌⊎◌, inl, inr,
}
use rfs.Prelude.Outcome.{ok}
use rfs.Bytes.{Bytes, to_be}
use rfs.Visible.{same_key}
use rfs.Leaf.{contains}
use rfs.Fs.Keys.{max_name_len, dirent_key, kind_dirent}
use rfs.Fs.Result.{FsError}

pub data Errno : Type 0 where
  enoent enotdir enotempty eexist enospc einval ebusy eio enametoolong : Errno

-- `.` and `..`.
abbrev pub dot : Bytes
dot = 46 ∷ []

abbrev pub dot_dot : Bytes
dot_dot = 46 ∷ 46 ∷ []

unfoldable pub validate_name : Bytes → Errno ⊎ Bytes
unfolding same_key
validate_name bytes =
    if same_key bytes [] || (same_key bytes dot || same_key bytes dot_dot)
    then inl einval
    else if contains bytes 47 || contains bytes 0
    then inl einval
    else if ltb max_name_len (length bytes)
    then inl enametoolong
    else inr bytes

abbrev pub errno_for_fs_error : FsError → Errno
errno_for_fs_error FsError.not_found = enoent
errno_for_fs_error FsError.not_a_directory = enotdir
errno_for_fs_error FsError.not_empty = enotempty
errno_for_fs_error FsError.already_exists = eexist
errno_for_fs_error FsError.exhausted = enospc
errno_for_fs_error FsError.invalid = einval
errno_for_fs_error FsError.busy = ebusy
errno_for_fs_error (FsError.btree e) = eio

-- What a name that is accepted satisfies.
pub record IsName (name : Bytes) : Type 0 where
  pub not_empty : same_key name [] ≡ false
  pub not_dot : same_key name dot ≡ false
  pub not_dot_dot : same_key name dot_dot ≡ false
  pub no_slash : contains name 47 ≡ false
  pub no_nul : contains name 0 ≡ false
  pub short : length name ≤ max_name_len

abbrev refused : Errno → Errno ⊎ Bytes
refused e = inl e

accepted :
    (b c d e f : Bool) (n : ℕ) (name x : Bytes)
    → (if b || (c || d)
        then refused einval
        else if e || f
        then refused einval
        else if ltb max_name_len n
        then refused enametoolong
        else inr name)
      ≡ inr x
    → (b ≡ false)
      × (c ≡ false)
      × (d ≡ false)
      × (e ≡ false)
      × (f ≡ false)
      × (n ≤ max_name_len)
      × (name ≡ x)
accepted b c d e f n name x h = ground arith

-- A name that is accepted is returned as it is; it is not empty, not `.` or `..`, and without a slash
-- or a zero byte, and its directory key is made without a failed assertion.
pub validate_name-dirent_key :
    (parent : ℕ) (name x : Bytes)
    → validate_name name ≡ inr x
    → (name ≡ x)
      × IsName name
      × (dirent_key parent name ≡ ok ((kind_dirent ∷ to_be 8 parent) ++ name))
unfolding validate_name dirent_key
validate_name-dirent_key parent name x h =
    let (b, c, d, e, f, n, q) =
      accepted (same_key name []) (same_key name dot) (same_key name dot_dot) (contains name 47)
        (contains name 0) (length name) name x h in
    let fits : leb (length name) max_name_len ≡ true = ground arith in
    (
      q,
      record { not_empty = b; not_dot = c; not_dot_dot = d; no_slash = e; no_nul = f; short = n },
      rw fits refl,
    )
