-- ===== src/Tests/Keyed.antt =====
-- Keys and values of the file system, the rows that a snapshot sees, and the device in memory.
use rfs.Prelude.{
  ℕ, ◌+◌, ◌-◌, ◌≡◌, ◌↔◌, refl, true, ◌&&◌, List, [], ◌∷◌, ◌++◌, arith, length, ltb, leb,
  if◌then◌else◌,
}
use rfs.Prelude.Outcome.{ok}
use rfs.Bytes.{Bytes, compare_bytes, to_be}
use rfs.Device.Mem.{MemDevice, write_at, byte_at-write_at}
use rfs.Device.Positions.{byte_at}
use rfs.Entry.Kind.{live, whiteout}
use rfs.Visible.{Row, visible_rows}
use rfs.Visible.Rows.{IsAscending, IsStrict, find_row, deciding, if_live, visible_rows_lem}
use rfs.Fs.Keys.{dirent_key, dirent_range, extent_key, extent_range}
use rfs.Fs.Keys.Range.{in_range, extent_range_iff, dirent_range_iff}

abbrev ino_7 : ℕ
ino_7 = 7

extent_range_iff_example : (in_range (extent_range 7) (extent_key 7 4096) ≡ true) ↔ (ino_7 ≡ ino_7)
extent_range_iff_example = extent_range_iff 7 7 4096 (omega arith) (omega arith) (omega arith)

abbrev name : Bytes
name = 97 ∷ 98 ∷ []

abbrev name_key : Bytes
name_key = (2 ∷ to_be 8 7) ++ name

name_key_run : dirent_key 7 name ≡ ok name_key
unfolding dirent_key
name_key_run = refl

dirent_range_iff_example : (in_range (dirent_range 6) name_key ≡ true) ↔ (ino_7 ≡ 6)
dirent_range_iff_example =
    dirent_range_iff 6 7 name name_key (omega arith) (omega arith) name_key_run

abbrev disk : MemDevice
disk = record { contents = 1 ∷ 2 ∷ 3 ∷ [] }

byte_at-write_at_example : byte_at (write_at disk (8 ∷ 9 ∷ []) 2).contents 3 ≡ (
    if leb 2 3 && ltb 3 (2 + length name)
    then byte_at (8 ∷ 9 ∷ []) (3 - 2)
    else byte_at disk.contents 3)
byte_at-write_at_example = byte_at-write_at disk (8 ∷ 9 ∷ []) 2 3

-- A key that is whited out at snapshot 5, and one that is inherited from snapshot 9.
abbrev raw_rows : List Row
raw_rows =
    record { logical = 1 ∷ []; snap = 5; kind = whiteout; value = [] }
    ∷ record { logical = 1 ∷ []; snap = 9; kind = live; value = 7 ∷ [] }
    ∷ record { logical = 2 ∷ []; snap = 9; kind = live; value = 8 ∷ [] }
    ∷ []

raw_rows-IsAscending : IsAscending raw_rows
unfolding compare_bytes
raw_rows-IsAscending = (
  ((λ e. absurd (ground arith)), ((λ e. absurd (ground arith)), tt)),
  (((λ e. absurd (ground arith)), tt), (tt, tt)),
)

visible_rows_lem_example :
    IsStrict (visible_rows (5 ∷ 9 ∷ []) raw_rows)
    × ((k : Bytes)
        → find_row (visible_rows (5 ∷ 9 ∷ []) raw_rows) k
          ≡ if_live (deciding (5 ∷ 9 ∷ []) raw_rows k))
visible_rows_lem_example = visible_rows_lem (5 ∷ 9 ∷ []) raw_rows raw_rows-IsAscending
