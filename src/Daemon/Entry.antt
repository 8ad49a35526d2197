-- ===== src/Daemon/Entry.antt =====
-- crates/watchwoman/src/daemon/tree.rs: what the index keeps of one path, and what it is made from.
use watchwoman.Base.{
  ℕ, ◌/◌, ◌%◌, ◌^◌, Bool, true, false, Option, none, some, nat_eq, list_eq, if◌then◌else◌,
}
use watchwoman.Base.Int.{ℤ, pos, negsuc, to_signed}
use watchwoman.Base.Text.{Text, ascii}

pub data FileKind : Type 0 where
  file dir symlink block char fifo socket unknown : FileKind

unfoldable pub as_wire_str : FileKind → Text
as_wire_str file = ascii "f"
as_wire_str dir = ascii "d"
as_wire_str symlink = ascii "l"
as_wire_str block = ascii "b"
as_wire_str char = ascii "c"
as_wire_str fifo = ascii "p"
as_wire_str socket = ascii "s"
as_wire_str unknown = ascii "?"

-- `std::fs::Metadata` on unix, as far as it is read. A time is in nanoseconds from the epoch.
pub record Metadata : Type 0 where
  pub is_symlink : Bool
  pub is_dir : Bool
  pub is_file : Bool
  pub is_block_device : Bool
  pub is_char_device : Bool
  pub is_fifo : Bool
  pub is_socket : Bool
  pub len : ℕ
  pub mode : ℕ
  pub uid : ℕ
  pub gid : ℕ
  pub ino : ℕ
  pub dev : ℕ
  pub nlink : ℕ
  pub modified : Option ℤ
  pub created : Option ℤ

pub record FileEntry : Type 0 where
  pub exists : Bool
  pub kind : FileKind
  pub size : ℕ
  pub mode : ℕ
  pub uid : ℕ
  pub gid : ℕ
  pub mtime_ns : ℕ
  pub ctime_ns : ℕ
  pub mtime_ms : ℤ
  pub ctime_ms : ℤ
  pub ino : ℕ
  pub dev : ℕ
  pub nlink : ℕ
  pub symlink_target : Option Text
  pub cclock : ℕ
  pub oclock : ℕ
  pub is_new : Bool

unfoldable pub missing : ℕ → FileEntry
missing clock_tick = record {
  exists = false;
  kind = unknown;
  size = 0;
  mode = 0;
  uid = 0;
  gid = 0;
  mtime_ns = 0;
  ctime_ns = 0;
  mtime_ms = pos 0;
  ctime_ms = pos 0;
  ino = 0;
  dev = 0;
  nlink = 0;
  symlink_target = none;
  cclock = clock_tick;
  oclock = clock_tick;
  is_new = false;
}

unfoldable pub classify_unix : Metadata → FileKind
classify_unix md =
    if md.is_block_device
    then block
    else if md.is_char_device
    then char
    else if md.is_fifo
    then fifo
    else if md.is_socket
    then socket
    else unknown

unfoldable pub kind_of : Metadata → FileKind
kind_of md =
    if md.is_symlink
    then symlink
    else if md.is_dir
    then dir
    else if md.is_file
    then file
    else classify_unix md

-- A time before the epoch, or none, is 0.
unfoldable pub metadata_time_ns : Option ℤ → ℕ
metadata_time_ns none = 0
metadata_time_ns (some (pos n)) = n
metadata_time_ns (some (negsuc n)) = 0

abbrev or_else : Option ℤ → Option ℤ → Option ℤ
or_else none t = t
or_else (some s) t = some s

-- `(ns / 1_000_000) as i64`.
unfoldable pub millis : ℕ → ℤ
millis ns = to_signed (2 ^ 63) (ns / 1_000_000 % 2 ^ 64)

unfoldable pub from_metadata : Metadata → Option Text → ℕ → FileEntry
from_metadata md target clock_tick =
    let mtime_ns = metadata_time_ns md.modified in
    let ctime_ns = metadata_time_ns (or_else md.created md.modified) in
    record {
      exists = true;
      kind = kind_of md;
      size = md.len;
      mode = md.mode;
      uid = md.uid;
      gid = md.gid;
      mtime_ns = mtime_ns;
      ctime_ns = ctime_ns;
      mtime_ms = millis mtime_ns;
      ctime_ms = millis ctime_ns;
      ino = md.ino;
      dev = md.dev;
      nlink = md.nlink;
      symlink_target = target;
      cclock = clock_tick;
      oclock = clock_tick;
      is_new = true;
    }
