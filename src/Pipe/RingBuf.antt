-- ===== src/Pipe/RingBuf.antt =====
-- `VarRingBuf` of apps/pipeserv/VarRingBuf.h: positions in the memory that a pipe's readers and
-- writers share. `-1` as a position is `none`; so is a failed assertion of `push` and `pull`.
pub mod Contents
pub mod Write
pub mod Read
use semper_os.Base.{
  ℕ, ◌+◌, ◌*◌, ◌/◌, ◌%◌, min, Bool, Option, none, some, ltb, leb, ◌==◌, if◌then◌else◌, add64, sub64,
}

abbrev pub dtu_pkg_size : ℕ
dtu_pkg_size = 8

pub record RingBuf : Type 0 where
  pub size : ℕ
  pub rdpos : ℕ
  pub wrpos : ℕ
  pub last : ℕ

-- The constructor. Its assertion is on the one bit `DTU_PKG_SIZE` of the size.
unfoldable pub ring_buf : ℕ → Option RingBuf
ring_buf size =
    if (size / dtu_pkg_size) % 2 == 0
    then some (record { size = size; rdpos = 0; wrpos = 0; last = 0 })
    else none

abbrev pub is_empty : RingBuf → Bool
is_empty b = b.rdpos == b.wrpos

-- `Math::round_up` to a multiple of `DTU_PKG_SIZE`.
abbrev pub round_up : ℕ → ℕ
round_up value = add64 value 7 / dtu_pkg_size * dtu_pkg_size

-- The second part of `get_write_pos`.
unfoldable pub room_at : ℕ → RingBuf → Option ℕ
room_at n b =
    if leb b.rdpos b.wrpos
    then if leb n (sub64 b.size b.wrpos)
      then some b.wrpos
      else if ltb n b.rdpos
      then some 0
      else none
    else if ltb n (sub64 b.rdpos b.wrpos)
    then some b.wrpos
    else none

-- Both positions move up to a multiple of the packet size, if nothing is left to read.
unfoldable pub get_write_pos : ℕ → RingBuf → Option ℕ × RingBuf
unfolding room_at
get_write_pos n b =
    let p = round_up b.wrpos in
    let b' = record b { wrpos = p; rdpos = p } in
    if b.wrpos % dtu_pkg_size == 0
    then (room_at n b, b)
    else if is_empty b
    then (room_at n b', b')
    else (none, b)

-- The start of what can be read.
abbrev pub read_start : RingBuf → ℕ
read_start b = if b.rdpos == b.last then 0 else b.rdpos

-- `get_read_pos`: the position and the size.
unfoldable pub get_read_pos : ℕ → RingBuf → Option (ℕ × ℕ)
get_read_pos n b =
    let r = read_start b in
    if b.wrpos == b.rdpos
    then none
    else some (r, if ltb r b.wrpos then min (sub64 b.wrpos r) n else min (sub64 b.size r) n)

unfoldable pub push : ℕ → RingBuf → Option RingBuf
push n b =
    let next = record b { wrpos = add64 b.wrpos n } in
    if b.wrpos % dtu_pkg_size == 0
    then some (
        if leb b.rdpos b.wrpos
        then if leb n (sub64 b.size b.wrpos)
          then next
          else if ltb n b.rdpos
          then record b { last = b.wrpos; wrpos = n }
          else b
        else if ltb n (sub64 b.rdpos b.wrpos)
        then next
        else b)
    else none

unfoldable pub pull : ℕ → RingBuf → Option RingBuf
pull n b =
    if is_empty b
    then none
    else some (
        if b.rdpos == b.last
        then record b { rdpos = add64 0 n; last = 0 }
        else record b { rdpos = add64 b.rdpos n })
