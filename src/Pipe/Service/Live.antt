-- ===== src/Pipe/Service/Live.antt =====
-- When a session is live: no assertion of its ring buffer will fail.
pub mod Steps
pub mod All
use semper_os.Base.{
  ℕ, zero, suc, ◌+◌, ◌-◌, ◌%◌, ◌^◌, ◌≤◌, ◌<◌, Bool, true, false, List, [], ◌∷◌, ◌++◌, Option, none,
  some, ltb, leb, add64, sub64, ◌==◌, ◌&&◌, if◌then◌else◌, ◌≡◌, ◌≢◌, ◌⊎◌, refl, arith, inl, inr,
  Option-cases,
}
use semper_os.Base.Errors.{ErrorCode, no_error}
use semper_os.Pipe.RingBuf.{RingBuf, read_start, get_read_pos, get_write_pos, room_at, pull, push}
use semper_os.Pipe.Session.{
  Handler, Session, Request, Reply, Out, code_answer, answering, serve_reads, serve_writes,
  and_then, handle_pending_read, handle_pending_write, pull_last, push_last, append_read,
  append_write, read_now, read_next, read, write_now, write_next, write, is_busy,
}

-- The positions lie in the memory; a reader that was given a range is yet to pull it, and a writer
-- that was given a position is yet to push.
abbrev pub Fits : ℕ → ℕ → RingBuf → Type 0
Fits taken given b =
    (b.size % 8 ≡ 0)
    × (b.size < 2 ^ 64)
    × (b.rdpos ≤ b.size)
    × (b.wrpos ≤ b.size)
    × ((b.wrpos < b.rdpos) ⊎ (b.last ≡ 0))
    × ((taken ≡ 0) ⊎ ((b.rdpos ≢ b.wrpos) × (read_start b + taken ≤ b.size)))
    × ((given ≡ 0) ⊎ (b.wrpos % 8 ≡ 0))

-- Both handlers are there.
abbrev pub IsLive : Session → Type 0
IsLive s =
    (h : Handler) × (g : Handler) × (s.reader ≡ some h)
    × (s.writer ≡ some g)
    × Fits h.last g.last s.rbuf

-- An operation has a result, and it is live.
abbrev pub Lives : Out → Type 0
Lives o = (out : List Reply) × (s : Session) × (o ≡ some (out, s)) × IsLive s

pub Lives-and_then :
    (o : Out) (f : Session → Out)
    → Lives o
    → ((s : Session) → IsLive s → Lives (f s))
    → Lives (and_then o f)
Lives-and_then o f (out, s, e, l) g =
    let (more, t, q, k) = g s l in (out ++ more, t, ground (arith, e, q), k)

abbrev pulled : ℕ → RingBuf → RingBuf
pulled k b =
    if b.rdpos == b.last
    then record b { rdpos = add64 0 k; last = 0 }
    else record b { rdpos = add64 b.rdpos k }

abbrev pushed : ℕ → RingBuf → RingBuf
pushed n b =
    let next = record b { wrpos = add64 b.wrpos n } in
    if leb b.rdpos b.wrpos
    then if leb n (sub64 b.size b.wrpos)
      then next
      else if ltb n b.rdpos
      then record b { last = b.wrpos; wrpos = n }
      else b
    else if ltb n (sub64 b.rdpos b.wrpos)
    then next
    else b

pub pull-Fits :
    (k g : ℕ) (b : RingBuf)
    → Fits k g b
    → 0 < k
    → (b' : RingBuf) × (pull k b ≡ some b') × Fits 0 g b'
unfolding pull
pull-Fits k g b v h = (pulled k b, ground arith, ground arith)

pub push-Fits :
    (k g : ℕ) (b : RingBuf)
    → Fits k g b
    → 0 < g
    → (b' : RingBuf) × (push g b ≡ some b') × Fits k 0 b'
unfolding push
push-Fits k g b v h = (pushed g b, ground arith, ground arith)

pub get_read_pos-Fits :
    (n k g : ℕ) (b : RingBuf) (p m : ℕ) → Fits k g b → get_read_pos n b ≡ some (p, m) → Fits m g b
unfolding get_read_pos
get_read_pos-Fits n k g b p m v e = ground arith

pub get_write_pos-Fits : (n k g : ℕ) (b : RingBuf) → Fits k g b → Fits k g (get_write_pos n b).1
unfolding get_write_pos room_at
get_write_pos-Fits n k g b v = ground arith

pub get_write_pos-given :
    (n k g : ℕ) (b : RingBuf) (p : ℕ) (b' : RingBuf)
    → Fits k g b
    → get_write_pos n b ≡ (some p, b')
    → Fits k n b'
unfolding get_write_pos room_at
get_write_pos-given n k g b p b' v e = ground arith
