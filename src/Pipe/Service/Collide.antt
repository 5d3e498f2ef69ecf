-- ===== src/Pipe/Service/Collide.antt =====
-- Two writers of one pipe.
use semper_os.Base.{
  ℕ, ◌+◌, ◌%◌, ◌^◌, ◌<◌, ◌≤◌, false, List, [], ◌∷◌, some, ◌≡◌, refl, ap, ◌∙◌, ◌≢◌, arith,
}
use semper_os.Pipe.RingBuf.{get_write_pos, room_at, pull}
use semper_os.Pipe.Session.{
  Handler, Session, Request, Reply, write_answer, next_id, serve_writes, handle_pending_read,
  handle_pending_write, pull_last, append_read, append_write, read_now, read_next, read, write,
  append_request,
}
use semper_os.Pipe.Service.Live.{IsLive}
use semper_os.Pipe.Service.Live.All.{read_next-Lives}

-- The reading side leaves the writer alone.
read_next-writer :
    (r : Request) (s : Session) (out : List Reply) (s' : Session)
    → read_next r s ≡ some (out, s')
    → (s'.writer ≡ s.writer) × (s'.rbuf ≡ s.rbuf) × (s'.read_eof ≡ s.read_eof)
unfolding read_next read_now handle_pending_read append_read
read_next-writer r s out s' e = ground arith

-- What the reader leaves: its range is pulled, and the position is given to the writer that waits.
abbrev next_writer : Handler → Request → List Request → Handler
next_writer g w ws = record g { last = w.amount; lastid = next_id g; pending = ws }

abbrev pulled_from : Handler → Session → Session
pulled_from h s = record s {
  reader = some (record h { last = 0 });
  rbuf = record s.rbuf { rdpos = s.rbuf.rdpos + h.last };
}

abbrev given_to : Handler → Handler → Request → List Request → Session → Session
given_to h g w ws s = record (pulled_from h s) { writer = some (next_writer g w ws) }

pull_last-flat :
    (h : Handler) (s : Session)
    → s.rbuf.size < 2 ^ 64
    → 0 < h.last
    → s.rbuf.last ≡ 0
    → s.rbuf.rdpos + h.last ≤ s.rbuf.wrpos
    → s.rbuf.wrpos ≤ s.rbuf.size
    → pull_last h s ≡ some ([], pulled_from h s)
unfolding pull_last pull
pull_last-flat h s n k a z f = ground arith

pending_write-flat :
    (g : Handler) (w : Request) (ws : List Request) (s : Session)
    → s.writer ≡ some g
    → s.read_eof ≡ false
    → g.pending ≡ w ∷ ws
    → s.rbuf.rdpos ≤ s.rbuf.wrpos
    → s.rbuf.wrpos % 8 ≡ 0
    → s.rbuf.size < 2 ^ 64
    → s.rbuf.wrpos + w.amount ≤ s.rbuf.size
    → handle_pending_write s
      ≡ some (
        write_answer w.msg s.rbuf.wrpos (next_id g) ∷ [],
        record s { writer = some (next_writer g w ws) },
      )
unfolding handle_pending_write serve_writes get_write_pos room_at
pending_write-flat g w ws s q e f z a n d = ground arith

read_then :
    (h : Handler) (r : Request) (s s1 s2 s' : Session) (a : Reply) (out : List Reply)
    → s.reader ≡ some h
    → 0 < h.last
    → pull_last h s ≡ some ([], s1)
    → handle_pending_write s1 ≡ some (a ∷ [], s2)
    → read_next r s2 ≡ some (out, s')
    → read r h.lastid s ≡ some (a ∷ out, s')
unfolding read
read_then h r s s1 s2 s' a out p k x y z = ground arith

write_waits :
    (g : Handler) (r : Request) (id : ℕ) (s : Session)
    → s.writer ≡ some g
    → s.read_eof ≡ false
    → 0 < g.last
    → g.lastid ≢ id
    → write r id s ≡ some ([], record s { writer = some (append_request r g) })
unfolding write append_write
write_waits g r id s q e k n = ground arith

-- A writer was given a position and is yet to push, and another one waits. A reader comes back and
-- pulls what it has read: the writer that waits is given the same position, though the first one has
-- not pushed. And when the first one comes back, it waits too, and what it has written is not
-- pushed.
pub read_collides :
    (h g : Handler) (w : Request) (ws : List Request) (r r' : Request) (s : Session)
    → IsLive s
    → s.reader ≡ some h
    → s.writer ≡ some g
    → s.read_eof ≡ false
    → 0 < h.last
    → 0 < g.last
    → g.lastid < 2 ^ 32
    → g.pending ≡ w ∷ ws
    → 0 < w.amount
    → s.rbuf.last ≡ 0
    → s.rbuf.rdpos + h.last ≤ s.rbuf.wrpos
    → s.rbuf.wrpos % 8 ≡ 0
    → s.rbuf.wrpos + g.last ≤ s.rbuf.size
    → s.rbuf.wrpos + w.amount ≤ s.rbuf.size
    → (get_write_pos g.last s.rbuf ≡ (some s.rbuf.wrpos, s.rbuf))
      × (out : List Reply) × (s' : Session) × (read r h.lastid s
          ≡ some (write_answer w.msg s.rbuf.wrpos (next_id g) ∷ out, s'))
      × (s'.rbuf.wrpos ≡ s.rbuf.wrpos)
      × (s'' : Session) × (write r' g.lastid s' ≡ some ([], s''))
      × (s''.rbuf ≡ s'.rbuf)
unfolding get_write_pos room_at
read_collides h g w ws r r' s (h', g', p', q', v) p q eof k j i e a z f u c d =
    let t = given_to h g w ws s in
    let live : IsLive t = (record h { last = 0 }, next_writer g w ws, refl, refl, ground arith) in
    let (out, s', x, l) = read_next-Lives r t live in
    let (writer, rbuf, open_end) = read_next-writer r t out s' x in
    (
      ground arith,
      out,
      s',
      read_then h r s (pulled_from h s) t s' _ out p k (pull_last-flat h s v.1 k z f (omega arith))
          (pending_write-flat g w ws (pulled_from h s) q eof e f u v.1 d) x,
      ap (λ c. c.wrpos) rbuf,
      record s' { writer = some (append_request r' (next_writer g w ws)) },
      write_waits (next_writer g w ws) r' g.lastid s' writer (open_end ∙ eof) a (omega (arith, i)),
      refl,
    )
