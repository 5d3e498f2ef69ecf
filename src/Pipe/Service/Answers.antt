-- ===== src/Pipe/Service/Answers.antt =====
-- How often a message is answered, and how often it waits, by the parts of the operations.
pub mod All
use semper_os.Base.{
  ℕ, zero, suc, ◌+◌, Bool, true, false, List, [], ◌∷◌, ◌++◌, Option, none, some, ltb, ◌==◌, ◌&&◌,
  if◌then◌else◌, ◌≡◌, refl, arith, inl, inr, Option-cases,
}
use semper_os.Base.Errors.{ErrorCode}
use semper_os.Pipe.RingBuf.{RingBuf, get_read_pos, get_write_pos, pull, push}
use semper_os.Pipe.Session.{
  Handler, Session, Request, Reply, Out, read_answer, write_answer, code_answer, answering,
  and_then, serve_reads, serve_writes, end_writes, handle_pending_read, handle_pending_write,
  pull_last, push_last, append_read, append_write, read_now, read_next, read, write_now, write_next,
  write, append_request, is_busy,
}
use semper_os.Pipe.Service.{
  Event, reads, writes, attaches, closes, obtains, handle, run, obtain, attach, close_reader,
  close_writer, release_reader, release_writer,
}

abbrev pub msg_of : Reply → ℕ
msg_of (read_answer msg pos amount id) = msg
msg_of (write_answer msg pos id) = msg
msg_of (code_answer msg code) = msg

-- How often is message `m` answered?
abbrev pub answered : ℕ → List Reply → ℕ
answered m [] = 0
answered m (a ∷ rest) = (if msg_of a == m then 1 else 0) + answered m rest

abbrev pub queued : ℕ → List Request → ℕ
queued m [] = 0
queued m (r ∷ rs) = (if r.msg == m then 1 else 0) + queued m rs

abbrev pub waits_at : ℕ → Option Handler → ℕ
waits_at m none = 0
waits_at m (some h) = queued m h.pending

-- How often does `m` wait?
abbrev pub times_queued : ℕ → Session → ℕ
times_queued m s = waits_at m s.reader + waits_at m s.writer

abbrev pub event_msg : Event → ℕ
event_msg (reads r id) = r.msg
event_msg (writes r id) = r.msg
event_msg (attaches msg reading) = msg
event_msg (closes msg reading id) = msg
event_msg (obtains msg capcount) = msg

-- How often do clients send it?
abbrev pub sent : ℕ → List Event → ℕ
sent m [] = 0
sent m (e ∷ es) = (if event_msg e == m then 1 else 0) + sent m es

-- `k` times more than before, `m` is answered or waits.
abbrev pub Accounts : ℕ → ℕ → Session → Out → Type 0
Accounts m k s o =
    (out : List Reply) (s' : Session)
    → o ≡ some (out, s')
    → answered m out + times_queued m s' ≡ k + times_queued m s

answered-append :
    (m : ℕ) (xs ys : List Reply) → answered m (xs ++ ys) ≡ answered m xs + answered m ys
answered-append m [] ys = omega arith
answered-append m (x ∷ xs) ys = omega (arith, answered-append m xs ys)

queued-append : (m : ℕ) (xs ys : List Request) → queued m (xs ++ ys) ≡ queued m xs + queued m ys
queued-append m [] ys = omega arith
queued-append m (x ∷ xs) ys = omega (arith, queued-append m xs ys)

pub Accounts-and_then :
    (m k l : ℕ) (s : Session) (o : Out) (f : Session → Out)
    → Accounts m k s o
    → ((s' : Session) → Accounts m l s' (f s'))
    → Accounts m (k + l) s (and_then o f)
Accounts-and_then m k l s none f h g out s' e = ground arith
Accounts-and_then m k l s (some (xs, t)) f h g out s' e = elim (Option-cases (f t)) [
  | inl q ↦ ground (arith, q)
  | inr (r, q) ↦ ground (arith, q, h xs t refl, g t r.0 r.1 (q), answered-append m xs r.0)
]

serve_reads-queued :
    (m : ℕ) (rs : List Request) (eof : Bool) (h : Handler) (b : RingBuf)
    → let (out, h') = serve_reads rs eof h b in answered m out + queued m h'.pending ≡ queued m rs
unfolding serve_reads
serve_reads-queued m [] eof h b = refl
serve_reads-queued m (r ∷ rs) eof h b = ground (arith, serve_reads-queued m rs eof h b)

serve_writes-queued :
    (m : ℕ) (rs : List Request) (h : Handler) (b : RingBuf)
    → h.pending ≡ rs
    → let (out, h', b') = serve_writes rs h b in answered m out + queued m h'.pending ≡ queued m rs
unfolding serve_writes
serve_writes-queued m [] h b e = ground arith
serve_writes-queued m (r ∷ rs) h b e = ground arith

end_writes-queued : (m : ℕ) (rs : List Request) → answered m (end_writes rs) ≡ queued m rs
end_writes-queued m [] = refl
end_writes-queued m (r ∷ rs) = omega (arith, end_writes-queued m rs)

pub pending_read-Accounts : (m : ℕ) (s : Session) → Accounts m 0 s (handle_pending_read s)
unfolding handle_pending_read
pending_read-Accounts m s out s' e = elim (Option-cases s.reader) [
  | inl q ↦ ground (arith, q)
  | inr (h, q) ↦ ground (arith, q, serve_reads-queued m h.pending s.write_eof h s.rbuf)
]

pub pending_write-Accounts : (m : ℕ) (s : Session) → Accounts m 0 s (handle_pending_write s)
unfolding handle_pending_write
pending_write-Accounts m s out s' e = elim (Option-cases s.writer) [
  | inl q ↦ ground (arith, q)
  | inr (h, q) ↦
      ground
        (arith, q, serve_writes-queued m h.pending h s.rbuf refl, end_writes-queued m h.pending)
]

pub pull_last-Accounts :
    (m : ℕ) (h : Handler) (s : Session) → s.reader ≡ some h → Accounts m 0 s (pull_last h s)
unfolding pull_last
pull_last-Accounts m h s q out s' e = ground arith

pub push_last-Accounts :
    (m : ℕ) (h : Handler) (s : Session) → s.writer ≡ some h → Accounts m 0 s (push_last h s)
unfolding push_last
push_last-Accounts m h s q out s' e = ground arith

-- A request counts once.
abbrev pub once : ℕ → ℕ → ℕ
once m msg = if msg == m then 1 else 0

pub append_read-Accounts :
    (m : ℕ) (r : Request) (s : Session) → Accounts m (once m r.msg) s (append_read r s)
unfolding append_read
append_read-Accounts m r s out s' e = elim (Option-cases s.reader) [
  | inl q ↦ ground (arith, q)
  | inr (h, q) ↦ ground (arith, q, queued-append m h.pending (r ∷ []))
]

pub append_write-Accounts :
    (m : ℕ) (r : Request) (s : Session) → Accounts m (once m r.msg) s (append_write r s)
unfolding append_write
append_write-Accounts m r s out s' e = elim (Option-cases s.writer) [
  | inl q ↦ ground (arith, q)
  | inr (h, q) ↦ ground (arith, q, queued-append m h.pending (r ∷ []))
]

pub read_now-Accounts :
    (m : ℕ) (r : Request) (s : Session) → Accounts m (once m r.msg) s (read_now r s)
unfolding read_now
read_now-Accounts m r s out s' e = ground (arith, append_read-Accounts m r s out s')

pub write_now-Accounts :
    (m : ℕ) (r : Request) (s : Session) → Accounts m (once m r.msg) s (write_now r s)
unfolding write_now
write_now-Accounts m r s out s' e = ground (
  arith,
  append_write-Accounts m r (record s { rbuf = (get_write_pos r.amount s.rbuf).1 }) out s',
)

-- Of two ways to go on, either accounts for `m`.
pub Accounts-if :
    (m k : ℕ) (s : Session) (b : Bool) (x y : Out)
    → Accounts m k s x
    → Accounts m k s y
    → Accounts m k s (if b then x else y)
Accounts-if m k s true x y h g = h
Accounts-if m k s false x y h g = g

pub read_next-Accounts :
    (m : ℕ) (r : Request) (s : Session) → Accounts m (once m r.msg) s (read_next r s)
unfolding read_next
read_next-Accounts m r s out s' e = ground (
  arith,
  read_now-Accounts m r s out s',
  Accounts-and_then m 0 (once m r.msg) s (handle_pending_read s)
      (λ s. if s.write_eof then read_now r s else append_read r s) (pending_read-Accounts m s)
      (λ t.
        Accounts-if m _ t t.write_eof _ _ (read_now-Accounts m r t) (append_read-Accounts m r t))
      out s',
)
