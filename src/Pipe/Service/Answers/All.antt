-- ===== src/Pipe/Service/Answers/All.antt =====
-- Each operation answers its message once, or lets it wait.
use semper_os.Base.{
  ℕ, ◌-◌, Bool, true, false, List, [], ◌∷◌, some, ◌==◌, ◌&&◌, if◌then◌else◌, arith, inl, inr,
  Option-cases,
}
use semper_os.Base.Errors.{ErrorCode, no_error}
use semper_os.Pipe.Session.{
  Session, Request, and_then, handle_pending_read, handle_pending_write, pull_last, push_last,
  append_write, read_next, read, write_next, write, is_busy,
}
use semper_os.Pipe.Service.{
  Event, reads, writes, attaches, closes, obtains, handle, run, obtain, attach, close_reader,
  close_writer, release_reader, release_writer, answer_code,
}
use semper_os.Pipe.Service.Answers.{
  sent, event_msg, once, Accounts, Accounts-and_then, Accounts-if, pending_read-Accounts,
  pending_write-Accounts, pull_last-Accounts, push_last-Accounts, append_read-Accounts,
  append_write-Accounts, write_now-Accounts, read_next-Accounts,
}

write_next-Accounts :
    (m : ℕ) (r : Request) (s : Session) → Accounts m (once m r.msg) s (write_next r s)
unfolding write_next
write_next-Accounts m r s out s' e = ground (
  arith,
  write_now-Accounts m r s out s',
  Accounts-and_then m 0 (once m r.msg) s (handle_pending_write s) (append_write r)
      (pending_write-Accounts m s) (append_write-Accounts m r) out s',
)

read-Accounts :
    (m : ℕ) (r : Request) (id : ℕ) (s : Session) → Accounts m (once m r.msg) s (read r id s)
unfolding read
read-Accounts m r id s out s' e = elim (Option-cases s.reader) [
  | inl q ↦ ground (arith, q)
  | inr (h, q) ↦ ground (
    arith,
    q,
    read_next-Accounts m r s out s',
    append_read-Accounts m r s out s',
    Accounts-and_then m 0 (once m r.msg) s (and_then (pull_last h s) handle_pending_write)
        (read_next r)
        (Accounts-and_then m 0 0 s (pull_last h s) handle_pending_write (pull_last-Accounts m h s q)
          (pending_write-Accounts m))
        (read_next-Accounts m r) out s',
  )
]

write-Accounts :
    (m : ℕ) (r : Request) (id : ℕ) (s : Session) → Accounts m (once m r.msg) s (write r id s)
unfolding write
write-Accounts m r id s out s' e = elim (Option-cases s.writer) [
  | inl q ↦ ground (arith, q)
  | inr (h, q) ↦ ground (
    arith,
    q,
    write_next-Accounts m r s out s',
    append_write-Accounts m r s out s',
    Accounts-and_then m 0 (once m r.msg) s (and_then (push_last h s) handle_pending_read)
        (write_next r)
        (Accounts-and_then m 0 0 s (push_last h s) handle_pending_read (push_last-Accounts m h s q)
          (pending_read-Accounts m))
        (write_next-Accounts m r) out s',
  )
]

answer_code-Accounts :
    (m msg : ℕ) (code : ErrorCode) (s : Session)
    → Accounts m (once m msg) s (answer_code msg code s)
answer_code-Accounts m msg code s out s' e = ground arith

attach-Accounts :
    (m msg : ℕ) (reading : Bool) (s : Session) → Accounts m (once m msg) s (attach msg reading s)
unfolding attach
attach-Accounts m msg true s out s' e = ground arith
attach-Accounts m msg false s out s' e = ground arith

obtain-Accounts :
    (m msg capcount : ℕ) (s : Session) → Accounts m (once m msg) s (obtain msg capcount s)
unfolding obtain
obtain-Accounts m msg capcount s out s' e = ground arith

release_reader-Accounts : (m : ℕ) (s : Session) → Accounts m 0 s (release_reader s)
unfolding release_reader
release_reader-Accounts m s out s' e = elim (Option-cases s.reader) [
  | inl q ↦ ground (arith, q)
  | inr (h, q) ↦
      let t = record s { reader = some (record h { refs = h.refs - 1 }) } in
      ground (
        arith,
        q,
        Accounts-and_then m 0 0 t (handle_pending_read t) handle_pending_write
            (pending_read-Accounts m t) (pending_write-Accounts m) out s',
        pending_write-Accounts m (record t { read_eof = true }) out s',
      )
]

release_writer-Accounts : (m : ℕ) (s : Session) → Accounts m 0 s (release_writer s)
unfolding release_writer
release_writer-Accounts m s out s' e = elim (Option-cases s.writer) [
  | inl q ↦ ground (arith, q)
  | inr (h, q) ↦
      let t = record s { writer = some (record h { refs = h.refs - 1 }) } in
      ground (
        arith,
        q,
        Accounts-and_then m 0 0 t (handle_pending_write t) handle_pending_read
            (pending_write-Accounts m t) (pending_read-Accounts m) out s',
        pending_read-Accounts m (record t { write_eof = true }) out s',
      )
]

skip-Accounts : (m : ℕ) (s : Session) → Accounts m 0 s (some ([], s))
skip-Accounts m s out s' e = ground arith

close_reader-Accounts :
    (m msg id : ℕ) (s : Session) → Accounts m (once m msg) s (close_reader msg id s)
unfolding close_reader
close_reader-Accounts m msg id s out s' e = elim (Option-cases s.reader) [
  | inl q ↦ ground (arith, q)
  | inr (h, q) ↦
      let pulled = if is_busy h && h.lastid == id then pull_last h s else some ([], s) in
      ground (
        arith,
        q,
        Accounts-and_then m 0 (once m msg) s (and_then pulled release_reader)
            (answer_code msg no_error)
            (Accounts-and_then m 0 0 s pulled release_reader
              (Accounts-if m 0 s _ _ _ (pull_last-Accounts m h s q) (skip-Accounts m s))
              (release_reader-Accounts m))
            (answer_code-Accounts m msg no_error) out s',
      )
]

close_writer-Accounts :
    (m msg id : ℕ) (s : Session) → Accounts m (once m msg) s (close_writer msg id s)
unfolding close_writer
close_writer-Accounts m msg id s out s' e = elim (Option-cases s.writer) [
  | inl q ↦ ground (arith, q)
  | inr (h, q) ↦
      let pushed = if is_busy h && h.lastid == id then push_last h s else some ([], s) in
      ground (
        arith,
        q,
        Accounts-and_then m 0 (once m msg) s (and_then pushed release_writer)
            (answer_code msg no_error)
            (Accounts-and_then m 0 0 s pushed release_writer
              (Accounts-if m 0 s _ _ _ (push_last-Accounts m h s q) (skip-Accounts m s))
              (release_writer-Accounts m))
            (answer_code-Accounts m msg no_error) out s',
      )
]

handle-Accounts :
    (m : ℕ) (e : Event) (s : Session) → Accounts m (once m (event_msg e)) s (handle e s)
unfolding handle
handle-Accounts m (reads r id) s = read-Accounts m r id s
handle-Accounts m (writes r id) s = write-Accounts m r id s
handle-Accounts m (attaches msg reading) s = attach-Accounts m msg reading s
handle-Accounts m (closes msg true id) s = close_reader-Accounts m msg id s
handle-Accounts m (closes msg false id) s = close_writer-Accounts m msg id s
handle-Accounts m (obtains msg capcount) s = obtain-Accounts m msg capcount s

pub run-Accounts : (m : ℕ) (es : List Event) (s : Session) → Accounts m (sent m es) s (run es s)
unfolding run
run-Accounts m [] s = skip-Accounts m s
run-Accounts m (e ∷ es) s =
    Accounts-and_then m (once m (event_msg e)) (sent m es) s (handle e s) (run es)
      (handle-Accounts m e s) (run-Accounts m es)
