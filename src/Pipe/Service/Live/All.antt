-- ===== src/Pipe/Service/Live/All.antt =====
-- Live sessions stay live, and each message has a result.
use semper_os.Base.{
  ℕ, ◌+◌, ◌-◌, Bool, true, false, List, [], ◌∷◌, some, ltb, ◌==◌, ◌&&◌, if◌then◌else◌, ◌≡◌, ◌<◌,
  refl, arith, subst, sym,
}
use semper_os.Base.Errors.{ErrorCode, no_error, inv_args, end_of_file}
use semper_os.Pipe.Session.{
  Handler, Session, Request, Reply, Out, and_then, handle_pending_read, handle_pending_write,
  pull_last, push_last, append_read, append_write, read_now, read_next, read, write_now, write_next,
  write, is_busy, is_waiting, code_answer,
}
use semper_os.Pipe.Service.{
  Event, reads, writes, attaches, closes, obtains, handle, run, obtain, attach, close_reader,
  close_writer, release_reader, release_writer, answer_code, with_ref,
}
use semper_os.Pipe.Service.Answers.{answered, times_queued, sent}
use semper_os.Pipe.Service.Answers.All.{run-Accounts}
use semper_os.Pipe.Service.Live.{IsLive, Lives, Lives-and_then}
use semper_os.Pipe.Service.Live.Steps.{
  pending_read-Lives, pending_write-Lives, pull_last-Lives, push_last-Lives, append_read-Lives,
  append_write-Lives, read_now-Lives, write_now-Lives,
}

Lives-equal : {o o' : Out} → o ≡ o' → Lives o' → Lives o
Lives-equal e l = subst Lives (sym e) l

Lives-if :
    (b : Bool) (x y : Out)
    → (b ≡ true → Lives x)
    → (b ≡ false → Lives y)
    → Lives (if b then x else y)
Lives-if true x y f g = f refl
Lives-if false x y f g = g refl

answer_code-Lives :
    (msg : ℕ) (code : ErrorCode) (s : Session) → IsLive s → Lives (answer_code msg code s)
answer_code-Lives msg code s l = (code_answer msg code ∷ [], s, refl, l)

pub read_next-Lives : (r : Request) (s : Session) → IsLive s → Lives (read_next r s)
unfolding read_next
read_next-Lives r s l =
    let late = λ (t : Session). if t.write_eof then read_now r t else append_read r t in
    Lives-equal
      {o' = if is_waiting l.0 then and_then (handle_pending_read s) late else read_now r s}
      (ground (arith, l.2))
      (Lives-if _ _ _
        (λ e. Lives-and_then _ late (pending_read-Lives s l) (λ t k.
          Lives-if t.write_eof _ _ (λ e. read_now-Lives r t k) (λ e. append_read-Lives r t k)))
        (λ e. read_now-Lives r s l))

write_next-Lives : (r : Request) (s : Session) → IsLive s → Lives (write_next r s)
unfolding write_next
write_next-Lives r s l =
    Lives-equal
      {o' = if is_waiting l.1
        then and_then (handle_pending_write s) (append_write r)
        else write_now r s}
      (ground (arith, l.3))
      (Lives-if _ _ _ (λ e. Lives-and_then _ _ (pending_write-Lives s l) (append_write-Lives r))
        (λ e. write_now-Lives r s l))

busy_last : (h : Handler) → is_busy h ≡ true → 0 < h.last
busy_last h e = ground arith

read-Lives : (r : Request) (id : ℕ) (s : Session) → IsLive s → Lives (read r id s)
unfolding read
read-Lives r id s l =
    let h = l.0 in
    Lives-equal
      {o' = if is_busy h
        then if h.lastid == id
          then and_then (and_then (pull_last h s) handle_pending_write) (read_next r)
          else append_read r s
        else read_next r s}
      (ground (arith, l.2))
      (Lives-if _ _ _
        (λ e.
          Lives-if _ _ _
            (λ _.
              Lives-and_then _ _
                (Lives-and_then _ _ (pull_last-Lives h s l l.2 (busy_last h e)) pending_write-Lives)
                (read_next-Lives r))
            (λ _. append_read-Lives r s l))
        (λ e. read_next-Lives r s l))

write-Lives : (r : Request) (id : ℕ) (s : Session) → IsLive s → Lives (write r id s)
unfolding write
write-Lives r id s l =
    let g = l.1 in
    let pushed = and_then (and_then (push_last g s) handle_pending_read) (write_next r) in
    let mine = if g.lastid == id then pushed else append_write r s in
    let open_end = if is_busy g then mine else write_next r s in
    Lives-equal {o' = if s.read_eof then some (code_answer r.msg end_of_file ∷ [], s) else open_end}
      (ground (arith, l.3))
      (Lives-if s.read_eof _ open_end (λ _. answer_code-Lives r.msg end_of_file s l)
        (λ _.
          Lives-if _ mine _
            (λ e.
              Lives-if (g.lastid == id) pushed _
                (λ _.
                  Lives-and_then _ _
                    (Lives-and_then _ _ (push_last-Lives g s l l.3 (busy_last g e))
                      pending_read-Lives)
                    (write_next-Lives r))
                (λ _. append_write-Lives r s l))
            (λ e. write_next-Lives r s l)))

release_reader-Lives : (s : Session) → IsLive s → Lives (release_reader s)
unfolding release_reader
release_reader-Lives s (h, g, p, q, v) =
    let h' = record h { refs = h.refs - 1 } in
    let t = record s { reader = some h' } in
    Lives-equal
      {o' = if ltb 1 h.refs
        then and_then (handle_pending_read t) handle_pending_write
        else handle_pending_write (record t { read_eof = true })}
      (ground (arith, p))
      (Lives-if _ _ _
        (λ _. Lives-and_then _ _ (pending_read-Lives t (h', g, refl, q, v)) pending_write-Lives)
        (λ _. pending_write-Lives (record t { read_eof = true }) (h', g, refl, q, v)))

release_writer-Lives : (s : Session) → IsLive s → Lives (release_writer s)
unfolding release_writer
release_writer-Lives s (h, g, p, q, v) =
    let g' = record g { refs = g.refs - 1 } in
    let t = record s { writer = some g' } in
    Lives-equal
      {o' = if ltb 1 g.refs
        then and_then (handle_pending_write t) handle_pending_read
        else handle_pending_read (record t { write_eof = true })}
      (ground (arith, q))
      (Lives-if _ _ _
        (λ _. Lives-and_then _ _ (pending_write-Lives t (h, g', p, refl, v)) pending_read-Lives)
        (λ _. pending_read-Lives (record t { write_eof = true }) (h, g', p, refl, v)))

both_last : (h : Handler) (b : Bool) → (is_busy h && b) ≡ true → 0 < h.last
both_last h b e = ground arith

close_reader-Lives : (msg id : ℕ) (s : Session) → IsLive s → Lives (close_reader msg id s)
unfolding close_reader
close_reader-Lives msg id s l =
    let h = l.0 in
    let done = if is_busy h && h.lastid == id then pull_last h s else some ([], s) in
    let closed = and_then (and_then done release_reader) (answer_code msg no_error) in
    Lives-equal {o' = if s.read_eof then answer_code msg inv_args s else closed}
      (ground (arith, l.2))
      (Lives-if s.read_eof _ closed (λ _. answer_code-Lives msg inv_args s l)
        (λ _.
          Lives-and_then _ _
            (Lives-and_then _ _
              (Lives-if (is_busy h && h.lastid == id) _ _
                (λ e. pull_last-Lives h s l l.2 (both_last h (h.lastid == id) e))
                (λ _. ([], s, refl, l)))
              release_reader-Lives)
            (answer_code-Lives msg no_error)))

close_writer-Lives : (msg id : ℕ) (s : Session) → IsLive s → Lives (close_writer msg id s)
unfolding close_writer
close_writer-Lives msg id s l =
    let g = l.1 in
    let done = if is_busy g && g.lastid == id then push_last g s else some ([], s) in
    let closed = and_then (and_then done release_writer) (answer_code msg no_error) in
    Lives-equal {o' = if s.write_eof then answer_code msg inv_args s else closed}
      (ground (arith, l.3))
      (Lives-if s.write_eof _ closed (λ _. answer_code-Lives msg inv_args s l)
        (λ _.
          Lives-and_then _ _
            (Lives-and_then _ _
              (Lives-if (is_busy g && g.lastid == id) _ _
                (λ e. push_last-Lives g s l l.3 (both_last g (g.lastid == id) e))
                (λ _. ([], s, refl, l)))
              release_writer-Lives)
            (answer_code-Lives msg no_error)))

handle-Lives : (e : Event) (s : Session) → IsLive s → Lives (handle e s)
unfolding handle attach obtain
handle-Lives (reads r id) s l = read-Lives r id s l
handle-Lives (writes r id) s l = write-Lives r id s l
handle-Lives (attaches msg true) s (h, g, p, q, v) = (
  code_answer msg no_error ∷ [],
  record s { reader = some (with_ref h) },
  ground (arith, p),
  (with_ref h, g, refl, q, v),
)
handle-Lives (attaches msg false) s (h, g, p, q, v) = (
  code_answer msg no_error ∷ [],
  record s { writer = some (with_ref g) },
  ground (arith, q),
  (h, with_ref g, p, refl, v),
)
handle-Lives (closes msg true id) s l = close_reader-Lives msg id s l
handle-Lives (closes msg false id) s l = close_writer-Lives msg id s l
handle-Lives (obtains msg capcount) s l =
    (code_answer msg inv_args ∷ [], s, ground (arith, l.2, l.3), l)

run-Lives : (es : List Event) (s : Session) → IsLive s → Lives (run es s)
unfolding run
run-Lives [] s l = ([], s, refl, l)
run-Lives (e ∷ es) s l = Lives-and_then _ _ (handle-Lives e s l) (run-Lives es)

-- Whatever messages clients send to a pipe, both of whose handlers are there and whose positions lie
-- in the memory, each has a result: no assertion of the ring buffer fails, and this stays so. A
-- message is answered as often as it was sent or waited before, less how often it waits afterwards:
-- none is lost, and none is answered twice.
pub run_answers :
    (m : ℕ) (es : List Event) (s : Session)
    → IsLive s
    → (out : List Reply) × (s' : Session) × (run es s ≡ some (out, s'))
      × IsLive s'
      × (answered m out + times_queued m s' ≡ sent m es + times_queued m s)
run_answers m es s l =
    let (out, s', e, k) = run-Lives es s l in (out, s', e, k, run-Accounts m es s out s' e)
