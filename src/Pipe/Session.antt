-- ===== src/Pipe/Session.antt =====
-- One pipe: `PipeSessionData`, `PipeReadHandler` and `PipeWriteHandler` of
-- apps/pipeserv/Session.{h,cc}. A message is known by a number, and the answers to messages are the
-- output. Ids are 32-bit words.
use semper_os.Base.{
  ℕ, ◌+◌, ◌%◌, ◌^◌, Bool, true, false, List, [], ◌∷◌, ◌++◌, Option, none, some, ltb, ◌==◌,
  if◌then◌else◌, minus_one64,
}
use semper_os.Base.Errors.{ErrorCode, end_of_file}
use semper_os.Pipe.RingBuf.{RingBuf, ring_buf, get_write_pos, get_read_pos, push, pull}

-- `RdWrRequest`.
pub record Request : Type 0 where
  pub amount : ℕ
  pub msg : ℕ

-- A `PipeHandler`: `last` is `lastread` or `lastwrite`.
pub record Handler : Type 0 where
  pub refs : ℕ
  pub lastid : ℕ
  pub pending : List Request
  pub last : ℕ

-- `_lastid++`.
abbrev pub next_id : Handler → ℕ
next_id h = (h.lastid + 1) % 2 ^ 32

unfoldable pub pipe_handler : Handler
pipe_handler = record { refs = 1; lastid = 0; pending = []; last = 0 }

-- The flags, the two handlers and the ring buffer. There may be no handler yet.
pub record Session : Type 0 where
  pub read_eof : Bool
  pub write_eof : Bool
  pub reader : Option Handler
  pub writer : Option Handler
  pub rbuf : RingBuf

-- `PipeSessionData(memsize)`.
unfoldable pub open_session : ℕ → Option Session
unfolding ring_buf
open_session memsize = elim (ring_buf memsize) [
  | some b ↦
      some (record { read_eof = false; write_eof = false; reader = none; writer = none; rbuf = b })
  | none ↦ none
]

-- An answer: to a read with position, amount and id, to a write with position and id, or a code.
pub data Reply : Type 0 where
  read_answer : ℕ → ℕ → ℕ → ℕ → Reply
  write_answer : ℕ → ℕ → ℕ → Reply
  code_answer : ℕ → ErrorCode → Reply

-- What a handler does: its answers and the session; `none` is a failed assertion or a handler that
-- is not there.
abbrev pub Out : Type 0
Out = Option (List Reply × Session)

-- After answers, go on.
abbrev pub answering : List Reply → Out → Out
answering sent none = none
answering sent (some (more, s)) = some (sent ++ more, s)

abbrev pub and_then : Out → (Session → Out) → Out
and_then none f = none
and_then (some (sent, s)) f = answering sent (f s)

-- `PipeReadHandler::handle_pending_read`, on the requests that wait. A waiting reader is given what
-- there is, which ends the loop; at the end of the file each is told so.
unfoldable pub serve_reads : List Request → Bool → Handler → RingBuf → List Reply × Handler
serve_reads [] eof h b = ([], record h { pending = [] })
serve_reads (r ∷ rs) eof h b =
    let rest = serve_reads rs eof h b in
    elim (get_read_pos r.amount b) [
      | some range ↦ (
        read_answer r.msg range.0 range.1 (next_id h) ∷ [],
        record h { lastid = next_id h; last = range.1; pending = rs },
      )
      | none ↦
          if eof
          then (read_answer r.msg 0 0 0 ∷ rest.0, rest.1)
          else ([], record h { pending = r ∷ rs })
    ]

unfoldable pub handle_pending_read : Session → Out
unfolding serve_reads
handle_pending_read s = elim s.reader [
  | none ↦ none
  | some h ↦
      let (sent, h') = serve_reads h.pending s.write_eof h s.rbuf in
      some (sent, record s { reader = some h' })
]

abbrev pub end_writes : List Request → List Reply
end_writes [] = []
end_writes (r ∷ rs) = code_answer r.msg end_of_file ∷ end_writes rs

-- `PipeWriteHandler::handle_pending_write`, on the requests that wait.
unfoldable pub serve_writes : List Request → Handler → RingBuf → List Reply × Handler × RingBuf
serve_writes [] h b = ([], h, b)
serve_writes (r ∷ rs) h b =
    let (pos, b') = get_write_pos r.amount b in
    elim pos [
      | some p ↦ (
        write_answer r.msg p (next_id h) ∷ [],
        record h { last = r.amount; lastid = next_id h; pending = rs },
        b',
      )
      | none ↦ ([], h, b')
    ]

unfoldable pub handle_pending_write : Session → Out
unfolding serve_writes
handle_pending_write s = elim s.writer [
  | none ↦ none
  | some h ↦
      if s.read_eof
      then some (end_writes h.pending, record s { writer = some (record h { pending = [] }) })
      else let (sent, h', b) = serve_writes h.pending h s.rbuf in
        some (sent, record s { writer = some h'; rbuf = b })
]

-- The client that had the last range is done with it.
unfoldable pub pull_last : Handler → Session → Out
pull_last h s = elim (pull h.last s.rbuf) [
  | some b ↦ some ([], record s { reader = some (record h { last = 0 }); rbuf = b })
  | none ↦ none
]

unfoldable pub push_last : Handler → Session → Out
push_last h s = elim (push h.last s.rbuf) [
  | some b ↦ some ([], record s { writer = some (record h { last = 0 }); rbuf = b })
  | none ↦ none
]

abbrev pub is_busy : Handler → Bool
is_busy h = ltb 0 h.last

abbrev pub is_waiting : Handler → Bool
is_waiting h = elim h.pending [ [] ↦ false | _ ∷ _ ↦ true ]

-- `append_request`.
abbrev pub append_request : Request → Handler → Handler
append_request r h = record h { pending = h.pending ++ r ∷ [] }

unfoldable pub append_read : Request → Session → Out
append_read r s = elim s.reader [
  | none ↦ none
  | some h ↦ some ([], record s { reader = some (append_request r h) })
]

unfoldable pub append_write : Request → Session → Out
append_write r s = elim s.writer [
  | none ↦ none
  | some h ↦ some ([], record s { writer = some (append_request r h) })
]

-- `PipeReadHandler::read`, from the last to the first of its parts.
unfoldable pub read_now : Request → Session → Out
unfolding append_read
read_now r s = elim s.reader [
  | none ↦ none
  | some h ↦ elim (get_read_pos r.amount s.rbuf) [
    | some range ↦ some (
      read_answer r.msg range.0 range.1 (next_id h) ∷ [],
      record s { reader = some (record h { lastid = next_id h; last = range.1 }) },
    )
    | none ↦
        if s.write_eof then some (read_answer r.msg minus_one64 0 0 ∷ [], s) else append_read r s
  ]
]

unfoldable pub read_next : Request → Session → Out
unfolding read_now handle_pending_read append_read
read_next r s = elim s.reader [
  | none ↦ none
  | some h ↦
      if is_waiting h
      then and_then (handle_pending_read s)
          (λ s. if s.write_eof then read_now r s else append_read r s)
      else read_now r s
]

unfoldable pub read : Request → ℕ → Session → Out
unfolding read_next handle_pending_write pull_last append_read
read r id s = elim s.reader [
  | none ↦ none
  | some h ↦
      if is_busy h
      then if h.lastid == id
        then and_then (and_then (pull_last h s) handle_pending_write) (read_next r)
        else append_read r s
      else read_next r s
]

-- `PipeWriteHandler::write`, in the same order.
unfoldable pub write_now : Request → Session → Out
unfolding append_write
write_now r s = elim s.writer [
  | none ↦ none
  | some h ↦
      let (pos, b) = get_write_pos r.amount s.rbuf in
      elim pos [
        | some p ↦ some (
          write_answer r.msg p (next_id h) ∷ [],
          record s { writer = some (record h { lastid = next_id h; last = r.amount }); rbuf = b },
        )
        | none ↦ append_write r (record s { rbuf = b })
      ]
]

unfoldable pub write_next : Request → Session → Out
unfolding write_now handle_pending_write append_write
write_next r s = elim s.writer [
  | none ↦ none
  | some h ↦
      if is_waiting h then and_then (handle_pending_write s) (append_write r) else write_now r s
]

unfoldable pub write : Request → ℕ → Session → Out
unfolding write_next handle_pending_read push_last append_write
write r id s = elim s.writer [
  | none ↦ none
  | some h ↦
      if s.read_eof
      then some (code_answer r.msg end_of_file ∷ [], s)
      else if is_busy h
      then if h.lastid == id
        then and_then (and_then (push_last h s) handle_pending_read) (write_next r)
        else append_write r s
      else write_next r s
]
