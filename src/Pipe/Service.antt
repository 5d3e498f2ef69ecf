-- ===== src/Pipe/Service.antt =====
-- The operations on a pipe that the service offers: `handle_open` and `handle_obtain` of
-- apps/pipeserv/pipeserv.cc, and `attach` and `close` of apps/pipeserv/Session.cc.
pub mod Answers
pub mod Collide
pub mod Live
use semper_os.Base.{
  ℕ, zero, suc, ◌-◌, Bool, true, false, List, [], ◌∷◌, ◌++◌, Option, none, some, ltb, ◌==◌, ◌&&◌,
  if◌then◌else◌,
}
use semper_os.Base.Errors.{ErrorCode, no_error, inv_args}
use semper_os.Pipe.Session.{
  Handler, Session, Out, Request, code_answer, answering, and_then, pull_last, push_last, is_busy,
  handle_pending_read, handle_pending_write, pipe_handler, read, write,
}

-- The code of an operation is its last answer.
abbrev pub answer_code : ℕ → ErrorCode → Session → Out
answer_code msg code s = some (code_answer msg code ∷ [], s)

-- `handle_obtain` of a session that has its own gate: the reader first, then the writer.
unfoldable pub obtain : ℕ → ℕ → Session → Out
unfolding pipe_handler
obtain msg capcount s =
    let first = answer_code msg no_error (record s { reader = some pipe_handler }) in
    let second = answer_code msg no_error (record s { writer = some pipe_handler }) in
    let refused = answer_code msg inv_args s in
    elim s.reader [
      | none ↦ if capcount == 1 then first else refused
      | some _ ↦ elim s.writer [
        | some _ ↦ refused
        | none ↦ if capcount == 1 then second else refused
      ]
    ]

abbrev pub with_ref : Handler → Handler
with_ref h = record h { refs = suc h.refs }

unfoldable pub attach : ℕ → Bool → Session → Out
attach msg true s = elim s.reader [
  | none ↦ none
  | some h ↦ answer_code msg no_error (record s { reader = some (with_ref h) })
]
attach msg false s = elim s.writer [
  | none ↦ none
  | some h ↦ answer_code msg no_error (record s { writer = some (with_ref h) })
]

-- `--refs > 0` and what follows it.
unfoldable pub release_reader : Session → Out
unfolding handle_pending_read handle_pending_write
release_reader s = elim s.reader [
  | none ↦ none
  | some h ↦
      let s' = record s { reader = some (record h { refs = h.refs - 1 }) } in
      if ltb 1 h.refs
      then and_then (handle_pending_read s') handle_pending_write
      else handle_pending_write (record s' { read_eof = true })
]

unfoldable pub release_writer : Session → Out
unfolding handle_pending_read handle_pending_write
release_writer s = elim s.writer [
  | none ↦ none
  | some h ↦
      let s' = record s { writer = some (record h { refs = h.refs - 1 }) } in
      if ltb 1 h.refs
      then and_then (handle_pending_write s') handle_pending_read
      else handle_pending_read (record s' { write_eof = true })
]

unfoldable pub close_reader : ℕ → ℕ → Session → Out
unfolding release_reader pull_last
close_reader msg id s = elim s.reader [
  | none ↦ none
  | some h ↦
      if s.read_eof
      then answer_code msg inv_args s
      else and_then
          (and_then (if is_busy h && h.lastid == id then pull_last h s else some ([], s))
            release_reader)
          (answer_code msg no_error)
]

unfoldable pub close_writer : ℕ → ℕ → Session → Out
unfolding release_writer push_last
close_writer msg id s = elim s.writer [
  | none ↦ none
  | some h ↦
      if s.write_eof
      then answer_code msg inv_args s
      else and_then
          (and_then (if is_busy h && h.lastid == id then push_last h s else some ([], s))
            release_writer)
          (answer_code msg no_error)
]

-- What clients send, each with the number of its message.
pub data Event : Type 0 where
  reads writes : Request → ℕ → Event
  attaches : ℕ → Bool → Event
  closes : ℕ → Bool → ℕ → Event
  obtains : ℕ → ℕ → Event

unfoldable pub handle : Event → Session → Out
unfolding read write attach close_reader close_writer obtain
handle (reads r id) s = read r id s
handle (writes r id) s = write r id s
handle (attaches msg reading) s = attach msg reading s
handle (closes msg true id) s = close_reader msg id s
handle (closes msg false id) s = close_writer msg id s
handle (obtains msg capcount) s = obtain msg capcount s

-- The messages one after another.
unfoldable pub run : List Event → Session → Out
unfolding handle
run [] s = some ([], s)
run (e ∷ es) s = and_then (handle e s) (run es)
