-- ===== src/Tests/Pipe.antt =====
-- The pipe server at concrete inputs.
use semper_os.Base.{
  ℕ, ◌+◌, ◌%◌, ◌≤◌, List, [], ◌∷◌, ◌++◌, none, some, true, false, ◌≡◌, refl, arith, inl, inr, min,
}
use semper_os.Base.Errors.{no_error}
use semper_os.Pipe.RingBuf.{RingBuf, ring_buf, get_write_pos, get_read_pos, pull, room_at}
use semper_os.Pipe.RingBuf.Contents.{IsValid, contents, span, disjoint}
use semper_os.Pipe.RingBuf.Write.{IsRoom, push-get_write_pos}
use semper_os.Pipe.RingBuf.Read.{pull-get_read_pos, read_beyond_last}
use semper_os.Pipe.Session.{
  Session, Request, Reply, write_answer, open_session, read, write, pipe_handler, code_answer,
}
use semper_os.Pipe.Service.{Event, reads, writes, closes, obtains, run, obtain, handle}
use semper_os.Pipe.Service.Answers.{answered, times_queued}
use semper_os.Pipe.Service.Live.{IsLive}
use semper_os.Pipe.Service.Live.All.{run_answers}
use semper_os.Pipe.Service.Collide.{read_collides}

-- The writer has gone round at 96 of 128 bytes.
abbrev gone_round : RingBuf
gone_round = record { size = 128; rdpos = 64; wrpos = 16; last = 96 }

gone_round-IsValid : IsValid gone_round
gone_round-IsValid = (refl, omega arith, inr (omega arith, omega arith, omega arith, omega arith))

push-get_write_pos_example :
    (◌≡◌ {A = ℕ} (16 % 8) 0) × IsRoom 16 24 gone_round × (contents gone_round ≡ contents gone_round)
unfolding get_write_pos room_at
push-get_write_pos_example = push-get_write_pos 24 gone_round 16 gone_round gone_round-IsValid refl

pull-get_read_pos_example :
    (24 ≤ 24)
    × (min 24 1 ≤ 24)
    × ((b : RingBuf) × (pull 24 gone_round ≡ some b)
        × IsValid b
        × (contents gone_round ≡ span 64 24 ++ contents b))
unfolding get_read_pos
pull-get_read_pos_example =
    pull-get_read_pos 24 gone_round 64 24 gone_round-IsValid refl (λ h g. omega arith)

read_beyond_last_example :
    (get_read_pos 100 gone_round ≡ some (64, 64))
    × (disjoint (span 96 32) (contents gone_round) ≡ true)
    × ((b : RingBuf) × (pull 64 gone_round ≡ some b) × (get_read_pos 32 b ≡ some (128, 0)))
read_beyond_last_example =
    read_beyond_last 100 32 gone_round gone_round-IsValid (omega arith) (omega arith) (omega arith)
      (omega arith)

abbrev request : ℕ → ℕ → Request
request amount msg = record { amount = amount; msg = msg }

-- A pipe of 128 bytes whose two gates were obtained.
abbrev fresh : Session
fresh = record {
  read_eof = false;
  write_eof = false;
  reader = some (record { refs = 1; lastid = 0; pending = []; last = 0 });
  writer = some (record { refs = 1; lastid = 0; pending = []; last = 0 });
  rbuf = record { size = 128; rdpos = 0; wrpos = 0; last = 0 };
}

fresh-IsLive : IsLive fresh
fresh-IsLive =
    (_, _, refl, refl, (refl, omega arith, omega arith, omega arith, inr refl, inl refl, inl refl))

-- Read 2 waits for the bytes of write 1, which is pushed with write 3.
abbrev messages : List Event
messages =
    reads (request 16 2) 0
    ∷ writes (request 16 1) 0
    ∷ writes (request 16 3) 1
    ∷ closes 4 true 1
    ∷ []

run_answers_example :
    (out : List Reply) × (s : Session) × (run messages fresh ≡ some (out, s))
    × IsLive s
    × (answered 2 out + times_queued 2 s ≡ 1)
run_answers_example = run_answers 2 messages fresh fresh-IsLive

-- A reader has the first 16 bytes, a writer has the position 32, and another one waits.
abbrev two_writers : Session
two_writers = record {
  read_eof = false;
  write_eof = false;
  reader = some (record { refs = 1; lastid = 1; pending = []; last = 16 });
  writer = some (record { refs = 2; lastid = 3; pending = request 16 9 ∷ []; last = 16 });
  rbuf = record { size = 128; rdpos = 0; wrpos = 32; last = 0 };
}

two_writers-IsLive : IsLive two_writers
two_writers-IsLive = (
  _,
  _,
  refl,
  refl,
  (refl, omega arith, omega arith, omega arith, inr refl, inr (omega arith, omega arith), inr refl),
)

read_collides_example :
    (get_write_pos 16 two_writers.rbuf ≡ (some 32, two_writers.rbuf))
    × (out : List Reply) × (s : Session) × (read (request 16 10) 1 two_writers
        ≡ some (write_answer 9 32 4 ∷ out, s))
    × (s.rbuf.wrpos ≡ 32)
    × (s' : Session) × (write (request 16 11) 3 s ≡ some ([], s'))
    × (s'.rbuf ≡ s.rbuf)
read_collides_example =
    read_collides _ _ (request 16 9) [] (request 16 10) (request 16 11) two_writers
      two_writers-IsLive refl refl refl (omega arith) (omega arith) (omega arith) refl (omega arith)
      refl (omega arith) refl (omega arith) (omega arith)

abbrev opened : Session
opened = record {
  read_eof = false;
  write_eof = false;
  reader = none;
  writer = none;
  rbuf = record { size = 128; rdpos = 0; wrpos = 0; last = 0 };
}

opens : open_session 128 ≡ some opened
unfolding open_session ring_buf
opens = refl

obtains_both :
    run (obtains 7 1 ∷ obtains 8 1 ∷ []) opened
    ≡ some (code_answer 7 no_error ∷ code_answer 8 no_error ∷ [], fresh)
unfolding run handle obtain pipe_handler
obtains_both = refl
