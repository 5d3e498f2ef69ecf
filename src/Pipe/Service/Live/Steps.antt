-- ===== src/Pipe/Service/Live/Steps.antt =====
-- The operations on a live session have a result, and it is live.
use semper_os.Base.{
  ℕ, Bool, List, [], ◌∷◌, Option, some, ◌≡◌, ◌<◌, refl, arith, inl, inr, Option-cases, Bool-cases,
  subst, minus_one64,
}
use mathlib.Core.Path.{ap₂}
use semper_os.Pipe.RingBuf.{RingBuf, get_read_pos, get_write_pos}
use semper_os.Pipe.Session.{
  Handler, Session, Request, serve_reads, serve_writes, handle_pending_read, handle_pending_write,
  end_writes, read_answer, write_answer, next_id, pull_last, push_last, append_read, append_write,
  read_now, write_now, append_request,
}
use semper_os.Pipe.Service.Live.{
  Fits, IsLive, Lives, pull-Fits, push-Fits, get_read_pos-Fits, get_write_pos-Fits,
  get_write_pos-given,
}

serve_reads-Fits :
    (rs : List Request) (eof : Bool) (h : Handler) (g : ℕ) (b : RingBuf)
    → Fits h.last g b
    → Fits (serve_reads rs eof h b).1.last g b
unfolding serve_reads
serve_reads-Fits [] eof h g b v = v
serve_reads-Fits (r ∷ rs) eof h g b v = elim (Option-cases (get_read_pos r.amount b)) [
  | inl q ↦ ground (arith, q, serve_reads-Fits rs eof h g b v)
  | inr (x, q) ↦ ground (arith, q, get_read_pos-Fits r.amount h.last g b x.0 x.1 v q)
]

serve_writes-Fits :
    (rs : List Request) (k : ℕ) (h : Handler) (b : RingBuf)
    → Fits k h.last b
    → let (out, h', b') = serve_writes rs h b in Fits k h'.last b'
unfolding serve_writes
serve_writes-Fits [] k h b v = v
serve_writes-Fits (r ∷ rs) k h b v = elim (Option-cases (get_write_pos r.amount b).0) [
  | inl q ↦ ground (arith, q, get_write_pos-Fits r.amount k h.last b v)
  | inr (x, q) ↦ ground (
    arith,
    q,
    get_write_pos-given r.amount k h.last b x (get_write_pos r.amount b).1 v
        (ap₂ (λ o c. (o, c)) q refl),
  )
]

pub pending_read-Lives : (s : Session) → IsLive s → Lives (handle_pending_read s)
unfolding handle_pending_read
pending_read-Lives s (h, g, p, q, v) =
    let r = serve_reads h.pending s.write_eof h s.rbuf in
    (
      r.0,
      record s { reader = some r.1 },
      ground (arith, p),
      (r.1, g, refl, q, serve_reads-Fits h.pending s.write_eof h g.last s.rbuf v),
    )

pub pending_write-Lives : (s : Session) → IsLive s → Lives (handle_pending_write s)
unfolding handle_pending_write
pending_write-Lives s (h, g, p, q, v) = elim (Bool-cases s.read_eof) [
  | inl t ↦ (
    end_writes g.pending,
    record s { writer = some (record g { pending = [] }) },
    ground (arith, q, t),
    (h, record g { pending = [] }, p, refl, v),
  )
  | inr t ↦
      let r = serve_writes g.pending g s.rbuf in
      (
        r.0,
        record s { writer = some r.1; rbuf = r.2 },
        ground (arith, q, t),
        (h, r.1, p, refl, serve_writes-Fits g.pending h.last g s.rbuf v),
      )
]

same_last : (o : Option Handler) (h h' : Handler) → o ≡ some h → o ≡ some h' → h.last ≡ h'.last
same_last o h h' p q = ground arith

pub pull_last-Lives :
    (h : Handler) (s : Session) → IsLive s → s.reader ≡ some h → 0 < h.last → Lives (pull_last h s)
unfolding pull_last
pull_last-Lives h s (h', g, p, q, v) e o =
    let (b, x, f) =
      pull-Fits h.last g.last s.rbuf
        (subst (λ k. Fits k g.last s.rbuf) (same_last s.reader h' h p e) v) o in
    (
      [],
      record s { reader = some (record h { last = 0 }); rbuf = b },
      ground (arith, x),
      (record h { last = 0 }, g, refl, q, f),
    )

pub push_last-Lives :
    (g : Handler) (s : Session) → IsLive s → s.writer ≡ some g → 0 < g.last → Lives (push_last g s)
unfolding push_last
push_last-Lives g s (h, g', p, q, v) e o =
    let (b, x, f) =
      push-Fits h.last g.last s.rbuf
        (subst (λ k. Fits h.last k s.rbuf) (same_last s.writer g' g q e) v) o in
    (
      [],
      record s { writer = some (record g { last = 0 }); rbuf = b },
      ground (arith, x),
      (h, record g { last = 0 }, p, refl, f),
    )

pub append_read-Lives : (r : Request) (s : Session) → IsLive s → Lives (append_read r s)
unfolding append_read
append_read-Lives r s (h, g, p, q, v) = (
  [],
  record s { reader = some (append_request r h) },
  ground (arith, p),
  (append_request r h, g, refl, q, v),
)

pub append_write-Lives : (r : Request) (s : Session) → IsLive s → Lives (append_write r s)
unfolding append_write
append_write-Lives r s (h, g, p, q, v) = (
  [],
  record s { writer = some (append_request r g) },
  ground (arith, q),
  (h, append_request r g, p, refl, v),
)

pub read_now-Lives : (r : Request) (s : Session) → IsLive s → Lives (read_now r s)
unfolding read_now
read_now-Lives r s (h, g, p, q, v) = elim (Option-cases (get_read_pos r.amount s.rbuf)) [
  | inl x ↦ elim (Bool-cases s.write_eof) [
    | inl t ↦ (read_answer r.msg minus_one64 0 0 ∷ [], s, ground (arith, p, x, t), (h, g, p, q, v))
    | inr t ↦
        let (out, s', e, l) = append_read-Lives r s (h, g, p, q, v) in
        (out, s', ground (arith, p, x, t, e), l)
  ]
  | inr (x, y) ↦ (
    read_answer r.msg x.0 x.1 (next_id h) ∷ [],
    record s { reader = some (record h { lastid = next_id h; last = x.1 }) },
    ground (arith, p, y),
    (
      record h { lastid = next_id h; last = x.1 },
      g,
      refl,
      q,
      get_read_pos-Fits r.amount h.last g.last s.rbuf x.0 x.1 v y,
    ),
  )
]

pub write_now-Lives : (r : Request) (s : Session) → IsLive s → Lives (write_now r s)
unfolding write_now
write_now-Lives r s (h, g, p, q, v) =
    let w = get_write_pos r.amount s.rbuf in
    elim (Option-cases w.0) [
      | inl x ↦
          let t = record s { rbuf = w.1 } in
          let (out, s', e, l) =
            append_write-Lives r t
              (h, g, p, q, get_write_pos-Fits r.amount h.last g.last s.rbuf v) in
          (out, s', ground (arith, q, x, e), l)
      | inr (x, y) ↦
          let g' = record g { lastid = next_id g; last = r.amount } in
          (
            write_answer r.msg x (next_id g) ∷ [],
            record s { writer = some g'; rbuf = w.1 },
            ground (arith, q, y),
            (
              h,
              g',
              p,
              refl,
              get_write_pos-given r.amount h.last g.last s.rbuf x w.1 v
                  (ap₂ (λ o c. (o, c)) y refl),
            ),
          )
    ]
