-- ===== src/Pipe/RingBuf/Write.antt =====
-- What a writer does: `get_write_pos` and `push`.
use semper_os.Base.{
  ℕ, ◌+◌, ◌-◌, ◌%◌, ◌^◌, ◌≤◌, ◌<◌, [], ◌++◌, some, ◌≡◌, refl, ◌∙◌, sym, subst, ◌⊎◌, inl, inr, arith,
  true,
}
use mathlib.Core.List.{append_assoc}
use semper_os.Pipe.RingBuf.{RingBuf, get_write_pos, push, room_at, round_up}
use semper_os.Pipe.RingBuf.Contents.{
  span, contents, IsValid, span_split, span_join, holds-span, holds-append, disjoint, disjoint-span,
}

-- What holds of the range that a writer is given.
abbrev pub IsRoom : ℕ → ℕ → RingBuf → Type 0
IsRoom p n b =
    (p + n ≤ b.size)
    × (disjoint (span p n) (contents b) ≡ true)
    × ((b' : RingBuf) × (push n b ≡ some b') × IsValid b' × (contents b' ≡ contents b ++ span p n))

-- The writer stays in front of the reader.
ahead :
    (n s r w : ℕ)
    → s % 8 ≡ 0
    → s < 2 ^ 64
    → w % 8 ≡ 0
    → r ≤ w
    → w + n ≤ s
    → IsRoom w n (record { size = s; rdpos = r; wrpos = w; last = 0 })
unfolding push
ahead n s r w a l e h f = (
  f,
  disjoint-span _ n _ (λ x p q. ground (arith, holds-span x r (w - r))),
  (
    record { size = s; rdpos = r; wrpos = w + n; last = 0 },
    ground arith,
    (a, l, inl (omega arith, f, refl)),
    ground (arith, span_join r w (w + n)),
  ),
)

round :
    (n s r w : ℕ)
    → s % 8 ≡ 0
    → s < 2 ^ 64
    → w % 8 ≡ 0
    → r ≤ w
    → w ≤ s
    → s < w + n
    → n < r
    → IsRoom 0 n (record { size = s; rdpos = r; wrpos = w; last = 0 })
unfolding push
round n s r w a l e h f g j = (
  omega arith,
  disjoint-span _ n _ (λ x p q. ground (arith, holds-span x r (w - r))),
  (
    record { size = s; rdpos = r; wrpos = n; last = w },
    ground arith,
    (a, l, inr (omega arith, j, h, f)),
    ground arith,
  ),
)

behind :
    (n s r w m : ℕ)
    → s % 8 ≡ 0
    → s < 2 ^ 64
    → w % 8 ≡ 0
    → 0 < w
    → w + n < r
    → r ≤ m
    → m ≤ s
    → IsRoom w n (record { size = s; rdpos = r; wrpos = w; last = m })
unfolding push
behind n s r w m a l e o f g j = (
  omega arith,
  disjoint-span _ n _ (λ x p q. ground (
    arith,
    holds-append x (span r (m - r)) (span 0 w),
    holds-span x r (m - r),
    holds-span x 0 w,
  )),
  (
    record { size = s; rdpos = r; wrpos = w + n; last = m },
    ground arith,
    (a, l, inr (omega arith, f, g, j)),
    ground (arith, span_split 0 w n, append_assoc (span r (m - r)) (span 0 w) (span w n)),
  ),
)

place_flat :
    (n p s r w m : ℕ)
    → s < 2 ^ 64
    → r ≤ w
    → w ≤ s
    → room_at n (record { size = s; rdpos = r; wrpos = w; last = m }) ≡ some p
    → ((w ≡ p) × (w + n ≤ s)) ⊎ ((0 ≡ p) × (s < w + n) × (n < r))
unfolding room_at
place_flat n p s r w m l h f g = ground arith

place_round :
    (n p s r w m : ℕ)
    → s < 2 ^ 64
    → w < r
    → r ≤ s
    → room_at n (record { size = s; rdpos = r; wrpos = w; last = m }) ≡ some p
    → (w ≡ p) × (w + n < r)
unfolding room_at
place_round n p s r w m l h f g = ground arith

room_at-IsRoom :
    (n p s r w m : ℕ)
    → IsValid (record { size = s; rdpos = r; wrpos = w; last = m })
    → w % 8 ≡ 0
    → room_at n (record { size = s; rdpos = r; wrpos = w; last = m }) ≡ some p
    → (p % 8 ≡ 0) × IsRoom p n (record { size = s; rdpos = r; wrpos = w; last = m })
unfolding room_at
room_at-IsRoom n p s r w m (a, l, inl (h, f, z)) e g =
    subst (Good p) (sym z) (elim (place_flat n p s r w m l h f g) [
      | inl (q, j) ↦ subst (λ q. Good q 0) q (e, ahead n s r w a l e h j)
      | inr (q, j, i) ↦ subst (λ q. Good q 0) q (refl, round n s r w a l e h f j i)
    ])
  where
    Good : ℕ → ℕ → Type 0
    Good q k = (q % 8 ≡ 0) × IsRoom q n (record { size = s; rdpos = r; wrpos = w; last = k })
room_at-IsRoom n p s r w m (a, l, inr (o, h, f, z)) e g =
    let (q, j) = place_round n p s r w m l h (omega arith) g in
    subst (λ q. (q % 8 ≡ 0) × IsRoom q n (record { size = s; rdpos = r; wrpos = w; last = m })) q
      (e, behind n s r w m a l e o j f z)

-- Both positions are moved up.
abbrev rounded : RingBuf → RingBuf
rounded b = record b { wrpos = round_up b.wrpos; rdpos = round_up b.wrpos }

contents-nil :
    (r w s m : ℕ) → r ≡ w → contents (record { size = s; rdpos = r; wrpos = w; last = m }) ≡ []
contents-nil r w s m q = ground arith

rounded-IsValid : (b : RingBuf) → IsValid b → b.rdpos ≡ b.wrpos → IsValid (rounded b)
rounded-IsValid b v q = (
  v.0,
  v.1,
  inl (omega arith, omega arith, elim v.2 [ inl x ↦ x.2 | inr x ↦ absurd (omega (arith, x.1, q)) ]),
)

write_cases :
    (n : ℕ) (b : RingBuf) (p : ℕ) (b' : RingBuf)
    → get_write_pos n b ≡ (some p, b')
    → ((b ≡ b') × (b.wrpos % 8 ≡ 0) × (room_at n b ≡ some p))
      ⊎ ((b.rdpos ≡ b.wrpos) × (rounded b ≡ b') × (room_at n (rounded b) ≡ some p))
unfolding get_write_pos
write_cases n b p b' e = ground arith

-- On a valid ring buffer, a writer of `n` bytes who is given a position can use it: the position is
-- a multiple of the packet size, the range ends within the memory, and it holds nothing that is
-- still to be read. Once the bytes are pushed they are what is read last, after all that was to be
-- read before, and the ring buffer is valid.
pub push-get_write_pos :
    (n : ℕ) (b : RingBuf) (p : ℕ) (b' : RingBuf)
    → IsValid b
    → get_write_pos n b ≡ (some p, b')
    → (p % 8 ≡ 0) × IsRoom p n b' × (contents b' ≡ contents b)
unfolding get_write_pos
push-get_write_pos n b p b' v e = elim (write_cases n b p b' e) [
  | inl (q, w, r) ↦
      subst (λ c. (p % 8 ≡ 0) × IsRoom p n c × (contents c ≡ contents b)) q
        (let (x, y) = room_at-IsRoom n p b.size b.rdpos b.wrpos b.last v w r in (x, y, refl))
  | inr (q, m, r) ↦
      subst (λ c. (p % 8 ≡ 0) × IsRoom p n c × (contents c ≡ contents b)) m
        (let w = round_up b.wrpos in
          let (x, y) =
            room_at-IsRoom n p b.size w w b.last (rounded-IsValid b v q) (omega arith) r in
          (
            x,
            y,
            contents-nil w w b.size b.last refl
                ∙ sym (contents-nil b.rdpos b.wrpos b.size b.last q),
          ))
]
