-- ===== src/Pipe/RingBuf/Read.antt =====
-- What a reader does: `get_read_pos` and `pull`.
use semper_os.Base.{
  ℕ, ◌+◌, ◌-◌, ◌%◌, ◌^◌, ◌≤◌, ◌<◌, ◌++◌, some, ◌≡◌, refl, dec_lt, inl, inr, arith, true, min,
}
use mathlib.Core.List.{append_assoc}
use semper_os.Pipe.RingBuf.{RingBuf, get_read_pos, pull}
use semper_os.Pipe.RingBuf.Contents.{
  span, contents, IsValid, span_join, holds-span, holds-append, disjoint, disjoint-span,
}

-- What is read, by the three places that the reader can stand at.
abbrev Taken : ℕ → ℕ → ℕ → RingBuf → Type 0
Taken n p k b =
    (k ≤ n)
    × (min n 1 ≤ k)
    × ((b' : RingBuf) × (pull k b ≡ some b') × IsValid b' × (contents b ≡ span p k ++ contents b'))

read_flat :
    (n p k s r w m : ℕ)
    → s % 8 ≡ 0
    → s < 2 ^ 64
    → r ≤ w
    → w ≤ s
    → m ≡ 0
    → get_read_pos n (record { size = s; rdpos = r; wrpos = w; last = m }) ≡ some (p, k)
    → Taken n p k (record { size = s; rdpos = r; wrpos = w; last = m })
unfolding get_read_pos pull
read_flat n p k s r w m a l h f z e = (
  ground arith,
  ground arith,
  (
    record { size = s; rdpos = r + k; wrpos = w; last = 0 },
    ground arith,
    (a, l, inl (ground arith, f, refl)),
    ground (arith, span_join r (r + k) w),
  ),
)

read_round :
    (n p k s r w m : ℕ)
    → s % 8 ≡ 0
    → s < 2 ^ 64
    → 0 < w
    → w < r
    → r < m
    → m ≤ s
    → get_read_pos n (record { size = s; rdpos = r; wrpos = w; last = m }) ≡ some (p, k)
    → r + k ≤ m
    → Taken n p k (record { size = s; rdpos = r; wrpos = w; last = m })
unfolding get_read_pos pull
read_round n p k s r w m a l o h f g e j = (
  ground arith,
  ground arith,
  (
    record { size = s; rdpos = r + k; wrpos = w; last = m },
    ground arith,
    (a, l, inr (o, omega arith, j, g)),
    ground (
      arith,
      span_join r (r + k) m,
      append_assoc (span r k) (span (r + k) (m - (r + k))) (span 0 w),
    ),
  ),
)

read_again :
    (n p k s r w m : ℕ)
    → s % 8 ≡ 0
    → s < 2 ^ 64
    → 0 < w
    → w < r
    → r ≡ m
    → m ≤ s
    → get_read_pos n (record { size = s; rdpos = r; wrpos = w; last = m }) ≡ some (p, k)
    → Taken n p k (record { size = s; rdpos = r; wrpos = w; last = m })
unfolding get_read_pos pull
read_again n p k s r w m a l o h f g e = (
  ground arith,
  ground arith,
  (
    record { size = s; rdpos = k; wrpos = w; last = 0 },
    ground arith,
    (a, l, inl (ground arith, omega arith, refl)),
    ground (arith, span_join 0 k w),
  ),
)

-- On a valid ring buffer, a reader asks for `n` bytes and is given a range that does not go beyond
-- the place at which the writer went round. It is given not more than `n` bytes, and at least one
-- if `n` is not 0. They are the next of what is to be read; after they are pulled, the rest is to be
-- read, and the ring buffer is valid.
pub pull-get_read_pos :
    (n : ℕ) (b : RingBuf) (p k : ℕ)
    → IsValid b
    → get_read_pos n b ≡ some (p, k)
    → (b.wrpos < b.rdpos → b.rdpos < b.last → b.rdpos + k ≤ b.last)
    → (k ≤ n)
      × (min n 1 ≤ k)
      × ((b' : RingBuf) × (pull k b ≡ some b')
          × IsValid b'
          × (contents b ≡ span p k ++ contents b'))
unfolding get_read_pos pull
pull-get_read_pos n b p k (a, l, inl (f, g, z)) e h =
    read_flat n p k b.size b.rdpos b.wrpos b.last a l f g z e
pull-get_read_pos n b p k (a, l, inr (o, f, g, z)) e h = elim (dec_lt b.rdpos b.last) [
  | yes y ↦ read_round n p k b.size b.rdpos b.wrpos b.last a l o f y z e (h f y)
  | no y ↦ read_again n p k b.size b.rdpos b.wrpos b.last a l o f (omega arith) z e
]

-- In a valid ring buffer the writer went round before the end of the memory, and a reader asks for
-- at least all that is up to the end. The range that it is given goes on to the end, though nothing
-- that is to be read stands at the place where the writer went round or after it. Once the range is
-- pulled, a reader is given 0 bytes at the end of the memory, whatever it asks for.
pub read_beyond_last :
    (n m : ℕ) (b : RingBuf)
    → IsValid b
    → b.wrpos < b.rdpos
    → b.rdpos < b.last
    → b.last < b.size
    → b.size ≤ b.rdpos + n
    → (get_read_pos n b ≡ some (b.rdpos, b.size - b.rdpos))
      × (disjoint (span b.last (b.size - b.last)) (contents b) ≡ true)
      × ((b' : RingBuf) × (pull (b.size - b.rdpos) b ≡ some b')
          × (get_read_pos m b' ≡ some (b.size, 0)))
unfolding get_read_pos pull
read_beyond_last n m b v h f g e = (
  ground arith,
  disjoint-span b.last (b.size - b.last) _ (λ x i j. ground (
    arith,
    holds-append x (span b.rdpos (b.last - b.rdpos)) (span 0 b.wrpos),
    holds-span x b.rdpos (b.last - b.rdpos),
    holds-span x 0 b.wrpos,
  )),
  (record b { rdpos = b.size }, ground arith, ground arith),
)
