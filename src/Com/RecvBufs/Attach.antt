-- ===== src/Com/RecvBufs/Attach.antt =====
-- What `attach` does.
use semper_os.Base.{
  ℕ, zero, suc, ◌+◌, ◌*◌, ◌^◌, ◌≤◌, ◌<◌, true, false, List, ◌∷◌, ◌++◌, some, ◌==◌, ◌≡◌, ◌≢◌, refl,
  inl, inr, ◌⊎◌, arith, length, Option-cases, Bool-cases,
}
use semper_os.Base.Errors.{ErrorCode, no_error, exists, inv_args}
use semper_os.Ddl.Hash.{shl64}
use semper_os.Com.RecvBufs.{
  RBuf, RecvBufs, get, put, attach, is_in_way, find_overlap, has_attached, with_attached,
  attached_buf, notify, configure,
}
use semper_os.Com.RecvBufs.Access.{get-put_self}
use semper_os.Com.RecvBufs.Apart.{
  IsValid, find_overlap-total, find_overlap-false, is_in_way-IsApart, put-IsValid,
}

-- Another attached buffer of the PE overlaps the range.
abbrev pub IsTaken : (core epid addr order : ℕ) → List RBuf → Type 0
IsTaken core epid addr order bufs =
    (j : ℕ) × (b : RBuf) × (j ≢ epid) × (get core j bufs ≡ some b) × (is_in_way addr order b ≡ true)

find_overlap-true :
    (core epid addr order i left : ℕ) (bufs : List RBuf)
    → find_overlap core epid addr order i left bufs ≡ some true
    → IsTaken core epid addr order bufs
unfolding find_overlap
find_overlap-true core epid addr order i zero bufs e = absurd (ground (arith, e))
find_overlap-true core epid addr order i (suc left) bufs e = elim (Bool-cases (i == epid)) [
  | inl q ↦ find_overlap-true core epid addr order (i + 1) left bufs (ground (arith, e, q))
  | inr q ↦ elim (Option-cases (get core i bufs)) [
    | inl f ↦ absurd (ground (arith, e, f, q))
    | inr (r, f) ↦ elim (Bool-cases (is_in_way addr order r)) [
      | inl w ↦ (i, r, (λ p. ground (arith, q)), f, w)
      | inr w ↦
          find_overlap-true core epid addr order (i + 1) left bufs (ground (arith, e, f, q, w))
    ]
  ]
]

-- The result of `attach`, given the buffer `r` of the endpoint.
abbrev pub IsAttach :
    (core epid addr order msgorder flags : ℕ) → RBuf → RecvBufs → ErrorCode × RecvBufs → Type 0
IsAttach core epid addr order msgorder flags r s (code, s') =
    ((code ≡ exists) × (s' ≡ s) × (has_attached r.flags ≡ true))
    ⊎ ((code ≡ inv_args)
        × (s' ≡ s)
        × (has_attached r.flags ≡ false)
        × IsTaken core epid addr order s.bufs)
    ⊎ ((code ≡ no_error)
        × (has_attached r.flags ≡ false)
        × (get core epid s'.bufs ≡ some (attached_buf addr order msgorder flags r))
        × (s'.done
            ≡ s.done
              ++ configure core epid (attached_buf addr order msgorder flags r) ∷ notify r true))

with_attached_lem : (flags : ℕ) → has_attached (with_attached flags) ≡ true
with_attached_lem flags = ground arith

-- Attaching a buffer at one of the 16 endpoints of a PE that the array knows, in a range that does
-- not wrap around, has a result: where the endpoint has a buffer, or another attached buffer of the PE
-- overlaps the range, nothing changes and the code says which; else the buffer has the new place, the
-- endpoint is configured and all subscribers are told. Attached buffers that do not
-- overlap are kept so.
pub attach-IsValid :
    (core epid addr order msgorder flags : ℕ) (r : RBuf) (s : RecvBufs)
    → core < 2 ^ 32
    → epid < 16
    → core * 16 + 16 ≤ length s.bufs
    → addr + shl64 1 order < 2 ^ 64
    → get core epid s.bufs ≡ some r
    → IsValid s.bufs
    → (res : ErrorCode × RecvBufs) × (attach core epid addr order msgorder flags s ≡ some res)
      × IsValid res.1.bufs
      × IsAttach core epid addr order msgorder flags r s res
unfolding attach
attach-IsValid core epid addr order msgorder flags r s l m n f e v =
    elim (Bool-cases (has_attached r.flags)) [
      | inl q ↦ ((exists, s), ground (arith, e, q), v, inl (refl, refl, q))
      | inr q ↦
          let (b, t) = find_overlap-total core epid addr order 0 16 s.bufs l (omega arith) n in
          elim (Bool-cases b) [
            | inl p ↦ (
              (inv_args, s),
              ground (arith, e, q, t, p),
              v,
              inr (
                  inl (
                    refl,
                    refl,
                    q,
                    find_overlap-true core epid addr order 0 16 s.bufs (ground (arith, t, p)),
                  )),
            )
            | inr p ↦ (
              (no_error, done_state),
              ground (arith, e, q, t, p),
              put-IsValid core epid new r s.bufs l m e (λ h. f)
                  (λ h j b x y g k. is_in_way-IsApart b new (v.0 core j b l x g k) f k (
                    find_overlap-false core epid addr order 0 16 j b s.bufs (ground (arith, t, p))
                      (omega arith) (omega arith) y g))
                  v,
              inr (
                  inr (
                    refl,
                    q,
                    get-put_self core epid core epid new r s.bufs l (omega arith) l (omega arith)
                        refl e,
                    refl,
                  )),
            )
          ]
    ]
  where
    new : RBuf
    new = attached_buf addr order msgorder flags r

    done_state : RecvBufs
    done_state = record {
      bufs = put core epid new s.bufs;
      done = s.done ++ configure core epid new ∷ notify r true;
    }
