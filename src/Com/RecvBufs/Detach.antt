-- ===== src/Com/RecvBufs/Detach.antt =====
-- What `detach` does.
use semper_os.Base.{
  ℕ, ◌^◌, ◌<◌, false, [], ◌∷◌, ◌++◌, some, ◌≡◌, refl, arith, if◌then◌else◌, Bool-cases, inl, inr,
}
use semper_os.Com.RecvBufs.{
  RBuf, RecvBufs, get, put, detach, has_attached, configured, notify, is_attached,
}
use semper_os.Com.RecvBufs.Access.{get-put_self}
use semper_os.Com.RecvBufs.Apart.{IsValid, put-IsValid}

-- Detaching an endpoint has a result: the endpoint has no buffer, its DTU is told if it had one, the
-- subscribers are told of the failure in either case and are gone. Attached buffers that do not
-- overlap are kept so.
detach-IsValid :
    (core epid : ℕ) (r : RBuf) (s : RecvBufs)
    → core < 2 ^ 32
    → epid < 16
    → get core epid s.bufs ≡ some r
    → IsValid s.bufs
    → (s' : RecvBufs) × (detach core epid s ≡ some s')
      × IsValid s'.bufs
      × (is_attached core epid s' ≡ some false)
      × (s'.done
          ≡ s.done
            ++ (if has_attached r.flags
                then configured core epid r.addr r.order r.msgorder 0 false ∷ []
                else [])
            ++ notify r false)
unfolding detach is_attached
detach-IsValid core epid r s l m e v = elim (Bool-cases (has_attached r.flags)) [
  | inl q ↦ (
    after 0,
    ground (arith, e, q),
    put-IsValid core epid (bare 0) r s.bufs l m e (λ h. ground (arith, h)) (λ h. ground (arith, h))
        v,
    ground (arith, found 0),
    refl,
  )
  | inr q ↦ (
    after r.flags,
    ground (arith, e, q),
    put-IsValid core epid (bare r.flags) r s.bufs l m e (λ h. ground (arith, h, q))
        (λ h. ground (arith, h, q)) v,
    ground (arith, found r.flags, q),
    refl,
  )
]
  where
    bare : ℕ → RBuf
    bare flags = record r { flags = flags; waitlist = [] }

    after : ℕ → RecvBufs
    after flags = record {
      bufs = put core epid (bare flags) s.bufs;
      done =
          s.done
          ++ (if has_attached r.flags
              then configured core epid r.addr r.order r.msgorder 0 false ∷ []
              else [])
          ++ notify r false;
    }

    found : (flags : ℕ) → get core epid (put core epid (bare flags) s.bufs) ≡ some (bare flags)
    found flags =
        get-put_self core epid core epid (bare flags) r s.bufs l (omega arith) l (omega arith) refl
          e
