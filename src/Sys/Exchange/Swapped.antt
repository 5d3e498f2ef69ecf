-- ===== src/Sys/Exchange/Swapped.antt =====
-- The direction of the system call `exchange`.
use semper_os.Base.{ℕ, ◌+◌, ◌^◌, ◌<◌, ◌≤◌, ◌≡◌, ◌≢◌, ◌∙◌, true, false, some, arith, if_false}
use semper_os.Base.Errors.{no_error}
use semper_os.Cap.Capability.{obj, Capability, vpe_type}
use semper_os.Cap.Table.{get_typed, range_unused}
use semper_os.Cap.Kernel.{Kernel, table_of}
use semper_os.Cap.Obtain.Linked.{at}
use semper_os.Sys.Exchange.{cap_range, vpe_of, exchange}
use semper_os.Sys.Exchange.Sources.{trimmed, IsReady, AreSources, inside}
use semper_os.Sys.Exchange.Copies.{IsExchanged, do_exchange-copies}

apart_vpes : (src dst to count sel : ℕ) → src ≢ dst → inside obj dst to count obj src sel ≡ false
apart_vpes src dst to count sel n = ground arith

-- A VPE asks to obtain the capabilities that a VPE it controls holds at `other`, at its own selectors
-- `own`. Where the caller's own capabilities at `other` can be copied and the other VPE's selectors
-- `own` are free, the call succeeds, and it does the reverse: the other VPE gets copies of the
-- caller's capabilities at `other`, at its selectors `own`, without an endpoint or an initialised
-- `vpe_id`. The caller has at each selector `sel` what it had before, but for children.
pub exchange_swapped :
    (vpe target tcap own other count own_count sel : ℕ) (c : Capability) (k : Kernel)
    → get_typed tcap vpe_type (table_of obj vpe k) ≡ some c
    → vpe_of c ≡ some target
    → vpe ≢ target
    → other + count < 2 ^ 32
    → own < 2 ^ 32
    → own_count < 2 ^ 32
    → count ≤ own_count
    → IsReady k obj target
    → AreSources k obj vpe other count
    → range_unused own own_count (table_of obj target k) ≡ true
    → (k' : Kernel) × (exchange vpe tcap
          (cap_range obj own own_count)
          (cap_range obj other count)
          true
          k
        ≡ some (no_error, k'))
      × IsExchanged vpe target other own count k k'
      × (trimmed (at k' obj vpe sel) ≡ trimmed (at k obj vpe sel))
unfolding exchange
exchange_swapped vpe target tcap own other count own_count sel c k e f n p b d l r u free =
    let (k', x, all) =
      do_exchange-copies true vpe target other own count own_count k n p b d l
        (λ h. ground (arith, h)) r u free in
    (
      k',
      ground (arith, e, f, x),
      all,
      all obj vpe sel ∙ if_false _ _ (apart_vpes vpe target own count sel n),
    )
