-- ===== src/Tests/Buffers.antt =====
-- Receive buffers at concrete inputs. Endpoint 2 of PE 1 has a buffer of 256 bytes at 0x1000.
use semper_os.Base.{ℕ, ◌+◌, ◌<◌, ◌≡◌, refl, false, [], some, arith}
use semper_os.Base.Errors.{ErrorCode, no_error}
use semper_os.Cap.Kernel.{table_of}
use semper_os.Cap.Table.{get, get_typed}
use semper_os.Col.Treap
use semper_os.Col.Treap.{empty, insert}
use semper_os.Ddl.Hash.{shl64}
use semper_os.Com.RecvBufs
use semper_os.Com.RecvBufs.{
  RBuf, RecvBufs, init, put, attach, detach, is_attached, has_attached, attached_buf, configured,
  notify, overlap, is_in_way, find_overlap,
}
use semper_os.Com.RecvBufs.Apart.{IsValid, put-IsValid, init-IsValid, init-free}
use semper_os.Com.RecvBufs.Attach.{IsAttach, attach-IsValid}
use semper_os.Sys.Buffers.{PeDesc, Vpes, in_space, attachrb}
use semper_os.Sys.Buffers.Beyond.{attachrb_next_pe}
use semper_os.Tests.Calls.{caller, control}

abbrev buf : ℕ → ℕ → RBuf
buf core ep = record {
  coreid = core;
  epid = ep;
  addr = 0;
  order = 0;
  msgorder = 0;
  flags = 0;
  waitlist = [];
}

abbrev first : RBuf
first = attached_buf 0x1000 8 6 0 (buf 1 2)

abbrev one_buffer : RecvBufs
one_buffer = record { bufs = put 1 2 first (init 2).bufs; done = [] }

one_buffer-IsValid : IsValid one_buffer.bufs
unfolding init RecvBufs.get shl64
one_buffer-IsValid =
    put-IsValid 1 2 first (buf 1 2) (init 2).bufs (omega arith) (omega arith) refl
      (λ h. omega arith)
      (λ h j b l n e k. ground (arith, k, init-free 2 1 j b (omega arith) (omega arith) e))
      (init-IsValid 2)

attach-IsValid_example :
    (res : ErrorCode × RecvBufs) × (attach 1 3 0x1100 8 6 0 one_buffer ≡ some res)
    × IsValid res.1.bufs
    × IsAttach 1 3 0x1100 8 6 0 (buf 1 3) one_buffer res
unfolding init RecvBufs.get shl64
attach-IsValid_example =
    attach-IsValid 1 3 0x1100 8 6 0 (buf 1 3) one_buffer (omega arith) (omega arith) (omega arith)
      (omega arith) refl one_buffer-IsValid

-- VPE 8 is on PE 1, with 8 MiB of memory.
abbrev memory_pe : PeDesc
memory_pe = record { has_virtmem = false; mem_size = 0x800000 }

abbrev on_pe_1 : Vpes
on_pe_1 = record { core_of = λ vpe. 1; is_loadgen = λ vpe. false }

attachrb_next_pe_example :
    (s : RecvBufs) × (attachrb 5 2
        (16 + 3)
        0x7f0000
        8
        6
        0
        (λ core. memory_pe)
        on_pe_1
        caller
        (init 2)
      ≡ some (no_error, s))
    × (RecvBufs.get 2 3 s.bufs ≡ some (attached_buf 0x7f0000 8 6 0 (buf 2 3)))
    × ((i : ℕ) → i < 16 → RecvBufs.get 1 i s.bufs ≡ RecvBufs.get 1 i (init 2).bufs)
unfolding table_of get get_typed insert empty Treap.find init RecvBufs.get in_space
attachrb_next_pe_example =
    attachrb_next_pe 5 2 8 3 0x7f0000 8 6 0 (λ core. memory_pe) on_pe_1 control (buf 2 3) caller
      (init 2) refl refl (omega arith) (omega arith) (omega arith) refl refl
      (λ i b l e. init-free 2 1 i b (omega arith) (omega arith) e) refl
