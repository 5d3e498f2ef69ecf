-- ===== src/Lib.antt =====
-- A verification library for SemperOS, a capability system of several kernels. Each kernel manages
-- some processing elements (PEs) and the virtual PEs (VPEs) on them. Capabilities of all kernels are
-- known by 64-bit keys; a key names the PE whose kernel holds the item. A capability can have
-- children with other kernels, so revocation sends kernel calls and waits for their answers.
--
-- Parts, and the code that they model:
--   * Ddl.Hash: the layout of keys (src/apps/kernel/ddl/MHTTypes.h).
--   * Ddl.Members: the table of which kernel is responsible for which PE, and its updates
--     (src/apps/kernel/ddl/MHTInstance.{h,cc}). `Members` is the state, and each operation has the
--     name of the method in lower case.
--   * Ddl.Partition: the items stored for one PE, their locks and reservations
--     (src/apps/kernel/ddl/MHTPartition.cc).
--   * Col.Treap: the search tree that holds capabilities (src/include/base/col/Treap.h).
--   * Mem.Areas: the free areas of a memory (src/apps/kernel/mem/MemoryMap.cc). Mem.Main: the modules
--     of a kernel's main memory (src/apps/kernel/mem/MainMemory.cc).
--   * Cap.Capability: the classes of capabilities and the kernel objects
--     (src/apps/kernel/cap/Capability.{h,cc}). Cap.Children: the children of a capability.
--   * Cap.Table: the capabilities of one VPE by selector (src/apps/kernel/cap/CapTable.{h,cc}). It
--     stores them in a treap, and makes their keys by Ddl.Hash.
--   * Cap.Kernel: the state of one kernel, with the list of its ongoing revocations
--     (src/apps/kernel/cap/Revocations.h) and the kernel calls that it has sent.
--   * Cap.Revocations: how answers are counted and passed on
--     (src/apps/kernel/cap/Revocations.cc and `revokeFinish` of
--     src/apps/kernel/KernelcallHandler.cc).
--   * Cap.Item: the items of capabilities that MHTInstance::get finds for a key.
--   * Cap.Revoke: `revoke_rec` of src/apps/kernel/cap/CapTable.cc. A thread that waits is a result, and
--     `resume_root` is what it does once it is woken. The revocation of a capability for a VPE deletes the
--     VPE if only the VPE's own reference is left (src/apps/kernel/pes/VPE.cc,
--     src/apps/kernel/arch/baremetal/VPE.cc), and that revokes all capabilities of its tables; what
--     else the deletion does is an effect. Cap.Revoke.Calls: what starts a revocation, and the kernel
--     calls. Cap.Revoke.Protocol: the messages between two kernels.
--     Cap.Obtain: how a table gets copies.
--   * Sys.Exchange: how two VPEs exchange capabilities, and Sys.Memory: the system calls that request
--     memory and derive a part of it (src/apps/kernel/SyscallHandler.cc). They work on the tables of
--     Cap.Kernel by `obtain` of Cap.Obtain; requests also on the modules of Mem.Main.
--   * Com.RecvBufs: the buffers that receive messages (src/apps/kernel/com/RecvBufs.h), with 16
--     endpoints for each PE as on gem5. Sys.Buffers: the system calls that attach and detach them, which
--     find the PE by a capability of Cap.Table.
--   * Pes.Channel: the message slots between two kernels and the threads that wait for one
--     (src/apps/kernel/pes/KPE.{h,cc}), as a step relation. Com.SendQueue: the messages to a service
--     (src/apps/kernel/SendQueue.h).
--   * Fs.Allocator: the allocation of inodes and blocks of m3fs in a bitmap
--     (src/apps/m3fs/Allocator.cc, src/include/fs/internal.h). The search within a word runs on
--     fuel 32, which is enough as the word has a free bit; the other loops run as long as the block
--     has bits, and over as many blocks as there are.
--   * Pipe.RingBuf: the positions of a pipe's readers and writers (src/apps/pipeserv/VarRingBuf.h).
--     Pipe.Session: the requests of a pipe's clients and the answers (src/apps/pipeserv/Session.cc);
--     Pipe.Service: attach, close and obtain (src/apps/pipeserv/pipeserv.cc).
--   * Base: helpers on numbers, lists and bits. Tests: the operations at concrete inputs.
--
-- Machine words are natural numbers below a power of two, and each wrap-around is written out, but
-- in Fs.Allocator, where numbers stay below 2 ^ 31. A signed number is its bit pattern. Loops over
-- lists and trees are structural recursion. Besides those of Fs.Allocator, two recursions run on
-- fuel: that of `revoke_rec`, for which the height of the part of the tree that is with one kernel
-- is enough, with as much for the capabilities of each VPE that is deleted, and the notification of
-- subscribers, where fuel bounds how deep one entry's end leads to that of another; a subscriber of
-- an entry is an ancestor of its capability, so that the depth of the capability tree is enough.
--
-- Pointers: a capability or an object is known by a number or a key, and a store maps it to its
-- contents; a revocation goes on with the contents that it has begun with. Assertions that fail and
-- panics are results of their own.
--
-- Not modelled: device access (src/apps/kernel/arch), the other system calls, the forwarding of
-- requests for items, the lists of services, the rest of the file system, pager, shell, the user
-- library, tools and the C library. Output for logs is left out everywhere.
pub mod Base
pub mod Cap
pub mod Col
pub mod Com
pub mod Ddl
pub mod Fs
pub mod Mem
pub mod Pes
pub mod Pipe
pub mod Sys
pub mod Tests
