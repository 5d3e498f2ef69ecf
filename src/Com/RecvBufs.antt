-- ===== src/Com/RecvBufs.antt =====
-- `RecvBufs` of apps/kernel/com/RecvBufs.h: the receive buffers of all PEs, each at an endpoint.
-- `none` is an access beyond the array or a failed assertion. A subscriber is known by a number, and
-- `done` lists what was sent to the DTUs and to subscribers, the latest last.
pub mod Access
pub mod Apart
pub mod Attach
pub mod Detach
use semper_os.Base.{
  ℕ, zero, suc, ◌+◌, ◌*◌, ◌/◌, ◌%◌, ◌^◌, Bool, true, false, not, ◌&&◌, ◌||◌, List, [], ◌∷◌, ◌++◌,
  Option, none, some, ltb, leb, ◌==◌, if◌then◌else◌, map, get_elem?, set, add64,
}
use semper_os.Base.Errors.{ErrorCode, no_error, exists, inv_args}
use semper_os.Ddl.Hash.{shl64}

abbrev pub ep_count : ℕ
ep_count = 16

-- `RBuf`. `order`, `msgorder` and `flags` are the bit patterns of an `int`.
pub record RBuf : Type 0 where
  pub coreid : ℕ
  pub epid : ℕ
  pub addr : ℕ
  pub order : ℕ
  pub msgorder : ℕ
  pub flags : ℕ
  pub waitlist : List ℕ

pub data Effect : Type 0 where
  configured : (core epid addr order msgorder flags : ℕ) (valid : Bool) → Effect
  notified : (sub : ℕ) (success : Bool) → Effect

pub record RecvBufs : Type 0 where
  pub bufs : List RBuf
  pub done : List Effect

-- `F_ATTACHED` is bit 31.
abbrev pub has_attached : ℕ → Bool
has_attached flags = flags / 2 ^ 31 % 2 == 1

abbrev pub with_attached : ℕ → ℕ
with_attached flags = flags % 2 ^ 31 + 2 ^ 31

abbrev pub without_attached : ℕ → ℕ
without_attached flags = flags % 2 ^ 31

-- The loops of `init`, for the PEs from `core` on.
abbrev pub pe_bufs : (core ep left : ℕ) → List RBuf
pe_bufs core ep zero = []
pe_bufs core ep (suc left) =
    record { coreid = core; epid = ep; addr = 0; order = 0; msgorder = 0; flags = 0; waitlist = [] }
    ∷ pe_bufs core (ep + 1) left

abbrev pub all_bufs : (core left : ℕ) → List RBuf
all_bufs core zero = []
all_bufs core (suc left) = pe_bufs core 0 ep_count ++ all_bufs (core + 1) left

-- `init`, given the highest id of a PE.
unfoldable pub init : (high_core_id : ℕ) → RecvBufs
init high_core_id = record { bufs = all_bufs 0 (high_core_id + 1); done = [] }

abbrev pub index : (coreid epid : ℕ) → ℕ
index coreid epid = (coreid * ep_count + epid) % 2 ^ 64

-- `get`; its assertion reads another place.
unfoldable pub get : (coreid epid : ℕ) → List RBuf → Option RBuf
get coreid epid bufs = elim (get_elem? bufs (add64 coreid epid)) [
  | none ↦ none
  | some r ↦ get_elem? bufs (index coreid epid)
]

-- A write through the reference that `get` gives.
abbrev pub put : (coreid epid : ℕ) → RBuf → List RBuf → List RBuf
put coreid epid r bufs = set bufs (index coreid epid) r

unfoldable pub is_attached : (core epid : ℕ) → RecvBufs → Option Bool
unfolding get
is_attached core epid s = elim (get core epid s.bufs) [
  | none ↦ none
  | some r ↦ some (has_attached r.flags)
]

unfoldable pub subscribe : (core epid sub : ℕ) → RecvBufs → Option RecvBufs
unfolding get
subscribe core epid sub s = elim (get core epid s.bufs) [
  | none ↦ none
  | some r ↦
      if has_attached r.flags
      then none
      else some (record s {
        bufs = put core epid (record r { waitlist = r.waitlist ++ sub ∷ [] }) s.bufs;
      })
]

-- `Math::overlap`.
unfoldable pub overlap : (start1 end1 start2 end2 : ℕ) → Bool
overlap start1 end1 start2 end2 =
    (leb start2 start1 && ltb start1 end2)
    || (ltb start2 end1 && leb end1 end2)
    || (ltb start1 start2 && ltb end2 end1)

-- The end of a buffer. A shift by 64 or more, which C leaves undefined, gives 0 here.
abbrev pub end_of : (addr order : ℕ) → ℕ
end_of addr order = add64 addr (shl64 1 order)

unfoldable pub is_in_way : (addr order : ℕ) → RBuf → Bool
unfolding overlap
is_in_way addr order r =
    has_attached r.flags && overlap r.addr (end_of r.addr r.order) addr (end_of addr order)

-- The loop of `attach`, from endpoint `i` on: whether another buffer of the PE overlaps.
unfoldable pub find_overlap : (core epid addr order i left : ℕ) → List RBuf → Option Bool
unfolding get is_in_way
find_overlap core epid addr order i zero bufs = some false
find_overlap core epid addr order i (suc left) bufs =
    let rest = find_overlap core epid addr order (i + 1) left bufs in
    if i == epid then rest else elim (get core i bufs) [
      | none ↦ none
      | some r ↦ if is_in_way addr order r then some true else rest
    ]

abbrev pub configure : (core epid : ℕ) → RBuf → Effect
configure core epid r =
    configured core epid r.addr r.order r.msgorder (without_attached r.flags) (has_attached r.flags)

-- What `notify` tells the subscribers; it takes each off the list.
abbrev pub notify : RBuf → Bool → List Effect
notify r success = map (λ sub. notified sub success) r.waitlist

abbrev pub attached_buf : (addr order msgorder flags : ℕ) → RBuf → RBuf
attached_buf addr order msgorder flags r = record r {
  addr = addr;
  order = order;
  msgorder = msgorder;
  flags = with_attached flags;
  waitlist = [];
}

unfoldable pub attach :
    (core epid addr order msgorder flags : ℕ) → RecvBufs → Option (ErrorCode × RecvBufs)
unfolding get find_overlap
attach core epid addr order msgorder flags s = elim (get core epid s.bufs) [
  | none ↦ none
  | some r ↦
      let r' = attached_buf addr order msgorder flags r in
      if has_attached r.flags
      then some (exists, s)
      else elim (find_overlap core epid addr order 0 ep_count s.bufs) [
        | none ↦ none
        | some is_found ↦
            if is_found
            then some (inv_args, s)
            else some (
              no_error,
              record {
                bufs = put core epid r' s.bufs;
                done = s.done ++ configure core epid r' ∷ notify r true;
              },
            )
      ]
]

unfoldable pub detach : (core epid : ℕ) → RecvBufs → Option RecvBufs
unfolding get
detach core epid s = elim (get core epid s.bufs) [
  | none ↦ none
  | some r ↦
      let r' = record r { flags = 0 } in
      let sent = if has_attached r.flags then configure core epid r' ∷ [] else [] in
      some record {
        bufs =
            put core epid
              (record r { flags = if has_attached r.flags then 0 else r.flags; waitlist = [] })
              s.bufs;
        done = s.done ++ sent ++ notify r false;
      }
]
