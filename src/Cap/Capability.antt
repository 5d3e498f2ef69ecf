-- ===== src/Cap/Capability.antt =====
-- apps/kernel/cap/Capability.{h,cc}: the classes of capabilities, the kernel objects that they
-- refer to, and what the revocation of one capability does to its object. Objects are named by
-- numbers and kept in stores; a reference count is a field of the object.
use semper_os.Base.{
  ℕ, ◌+◌, ◌-◌, ◌*◌, ◌/◌, ◌%◌, ◌^◌, Bool, true, false, not, ◌&&◌, ◌||◌, List, [], ◌∷◌, Option, none,
  some, length, ltb, ◌==◌, if◌then◌else◌,
}
use semper_os.Ddl.Hash.{srv_cap, sess_cap, msg_cap, mem_cap, map_cap, vpe_cap}
use semper_os.Ddl.Members.{Members, key_locality}

-- `CapRngDesc::Type`, the type of a capability table.
pub data TableType : Type 0 where
  obj map : TableType

-- The capability types of the anonymous enumeration, bits of an `unsigned`.
abbrev pub service_type : ℕ
service_type = 0x01

abbrev pub session_type : ℕ
session_type = 0x02

abbrev pub msg_type : ℕ
msg_type = 0x04

abbrev pub mem_type : ℕ
mem_type = 0x08

abbrev pub map_type : ℕ
map_type = 0x10

abbrev pub vpe_type : ℕ
vpe_type = 0x20

-- `capTypeToItemType`; `none` is its panic.
unfoldable pub cap_type_to_item_type : ℕ → Option ℕ
cap_type_to_item_type t =
    if t == service_type
    then some srv_cap
    else if t == session_type
    then some sess_cap
    else if t == msg_type
    then some msg_cap
    else if t == mem_type
    then some mem_cap
    else if t == msg_type + mem_type
    then some mem_cap
    else if t == map_type
    then some map_cap
    else if t == vpe_type
    then some vpe_cap
    else none

-- The members of the subclasses. `localepid` is `none` for -1, and `vpe_id` where it is not
-- initialised.
pub data Body : Type 0 where
  msg : (localepid : Option ℕ) (object object_id : ℕ) → Body
  mem : (localepid : Option ℕ) (object object_id : ℕ) → Body
  page : (phys attr : ℕ) → Body
  service : (inst : ℕ) → Body
  session : (object : ℕ) → Body
  virt_pe : (vpe : ℕ) (vpe_id : Option ℕ) → Body

pub record Capability : Type 0 where
  pub type : ℕ
  pub id : ℕ
  pub table : ℕ
  pub table_type : TableType
  pub sel : ℕ
  pub parent : ℕ
  pub children : List ℕ
  pub body : Body

-- `MsgObject`; `is_mem` marks a `MemObject`.
pub record MsgObject : Type 0 where
  pub is_mem : Bool
  pub label : ℕ
  pub core : ℕ
  pub vpe : ℕ
  pub epid : ℕ
  pub credits : ℕ
  pub derived : Bool
  pub id : ℕ
  pub refs : ℕ

pub record SessionObject : Type 0 where
  pub servowned : Bool
  pub ident : ℕ
  pub srv : ℕ
  pub refs : ℕ

-- What revocation reads of a `Service`: `running` tells the state of its VPE.
pub record Service : Type 0 where
  pub closing : Bool
  pub pending : ℕ
  pub running : Bool

-- What is done outside the kernel's own state.
pub data Effect : Type 0 where
  invalidate_ep : (vpe ep : ℕ) → Effect
  free_memory : (core addr size : ℕ) → Effect
  map_page : (vpe sel phys attr : ℕ) → Effect
  unmap_page : (vpe sel : ℕ) → Effect
  close_session : (srv ident : ℕ) → Effect
  delete_vpe : (vpe : ℕ) → Effect

-- The kernel objects, and the effects so far, the latest first.
pub record Objects : Type 0 where
  pub msgs : ℕ → MsgObject
  pub sessions : ℕ → SessionObject
  pub services : ℕ → Service
  pub vpe_refs : ℕ → ℕ
  pub effects : List Effect

abbrev pub update {ℓ} : {A : Type ℓ} → (ℕ → A) → ℕ → A → ℕ → A
update f i v j = if i == j then v else f j

unfoldable pub emit : Effect → Objects → Objects
emit e w = record w { effects = e ∷ w.effects }

-- `add_ref` and `rem_ref` of include/base/util/Reference.h, on an `ulong`.
abbrev pub inc_ref : ℕ → ℕ
inc_ref refs = (refs + 1) % 2 ^ 64

abbrev pub dec_ref : ℕ → ℕ
dec_ref refs = (refs + 2 ^ 64 - 1) % 2 ^ 64

-- `VPE::ref` and `--_refs` of `VPE::unref`, on an `int`.
abbrev pub inc_vpe_ref : ℕ → ℕ
inc_vpe_ref refs = (refs + 1) % 2 ^ 32

abbrev pub dec_vpe_ref : ℕ → ℕ
dec_vpe_ref refs = (refs + 2 ^ 32 - 1) % 2 ^ 32

-- `Reference<MsgObject>::unref`.
unfoldable pub unref_msg : ℕ → Objects → Objects
unref_msg o w =
    let r = w.msgs o in record w { msgs = update w.msgs o (record r { refs = dec_ref r.refs }) }

-- `MsgObject::revokeAction`, which only `MemObject` overrides.
unfoldable pub revoke_action : MsgObject → Objects → Objects
unfolding emit
revoke_action o w =
    if o.is_mem && not o.derived then emit (free_memory o.core (o.label / 8 * 8) o.credits) w else w

unfoldable pub invalidate_local : ℕ → Option ℕ → Objects → Objects
unfolding emit
invalidate_local vpe none w = w
invalidate_local vpe (some ep) w = emit (invalidate_ep vpe ep) w

-- `MsgCapability::revoke`, which `MemCapability` inherits.
unfoldable pub revoke_msg : Members → ℕ → Option ℕ → ℕ → Objects → Objects
unfolding unref_msg revoke_action invalidate_local
revoke_msg m vpe localepid o w =
    let w' = invalidate_local vpe localepid w in
    let r = w.msgs o in
    unref_msg o (if key_locality m r.id && (r.refs == 1) then revoke_action r w' else w')

-- `SessionObject::close`.
unfoldable pub close : SessionObject → Objects → Objects
unfolding emit
close s w = if (w.services s.srv).running then emit (close_session s.srv s.ident) w else w

-- `Reference<SessionObject>::unref`: the destructor closes the session unless the server owns it.
unfoldable pub unref_session : ℕ → Objects → Objects
unfolding close
unref_session o w =
    let s = w.sessions o in
    let w' = record w { sessions = update w.sessions o (record s { refs = dec_ref s.refs }) } in
    if (s.refs == 1) && not s.servowned then close s w' else w'

unfoldable pub revoke_session : ℕ → Objects → Objects
unfolding close unref_session
revoke_session o w =
    let s = w.sessions o in unref_session o (if s.servowned && (s.refs == 2) then close s w else w)

-- `ServiceCapability::revoke`: whether it fails with `MSGS_WAITING`.
unfoldable pub revoke_service : ℕ → List ℕ → Objects → Bool × Objects
revoke_service inst children w =
    let s = w.services inst in
    (
      ltb 0 s.pending || (ltb 0 (length children) && not s.closing),
      record w { services = update w.services inst (record s { closing = true }) },
    )

-- The virtual `revoke`, with the children that the capability still has; the flag tells of an error.
-- That of a VPE capability gives up a reference; whether it deletes the VPE is told by `deleted_vpe`.
unfoldable pub revoke_by : Body → Members → ℕ → ℕ → List ℕ → Objects → Bool × Objects
unfolding revoke_msg revoke_session revoke_service emit
revoke_by (msg ep o i) m vpe sel children w = (false, revoke_msg m vpe ep o w)
revoke_by (mem ep o i) m vpe sel children w = (false, revoke_msg m vpe ep o w)
revoke_by (page phys attr) m vpe sel children w = (false, emit (unmap_page vpe sel) w)
revoke_by (service inst) m vpe sel children w = revoke_service inst children w
revoke_by (session o) m vpe sel children w = (false, revoke_session o w)
revoke_by (virt_pe v i) m vpe sel children w =
    (false, record w { vpe_refs = update w.vpe_refs v (dec_vpe_ref (w.vpe_refs v)) })

-- The VPE that is deleted by a capability's `revoke`: `VPE::unref` does so where one reference is left,
-- that of the VPE's capability for itself.
unfoldable pub deleted_vpe : Body → Objects → Option ℕ
deleted_vpe (virt_pe v i) w = if dec_vpe_ref (w.vpe_refs v) == 1 then some v else none
deleted_vpe _ w = none

-- The virtual `clone`: the body of the copy and the objects with the new reference, or `none` for a
-- service capability, which has no copies. The constructor of a page's copy maps the page, and that of
-- a VPE capability's copy leaves `vpe_id` as it is in memory.
unfoldable pub clone_body : Body → ℕ → ℕ → Objects → Option (Body × Objects)
unfolding emit
clone_body (msg ep o i) vpe sel w =
    let r = w.msgs o in
    some (msg none o i, record w { msgs = update w.msgs o (record r { refs = inc_ref r.refs }) })
clone_body (mem ep o i) vpe sel w =
    let r = w.msgs o in
    some (mem none o i, record w { msgs = update w.msgs o (record r { refs = inc_ref r.refs }) })
clone_body (page phys attr) vpe sel w = some (page phys attr, emit (map_page vpe sel phys attr) w)
clone_body (service inst) vpe sel w = none
clone_body (session o) vpe sel w =
    let s = w.sessions o in
    some
      (session o, record w { sessions = update w.sessions o (record s { refs = inc_ref s.refs }) })
clone_body (virt_pe v i) vpe sel w =
    some (virt_pe v none, record w { vpe_refs = update w.vpe_refs v (inc_vpe_ref (w.vpe_refs v)) })

abbrev pub copied_parent : Body → ℕ → ℕ
copied_parent (page phys attr) parent = 0
copied_parent _ parent = parent

-- The copy in a table at a selector: no id yet and no children. The constructor that makes a page's
-- copy leaves it without a parent.
unfoldable pub clone : Capability → TableType → ℕ → ℕ → Objects → Option (Capability × Objects)
unfolding clone_body
clone c type vpe sel w = elim (clone_body c.body vpe sel w) [
  | none ↦ none
  | some (b, w') ↦ some (
    record {
      type = c.type;
      id = 0;
      table = vpe;
      table_type = type;
      sel = sel;
      parent = copied_parent c.body c.parent;
      children = [];
      body = b;
    },
    w',
  )
]
