-- ===== src/Cap/Revoke/Frees.antt =====
-- What a revocation may do to a kernel: it empties some selectors of the object capabilities, and
-- leaves the others, the membership table, the ongoing revocations and the sent calls alone.
use semper_os.Base.{
  ℕ, ◌≡◌, refl, ap, ◌∙◌, Bool, true, false, ◌&&◌, ◌||◌, List, [], Option, none, ◌==◌, if◌then◌else◌,
  is_equal, arith,
}
use semper_os.Ddl.Members.{Members}
use semper_os.Cap.Capability.{
  obj, Capability, Body, msg, mem, page, service, session, virt_pe, Objects, revoke_by, deleted_vpe,
}
use semper_os.Cap.Table.{CapTable, get, unset}
use semper_os.Cap.Table.Lookup.{IsValid, IsValid-if, get-unset}
use semper_os.Cap.Kernel.{Kernel, table_of, put_table, set_table}
use semper_os.Cap.Item.{done}
use semper_os.Cap.Revoke.{revoke_self, own_revoke, unset_cap}

abbrev pub look : Kernel → ℕ → ℕ → Option Capability
look k vpe sel = get sel (k.objcaps vpe)

abbrev pub AllValid : Kernel → Type 0
AllValid k = (vpe : ℕ) → IsValid (k.objcaps vpe)

abbrev pub Frees : (ℕ → ℕ → Bool) → Kernel → Kernel → Type 0
Frees gone k k' =
    (k'.members ≡ k.members)
    × (k'.revs ≡ k.revs)
    × (k'.sent ≡ k.sent)
    × AllValid k'
    × ((vpe sel : ℕ) → look k' vpe sel ≡ (if gone vpe sel then none else look k vpe sel))

pub Frees-nothing : (k : Kernel) → AllValid k → Frees (λ vpe sel. false) k k
Frees-nothing k v = (refl, refl, refl, v, λ vpe sel. refl)

if_or :
    (a b : Bool) (x y z : Option Capability)
    → y ≡ (if a then none else x)
    → z ≡ (if b then none else y)
    → z ≡ (if a || b then none else x)
if_or a b x y z e f = ground arith

pub Frees-then :
    (g h : ℕ → ℕ → Bool) (k k' k'' : Kernel)
    → Frees g k k'
    → Frees h k' k''
    → Frees (λ vpe sel. g vpe sel || h vpe sel) k k''
Frees-then g h k k' k'' a b = (
  b.0 ∙ a.0,
  b.1 ∙ a.1,
  b.2 ∙ a.2,
  b.3,
  λ vpe sel. if_or (g vpe sel) (h vpe sel) _ _ _ (a.4 vpe sel) (b.4 vpe sel),
)

-- The slot of a capability.
abbrev pub slot : Capability → ℕ → ℕ → Bool
slot c vpe sel = (c.table == vpe) && (c.sel == sel)

-- A service, whose revocation may fail, or a VPE, which may be deleted.
abbrev pub is_special : Body → Bool
is_special (service inst) = true
is_special (virt_pe v i) = true
is_special _ = false

revoke_by-succeeds :
    (b : Body) (m : Members) (vpe sel : ℕ) (children : List ℕ) (w : Objects)
    → is_special b ≡ false
    → (revoke_by b m vpe sel children w).0 ≡ false
unfolding revoke_by
revoke_by-succeeds (msg ep o i) m vpe sel children w h = refl
revoke_by-succeeds (mem ep o i) m vpe sel children w h = refl
revoke_by-succeeds (page phys attr) m vpe sel children w h = refl
revoke_by-succeeds (service inst) m vpe sel children w h = ground arith
revoke_by-succeeds (session o) m vpe sel children w h = refl
revoke_by-succeeds (virt_pe v i) m vpe sel children w h = refl

deleted_vpe-none : (b : Body) (w : Objects) → is_special b ≡ false → deleted_vpe b w ≡ none
unfolding deleted_vpe
deleted_vpe-none (msg ep o i) w h = refl
deleted_vpe-none (mem ep o i) w h = refl
deleted_vpe-none (page phys attr) w h = refl
deleted_vpe-none (service inst) w h = refl
deleted_vpe-none (session o) w h = refl
deleted_vpe-none (virt_pe v i) w h = ground (arith, h)

get-if :
    (b d : Bool) (sel : ℕ) (t u : CapTable)
    → (b ≡ true → get sel t ≡ (if d then none else get sel u))
    → get sel (if b then t else u) ≡ (if b && d then none else get sel u)
get-if true d sel t u h = h refl
get-if false d sel t u h = refl

-- The kernel with the slot of `c` emptied, whatever becomes of the objects.
unset-Frees :
    (c : Capability) (k : Kernel) (w : Objects)
    → AllValid k
    → Frees (slot c) k (record k {
      objcaps = set_table k.objcaps c.table (unset c.sel (k.objcaps c.table));
      objects = w;
    })
unset-Frees c k w v = (
  refl,
  refl,
  refl,
  λ vpe.
      IsValid-if (c.table == vpe) _ _ (get-unset c.sel 0 (k.objcaps c.table) (v c.table)).0 (v vpe),
  λ vpe sel. get-if (c.table == vpe) (c.sel == sel) sel _ _ (λ e.
      (get-unset c.sel sel (k.objcaps c.table) (v c.table)).1
      ∙ ap (λ u. if c.sel == sel then none else get sel (k.objcaps u)) (is_equal c.table vpe e)),
)

-- The revocation of one object capability that is no service and stands for no VPE frees its slot.
pub revoke_self-Frees :
    (fuel : ℕ) (c : Capability) (k : Kernel)
    → c.table_type ≡ obj
    → is_special c.body ≡ false
    → AllValid k
    → (k' : Kernel) × (own_revoke fuel c k ≡ done 0 k') × Frees (slot c) k k'
unfolding own_revoke unset_cap put_table table_of
revoke_self-Frees fuel c k e h v =
    let w = (revoke_by c.body k.members c.table c.sel [] k.objects).1 in
    (
      record k {
        objcaps = set_table k.objcaps c.table (unset c.sel (k.objcaps c.table));
        objects = w;
      },
      rw
          (
            revoke_by-succeeds c.body k.members c.table c.sel [] k.objects h,
            deleted_vpe-none c.body k.objects h,
            e,
            revoke_self,
          )
          refl,
      unset-Frees c k w v,
    )
