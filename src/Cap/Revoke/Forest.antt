-- ===== src/Cap/Revoke/Forest.antt =====
-- Trees of capabilities that are stored with one kernel.
use semper_os.Base.{
  ℕ, suc, ◌≡◌, ◌≢◌, ap, sym, ◌∙◌, subst, Bool, true, false, ◌||◌, List, [], ◌∷◌, Option, none, some,
  max, if◌then◌else◌, arith,
}
use semper_os.Ddl.Hash.{hash_to_pe_id, hash_to_type, hash_to_obj_id, as_ocap}
use semper_os.Ddl.Members.{Members, responsible_member}
use semper_os.Cap.Capability.{obj, Capability}
use semper_os.Cap.Kernel.{Kernel}
use semper_os.Cap.Item.{check_type}
use semper_os.Cap.Revoke.Frees.{look, Frees, slot, is_special}

-- Trees of capabilities, side by side: the first one's root, the trees below it, and the other trees.
pub data Forest : Type 0 where
  no_tree : Forest
  grow : (root : Capability) (below rest : Forest) → Forest

-- The ids of the roots.
abbrev pub roots : Forest → List ℕ
roots no_tree = []
roots (grow c below rest) = c.id ∷ roots rest

-- Is a selector of a VPE the slot of a capability of the forest?
abbrev pub within : Forest → ℕ → ℕ → Bool
within no_tree vpe sel = false
within (grow c below rest) vpe sel = (slot c vpe sel || within below vpe sel) || within rest vpe sel

abbrev pub height : Forest → ℕ
height no_tree = 0
height (grow c below rest) = max (suc (height below)) (height rest)

abbrev pub Apart : (ℕ → ℕ → Bool) → (ℕ → ℕ → Bool) → Type 0
Apart f g = (vpe sel : ℕ) → f vpe sel ≡ true → g vpe sel ≡ false

-- An object capability that is no service and stands for no VPE, whose id names its kernel, its VPE and its selector.
abbrev pub IsLocal : Members → Capability → Type 0
IsLocal m c =
    (responsible_member m c.id ≡ m.kid)
    × (hash_to_pe_id c.id ≡ c.table)
    × (hash_to_obj_id c.id ≡ c.sel)
    × (check_type (hash_to_type c.id) ≡ true)
    × (c.table_type ≡ obj)
    × (is_special c.body ≡ false)

-- The forest is in the tables `at`, each capability in a slot of its own, and none is `origin`.
abbrev pub IsStored : ℕ → Members → (ℕ → ℕ → Option Capability) → Forest → Type 0
IsStored origin m at no_tree = Unit
IsStored origin m at (grow c below rest) =
    IsLocal m c
    × (as_ocap c.id ≢ origin)
    × (at c.table c.sel ≡ some c)
    × (c.children ≡ roots below)
    × Apart (slot c) (within below)
    × Apart (λ vpe sel. slot c vpe sel || within below vpe sel) (within rest)
    × IsStored origin m at below
    × IsStored origin m at rest

slot_self : (c : Capability) → slot c c.table c.sel ≡ true
slot_self c = ground arith

-- What is stored stays when other slots change.
IsStored-frame :
    (origin : ℕ) (m : Members) (at at' : ℕ → ℕ → Option Capability) (f : Forest)
    → ((vpe sel : ℕ) → within f vpe sel ≡ true → at' vpe sel ≡ at vpe sel)
    → IsStored origin m at f
    → IsStored origin m at' f
IsStored-frame origin m at at' no_tree same s = tt
IsStored-frame origin m at at' (grow c below rest) same s = (
  s.0,
  s.1,
  same c.table c.sel (ground (arith, slot_self c)) ∙ s.2,
  s.3,
  s.4,
  s.5,
  IsStored-frame origin m at at' below (λ vpe sel h. same vpe sel (ground arith)) s.6,
  IsStored-frame origin m at at' rest (λ vpe sel h. same vpe sel (ground arith)) s.7,
)

not_gone : (gone here : Bool) → (gone ≡ true → here ≡ false) → here ≡ true → gone ≡ false
not_gone gone here f h = ground arith

pub IsStored-after :
    (origin : ℕ) (gone : ℕ → ℕ → Bool) (k k' : Kernel) (f : Forest)
    → Frees gone k k'
    → Apart gone (within f)
    → IsStored origin k.members (look k) f
    → IsStored origin k'.members (look k') f
IsStored-after origin gone k k' f fr apart s =
    subst (λ m. IsStored origin m (look k') f) (sym fr.0)
      (IsStored-frame origin k.members (look k) (look k') f
        (λ vpe sel h.
          fr.4 vpe sel
          ∙ ap (λ b. if b then none else look k vpe sel)
              (not_gone (gone vpe sel) (within f vpe sel) (apart vpe sel) h))
        s)
