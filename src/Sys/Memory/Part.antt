-- ===== src/Sys/Memory/Part.antt =====
-- The object of a derived capability: a part of the memory of its source.
use semper_os.Base.{
  ℕ, zero, suc, ◌+◌, ◌*◌, ◌/◌, ◌%◌, ◌^◌, ◌<◌, ◌≤◌, ◌≡◌, refl, ap, sym, ◌∙◌, subst, Bool, true,
  false, ◌&&◌, some, ltb, ◌==◌, bit_and, add64, arith,
}
use semper_os.Base.Bits.{bit_or_disjoint}
use semper_os.Ddl.Hash.{structured_hash, mem_obj}
use semper_os.Cap.Capability.{MsgObject, inc_ref}
use semper_os.Sys.Memory.{mem_object, addr_of, perms_of}

-- A property of all permissions.
abbrev pub all_perms : (ℕ → Bool) → Bool
all_perms P = P 0 && P 1 && P 2 && P 3 && P 4 && P 5 && P 6 && P 7

pub all_perms-at : (P : ℕ → Bool) (a : ℕ) → a < 8 → all_perms P ≡ true → P a ≡ true
all_perms-at P zero h e = ground (arith, e)
all_perms-at P (suc zero) h e = ground (arith, e)
all_perms-at P (suc (suc zero)) h e = ground (arith, e)
all_perms-at P (suc (suc (suc zero))) h e = ground (arith, e)
all_perms-at P (suc (suc (suc (suc zero)))) h e = ground (arith, e)
all_perms-at P (suc (suc (suc (suc (suc zero))))) h e = ground (arith, e)
all_perms-at P (suc (suc (suc (suc (suc (suc zero)))))) h e = ground (arith, e)
all_perms-at P (suc (suc (suc (suc (suc (suc (suc zero))))))) h e = ground (arith, e)
all_perms-at P (suc (suc (suc (suc (suc (suc (suc (suc n)))))))) h e = absurd (omega arith)

-- What remains of permissions `a` under `b`.
pub common_perms :
    (a b : ℕ) → a < 8 → b < 8 → (bit_and a b < 8) × (bit_and (bit_and a b) b ≡ bit_and a b)
common_perms a b h g =
    let checks = λ (a b : ℕ). ltb (bit_and a b) 8 && (bit_and (bit_and a b) b == bit_and a b) in
    let e = all_perms-at (checks a) b g (all_perms-at (λ a. all_perms (checks a)) a h refl) in
    ground (arith, e)

pub mem_object-sum :
    (q size perms core vpe epid id : ℕ)
    → perms < 8
    → mem_object (q * 8) size perms core vpe epid id
      ≡ some (record {
        is_mem = true;
        label = q * 8 + perms;
        core = core;
        vpe = vpe;
        epid = epid;
        credits = size;
        derived = false;
        id = id;
        refs = 1;
      })
unfolding mem_object
mem_object-sum q size perms core vpe epid id h = ground (arith, bit_or_disjoint 3 q perms h)

-- An object on a part of the memory of `s`, with no more permissions, that does not own the memory.
abbrev pub IsPart : (offset size perms : ℕ) → MsgObject → MsgObject → Type 0
IsPart offset size perms s o =
    (addr_of o ≡ addr_of s + offset)
    × (o.credits ≡ size)
    × (addr_of o + o.credits ≤ addr_of s + s.credits)
    × (perms_of o ≡ bit_and perms (perms_of s))
    × (bit_and (perms_of o) (perms_of s) ≡ perms_of o)
    × (o.derived ≡ true)

abbrev pub part_object : (offset size perms : ℕ) → MsgObject → MsgObject
part_object offset size perms s = record {
  is_mem = true;
  label = (s.label / 8 + offset / 8) * 8 + bit_and perms (perms_of s);
  core = s.core;
  vpe = s.vpe;
  epid = s.epid;
  credits = size;
  derived = true;
  id = structured_hash s.core s.vpe mem_obj (add64 (addr_of s) offset);
  refs = 1;
}

pub part_object-IsPart :
    (offset size perms : ℕ) (s : MsgObject)
    → perms < 8
    → offset % 8 ≡ 0
    → offset + size ≤ s.credits
    → IsPart offset size perms s (part_object offset size perms s)
part_object-IsPart offset size perms s p a r =
    let (small, kept) = common_perms perms (perms_of s) p (omega arith) in
    (
      omega arith,
      refl,
      omega arith,
      omega arith,
      ap (λ x. bit_and x (perms_of s)) (low_part (s.label / 8 + offset / 8) _ small)
          ∙ kept
          ∙ sym (low_part (s.label / 8 + offset / 8) _ small),
      refl,
    )
  where
    low_part : (q p : ℕ) → p < 8 → (q * 8 + p) % 8 ≡ p
    low_part q p h = omega arith

pub part-made :
    (offset size perms : ℕ) (s s1 : MsgObject)
    → s1 ≡ record s { refs = inc_ref s.refs }
    → perms < 8
    → offset % 8 ≡ 0
    → addr_of s + offset < 2 ^ 64
    → mem_object
        (add64 (addr_of s1) offset)
        size
        (bit_and perms (perms_of s1))
        s1.core
        s1.vpe
        s1.epid
        (structured_hash s1.core s1.vpe mem_obj (add64 (addr_of s1) offset))
      ≡ some (record (part_object offset size perms s) { derived = false })
part-made offset size perms s s1 e p a b =
    let (small, kept) = common_perms perms (perms_of s) p (omega arith) in
    subst
      (λ s1.
        mem_object (add64 (addr_of s1) offset) size (bit_and perms (perms_of s1)) s1.core s1.vpe
          s1.epid (structured_hash s1.core s1.vpe mem_obj (add64 (addr_of s1) offset))
        ≡ some (record (part_object offset size perms s) { derived = false }))
      (sym e)
      (ap
          (λ x.
            mem_object x size (bit_and perms (perms_of s)) s.core s.vpe s.epid
              (structured_hash s.core s.vpe mem_obj (add64 (addr_of s) offset)))
          {y = (s.label / 8 + offset / 8) * 8} (omega arith)
        ∙ mem_object-sum (s.label / 8 + offset / 8) size _ s.core s.vpe s.epid _ small)
