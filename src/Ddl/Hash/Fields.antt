-- ===== src/Ddl/Hash/Fields.antt =====
-- The fields of a key, and what the type masks do to them.
use semper_os.Base.{ℕ, ◌+◌, ◌*◌, ◌/◌, ◌%◌, ◌^◌, ◌<◌, ◌≡◌, arith}
use semper_os.Base.Bits.{bit_or_disjoint, bit_or_mask, bit_or_seven, bit_or_one}
use semper_os.Ddl.Hash.{
  shl64, structured_hash, hash_to_pe_id, hash_to_vpe_id, hash_to_type, hash_to_obj_id, as_ocap,
  as_mcap, without_cap_type,
}

-- The key as a sum of its fields.
pub structured_hash_sum :
    (pe vpe type key : ℕ)
    → pe < 2 ^ 10
    → vpe < 2 ^ 11
    → type < 2 ^ 7
    → key < 2 ^ 36
    → structured_hash pe vpe type key ≡ pe * 2 ^ 54 + vpe * 2 ^ 43 + type * 2 ^ 36 + key
unfolding structured_hash shl64
structured_hash_sum pe vpe type key hp hv ht hk = ground (
  arith,
  bit_or_disjoint 54 pe (vpe * 2 ^ 43),
  bit_or_disjoint 43 (pe * 2 ^ 11 + vpe) (type * 2 ^ 36),
  bit_or_disjoint 36 (pe * 2 ^ 18 + vpe * 2 ^ 7 + type) key,
)

-- A key made from ids in their ranges gives each of them back.
pub structured_hash_fields :
    (pe vpe type key : ℕ)
    → pe < 2 ^ 10
    → vpe < 2 ^ 11
    → type < 2 ^ 7
    → key < 2 ^ 32
    → (hash_to_pe_id (structured_hash pe vpe type key) ≡ pe)
      × (hash_to_vpe_id (structured_hash pe vpe type key) ≡ vpe)
      × (hash_to_type (structured_hash pe vpe type key) ≡ type)
      × (hash_to_obj_id (structured_hash pe vpe type key) ≡ key)
unfolding hash_to_pe_id hash_to_vpe_id hash_to_type hash_to_obj_id
structured_hash_fields pe vpe type key hp hv ht hk =
    omega (arith, structured_hash_sum pe vpe type key hp hv ht (omega arith))

pub as_ocap_sum : (k : ℕ) → as_ocap k ≡ (k / 2 ^ 40 * 8 + 7) * 2 ^ 37 + k % 2 ^ 37
unfolding as_ocap
as_ocap_sum k = omega (arith, bit_or_mask 37 k 7, bit_or_seven (k / 2 ^ 37))

pub as_mcap_sum : (k : ℕ) → as_mcap k ≡ (k / 2 ^ 37 * 2 + 1) * 2 ^ 36 + k % 2 ^ 36
unfolding as_mcap
as_mcap_sum k = omega (arith, bit_or_mask 36 k 1, bit_or_one (k / 2 ^ 36))

-- The generic object capability id keeps the PE, the VPE and the selector.
pub as_ocap_fields :
    (k : ℕ)
    → (hash_to_pe_id (as_ocap k) ≡ hash_to_pe_id k)
      × (hash_to_vpe_id (as_ocap k) ≡ hash_to_vpe_id k)
      × (hash_to_obj_id (as_ocap k) ≡ hash_to_obj_id k)
      × (without_cap_type (as_ocap k) ≡ without_cap_type k)
unfolding hash_to_pe_id hash_to_vpe_id hash_to_obj_id without_cap_type
as_ocap_fields k = omega (arith, as_ocap_sum k)

pub as_mcap_fields :
    (k : ℕ)
    → (hash_to_pe_id (as_mcap k) ≡ hash_to_pe_id k)
      × (hash_to_vpe_id (as_mcap k) ≡ hash_to_vpe_id k)
      × (hash_to_obj_id (as_mcap k) ≡ hash_to_obj_id k)
      × (without_cap_type (as_mcap k) ≡ without_cap_type k)
unfolding hash_to_pe_id hash_to_vpe_id hash_to_obj_id without_cap_type
as_mcap_fields k = omega (arith, as_mcap_sum k)

pub as_ocap_twice : (k : ℕ) → as_ocap (as_ocap k) ≡ as_ocap k
as_ocap_twice k = omega (arith, as_ocap_sum k, as_ocap_sum (as_ocap k))
