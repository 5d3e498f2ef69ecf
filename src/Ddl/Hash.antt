-- ===== src/Ddl/Hash.antt =====
-- apps/kernel/ddl/MHTTypes.h: item types, the layout of a key, `HashUtil` and the type masks. A key
-- is a `uint64_t`: from the top 10 bits of PE id, 11 of VPE id, 7 of item type, 36 of object id.
pub mod Fields
use semper_os.Base.{
  ℕ, ◌+◌, ◌*◌, ◌/◌, ◌%◌, ◌^◌, ◌≡◌, refl, Bool, true, false, bit_or, ◌==◌, ◌||◌, if◌then◌else◌,
}

-- `ItemType`, a `uint8_t`. A key holds any 7 bits there, so the types are their numbers.
abbrev pub no_type : ℕ
no_type = 0

abbrev pub map_cap : ℕ
map_cap = 1

abbrev pub msg_cap : ℕ
msg_cap = 2

abbrev pub srv_cap : ℕ
srv_cap = 4

abbrev pub sess_cap : ℕ
sess_cap = 6

abbrev pub vpe_cap : ℕ
vpe_cap = 8

abbrev pub mem_cap : ℕ
mem_cap = 10

abbrev pub generic_ocap : ℕ
generic_ocap = 14

abbrev pub service_item : ℕ
service_item = 16

abbrev pub mem_obj : ℕ
mem_obj = 64

-- `PE_BITS` is the binary logarithm of `Platform::MAX_PES`.
abbrev pub max_pes : ℕ
max_pes = 1024

abbrev pub pe_bits : ℕ
pe_bits = 10

abbrev pub vpe_bits : ℕ
vpe_bits = 11

abbrev pub type_bits : ℕ
type_bits = 7

abbrev pub hash_bits : ℕ
hash_bits = 36

-- `x << n` on `mht_key_t`.
unfoldable pub shl64 : ℕ → ℕ → ℕ
shl64 x n = x * 2 ^ n % 2 ^ 64

-- `structured_hash(pe_id, vpe_id, type, key)`.
unfoldable pub structured_hash : ℕ → ℕ → ℕ → ℕ → ℕ
structured_hash pe_id vpe_id type key =
    bit_or (bit_or (bit_or (shl64 pe_id 54) (shl64 vpe_id 43)) (shl64 type 36)) (key % 2 ^ 36)

-- `structured_hash(vpe_id, type, key)`: the PE id comes from the VPE id.
unfoldable pub structured_hash_vpe : ℕ → ℕ → ℕ → ℕ
unfolding structured_hash
structured_hash_vpe vpe_id type key = structured_hash (vpe_id % max_pes) vpe_id type key

unfoldable pub hash_to_pe_id : ℕ → ℕ
hash_to_pe_id key = key / 2 ^ 54 % 2 ^ 16

unfoldable pub hash_to_vpe_id : ℕ → ℕ
hash_to_vpe_id key = key / 2 ^ 43 % 2 ^ 11

-- `(mht_key & TYPE_MASK) >> HASH_BITS`.
unfoldable pub hash_to_type : ℕ → ℕ
hash_to_type key = key / 2 ^ 36 % 2 ^ 7

-- The object id, cut to a `uint`.
unfoldable pub hash_to_obj_id : ℕ → ℕ
hash_to_obj_id key = key % 2 ^ 36 % 2 ^ 32

-- `key | TYPE_MASK_OCAP`: three bits from bit 37 on.
unfoldable pub as_ocap : ℕ → ℕ
as_ocap key = bit_or key (7 * 2 ^ 37)

-- `key | TYPE_MASK_MCAP`: bit 36.
unfoldable pub as_mcap : ℕ → ℕ
as_mcap key = bit_or key (1 * 2 ^ 36)

-- `key & ~TYPE_MASK_CAP`: the four bits from bit 36 on are cleared.
unfoldable pub without_cap_type : ℕ → ℕ
without_cap_type key = key / 2 ^ 40 * 2 ^ 40 + key % 2 ^ 36
