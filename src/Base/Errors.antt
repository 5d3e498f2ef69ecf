-- ===== src/Base/Errors.antt =====
-- `Errors::Code` of include/base/Errors.h.
pub data ErrorCode : Type 0 where
  no_error miss_credits no_ring_space vpe_gone no_mapping : ErrorCode
  inv_args out_of_mem no_such_file no_perm not_sup no_free_core invalid_elf no_space exists :
      ErrorCode
  xfs_link dir_not_empty is_dir is_no_dir ep_invalid recv_gone end_of_file msgs_waiting : ErrorCode
  xfs_rename : ErrorCode
