-- ===== src/OsStatus.antt =====
-- sources/sysapi/include/bezos/status.h: the status codes.
pub data OsStatus : Type 0 where
  success out_of_memory not_found invalid_input not_supported already_exists : OsStatus
  traverse_non_folder invalid_type handle_locked invalid_path invalid_function end_of_file :
      OsStatus
  invalid_data invalid_version timeout out_of_bounds more_data checksum_error : OsStatus
  invalid_handle invalid_address invalid_span device_fault device_busy device_not_ready : OsStatus
  interface_not_supported function_not_supported operation_not_supported completed : OsStatus
  access_denied process_orphaned not_available thread_terminated out_of_address_space : OsStatus
