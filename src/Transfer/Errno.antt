-- ===== src/Transfer/Errno.antt =====
-- The codes of a response: src/file_transfer/errno.rs.
use edgehog_device_runtime.Base.{ℕ, Result, ok, err}

-- `std::io::ErrorKind`; the kinds that the match does not name are one.
pub data ErrorKind : Type 0 where
  not_found permission_denied connection_refused connection_reset host_unreachable : ErrorKind
  network_unreachable connection_aborted not_connected addr_in_use addr_not_available : ErrorKind
  network_down broken_pipe already_exists would_block not_a_directory is_a_directory : ErrorKind
  directory_not_empty readonly_filesystem stale_network_file_handle invalid_input : ErrorKind
  invalid_data timed_out write_zero storage_full not_seekable quota_exceeded : ErrorKind
  file_too_large resource_busy executable_file_busy deadlock crosses_devices : ErrorKind
  too_many_links invalid_filename argument_list_too_long interrupted unsupported : ErrorKind
  unexpected_eof out_of_memory other unnamed : ErrorKind

abbrev pub success_code : ℕ
success_code = 0

unfoldable pub to_errno : ErrorKind → ℕ
to_errno not_found = 2
to_errno permission_denied = 13
to_errno connection_refused = 111
to_errno connection_reset = 104
to_errno host_unreachable = 113
to_errno network_unreachable = 101
to_errno connection_aborted = 103
to_errno not_connected = 107
to_errno addr_in_use = 98
to_errno addr_not_available = 99
to_errno network_down = 100
to_errno broken_pipe = 32
to_errno already_exists = 17
to_errno would_block = 11
to_errno not_a_directory = 20
to_errno is_a_directory = 21
to_errno directory_not_empty = 39
to_errno readonly_filesystem = 30
to_errno stale_network_file_handle = 116
to_errno invalid_input = 22
to_errno invalid_data = 22
to_errno timed_out = 110
to_errno write_zero = 28
to_errno storage_full = 28
to_errno not_seekable = 29
to_errno quota_exceeded = 122
to_errno file_too_large = 27
to_errno resource_busy = 16
to_errno executable_file_busy = 26
to_errno deadlock = 35
to_errno crosses_devices = 18
to_errno too_many_links = 31
to_errno invalid_filename = 36
to_errno argument_list_too_long = 7
to_errno interrupted = 4
to_errno unsupported = 95
to_errno unexpected_eof = 61
to_errno out_of_memory = 12
to_errno other = 22
to_errno unnamed = 22

unfoldable pub check_result : {A : Type 0} → Result A A → A × ℕ
check_result (ok t) = (t, success_code)
check_result (err t) = (t, to_errno invalid_data)
