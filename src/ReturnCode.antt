-- ===== src/ReturnCode.antt =====
-- `sparkey_returncode` of src/sparkey.h, and the translations of `errno` in src/util.c.

-- `SPARKEY_SUCCESS` is the return of a value (`Exec.done`); the other codes are these.
pub data ReturnCode : Type 0 where
  internal_error : ReturnCode
  file_not_found permission_denied too_many_open_files file_too_large : ReturnCode
  file_already_exists file_busy file_is_directory file_size_exceeded : ReturnCode
  file_closed out_of_disk unexpected_eof mmap_failed : ReturnCode
  wrong_log_magic_number wrong_log_major_version unsupported_log_minor_version : ReturnCode
  log_too_small log_closed log_iterator_inactive log_iterator_mismatch : ReturnCode
  log_iterator_closed log_header_corrupt : ReturnCode
  invalid_compression_block_size invalid_compression_type : ReturnCode
  wrong_hash_magic_number wrong_hash_major_version unsupported_hash_minor_version : ReturnCode
  hash_too_small hash_closed file_identifier_mismatch hash_header_corrupt : ReturnCode
  hash_size_invalid : ReturnCode

-- The values of `errno` that the library tells apart; `other` is any further one.
pub data Errno : Type 0 where
  eperm eacces erofs enfile emfile enoent eoverflow eexist eisdir ebusy : Errno
  eintr eagain enospc efbig ebadf other : Errno

-- `sparkey_open_returncode`
pub open_returncode : Errno → ReturnCode
open_returncode eperm = permission_denied
open_returncode eacces = permission_denied
open_returncode enfile = too_many_open_files
open_returncode enoent = file_not_found
open_returncode eoverflow = file_too_large
open_returncode _ = internal_error

-- `sparkey_create_returncode`
pub create_returncode : Errno → ReturnCode
create_returncode eperm = permission_denied
create_returncode erofs = permission_denied
create_returncode eacces = permission_denied
create_returncode eexist = file_already_exists
create_returncode eisdir = file_is_directory
create_returncode enfile = too_many_open_files
create_returncode emfile = too_many_open_files
create_returncode _ = internal_error

-- `sparkey_remove_returncode`
pub remove_returncode : Errno → ReturnCode
remove_returncode eperm = permission_denied
remove_returncode erofs = permission_denied
remove_returncode eacces = permission_denied
remove_returncode ebusy = file_busy
remove_returncode eisdir = file_is_directory
remove_returncode eoverflow = file_too_large
remove_returncode _ = internal_error
