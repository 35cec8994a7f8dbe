-- ===== src/Afc/Error.antt =====
-- include/libimobiledevice/afc.h: the error codes.
-- An afc_error_t is an int16_t, here the number below 2 ^ 16 with its bits.
use libiphone_debian.Common.{ℕ}

abbrev pub success : ℕ
success = 0

abbrev pub unknown_error : ℕ
unknown_error = 1

abbrev pub op_header_invalid : ℕ
op_header_invalid = 2

abbrev pub invalid_arg : ℕ
invalid_arg = 7

abbrev pub op_not_supported : ℕ
op_not_supported = 15

abbrev pub io_error : ℕ
io_error = 20

abbrev pub internal_error : ℕ
internal_error = 23

abbrev pub mux_error : ℕ
mux_error = 30

abbrev pub not_enough_data : ℕ
not_enough_data = 32

abbrev pub dir_not_empty : ℕ
dir_not_empty = 33
