-- ===== src/Afc/Op.antt =====
-- src/afc.h: the operation codes of a packet. `bulk` is AFC_OP_DATA.
use libiphone_debian.Common.{ℕ}

abbrev pub status : ℕ
status = 0x01

abbrev pub bulk : ℕ
bulk = 0x02

abbrev pub read_dir : ℕ
read_dir = 0x03

abbrev pub truncate : ℕ
truncate = 0x07

abbrev pub remove_path : ℕ
remove_path = 0x08

abbrev pub make_dir : ℕ
make_dir = 0x09

abbrev pub get_file_info : ℕ
get_file_info = 0x0a

abbrev pub get_devinfo : ℕ
get_devinfo = 0x0b

abbrev pub file_open : ℕ
file_open = 0x0d

abbrev pub file_open_res : ℕ
file_open_res = 0x0e

abbrev pub read : ℕ
read = 0x0f

abbrev pub write : ℕ
write = 0x10

abbrev pub file_seek : ℕ
file_seek = 0x11

abbrev pub file_tell : ℕ
file_tell = 0x12

abbrev pub file_tell_res : ℕ
file_tell_res = 0x13

abbrev pub file_close : ℕ
file_close = 0x14

abbrev pub file_set_size : ℕ
file_set_size = 0x15

abbrev pub rename_path : ℕ
rename_path = 0x18

abbrev pub file_lock : ℕ
file_lock = 0x1b

abbrev pub make_link : ℕ
make_link = 0x1c

abbrev pub set_file_time : ℕ
set_file_time = 0x1e
