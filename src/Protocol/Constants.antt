-- ===== src/Protocol/Constants.antt =====
-- The constants of include/devmgr/protocol.h: sizes, message types and flag bits.
use linux_device_manager.Base.{ℕ}

abbrev pub magic : ℕ
magic = 0x4d44

abbrev pub version : ℕ
version = 1

abbrev pub header_size : ℕ
header_size = 12

abbrev pub crc_size : ℕ
crc_size = 4

abbrev pub max_payload : ℕ
max_payload = 4096

-- `DEVMGR_PROTOCOL_MAX_FRAME`: header, payload and CRC.
abbrev pub max_frame : ℕ
max_frame = 4112

abbrev pub msg_ping : ℕ
msg_ping = 0x01

abbrev pub msg_get_info : ℕ
msg_get_info = 0x02

abbrev pub msg_get_health : ℕ
msg_get_health = 0x03

abbrev pub msg_get_stats : ℕ
msg_get_stats = 0x04

abbrev pub msg_start_telemetry : ℕ
msg_start_telemetry = 0x05

abbrev pub msg_stop_telemetry : ℕ
msg_stop_telemetry = 0x06

abbrev pub msg_enter_bootloader : ℕ
msg_enter_bootloader = 0x10

abbrev pub msg_fw_begin : ℕ
msg_fw_begin = 0x11

abbrev pub msg_fw_data : ℕ
msg_fw_data = 0x12

abbrev pub msg_fw_status : ℕ
msg_fw_status = 0x13

abbrev pub msg_fw_end : ℕ
msg_fw_end = 0x14

abbrev pub msg_fw_verify : ℕ
msg_fw_verify = 0x15

abbrev pub msg_fw_activate : ℕ
msg_fw_activate = 0x16

abbrev pub msg_reboot : ℕ
msg_reboot = 0x17

abbrev pub msg_ack : ℕ
msg_ack = 0x80

abbrev pub msg_nack : ℕ
msg_nack = 0x81

abbrev pub msg_error : ℕ
msg_error = 0x82

abbrev pub msg_telemetry : ℕ
msg_telemetry = 0x83

abbrev pub flag_response : ℕ
flag_response = 1

abbrev pub flag_ack_required : ℕ
flag_ack_required = 2

abbrev pub flag_retry : ℕ
flag_retry = 4
