-- ===== src/Dns/Header.antt =====
-- The sizes of src/dns.h, the fields of `struct dns_header` and `struct dns_question`, and the
-- accessors on them (src/dns.c). Bit-fields are read from and written into their byte; the id is
-- in host order, little-endian here, as the code never swaps it.
use chinadns_ng.Prelude.{ℕ, ◌+◌, ◌-◌, ◌*◌, ◌/◌, ◌%◌, Bool, not, ◌&&◌, ◌||◌, ◌==◌, set}
use chinadns_ng.Prelude.Words.{Bytes, byte, be16}

abbrev pub header_size : ℕ
header_size = 12

abbrev pub question_size : ℕ
question_size = 4

abbrev pub record_size : ℕ
record_size = 10

abbrev pub name_wire_minlen : ℕ
name_wire_minlen = 1

abbrev pub name_wire_maxlen : ℕ
name_wire_maxlen = 255

abbrev pub name_maxlen : ℕ
name_maxlen = 253

abbrev pub label_maxlen : ℕ
label_maxlen = 63

abbrev pub ptr_minval : ℕ
ptr_minval = 192

abbrev pub msg_minsize : ℕ
msg_minsize = header_size + name_wire_minlen + question_size

abbrev pub msg_maxsize : ℕ
msg_maxsize = 65535

abbrev pub edns_minsize : ℕ
edns_minsize = 512

abbrev pub edns_maxsize : ℕ
edns_maxsize = 4096

abbrev pub qr_query : ℕ
qr_query = 0

abbrev pub qr_reply : ℕ
qr_reply = 1

abbrev pub rcode_noerror : ℕ
rcode_noerror = 0

abbrev pub rcode_servfail : ℕ
rcode_servfail = 2

abbrev pub rcode_nxdomain : ℕ
rcode_nxdomain = 3

abbrev pub type_a : ℕ
type_a = 1

abbrev pub type_aaaa : ℕ
type_aaaa = 28

abbrev pub type_opt : ℕ
type_opt = 41

-- Byte 2 is qr:1 opcode:4 aa:1 tc:1 rd:1 and byte 3 is ra:1 z:3 rcode:4, high bit first.
abbrev pub header_qr : Bytes → ℕ
header_qr msg = byte msg 2 / 128

abbrev pub header_aa : Bytes → ℕ
header_aa msg = byte msg 2 / 4 % 2

abbrev pub header_tc : Bytes → ℕ
header_tc msg = byte msg 2 / 2 % 2

abbrev pub header_rd : Bytes → ℕ
header_rd msg = byte msg 2 % 2

abbrev pub header_opcode : Bytes → ℕ
header_opcode msg = byte msg 2 / 8 % 16

abbrev pub header_ra : Bytes → ℕ
header_ra msg = byte msg 3 / 128

abbrev pub header_rcode : Bytes → ℕ
header_rcode msg = byte msg 3 % 16

abbrev pub question_count : Bytes → ℕ
question_count msg = be16 msg 4

abbrev pub set_qr : ℕ → Bytes → Bytes
set_qr v msg = set msg 2 (v * 128 + byte msg 2 % 128)

abbrev pub set_aa : ℕ → Bytes → Bytes
set_aa v msg = set msg 2 (byte msg 2 / 8 * 8 + v * 4 + byte msg 2 % 4)

abbrev pub set_tc : ℕ → Bytes → Bytes
set_tc v msg = set msg 2 (byte msg 2 / 4 * 4 + v * 2 + byte msg 2 % 2)

abbrev pub set_ra : ℕ → Bytes → Bytes
set_ra v msg = set msg 3 (v * 128 + byte msg 3 % 128)

abbrev pub set_rcode : ℕ → Bytes → Bytes
set_rcode v msg = set msg 3 (byte msg 3 / 16 * 16 + v)

-- Store the count `v` at offset `i`, through `htons`.
abbrev pub set_count : ℕ → ℕ → Bytes → Bytes
set_count i v msg = set (set msg i (v / 256 % 256)) (i + 1) (v % 256)

unfoldable pub get_answer_count : Bytes → ℕ
get_answer_count msg = be16 msg 6

unfoldable pub get_authority_count : Bytes → ℕ
get_authority_count msg = be16 msg 8

unfoldable pub get_additional_count : Bytes → ℕ
get_additional_count msg = be16 msg 10

unfoldable pub get_records_count : Bytes → ℕ
unfolding get_answer_count get_authority_count get_additional_count
get_records_count msg = get_answer_count msg + get_authority_count msg + get_additional_count msg

abbrev pub msg_minlen : ℕ → ℕ
msg_minlen qnamelen = header_size + qnamelen + question_size

pub dns_header_len : ℕ
dns_header_len = header_size

-- The result is a u16.
pub dns_question_len : ℕ → ℕ
dns_question_len qnamelen = (qnamelen + question_size) % 65536

-- `n > 0 ? n : 0` of `qnamelen - 2`.
unfoldable pub dns_ascii_namelen : ℕ → ℕ
dns_ascii_namelen qnamelen = qnamelen - 2

unfoldable pub dns_get_id : Bytes → ℕ
dns_get_id msg = byte msg 0 + byte msg 1 * 256

unfoldable pub dns_set_id : Bytes → ℕ → Bytes
dns_set_id msg id = set (set msg 0 (id % 256)) 1 (id / 256 % 256)

unfoldable pub dns_get_qtype : Bytes → ℕ → ℕ
dns_get_qtype msg qnamelen = be16 msg (header_size + qnamelen)

unfoldable pub dns_get_rcode : Bytes → ℕ
dns_get_rcode msg = header_rcode msg

unfoldable pub dns_is_tc : Bytes → Bool
dns_is_tc msg = header_tc msg == 1

unfoldable pub dns_is_good : Bytes → Bool
unfolding dns_get_rcode dns_is_tc
dns_is_good msg =
    let rcode = dns_get_rcode msg in
    not (dns_is_tc msg) && (rcode == rcode_noerror || rcode == rcode_nxdomain)
