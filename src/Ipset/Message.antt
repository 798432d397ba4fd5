-- ===== src/Ipset/Message.antt =====
-- src/nl.h: netlink messages, and the elements that src/ipset.c puts into them. A message is the
-- fields of its header, the bytes in use behind it and the spare bytes of its buffer. Its nlmsg_len
-- is the length of the header and the bytes in use; an address is an offset into the message. The
-- numbers of the host are little-endian. A write behind the buffer is `none`.
pub mod Layout
pub mod Element
use Prim.Native.Nat.{bit_or}
use chinadns_ng.Prelude.{
  ℕ, ◌+◌, ◌-◌, ◌*◌, ◌/◌, ◌%◌, Bool, Option, none, some, List, [], ◌∷◌, ◌++◌, leb, ◌==◌,
  if◌then◌else◌, length, take, drop, ◌>>=◌,
}
use chinadns_ng.Prelude.Words.{Bytes, be32_bytes}
use chinadns_ng.Ipset.{iplen}

-- `struct header`, less nlmsg_len.
pub record Header : Type 0 where
  pub nlmsg_type : ℕ
  pub nlmsg_flags : ℕ
  pub nlmsg_seq : ℕ
  pub nlmsg_pid : ℕ
  pub nfgen_family : ℕ
  pub version : ℕ
  pub res_id : ℕ

pub record Nlmsg : Type 0 where
  pub header : Header
  pub used : Bytes
  pub spare : Bytes

abbrev pub header_size : ℕ
header_size = 20

abbrev pub nlmsg_len : Nlmsg → ℕ
nlmsg_len msg = header_size + length msg.used

abbrev pub nla_hdrlen : ℕ
nla_hdrlen = 4

-- `NLA_ALIGN` and `NLMSG_ALIGN`
abbrev pub nla_align : ℕ → ℕ
nla_align len = (len + 3) / 4 * 4

abbrev pub nla_f_nested : ℕ
nla_f_nested = 32768

abbrev pub nla_f_net_byteorder : ℕ
nla_f_net_byteorder = 16384

abbrev pub u16_bytes : ℕ → Bytes
u16_bytes v = v % 256 ∷ v / 256 % 256 ∷ []

abbrev pub u32_bytes : ℕ → Bytes
u32_bytes v = v % 256 ∷ v / 256 % 256 ∷ v / 65536 % 256 ∷ v / 16777216 % 256 ∷ []

-- The header as memory has it; `res_id` is big-endian.
abbrev pub header_bytes : ℕ → Header → Bytes
header_bytes len h =
    u32_bytes len
    ++ u16_bytes h.nlmsg_type
    ++ u16_bytes h.nlmsg_flags
    ++ u32_bytes h.nlmsg_seq
    ++ u32_bytes h.nlmsg_pid
    ++ h.nfgen_family % 256 ∷ h.version % 256 ∷ h.res_id / 256 % 256 ∷ h.res_id % 256 ∷ []

-- `memcpy` to the bytes from `offset` on.
unfoldable pub memcpy : ℕ → Bytes → Bytes → Bytes
memcpy offset bytes memory = take offset memory ++ bytes ++ drop (offset + length bytes) memory

-- A write at an address behind the header.
abbrev pub write_at : ℕ → Bytes → Nlmsg → Nlmsg
write_at address bytes msg = record msg { used = memcpy (address - header_size) bytes msg.used }

abbrev pub write_data : ℕ → Option Bytes → Nlmsg → Nlmsg
write_data address none msg = msg
write_data address (some bytes) msg = write_at address bytes msg

-- With the address of the data.
unfoldable pub nlmsg_add_data : Nlmsg → Option Bytes → ℕ → Option (ℕ × Nlmsg)
nlmsg_add_data msg bytes datalen =
    let n = nla_align datalen in
    let longer = record msg { used = msg.used ++ take n msg.spare; spare = drop n msg.spare } in
    if leb n (length msg.spare)
    then some (nlmsg_len msg, write_data (nlmsg_len msg) bytes longer)
    else none

abbrev pub nla_len_calc : ℕ → ℕ
nla_len_calc datalen = nla_hdrlen + datalen

abbrev pub nla_size_calc : ℕ → ℕ
nla_size_calc datalen = nla_hdrlen + nla_align datalen

-- With the address of the attribute.
unfoldable pub nlmsg_add_nla : Nlmsg → ℕ → Option Bytes → ℕ → Option (ℕ × Nlmsg)
nlmsg_add_nla msg attrtype bytes datalen =
    nlmsg_add_data msg none (nla_size_calc datalen) >>= λ (nla, longer). some (
      nla,
      write_data (nla + nla_hdrlen) bytes
          (write_at nla (u16_bytes (nla_len_calc datalen) ++ u16_bytes attrtype) longer),
    )

abbrev pub nlmsg_add_nest_nla : Nlmsg → ℕ → Option (ℕ × Nlmsg)
nlmsg_add_nest_nla msg attrtype = nlmsg_add_nla msg (bit_or attrtype nla_f_nested) none 0

abbrev pub nlmsg_end_nest_nla : Nlmsg → ℕ → Nlmsg
nlmsg_end_nest_nla msg nest_nla = write_at nest_nla (u16_bytes (nlmsg_len msg - nest_nla)) msg

-- With the address of the address' attribute.
unfoldable pub add_elem_ipset : Nlmsg → Option Bytes → Bool → Option (ℕ × Nlmsg)
add_elem_ipset msg ip v4 =
    let attrtype = bit_or (if v4 then 1 else 2) nla_f_net_byteorder in
    nlmsg_add_nest_nla msg 7 >>= λ (data_nla, msg1). nlmsg_add_nest_nla msg1 1 >>= λ (ip_nla, msg2).
    nlmsg_add_nla msg2 attrtype ip (iplen v4) >>= λ (addr_nla, msg3).
    some (addr_nla, nlmsg_end_nest_nla (nlmsg_end_nest_nla msg3 ip_nla) data_nla)

abbrev pub add_flags : Nlmsg → ℕ → Option Nlmsg
add_flags msg flags =
    if flags == 0
    then some msg
    else (nlmsg_add_nla msg 3 (some (be32_bytes flags)) 4 >>= λ (nla, msg'). some msg')

unfoldable pub add_elem_nftset : Nlmsg → Option Bytes → Bool → ℕ → Option (ℕ × Nlmsg)
add_elem_nftset msg ip v4 flags = nlmsg_add_nest_nla msg 1 >>= λ (elem_nla, msg1).
    add_flags msg1 flags >>= λ msg2. nlmsg_add_nest_nla msg2 1 >>= λ (key_nla, msg3).
    nlmsg_add_nla msg3 (bit_or 1 nla_f_net_byteorder) ip (iplen v4) >>= λ (data_nla, msg4).
    some (data_nla, nlmsg_end_nest_nla (nlmsg_end_nest_nla msg4 key_nla) elem_nla)
