-- ===== src/Ipset.antt =====
-- src/ipset.c: the constants of netlink, ipset and nftables, and the names of sets. A name is its
-- bytes without the terminator; `exit` is `none`. AF_INET, AF_INET6, NLM_F_REQUEST, NLM_F_ACK and
-- the flags and alignment of attributes have the values that linux/netlink.h and socket(2) document.
pub mod Errors
pub mod Split
pub mod Parts
pub mod Accepted
pub mod Message
pub mod Context
pub mod Batch
pub mod Add
use Prim.Native.Nat.{bit_or}
use chinadns_ng.Prelude.{
  ℕ, zero, suc, ◌+◌, ◌-◌, ◌*◌, Bool, true, false, ◌||◌, ◌&&◌, Option, none, some, List, [], ◌∷◌,
  ltb, ◌==◌, if◌then◌else◌, length, equal, ◌>>=◌,
}
use chinadns_ng.Prelude.Words.{Bytes}

abbrev pub af_inet : ℕ
af_inet = 2

abbrev pub af_inet6 : ℕ
af_inet6 = 10

abbrev pub nlm_f_request : ℕ
nlm_f_request = 1

abbrev pub nlm_f_ack : ℕ
nlm_f_ack = 4

abbrev pub nfproto_inet : ℕ
nfproto_inet = 1

abbrev pub nfproto_ipv4 : ℕ
nfproto_ipv4 = 2

abbrev pub nfproto_arp : ℕ
nfproto_arp = 3

abbrev pub nfproto_netdev : ℕ
nfproto_netdev = 5

abbrev pub nfproto_bridge : ℕ
nfproto_bridge = 7

abbrev pub nfproto_ipv6 : ℕ
nfproto_ipv6 = 10

abbrev pub ipset_maxnamelen : ℕ
ipset_maxnamelen = 32

abbrev pub nft_name_maxlen : ℕ
nft_name_maxlen = 256

abbrev pub nft_family_maxlen : ℕ
nft_family_maxlen = 7

abbrev pub name_maxlen : ℕ
name_maxlen = nft_family_maxlen + nft_name_maxlen + nft_name_maxlen

-- nlmsg_type: the subsystem and the command.
abbrev pub type_test_ipset : ℕ
type_test_ipset = 6 * 256 + 11

abbrev pub type_add_ipset : ℕ
type_add_ipset = 6 * 256 + 9

abbrev pub subsys_nftables : ℕ
subsys_nftables = 10

abbrev pub type_get_setelem : ℕ
type_get_setelem = subsys_nftables * 256 + 13

abbrev pub type_new_setelem : ℕ
type_new_setelem = subsys_nftables * 256 + 12

abbrev pub batch_begin : ℕ
batch_begin = 16

abbrev pub batch_end : ℕ
batch_end = 17

abbrev pub ipset_err_exist : ℕ
ipset_err_exist = 4103

abbrev pub ip_n : ℕ
ip_n = 10

abbrev pub iplen : Bool → ℕ
iplen v4 = if v4 then 4 else 16

-- The bytes before the first `c`, and those behind it.
unfoldable pub split_at : ℕ → Bytes → Bytes × Option Bytes
split_at c [] = ([], none)
split_at c (x ∷ xs) =
    let (before, behind) = split_at c xs in if x == c then ([], some xs) else (x ∷ before, behind)

abbrev pub text_null : Bytes
text_null = b'n' ∷ b'u' ∷ b'l' ∷ b'l' ∷ []

-- One of the two names; "null" is the empty one.
unfoldable pub parse_name : Bytes → Option Bytes
parse_name name =
    if equal name text_null
    then some []
    else if ltb (length name) 1 || ltb (name_maxlen - 1) (length name)
    then none
    else some name

abbrev name6_of : Option Bytes → Option Bytes
name6_of none = some []
name6_of (some name) = parse_name name

unfoldable pub parse_name46 : Bytes → Option (Bytes × Bytes)
parse_name46 input =
    let (start, behind) = split_at b',' input in
    parse_name start >>= λ name4. name6_of behind >>= λ name6.
    if (length name4 == 0) && (length name6 == 0) then none else some (name4, name6)

-- The comparisons with the names of the families.
unfoldable pub family_of : Bytes → Option ℕ
family_of family =
    if equal family (b'i' ∷ b'p' ∷ [])
    then some nfproto_ipv4
    else if equal family (b'i' ∷ b'p' ∷ b'6' ∷ [])
    then some nfproto_ipv6
    else if equal family (b'i' ∷ b'n' ∷ b'e' ∷ b't' ∷ [])
    then some nfproto_inet
    else if equal family (b'a' ∷ b'r' ∷ b'p' ∷ [])
    then some nfproto_arp
    else if equal family (b'b' ∷ b'r' ∷ b'i' ∷ b'd' ∷ b'g' ∷ b'e' ∷ [])
    then some nfproto_bridge
    else if equal family (b'n' ∷ b'e' ∷ b't' ∷ b'd' ∷ b'e' ∷ b'v' ∷ [])
    then some nfproto_netdev
    else none

-- What `parse_name_nftset` has read, and the count of the parts.
pub record NftName : Type 0 where
  pub n : ℕ
  pub family : ℕ
  pub table_name : Bytes
  pub set_name : Bytes

-- One part of the name, where `acc.n` counts it.
unfoldable pub take_part : Bytes → NftName → Option NftName
take_part part acc =
    if acc.n == 1
    then (if ltb (nft_family_maxlen - 1) (length part)
        then none
        else family_of part >>= λ family. some (record acc { family = family }))
    else if ltb 3 acc.n
    then none
    else if ltb (length part) 1 || ltb (nft_name_maxlen - 1) (length part)
    then none
    else if acc.n == 2
    then some (record acc { table_name = part })
    else some (record acc { set_name = part })

-- The loop over the parts; the fuel is more than the bytes.
unfoldable pub parts_loop : ℕ → Bytes → NftName → Option NftName
parts_loop zero start acc = none
parts_loop (suc fuel) [] acc = some acc
parts_loop (suc fuel) (c ∷ start) acc =
    let (part, behind) = split_at b'@' (c ∷ start) in
    take_part part (record acc { n = acc.n + 1 }) >>= λ acc'. elim behind [
      | none ↦ some acc'
      | some next ↦ parts_loop fuel next acc'
    ]

unfoldable pub parse_name_nftset : Bytes → Option NftName
parse_name_nftset name =
    parts_loop (length name + 1) name (record { n = 0; family = 0; table_name = []; set_name = [] })
    >>= λ acc. if acc.n == 3 then some acc else none
