-- ===== src/Ipset/Batch.antt =====
-- src/ipset.c: what a batch of addresses is in the messages: addresses appended, the requests that test
-- them, the results, and what is kept of them and sent at the end. A datagram is the bytes of its
-- parts, and `bitvec_t` the list of its bits.
use chinadns_ng.Prelude.{
  ℕ, zero, suc, ◌+◌, ◌-◌, ◌*◌, ◌%◌, Bool, true, false, ◌&&◌, ◌||◌, Option, none, some, List, [],
  ◌∷◌, ◌++◌, ltb, ◌==◌, if◌then◌else◌, length, take, drop, set, get_or, replicate, equal, map,
  ◌>>=◌,
}
use chinadns_ng.Prelude.Words.{Bytes, byte}
use chinadns_ng.Ipset.{
  iplen, type_new_setelem, subsys_nftables, batch_begin, batch_end, nlm_f_request,
}
use chinadns_ng.Ipset.Message.{
  Nlmsg, header_size, header_bytes, nlmsg_len, nla_hdrlen, nla_len_calc, u16_bytes, write_at,
  add_elem_ipset, add_elem_nftset,
}
use chinadns_ng.Ipset.Context.{Side, Addctx, new_header}

abbrev pub Datagram : Type 0
Datagram = List Bytes

-- A message received: an NLMSG_ERROR with the negation of its error, or its nlmsg_type.
pub data Response : Type 0 where
  errcode : ℕ → Response
  answer : ℕ → Response

pub data Received : Type 0 where
  failed : Received
  no_msg : Received
  received : List Response → Received

-- The whole message as memory has it.
abbrev pub memory_of : Nlmsg → Bytes
memory_of msg = header_bytes (nlmsg_len msg) msg.header ++ msg.used ++ msg.spare

-- `nlmsg->nlmsg_len = len`
abbrev pub set_len : ℕ → Nlmsg → Nlmsg
set_len len msg = record msg {
  used = take (len - header_size) (msg.used ++ msg.spare);
  spare = drop (len - header_size) (msg.used ++ msg.spare);
}

-- `n` bytes from the address on.
abbrev pub slice : ℕ → ℕ → Bytes → Bytes
slice address n memory = take n (drop address memory)

abbrev pub in_blacklist : Bytes → Bool → Bool
in_blacklist ip v4 =
    if v4
    then (byte ip 0 == 127) || (byte ip 0 == 0)
    else equal (take 15 ip) (replicate 15 0) && ((byte ip 15 == 0) || (byte ip 15 == 1))

-- The loop of `add_ip_nftset`, from the last byte up; the argument is `i + 1`.
unfoldable pub increment : ℕ → Bytes → Bytes
increment zero p = p
increment (suc i) p =
    let old = byte p i in
    let p' = set p i ((old + 1) % 256) in
    let carry = increment i p' in if ltb old ((old + 1) % 256) then p' else carry

unfoldable pub add_ip_ipset : Nlmsg → Bool → Bytes → Option Nlmsg
add_ip_ipset msg v4 ip = add_elem_ipset msg (some ip) v4 >>= λ (addr_nla, msg'). some msg'

unfoldable pub add_ip_nftset : Nlmsg → Bool → Bytes → Option Nlmsg
add_ip_nftset msg v4 ip = add_elem_nftset msg (some ip) v4 0 >>= λ (start_nla, msg1).
    add_elem_nftset msg1 (some ip) v4 1 >>= λ (end_nla, msg2).
    let p = end_nla + nla_hdrlen in
    some (write_at p (increment (iplen v4) (slice (p - header_size) (iplen v4) msg2.used)) msg2)

abbrev pub add_ip : Bool → Nlmsg → Bool → Bytes → Option Nlmsg
add_ip is_ipset msg v4 ip = if is_ipset then add_ip_ipset msg v4 ip else add_ip_nftset msg v4 ip

-- The bytes of an address' element in the message.
abbrev pub elem_size : Bool → Bool → ℕ
elem_size is_ipset v4 =
    if is_ipset then nla_hdrlen * 3 + iplen v4 else nla_hdrlen * 7 + 4 + iplen v4 * 2

-- `none` is a failed assertion: the message is no error.
abbrev pub nlmsg_errcode : Response → Option ℕ
nlmsg_errcode (errcode n) = some n
nlmsg_errcode (answer type') = none

unfoldable pub test_res_ipset : Response → Option Bool
test_res_ipset res = nlmsg_errcode res >>= λ n. some (n == 0)

unfoldable pub test_res_nftset : Response → Option Bool
test_res_nftset (errcode n) = some false
test_res_nftset (answer type') = if type' == type_new_setelem then some true else none

abbrev pub test_res : Bool → Response → Option Bool
test_res is_ipset res = if is_ipset then test_res_ipset res else test_res_nftset res

-- The addresses in a message, `ipn` from the `i`-th on: `next_ip_ipset` and `next_ip_nftset`.
unfoldable pub next_ips : Bool → Bool → Nlmsg → ℕ → ℕ → ℕ → List Bytes
next_ips is_ipset v4 msg baselen i zero = []
next_ips is_ipset v4 msg baselen i (suc ipn) =
    slice (baselen - header_size + nla_hdrlen * 3 + elem_size is_ipset v4 * i) (iplen v4)
      (msg.used ++ msg.spare)
    ∷ next_ips is_ipset v4 msg baselen (i + 1) ipn

-- The requests of one family in `test_ips`: the test message up to the address, and the address.
abbrev pub test_requests : Bool → Bool → Side → List Datagram
test_requests is_ipset v4 side = elim side.msg [
  | none ↦ []
  | some msg ↦ elim side.testmsg [
    | none ↦ []
    | some testmsg ↦
        map (λ ip. take (nlmsg_len testmsg - iplen v4) (memory_of testmsg) ∷ ip ∷ [])
          (next_ips is_ipset v4 msg side.baselen 0 side.ipcnt)
  ]
]

-- The loop over the responses.
unfoldable pub save_results : Bool → List Response → ℕ → List Bool → Option (List Bool)
save_results is_ipset [] i exists = some exists
save_results is_ipset (res ∷ rest) i exists = test_res is_ipset res >>= λ found.
    save_results is_ipset rest (i + 1) (if found then set exists i true else exists)

-- The elements kept, of `ipn` from the `i`-th on; `bit_i` is the bit of the first.
unfoldable pub kept_elems : ℕ → Bytes → List Bool → ℕ → ℕ → ℕ → List Bytes
kept_elems elemsz elems exists bit_i i zero = []
kept_elems elemsz elems exists bit_i i (suc ipn) =
    let rest = kept_elems elemsz elems exists (bit_i + 1) (i + 1) ipn in
    if get_or exists bit_i false then rest else (slice (elemsz * i) elemsz elems ∷ rest)

-- One family of `end_add_ip`: the parts of its message, none if no address is to be added, and the
-- message behind it.
unfoldable pub end_msg : Bool → Bool → List Bool → ℕ → ℕ → ℕ → Nlmsg → List Bytes × Nlmsg
end_msg is_ipset v4 exists bit_i baselen ipn msg =
    let base = set_len baselen msg in
    let elemsz = elem_size is_ipset v4 in
    let elems = kept_elems elemsz base.spare exists bit_i 0 ipn in
    let added = length elems * elemsz in
    let patched = write_at (baselen - nla_hdrlen) (u16_bytes (nla_len_calc added)) base in
    let sent = set_len (baselen + added) patched in
    if length elems == 0 then ([], base) else (take baselen (memory_of sent) ∷ elems, sent)

abbrev pub end_side_on : Bool → Bool → List Bool → ℕ → Side → Option Nlmsg → List Bytes × Side
end_side_on is_ipset v4 exists bit_i side none = ([], side)
end_side_on is_ipset v4 exists bit_i side (some msg) =
    let (parts, msg') = end_msg is_ipset v4 exists bit_i side.baselen side.ipcnt msg in
    if side.ipcnt == 0 then ([], side) else (parts, record side { msg = some msg' })

abbrev pub end_side : Bool → Bool → List Bool → ℕ → Side → List Bytes × Side
end_side is_ipset v4 exists bit_i side = end_side_on is_ipset v4 exists bit_i side side.msg

abbrev pub datagram_of : List Bytes → List Datagram
datagram_of [] = []
datagram_of (part ∷ parts) = (part ∷ parts) ∷ []

-- `s_batch_begin` and `s_batch_end`
abbrev pub batch_bytes : ℕ → ℕ → Bytes
batch_bytes portid type' =
    header_bytes header_size (new_header portid type' nlm_f_request 0 subsys_nftables)

-- One datagram for both families, within a transaction.
abbrev pub transaction : ℕ → List Bytes → List Datagram
transaction portid [] = []
transaction portid (part ∷ parts) =
    ((batch_bytes portid batch_begin ∷ part ∷ parts) ++ batch_bytes portid batch_end ∷ []) ∷ []

-- `end_add_ip_ipset` and `end_add_ip_nftset` behind `test_ips`: the datagrams, and the context.
unfoldable pub end_add_ip : Bool → ℕ → List Bool → Addctx → List Datagram × Addctx
end_add_ip is_ipset portid exists ctx =
    let (parts4, four) = end_side is_ipset true exists 0 ctx.four in
    let (parts6, six) = end_side is_ipset false exists ctx.four.ipcnt ctx.six in
    (
      (if is_ipset
          then datagram_of parts4 ++ datagram_of parts6
          else transaction portid (parts4 ++ parts6)),
      record { four = four; six = six },
    )

-- From the message's length on: the address is added.
abbrev pub add_to_side : Bool → Side → Bool → Bytes → Option Side
add_to_side is_ipset side v4 ip = elim side.msg [
  | none ↦ none
  | some msg ↦
      let start = if side.ipcnt == 0 then set_len side.baselen msg else msg in
      add_ip is_ipset start v4 ip >>= λ msg'.
      some (record side { msg = some msg'; ipcnt = side.ipcnt + 1 })
]

abbrev pub reset : Addctx → Addctx
reset ctx = record { four = record (ctx.four) { ipcnt = 0 }; six = record (ctx.six) { ipcnt = 0 } }

-- The errors received are logged only, but they must be errors.
abbrev pub all_errors : List Response → Bool
all_errors [] = true
all_errors (errcode n ∷ rest) = all_errors rest
all_errors (answer type' ∷ rest) = false

abbrev pub side_of : Addctx → Bool → Side
side_of ctx v4 = if v4 then ctx.four else ctx.six

abbrev pub with_side : Addctx → Bool → Side → Addctx
with_side ctx v4 side = if v4 then record ctx { four = side } else record ctx { six = side }
