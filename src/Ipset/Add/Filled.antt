-- ===== src/Ipset/Add/Filled.antt =====
-- What a context of src/ipset.c holds between two calls: the addresses that are not sent yet.
use mathlib.Core.Path.{ap₂}
use chinadns_ng.Prelude.{
  ℕ, zero, suc, ◌+◌, ◌-◌, ◌%◌, take_all, ◌≤◌, ◌≡◌, inl, inr, refl, sym, ap, ◌∙◌, Bool, true, false,
  some, List, [], ◌∷◌, ◌++◌, append-nil, append_assoc, arith, if◌then◌else◌, length, take, drop,
  length-append, drop-append, length-drop, Bool-cases, set, length-set, ltb,
}
use chinadns_ng.Prelude.Words.{Bytes, byte}
use chinadns_ng.Ipset.{iplen}
use chinadns_ng.Ipset.Message.{Nlmsg, header_size, nlmsg_len, nla_hdrlen, write_at, memcpy}
use chinadns_ng.Ipset.Message.Layout.{grown, grown-grown, memcpy-append}
use chinadns_ng.Ipset.Message.Element.{
  ipset_elem, nftset_elem, flags_bytes, add_elem_ipset-elem, add_elem_nftset-elem,
}
use chinadns_ng.Ipset.Batch.{slice, increment, add_ip_ipset, add_ip_nftset, add_ip, elem_size}

-- The element of an address; nftables has the interval from the address to the next one.
abbrev pub elem_of : Bool → Bool → Bytes → Bytes
elem_of is_ipset v4 ip =
    if is_ipset
    then ipset_elem v4 ip
    else nftset_elem [] ip ++ nftset_elem (flags_bytes 1) (increment (iplen v4) ip)

abbrev pub elems_of : Bool → Bool → List Bytes → Bytes
elems_of is_ipset v4 [] = []
elems_of is_ipset v4 (ip ∷ ips) = elem_of is_ipset v4 ip ++ elems_of is_ipset v4 ips

pub length-increment : (n : ℕ) (p : Bytes) → length (increment n p) ≡ length p
unfolding increment
length-increment zero p = refl
length-increment (suc i) p = elim (Bool-cases (ltb (byte p i) ((byte p i + 1) % 256))) [
  | inl stop ↦ rw stop (length-set p i ((byte p i + 1) % 256))
  | inr carry ↦
      rw carry (
        length-increment i (set p i ((byte p i + 1) % 256)) ∙ length-set p i ((byte p i + 1) % 256))
]

pub length-elem_of :
    (is_ipset v4 : Bool) (ip : Bytes)
    → length ip ≡ iplen v4
    → length (elem_of is_ipset v4 ip) ≡ elem_size is_ipset v4
length-elem_of true v4 ip e = omega (arith, e)
length-elem_of false v4 ip e = omega (
  arith,
  e,
  length-append (nftset_elem [] ip) (nftset_elem (flags_bytes 1) (increment (iplen v4) ip)),
  length-increment (iplen v4) ip,
)

-- The end of an interval, up to the address.
abbrev lead : Bytes → Bytes
lead ip = take 20 (nftset_elem (flags_bytes 1) ip)

lead_same : (ip other : Bytes) → length other ≡ length ip → lead other ≡ lead ip
lead_same ip other e = rw e refl

-- The address behind the interval's end is counted up in the message.
write_end :
    (msg : Nlmsg) (ip : Bytes) (n address : ℕ)
    → length ip ≡ n
    → address + n ≡ nlmsg_len (grown msg (nftset_elem (flags_bytes 1) ip))
    → let m : Nlmsg = grown msg (nftset_elem (flags_bytes 1) ip) in
      write_at address (increment n (slice (address - header_size) n m.used)) m
      ≡ grown msg (nftset_elem (flags_bytes 1) (increment n ip))
write_end msg ip n address e at =
    let m : Nlmsg = grown msg (nftset_elem (flags_bytes 1) ip) in
    let offset : ℕ = address - header_size in
    let up : Bytes = increment n ip in
    let parts : m.used ≡ msg.used ++ lead ip ++ ip = sym (append_assoc msg.used (lead ip) ip) in
    let before : length (msg.used ++ lead ip) ≡ offset = omega (
      arith,
      at,
      e,
      length-append msg.used (nftset_elem (flags_bytes 1) ip),
      length-append msg.used (lead ip),
    ) in
    let there : slice offset n m.used ≡ ip =
      ap (λ u. take n (drop offset u)) parts
      ∙ ap (take n) (drop-append (msg.used ++ lead ip) ip offset before)
      ∙ ap (λ k. take k ip) (sym e)
      ∙ take_all ip in
    let len : length up ≡ length ip = length-increment n ip in
    let len2 : length (nftset_elem (flags_bytes 1) ip) ≡ length (nftset_elem (flags_bytes 1) up) =
      omega (arith, len) in
    let wrote : memcpy offset up m.used ≡ msg.used ++ nftset_elem (flags_bytes 1) up =
      ap (memcpy offset up) (parts ∙ sym (append-nil (msg.used ++ lead ip ++ ip)))
      ∙ memcpy-append (msg.used ++ lead ip) ip up [] offset before (sym len)
      ∙ append-nil (msg.used ++ lead ip ++ up)
      ∙ ap (λ l. msg.used ++ l ++ up) (sym (lead_same ip up len))
      ∙ append_assoc msg.used (lead up) up in
    ap (λ x. write_at address (increment n x) m) there
    ∙ ap₂ (λ u k. record msg { used = u; spare = drop k msg.spare }) wrote len2

-- With room for it the address is added whole, and nothing else changes.
pub add_ip-elem_of :
    (is_ipset : Bool) (msg : Nlmsg) (v4 : Bool) (ip : Bytes)
    → length ip ≡ iplen v4
    → elem_size is_ipset v4 ≤ length msg.spare
    → add_ip is_ipset msg v4 ip ≡ some (grown msg (elem_of is_ipset v4 ip))
unfolding add_ip_ipset add_ip_nftset
add_ip-elem_of true msg v4 ip e le =
    let (addr, added) = add_elem_ipset-elem msg v4 ip e (omega (arith, le)) in rw added refl
add_ip-elem_of false msg v4 ip e le =
    let (addr1, added1, at1) = add_elem_nftset-elem msg v4 ip 0 e (omega (arith, le)) in
    let m1 : Nlmsg = grown msg (nftset_elem [] ip) in
    let (addr2, added2, at2) =
      add_elem_nftset-elem m1 v4 ip 1 e
        (omega (arith, e, le, length-drop (length (nftset_elem [] ip)) msg.spare)) in
    rw (added1, added2)
      (ap some (
        write_end m1 ip (iplen v4) (addr2 + nla_hdrlen) e at2
        ∙ grown-grown msg (nftset_elem [] ip)
            (nftset_elem (flags_bytes 1) (increment (iplen v4) ip))))
