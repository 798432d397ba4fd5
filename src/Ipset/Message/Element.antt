-- ===== src/Ipset/Message/Element.antt =====
-- The elements of src/ipset.c as attributes.
use Prim.Native.Nat.{bit_or}
use chinadns_ng.Prelude.{
  ◌==◌, ◌-◌, Bool-cases, inl, inr, append-nil, ℕ, ◌+◌, ◌≤◌, ◌≡◌, refl, sym, ap, ◌∙◌, Bool, true,
  false, some, [], ◌∷◌, ◌++◌, arith, length, length-append, length-drop, if◌then◌else◌,
}
use chinadns_ng.Prelude.Words.{Bytes, be32_bytes}
use chinadns_ng.Ipset.{iplen}
use chinadns_ng.Ipset.Message.{
  Nlmsg, nlmsg_len, nla_align, nla_f_nested, nla_f_net_byteorder, nlmsg_end_nest_nla, add_flags,
  add_elem_ipset, add_elem_nftset,
}
use chinadns_ng.Ipset.Message.Layout.{
  nla, grown, grown-grown, nlmsg_add_nla-none, nlmsg_add_nla-aligned, nest_lem,
}

-- DATA { IP { IPADDR_IPV4 or IPADDR_IPV6 } }
abbrev pub ipset_elem : Bool → Bytes → Bytes
ipset_elem v4 ip =
    nla (bit_or 7 nla_f_nested)
      (nla (bit_or 1 nla_f_nested) (nla (bit_or (if v4 then 1 else 2) nla_f_net_byteorder) ip))

-- ELEM { FLAGS?, KEY { VALUE } }
abbrev pub nftset_elem : Bytes → Bytes → Bytes
nftset_elem flags ip =
    nla (bit_or 1 nla_f_nested)
      (flags ++ nla (bit_or 1 nla_f_nested) (nla (bit_or 1 nla_f_net_byteorder) ip))

pub iplen-align : (v4 : Bool) → nla_align (iplen v4) ≡ iplen v4
iplen-align true = refl
iplen-align false = refl

-- The attribute of the flags; there is none where they are 0.
abbrev pub flags_bytes : ℕ → Bytes
flags_bytes flags = if flags == 0 then [] else nla 3 (be32_bytes flags)

flags_bytes-short : (flags : ℕ) → length (flags_bytes flags) ≤ 8
flags_bytes-short flags = elim (Bool-cases (flags == 0)) [
  | inl e ↦ rw e (omega arith)
  | inr ne ↦ rw ne (omega arith)
]

-- With room for it, the whole element is added and nothing else changes.
pub add_elem_ipset-elem :
    (msg : Nlmsg) (v4 : Bool) (ip : Bytes)
    → length ip ≡ iplen v4
    → 12 + iplen v4 ≤ length msg.spare
    → (addr : ℕ) × (add_elem_ipset msg (some ip) v4 ≡ some (addr, grown msg (ipset_elem v4 ip)))
unfolding add_elem_ipset
add_elem_ipset-elem msg v4 ip e le =
    let m1 : Nlmsg = grown msg (4 ∷ 0 ∷ 7 ∷ 128 ∷ []) in
    let m2 : Nlmsg = grown m1 (4 ∷ 0 ∷ 1 ∷ 128 ∷ []) in
    let t : ℕ = bit_or (if v4 then 1 else 2) nla_f_net_byteorder in
    (
      nlmsg_len m2,
      rw
          (
            nlmsg_add_nla-none msg (bit_or 7 nla_f_nested) (omega (arith, le)),
            nlmsg_add_nla-none m1 (bit_or 1 nla_f_nested)
                (omega (arith, le, length-drop 4 msg.spare)),
            nlmsg_add_nla-aligned m2 t ip e (iplen-align v4)
                (omega (arith, le, length-drop 4 msg.spare, length-drop 4 m1.spare)),
          )
          (ap (λ m. some (nlmsg_len m2, m))
            (ap (λ m. nlmsg_end_nest_nla m (nlmsg_len msg))
                (nest_lem m1 (bit_or 1 nla_f_nested) (nla t ip))
              ∙ nest_lem msg (bit_or 7 nla_f_nested) (nla (bit_or 1 nla_f_nested) (nla t ip)))),
    )

add_flags-bytes :
    (msg : Nlmsg) (flags : ℕ)
    → 8 ≤ length msg.spare
    → add_flags msg flags ≡ some (grown msg (flags_bytes flags))
add_flags-bytes msg flags le = elim (Bool-cases (flags == 0)) [
  | inl e ↦ rw e (ap (λ u. some (record msg { used = u })) (sym (append-nil msg.used)))
  | inr ne ↦ rw (ne, nlmsg_add_nla-aligned msg 3 (be32_bytes flags) {n = 4} refl refl le) refl
]

pub add_elem_nftset-elem :
    (msg : Nlmsg) (v4 : Bool) (ip : Bytes) (flags : ℕ)
    → length ip ≡ iplen v4
    → 20 + iplen v4 ≤ length msg.spare
    → (addr : ℕ) × (add_elem_nftset msg (some ip) v4 flags
        ≡ some (addr, grown msg (nftset_elem (flags_bytes flags) ip)))
      × (addr + 4 + iplen v4 ≡ nlmsg_len (grown msg (nftset_elem (flags_bytes flags) ip)))
unfolding add_elem_nftset
add_elem_nftset-elem msg v4 ip flags e le =
    let fb : Bytes = flags_bytes flags in
    let t1 : ℕ = bit_or 1 nla_f_nested in
    let m1 : Nlmsg = grown msg (4 ∷ 0 ∷ 1 ∷ 128 ∷ []) in
    let m2 : Nlmsg = grown m1 fb in
    let m3 : Nlmsg = grown m2 (4 ∷ 0 ∷ 1 ∷ 128 ∷ []) in
    let t : ℕ = bit_or 1 nla_f_net_byteorder in
    let l1 : length m1.spare ≡ length msg.spare - 4 = length-drop 4 msg.spare in
    let lf : length fb ≤ 8 = flags_bytes-short flags in
    let l2 : length m2.spare ≡ length m1.spare - length fb = length-drop (length fb) m1.spare in
    let l3 : length m3.spare ≡ length m2.spare - 4 = length-drop 4 m2.spare in
    (
      nlmsg_len m3,
      rw
          (
            nlmsg_add_nla-none msg t1 (omega (arith, le)),
            add_flags-bytes m1 flags (omega (arith, le, l1)),
            nlmsg_add_nla-none m2 t1 (omega (arith, le, l1, l2, lf)),
            nlmsg_add_nla-aligned m3 t ip e (iplen-align v4) (omega (arith, le, l1, l2, l3, lf)),
          )
          (ap (λ m. some (nlmsg_len m3, m))
            (ap (λ m. nlmsg_end_nest_nla m (nlmsg_len msg))
                (nest_lem m2 t1 (nla t ip) ∙ grown-grown m1 fb (nla t1 (nla t ip)))
              ∙ nest_lem msg t1 (fb ++ nla t1 (nla t ip)))),
      omega (
        arith,
        e,
        length-append msg.used (nftset_elem fb ip),
        length-append fb (nla t1 (nla t ip)),
        length-append (m1.used ++ fb) (4 ∷ 0 ∷ 1 ∷ 128 ∷ []),
        length-append m1.used fb,
        length-append msg.used (4 ∷ 0 ∷ 1 ∷ 128 ∷ []),
      ),
    )
