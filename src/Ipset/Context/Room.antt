-- ===== src/Ipset/Context/Room.antt =====
-- The first messages of a context of src/ipset.c fit into their buffers.
use Prim.Native.Nat.{bit_or}
use chinadns_ng.Prelude.{
  ℕ, ◌+◌, ◌-◌, ◌*◌, ◌≤◌, ◌≡◌, refl, ap, ◌∙◌, Bool, true, false, Option, none, some, [], ◌∷◌, ◌++◌,
  arith, le→ltb, if◌then◌else◌, length, take, drop, length-drop,
}
use chinadns_ng.Prelude.Words.{Bytes}
use chinadns_ng.Ipset.{
  af_inet, af_inet6, nlm_f_request, nlm_f_ack, type_test_ipset, type_add_ipset, type_get_setelem,
  type_new_setelem, ip_n, iplen, NftName, parse_name_nftset,
}
use chinadns_ng.Ipset.Message.{
  Nlmsg, nlmsg_len, nla_align, nla_size_calc, nla_f_nested, nla_f_net_byteorder, nlmsg_end_nest_nla,
  write_data, write_at, u32_bytes, nlmsg_add_data, nlmsg_add_nla, add_elem_ipset, add_elem_nftset,
}
use chinadns_ng.Ipset.Message.Layout.{grown, nla_header, nlmsg_add_nla-none, nlmsg_add_data-none}
use chinadns_ng.Ipset.Message.Element.{iplen-align}
use chinadns_ng.Ipset.Batch.{elem_size}
use chinadns_ng.Ipset.Context.{
  new_header, init_header, add_setname_ipset, add_names_nftset, init_testmsg_ipset,
  init_addmsg_ipset, init_testmsg_nftset, init_addmsg_nftset, bufsz_test_ipset, bufsz_add_ipset,
  bufsz_test_nftset, bufsz_add_nftset,
}

-- An attribute fits: what is spare behind it.
abbrev Fits : Nlmsg → ℕ → Option (ℕ × Nlmsg) → Type 0
Fits msg size o =
    (address : ℕ) × (msg' : Nlmsg) × (o ≡ some (address, msg'))
    × (length msg'.spare ≡ length msg.spare - size)

write_data-spare :
    (address : ℕ) (bytes : Option Bytes) (msg : Nlmsg)
    → length (write_data address bytes msg).spare ≡ length msg.spare
write_data-spare address none msg = refl
write_data-spare address (some b) msg = refl

nlmsg_add_nla-Fits :
    (msg : Nlmsg) (attrtype : ℕ) (bytes : Option Bytes) (n : ℕ)
    → nla_size_calc n ≤ length msg.spare
    → Fits msg (nla_size_calc n) (nlmsg_add_nla msg attrtype bytes n)
unfolding nlmsg_add_nla
nlmsg_add_nla-Fits msg attrtype bytes n le =
    let size : ℕ = nla_size_calc n in
    let aligned : nla_align size ≡ size = omega arith in
    let longer : Nlmsg = record msg {
      used = msg.used ++ take size msg.spare;
      spare = drop size msg.spare;
    } in
    let wrote : Nlmsg = write_at (nlmsg_len msg) (nla_header (4 + n) attrtype) longer in
    let added : nlmsg_add_data msg none size ≡ some (nlmsg_len msg, longer) =
      nlmsg_add_data-none msg size (omega (arith, aligned, le))
      ∙ ap
          (λ k. some (
            nlmsg_len msg,
            record msg { used = msg.used ++ take k msg.spare; spare = drop k msg.spare },
          ))
          aligned in
    (
      nlmsg_len msg,
      write_data (nlmsg_len msg + 4) bytes wrote,
      rw added refl,
      write_data-spare (nlmsg_len msg + 4) bytes wrote ∙ length-drop size msg.spare,
    )

-- The same for a message without the address.
abbrev FitsIn : Nlmsg → ℕ → Option Nlmsg → Type 0
FitsIn msg size o = (msg' : Nlmsg) × (o ≡ some msg') × (length msg.spare ≤ length msg'.spare + size)

add_setname_ipset-FitsIn :
    (msg : Nlmsg) (name : Bytes)
    → 1 ≤ length name
    → length name ≤ 31
    → 44 ≤ length msg.spare
    → FitsIn msg 44 (add_setname_ipset msg name)
unfolding add_setname_ipset
add_setname_ipset-FitsIn msg name some_bytes short le =
    let (_, m1, e1, l1) = nlmsg_add_nla-Fits msg 1 (some (6 ∷ [])) 1 (omega (arith, le)) in
    let (_, m2, e2, l2) =
      nlmsg_add_nla-Fits m1 2 (some (name ++ 0 ∷ [])) (length name + 1)
        (omega (arith, le, l1, short)) in
    (
      m2,
      rw (e1, le→ltb (length name) 1 some_bytes, le→ltb 31 (length name) short, e2) refl,
      omega (arith, l1, l2, short),
    )

nest_size : nla_size_calc 0 ≡ 4
nest_size = refl

-- An element without an address fits.
add_elem_ipset-none :
    (msg : Nlmsg) (v4 : Bool)
    → 12 + iplen v4 ≤ length msg.spare
    → (address : ℕ) × (msg' : Nlmsg) × (add_elem_ipset msg none v4 ≡ some (address, msg'))
unfolding add_elem_ipset
add_elem_ipset-none msg v4 le =
    let (a1, m1, e1, l1) =
      nlmsg_add_nla-Fits msg (bit_or 7 nla_f_nested) none 0 (omega (arith, le)) in
    let (a2, m2, e2, l2) =
      nlmsg_add_nla-Fits m1 (bit_or 1 nla_f_nested) none 0 (omega (arith, le, l1)) in
    let (a3, m3, e3, l3) =
      nlmsg_add_nla-Fits m2 (bit_or (if v4 then 1 else 2) nla_f_net_byteorder) none (iplen v4)
        (omega (arith, le, l1, l2, iplen-align v4)) in
    (a3, nlmsg_end_nest_nla (nlmsg_end_nest_nla m3 a2) a1, rw (e1, e2, e3) refl)

add_elem_nftset-none :
    (msg : Nlmsg) (v4 : Bool)
    → 12 + iplen v4 ≤ length msg.spare
    → (address : ℕ) × (msg' : Nlmsg) × (add_elem_nftset msg none v4 0 ≡ some (address, msg'))
unfolding add_elem_nftset
add_elem_nftset-none msg v4 le =
    let (a1, m1, e1, l1) =
      nlmsg_add_nla-Fits msg (bit_or 1 nla_f_nested) none 0 (omega (arith, le)) in
    let (a2, m2, e2, l2) =
      nlmsg_add_nla-Fits m1 (bit_or 1 nla_f_nested) none 0 (omega (arith, le, l1)) in
    let (a3, m3, e3, l3) =
      nlmsg_add_nla-Fits m2 (bit_or 1 nla_f_net_byteorder) none (iplen v4)
        (omega (arith, le, l1, l2, iplen-align v4)) in
    (a3, nlmsg_end_nest_nla (nlmsg_end_nest_nla m3 a2) a1, rw (e1, e2, e3) refl)

add_names_nftset-FitsIn :
    (msg : Nlmsg) (name : NftName)
    → length name.table_name ≤ 255
    → length name.set_name ≤ 255
    → 520 ≤ length msg.spare
    → FitsIn msg 520 (add_names_nftset msg name)
unfolding add_names_nftset
add_names_nftset-FitsIn msg name table set le =
    let (_, m1, e1, l1) =
      nlmsg_add_nla-Fits msg 1 (some (name.table_name ++ 0 ∷ [])) (length name.table_name + 1)
        (omega (arith, le, table)) in
    let (_, m2, e2, l2) =
      nlmsg_add_nla-Fits m1 2 (some (name.set_name ++ 0 ∷ [])) (length name.set_name + 1)
        (omega (arith, le, l1, table, set)) in
    (m2, rw (e1, e2) refl, omega (arith, l1, l2, table, set))

module _ (memory : ℕ → Bytes) (portid : ℕ) (sized : (n : ℕ) → length (memory n) ≡ n) where
  -- A test message fits.
  pub init_testmsg_ipset-some :
      (name : Bytes) (v4 ack : Bool)
      → 1 ≤ length name
      → length name ≤ 31
      → (msg : Nlmsg) × (init_testmsg_ipset memory portid name v4 ack ≡ some msg)
  unfolding init_testmsg_ipset
  init_testmsg_ipset-some name v4 ack some_bytes short =
      let buffer : Bytes = memory (bufsz_test_ipset v4) in
      let start : Nlmsg = init_header buffer (
        new_header portid type_test_ipset (if ack then nlm_f_request + nlm_f_ack else nlm_f_request)
          (if v4 then af_inet else af_inet6) 0) in
      let size : length start.spare ≡ 56 + iplen v4 =
        omega (arith, length-drop 20 buffer, sized (bufsz_test_ipset v4), iplen-align v4) in
      let (m1, e1, l1) =
        add_setname_ipset-FitsIn start name some_bytes short (omega (arith, size)) in
      let (_, m2, e2) = add_elem_ipset-none m1 v4 (omega (arith, size, l1)) in
      (m2, rw (e1, e2) refl)

  pub init_testmsg_nftset-some :
      (name : Bytes) (v4 : Bool) {parsed : NftName}
      → parse_name_nftset name ≡ some parsed
      → length parsed.table_name ≤ 255
      → length parsed.set_name ≤ 255
      → (msg : Nlmsg) × (init_testmsg_nftset memory portid name v4 ≡ some msg)
  unfolding init_testmsg_nftset
  init_testmsg_nftset-some name v4 {parsed} e table set =
      let buffer : Bytes = memory (bufsz_test_nftset v4) in
      let start : Nlmsg =
        init_header buffer (new_header portid type_get_setelem nlm_f_request parsed.family 0) in
      let size : length start.spare ≡ 536 + iplen v4 =
        omega (arith, length-drop 20 buffer, sized (bufsz_test_nftset v4), iplen-align v4) in
      let (m1, e1, l1) = add_names_nftset-FitsIn start parsed table set (omega (arith, size)) in
      let (a2, m2, e2, l2) =
        nlmsg_add_nla-Fits m1 (bit_or 3 nla_f_nested) none 0 (omega (arith, size, l1)) in
      let (_, m3, e3) = add_elem_nftset-none m2 v4 (omega (arith, size, l1, l2)) in
      (nlmsg_end_nest_nla m3 a2, rw (e, e1, e2, e3) refl)

  -- A message to add addresses is opened and has room for IP_N of them.
  abbrev pub IsOpened : Bool → Bool → ℕ → Option Nlmsg → Type 0
  IsOpened is_ipset v4 attrtype o =
      (msg : Nlmsg) × (o ≡ some (grown msg (nla_header 4 attrtype)))
      × (4 + ip_n * elem_size is_ipset v4 ≤ length msg.spare)

  pub init_addmsg_ipset-IsOpened :
      (name : Bytes) (v4 : Bool)
      → 1 ≤ length name
      → length name ≤ 31
      → IsOpened true v4 (bit_or 8 nla_f_nested) (init_addmsg_ipset memory portid name v4)
  unfolding init_addmsg_ipset
  init_addmsg_ipset-IsOpened name v4 some_bytes short =
      let buffer : Bytes = memory (bufsz_add_ipset v4) in
      let start : Nlmsg =
        init_header buffer
          (new_header portid type_add_ipset nlm_f_request (if v4 then af_inet else af_inet6) 0) in
      let size : length start.spare ≡ 56 + ip_n * elem_size true v4 =
        omega (arith, length-drop 20 buffer, sized (bufsz_add_ipset v4), iplen-align v4) in
      let (m1, e1, l1) =
        add_setname_ipset-FitsIn start name some_bytes short (omega (arith, size)) in
      let (_, m2, e2, l2) =
        nlmsg_add_nla-Fits m1 9 (some (u32_bytes 0)) 4 (omega (arith, size, l1)) in
      (
        m2,
        rw (e1, e2, nlmsg_add_nla-none m2 (bit_or 8 nla_f_nested) (omega (arith, size, l1, l2)))
            refl,
        omega (arith, size, l1, l2),
      )

  pub init_addmsg_nftset-IsOpened :
      (name : Bytes) (v4 : Bool) {parsed : NftName}
      → parse_name_nftset name ≡ some parsed
      → length parsed.table_name ≤ 255
      → length parsed.set_name ≤ 255
      → IsOpened false v4 (bit_or 3 nla_f_nested) (init_addmsg_nftset memory portid name v4)
  unfolding init_addmsg_nftset
  init_addmsg_nftset-IsOpened name v4 {parsed} e table set =
      let buffer : Bytes = memory (bufsz_add_nftset v4) in
      let start : Nlmsg =
        init_header buffer (new_header portid type_new_setelem nlm_f_request parsed.family 0) in
      let size : length start.spare ≡ 524 + ip_n * elem_size false v4 =
        omega (arith, length-drop 20 buffer, sized (bufsz_add_nftset v4), iplen-align v4) in
      let (m1, e1, l1) = add_names_nftset-FitsIn start parsed table set (omega (arith, size)) in
      (
        m1,
        rw (e, e1, nlmsg_add_nla-none m1 (bit_or 3 nla_f_nested) (omega (arith, size, l1))) refl,
        omega (arith, size, l1),
      )
