-- ===== src/Ipset/Context.antt =====
-- src/ipset.c: the contexts and the messages they start with. The buffer of a message is `memory`
-- of its size, whose bytes are unspecified; `portid` is `s_portid`; `exit` is `none`.
pub mod Room
use chinadns_ng.Prelude.{
  ℕ, ◌+◌, ◌-◌, ◌*◌, Bool, true, false, not, ◌||◌, Option, none, some, List, [], ◌∷◌, ◌++◌, ltb,
  ◌==◌, if◌then◌else◌, length, drop, ◌>>=◌,
}
use chinadns_ng.Prelude.Words.{Bytes}
use chinadns_ng.Ipset.{
  af_inet, af_inet6, nlm_f_request, nlm_f_ack, ipset_maxnamelen, nft_name_maxlen, type_test_ipset,
  type_add_ipset, type_get_setelem, type_new_setelem, subsys_nftables, ip_n, iplen, split_at,
  parse_name46, NftName, parse_name_nftset,
}
use chinadns_ng.Ipset.Message.{
  Header, Nlmsg, header_size, nlmsg_len, nla_hdrlen, nla_size_calc, u32_bytes, nlmsg_add_nla,
  nlmsg_add_nest_nla, nlmsg_end_nest_nla, add_elem_ipset, add_elem_nftset,
}

abbrev pub bufsz_test_ipset : Bool → ℕ
bufsz_test_ipset v4 =
    header_size
    + nla_size_calc 1
    + nla_size_calc ipset_maxnamelen
    + nla_hdrlen
    + nla_hdrlen
    + nla_size_calc (iplen v4)

abbrev pub bufsz_add_ipset : Bool → ℕ
bufsz_add_ipset v4 =
    header_size
    + nla_size_calc 1
    + nla_size_calc ipset_maxnamelen
    + nla_size_calc 4
    + nla_hdrlen
    + ip_n * (nla_hdrlen + nla_hdrlen + nla_size_calc (iplen v4))

abbrev pub bufsz_test_nftset : Bool → ℕ
bufsz_test_nftset v4 =
    header_size
    + nla_size_calc nft_name_maxlen
    + nla_size_calc nft_name_maxlen
    + nla_hdrlen
    + nla_hdrlen
    + nla_hdrlen
    + nla_size_calc (iplen v4)

abbrev pub bufsz_add_nftset : Bool → ℕ
bufsz_add_nftset v4 =
    header_size
    + nla_size_calc nft_name_maxlen
    + nla_size_calc nft_name_maxlen
    + nla_hdrlen
    + ip_n
      * (nla_hdrlen
          + nla_hdrlen
          + nla_size_calc (iplen v4)
          + nla_hdrlen
          + nla_size_calc 4
          + nla_hdrlen
          + nla_size_calc (iplen v4))

abbrev pub bufsz_test : Bool → Bool → ℕ
bufsz_test is_ipset v4 = if is_ipset then bufsz_test_ipset v4 else bufsz_test_nftset v4

abbrev pub bufsz_add : Bool → Bool → ℕ
bufsz_add is_ipset v4 = if is_ipset then bufsz_add_ipset v4 else bufsz_add_nftset v4

-- The messages and counts of one address family in `struct ipset_addctx`.
pub record Side : Type 0 where
  pub testmsg : Option Nlmsg
  pub msg : Option Nlmsg
  pub baselen : ℕ
  pub ipcnt : ℕ

pub record Addctx : Type 0 where
  pub four : Side
  pub six : Side

pub record Testctx : Type 0 where
  pub msg4 : Option Nlmsg
  pub msg6 : Option Nlmsg

abbrev pub new_header : ℕ → ℕ → ℕ → ℕ → ℕ → Header
new_header portid type' flags family resid = record {
  nlmsg_type = type';
  nlmsg_flags = flags;
  nlmsg_seq = 0;
  nlmsg_pid = portid;
  nfgen_family = family;
  version = 0;
  res_id = resid;
}

-- `init_header` on a buffer.
abbrev pub init_header : Bytes → Header → Nlmsg
init_header buffer header = record { header = header; used = []; spare = drop header_size buffer }

abbrev pub get_namelen_ipset : Bytes → Option ℕ
get_namelen_ipset name =
    if ltb (length name) 1 || ltb (ipset_maxnamelen - 1) (length name)
    then none
    else some (length name)

-- The message behind an attribute, without its address.
abbrev pub add_nla : Nlmsg → ℕ → Bytes → ℕ → Option Nlmsg
add_nla msg attrtype bytes datalen =
    nlmsg_add_nla msg attrtype (some bytes) datalen >>= λ (nla, msg'). some msg'

-- The attributes PROTOCOL and SETNAME.
unfoldable pub add_setname_ipset : Nlmsg → Bytes → Option Nlmsg
add_setname_ipset msg name = add_nla msg 1 (6 ∷ []) 1 >>= λ msg1.
    get_namelen_ipset name >>= λ namelen. add_nla msg1 2 (name ++ 0 ∷ []) (namelen + 1)

-- The attributes of the table and the set.
unfoldable pub add_names_nftset : Nlmsg → NftName → Option Nlmsg
add_names_nftset msg name =
    add_nla msg 1 (name.table_name ++ 0 ∷ []) (length name.table_name + 1) >>= λ msg1.
    add_nla msg1 2 (name.set_name ++ 0 ∷ []) (length name.set_name + 1)

module _ (memory : ℕ → Bytes) (portid : ℕ) where
  unfoldable pub init_testmsg_ipset : Bytes → Bool → Bool → Option Nlmsg
  init_testmsg_ipset name v4 ack =
      let flags = if ack then nlm_f_request + nlm_f_ack else nlm_f_request in
      let header = new_header portid type_test_ipset flags (if v4 then af_inet else af_inet6) 0 in
      add_setname_ipset (init_header (memory (bufsz_test_ipset v4)) header) name >>= λ msg.
      add_elem_ipset msg none v4 >>= λ (addr, msg'). some msg'

  unfoldable pub init_addmsg_ipset : Bytes → Bool → Option Nlmsg
  init_addmsg_ipset name v4 =
      let header =
        new_header portid type_add_ipset nlm_f_request (if v4 then af_inet else af_inet6) 0 in
      add_setname_ipset (init_header (memory (bufsz_add_ipset v4)) header) name >>= λ msg.
      add_nla msg 9 (u32_bytes 0) 4 >>= λ msg1.
      nlmsg_add_nest_nla msg1 8 >>= λ (adt_nla, msg2). some msg2

  unfoldable pub init_testmsg_nftset : Bytes → Bool → Option Nlmsg
  init_testmsg_nftset name v4 = parse_name_nftset name >>= λ parsed.
      let header = new_header portid type_get_setelem nlm_f_request parsed.family 0 in
      add_names_nftset (init_header (memory (bufsz_test_nftset v4)) header) parsed >>= λ msg.
      nlmsg_add_nest_nla msg 3 >>= λ (elems_nla, msg1).
      add_elem_nftset msg1 none v4 0 >>= λ (nla, msg2). some (nlmsg_end_nest_nla msg2 elems_nla)

  unfoldable pub init_addmsg_nftset : Bytes → Bool → Option Nlmsg
  init_addmsg_nftset name v4 = parse_name_nftset name >>= λ parsed.
      let header = new_header portid type_new_setelem nlm_f_request parsed.family 0 in
      add_names_nftset (init_header (memory (bufsz_add_nftset v4)) header) parsed >>= λ msg.
      nlmsg_add_nest_nla msg 3 >>= λ (elems_nla, msg1). some msg1

  unfoldable pub init_testmsg : Bool → Bytes → Bool → Bool → Option Nlmsg
  init_testmsg is_ipset name v4 ack =
      if is_ipset then init_testmsg_ipset name v4 ack else init_testmsg_nftset name v4

  unfoldable pub init_addmsg : Bool → Bytes → Bool → Option Nlmsg
  init_addmsg is_ipset name v4 =
      if is_ipset then init_addmsg_ipset name v4 else init_addmsg_nftset name v4

  -- A null message where there is no name.
  abbrev pub testmsg_of : Bool → Bytes → Bool → Bool → Option (Option Nlmsg)
  testmsg_of is_ipset name v4 ack =
      if length name == 0
      then some none
      else (init_testmsg is_ipset name v4 ack >>= λ msg. some (some msg))

  -- One family of `ipset_new_addctx`.
  unfoldable pub new_side : Bool → Bytes → Bool → Option Side
  new_side is_ipset name v4 =
      if length name == 0
      then some (record { testmsg = none; msg = none; baselen = 0; ipcnt = 0 })
      else (init_testmsg is_ipset name v4 true >>= λ testmsg'.
          init_addmsg is_ipset name v4 >>= λ msg'. some (record {
            testmsg = some testmsg';
            msg = some msg';
            baselen = nlmsg_len msg';
            ipcnt = 0;
          }))

  -- `init`, where `backend` is what an earlier call has chosen: whether it is ipset.
  unfoldable pub init : Option Bool → Bytes → Option Bool
  init backend name46 =
      let (before, behind) = split_at b'@' name46 in
      let is_ipset : Bool = elim behind [ none ↦ true | some next ↦ false ] in
      elim backend [
        | none ↦ some is_ipset
        | some true ↦ if is_ipset then some true else none
        | some false ↦ if is_ipset then none else some false
      ]

  -- With the backend.
  unfoldable pub ipset_new_testctx : Option Bool → Bytes → Option (Bool × Testctx)
  ipset_new_testctx backend name46 = init backend name46 >>= λ is_ipset.
      parse_name46 name46 >>= λ (name4, name6). testmsg_of is_ipset name4 true false >>= λ first.
      testmsg_of is_ipset name6 false false >>= λ second.
      some (is_ipset, record { msg4 = first; msg6 = second })

  unfoldable pub ipset_new_addctx : Option Bool → Bytes → Option (Bool × Addctx)
  ipset_new_addctx backend name46 = init backend name46 >>= λ is_ipset.
      parse_name46 name46 >>= λ (name4, name6). new_side is_ipset name4 true >>= λ first.
      new_side is_ipset name6 false >>= λ second.
      some (is_ipset, record { four = first; six = second })
