-- ===== src/Ipset/Add.antt =====
-- src/ipset.c: tests of addresses, and addresses added to a context and sent. The system is a state
-- S with two calls: the datagrams of a vector to how many were sent, and a number of messages to the
-- responses. A failed assertion is `none`.
pub mod Filled
pub mod Holding
pub mod Sent
pub mod Delivered
pub mod Ended
pub mod Sides
pub mod Flushed
pub mod Kept
pub mod Calls
pub mod Returns
pub mod New
pub mod Interval
use chinadns_ng.Prelude.{
  ℕ, zero, suc, ◌+◌, ◌-◌, ◌*◌, ◌%◌, Bool, true, false, not, ◌&&◌, ◌||◌, Option, none, some, List,
  [], ◌∷◌, ◌++◌, ltb, leb, ◌==◌, if◌then◌else◌, length, take, drop, set, get_or, replicate, equal,
  max, map, ◌>>=◌,
}
use chinadns_ng.Prelude.Words.{Bytes, byte}
use chinadns_ng.Ipset.{
  ip_n, iplen, ipset_err_exist, type_new_setelem, subsys_nftables, batch_begin, batch_end,
  nlm_f_request,
}
use chinadns_ng.Ipset.Message.{
  Header, Nlmsg, header_size, header_bytes, nlmsg_len, nla_hdrlen, nla_len_calc, u16_bytes, memcpy,
  write_at, add_elem_ipset, add_elem_nftset,
}
use chinadns_ng.Ipset.Context.{Side, Addctx, Testctx, new_header}
use chinadns_ng.Ipset.Batch.{
  Datagram, Response, Received, memory_of, set_len, slice, in_blacklist, increment, add_ip_ipset,
  add_ip_nftset, add_ip, elem_size, nlmsg_errcode, test_res_ipset, test_res_nftset, test_res,
  next_ips, test_requests, save_results, kept_elems, end_msg, end_side_on, end_side, datagram_of,
  batch_bytes, transaction, end_add_ip, add_to_side, reset, all_errors, side_of, with_side, errcode,
  answer, failed, no_msg, received,
}

-- `sendall` with `retry_EINTR(sendmmsg)`: the number sent, `none` for -1. The fuel is the number of
-- datagrams, of which each round sends one at least.
module _ {S : Type 0} (sendmmsg : List Datagram → S → Option ℕ × S) where
  unfoldable pub sendall_loop : ℕ → List Datagram → ℕ → S → Option (ℕ × S)
  sendall_loop zero datagrams nsent s = none
  sendall_loop (suc fuel) datagrams nsent s =
      let (ret, s') = sendmmsg datagrams s in
      elim ret [
        | none ↦ some (nsent, s')
        | some n ↦
            let rest = sendall_loop fuel (drop n datagrams) (nsent + n) s' in
            if n == 0 then none else if ltb n (length datagrams) then rest else some (nsent + n, s')
      ]

  -- `sendall` of the vector with its assertions; 0 sent is the result -1, which is `none`.
  unfoldable pub send_req : List Datagram → S → Option (Option ℕ × S)
  send_req datagrams s =
      if (length datagrams == 0) || ltb (ip_n * 2) (length datagrams)
      then none
      else (sendall_loop (length datagrams) datagrams 0 s >>= λ (nsent, s').
          some (if nsent == 0 then none else some nsent, s'))

-- `recv_res` with its assertions.
unfoldable pub recv_res : {S : Type 0} → (ℕ → S → Received × S) → ℕ → S → Option (Received × S)
recv_res recvmmsg n_msg s =
    let (res, s') = recvmmsg n_msg s in
    if (n_msg == 0) || ltb (ip_n * 2) n_msg then none else (elim res [
      | failed ↦ some (failed, s')
      | no_msg ↦ some (no_msg, s')
      | received [] ↦ none
      | received (response ∷ rest) ↦ some (received (response ∷ rest), s')
    ])

module _ {S : Type 0} (sendmmsg : List Datagram → S → Option ℕ × S)
    (recvmmsg : ℕ → S → Received × S) (is_ipset : Bool) (portid : ℕ) where
  -- The bits of the addresses that are in the set, the IPv4 ones first; all 0 where a call fails.
  unfoldable pub test_ips : Addctx → S → Option (List Bool × S)
  test_ips ctx s =
      let zeros = replicate (ip_n * 2) false in
      let requests = test_requests is_ipset true ctx.four ++ test_requests is_ipset false ctx.six in
      if length requests == 0
      then some (zeros, s)
      else (send_req sendmmsg requests s >>= λ (sent, s1). elim sent [
        | none ↦ some (zeros, s1)
        | some n ↦ recv_res recvmmsg n s1 >>= λ (res, s2). elim res [
          | failed ↦ some (zeros, s2)
          | no_msg ↦ some (zeros, s2)
          | received responses ↦
              save_results is_ipset responses 0 zeros >>= λ exists. some (exists, s2)
        ]
      ])

  unfoldable pub ipset_end_add_ip : Addctx → S → Option (Addctx × S)
  ipset_end_add_ip ctx s =
      if (ctx.four.ipcnt + ctx.six.ipcnt) == 0
      then some (ctx, s)
      else (test_ips ctx s >>= λ (exists, s1).
          let (datagrams, ctx') = end_add_ip is_ipset portid exists ctx in
          if length datagrams == 0
          then some (reset ctx', s1)
          else (send_req sendmmsg datagrams s1 >>= λ (sent, s2). elim sent [
            | none ↦ some (reset ctx', s2)
            | some n ↦ recv_res recvmmsg (max (length datagrams) 2) s2 >>= λ (res, s3). elim res [
              | failed ↦ some (reset ctx', s3)
              | no_msg ↦ some (reset ctx', s3)
              | received responses ↦ if all_errors responses then some (reset ctx', s3) else none
            ]
          ]))

  -- `ipset_blacklist` is a parameter.
  unfoldable pub ipset_add_ip : Bool → Addctx → Bytes → Bool → S → Option (Addctx × S)
  ipset_add_ip ipset_blacklist ctx ip v4 s = elim (side_of ctx v4).msg [
    | none ↦ some (ctx, s)
    | some msg ↦
        let flushed : Option (Addctx × S) =
          if ltb (side_of ctx v4).ipcnt ip_n then some (ctx, s) else ipset_end_add_ip ctx s in
        let added = flushed >>= λ (ctx', s').
        add_to_side is_ipset (side_of ctx' v4) v4 ip >>= λ side.
        some (with_side ctx' v4 side, s') in
        if ipset_blacklist && in_blacklist ip v4 then some (ctx, s) else added
  ]

  unfoldable pub ipset_test_ip : Testctx → Bytes → Bool → S → Option (Bool × S)
  ipset_test_ip ctx ip v4 s = elim (if v4 then ctx.msg4 else ctx.msg6) [
    | none ↦ some (false, s)
    | some msg ↦
        let asked = write_at (nlmsg_len msg - iplen v4) ip msg in
        send_req sendmmsg ((take (nlmsg_len asked) (memory_of asked) ∷ []) ∷ []) s >>= λ (sent, s1).
        elim sent [
          | none ↦ some (false, s1)
          | some n ↦ recv_res recvmmsg 1 s1 >>= λ (res, s2). elim res [
            | failed ↦ some (false, s2)
            | no_msg ↦ some (true, s2)
            | received (response ∷ []) ↦ test_res is_ipset response >>= λ found. some (found, s2)
            | received others ↦ some (false, s2)
          ]
        ]
  ]
