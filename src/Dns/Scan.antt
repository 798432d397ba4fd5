-- ===== src/Dns/Scan.antt =====
-- Scans over the records of a message (src/dns.c): the EDNS buffer size that a query announces
-- (`get_bufsz`, `dns_get_bufsz`) and the addresses of a reply (`check_ip_datalen`, `test_ip`,
-- `add_ip`, `dns_test_ip`, `dns_add_ip`). The ipset component that tests and adds an address
-- (`ipset_test_ip`, `ipset_add_ip`, `ipset_end_add_ip`) is a parameter of the last four.
pub mod Invariant
pub mod Bufsz
pub mod Address
use chinadns_ng.Prelude.{
  ℕ, ◌+◌, Bool, true, false, not, ◌||◌, none, ltb, leb, ◌==◌, if◌then◌else◌, drop,
}
use chinadns_ng.Prelude.Words.{Bytes}
use chinadns_ng.Dns.Header.{
  msg_minlen, edns_minsize, edns_maxsize, type_a, type_aaaa, type_opt, dns_is_good,
  get_answer_count, get_authority_count, get_additional_count,
}
use chinadns_ng.Dns.Record.{
  Visit, record_rtype, record_rclass, record_rdatalen, record_rdata, foreach_record, skip_record,
}

-- The user data is the size so far.
unfoldable pub get_bufsz : Bytes → ℕ → Visit ℕ
get_bufsz record' bufsz =
    let sz = record_rclass record' in
    let clamped =
      if ltb sz edns_minsize
      then edns_minsize
      else if ltb edns_maxsize sz
      then edns_maxsize
      else sz in
    if record_rtype record' == type_opt
    then record { result = true; new_ttl = none; is_break = true; ud = clamped }
    else record { result = true; new_ttl = none; is_break = false; ud = bufsz }

unfoldable pub dns_get_bufsz : Bytes → ℕ → ℕ
dns_get_bufsz msg qnamelen =
    let skipped =
      skip_record (get_answer_count msg + get_authority_count msg)
        (drop (msg_minlen qnamelen) msg) in
    if leb (get_additional_count msg) 0
    then edns_minsize
    else if not skipped.result
    then edns_minsize
    else (foreach_record get_bufsz (get_additional_count msg) skipped.rest edns_minsize).ud

abbrev pub ipv4_len : ℕ
ipv4_len = 4

abbrev pub ipv6_len : ℕ
ipv6_len = 16

unfoldable pub check_ip_datalen : ℕ → Bytes → Bool
check_ip_datalen rtype record' =
    record_rdatalen record' == (if rtype == type_a then ipv4_len else ipv6_len)

-- `DNS_TEST_IP_*`
pub data TestIp : Type 0 where
  is_china_ip : TestIp
  non_china_ip : TestIp
  no_ip_found : TestIp
  other_case : TestIp

-- `ipset_test_ip` on the context, with the address and whether it is IPv4.
module _ (ipset_test_ip : Bytes → Bool → Bool) where
  unfoldable pub test_ip : Bytes → TestIp → Visit TestIp
  test_ip record' res =
      let rtype = record_rtype record' in
      let found =
        if ipset_test_ip (record_rdata record') (rtype == type_a)
        then is_china_ip
        else non_china_ip in
      if rtype == type_a || rtype == type_aaaa
      then (if not (check_ip_datalen rtype record')
          then record { result = false; new_ttl = none; is_break = false; ud = res }
          else record { result = true; new_ttl = none; is_break = true; ud = found })
      else record { result = true; new_ttl = none; is_break = false; ud = res }

  unfoldable pub dns_test_ip : Bytes → ℕ → TestIp
  dns_test_ip msg qnamelen =
      let walk =
        foreach_record test_ip (get_answer_count msg) (drop (msg_minlen qnamelen) msg)
          no_ip_found in
      if not (dns_is_good msg) then other_case else if walk.result then walk.ud else other_case

-- `ipset_add_ip` and `ipset_end_add_ip` on the context, which they change.
module _ {S : Type 0} (ipset_add_ip : Bytes → Bool → S → S) (ipset_end_add_ip : S → S) where
  unfoldable pub add_ip : Bytes → S → Visit S
  add_ip record' ctx =
      let rtype = record_rtype record' in
      if rtype == type_a || rtype == type_aaaa
      then (if not (check_ip_datalen rtype record')
          then record { result = false; new_ttl = none; is_break = false; ud = ctx }
          else record {
            result = true;
            new_ttl = none;
            is_break = false;
            ud = ipset_add_ip (record_rdata record') (rtype == type_a) ctx;
          })
      else record { result = true; new_ttl = none; is_break = false; ud = ctx }

  unfoldable pub dns_add_ip : Bytes → ℕ → S → S
  dns_add_ip msg qnamelen ctx =
      let walk =
        foreach_record add_ip (get_answer_count msg) (drop (msg_minlen qnamelen) msg) ctx in
      if not (dns_is_good msg) then ctx else ipset_end_add_ip walk.ud
