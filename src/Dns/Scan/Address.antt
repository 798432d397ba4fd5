-- ===== src/Dns/Scan/Address.antt =====
-- `dns_test_ip` and `dns_add_ip` of src/dns.c against the list of a reply's answer records.
use chinadns_ng.Prelude.{
  ℕ, ◌≡◌, refl, Bool, true, not, ◌||◌, List, [], ◌∷◌, ◌++◌, ◌==◌, if◌then◌else◌, length, drop, All,
  inl, inr, Bool-cases,
}
use chinadns_ng.Prelude.Words.{Bytes}
use chinadns_ng.Dns.Header.{msg_minlen, type_a, type_aaaa, get_answer_count, dns_is_good}
use chinadns_ng.Dns.Record.{record_rtype, record_rdata, record_rdatalen}
use chinadns_ng.Dns.Record.Grammar.{Rr, IsRr, rr_bytes}
use chinadns_ng.Dns.Record.Walk.{visit_all, foreach_record-rr_bytes}
use chinadns_ng.Dns.Scan.{
  check_ip_datalen, TestIp, is_china_ip, non_china_ip, no_ip_found, other_case, test_ip,
  dns_test_ip, add_ip, dns_add_ip,
}

abbrev pub is_address : Rr → Bool
is_address r = record_rtype r.body == type_a || record_rtype r.body == type_aaaa

-- Its data has the length of an address of its type: 4 bytes for A, 16 for AAAA.
abbrev pub has_datalen : Rr → Bool
has_datalen r = record_rdatalen r.body == (if record_rtype r.body == type_a then 4 else 16)

check_ip_datalen-has_datalen :
    (r : Rr) → is_address r ≡ true → check_ip_datalen (record_rtype r.body) r.body ≡ has_datalen r
unfolding check_ip_datalen
check_ip_datalen-has_datalen r address = elim (Bool-cases (record_rtype r.body == type_a)) [
  | inl a ↦ rw a refl
  | inr other ↦ rw other refl
]

-- The records behind the question are the answers and whatever follows them.
pub record HasAnswers (msg : Bytes) (n : ℕ) (rs : List Rr) (tail : Bytes) : Type 0 where
  pub is_good : dns_is_good msg ≡ true
  pub are_records : All IsRr rs
  pub count : get_answer_count msg ≡ length rs
  pub behind : drop (msg_minlen n) msg ≡ rr_bytes rs ++ tail

module _ (ipset_test_ip : Bytes → Bool → Bool) where
  -- The verdict on the first address among the records.
  unfoldable pub first_verdict : List Rr → TestIp
  first_verdict [] = no_ip_found
  first_verdict (r ∷ rs) =
      if not (is_address r)
      then first_verdict rs
      else if not (has_datalen r)
      then other_case
      else if ipset_test_ip (record_rdata r.body) (record_rtype r.body == type_a)
      then is_china_ip
      else non_china_ip

  visit_all-test_ip :
      (rs : List Rr) (tail : Bytes)
      → let walk = visit_all (test_ip ipset_test_ip) rs no_ip_found tail in
        (if walk.result then walk.ud else other_case) ≡ first_verdict rs
  unfolding visit_all test_ip first_verdict
  visit_all-test_ip [] tail = refl
  visit_all-test_ip (r ∷ rs) tail = elim (Bool-cases (is_address r)) [
    | inr other ↦ rw other (visit_all-test_ip rs tail)
    | inl address ↦ elim (Bool-cases (has_datalen r)) [
      | inr wrong ↦ rw (address, check_ip_datalen-has_datalen r address, wrong)
      | inl right ↦ rw (address, check_ip_datalen-has_datalen r address, right)
    ]
  ]

  -- The result of `dns_test_ip` on a good reply is the verdict on the first A or AAAA record: china
  -- or not by the set, `other_case` where its data has the wrong length, and `no_ip_found` where
  -- there is none.
  pub dns_test_ip-first_verdict :
      (msg : Bytes) (n : ℕ) (rs : List Rr) (tail : Bytes)
      → HasAnswers msg n rs tail
      → dns_test_ip ipset_test_ip msg n ≡ first_verdict rs
  unfolding dns_test_ip
  dns_test_ip-first_verdict msg n rs tail h =
      rw
        (
          h.is_good,
          h.count,
          h.behind,
          foreach_record-rr_bytes (test_ip ipset_test_ip) rs no_ip_found tail h.are_records,
        )
        (visit_all-test_ip rs tail)

-- The addresses up to the first whose data has the wrong length, and whether each is IPv4.
unfoldable pub addresses : List Rr → List (Bytes × Bool)
addresses [] = []
addresses (r ∷ rs) =
    if not (is_address r)
    then addresses rs
    else if not (has_datalen r)
    then []
    else (record_rdata r.body, record_rtype r.body == type_a) ∷ addresses rs

module _ {S : Type 0} (ipset_add_ip : Bytes → Bool → S → S) (ipset_end_add_ip : S → S) where
  -- Each address is added in turn.
  unfoldable pub add_all : List (Bytes × Bool) → S → S
  add_all [] ctx = ctx
  add_all ((ip, v4) ∷ ips) ctx = add_all ips (ipset_add_ip ip v4 ctx)

  visit_all-add_ip :
      (rs : List Rr) (tail : Bytes) (ctx : S)
      → (visit_all (add_ip ipset_add_ip ipset_end_add_ip) rs ctx tail).ud
        ≡ add_all (addresses rs) ctx
  unfolding visit_all add_ip addresses add_all
  visit_all-add_ip [] tail ctx = refl
  visit_all-add_ip (r ∷ rs) tail ctx = elim (Bool-cases (is_address r)) [
    | inr other ↦ rw other (visit_all-add_ip rs tail ctx)
    | inl address ↦ elim (Bool-cases (has_datalen r)) [
      | inr wrong ↦ rw (address, check_ip_datalen-has_datalen r address, wrong)
      | inl right ↦
          rw (address, check_ip_datalen-has_datalen r address, right)
            (visit_all-add_ip rs tail
              (ipset_add_ip (record_rdata r.body) (record_rtype r.body == type_a) ctx))
    ]
  ]

  -- On a good reply `dns_add_ip` adds the addresses of the answer records in their order, up to the
  -- first whose data is not 4 bytes for A or 16 for AAAA, and ends the batch in each of these cases.
  pub dns_add_ip-addresses :
      (msg : Bytes) (n : ℕ) (rs : List Rr) (tail : Bytes) (ctx : S)
      → HasAnswers msg n rs tail
      → dns_add_ip ipset_add_ip ipset_end_add_ip msg n ctx
        ≡ ipset_end_add_ip (add_all (addresses rs) ctx)
  unfolding dns_add_ip
  dns_add_ip-addresses msg n rs tail ctx h = rw (
    h.is_good,
    h.count,
    h.behind,
    foreach_record-rr_bytes (add_ip ipset_add_ip ipset_end_add_ip) rs ctx tail h.are_records,
    visit_all-add_ip rs tail ctx,
  )
