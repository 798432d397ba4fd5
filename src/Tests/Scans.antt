-- ===== src/Tests/Scans.antt =====
-- Scans over records, the domains of a name, and the table of tags.
use chinadns_ng.Prelude.{
  ◌+◌, ◌≡◌, refl, ◌-◌, some, List, [], ◌∷◌, Bool, true, false, arith, length, equal,
}
use chinadns_ng.Prelude.Words.{Bytes}
use chinadns_ng.Dns.Header.{
  get_records_count, get_answer_count, get_authority_count, get_additional_count, dns_is_good,
}
use chinadns_ng.Dns.Record.{foreach_record, skip_name, skip_record}
use chinadns_ng.Dns.Scan.{
  is_china_ip, get_bufsz, dns_get_bufsz, check_ip_datalen, test_ip, dns_test_ip, add_ip, dns_add_ip,
}
use chinadns_ng.Dns.Scan.Bufsz.{first_bufsz, dns_get_bufsz-first_bufsz}
use chinadns_ng.Dns.Scan.Address.{
  HasAnswers, first_verdict, addresses, add_all, dns_test_ip-first_verdict, dns_add_ip-addresses,
}
use chinadns_ng.Dns.Name.Labels.{wire_name}
use chinadns_ng.Dns.Domains.{
  too_shallow, domains, count_levels, ctz, collect_domains, select_domains, dns_qname_domains,
}
use chinadns_ng.Dns.Domains.Masks.{mask_of}
use chinadns_ng.Dns.Domains.Levels.{interesting, found, dns_qname_domains-interesting}
use chinadns_ng.Tests.Samples.{
  a_record, opt_record, a_record-IsRr, opt_record-IsRr, query_ab, reply_ab, reply_opt,
}

program : Unit {0}
unfolding get_records_count dns_is_good foreach_record skip_name skip_record get_bufsz dns_get_bufsz
    check_ip_datalen test_ip dns_test_ip add_ip dns_add_ip first_bufsz first_verdict addresses
    add_all count_levels ctz collect_domains select_domains dns_qname_domains interesting
program = tt

opt_bufsz : dns_get_bufsz reply_opt 5 ≡ 1232
unfolding program
opt_bufsz = refl

answers_counted : get_answer_count reply_opt + get_authority_count reply_opt ≡ 1
unfolding program
answers_counted = refl

additional_counted : get_additional_count reply_opt ≡ 1
unfolding program
additional_counted = refl

dns_get_bufsz-first_bufsz_example : dns_get_bufsz reply_opt 5 ≡ first_bufsz (opt_record ∷ [])
dns_get_bufsz-first_bufsz_example =
    dns_get_bufsz-first_bufsz reply_opt 5 (a_record ∷ []) (opt_record ∷ []) [] (a_record-IsRr, tt)
      (opt_record-IsRr, tt) answers_counted additional_counted refl

-- A set that holds the IPv4 address 1.2.3.4 only, and a batch of addresses as a list.
abbrev in_set : Bytes → Bool → Bool
in_set ip true = equal ip (1 ∷ 2 ∷ 3 ∷ 4 ∷ [])
in_set ip false = false

abbrev push : Bytes → Bool → List (Bytes × Bool) → List (Bytes × Bool)
push ip v4 batch = (ip, v4) ∷ batch

abbrev finish : List (Bytes × Bool) → List (Bytes × Bool)
finish batch = batch

is_china : dns_test_ip in_set reply_ab 5 ≡ is_china_ip
unfolding program equal
is_china = refl

adds_one : dns_add_ip push finish reply_ab 5 [] ≡ (1 ∷ 2 ∷ 3 ∷ 4 ∷ [], true) ∷ []
unfolding program
adds_one = refl

reply_ab-HasAnswers : HasAnswers reply_ab 5 (a_record ∷ []) []
unfolding program
reply_ab-HasAnswers = record {
  is_good = refl;
  are_records = (a_record-IsRr, tt);
  count = refl;
  behind = refl;
}

dns_test_ip-first_verdict_example :
    dns_test_ip in_set reply_ab 5 ≡ first_verdict in_set (a_record ∷ [])
dns_test_ip-first_verdict_example =
    dns_test_ip-first_verdict in_set reply_ab 5 (a_record ∷ []) [] reply_ab-HasAnswers

dns_add_ip-addresses_example :
    dns_add_ip push finish reply_ab 5 []
    ≡ finish (add_all push finish (addresses (a_record ∷ [])) [])
dns_add_ip-addresses_example =
    dns_add_ip-addresses push finish reply_ab 5 (a_record ∷ []) [] [] reply_ab-HasAnswers

abbrev labels_ab : List Bytes
labels_ab = (97 ∷ []) ∷ (98 ∷ []) ∷ []

-- Levels 1 and 2 are asked for.
both_levels :
    dns_qname_domains query_ab 5 3
    ≡ some (domains ((1 ∷ 97 ∷ 1 ∷ 98 ∷ 0 ∷ []) ∷ (1 ∷ 98 ∷ 0 ∷ []) ∷ []) 4)
unfolding program
both_levels = refl

third_level : dns_qname_domains query_ab 5 4 ≡ some too_shallow
unfolding program
third_level = refl

-- Of the levels, only the second one.
abbrev second_level : List Bool
second_level = false ∷ true ∷ false ∷ false ∷ false ∷ false ∷ false ∷ false ∷ []

dns_qname_domains-interesting_example :
    dns_qname_domains query_ab (length (wire_name labels_ab)) (mask_of second_level)
    ≡ some (found (interesting second_level labels_ab) (length (wire_name labels_ab) - 1))
dns_qname_domains-interesting_example =
    dns_qname_domains-interesting query_ab (0 ∷ 1 ∷ 0 ∷ 1 ∷ []) second_level labels_ab refl
      ((omega arith, omega arith), ((omega arith, omega arith), tt)) refl (omega arith)
