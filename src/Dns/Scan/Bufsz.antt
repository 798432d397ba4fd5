-- ===== src/Dns/Scan/Bufsz.antt =====
-- The buffer size that `dns_get_bufsz` of src/dns.c reads off the OPT record.
use chinadns_ng.Prelude.{
  ℕ, ◌+◌, ◌≤◌, ◌≡◌, refl, List, [], ◌∷◌, ◌++◌, arith, ltb, leb, ◌==◌, if◌then◌else◌, length, drop,
  All, inl, inr, Bool-cases, lt→leb,
}
use chinadns_ng.Prelude.Words.{Bytes}
use chinadns_ng.Dns.Header.{
  msg_minlen, edns_minsize, edns_maxsize, type_opt, get_answer_count, get_authority_count,
  get_additional_count,
}
use chinadns_ng.Dns.Record.{record_rtype, record_rclass, skip_record}
use chinadns_ng.Dns.Record.Grammar.{Rr, IsRr, rr_bytes}
use chinadns_ng.Dns.Record.Walk.{visit_all, foreach_record-rr_bytes, skip_record-rr_bytes}
use chinadns_ng.Dns.Scan.{get_bufsz, dns_get_bufsz}
use chinadns_ng.Dns.Scan.Invariant.{foreach_record-keeps}

-- The limits of EDNS.
abbrev pub IsBufsz : ℕ → Type 0
IsBufsz sz = (edns_minsize ≤ sz) × (sz ≤ edns_maxsize)

get_bufsz-IsBufsz :
    (record' : Bytes) (bufsz : ℕ) → IsBufsz bufsz → IsBufsz (get_bufsz record' bufsz).ud
unfolding get_bufsz
get_bufsz-IsBufsz record' bufsz h = ground arith

-- Whatever the message is, the size lies between 512 and 4096.
dns_get_bufsz-IsBufsz : (msg : Bytes) (n : ℕ) → IsBufsz (dns_get_bufsz msg n)
unfolding dns_get_bufsz
dns_get_bufsz-IsBufsz msg n =
    let skipped =
      skip_record (get_answer_count msg + get_authority_count msg) (drop (msg_minlen n) msg) in
    let default : IsBufsz edns_minsize = (omega arith, omega arith) in
    elim (Bool-cases (leb (get_additional_count msg) 0)) [
      | inl no_additional ↦ rw no_additional default
      | inr some_additional ↦ elim (Bool-cases skipped.result) [
        | inr failed ↦ rw (some_additional, failed) default
        | inl ok ↦
            rw (some_additional, ok)
              (foreach_record-keeps get_bufsz IsBufsz get_bufsz-IsBufsz (get_additional_count msg)
                skipped.rest edns_minsize default)
      ]
    ]

abbrev pub clamp_bufsz : ℕ → ℕ
clamp_bufsz sz =
    if ltb sz edns_minsize then edns_minsize else if ltb edns_maxsize sz then edns_maxsize else sz

-- The class of the first OPT record, between the limits; the least size where there is none.
unfoldable pub first_bufsz : List Rr → ℕ
first_bufsz [] = edns_minsize
first_bufsz (r ∷ rs) =
    if record_rtype r.body == type_opt then clamp_bufsz (record_rclass r.body) else first_bufsz rs

visit_all-get_bufsz :
    (rs : List Rr) (tail : Bytes) → (visit_all get_bufsz rs edns_minsize tail).ud ≡ first_bufsz rs
unfolding visit_all get_bufsz first_bufsz
visit_all-get_bufsz [] tail = refl
visit_all-get_bufsz (r ∷ rs) tail = elim (Bool-cases (record_rtype r.body == type_opt)) [
  | inl opt ↦ rw opt
  | inr other ↦ rw other (visit_all-get_bufsz rs tail)
]

-- On a query whose counts fit its records, the size is the first additional OPT record's, between
-- the limits, and 512 where there is none.
pub dns_get_bufsz-first_bufsz :
    (msg : Bytes) (n : ℕ) (rs ads : List Rr) (tail : Bytes)
    → All IsRr rs
    → All IsRr ads
    → get_answer_count msg + get_authority_count msg ≡ length rs
    → get_additional_count msg ≡ length ads
    → drop (msg_minlen n) msg ≡ rr_bytes rs ++ (rr_bytes ads ++ tail)
    → dns_get_bufsz msg n ≡ first_bufsz ads
unfolding dns_get_bufsz
dns_get_bufsz-first_bufsz msg n rs [] tail v w count more body = unfold first_bufsz in rw more
dns_get_bufsz-first_bufsz msg n rs (r ∷ ads) tail v w count more body =
    let (ok, rest) = skip_record-rr_bytes rs (rr_bytes (r ∷ ads) ++ tail) v in
    rw
      (
        count,
        more,
        lt→leb (length (r ∷ ads)) 0 (omega arith),
        body,
        ok,
        rest,
        foreach_record-rr_bytes get_bufsz (r ∷ ads) edns_minsize tail w,
      )
      (visit_all-get_bufsz (r ∷ ads) tail)
