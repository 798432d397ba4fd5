-- ===== src/Tests/Records.antt =====
-- The walk over records.
use chinadns_ng.Prelude.{
  arith, ℕ, zero, suc, ◌+◌, ◌≡◌, ◌↔◌, refl, ◌≤◌, some, none, List, [], ◌∷◌, ◌++◌, true, false,
  length, take,
}
use chinadns_ng.Prelude.Words.{Bytes}
use chinadns_ng.Dns.Header.{record_size}
use chinadns_ng.Dns.Record.{skip_name, foreach_record, skip_record, no_visit, Visit}
use chinadns_ng.Dns.Record.Grammar.{Rr, IsName, rr_bytes, skip_name-IsName}
use chinadns_ng.Dns.Record.Walk.{visit_all, AreFound, foreach_record-rr_bytes, foreach_record_sound}
use chinadns_ng.Tests.Samples.{a_record, opt_record, a_record-IsRr, opt_record-IsRr}

program : Unit {0}
unfolding foreach_record skip_name visit_all skip_record
program = tt

abbrev two_records : Bytes
two_records = rr_bytes (a_record ∷ opt_record ∷ [])

-- A callback that counts, and stops at the second record.
abbrev stop_at_2 : Bytes → ℕ → Visit ℕ
stop_at_2 record' zero = record { result = true; new_ttl = none; is_break = false; ud = 1 }
stop_at_2 record' (suc n) = record { result = true; new_ttl = some 7; is_break = true; ud = n + 2 }

stops : (foreach_record stop_at_2 2 (two_records ++ 9 ∷ []) 0).rest ≡ 9 ∷ []
unfolding program
stops = refl

cut_record_fails : (skip_record 2 (take 20 two_records)).result ≡ false
unfolding program
cut_record_fails = refl

foreach_record-rr_bytes_example :
    foreach_record stop_at_2 2 (two_records ++ 9 ∷ []) 0
    ≡ visit_all stop_at_2 (a_record ∷ opt_record ∷ []) 0 (9 ∷ [])
foreach_record-rr_bytes_example =
    foreach_record-rr_bytes stop_at_2 (a_record ∷ opt_record ∷ []) 0 (9 ∷ [])
      (a_record-IsRr, (opt_record-IsRr, tt))

walked : (foreach_record no_visit 2 (two_records ++ 9 ∷ []) tt).result ≡ true
unfolding program
walked = refl

foreach_record_sound_example :
    (rs : List Rr) × AreFound 2
      (two_records ++ 9 ∷ [])
      (foreach_record no_visit 2 (two_records ++ 9 ∷ []) tt).rest
      rs
foreach_record_sound_example =
    foreach_record_sound no_visit 2 (two_records ++ 9 ∷ []) tt (λ record' ud. (refl, refl)) walked

abbrev wire_a : Bytes
wire_a = 1 ∷ 97 ∷ 0 ∷ []

skipped : skip_name (wire_a ++ opt_record.body) ≡ some 3
unfolding program
skipped = refl

skip_name-IsName_example : (skip_name (wire_a ++ opt_record.body) ≡ some 3) ↔ (
    IsName (take 3 (wire_a ++ opt_record.body))
    × (3 + record_size ≤ length (wire_a ++ opt_record.body)))
skip_name-IsName_example = skip_name-IsName (wire_a ++ opt_record.body) 3 (omega arith)
