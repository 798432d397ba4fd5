-- ===== src/Dns/Scan/Invariant.antt =====
-- Invariants of the user data of `foreach_record` (src/dns.c).
use chinadns_ng.Prelude.{
  ℕ, zero, suc, ◌+◌, ◌++◌, ltb, length, take, drop, inl, inr, Bool-cases, Option-cases,
}
use chinadns_ng.Prelude.Words.{Bytes}
use chinadns_ng.Dns.Header.{record_size}
use chinadns_ng.Dns.Record.{
  Visit, Walked, record_rdatalen, skip_name, after_visit, visit_record, foreach_record, store_ttl,
}

module _ {S : Type 0} (f : Bytes → S → Visit S) (P : S → Type 0)
    (keeps : (record' : Bytes) (ud : S) → P ud → P (f record' ud).ud) where
  after_visit-keeps :
      (visit : Visit S) (seen ptr : Bytes) (more : Walked S)
      → P visit.ud
      → P more.ud
      → P (after_visit visit seen ptr more).ud
  unfolding after_visit
  after_visit-keeps visit seen ptr more h k = elim (Bool-cases visit.result) [
    | inr failed ↦ rw failed h
    | inl ok ↦ elim (Bool-cases visit.is_break) [
      | inl stop ↦ rw (ok, stop) h
      | inr go ↦ rw (ok, go) k
    ]
  ]

  pub foreach_record-keeps :
      (count : ℕ) (ptr : Bytes) (ud : S) → P ud → P (foreach_record f count ptr ud).ud
  unfolding foreach_record
  foreach_record-keeps zero ptr ud h = h
  foreach_record-keeps (suc count) ptr ud h = elim (Option-cases (skip_name ptr)) [
    | inl stop ↦ rw (foreach_record, stop) h
    | inr (n, skipped) ↦
        let record' : Bytes = drop n ptr in
        let m : ℕ = record_size + record_rdatalen record' in
        let visit = f (take m record') ud in
        elim (Bool-cases (ltb (length record') m)) [
          | inl short ↦ rw (foreach_record, skipped, visit_record, short) h
          | inr fits ↦
              rw (foreach_record, skipped, visit_record, fits)
                (after_visit-keeps visit (take n ptr ++ store_ttl visit.new_ttl (take m record'))
                  (drop m record') (foreach_record f count (drop m record') visit.ud)
                  (keeps (take m record') ud h)
                  (foreach_record-keeps count (drop m record') visit.ud
                    (keeps (take m record') ud h)))
        ]
  ]
