-- ===== src/Dns/Record.antt =====
-- The resource records of a message (src/dns.c): `skip_name` and `foreach_record`. The bytes from
-- the pointer on are one list, which stands for the pair (ptr, len): the code moves both together.
pub mod Grammar
pub mod Walk
use chinadns_ng.Prelude.{
  ℕ, zero, suc, ◌+◌, Bool, true, false, not, Option, none, some, [], ◌∷◌, ◌++◌, ltb, leb, ◌==◌,
  if◌then◌else◌, length, take, drop,
}
use chinadns_ng.Prelude.Words.{Bytes, be16, be32, be32_bytes}
use chinadns_ng.Dns.Header.{record_size, label_maxlen, ptr_minval}

-- The fields of `struct dns_record`, read at the record's address.
abbrev pub record_rtype : Bytes → ℕ
record_rtype record' = be16 record' 0

abbrev pub record_rclass : Bytes → ℕ
record_rclass record' = be16 record' 2

abbrev pub record_rttl : Bytes → ℕ
record_rttl record' = be32 record' 4

abbrev pub record_rdatalen : Bytes → ℕ
record_rdatalen record' = be16 record' 8

abbrev pub record_rdata : Bytes → Bytes
record_rdata record' = drop record_size record'

-- `record->rttl = htonl(ttl)`
unfoldable pub set_rttl : ℕ → Bytes → Bytes
set_rttl ttl record' = take 4 record' ++ (be32_bytes ttl ++ drop 8 record')

-- By how much the loop of `skip_name` moves the pointer. It may run past the end of the bytes; `len`
-- is negative then, and the test after the loop fails. The fuel is the number of bytes.
unfoldable pub skip_labels : ℕ → Bytes → Option ℕ
skip_labels fuel [] = some 0
skip_labels zero (label_len ∷ ptr) = none
skip_labels (suc fuel) (label_len ∷ ptr) =
    let next = skip_labels fuel (drop label_len ptr) in
    if label_len == 0
    then some 1
    else if leb ptr_minval label_len
    then some 2
    else if leb label_len label_maxlen
    then elim next [ none ↦ none | some n ↦ some (1 + label_len + n) ]
    else none

-- `none` is the result false, `some n` moves the pointer by `n`, the callers' `rnamelen`.
unfoldable pub skip_name : Bytes → Option ℕ
unfolding skip_labels
skip_name ptr = elim (skip_labels (length ptr) ptr) [
  | none ↦ none
  | some n ↦ if ltb (length ptr) (n + record_size) then none else some n
]

-- What a callback of `foreach_record` does to one record: its result, the TTL that it writes into
-- the record, `*is_break` and the user data.
pub record Visit (S : Type 0) : Type 0 where
  pub result : Bool
  pub new_ttl : Option ℕ
  pub is_break : Bool
  pub ud : S

-- The state behind `foreach_record`: its result, the bytes walked over as memory holds them now,
-- the bytes from the pointer on, and the user data.
pub record Walked (S : Type 0) : Type 0 where
  pub result : Bool
  pub done : Bytes
  pub rest : Bytes
  pub ud : S

unfoldable pub store_ttl : Option ℕ → Bytes → Bytes
unfolding set_rttl
store_ttl none record' = record'
store_ttl (some ttl) record' = set_rttl ttl record'

-- The end of the loop's body, behind the callback; `seen` is the record walked over, `ptr` the bytes
-- behind it and `more` the rest of the loop.
unfoldable pub after_visit : {S : Type 0} → Visit S → Bytes → Bytes → Walked S → Walked S
after_visit visit seen ptr more =
    if not visit.result
    then record { result = false; done = seen; rest = ptr; ud = visit.ud }
    else if visit.is_break
    then record { result = true; done = seen; rest = ptr; ud = visit.ud }
    else record more { done = seen ++ more.done }

module _ {S : Type 0} (f : Bytes → S → Visit S) where
  -- The body of the loop behind `skip_name`, on the bytes at `record'`; `next` is the rest of the
  -- loop and `name` the bytes skipped.
  unfoldable pub visit_record : (Bytes → S → Walked S) → Bytes → Bytes → S → Walked S
  unfolding store_ttl after_visit
  visit_record next name record' ud =
      let recordlen = record_size + record_rdatalen record' in
      let visit = f (take recordlen record') ud in
      let seen = name ++ store_ttl visit.new_ttl (take recordlen record') in
      if ltb (length record') recordlen
      then record { result = false; done = name; rest = record'; ud = ud }
      else after_visit visit seen (drop recordlen record') (next (drop recordlen record') visit.ud)

  unfoldable pub foreach_record : ℕ → Bytes → S → Walked S
  unfolding visit_record skip_name
  foreach_record zero ptr ud = record { result = true; done = []; rest = ptr; ud = ud }
  foreach_record (suc count) ptr ud = elim (skip_name ptr) [
    | none ↦ record { result = false; done = []; rest = ptr; ud = ud }
    | some n ↦ visit_record (foreach_record count) (take n ptr) (drop n ptr) ud
  ]

-- The callback NULL of `skip_record`.
abbrev pub no_visit : Bytes → Unit {0} → Visit (Unit {0})
no_visit record' ud = record { result = true; new_ttl = none; is_break = false; ud = ud }

unfoldable pub skip_record : ℕ → Bytes → Walked (Unit {0})
skip_record count ptr = foreach_record no_visit count ptr tt
