-- ===== src/Tests/Samples.antt =====
-- The messages that the tests use: a query for "a.b" and replies to it.
use chinadns_ng.Prelude.{[], ◌∷◌, ◌++◌, arith, refl}
use chinadns_ng.Prelude.Words.{Bytes}
use chinadns_ng.Dns.Record.Grammar.{Rr, IsRr, null, pointer, rr_bytes}
use chinadns_ng.Dns.Check.Question.{HasQuestion}
use chinadns_ng.Dns.Check.Reply.{IsReply}
use chinadns_ng.Dns.Header.{get_records_count}

abbrev pub question_ab : Bytes
question_ab = 1 ∷ 97 ∷ 1 ∷ 98 ∷ 0 ∷ 0 ∷ 1 ∷ 0 ∷ 1 ∷ []

-- A query with recursion desired, and one with tc set.
abbrev pub query_ab : Bytes
query_ab = 0x12 ∷ 0x34 ∷ 1 ∷ 0 ∷ 0 ∷ 1 ∷ 0 ∷ 0 ∷ 0 ∷ 0 ∷ 0 ∷ 0 ∷ question_ab

abbrev pub query_tc : Bytes
query_tc = 0x12 ∷ 0x34 ∷ 3 ∷ 0 ∷ 0 ∷ 1 ∷ 0 ∷ 0 ∷ 0 ∷ 0 ∷ 0 ∷ 0 ∷ question_ab

-- An A record of TTL 300, and an OPT record that announces 1232 bytes.
abbrev pub a_record : Rr
a_record = record {
  name = 0xc0 ∷ 12 ∷ [];
  body = 0 ∷ 1 ∷ 0 ∷ 1 ∷ 0 ∷ 0 ∷ 1 ∷ 44 ∷ 0 ∷ 4 ∷ 1 ∷ 2 ∷ 3 ∷ 4 ∷ [];
}

abbrev pub opt_record : Rr
opt_record = record { name = 0 ∷ []; body = 0 ∷ 41 ∷ 4 ∷ 208 ∷ 0 ∷ 0 ∷ 0 ∷ 0 ∷ 0 ∷ 0 ∷ [] }

pub a_record-IsRr : IsRr a_record
a_record-IsRr = record { is_name = pointer 12 (omega arith); sized = refl }

pub opt_record-IsRr : IsRr opt_record
opt_record-IsRr = record { is_name = null; sized = refl }

-- A reply with one A record.
abbrev pub reply_head : Bytes
reply_head = 0x12 ∷ 0x34 ∷ 0x81 ∷ 0x80 ∷ 0 ∷ 1 ∷ 0 ∷ 1 ∷ 0 ∷ 0 ∷ 0 ∷ 0 ∷ question_ab

abbrev pub reply_ab : Bytes
reply_ab = reply_head ++ rr_bytes (a_record ∷ [])

-- The same with an additional OPT record, as a server sends it.
abbrev pub reply_opt : Bytes
reply_opt =
    (0x12 ∷ 0x34 ∷ 0x81 ∷ 0 ∷ 0 ∷ 1 ∷ 0 ∷ 1 ∷ 0 ∷ 0 ∷ 0 ∷ 1 ∷ question_ab)
    ++ rr_bytes (a_record ∷ opt_record ∷ [])

pub query_ab-HasQuestion : HasQuestion query_ab 5
query_ab-HasQuestion = record {
  name_min = omega arith;
  name_max = omega arith;
  fits = omega arith;
  size_max = omega arith;
  name_end = (omega arith, refl, (omega arith, (omega arith, (omega arith, (omega arith, tt)))));
  one_question = refl;
}

pub reply_ab-HasQuestion : HasQuestion reply_ab 5
reply_ab-HasQuestion = record {
  name_min = omega arith;
  name_max = omega arith;
  fits = omega arith;
  size_max = omega arith;
  name_end = (omega arith, refl, (omega arith, (omega arith, (omega arith, (omega arith, tt)))));
  one_question = refl;
}

pub reply_ab-IsReply : IsReply reply_ab 5 (a_record ∷ [])
unfolding get_records_count
reply_ab-IsReply = record {
  fits = omega arith;
  size_max = omega arith;
  found = (refl, (a_record-IsRr, tt), refl);
}
