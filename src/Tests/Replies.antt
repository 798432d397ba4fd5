-- ===== src/Tests/Replies.antt =====
-- Checks on messages, TTLs, and the replies that the program makes.
use chinadns_ng.Prelude.{
  ◌≡◌, ◌≢◌, refl, some, none, [], ◌∷◌, true, false, arith, length, take, drop, map,
}
use chinadns_ng.Prelude.Words.{Bytes}
use chinadns_ng.Prelude.Int.{pos, negsuc}
use chinadns_ng.Dns.Header.{
  header_size, msg_minlen, qr_query, qr_reply, header_qr, header_tc, get_records_count, dns_get_id,
  dns_is_good, set_ra,
}
use chinadns_ng.Dns.Record.{foreach_record, skip_name, skip_record}
use chinadns_ng.Dns.Record.Grammar.{rr_bytes}
use chinadns_ng.Dns.Check.{
  Checked, CheckedReply, question_name, check_msg, rm_additional, finish_reply, dns_check_query,
  dns_check_reply,
}
use chinadns_ng.Dns.Name.{decode_name}
use chinadns_ng.Dns.Check.Question.{
  HasQuestion, cleared, check_msg_sound, check_msg-HasQuestion, by_name,
}
use chinadns_ng.Dns.Check.Reply.{IsReply, IsKept, stripped, dns_check_reply-IsKept}
use chinadns_ng.Dns.Ttl.{get_ttl, update_ttl, note_ttl, dns_get_ttl, dns_update_ttl}
use chinadns_ng.Dns.Ttl.Records.{aged}
use chinadns_ng.Dns.Ttl.Least.{ttls}
use chinadns_ng.Dns.Ttl.Cache.{
  with_records, age_all, dns_update_ttl-IsReply, dns_update_ttl-dns_check_reply,
}
use chinadns_ng.Dns.Build.{
  dns_empty_reply, dns_servfail_reply, get_qnamelen, dns_truncate, dns_make_reply,
}
use chinadns_ng.Dns.Build.Accepted.{dns_truncate-dns_check_reply}
use chinadns_ng.Dns.Build.Answer.{dns_make_reply-dns_check_reply}
use chinadns_ng.Tests.Samples.{
  a_record, a_record-IsRr, query_ab, query_tc, reply_ab, reply_opt, query_ab-HasQuestion,
  reply_ab-HasQuestion, reply_ab-IsReply,
}

program : Unit {0}
unfolding get_records_count dns_is_good foreach_record skip_name skip_record check_msg rm_additional
    finish_reply dns_check_query dns_check_reply get_ttl update_ttl note_ttl dns_get_ttl
    dns_update_ttl ttls dns_servfail_reply dns_empty_reply get_qnamelen dns_truncate dns_make_reply
program = tt

-- `dns_check_reply` takes the OPT record off.
opt_removed :
    dns_check_reply reply_opt true
    ≡ CheckedReply.good (stripped reply_opt) (some (97 ∷ b'.' ∷ 98 ∷ 0 ∷ [])) 5 37
unfolding program
opt_removed = refl

opt_good : dns_is_good (stripped reply_opt) ≡ true
unfolding program
opt_good = refl

dns_check_reply-IsKept_example : IsKept reply_opt (stripped reply_opt) 5 37
dns_check_reply-IsKept_example = dns_check_reply-IsKept reply_opt true opt_removed opt_good

dns_update_ttl-dns_check_reply_example :
    (aged_msg : Bytes) × (age_all 5
        (negsuc 9 ∷ pos 0 ∷ negsuc 999 ∷ [])
        (take 37 (stripped reply_opt))
      ≡ some aged_msg)
    × (length aged_msg ≡ 37)
dns_update_ttl-dns_check_reply_example =
    dns_update_ttl-dns_check_reply reply_opt true (negsuc 9 ∷ pos 0 ∷ negsuc 999 ∷ []) opt_removed
      opt_good

dns_update_ttl-IsReply_example :
    (dns_update_ttl reply_ab 5 (negsuc 9)
      ≡ some (with_records reply_ab 5 (map (aged (negsuc 9)) (a_record ∷ []))))
    × IsReply
        (with_records reply_ab 5 (map (aged (negsuc 9)) (a_record ∷ [])))
        5
        (map (aged (negsuc 9)) (a_record ∷ []))
dns_update_ttl-IsReply_example =
    dns_update_ttl-IsReply reply_ab 5 (a_record ∷ []) (negsuc 9) reply_ab-IsReply

ttl_found : ttls (pos 1) (pos 100) (a_record ∷ []) ≢ []
unfolding program
ttl_found = λ e. cc

query_cleared : check_msg true query_tc false ≡ Checked.good (cleared true query_tc) none 5
unfolding program
query_cleared = refl

short_query_fails : dns_check_query (take 16 query_ab) false ≡ Checked.bad (take 16 query_ab)
unfolding program
short_query_fails = refl

check_msg_sound_example :
    (cleared true query_tc ≡ cleared true query_tc)
    × HasQuestion (cleared true query_tc) 5
    × (header_qr (cleared true query_tc) ≡ qr_query)
    × (question_name false (take 5 (drop header_size (cleared true query_tc))) ≡ some none)
check_msg_sound_example = check_msg_sound true false query_tc query_cleared

check_msg-HasQuestion_example :
    check_msg true query_ab true
    ≡ by_name (cleared true query_ab) 5 true (decode_name (take 5 (drop 12 query_ab)))
check_msg-HasQuestion_example = check_msg-HasQuestion true true query_ab 5 query_ab-HasQuestion refl

dns_truncate-dns_check_reply_example :
    (out : Bytes) × (dns_truncate reply_ab ≡ some (msg_minlen 5, out))
    × (length out ≡ msg_minlen 5)
    × (header_tc out ≡ 1)
    × (get_records_count out ≡ 0)
    × (dns_get_id out ≡ dns_get_id reply_ab)
    × (header_qr out ≡ qr_reply)
    × (drop 12 out ≡ take 9 (drop 12 reply_ab))
    × (dns_check_reply out false ≡ CheckedReply.good (set_ra 1 out) none 5 (msg_minlen 5))
dns_truncate-dns_check_reply_example = dns_truncate-dns_check_reply reply_ab 5 reply_ab-HasQuestion

dns_make_reply-dns_check_reply_example :
    let out = dns_make_reply query_ab 5 (rr_bytes (a_record ∷ [])) 1 in
    IsReply out 5 (a_record ∷ [])
    × (dns_is_good out ≡ true)
    × (dns_get_id out ≡ dns_get_id query_ab)
    × (dns_check_reply out false ≡ CheckedReply.good (stripped out) none 5 (length out))
dns_make_reply-dns_check_reply_example =
    dns_make_reply-dns_check_reply query_ab 5 (a_record ∷ []) query_ab-HasQuestion refl
      (a_record-IsRr, tt) (omega arith) (omega arith)
