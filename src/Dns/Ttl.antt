-- ===== src/Dns/Ttl.antt =====
-- TTLs of a message's records (src/dns.c): the callbacks `get_ttl` and `update_ttl`, and
-- `dns_get_ttl` and `dns_update_ttl`. An i32 is the integer that it stands for; the field in the
-- record is its bit pattern.
pub mod Records
pub mod Least
pub mod Cache
use chinadns_ng.Prelude.{
  ℕ, ◌+◌, Bool, true, false, not, ◌&&◌, ◌||◌, Option, none, some, ◌++◌, ltb, leb, ◌==◌,
  if◌then◌else◌, length, take, drop,
}
use chinadns_ng.Prelude.Words.{Bytes}
use chinadns_ng.Prelude.Int.{ℤ, pos, negsuc, ◌+ℤ◌, ltb_ℤ, max_ℤ, signed32, word32, to_i32}
use chinadns_ng.Dns.Header.{type_opt, msg_minlen, dns_is_good, get_records_count}
use chinadns_ng.Dns.Record.{Visit, Walked, record_rtype, record_rttl, foreach_record}

-- `struct get_ttl_ud`
pub record GetTtlUd : Type 0 where
  pub min_ttl : ℤ
  pub max_ttl : ℤ
  pub ttl : ℤ
  pub nodata : Bool

abbrev pub zero_ℤ : ℤ
zero_ℤ = pos 0

-- `-1`
abbrev pub failed_ttl : ℤ
failed_ttl = negsuc 0

abbrev pub too_low : ℤ → ℤ → Bool
too_low min_ttl ttl = ltb_ℤ zero_ℤ min_ttl && ltb_ℤ ttl min_ttl

abbrev pub too_high : ℤ → ℤ → Bool
too_high max_ttl ttl = ltb_ℤ zero_ℤ max_ttl && ltb_ℤ max_ttl ttl

-- The end of `get_ttl`: the result so far.
unfoldable pub note_ttl : GetTtlUd → ℤ → GetTtlUd
note_ttl u ttl = if u.nodata || ltb_ℤ ttl u.ttl then record u { ttl = ttl; nodata = false } else u

unfoldable pub get_ttl : Bytes → GetTtlUd → Visit GetTtlUd
get_ttl record' u =
    let ttl = signed32 (record_rttl record') in
    let low = too_low u.min_ttl ttl in
    let raised = if low then u.min_ttl else ttl in
    let high = too_high u.max_ttl raised in
    let clamped = if high then u.max_ttl else raised in
    if not (record_rtype record' == type_opt)
    then record {
      result = true;
      new_ttl = if low || high then some (word32 clamped) else none;
      is_break = false;
      ud = note_ttl u clamped;
    }
    else record { result = true; new_ttl = none; is_break = false; ud = u }

-- The user data is the change; the sum is computed at 64 bits and cut to an i32.
unfoldable pub update_ttl : Bytes → ℤ → Visit ℤ
update_ttl record' ud =
    let ttl = to_i32 (signed32 (record_rttl record') +ℤ ud) in
    if not (record_rtype record' == type_opt)
    then record {
      result = true;
      new_ttl = some (word32 (max_ℤ ttl (pos 1)));
      is_break = false;
      ud = ud;
    }
    else record { result = true; new_ttl = none; is_break = false; ud = ud }

-- The message behind a walk that began at its records.
abbrev pub walked_msg : {S : Type 0} → Bytes → ℕ → Walked S → Bytes
walked_msg msg qnamelen walk = take (msg_minlen qnamelen) msg ++ (walk.done ++ walk.rest)

-- The TTL, and the message with the TTLs that were overwritten.
unfoldable pub dns_get_ttl : Bytes → ℕ → ℤ → ℤ → ℤ → ℤ × Bytes
dns_get_ttl msg qnamelen nodata_ttl min_ttl max_ttl =
    let ud : GetTtlUd = record {
      min_ttl = min_ttl;
      max_ttl = max_ttl;
      ttl = nodata_ttl;
      nodata = true;
    } in
    let walk = foreach_record get_ttl (get_records_count msg) (drop (msg_minlen qnamelen) msg) ud in
    if not (dns_is_good msg)
    then (failed_ttl, msg)
    else (if walk.result then walk.ud.ttl else failed_ttl, walked_msg msg qnamelen walk)

-- `none` is a failed assertion, on the walk or on `len == 0` behind it.
unfoldable pub dns_update_ttl : Bytes → ℕ → ℤ → Option Bytes
dns_update_ttl msg qnamelen ttl_change =
    let walk =
      foreach_record update_ttl (get_records_count msg) (drop (msg_minlen qnamelen) msg)
        ttl_change in
    if walk.result && leb (msg_minlen qnamelen) (length msg) && length walk.rest == 0
    then some (walked_msg msg qnamelen walk)
    else none
