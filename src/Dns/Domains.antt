-- ===== src/Dns/Domains.antt =====
-- `dns_qname_domains` of src/dns.c: the parent domains of the name asked for, by level. A pointer
-- into the name is the bytes from it up to `qname_end`.
pub mod Masks
pub mod Levels
use chinadns_ng.Prelude.{
  ℕ, zero, suc, ◌+◌, ◌-◌, ◌/◌, ◌%◌, ◌^◌, Bool, true, false, not, ◌&&◌, Option, none, some, List, [],
  ◌∷◌, ltb, leb, ◌==◌, if◌then◌else◌, length, take, drop,
}
use chinadns_ng.Prelude.Words.{Bytes, byte}
use chinadns_ng.Dns.Header.{header_size, label_maxlen}

-- The first loop, from `p_label` on: the levels that it adds to `qname_level`. `none` is the result
-- -1. Each round takes a byte at least, so the number of bytes is fuel enough.
unfoldable pub count_levels : ℕ → Bytes → Option ℕ
count_levels fuel [] = none
count_levels zero (label_len ∷ p_label) = none
count_levels (suc fuel) (label_len ∷ p_label) =
    let next = count_levels fuel (drop label_len p_label) in
    if label_len == 0
    then some 0
    else if leb label_len label_maxlen
    then elim next [ none ↦ none | some level ↦ some (1 + level) ]
    else none

-- `interest_levels & (1 << (level - 1))`
abbrev pub is_interest : ℕ → ℕ → Bool
is_interest interest_levels level = interest_levels / 2 ^ (level - 1) % 2 == 1

-- `__builtin_ctz(v)` of a u8 that is not 0; the fuel is its width.
unfoldable pub ctz : ℕ → ℕ → ℕ
ctz zero v = 0
ctz (suc fuel) v = let rest = ctz fuel (v / 2) in if v % 2 == 1 then 0 else 1 + rest

-- The second loop, which counts `qname_level` down.
unfoldable pub collect_domains : ℕ → ℕ → Bytes → List Bytes
collect_domains interest_levels zero p_label = []
collect_domains interest_levels (suc level) p_label =
    let rest = collect_domains interest_levels level (drop (1 + byte p_label 0) p_label) in
    if leb (suc level) 8 && is_interest interest_levels (suc level) then p_label ∷ rest else rest

-- `-1`, `0` without a domain end, or the domains with the offset of their end in the name.
pub data QnameDomains : Type 0 where
  malformed : QnameDomains
  too_shallow : QnameDomains
  domains : List Bytes → ℕ → QnameDomains

-- Behind the first loop.
unfoldable pub select_domains : ℕ → Bytes → ℕ → QnameDomains
select_domains interest_levels qname level =
    if ltb level (ctz 8 interest_levels + 1)
    then too_shallow
    else domains (collect_domains interest_levels level qname) (length qname - 1)

-- `interest_levels` is asserted not to be 0; the outer `none` is that assertion, which the code
-- makes behind the first loop.
unfoldable pub dns_qname_domains : Bytes → ℕ → ℕ → Option QnameDomains
dns_qname_domains msg qnamelen interest_levels =
    let qname = take qnamelen (drop header_size msg) in
    elim (count_levels qnamelen qname) [
      | none ↦ some malformed
      | some level ↦
          if interest_levels == 0 then none else some (select_domains interest_levels qname level)
    ]
