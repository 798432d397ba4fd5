-- ===== src/Dns/Ttl/Cache.antt =====
-- `dns_get_ttl` and `dns_update_ttl` of src/dns.c on replies that `dns_check_reply` accepted, as the
-- cache uses them.
use mathlib.Core.Path.{ap₂}
use chinadns_ng.Prelude.{
  ℕ, suc, ◌+◌, ◌<◌, ◌≡◌, ◌≢◌, refl, sym, ap, ◌∙◌, Bool, true, Option, some, List, [], ◌∷◌, ◌++◌,
  map, arith, length, take, drop, All, length-append, drop-append, length-take, length-drop, le→leb,
  ◌>>=◌, get_or-append, get_or-take, append-nil,
}
use chinadns_ng.Prelude.Words.{Bytes}
use chinadns_ng.Prelude.Int.{ℤ, pos, ◌≤ℤ◌}
use chinadns_ng.Dns.Header.{msg_minlen, dns_is_good, get_records_count}
use chinadns_ng.Dns.Record.{foreach_record, Visit}
use chinadns_ng.Dns.Record.Grammar.{Rr, IsRr, rr_bytes}
use chinadns_ng.Dns.Record.Walk.{visit_all, foreach_record-rr_bytes}
use chinadns_ng.Dns.Check.{CheckedReply, dns_check_reply}
use chinadns_ng.Dns.Check.Reply.{IsReply, dns_check_reply-IsKept}
use chinadns_ng.Dns.Ttl.{GetTtlUd, get_ttl, update_ttl, dns_get_ttl, dns_update_ttl}
use chinadns_ng.Dns.Ttl.Records.{aged, aged-IsRr, length-aged, visit_all-update_ttl}
use chinadns_ng.Dns.Ttl.Least.{
  held, held-IsRr, length-held, ttls, ttls_bounds, least_or_bounds, least_or, visit_all-get_ttl,
}

-- A reply whose records are replaced, the header and the question kept.
abbrev pub with_records : Bytes → ℕ → List Rr → Bytes
with_records msg n rs = take (msg_minlen n) msg ++ rr_bytes rs

-- A rewriting of records that keeps them well-formed and keeps their size.
abbrev KeepsShape : (Rr → Rr) → Type 0
KeepsShape g =
    (r : Rr)
    → IsRr r
    → IsRr (g r) × (length (g r).name + length (g r).body ≡ length r.name + length r.body)

All-map_rr : (g : Rr → Rr) (rs : List Rr) → KeepsShape g → All IsRr rs → All IsRr (map g rs)
All-map_rr g [] k v = tt
All-map_rr g (r ∷ rs) k v = ((k r v.0).0, All-map_rr g rs k v.1)

length-rr_bytes-map :
    (g : Rr → Rr) (rs : List Rr)
    → KeepsShape g
    → All IsRr rs
    → length (rr_bytes (map g rs)) ≡ length (rr_bytes rs)
length-rr_bytes-map g [] k v = refl
length-rr_bytes-map g (r ∷ rs) k v = omega (
  arith,
  length-append (g r).name ((g r).body ++ rr_bytes (map g rs)),
  length-append (g r).body (rr_bytes (map g rs)),
  length-append r.name (r.body ++ rr_bytes rs),
  length-append r.body (rr_bytes rs),
  length-rr_bytes-map g rs k v.1,
  (k r v.0).1,
)

length-map_rr : (g : Rr → Rr) (rs : List Rr) → length (map g rs) ≡ length rs
length-map_rr g [] = refl
length-map_rr g (r ∷ rs) = ap suc (length-map_rr g rs)

length-with_records :
    (g : Rr → Rr) (msg : Bytes) (n : ℕ) (rs : List Rr)
    → KeepsShape g
    → IsReply msg n rs
    → length (with_records msg n (map g rs)) ≡ length msg
length-with_records g msg n rs k reply =
    let ml : ℕ = msg_minlen n in
    let (len, v, e) = reply.found in
    omega (
      arith,
      length-append (take ml msg) (rr_bytes (map g rs)),
      length-rr_bytes-map g rs k v,
      ap length e,
      length-append (rr_bytes rs) [],
      length-drop ml msg,
      length-take ml msg,
      reply.fits,
    )

-- Rewriting the records of a reply gives a reply.
map-IsReply :
    (g : Rr → Rr) (msg : Bytes) (n : ℕ) (rs : List Rr)
    → KeepsShape g
    → IsReply msg n rs
    → IsReply (with_records msg n (map g rs)) n (map g rs)
unfolding get_records_count
map-IsReply g msg n rs k reply =
    let ml : ℕ = msg_minlen n in
    let (len, v, e) = reply.found in
    let front : length (take ml msg) ≡ ml = omega (arith, length-take ml msg, reply.fits) in
    let size = length-with_records g msg n rs k reply in
    let at = λ (i : ℕ) (lt : i < ml).
      get_or-append (take ml msg) (rr_bytes (map g rs)) i 0 (omega (arith, front))
      ∙ get_or-take ml i msg 0 lt in
    let counts : get_records_count (with_records msg n (map g rs)) ≡ get_records_count msg = omega (
      arith,
      at 6 (omega arith),
      at 7 (omega arith),
      at 8 (omega arith),
      at 9 (omega arith),
      at 10 (omega arith),
      at 11 (omega arith),
    ) in
    record {
      fits = omega (arith, size, reply.fits);
      size_max = omega (arith, size, reply.size_max);
      found = (
        length-map_rr g rs ∙ len ∙ sym counts,
        All-map_rr g rs k v,
        drop-append (take ml msg) (rr_bytes (map g rs)) ml front ∙ sym (append-nil _),
      );
    }

-- A walk over a reply is the fold over its records.
walk_reply :
    {S : Type 0} (f : Bytes → S → Visit S) (msg : Bytes) (n : ℕ) (rs : List Rr) (ud : S)
    → IsReply msg n rs
    → foreach_record f (get_records_count msg) (drop (msg_minlen n) msg) ud ≡ visit_all f rs ud []
walk_reply f msg n rs ud reply =
    let (len, v, e) = reply.found in
    ap₂ (λ k t. foreach_record f k t ud) (sym len) e ∙ foreach_record-rr_bytes f rs ud [] v

aged-KeepsShape : (change : ℤ) → KeepsShape (aged change)
unfolding aged
aged-KeepsShape change r w =
    (aged-IsRr change r w, ap (λ k. length r.name + k) (length-aged change r w))

held-KeepsShape : (lo hi : ℤ) → KeepsShape (held lo hi)
unfolding held
held-KeepsShape lo hi r w =
    (held-IsRr lo hi r w, ap (λ k. length r.name + k) (length-held lo hi r w))

-- On a reply the assertions of `dns_update_ttl` hold, every TTL but an OPT record's becomes the old
-- TTL plus the change, at least 1, nothing else changes, and the result is a reply again.
pub dns_update_ttl-IsReply :
    (msg : Bytes) (n : ℕ) (rs : List Rr) (change : ℤ)
    → IsReply msg n rs
    → (dns_update_ttl msg n change ≡ some (with_records msg n (map (aged change) rs)))
      × IsReply (with_records msg n (map (aged change) rs)) n (map (aged change) rs)
unfolding dns_update_ttl
dns_update_ttl-IsReply msg n rs change reply = (
  rw
      (
        walk_reply update_ttl msg n rs change reply,
        visit_all-update_ttl change rs [],
        le→leb (msg_minlen n) (length msg) reply.fits,
      )
      (ap (λ t. some (take (msg_minlen n) msg ++ t))
        (append-nil (rr_bytes (map (aged change) rs)))),
  map-IsReply (aged change) msg n rs (aged-KeepsShape change) reply,
)

pub dns_get_ttl-IsReply :
    (msg : Bytes) (n : ℕ) (rs : List Rr) (nodata_ttl min_ttl max_ttl : ℤ)
    → IsReply msg n rs
    → dns_is_good msg ≡ true
    → (dns_get_ttl msg n nodata_ttl min_ttl max_ttl ≡ (
      least_or nodata_ttl (ttls min_ttl max_ttl rs),
      with_records msg n (map (held min_ttl max_ttl) rs),
    ))
      × IsReply
          (with_records msg n (map (held min_ttl max_ttl) rs))
          n
          (map (held min_ttl max_ttl) rs)
unfolding dns_get_ttl
dns_get_ttl-IsReply msg n rs nodata_ttl min_ttl max_ttl reply good =
    let u : GetTtlUd = record {
      min_ttl = min_ttl;
      max_ttl = max_ttl;
      ttl = nodata_ttl;
      nodata = true;
    } in
    let (ok, done, rest, ttl) = visit_all-get_ttl rs u [] in
    (
      rw (good, walk_reply get_ttl msg n rs u reply, ok, done, rest, ttl)
          (ap (λ t. (least_or nodata_ttl (ttls min_ttl max_ttl rs), take (msg_minlen n) msg ++ t))
            (append-nil (rr_bytes (map (held min_ttl max_ttl) rs)))),
      map-IsReply (held min_ttl max_ttl) msg n rs (held-KeepsShape min_ttl max_ttl) reply,
    )

-- With 1 ≤ min_ttl ≤ max_ttl, the TTL of a good reply that has a record other than OPT lies between
-- the limits, and is no larger than any of the clamped TTLs.
dns_get_ttl_bounds :
    (msg : Bytes) (n : ℕ) (rs : List Rr) (nodata_ttl min_ttl max_ttl : ℤ)
    → IsReply msg n rs
    → dns_is_good msg ≡ true
    → pos 1 ≤ℤ min_ttl
    → min_ttl ≤ℤ max_ttl
    → ttls min_ttl max_ttl rs ≢ []
    → let ttl = (dns_get_ttl msg n nodata_ttl min_ttl max_ttl).0 in
      (min_ttl ≤ℤ ttl) × (ttl ≤ℤ max_ttl) × All (λ t. ttl ≤ℤ t) (ttls min_ttl max_ttl rs)
dns_get_ttl_bounds msg n rs nodata_ttl min_ttl max_ttl reply good lo hi some_ttl =
    let e = (dns_get_ttl-IsReply msg n rs nodata_ttl min_ttl max_ttl reply good).0 in
    rw e (
      least_or_bounds nodata_ttl min_ttl max_ttl (ttls min_ttl max_ttl rs) some_ttl
        (ttls_bounds min_ttl max_ttl rs lo hi))

-- One `dns_update_ttl` after another, as the cache ages an answer each time it is used.
pub age_all : ℕ → List ℤ → Bytes → Option Bytes
age_all n [] msg = some msg
age_all n (change ∷ changes) msg = do
  aged_msg ← dns_update_ttl msg n change
  age_all n changes aged_msg

age_all-IsReply :
    (n : ℕ) (changes : List ℤ) (msg : Bytes) (rs : List Rr)
    → IsReply msg n rs
    → (aged_msg : Bytes) × (age_all n changes msg ≡ some aged_msg) × (length aged_msg ≡ length msg)
unfolding age_all
age_all-IsReply n [] msg rs reply = (msg, refl, refl)
age_all-IsReply n (change ∷ changes) msg rs reply =
    let (e, next) = dns_update_ttl-IsReply msg n rs change reply in
    let (aged_msg, more, size) =
      age_all-IsReply n changes (with_records msg n (map (aged change) rs)) (map (aged change) rs)
        next in
    (
      aged_msg,
      rw e more,
      size ∙ length-with_records (aged change) msg n rs (aged-KeepsShape change) reply,
    )

-- A reply that `dns_check_reply` accepted and that is good (a good rcode, tc clear), cut to its new
-- length, can be aged any number of times: the assertions of `dns_update_ttl` hold, and its length
-- stays.
pub dns_update_ttl-dns_check_reply :
    (msg : Bytes) (want_name : Bool) {msg' : Bytes} {name : Option Bytes} {n newlen : ℕ}
    (changes : List ℤ)
    → dns_check_reply msg want_name ≡ CheckedReply.good msg' name n newlen
    → dns_is_good msg' ≡ true
    → (aged_msg : Bytes) × (age_all n changes (take newlen msg') ≡ some aged_msg)
      × (length aged_msg ≡ newlen)
dns_update_ttl-dns_check_reply msg want_name {msg'} {n = n} {newlen} changes h good =
    let (le, same, _, _, (rs, reply)) = dns_check_reply-IsKept msg want_name h good in
    let (aged_msg, e, size) = age_all-IsReply n changes (take newlen msg') rs reply in
    (aged_msg, e, omega (arith, size, length-take newlen msg', le, same))
