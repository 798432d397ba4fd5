-- ===== src/Dns/Ttl/Records.antt =====
-- The TTL callbacks of src/dns.c on well-formed records: what each record becomes.
use mathlib.Core.Path.{ap₂}
use chinadns_ng.Prelude.{
  ℕ, ◌+◌, ◌*◌, ◌^◌, ◌≤◌, ◌<◌, ◌≡◌, refl, sym, ap, ◌∙◌, true, false, List, [], ◌∷◌, ◌++◌, map, arith,
  ◌==◌, if◌then◌else◌, length, take, drop, length-append, append_assoc, length-take, length-drop,
  Bool-cases, inl, inr, get_or-append_right, get_or-append, get_or-drop, get_or-take,
}
use chinadns_ng.Prelude.Words.{Bytes, byte, be32_bytes}
use chinadns_ng.Prelude.Int.{ℤ, pos, ◌+ℤ◌, max_ℤ, signed32, word32, to_i32}
use chinadns_ng.Dns.Header.{record_size, type_opt}
use chinadns_ng.Dns.Record.{record_rtype, record_rttl, record_rdatalen, set_rttl, store_ttl}
use chinadns_ng.Dns.Record.Grammar.{Rr, IsRr, rr_bytes}
use chinadns_ng.Dns.Record.Walk.{visit_all, visit_all-next}
use chinadns_ng.Dns.Ttl.{update_ttl}

pub length-set_rttl : (v : ℕ) (b : Bytes) → 8 ≤ length b → length (set_rttl v b) ≡ length b
unfolding set_rttl
length-set_rttl v b h =
    omega
      (arith, length-append (take 4 b) (be32_bytes v ++ drop 8 b), length-take 4 b, length-drop 8 b)

-- The bytes in front of the TTL and behind it stay.
byte-set_rttl_before :
    (v : ℕ) (b : Bytes) (i : ℕ) → 4 ≤ length b → i < 4 → byte (set_rttl v b) i ≡ byte b i
unfolding set_rttl
byte-set_rttl_before v b i h lt =
    get_or-append (take 4 b) (be32_bytes v ++ drop 8 b) i 0 (omega (arith, length-take 4 b))
    ∙ get_or-take 4 i b 0 lt

byte-set_rttl_behind :
    (v : ℕ) (b : Bytes) (i : ℕ) → 4 ≤ length b → byte (set_rttl v b) (8 + i) ≡ byte b (8 + i)
unfolding set_rttl
byte-set_rttl_behind v b i h =
    let e : 8 + i ≡ 4 + (4 + i) = omega arith in
    rw e (
      get_or-append_right (take 4 b) (be32_bytes v ++ drop 8 b) (4 + i) 4 0
        (omega (arith, length-take 4 b))
      ∙ get_or-append_right (be32_bytes v) (drop 8 b) i 4 0 refl
      ∙ get_or-drop 8 i b 0
      ∙ ap (byte b) e)

pub rttl-set_rttl : (v : ℕ) (b : Bytes) → 4 ≤ length b → v < 2 ^ 32 → record_rttl (set_rttl v b) ≡ v
unfolding set_rttl
rttl-set_rttl v b h lt =
    let at = λ (i : ℕ).
      get_or-append_right (take 4 b) (be32_bytes v ++ drop 8 b) i 4 0
        (omega (arith, length-take 4 b)) in
    omega (arith, at 0, at 1, at 2, at 3)

-- A record whose TTL was overwritten, or left alone, is as well-formed as it was.
pub same_shape :
    (v : ℕ) (r : Rr) → IsRr r → IsRr (record { name = r.name; body = set_rttl v r.body })
same_shape v r w =
    let long : record_size ≤ length r.body = omega (arith, w.sized) in
    let datalen : record_rdatalen (set_rttl v r.body) ≡ record_rdatalen r.body =
      ap₂ (λ a b. a * 256 + b) (byte-set_rttl_behind v r.body 0 (omega arith))
        (byte-set_rttl_behind v r.body 1 (omega arith)) in
    record {
      is_name = w.is_name;
      sized =
          length-set_rttl v r.body (omega arith)
          ∙ w.sized
          ∙ ap (λ k. record_size + k) (sym datalen);
    }

-- What `update_ttl` makes of a record: unless it is an OPT record, its TTL plus the change, at
-- least 1.
abbrev pub aged_ttl : ℤ → Bytes → ℤ
aged_ttl change b = max_ℤ (to_i32 (signed32 (record_rttl b) +ℤ change)) (pos 1)

unfoldable pub aged : ℤ → Rr → Rr
aged change r = record {
  name = r.name;
  body =
      if record_rtype r.body == type_opt
      then r.body
      else set_rttl (word32 (aged_ttl change r.body)) r.body;
}

pub aged-IsRr : (change : ℤ) (r : Rr) → IsRr r → IsRr (aged change r)
unfolding aged
aged-IsRr change r w = elim (Bool-cases (record_rtype r.body == type_opt)) [
  | inl opt ↦ rw opt w
  | inr other ↦ rw other (same_shape (word32 (aged_ttl change r.body)) r w)
]

pub length-aged : (change : ℤ) (r : Rr) → IsRr r → length (aged change r).body ≡ length r.body
unfolding aged
length-aged change r w = elim (Bool-cases (record_rtype r.body == type_opt)) [
  | inl opt ↦ rw opt
  | inr other ↦
      rw other (length-set_rttl (word32 (aged_ttl change r.body)) r.body (omega (arith, w.sized)))
]

update_ttl_lem :
    (change : ℤ) (r : Rr)
    → let visit = update_ttl r.body change in
      (visit.result ≡ true)
      × (visit.is_break ≡ false)
      × (visit.ud ≡ change)
      × (store_ttl visit.new_ttl r.body ≡ (aged change r).body)
unfolding update_ttl store_ttl aged
update_ttl_lem change r = elim (Bool-cases (record_rtype r.body == type_opt)) [
  | inl opt ↦ rw opt (refl, refl, refl, refl)
  | inr other ↦ rw other (refl, refl, refl, refl)
]

-- `update_ttl` over all records.
pub visit_all-update_ttl :
    (change : ℤ) (rs : List Rr) (tail : Bytes)
    → visit_all update_ttl rs change tail
      ≡ record { result = true; done = rr_bytes (map (aged change) rs); rest = tail; ud = change }
unfolding visit_all aged
visit_all-update_ttl change [] tail = refl
visit_all-update_ttl change (r ∷ rs) tail =
    let (ok, go, same, body) = update_ttl_lem change r in
    visit_all-next update_ttl r rs change tail ok go
    ∙ rw (same, body, visit_all-update_ttl change rs tail)
        (ap (λ d. record { result = true; done = d; rest = tail; ud = change })
          (append_assoc r.name (aged change r).body (rr_bytes (map (aged change) rs))))
