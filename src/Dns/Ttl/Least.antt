-- ===== src/Dns/Ttl/Least.antt =====
-- `get_ttl` of src/dns.c over well-formed records: the least TTL after clamping, and the records
-- with the TTLs that were out of range overwritten.
use mathlib.Core.Path.{ap₂}
use chinadns_ng.Prelude.{
  ℕ, ◌≡◌, refl, ◌∙◌, Bool, true, false, ◌||◌, none, some, List, [], ◌∷◌, map, arith, ◌==◌,
  if◌then◌else◌, All, length, ◌≢◌, append_assoc, Bool-cases, inl, inr,
}
use chinadns_ng.Prelude.Words.{Bytes}
use chinadns_ng.Prelude.Int.{ℤ, pos, ◌≤ℤ◌, ltb_ℤ, signed32, word32}
use chinadns_ng.Dns.Header.{type_opt}
use chinadns_ng.Dns.Record.{Walked, record_rtype, record_rttl, store_ttl, set_rttl}
use chinadns_ng.Dns.Record.Grammar.{Rr, IsRr, rr_bytes}
use chinadns_ng.Dns.Record.Walk.{visit_all, visit_all-at}
use chinadns_ng.Dns.Ttl.{GetTtlUd, get_ttl, note_ttl, too_low, too_high}
use chinadns_ng.Dns.Ttl.Records.{same_shape, length-set_rttl}

-- A TTL raised to the minimum and lowered to the maximum, each where it is set.
abbrev pub clamped : ℤ → ℤ → ℤ → ℤ
clamped min_ttl max_ttl ttl =
    let raised = if too_low min_ttl ttl then min_ttl else ttl in
    if too_high max_ttl raised then max_ttl else raised

abbrev pub rr_ttl : Rr → ℤ
rr_ttl r = signed32 (record_rttl r.body)

abbrev pub is_opt : Rr → Bool
is_opt r = record_rtype r.body == type_opt

abbrev pub is_out : ℤ → ℤ → Rr → Bool
is_out min_ttl max_ttl r =
    too_low min_ttl (rr_ttl r)
    || too_high max_ttl (if too_low min_ttl (rr_ttl r) then min_ttl else rr_ttl r)

-- The record as `get_ttl` leaves it.
unfoldable pub held : ℤ → ℤ → Rr → Rr
held min_ttl max_ttl r = record {
  name = r.name;
  body =
      if is_opt r
      then r.body
      else if is_out min_ttl max_ttl r
      then set_rttl (word32 (clamped min_ttl max_ttl (rr_ttl r))) r.body
      else r.body;
}

-- The clamped TTLs of the records that are not OPT.
unfoldable pub ttls : ℤ → ℤ → List Rr → List ℤ
ttls min_ttl max_ttl [] = []
ttls min_ttl max_ttl (r ∷ rs) =
    if is_opt r
    then ttls min_ttl max_ttl rs
    else clamped min_ttl max_ttl (rr_ttl r) ∷ ttls min_ttl max_ttl rs

unfoldable pub least : ℤ → List ℤ → ℤ
least a [] = a
least a (t ∷ ts) = least (if ltb_ℤ t a then t else a) ts

-- The least of the TTLs, or the default where there is none.
unfoldable pub least_or : ℤ → List ℤ → ℤ
least_or d [] = d
least_or d (t ∷ ts) = least t ts

-- What the user data will hold behind the TTLs `ts`.
abbrev seen_ttl : Bool → ℤ → List ℤ → ℤ
seen_ttl true d ts = least_or d ts
seen_ttl false d ts = least d ts

pub held-IsRr : (min_ttl max_ttl : ℤ) (r : Rr) → IsRr r → IsRr (held min_ttl max_ttl r)
unfolding held
held-IsRr min_ttl max_ttl r w = elim (Bool-cases (is_opt r)) [
  | inl opt ↦ rw opt w
  | inr other ↦ elim (Bool-cases (is_out min_ttl max_ttl r)) [
    | inl out ↦ rw (other, out) (same_shape (word32 (clamped min_ttl max_ttl (rr_ttl r))) r w)
    | inr fine ↦ rw (other, fine) w
  ]
]

pub length-held :
    (min_ttl max_ttl : ℤ) (r : Rr) → IsRr r → length (held min_ttl max_ttl r).body ≡ length r.body
unfolding held
length-held min_ttl max_ttl r w = elim (Bool-cases (is_opt r)) [
  | inl opt ↦ rw opt
  | inr other ↦ elim (Bool-cases (is_out min_ttl max_ttl r)) [
    | inl out ↦
        rw (other, out)
          (length-set_rttl (word32 (clamped min_ttl max_ttl (rr_ttl r))) r.body
            (omega (arith, w.sized)))
    | inr fine ↦ rw (other, fine)
  ]
]

-- What `note_ttl` keeps and what it makes of the result so far.
note_ttl_lem :
    (u : GetTtlUd) (t : ℤ) (ts : List ℤ)
    → let u' = note_ttl u t in
      (u'.min_ttl ≡ u.min_ttl)
      × (u'.max_ttl ≡ u.max_ttl)
      × (seen_ttl u'.nodata u'.ttl ts ≡ seen_ttl u.nodata u.ttl (t ∷ ts))
unfolding note_ttl least least_or
note_ttl_lem u t ts = elim (Bool-cases u.nodata) [
  | inl n ↦ (simp n, simp n, simp n)
  | inr n ↦ elim (Bool-cases (ltb_ℤ t u.ttl)) [
    | inl lt ↦ (simp (n, lt), simp (n, lt), simp (n, lt))
    | inr ge ↦ (simp (n, ge), simp (n, ge), simp (n, ge))
  ]
]

get_ttl_opt :
    (u : GetTtlUd) (r : Rr)
    → is_opt r ≡ true
    → get_ttl r.body u ≡ record { result = true; new_ttl = none; is_break = false; ud = u }
unfolding get_ttl
get_ttl_opt u r opt = rw opt

get_ttl_other :
    (u : GetTtlUd) (r : Rr)
    → is_opt r ≡ false
    → let ttl = clamped u.min_ttl u.max_ttl (rr_ttl r) in
      get_ttl r.body u ≡ record {
        result = true;
        new_ttl = if is_out u.min_ttl u.max_ttl r then some (word32 ttl) else none;
        is_break = false;
        ud = note_ttl u ttl;
      }
unfolding get_ttl
get_ttl_other u r other = rw other

stored_ttl :
    (out : Bool) (v : ℕ) (b : Bytes)
    → store_ttl (if out then some v else none) b ≡ (if out then set_rttl v b else b)
unfolding store_ttl
stored_ttl true v b = refl
stored_ttl false v b = refl

nil_ttl : (nodata : Bool) (ttl : ℤ) → ttl ≡ seen_ttl nodata ttl []
unfolding least least_or
nil_ttl true ttl = refl
nil_ttl false ttl = refl

-- What the walk of `get_ttl` leaves: the records with their TTLs held in range, and the TTL.
abbrev pub IsHeld : List Rr → GetTtlUd → Bytes → Walked GetTtlUd → Type 0
IsHeld rs u tail walk =
    (walk.result ≡ true)
    × (walk.done ≡ rr_bytes (map (held u.min_ttl u.max_ttl) rs))
    × (walk.rest ≡ tail)
    × (walk.ud.ttl ≡ seen_ttl u.nodata u.ttl (ttls u.min_ttl u.max_ttl rs))

IsHeld-opt :
    (r : Rr) (rs : List Rr) (u : GetTtlUd) (tail : Bytes)
    → is_opt r ≡ true
    → IsHeld rs u tail (visit_all get_ttl rs u tail)
    → IsHeld (r ∷ rs) u tail (visit_all get_ttl (r ∷ rs) u tail)
unfolding held ttls
IsHeld-opt r rs u tail opt (ok, done, rest, ttl) =
    let next =
      visit_all-at get_ttl r rs u tail
        (record { result = true; new_ttl = none; is_break = false; ud = u }) (get_ttl_opt u r opt)
        refl refl in
    rw next
      (ok, rw (opt, done) (unfold store_ttl in append_assoc r.name r.body _), rest, rw opt ttl)

IsHeld-other :
    (r : Rr) (rs : List Rr) (u : GetTtlUd) (tail : Bytes)
    → is_opt r ≡ false
    → let t = clamped u.min_ttl u.max_ttl (rr_ttl r) in
      IsHeld rs (note_ttl u t) tail (visit_all get_ttl rs (note_ttl u t) tail)
      → IsHeld (r ∷ rs) u tail (visit_all get_ttl (r ∷ rs) u tail)
unfolding held ttls
IsHeld-other r rs u tail other (ok, done, rest, ttl) =
    let t : ℤ = clamped u.min_ttl u.max_ttl (rr_ttl r) in
    let out : Bool = is_out u.min_ttl u.max_ttl r in
    let next =
      visit_all-at get_ttl r rs u tail
        (record {
          result = true;
          new_ttl = if out then some (word32 t) else none;
          is_break = false;
          ud = note_ttl u t;
        })
        (get_ttl_other u r other) refl refl in
    let (low, high, seen) = note_ttl_lem u t (ttls u.min_ttl u.max_ttl rs) in
    let u' : GetTtlUd = note_ttl u t in
    let done' = done ∙ ap₂ (λ a b. rr_bytes (map (held a b) rs)) low high in
    let ttl' = ttl ∙ ap₂ (λ a b. seen_ttl u'.nodata u'.ttl (ttls a b rs)) low high ∙ seen in
    rw next (
      ok,
      rw (other, stored_ttl out (word32 t) r.body, done')
          (append_assoc r.name (if out then set_rttl (word32 t) r.body else r.body) _),
      rest,
      rw other ttl',
    )

-- `get_ttl` over all records.
pub visit_all-get_ttl :
    (rs : List Rr) (u : GetTtlUd) (tail : Bytes) → IsHeld rs u tail (visit_all get_ttl rs u tail)
unfolding visit_all
visit_all-get_ttl [] u tail = (refl, refl, refl, unfold ttls in nil_ttl u.nodata u.ttl)
visit_all-get_ttl (r ∷ rs) u tail = elim (Bool-cases (is_opt r)) [
  | inl opt ↦ IsHeld-opt r rs u tail opt (visit_all-get_ttl rs u tail)
  | inr other ↦ IsHeld-other r rs u tail other (visit_all-get_ttl rs _ tail)
]

-- The least TTL is no larger than any, and is one of them.
least-le_self : (a : ℤ) (ts : List ℤ) → least a ts ≤ℤ a
unfolding least
least-le_self a [] = omega arith
least-le_self a (t ∷ ts) = ground (arith, least-le_self t ts, least-le_self a ts)

pub least-le : (a : ℤ) (ts : List ℤ) → All (λ t. least a ts ≤ℤ t) ts
unfolding least
least-le a [] = tt
least-le a (t ∷ ts) =
    let b : ℤ = if ltb_ℤ t a then t else a in (ground (arith, least-le_self b ts), least-le b ts)

-- What holds of every TTL holds of the least: it is one of them.
pub least-All : (P : ℤ → Type 0) (a : ℤ) (ts : List ℤ) → P a → All P ts → P (least a ts)
unfolding least
least-All P a [] h v = h
least-All P a (t ∷ ts) h v = elim (Bool-cases (ltb_ℤ t a)) [
  | inl lt ↦ rw lt (least-All P t ts v.0 v.1)
  | inr ge ↦ rw ge (least-All P a ts h v.1)
]

-- With both limits set, a clamped TTL lies between them.
pub clamped_bounds :
    (lo hi t : ℤ) → pos 1 ≤ℤ lo → lo ≤ℤ hi → (lo ≤ℤ clamped lo hi t) × (clamped lo hi t ≤ℤ hi)
clamped_bounds lo hi t h k = ground arith

pub ttls_bounds :
    (lo hi : ℤ) (rs : List Rr)
    → pos 1 ≤ℤ lo
    → lo ≤ℤ hi
    → All (λ t. (lo ≤ℤ t) × (t ≤ℤ hi)) (ttls lo hi rs)
unfolding ttls
ttls_bounds lo hi [] h k = tt
ttls_bounds lo hi (r ∷ rs) h k = elim (Bool-cases (is_opt r)) [
  | inl opt ↦ rw opt (ttls_bounds lo hi rs h k)
  | inr other ↦ rw other (clamped_bounds lo hi (rr_ttl r) h k, ttls_bounds lo hi rs h k)
]

pub least_or_bounds :
    (d lo hi : ℤ) (ts : List ℤ)
    → ts ≢ []
    → All (λ t. (lo ≤ℤ t) × (t ≤ℤ hi)) ts
    → (lo ≤ℤ least_or d ts) × (least_or d ts ≤ℤ hi) × All (λ t. least_or d ts ≤ℤ t) ts
unfolding least_or
least_or_bounds d lo hi [] ne v = absurd (ne refl)
least_or_bounds d lo hi (t ∷ ts) ne v =
    let (ge, le) = least-All (λ t. (lo ≤ℤ t) × (t ≤ℤ hi)) t ts v.0 v.1 in
    (ge, le, (least-le_self t ts, least-le t ts))
