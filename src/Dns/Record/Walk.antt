-- ===== src/Dns/Record/Walk.antt =====
-- `foreach_record` of src/dns.c over the bytes of well-formed records, against a fold over the
-- records themselves.
use mathlib.Core.Path.{ap₂}
use mathlib.Core.Bool.{false≢true}
use chinadns_ng.Prelude.{
  ℕ, zero, suc, ◌+◌, ◌*◌, ◌≤◌, ◌<◌, ◌≡◌, refl, sym, ap, ◌∙◌, true, false, not, List, [], ◌∷◌, ◌++◌,
  arith, tests, ltb, if◌then◌else◌, length, take, drop, All, length-append, append_assoc,
  take-append, drop-append, take-append-drop, length-take, length-drop, le→ltb, Option-cases,
  Bool-cases, inl, inr, get_or-append,
}
use chinadns_ng.Prelude.Words.{Bytes, be16}
use chinadns_ng.Dns.Header.{record_size}
use chinadns_ng.Dns.Record.{
  skip_name, record_rdatalen, Visit, Walked, foreach_record, visit_record, after_visit, no_visit,
  skip_record, store_ttl,
}
use chinadns_ng.Dns.Record.Grammar.{IsName, Rr, IsRr, rr_bytes, skip_name-name, skip_name_sound}

module _ {S : Type 0} (f : Bytes → S → Visit S) where
  -- The callback on each record in turn, until one fails or breaks; `tail` follows the records.
  unfoldable pub visit_all : List Rr → S → Bytes → Walked S
  visit_all [] ud tail = record { result = true; done = []; rest = tail; ud = ud }
  visit_all (r ∷ rs) ud tail =
      let visit = f r.body ud in
      let seen = r.name ++ store_ttl visit.new_ttl r.body in
      let more = visit_all rs visit.ud tail in
      if not visit.result
      then record { result = false; done = seen; rest = rr_bytes rs ++ tail; ud = visit.ud }
      else if visit.is_break
      then record { result = true; done = seen; rest = rr_bytes rs ++ tail; ud = visit.ud }
      else record more { done = seen ++ more.done }

be16-append : (xs ys : Bytes) (i : ℕ) → i + 1 < length xs → be16 (xs ++ ys) i ≡ be16 xs i
be16-append xs ys i h =
    ap₂ (λ a b. a * 256 + b) (get_or-append xs ys i 0 (omega arith))
      (get_or-append xs ys (i + 1) 0 h)

visit_record-body :
    {S : Type 0} (f : Bytes → S → Visit S) (next : Bytes → S → Walked S) (name body behind : Bytes)
    (ud : S)
    → length body ≡ record_size + record_rdatalen body
    → visit_record f next name (body ++ behind) ud
      ≡ after_visit
          (f body ud)
          (name ++ store_ttl (f body ud).new_ttl body)
          behind
          (next behind (f body ud).ud)
unfolding visit_record
visit_record-body f next name body behind ud size =
    let datalen : record_rdatalen (body ++ behind) ≡ record_rdatalen body =
      be16-append body behind 8 (omega arith) in
    let n : ℕ = record_size + record_rdatalen body in
    rw (
      visit_record,
      datalen,
      le→ltb (length (body ++ behind)) n (omega (arith, length-append body behind)),
      take-append body behind n size,
      drop-append body behind n size,
    )

foreach_record-name :
    {S : Type 0} (f : Bytes → S → Visit S) (count : ℕ) (name record' : Bytes) (ud : S)
    → IsName name
    → record_size ≤ length record'
    → foreach_record f (suc count) (name ++ record') ud
      ≡ visit_record f (foreach_record f count) name record' ud
unfolding foreach_record
foreach_record-name f count name record' ud t h = rw (
  foreach_record,
  skip_name-name record' t h,
  take-append name record' (length name) refl,
  drop-append name record' (length name) refl,
)

-- The loop over the bytes of well-formed records is the fold over the records, whatever the
-- callback does and whatever follows.
pub foreach_record-rr_bytes :
    {S : Type 0} (f : Bytes → S → Visit S) (rs : List Rr) (ud : S) (tail : Bytes)
    → All IsRr rs
    → foreach_record f (length rs) (rr_bytes rs ++ tail) ud ≡ visit_all f rs ud tail
unfolding visit_all
foreach_record-rr_bytes f [] ud tail v = unfold foreach_record in refl
foreach_record-rr_bytes f (r ∷ rs) ud tail v =
    let behind : Bytes = rr_bytes rs ++ tail in
    let whole : rr_bytes (r ∷ rs) ++ tail ≡ r.name ++ (r.body ++ behind) = simp append_assoc in
    let size : length r.body ≡ record_size + record_rdatalen r.body = v.0.sized in
    let visit = f r.body ud in
    ap (λ t. foreach_record f (suc (length rs)) t ud) whole
    ∙ foreach_record-name f (length rs) r.name (r.body ++ behind) ud v.0.is_name
        (omega (arith, length-append r.body behind))
    ∙ visit_record-body f (foreach_record f (length rs)) r.name r.body behind ud size
    ∙ ap (after_visit visit (r.name ++ store_ttl visit.new_ttl r.body) behind)
        (foreach_record-rr_bytes f rs visit.ud tail v.1)
    ∙ unfold after_visit in refl

-- A callback that walks on whatever the record is.
abbrev pub NeverStops : {S : Type 0} → (Bytes → S → Visit S) → Type 0
NeverStops {S} f =
    (record' : Bytes) (ud : S) → ((f record' ud).result ≡ true) × ((f record' ud).is_break ≡ false)

after_visit-next :
    {S : Type 0} (visit : Visit S) (seen ptr : Bytes) (more : Walked S)
    → visit.result ≡ true
    → visit.is_break ≡ false
    → after_visit visit seen ptr more ≡ record more { done = seen ++ more.done }
unfolding after_visit
after_visit-next visit seen ptr more r b = rw (r, b)

-- The records found: as many as asked for, well-formed, and their bytes are what was walked over.
abbrev pub AreFound : ℕ → Bytes → Bytes → List Rr → Type 0
AreFound count ptr rest rs = (length rs ≡ count) × All IsRr rs × (ptr ≡ rr_bytes rs ++ rest)

AreFound-cons :
    (count n : ℕ) (ptr rest : Bytes) (rs : List Rr)
    → let record' = drop n ptr in
      let recordlen = record_size + record_rdatalen record' in
      IsName (take n ptr)
      → record_size ≤ length record'
      → recordlen ≤ length record'
      → AreFound count (drop recordlen record') rest rs
      → AreFound
          (suc count)
          ptr
          rest
          (record { name = take n ptr; body = take recordlen record' } ∷ rs)
AreFound-cons count n ptr rest rs t ten fits (len, v, e) =
    let record' : Bytes = drop n ptr in
    let m : ℕ = record_size + record_rdatalen record' in
    let body : Bytes = take m record' in
    let size : length body ≡ m = omega (arith, length-take m record') in
    let datalen : record_rdatalen record' ≡ record_rdatalen body =
      ap record_rdatalen (sym (take-append-drop m record'))
      ∙ be16-append body (drop m record') 8 (omega arith) in
    (
      ap suc len,
      (record { is_name = t; sized = size ∙ ap (λ k. record_size + k) datalen }, v),
      sym (take-append-drop n ptr)
          ∙ ap (λ t. take n ptr ++ t) (sym (take-append-drop m record') ∙ ap (λ t. body ++ t) e)
          ∙ simp append_assoc,
    )

-- Where a callback that never stops walks over `count` records, those are well-formed records.
pub foreach_record_sound :
    {S : Type 0} (f : Bytes → S → Visit S) (count : ℕ) (ptr : Bytes) (ud : S)
    → NeverStops f
    → (foreach_record f count ptr ud).result ≡ true
    → (rs : List Rr) × AreFound count ptr (foreach_record f count ptr ud).rest rs
unfolding foreach_record
foreach_record_sound {S} f zero ptr ud go h = ([], (refl, tt, refl))
foreach_record_sound {S} f (suc count) ptr ud go h = elim (Option-cases (skip_name ptr)) [
  | inl stop ↦ absurd (false≢true (rw (foreach_record, stop) at h))
  | inr (n, skipped) ↦
      let (t, ten) = skip_name_sound ptr skipped in
      let record' : Bytes = drop n ptr in
      let m : ℕ = record_size + record_rdatalen record' in
      let body : Bytes = take m record' in
      let seen : Bytes = take n ptr ++ store_ttl (f body ud).new_ttl body in
      let more : Walked S = foreach_record f count (drop m record') (f body ud).ud in
      elim (Bool-cases (ltb (length record') m)) [
        | inl short ↦ absurd (false≢true (rw (foreach_record, skipped, visit_record, short) at h))
        | inr fits ↦
            let on : foreach_record f (suc count) ptr ud
                ≡ record more { done = seen ++ more.done } =
              rw (foreach_record, skipped, visit_record, fits)
                (after_visit-next (f body ud) seen (drop m record') more (go body ud).0
                  (go body ud).1) in
            let (rs, found) =
              foreach_record_sound f count (drop m record') (f body ud).ud go
                (sym (ap (λ (w : Walked S). w.result) on) ∙ h) in
            (
              record { name = take n ptr; body = body } ∷ rs,
              rw on (
                  AreFound-cons count n ptr more.rest rs t (omega (arith, length-drop n ptr))
                    (omega (tests, fits)) found),
            )
      ]
]

pub skip_record_sound :
    (count : ℕ) (ptr : Bytes)
    → (skip_record count ptr).result ≡ true
    → (rs : List Rr) × AreFound count ptr (skip_record count ptr).rest rs
unfolding skip_record
skip_record_sound count ptr h =
    foreach_record_sound no_visit count ptr tt (λ record' ud. (refl, refl)) h

-- One record of the fold, where the callback walks on.
pub visit_all-next :
    {S : Type 0} (f : Bytes → S → Visit S) (r : Rr) (rs : List Rr) (ud : S) (tail : Bytes)
    → (f r.body ud).result ≡ true
    → (f r.body ud).is_break ≡ false
    → let visit = f r.body ud in
      let more = visit_all f rs visit.ud tail in
      visit_all f (r ∷ rs) ud tail
      ≡ record more { done = (r.name ++ store_ttl visit.new_ttl r.body) ++ more.done }
unfolding visit_all
visit_all-next f r rs ud tail ok go = rw (ok, go)

-- The same, for the callback's visit by another name.
pub visit_all-at :
    {S : Type 0} (f : Bytes → S → Visit S) (r : Rr) (rs : List Rr) (ud : S) (tail : Bytes)
    (visit : Visit S)
    → f r.body ud ≡ visit
    → visit.result ≡ true
    → visit.is_break ≡ false
    → let more = visit_all f rs visit.ud tail in
      visit_all f (r ∷ rs) ud tail
      ≡ record more { done = (r.name ++ store_ttl visit.new_ttl r.body) ++ more.done }
unfolding visit_all
visit_all-at f r rs ud tail visit e ok go = rw e (rw (ok, go))

visit_all-no_visit :
    (rs : List Rr) (tail : Bytes)
    → ((visit_all no_visit rs tt tail).result ≡ true)
      × ((visit_all no_visit rs tt tail).rest ≡ tail)
unfolding visit_all
visit_all-no_visit [] tail = (refl, refl)
visit_all-no_visit (r ∷ rs) tail = visit_all-no_visit rs tail

-- Well-formed records are skipped, and what follows them is left.
pub skip_record-rr_bytes :
    (rs : List Rr) (tail : Bytes)
    → All IsRr rs
    → ((skip_record (length rs) (rr_bytes rs ++ tail)).result ≡ true)
      × ((skip_record (length rs) (rr_bytes rs ++ tail)).rest ≡ tail)
unfolding skip_record
skip_record-rr_bytes rs tail v =
    rw (foreach_record-rr_bytes no_visit rs tt tail v) (visit_all-no_visit rs tail)
