-- ===== src/Dns/Record/Grammar.antt =====
-- The wire format of resource records, stated apart from the code: a name is labels that end in a
-- null label or a compression pointer, and a record is such a name, ten fixed bytes and as many
-- bytes of data as these say. Then `skip_name` of src/dns.c against these names.
use mathlib.Core.Path.{ap₂}
use mathlib.Core.Option.{some-injective}
use chinadns_ng.Prelude.{
  ℕ, zero, suc, ◌+◌, ◌≤◌, ◌≡◌, ◌↔◌, refl, sym, ap, ◌∙◌, some, List, [], ◌∷◌, ◌++◌, arith, tests,
  ltb, leb, ◌==◌, length, take, drop, length-append, append_assoc, drop-append, length-take,
  length-drop, le→ltb, le→leb, lt→leb, ==_ne, ==_iff, Option-cases, Bool-cases, inl, inr, subst,
  take_add, take-append-drop, none_ne, leb→le,
}
use chinadns_ng.Prelude.Words.{Bytes}
use chinadns_ng.Dns.Header.{record_size, label_maxlen, ptr_minval}
use chinadns_ng.Dns.Name.Labels.{IsLabel}
use chinadns_ng.Dns.Record.{skip_labels, skip_name, record_rdatalen}

pub data IsName : Bytes → Type 0 where
  null : IsName (0 ∷ [])
  pointer : {b : ℕ} (c : ℕ) → ptr_minval ≤ b → IsName (b ∷ c ∷ [])
  label : {name : Bytes} (l : Bytes) → IsLabel l → IsName name → IsName (length l ∷ l ++ name)

pub record Rr : Type 0 where
  pub name : Bytes
  pub body : Bytes

pub record IsRr (r : Rr) : Type 0 where
  pub is_name : IsName r.name
  pub sized : length r.body ≡ record_size + record_rdatalen r.body

-- The bytes of a run of records.
abbrev pub rr_bytes : List Rr → Bytes
rr_bytes [] = []
rr_bytes (r ∷ rs) = r.name ++ (r.body ++ rr_bytes rs)

skip_labels-name :
    (fuel : ℕ) {name : Bytes} (tail : Bytes)
    → IsName name
    → length name ≤ fuel
    → skip_labels fuel (name ++ tail) ≡ some (length name)
unfolding skip_labels
skip_labels-name zero tail null h = absurd (omega arith)
skip_labels-name zero tail (pointer c b) h = absurd (omega arith)
skip_labels-name zero tail (label l v t) h = absurd (omega arith)
skip_labels-name (suc fuel) tail null h = refl
skip_labels-name (suc fuel) tail (pointer c b) h = ground arith
skip_labels-name (suc fuel) tail (label {name} l v t) h =
    let behind : drop (length l) ((l ++ name) ++ tail) ≡ name ++ tail =
      ap (drop (length l)) (append_assoc l name tail)
      ∙ drop-append l (name ++ tail) (length l) refl in
    let ih = skip_labels-name fuel tail t (omega (arith, length-append l name)) in
    rw
      (
        ==_ne (length l) 0 (omega arith),
        lt→leb ptr_minval (length l) (omega arith),
        le→leb (length l) label_maxlen v.1,
        behind,
        ih,
      )
      (ap some (omega (arith, length-append l name)))

IsName-ne_nil : {name : Bytes} → IsName name → 1 ≤ length name
IsName-ne_nil null = omega arith
IsName-ne_nil (pointer c b) = omega arith
IsName-ne_nil (label l v t) = omega arith

-- A well-formed name with at least ten bytes behind it is skipped whole.
pub skip_name-name :
    {name : Bytes} (tail : Bytes)
    → IsName name
    → record_size ≤ length tail
    → skip_name (name ++ tail) ≡ some (length name)
unfolding skip_name
skip_name-name {name} tail t h = rw (
  skip_name,
  skip_labels-name (length (name ++ tail)) tail t (omega (arith, length-append name tail)),
  le→ltb (length (name ++ tail)) (length name + record_size)
      (omega (arith, length-append name tail)),
)

pointer-IsName :
    (b : ℕ) (ptr : Bytes) → ptr_minval ≤ b → 2 ≤ length (b ∷ ptr) → IsName (take 2 (b ∷ ptr))
pointer-IsName b [] p h = absurd (omega arith)
pointer-IsName b (c ∷ ptr) p h = pointer c p

label-IsName :
    (b m : ℕ) (ptr : Bytes)
    → 1 ≤ b
    → b ≤ label_maxlen
    → b ≤ length ptr
    → IsName (take m (drop b ptr))
    → IsName (take (1 + b + m) (b ∷ ptr))
label-IsName b m ptr lo hi fits t =
    let size : length (take b ptr) ≡ b = omega (arith, length-take b ptr) in
    let step : 1 + b + m ≡ suc (b + m) = omega arith in
    let whole : length (take b ptr) ∷ take b ptr ++ take m (drop b ptr) ≡ b ∷ take (b + m) ptr =
      ap₂ (λ k t. k ∷ t) size (sym (take_add b m ptr)) in
    rw (step, ← whole) (label (take b ptr) (omega arith, omega arith) t)

skip_labels_sound :
    (fuel : ℕ) (ptr : Bytes) {n : ℕ}
    → skip_labels fuel ptr ≡ some n
    → n + 1 ≤ length ptr
    → IsName (take n ptr)
unfolding skip_labels
skip_labels_sound fuel [] e h = absurd (omega arith)
skip_labels_sound zero (b ∷ ptr) e h = cc
skip_labels_sound (suc fuel) (b ∷ ptr) {n} e h = elim (Bool-cases (b == 0)) [
  | inl z ↦
      let one : 1 ≡ n = some-injective 1 n (rw z at e) in
      subst (λ k. IsName (take k (b ∷ ptr))) one (rw ((==_iff b 0).0 z) null)
  | inr nz ↦ elim (Bool-cases (leb ptr_minval b)) [
    | inl p ↦
        let two : 2 ≡ n = some-injective 2 n (rw (nz, p) at e) in
        subst (λ k. IsName (take k (b ∷ ptr))) two
          (pointer-IsName b ptr (leb→le ptr_minval b p) (omega arith))
    | inr np ↦ elim (Bool-cases (leb b label_maxlen)) [
      | inr big ↦ absurd (none_ne (rw (nz, np, big) at e))
      | inl small ↦ elim (Option-cases (skip_labels fuel (drop b ptr))) [
        | inl stop ↦ absurd (none_ne (rw (nz, np, small, stop) at e))
        | inr (m, next) ↦
            let total : 1 + b + m ≡ n =
              some-injective (1 + b + m) n (rw (nz, np, small, next) at e) in
            let pos : 1 ≤ b = ground arith in
            subst (λ k. IsName (take k (b ∷ ptr))) total
              (label-IsName b m ptr pos (leb→le b label_maxlen small) (omega arith)
                (skip_labels_sound fuel (drop b ptr) next (omega (arith, length-drop b ptr))))
      ]
    ]
  ]
]

-- What is skipped is a well-formed name with at least ten bytes behind it.
pub skip_name_sound :
    (ptr : Bytes) {n : ℕ}
    → skip_name ptr ≡ some n
    → IsName (take n ptr) × (n + record_size ≤ length ptr)
unfolding skip_name
skip_name_sound ptr {n} e = elim (Option-cases (skip_labels (length ptr) ptr)) [
  | inl stop ↦ absurd (none_ne (rw (skip_name, stop) at e))
  | inr (m, next) ↦ elim (Bool-cases (ltb (length ptr) (m + record_size))) [
    | inl short ↦ absurd (none_ne (rw (skip_name, next, short) at e))
    | inr fits ↦
        let same : m ≡ n = some-injective m n (rw (skip_name, next, fits) at e) in
        subst (λ k. IsName (take k ptr) × (k + record_size ≤ length ptr)) same
          (skip_labels_sound (length ptr) ptr next (omega (tests, fits)), omega (tests, fits))
  ]
]

-- Exactly the well-formed names with at least ten bytes behind them are skipped.
pub skip_name-IsName :
    (ptr : Bytes) (n : ℕ)
    → n ≤ length ptr
    → (skip_name ptr ≡ some n) ↔ (IsName (take n ptr) × (n + record_size ≤ length ptr))
skip_name-IsName ptr n le = (
  skip_name_sound ptr,
  (λ (name, room).
      subst (λ t. skip_name t ≡ some n) (take-append-drop n ptr)
        (skip_name-name (drop n ptr) name (omega (arith, length-drop n ptr, room))
          ∙ ap some (omega (arith, length-take n ptr, le)))),
)
