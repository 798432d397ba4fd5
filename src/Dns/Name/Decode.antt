-- ===== src/Dns/Name/Decode.antt =====
-- `decode_name` of src/dns.c reads exactly the wire forms of lists of labels.
use mathlib.Core.Path.{ap₂}
use chinadns_ng.Prelude.{
  ℕ, zero, suc, ◌+◌, ◌-◌, ◌≤◌, ◌<◌, ◌≡◌, refl, sym, ap, ◌∙◌, Bool, true, false, ◌||◌, Option, none,
  some, List, [], ◌∷◌, ◌++◌, arith, ltb, leb, if◌then◌else◌, length, set, take, drop, All,
  length-append, append_assoc, take-append, drop-append, take-append-drop, length-take, tests,
  le→ltb, lt→leb,
}
use chinadns_ng.Prelude.Words.{Bytes}
use chinadns_ng.Dns.Header.{label_maxlen}
use chinadns_ng.Dns.Name.{decode_loop, decode_name}
use chinadns_ng.Dns.Name.Labels.{IsLabel, encode_labels, wire_name, dot_labels, dotted}

-- The guards of a round, read off its success.
pub guards_pass {ℓ} :
    {A : Type ℓ} (a b c : Bool) (next : Option A) {r : A}
    → (if a || b then none else if c then none else next) ≡ some r
    → (a ≡ false) × (b ≡ false) × (c ≡ false) × (next ≡ some r)
guards_pass true b c next h = cc
guards_pass false true c next h = cc
guards_pass false false true next h = cc
guards_pass false false false next h = (refl, refl, refl, h)

set-append : (xs ys : Bytes) (y v : ℕ) → set (xs ++ y ∷ ys) (length xs) v ≡ xs ++ v ∷ ys
set-append [] ys y v = refl
set-append (x ∷ xs) ys y v = ap (λ t. x ∷ t) (set-append xs ys y v)

-- One round on the label `c ∷ l`.
decode_loop-label :
    (fuel : ℕ) (first : Bool) (out : Bytes) (i c : ℕ) (l rest : Bytes)
    → length (c ∷ l) ≤ label_maxlen
    → decode_loop (suc fuel) first out i (length (c ∷ l) ∷ (c ∷ l) ++ rest)
      ≡ decode_loop fuel false
          (if first then out else set out i b'.')
          ((if first then i else i + 1) + length (c ∷ l))
          rest
unfolding decode_loop
decode_loop-label fuel first out i c l rest h = rw (
  le→ltb (length (c ∷ l)) 1 (omega arith),
  le→ltb label_maxlen (length (c ∷ l)) h,
  le→ltb (length ((c ∷ l) ++ rest)) (length (c ∷ l)) (omega (arith, length-append (c ∷ l) rest)),
  drop-append (c ∷ l) rest (length (c ∷ l)) refl,
)

decode_loop-labels :
    (fuel : ℕ) (done : Bytes) (ls : List Bytes)
    → All IsLabel ls
    → length (encode_labels ls) ≤ fuel
    → decode_loop fuel false (done ++ wire_name ls) (length done) (encode_labels ls)
      ≡ some (done ++ (dot_labels ls ++ 0 ∷ []))
decode_loop-labels fuel done [] v h = unfold decode_loop in refl
decode_loop-labels fuel done ([] ∷ ls) v h = absurd (omega arith)
decode_loop-labels zero done ((c ∷ l) ∷ ls) v h = absurd (omega arith)
decode_loop-labels (suc fuel) done ((c ∷ l) ∷ ls) v h =
    let rest : Bytes = ((c ∷ l) ++ encode_labels ls) ++ 0 ∷ [] in
    let done' : Bytes = done ++ b'.' ∷ c ∷ l in
    let out : set (done ++ length (c ∷ l) ∷ rest) (length done) b'.' ≡ done' ++ wire_name ls =
      set-append done rest (length (c ∷ l)) b'.' ∙ simp append_assoc in
    let at : length done + 1 + length (c ∷ l) ≡ length done' =
      omega (arith, length-append done (b'.' ∷ c ∷ l)) in
    decode_loop-label fuel false (done ++ length (c ∷ l) ∷ rest) (length done) c l
      (encode_labels ls) v.0.1
    ∙ ap₂ (λ o i. decode_loop fuel false o i (encode_labels ls)) out at
    ∙ decode_loop-labels fuel done' ls v.1 (omega (arith, length-append l (encode_labels ls)))
    ∙ simp append_assoc

-- A wire name of at least one label decodes to its dotted form, terminated.
pub decode_name-wire_name :
    (l : Bytes) (ls : List Bytes)
    → All IsLabel (l ∷ ls)
    → decode_name (wire_name (l ∷ ls)) ≡ some (dotted (l ∷ ls) ++ 0 ∷ [])
unfolding decode_name
decode_name-wire_name [] ls v = absurd (omega arith)
decode_name-wire_name (c ∷ l) ls v =
    let src : Bytes = wire_name ((c ∷ l) ∷ ls) in
    let enc : Bytes = encode_labels ((c ∷ l) ∷ ls) in
    let long : leb (length src) 1 ≡ false = lt→leb (length src) 1 (omega arith) in
    let short : take (length src - 1) src ≡ enc =
      take-append enc (0 ∷ []) (length src - 1) (omega (arith, length-append enc (0 ∷ []))) in
    let at : 0 + length (c ∷ l) ≡ length (c ∷ l) = omega arith in
    rw (long, short)
      (decode_loop-label (length (drop 1 src)) true (drop 1 src) 0 c l (encode_labels ls) v.0.1
        ∙ ap₂ (λ o i. decode_loop (length (drop 1 src)) false o i (encode_labels ls))
            (append_assoc (c ∷ l) (encode_labels ls) (0 ∷ [])) at
        ∙ decode_loop-labels (length (drop 1 src)) (c ∷ l) ls v.1 (
            omega (
              arith,
              length-append l (encode_labels ls),
              length-append (l ++ encode_labels ls) (0 ∷ []),
            ))
        ∙ simp append_assoc)

-- What `decode_loop` accepts is a run of labels.
decode_loop_sound :
    (fuel : ℕ) (first : Bool) (out : Bytes) (i : ℕ) (src : Bytes) {r : Bytes}
    → decode_loop fuel first out i src ≡ some r
    → (ls : List Bytes) × All IsLabel ls × (src ≡ encode_labels ls)
unfolding decode_loop
decode_loop_sound fuel first out i [] h = ([], tt, refl)
decode_loop_sound fuel first out i (n ∷ []) h = cc
decode_loop_sound zero first out i (n ∷ c ∷ src) h = cc
decode_loop_sound (suc fuel) first out i (n ∷ c ∷ src) h =
    let (low, high, fits, rest) =
      guards_pass (ltb n 1) (ltb label_maxlen n) (ltb (length (c ∷ src)) n)
        (decode_loop fuel false (if first then out else set out i b'.')
          ((if first then i else i + 1) + n) (drop n (c ∷ src)))
        h in
    let (ls, v, e) =
      decode_loop_sound fuel false (if first then out else set out i b'.')
        ((if first then i else i + 1) + n) (drop n (c ∷ src)) rest in
    let m : length (take n (c ∷ src)) ≡ n = omega (tests, length-take n (c ∷ src), fits) in
    (
      take n (c ∷ src) ∷ ls,
      ((omega (tests, low), omega (tests, high)), v),
      ap₂ (λ k t. k ∷ t) (sym m)
          (sym (take-append-drop n (c ∷ src)) ∙ ap (λ t. take n (c ∷ src) ++ t) e),
    )

-- Whatever `decode_name` accepts is the wire form of labels of 1 to 63 bytes, its last byte aside.
decode_name_sound :
    (src : Bytes) {r : Bytes}
    → 1 < length src
    → decode_name src ≡ some r
    → (ls : List Bytes) × All IsLabel ls × (take (length src - 1) src ≡ encode_labels ls)
unfolding decode_name
decode_name_sound src h e =
    decode_loop_sound (length src) true (drop 1 src) 0 (take (length src - 1) src)
      (rw (lt→leb (length src) 1 h) at e)
