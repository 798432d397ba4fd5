-- ===== src/Dns/Name/Encode.antt =====
-- `dns_ascii_to_wire` of src/dns.c against the labels of a name, and the round trips with
-- `decode_name`.
use mathlib.Core.Path.{ap₂}
use mathlib.Core.Option.{some-injective}
use chinadns_ng.Prelude.{
  ℕ, zero, suc, ◌+◌, ◌%◌, ◌≤◌, ◌<◌, ◌≡◌, ◌≢◌, refl, sym, ap, ◌∙◌, none, some, List, [], ◌∷◌, ◌++◌,
  arith, tests, ltb, length, take, drop, All, length-append, append_assoc, take_all, take-append,
  length-take, le→ltb, ==_ne, ==_refl, append-nil, bind-eq-some, Option-cases, Bool-cases, inl, inr,
  subst, ==_iff, ◌==◌, none_ne,
}
use chinadns_ng.Prelude.Words.{Bytes}
use chinadns_ng.Dns.Header.{label_maxlen, name_wire_maxlen, dns_ascii_namelen}
use chinadns_ng.Dns.Name.{memchr, add_label, wire_loop, dns_ascii_to_wire, close_wire, decode_name}
use chinadns_ng.Dns.Name.Labels.{
  IsLabel, encode_labels, wire_name, dot_labels, dotted, HasNoDot, length-encode_labels,
}
use chinadns_ng.Dns.Name.Decode.{guards_pass, decode_name-wire_name}

-- `memchr` passes over a run without the byte.
pub memchr-none : (c : ℕ) (xs : Bytes) → All (λ x. x ≢ c) xs → memchr c xs ≡ none
unfolding memchr
memchr-none c [] h = refl
memchr-none c (x ∷ xs) h = rw (==_ne x c h.0, memchr-none c xs h.1)

pub memchr-append :
    (c : ℕ) (xs ys : Bytes) → All (λ x. x ≢ c) xs → memchr c (xs ++ c ∷ ys) ≡ some (length xs)
unfolding memchr
memchr-append c [] ys h = rw (==_refl c)
memchr-append c (x ∷ xs) ys h = rw (==_ne x c h.0, memchr-append c xs ys h.1)

-- What `memchr` finds is in range, is the byte, and is the first one.
abbrev pub FoundAt : ℕ → Bytes → ℕ → Type 0
FoundAt c xs i =
    (i < length xs) × (xs ≡ take i xs ++ c ∷ drop (suc i) xs) × All (λ x. x ≢ c) (take i xs)

pub memchr_sound : (c : ℕ) (xs : Bytes) {i : ℕ} → memchr c xs ≡ some i → FoundAt c xs i
unfolding memchr
memchr_sound c [] h = cc
memchr_sound c (x ∷ xs) {i} h = elim (Bool-cases (x == c)) [
  | inl e ↦
      subst (FoundAt c (x ∷ xs)) (some-injective 0 i (rw e at h))
        (omega arith, ap (λ k. k ∷ xs) ((==_iff x c).0 e), tt)
  | inr e ↦ elim (Option-cases (memchr c xs)) [
    | inl m ↦ absurd (none_ne (rw (e, m) at h))
    | inr (j, m) ↦
        let (lt, eq, ne) = memchr_sound c xs m in
        let differs : x ≢ c = ground arith in
        subst (FoundAt c (x ∷ xs)) (some-injective (suc j) i (rw (e, m) at h))
          (omega arith, ap (λ t. x ∷ t) eq, (differs, ne))
  ]
]

add_label_lem :
    (buf : Bytes) (level : ℕ) (l rest : Bytes)
    → IsLabel l
    → length buf + 1 + length l ≤ name_wire_maxlen
    → add_label buf level (l ++ rest) (length l) ≡ some (buf ++ length l ∷ l, (level + 1) % 256)
unfolding add_label
add_label_lem buf level l rest v h = rw (
  le→ltb (length l) 1 v.0,
  le→ltb label_maxlen (length l) v.1,
  le→ltb name_wire_maxlen (length buf + 1 + length l) h,
  take-append l rest (length l) refl,
)

add_label_sound :
    (buf : Bytes) (level : ℕ) (start : Bytes) (len : ℕ) (p : Bytes × ℕ)
    → len ≤ length start
    → add_label buf level start len ≡ some p
    → IsLabel (take len start)
      × (p.0 ≡ buf ++ length (take len start) ∷ take len start)
      × (p.1 ≡ (level + 1) % 256)
unfolding add_label
add_label_sound buf level start len p fit h =
    let q : Bytes × ℕ = (buf ++ len ∷ take len start, (level + 1) % 256) in
    let (low, high, room, e) =
      guards_pass (ltb len 1) (ltb label_maxlen len) (ltb name_wire_maxlen (length buf + 1 + len))
        (some q) h in
    let m : length (take len start) ≡ len = omega (arith, length-take len start, fit) in
    let e' : q ≡ p = some-injective q p e in
    (
      (omega (tests, low), omega (tests, high)),
      sym (ap (λ r. r.0) e') ∙ ap (λ k. buf ++ k ∷ take len start) (sym m),
      sym (ap (λ r. r.1) e'),
    )

drop_past : (c : ℕ) (xs ys : Bytes) → drop (length xs + 1) (xs ++ c ∷ ys) ≡ ys
drop_past c [] ys = refl
drop_past c (x ∷ xs) ys =
    let e : length (x ∷ xs) + 1 ≡ suc (length xs + 1) = omega arith in rw e (drop_past c xs ys)

wire_loop-last :
    (fuel : ℕ) (buf : Bytes) (level : ℕ) (l : Bytes)
    → IsLabel l
    → HasNoDot l
    → length buf + 1 + length l + 1 ≤ name_wire_maxlen
    → wire_loop (suc fuel) buf level l ≡ some (buf ++ length l ∷ l ++ 0 ∷ [], (level + 1) % 256)
unfolding wire_loop
wire_loop-last fuel buf level l v nd h =
    let added : add_label buf level l (length l) ≡ some (buf ++ length l ∷ l, (level + 1) % 256) =
      ap (λ t. add_label buf level t (length l)) (sym (append-nil l))
      ∙ add_label_lem buf level l [] v (omega arith) in
    rw (
      wire_loop,
      memchr-none b'.' l nd,
      added,
      le→ltb name_wire_maxlen (length (buf ++ length l ∷ l) + 1)
          (omega (arith, length-append buf (length l ∷ l))),
    )

wire_loop-dot :
    (fuel : ℕ) (buf : Bytes) (level : ℕ) (l rest : Bytes)
    → IsLabel l
    → HasNoDot l
    → length buf + 1 + length l ≤ name_wire_maxlen
    → wire_loop (suc fuel) buf level (l ++ b'.' ∷ rest)
      ≡ wire_loop fuel (buf ++ length l ∷ l) ((level + 1) % 256) rest
unfolding wire_loop
wire_loop-dot fuel buf level l rest v nd h = rw (
  wire_loop,
  memchr-append b'.' l rest nd,
  add_label_lem buf level l (b'.' ∷ rest) v h,
  drop_past b'.' l rest,
)

-- The loop on the dotted form of a name whose wire form fits.
wire_loop-dotted :
    (fuel : ℕ) (buf : Bytes) (level : ℕ) (l : Bytes) (ls : List Bytes)
    → length ls < fuel
    → All IsLabel (l ∷ ls)
    → All HasNoDot (l ∷ ls)
    → length buf + length (wire_name (l ∷ ls)) ≤ name_wire_maxlen
    → wire_loop fuel buf level (dotted (l ∷ ls))
      ≡ some (buf ++ wire_name (l ∷ ls), (level + length (l ∷ ls)) % 256)
wire_loop-dotted zero buf level l ls f v nd h = absurd (omega arith)
wire_loop-dotted (suc fuel) buf level l [] f v nd h = rw (append-nil l) (
    wire_loop-last fuel buf level l v.0 nd.0
      (omega (arith, length-append (l ++ []) (0 ∷ []), length-append l []))
    ∙ simp append_assoc)
wire_loop-dotted (suc fuel) buf level l (m ∷ ms) f v nd h =
    let enc : Bytes = encode_labels (m ∷ ms) in
    let sizes : length (wire_name (l ∷ m ∷ ms)) ≡ 1 + length l + length (wire_name (m ∷ ms)) =
      omega (
        arith,
        length-append (l ++ enc) (0 ∷ []),
        length-append l enc,
        length-append enc (0 ∷ []),
      ) in
    let buf' : Bytes = buf ++ length l ∷ l in
    let grown : length buf' ≡ length buf + 1 + length l =
      omega (arith, length-append buf (length l ∷ l)) in
    let lvl : ((level + 1) % 256 + length (m ∷ ms)) % 256 ≡ (level + length (l ∷ m ∷ ms)) % 256 =
      omega arith in
    wire_loop-dot fuel buf level l (dotted (m ∷ ms)) v.0 nd.0 (omega arith)
    ∙ wire_loop-dotted fuel buf' ((level + 1) % 256) m ms (omega arith) v.1 nd.1 (omega arith)
    ∙ ap₂ (λ b k. some (b, k)) (simp append_assoc) lvl

-- What the loop accepts is the dotted form of labels; what it writes is their wire form.
abbrev IsEncoded : Bytes → ℕ → Bytes → Bytes × ℕ → Type 0
IsEncoded buf level start p =
    (l : Bytes) × (ls : List Bytes) × All IsLabel (l ∷ ls)
    × (start ≡ dotted (l ∷ ls))
    × (p.0 ≡ buf ++ wire_name (l ∷ ls))
    × (p.1 ≡ (level + length (l ∷ ls)) % 256)

close_wire_sound :
    (buf : Bytes) (level : ℕ) (p : Bytes × ℕ)
    → close_wire buf level ≡ some p
    → (p.0 ≡ buf ++ 0 ∷ []) × (p.1 ≡ level) × (length p.0 ≤ name_wire_maxlen)
close_wire_sound buf level p h = elim (Bool-cases (ltb name_wire_maxlen (length buf + 1))) [
  | inl big ↦ absurd (none_ne (rw big at h))
  | inr small ↦
      let e : (buf ++ 0 ∷ [], level) ≡ p = some-injective _ p (rw small at h) in
      (
        sym (ap (λ r. r.0) e),
        sym (ap (λ r. r.1) e),
        rw (← ap (λ r. r.0) e) (omega (tests, length-append buf (0 ∷ []), small)),
      )
]

wire_loop_sound :
    (fuel : ℕ) (buf : Bytes) (level : ℕ) (start : Bytes) (p : Bytes × ℕ)
    → wire_loop fuel buf level start ≡ some p
    → IsEncoded buf level start p × (length p.0 ≤ name_wire_maxlen)
unfolding wire_loop
wire_loop_sound zero buf level start p h = cc
wire_loop_sound (suc fuel) buf level start p h = elim (Option-cases (memchr b'.' start)) [
  | inl m ↦
      let (q, added, closed) =
        bind-eq-some (add_label buf level start (length start)) (λ q. close_wire q.0 q.1)
          (rw (wire_loop, m) at h) in
      let (v, eb, el) = add_label_sound buf level start (length start) q (omega arith) added in
      let (cb, cl, room) = close_wire_sound q.0 q.1 p closed in
      (
        (
          take (length start) start,
          [],
          (v, tt),
          sym (append-nil (take (length start) start) ∙ take_all start),
          cb ∙ ap (λ t. t ++ 0 ∷ []) eb ∙ simp append_assoc,
          cl ∙ el,
        ),
        room,
      )
  | inr (k, m) ↦
      let (lt, eq, nd) = memchr_sound b'.' start m in
      let (q, added, more) =
        bind-eq-some (add_label buf level start k)
          (λ q. wire_loop fuel q.0 q.1 (drop (k + 1) start)) (rw (wire_loop, m) at h) in
      let (v, eb, el) = add_label_sound buf level start k q (omega arith) added in
      let ((l, ls, vs, es, e0, e1), room) =
        wire_loop_sound fuel q.0 q.1 (drop (k + 1) start) p more in
      let past : drop (suc k) start ≡ drop (k + 1) start =
        let e : suc k ≡ k + 1 = omega arith in ap (λ n. drop n start) e in
      (
        (
          take k start,
          l ∷ ls,
          (v, vs),
          eq ∙ ap (λ t. take k start ++ b'.' ∷ t) (past ∙ es),
          e0 ∙ ap (λ t. t ++ wire_name (l ∷ ls)) eb ∙ simp append_assoc,
          omega (arith, e1, el),
        ),
        room,
      )
]

length-le-encode_labels : (ls : List Bytes) → length ls ≤ length (encode_labels ls)
length-le-encode_labels [] = omega arith
length-le-encode_labels (l ∷ ls) =
    omega (arith, length-append l (encode_labels ls), length-le-encode_labels ls)

length-wire_name :
    (l : Bytes) (ls : List Bytes) → length (wire_name (l ∷ ls)) ≡ length (dotted (l ∷ ls)) + 2
length-wire_name l ls = omega (
  arith,
  length-append (l ++ encode_labels ls) (0 ∷ []),
  length-append l (encode_labels ls),
  length-append l (dot_labels ls),
  length-encode_labels ls,
)

-- When `dns_ascii_to_wire` accepts a name, `decode_name` gives the name back from the wire form,
-- with its terminator; the wire form has at most 255 bytes, two more than the name, and its length
-- determines the name's by `dns_ascii_namelen`.
pub decode_name-dns_ascii_to_wire :
    (name : Bytes) (p : Bytes × ℕ)
    → dns_ascii_to_wire name ≡ some p
    → (decode_name p.0 ≡ some (name ++ 0 ∷ []))
      × (length p.0 ≤ name_wire_maxlen)
      × (dns_ascii_namelen (length p.0) ≡ length name)
unfolding dns_ascii_to_wire dns_ascii_namelen
decode_name-dns_ascii_to_wire name p h =
    let ((l, ls, v, es, ep, el), room) = wire_loop_sound (length name + 1) [] 0 name p h in
    (
      ap decode_name ep ∙ decode_name-wire_name l ls v ∙ ap (λ t. some (t ++ 0 ∷ [])) (sym es),
      room,
      omega (arith, ap length ep, ap length es, length-wire_name l ls),
    )

-- On every name of labels of 1 to 63 bytes without a dot in them whose wire form has at most 255
-- bytes, the two directions succeed and are inverse, and the level is the number of labels.
pub names_agree :
    (l : Bytes) (ls : List Bytes)
    → All IsLabel (l ∷ ls)
    → All HasNoDot (l ∷ ls)
    → length (wire_name (l ∷ ls)) ≤ name_wire_maxlen
    → (decode_name (wire_name (l ∷ ls)) ≡ some (dotted (l ∷ ls) ++ 0 ∷ []))
      × (dns_ascii_to_wire (dotted (l ∷ ls)) ≡ some (wire_name (l ∷ ls), length (l ∷ ls)))
unfolding dns_ascii_to_wire
names_agree l ls v nd h =
    let count : (0 + length (l ∷ ls)) % 256 ≡ length (l ∷ ls) =
      omega (
        arith,
        length-le-encode_labels (l ∷ ls),
        length-append (encode_labels (l ∷ ls)) (0 ∷ []),
      ) in
    (
      decode_name-wire_name l ls v,
      wire_loop-dotted (length (dotted (l ∷ ls)) + 1) [] 0 l ls
            (omega (
              arith,
              length-wire_name l ls,
              length-le-encode_labels (l ∷ ls),
              length-append (encode_labels (l ∷ ls)) (0 ∷ []),
            ))
            v nd (omega arith)
          ∙ ap (λ k. some (wire_name (l ∷ ls), k)) count,
    )
