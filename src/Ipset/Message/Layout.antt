-- ===== src/Ipset/Message/Layout.antt =====
-- What the functions of src/nl.h and the elements of src/ipset.c write, as attributes.
use mathlib.Core.Path.{ap₂}
use chinadns_ng.Prelude.{
  length-take, take-append-drop, length-drop, ℕ, ◌+◌, ◌-◌, ◌≤◌, ◌≡◌, refl, sym, ap, ◌∙◌, none, some,
  [], ◌∷◌, ◌++◌, append-nil, append_assoc, arith, le→leb, length, take, drop, length-append,
  take-append, drop-append, drop-drop,
}
use chinadns_ng.Prelude.Words.{Bytes}
use chinadns_ng.Ipset.Message.{
  header_size, Nlmsg, nlmsg_len, nla_align, nla_size_calc, u16_bytes, memcpy, nlmsg_add_data,
  nlmsg_add_nla, nlmsg_end_nest_nla,
}

-- An attribute with its payload, whose length is in front.
abbrev pub nla : ℕ → Bytes → Bytes
nla attrtype payload = u16_bytes (4 + length payload) ++ u16_bytes attrtype ++ payload

-- The message with more bytes in use.
abbrev pub grown : Nlmsg → Bytes → Nlmsg
grown msg bytes = record msg { used = msg.used ++ bytes; spare = drop (length bytes) msg.spare }

pub memcpy-append :
    (front old new back : Bytes) (offset : ℕ)
    → length front ≡ offset
    → length old ≡ length new
    → memcpy offset new (front ++ old ++ back) ≡ front ++ new ++ back
unfolding memcpy
memcpy-append front old new back offset e len =
    ap₂ (λ a b. a ++ new ++ b)
      (ap (take offset) (append_assoc front old back) ∙ take-append front (old ++ back) offset e)
      (drop-append (front ++ old) back (offset + length new)
        (omega (arith, length-append front old, e, len)))

pub grown-grown : (msg : Nlmsg) (a b : Bytes) → grown (grown msg a) b ≡ grown msg (a ++ b)
grown-grown msg a b =
    rw (length-append a b, drop-drop (length a) (length b) msg.spare, append_assoc msg.used a b)
      refl

-- The bytes between the data of an attribute and the next one: what the buffer had there.
abbrev pub padding : ℕ → Bytes → Bytes
padding n spare = drop n (drop 4 (take (nla_size_calc n) spare))

abbrev pub nla_header : ℕ → ℕ → Bytes
nla_header len attrtype = u16_bytes len ++ u16_bytes attrtype

pub nlmsg_add_data-none :
    (msg : Nlmsg) (n : ℕ)
    → nla_align n ≤ length msg.spare
    → nlmsg_add_data msg none n
      ≡ some (
        nlmsg_len msg,
        record msg {
          used = msg.used ++ take (nla_align n) msg.spare;
          spare = drop (nla_align n) msg.spare;
        },
      )
unfolding nlmsg_add_data
nlmsg_add_data-none msg n le = rw (le→leb (nla_align n) (length msg.spare) le) refl

pub drop_all : (xs : Bytes) (n : ℕ) → length xs ≡ n → drop n xs ≡ []
drop_all xs n e = ap (drop n) (sym (append-nil xs)) ∙ drop-append xs [] n e

-- The attribute's header in the bytes added.
write_header :
    (used added : Bytes) (len attrtype : ℕ)
    → 4 ≤ length added
    → memcpy (header_size + length used - header_size) (nla_header len attrtype) (used ++ added)
      ≡ used ++ nla_header len attrtype ++ drop 4 added
write_header used added len attrtype le =
    ap (memcpy (header_size + length used - header_size) (nla_header len attrtype)) (
      ap (λ x. used ++ x) (sym (take-append-drop 4 added))
      ∙ sym (append_assoc used (take 4 added) (drop 4 added)))
    ∙ memcpy-append used (take 4 added) (nla_header len attrtype) (drop 4 added)
        (header_size + length used - header_size) (omega arith)
        (omega (arith, length-take 4 added, le))

-- The data behind the header.
write_payload :
    (used added bytes : Bytes) (len attrtype : ℕ)
    → length bytes ≤ length added
    → memcpy
        (header_size + length used + 4 - header_size)
        bytes
        (used ++ nla_header len attrtype ++ added)
      ≡ used ++ nla_header len attrtype ++ bytes ++ drop (length bytes) added
write_payload used added bytes len attrtype le =
    ap (memcpy (header_size + length used + 4 - header_size) bytes) (
      ap (λ x. used ++ nla_header len attrtype ++ x) (sym (take-append-drop (length bytes) added))
      ∙ sym (
          append_assoc (used ++ nla_header len attrtype) (take (length bytes) added)
            (drop (length bytes) added)))
    ∙ memcpy-append (used ++ nla_header len attrtype) (take (length bytes) added) bytes
        (drop (length bytes) added) (header_size + length used + 4 - header_size)
        (omega (arith, length-append used (nla_header len attrtype)))
        (omega (arith, length-take (length bytes) added, le))

-- `nlmsg_add_nla` with data adds the attribute, where the buffer has room.
pub nlmsg_add_nla-some :
    (msg : Nlmsg) (attrtype : ℕ) (bytes : Bytes)
    → nla_size_calc (length bytes) ≤ length msg.spare
    → nlmsg_add_nla msg attrtype (some bytes) (length bytes)
      ≡ some (nlmsg_len msg, grown msg (nla attrtype bytes ++ padding (length bytes) msg.spare))
unfolding nlmsg_add_nla
nlmsg_add_nla-some msg attrtype bytes le =
    let n : ℕ = nla_size_calc (length bytes) in
    let aligned : nla_align n ≡ n = omega arith in
    let added : Bytes = take n msg.spare in
    let len_added : length added ≡ n = omega (arith, length-take n msg.spare, le) in
    let hdr : Bytes = nla_header (4 + length bytes) attrtype in
    let len_all : length (nla attrtype bytes ++ padding (length bytes) msg.spare) ≡ n = omega (
      arith,
      length-append (nla attrtype bytes) (padding (length bytes) msg.spare),
      length-drop (length bytes) (drop 4 added),
      length-drop 4 added,
      len_added,
    ) in
    let wrote : memcpy (nlmsg_len msg + 4 - header_size) bytes
          (memcpy (nlmsg_len msg - header_size) hdr (msg.used ++ added))
        ≡ msg.used ++ (nla attrtype bytes ++ padding (length bytes) msg.spare) =
      ap (memcpy (nlmsg_len msg + 4 - header_size) bytes)
        (write_header msg.used added (4 + length bytes) attrtype (omega (arith, len_added)))
      ∙ write_payload msg.used (drop 4 added) bytes (4 + length bytes) attrtype
          (omega (arith, length-drop 4 added, len_added))
      ∙ simp append_assoc in
    rw (nlmsg_add_data-none msg n (omega (arith, aligned, le)), aligned)
      (ap₂ (λ u k. some (nlmsg_len msg, record msg { used = u; spare = drop k msg.spare })) wrote
        (sym len_all))

-- The start of a nest.
pub nlmsg_add_nla-none :
    (msg : Nlmsg) (attrtype : ℕ)
    → 4 ≤ length msg.spare
    → nlmsg_add_nla msg attrtype none 0 ≡ some (nlmsg_len msg, grown msg (nla_header 4 attrtype))
unfolding nlmsg_add_nla
nlmsg_add_nla-none msg attrtype le =
    let added : Bytes = take 4 msg.spare in
    let len_added : length added ≡ 4 = omega (arith, length-take 4 msg.spare, le) in
    rw (nlmsg_add_data-none msg 4 le) (
      ap (λ u. some (nlmsg_len msg, record msg { used = u; spare = drop 4 msg.spare }))
        (write_header msg.used added 4 attrtype (omega (arith, len_added))
          ∙ ap (λ x. msg.used ++ nla_header 4 attrtype ++ x) (drop_all added 4 len_added)
          ∙ append-nil (msg.used ++ nla_header 4 attrtype)))

-- A nest that is closed is an attribute with what stands in it.
pub nest_lem :
    (msg : Nlmsg) (attrtype : ℕ) (inner : Bytes)
    → nlmsg_end_nest_nla (grown (grown msg (nla_header 4 attrtype)) inner) (nlmsg_len msg)
      ≡ grown msg (nla attrtype inner)
nest_lem msg attrtype inner =
    let opened : Nlmsg = grown (grown msg (nla_header 4 attrtype)) inner in
    let len : nlmsg_len opened - nlmsg_len msg ≡ 4 + length inner = omega (
      arith,
      length-append (msg.used ++ nla_header 4 attrtype) inner,
      length-append msg.used (nla_header 4 attrtype),
    ) in
    let four : 4 + length inner ≡ length (nla_header 4 attrtype ++ inner) = omega arith in
    ap₂ (λ u s. record msg { used = u; spare = s })
      (ap₂ (λ l x. memcpy (nlmsg_len msg - header_size) (u16_bytes l) x) len (simp append_assoc)
        ∙ memcpy-append msg.used (4 ∷ 0 ∷ []) (u16_bytes (4 + length inner))
            (u16_bytes attrtype ++ inner) (nlmsg_len msg - header_size) (omega arith) refl
        ∙ append_assoc msg.used (u16_bytes (4 + length inner)) (u16_bytes attrtype ++ inner))
      (drop-drop 4 (length inner) msg.spare ∙ ap (λ k. drop k msg.spare) four)

-- Data whose length needs no padding.
pub nlmsg_add_nla-aligned :
    (msg : Nlmsg) (attrtype : ℕ) (bytes : Bytes) {n : ℕ}
    → length bytes ≡ n
    → nla_align n ≡ n
    → 4 + n ≤ length msg.spare
    → nlmsg_add_nla msg attrtype (some bytes) n
      ≡ some (nlmsg_len msg, grown msg (nla attrtype bytes))
nlmsg_add_nla-aligned msg attrtype bytes {n} e a le =
    let size : nla_size_calc (length bytes) ≡ 4 + n = omega (arith, e, a) in
    ap (nlmsg_add_nla msg attrtype (some bytes)) (sym e)
    ∙ nlmsg_add_nla-some msg attrtype bytes (omega (arith, size, le))
    ∙ ap (λ x. some (nlmsg_len msg, grown msg (nla attrtype bytes ++ x)))
        (drop_all (drop 4 (take (nla_size_calc (length bytes)) msg.spare)) (length bytes) (
          omega (
            arith,
            size,
            length-drop 4 (take (nla_size_calc (length bytes)) msg.spare),
            length-take (nla_size_calc (length bytes)) msg.spare,
            le,
            e,
          )))
    ∙ ap (λ x. some (nlmsg_len msg, grown msg x)) (append-nil (nla attrtype bytes))
