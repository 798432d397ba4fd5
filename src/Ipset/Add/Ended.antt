-- ===== src/Ipset/Add/Ended.antt =====
-- The message of one address family as `end_add_ip` of src/ipset.c sends it.
use mathlib.Core.Bool.{false≢true}
use mathlib.Core.Path.{ap₂}
use native.Mathlib.Nat.{mul-le-mul_right}
use chinadns_ng.Prelude.{
  ℕ, ◌+◌, ◌-◌, ◌*◌, ◌≤◌, ◌≡◌, ◌≢◌, ◌⊎◌, inl, inr, refl, sym, ap, ◌∙◌, subst, Bool, List, [], ◌∷◌,
  ◌++◌, append_assoc, arith, ◌==◌, if◌then◌else◌, length, take, drop, map, length-append,
  take-append, drop-append, length-take, take-append-drop, Bool-cases, ==_iff,
}
use chinadns_ng.Prelude.Words.{Bytes}
use chinadns_ng.Ipset.{iplen}
use chinadns_ng.Ipset.Message.{
  Nlmsg, Header, header_size, header_bytes, nlmsg_len, u16_bytes, write_at, nla_hdrlen,
  nla_len_calc, memcpy,
}
use chinadns_ng.Ipset.Message.Layout.{nla, memcpy-append}
use chinadns_ng.Ipset.Context.{Side}
use chinadns_ng.Ipset.Batch.{set_len, elem_size, kept_elems, end_msg, memory_of}
use chinadns_ng.Ipset.Add.Filled.{elem_of, elems_of}
use chinadns_ng.Ipset.Add.Holding.{base_of, IsHolding, length-nil, length-elems_of, length-base_of}
use chinadns_ng.Ipset.Add.Sent.{
  fresh, concat, concat-map, length-map, length-fresh, All-fresh, kept_elems-fresh,
}

-- A netlink message whose nlmsg_len is its length.
abbrev pub message_of : Header → Bytes → Bytes
message_of header payload = header_bytes (header_size + length payload) header ++ payload

-- The parts make one message that holds the addresses, or there are none and no address either.
abbrev pub IsSent : Bool → Bool → Bytes → ℕ → Header → List Bytes → List Bytes → Type 0
IsSent is_ipset v4 front attrtype header ips parts =
    ((ips ≡ []) × (parts ≡ []))
    ⊎ ((ips ≢ [])
        × (concat parts ≡ message_of header (front ++ nla attrtype (elems_of is_ipset v4 ips))))

module _ (is_ipset v4 : Bool) (front : Bytes) (attrtype : ℕ) (ips : List Bytes) (side : Side)
    (w : IsHolding is_ipset v4 front attrtype ips side) (exists : List Bool) (bit_i : ℕ) where
  abbrev es : ℕ
  es = elem_size is_ipset v4

  abbrev new : List Bytes
  new = fresh exists bit_i ips

  abbrev base : Nlmsg
  base = set_len side.baselen w.message

  -- What the memory has behind the base.
  abbrev pub behind : Bytes
  behind = elems_of is_ipset v4 ips ++ w.rest

  base-memory : base.used ++ base.spare ≡ base_of front attrtype w.x ++ behind
  base-memory =
      take-append-drop (side.baselen - header_size) (w.message.used ++ w.message.spare)
      ∙ w.memory
      ∙ append_assoc (base_of front attrtype w.x) (elems_of is_ipset v4 ips) w.rest

  base-len :
      (x : Bytes) → length x ≡ 2 → length (base_of front attrtype x) ≡ side.baselen - header_size
  base-len x two = omega (arith, w.baselen, length-base_of front attrtype x two)

  base-used : base.used ≡ base_of front attrtype w.x
  base-used =
      ap (take (side.baselen - header_size))
        (w.memory ∙ append_assoc (base_of front attrtype w.x) (elems_of is_ipset v4 ips) w.rest)
      ∙ take-append (base_of front attrtype w.x) behind (side.baselen - header_size)
          (base-len w.x w.two)

  base-spare : base.spare ≡ behind
  base-spare =
      ap (drop (side.baselen - header_size))
        (w.memory ∙ append_assoc (base_of front attrtype w.x) (elems_of is_ipset v4 ips) w.rest)
      ∙ drop-append (base_of front attrtype w.x) behind (side.baselen - header_size)
          (base-len w.x w.two)

  kept : kept_elems es base.spare exists bit_i 0 side.ipcnt ≡ map (elem_of is_ipset v4) new
  kept =
      ap₂ (λ m n. kept_elems es m exists bit_i 0 n) base-spare w.count
      ∙ kept_elems-fresh is_ipset v4 exists [] w.rest ips bit_i 0 w.sizes (omega arith)

  abbrev added : ℕ
  added = length new * es

  added-len : length (elems_of is_ipset v4 new) ≡ added
  added-len =
      length-elems_of is_ipset v4 new
        (All-fresh (λ ip. length ip ≡ iplen v4) exists bit_i ips w.sizes)

  added-le : added ≤ length behind
  added-le = omega (
    arith,
    length-append (elems_of is_ipset v4 ips) w.rest,
    length-elems_of is_ipset v4 ips w.sizes,
    mul-le-mul_right {m = length new} {n = length ips} es (length-fresh exists bit_i ips),
  )

  abbrev patch : Bytes
  patch = u16_bytes (nla_len_calc added)

  abbrev patched : Nlmsg
  patched = write_at (side.baselen - nla_hdrlen) patch base

  patched-used : patched.used ≡ base_of front attrtype patch
  patched-used =
      ap (memcpy (side.baselen - nla_hdrlen - header_size) patch) base-used
      ∙ memcpy-append front w.x patch (u16_bytes attrtype) (side.baselen - nla_hdrlen - header_size)
          (omega (arith, w.baselen)) w.two

  abbrev sent : Nlmsg
  sent = set_len (side.baselen + added) patched

  sent-memory : sent.used ++ sent.spare ≡ base_of front attrtype patch ++ behind
  sent-memory =
      take-append-drop (side.baselen + added - header_size) (patched.used ++ patched.spare)
      ∙ ap₂ (λ a b. a ++ b) patched-used base-spare

  sent-len :
      nlmsg_len sent ≡ header_size + length (front ++ nla attrtype (elems_of is_ipset v4 new))
  sent-len = omega (
    arith,
    length-take (side.baselen + added - header_size) (patched.used ++ patched.spare),
    length-append patched.used patched.spare,
    ap length patched-used,
    ap length base-spare,
    base-len patch refl,
    added-le,
    added-len,
    w.baselen,
    length-append front (nla attrtype (elems_of is_ipset v4 new)),
  )

  -- The first part: the header and the base, as they are when the message is sent.
  first_part :
      take side.baselen (memory_of sent)
      ≡ header_bytes (nlmsg_len sent) sent.header ++ base_of front attrtype patch
  first_part =
      let hdr : Bytes = header_bytes (nlmsg_len sent) sent.header in
      ap (take side.baselen) (
        append_assoc hdr sent.used sent.spare
        ∙ ap (λ l. hdr ++ l) sent-memory
        ∙ sym (append_assoc hdr (base_of front attrtype patch) behind))
      ∙ take-append (hdr ++ base_of front attrtype patch) behind side.baselen (
          omega (
            arith,
            w.baselen,
            length-append hdr (base_of front attrtype patch),
            base-len patch refl,
          ))

  whole :
      take side.baselen (memory_of sent) ++ concat (map (elem_of is_ipset v4) new)
      ≡ message_of w.message.header (front ++ nla attrtype (elems_of is_ipset v4 new))
  whole =
      ap₂ (λ a b. a ++ b) first_part (concat-map is_ipset v4 new)
      ∙ append_assoc (header_bytes (nlmsg_len sent) sent.header) (base_of front attrtype patch)
          (elems_of is_ipset v4 new)
      ∙ ap₂ (λ len p. header_bytes len w.message.header ++ p) sent-len
          (ap (λ k. front ++ u16_bytes (4 + k) ++ u16_bytes attrtype ++ elems_of is_ipset v4 new)
              (sym added-len)
            ∙ simp append_assoc)

  -- `end_msg` with the elements kept and their number.
  abbrev ended : ℕ → List Bytes → List Bytes × Nlmsg
  ended n elems =
      let sent' =
        set_len (side.baselen + n * es)
          (write_at (side.baselen - nla_hdrlen) (u16_bytes (nla_len_calc (n * es))) base) in
      if n == 0 then ([], base) else (take side.baselen (memory_of sent') ∷ elems, sent')

  end_msg-ended :
      end_msg is_ipset v4 exists bit_i side.baselen side.ipcnt w.message
      ≡ ended (length new) (map (elem_of is_ipset v4) new)
  unfolding end_msg
  end_msg-ended = ap₂ ended (ap length kept ∙ length-map (elem_of is_ipset v4) new) kept

  abbrev IsEnded : List Bytes × Nlmsg → Type 0
  IsEnded (parts, msg') =
      IsSent is_ipset v4 front attrtype w.message.header new parts
      × (msg'.header ≡ w.message.header)
      × ((y : Bytes) × (length y ≡ 2)
          × (msg'.used ++ msg'.spare ≡ base_of front attrtype y ++ behind))

  pub end_msg-IsEnded : IsEnded (end_msg is_ipset v4 exists bit_i side.baselen side.ipcnt w.message)
  end_msg-IsEnded = subst IsEnded (sym end_msg-ended) (elim (Bool-cases (length new == 0)) [
    | inl known ↦
        let none_new : new ≡ [] = length-nil new ((==_iff (length new) 0).0 known) in
        rw known (inl (none_new, refl), refl, (w.x, w.two, base-memory))
    | inr some_new ↦
        let ne : new ≢ [] =
          λ e. false≢true (sym some_new ∙ (==_iff (length new) 0).1 (ap length e)) in
        rw some_new (inr (ne, whole), refl, (patch, refl, sent-memory))
  ])
