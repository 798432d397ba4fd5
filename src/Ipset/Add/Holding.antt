-- ===== src/Ipset/Add/Holding.antt =====
-- The message of one address family between two calls, and an address added to it.
use mathlib.Core.Bool.{false≢true}
use mathlib.Core.Path.{ap₂}
use native.Mathlib.Nat.{suc-mul, mul-le-mul_right}
use chinadns_ng.Prelude.{
  ℕ, suc, ◌+◌, ◌-◌, ◌*◌, ◌≤◌, ◌<◌, ◌≡◌, ◌⊎◌, inl, inr, refl, sym, ap, ◌∙◌, Bool, some, List, [],
  ◌∷◌, ◌++◌, append-nil, append_assoc, arith, ◌==◌, if◌then◌else◌, length, take, drop, All,
  All-append, length-append, take-append, drop-append, length-drop, Bool-cases, ==_iff,
}
use chinadns_ng.Prelude.Words.{Bytes}
use chinadns_ng.Ipset.{ip_n, iplen}
use chinadns_ng.Ipset.Message.{Nlmsg, header_size, u16_bytes}
use chinadns_ng.Ipset.Message.Layout.{grown}
use chinadns_ng.Ipset.Context.{Side}
use chinadns_ng.Ipset.Batch.{set_len, add_ip, elem_size, add_to_side}
use chinadns_ng.Ipset.Add.Filled.{elem_of, elems_of, length-elem_of, add_ip-elem_of}

-- The bytes in front of the elements: `x` is the length of the attribute that holds the elements.
abbrev pub base_of : Bytes → ℕ → Bytes → Bytes
base_of front attrtype x = front ++ x ++ u16_bytes attrtype

-- The message of a side holds the addresses `ips` behind `front` and the header of an attribute of the
-- type `attrtype`. The nlmsg_len is right where there are addresses.
pub record IsHolding (is_ipset v4 : Bool) (front : Bytes) (attrtype : ℕ) (ips : List Bytes)
    (side : Side) : Type 0 where
  pub message : Nlmsg
  pub x : Bytes
  pub rest : Bytes
  pub is_msg : side.msg ≡ some message
  pub two : length x ≡ 2
  pub memory :
      message.used ++ message.spare ≡ base_of front attrtype x ++ elems_of is_ipset v4 ips ++ rest
  pub in_use :
      (ips ≡ [])
      ⊎ (length message.used ≡ length (base_of front attrtype x ++ elems_of is_ipset v4 ips))
  pub baselen : side.baselen ≡ 24 + length front
  pub count : side.ipcnt ≡ length ips
  pub few : length ips ≤ ip_n
  pub sizes : All (λ ip. length ip ≡ iplen v4) ips
  pub room :
      length front + 4 + ip_n * elem_size is_ipset v4 ≤ length (message.used ++ message.spare)

pub length-nil : (ips : List Bytes) → length ips ≡ 0 → ips ≡ []
length-nil [] h = refl
length-nil (ip ∷ ips) h = absurd (omega arith)

elems_of-append :
    (is_ipset v4 : Bool) (ips : List Bytes) (ip : Bytes)
    → elems_of is_ipset v4 (ips ++ ip ∷ []) ≡ elems_of is_ipset v4 ips ++ elem_of is_ipset v4 ip
elems_of-append is_ipset v4 [] ip = append-nil (elem_of is_ipset v4 ip)
elems_of-append is_ipset v4 (first ∷ ips) ip =
    ap (λ l. elem_of is_ipset v4 first ++ l) (elems_of-append is_ipset v4 ips ip)
    ∙ sym (
        append_assoc (elem_of is_ipset v4 first) (elems_of is_ipset v4 ips)
          (elem_of is_ipset v4 ip))

pub length-elems_of :
    (is_ipset v4 : Bool) (ips : List Bytes)
    → All (λ ip. length ip ≡ iplen v4) ips
    → length (elems_of is_ipset v4 ips) ≡ length ips * elem_size is_ipset v4
length-elems_of is_ipset v4 [] v = omega arith
length-elems_of is_ipset v4 (ip ∷ ips) v = omega (
  arith,
  length-append (elem_of is_ipset v4 ip) (elems_of is_ipset v4 ips),
  length-elem_of is_ipset v4 ip v.0,
  length-elems_of is_ipset v4 ips v.1,
  suc-mul (length ips) (elem_size is_ipset v4),
)

pub length-base_of :
    (front : Bytes) (attrtype : ℕ) (x : Bytes)
    → length x ≡ 2
    → length (base_of front attrtype x) ≡ length front + 4
length-base_of front attrtype x two =
    omega (arith, length-append (front ++ x) (u16_bytes attrtype), length-append front x, two)

-- Memory that is split where the elements end.
pub split_memory :
    (msg : Nlmsg) (held rest : Bytes)
    → msg.used ++ msg.spare ≡ held ++ rest
    → length msg.used ≡ length held
    → (msg.used ≡ held) × (msg.spare ≡ rest)
split_memory msg held rest e len = (
  sym (take-append msg.used msg.spare (length held) len)
      ∙ ap (take (length held)) e
      ∙ take-append held rest (length held) refl,
  sym (drop-append msg.used msg.spare (length held) len)
      ∙ ap (drop (length held)) e
      ∙ drop-append held rest (length held) refl,
)

module _ (is_ipset v4 : Bool) (front : Bytes) (attrtype : ℕ) (ips : List Bytes) (side : Side)
    (w : IsHolding is_ipset v4 front attrtype ips side) where
  abbrev held : Bytes
  held = base_of front attrtype w.x ++ elems_of is_ipset v4 ips

  pub length-held : length held ≡ length front + 4 + length ips * elem_size is_ipset v4
  length-held = omega (
    arith,
    length-append (base_of front attrtype w.x) (elems_of is_ipset v4 ips),
    length-base_of front attrtype w.x w.two,
    length-elems_of is_ipset v4 ips w.sizes,
  )

  -- The message that the next address is added to.
  abbrev start : Nlmsg
  start = if side.ipcnt == 0 then set_len side.baselen w.message else w.message

  start-held : start ≡ record (w.message) { used = held; spare = w.rest }
  start-held = elim (Bool-cases (side.ipcnt == 0)) [
    | inl none_yet ↦
        let no_ips : ips ≡ [] =
          length-nil ips (omega (arith, w.count, (==_iff side.ipcnt 0).0 none_yet)) in
        let len : length held ≡ side.baselen - header_size = omega (
          arith,
          w.baselen,
          length-append (base_of front attrtype w.x) (elems_of is_ipset v4 ips),
          length-base_of front attrtype w.x w.two,
          ap (λ l. length (elems_of is_ipset v4 l)) no_ips,
        ) in
        rw none_yet (
          ap₂ (λ u s. record (w.message) { used = u; spare = s })
            (ap (take (side.baselen - header_size)) w.memory
              ∙ take-append held w.rest (side.baselen - header_size) len)
            (ap (drop (side.baselen - header_size)) w.memory
              ∙ drop-append held w.rest (side.baselen - header_size) len))
    | inr some_ips ↦ elim w.in_use [
      | inl no_ips ↦
          absurd (false≢true (sym some_ips ∙ (==_iff side.ipcnt 0).1 (w.count ∙ ap length no_ips)))
      | inr len ↦
          let (u, s) = split_memory w.message held w.rest w.memory len in
          rw some_ips (ap₂ (λ u s. record (w.message) { used = u; spare = s }) u s)
    ]
  ]

  -- One address more, where there is room.
  pub add_to_side-IsHolding :
      (ip : Bytes)
      → length ip ≡ iplen v4
      → length ips < ip_n
      → (side' : Side) × (add_to_side is_ipset side v4 ip ≡ some side')
        × ((w' : IsHolding is_ipset v4 front attrtype (ips ++ ip ∷ []) side') × (w'.message.header
              ≡ w.message.header))
  add_to_side-IsHolding ip e few =
      let es : ℕ = elem_size is_ipset v4 in
      let elem' : Bytes = elem_of is_ipset v4 ip in
      let m : Nlmsg = record (w.message) { used = held; spare = w.rest } in
      let space : es ≤ length w.rest = omega (
        arith,
        w.room,
        ap length w.memory,
        length-append held w.rest,
        length-held,
        suc-mul (length ips) es,
        mul-le-mul_right {m = suc (length ips)} {n = ip_n} es (omega (arith, few)),
      ) in
      let added : add_ip is_ipset start v4 ip ≡ some (grown m elem') =
        ap (λ x. add_ip is_ipset x v4 ip) start-held ∙ add_ip-elem_of is_ipset m v4 ip e space in
      let side' : Side = record side { msg = some (grown m elem'); ipcnt = side.ipcnt + 1 } in
      let longer : held ++ elem'
          ≡ base_of front attrtype w.x ++ elems_of is_ipset v4 (ips ++ ip ∷ []) =
        append_assoc (base_of front attrtype w.x) (elems_of is_ipset v4 ips) elem'
        ∙ ap (λ l. base_of front attrtype w.x ++ l) (sym (elems_of-append is_ipset v4 ips ip)) in
      (
        side',
        rw (w.is_msg, added) refl,
        (
          record {
            message = grown m elem';
            x = w.x;
            rest = drop (length elem') w.rest;
            is_msg = refl;
            two = w.two;
            memory = ap (λ l. l ++ drop (length elem') w.rest) longer;
            in_use = inr (ap length longer);
            baselen = w.baselen;
            count = omega (arith, w.count, length-append ips (ip ∷ []));
            few = omega (arith, few, length-append ips (ip ∷ []));
            sizes = All-append (λ p. length p ≡ iplen v4) ips (ip ∷ []) w.sizes (e, tt);
            room = omega (
              arith,
              w.room,
              ap length w.memory,
              length-append held w.rest,
              length-append held elem',
              length-append (held ++ elem') (drop (length elem') w.rest),
              length-drop (length elem') w.rest,
              length-elem_of is_ipset v4 ip e,
              space,
            );
          },
          refl,
        ),
      )
