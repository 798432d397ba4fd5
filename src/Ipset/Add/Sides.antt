-- ===== src/Ipset/Add/Sides.antt =====
-- The two address families of a context of src/ipset.c together: addresses are added and sent.
use chinadns_ng.Prelude.{
  ℕ, ◌≡◌, inl, inr, refl, sym, ap, ◌∙◌, subst, Bool, true, false, Option, none, some, List, [],
  ◌++◌, length-append, append-nil, arith, ◌==◌, if◌then◌else◌, length, Bool-cases, ==_iff,
}
use chinadns_ng.Prelude.Words.{Bytes}
use chinadns_ng.Ipset.Message.{Nlmsg, Header}
use chinadns_ng.Ipset.Context.{Side, Addctx}
use chinadns_ng.Ipset.Batch.{
  Datagram, end_msg, end_side, end_side_on, end_add_ip, datagram_of, transaction, side_of, reset,
}
use chinadns_ng.Ipset.Add.Filled.{elems_of}
use chinadns_ng.Ipset.Add.Holding.{base_of, length-base_of, IsHolding, length-nil}
use chinadns_ng.Ipset.Add.Sent.{fresh}
use chinadns_ng.Ipset.Add.Ended.{IsSent, end_msg-IsEnded, behind}

-- What is fixed of the message of a side: the header, the bytes in front of the attribute that holds
-- the elements, and its type.
pub record Shape : Type 0 where
  pub header : Header
  pub front : Bytes
  pub attrtype : ℕ

-- A side without a message (`none`), or one that holds the addresses.
abbrev pub IsSide : Bool → Bool → Option Shape → List Bytes → Side → Type 0
IsSide is_ipset v4 none ips side = (side.msg ≡ none) × (side.ipcnt ≡ 0) × (ips ≡ [])
IsSide is_ipset v4 (some shape) ips side =
    (w : IsHolding is_ipset v4 shape.front shape.attrtype ips side) × (w.message.header
      ≡ shape.header)

abbrev pub IsSideSent : Bool → Bool → Option Shape → List Bytes → List Bytes → Type 0
IsSideSent is_ipset v4 none ips parts = (ips ≡ []) × (parts ≡ [])
IsSideSent is_ipset v4 (some shape) ips parts =
    IsSent is_ipset v4 shape.front shape.attrtype shape.header ips parts

module _ (is_ipset v4 : Bool) (shape : Shape) (exists : List Bool) (bit_i : ℕ) where
  -- A side without addresses.
  emptied :
      (ips : List Bytes) (side : Side)
      → (w : IsHolding is_ipset v4 shape.front shape.attrtype ips side)
      → w.message.header ≡ shape.header
      → ips ≡ []
      → IsSide is_ipset v4 (some shape) [] (record side { ipcnt = 0 })
  emptied ips side w h no_ips = (
    record {
      message = w.message;
      x = w.x;
      rest = w.rest;
      is_msg = w.is_msg;
      two = w.two;
      memory =
          w.memory
          ∙ ap (λ l. base_of shape.front shape.attrtype w.x ++ elems_of is_ipset v4 l ++ w.rest)
              no_ips;
      in_use = inl refl;
      baselen = w.baselen;
      count = refl;
      few = omega arith;
      sizes = tt;
      room = w.room;
    },
    h,
  )

  -- The side behind the end holds nothing.
  IsHolding-none :
      (ips : List Bytes) (side : Side) (msg' : Nlmsg)
      → (w : IsHolding is_ipset v4 shape.front shape.attrtype ips side)
      → (y : Bytes) × (length y ≡ 2)
        × (msg'.used ++ msg'.spare
            ≡ base_of shape.front shape.attrtype y
              ++ behind is_ipset v4 shape.front shape.attrtype ips side w exists bit_i)
      → (w' : IsHolding is_ipset v4 shape.front shape.attrtype []
          (record side { msg = some msg'; ipcnt = 0 }))
        × (w'.message.header ≡ msg'.header)
  IsHolding-none ips side msg' w (y, two, memory) = (
    record {
      message = msg';
      x = y;
      rest = behind is_ipset v4 shape.front shape.attrtype ips side w exists bit_i;
      is_msg = refl;
      two = two;
      memory =
          memory
          ∙ ap (λ l. l ++ behind is_ipset v4 shape.front shape.attrtype ips side w exists bit_i)
              (sym (append-nil (base_of shape.front shape.attrtype y)));
      in_use = inl refl;
      baselen = w.baselen;
      count = refl;
      few = omega arith;
      sizes = tt;
      room = omega (
        arith,
        w.room,
        ap length memory,
        ap length w.memory,
        length-append (base_of shape.front shape.attrtype y) (elems_of is_ipset v4 ips ++ w.rest),
        length-append (base_of shape.front shape.attrtype w.x ++ elems_of is_ipset v4 ips) w.rest,
        length-append (base_of shape.front shape.attrtype w.x) (elems_of is_ipset v4 ips),
        length-append (elems_of is_ipset v4 ips) w.rest,
        length-base_of shape.front shape.attrtype y two,
        length-base_of shape.front shape.attrtype w.x w.two,
      );
    },
    refl,
  )

  end_side-zero :
      (ips : List Bytes) (side : Side)
      → IsHolding is_ipset v4 shape.front shape.attrtype ips side
      → (side.ipcnt == 0) ≡ true
      → end_side is_ipset v4 exists bit_i side ≡ ([], side)
  end_side-zero ips side w nothing =
      ap (end_side_on is_ipset v4 exists bit_i side) w.is_msg ∙ rw nothing refl

  end_side-some :
      (ips : List Bytes) (side : Side)
      → (w : IsHolding is_ipset v4 shape.front shape.attrtype ips side) → (side.ipcnt == 0) ≡ false
      → let (parts, msg') = end_msg is_ipset v4 exists bit_i side.baselen side.ipcnt w.message in
        end_side is_ipset v4 exists bit_i side ≡ (parts, record side { msg = some msg' })
  end_side-some ips side w something =
      ap (end_side_on is_ipset v4 exists bit_i side) w.is_msg ∙ rw something refl

  end_side-some_shape :
      (ips : List Bytes) (side : Side)
      → IsSide is_ipset v4 (some shape) ips side
      → let (parts, side') = end_side is_ipset v4 exists bit_i side in
        IsSideSent is_ipset v4 (some shape) (fresh exists bit_i ips) parts
        × IsSide is_ipset v4 (some shape) [] (record side' { ipcnt = 0 })
  unfolding fresh
  end_side-some_shape ips side (w, h) = elim (Bool-cases (side.ipcnt == 0)) [
    | inl nothing ↦
        let zero_ips : side.ipcnt ≡ 0 = (==_iff side.ipcnt 0).0 nothing in
        let no_ips : ips ≡ [] = length-nil ips (sym w.count ∙ zero_ips) in
        subst
          (λ r.
            IsSideSent is_ipset v4 (some shape) (fresh exists bit_i ips) r.0
            × IsSide is_ipset v4 (some shape) [] (record (r.1) { ipcnt = 0 }))
          (sym (end_side-zero ips side w nothing))
          (inl (ap (fresh exists bit_i) no_ips, refl), emptied ips side w h no_ips)
    | inr something ↦
        let (parts, header, after) =
          end_msg-IsEnded is_ipset v4 shape.front shape.attrtype ips side w exists bit_i in
        let (parts', msg') = end_msg is_ipset v4 exists bit_i side.baselen side.ipcnt w.message in
        subst
          (λ r.
            IsSideSent is_ipset v4 (some shape) (fresh exists bit_i ips) r.0
            × IsSide is_ipset v4 (some shape) [] (record (r.1) { ipcnt = 0 }))
          (sym (end_side-some ips side w something))
          (
            subst
                (λ hd.
                  IsSent is_ipset v4 shape.front shape.attrtype hd (fresh exists bit_i ips) parts')
                h parts,
            let (w', h') = IsHolding-none ips side msg' w after in (w', h' ∙ header ∙ h),
          )
  ]

pub end_side-IsSide :
    (is_ipset v4 : Bool) (shape : Option Shape) (exists : List Bool) (bit_i : ℕ) (ips : List Bytes)
    (side : Side)
    → IsSide is_ipset v4 shape ips side
    → let (parts, side') = end_side is_ipset v4 exists bit_i side in
      IsSideSent is_ipset v4 shape (fresh exists bit_i ips) parts
      × IsSide is_ipset v4 shape [] (record side' { ipcnt = 0 })
unfolding fresh
end_side-IsSide is_ipset v4 none exists bit_i ips side (null, none_yet, no_ips) =
    rw (null, no_ips) ((refl, refl), (refl, refl, refl))
end_side-IsSide is_ipset v4 (some shape) exists bit_i ips side w =
    end_side-some_shape is_ipset v4 shape exists bit_i ips side w

-- The number of the addresses.
pub side-count :
    (is_ipset v4 : Bool) (shape : Option Shape) (ips : List Bytes) (side : Side)
    → IsSide is_ipset v4 shape ips side
    → side.ipcnt ≡ length ips
side-count is_ipset v4 none ips side (null, none_yet, no_ips) = none_yet ∙ ap length (sym no_ips)
side-count is_ipset v4 (some shape) ips side (w, h) = w.count

pub both : (P : Bool → Type 0) → P true → P false → (v4 : Bool) → P v4
both P four six true = four
both P four six false = six

-- Each family (true is IPv4) holds its addresses.
abbrev pub IsCtx : Bool → (Bool → Option Shape) → (Bool → List Bytes) → Addctx → Type 0
IsCtx is_ipset shapes ips ctx =
    (v4 : Bool) → IsSide is_ipset v4 (shapes v4) (ips v4) (side_of ctx v4)

abbrev pub nothing_held : Bool → List Bytes
nothing_held v4 = []

-- The parts of both families, and how they are sent: a message for each backend of ipset, one
-- transaction for nftables.
abbrev pub AreSent :
    Bool → ℕ → (Bool → Option Shape) → (Bool → List Bytes) → List Bool → List Datagram → Type 0
AreSent is_ipset portid shapes ips exists datagrams =
    (parts4 : List Bytes) × (parts6 : List Bytes) × IsSideSent is_ipset true (shapes true)
      (fresh exists 0 (ips true)) parts4
    × IsSideSent is_ipset false (shapes false) (fresh exists (length (ips true)) (ips false)) parts6
    × (datagrams ≡ (
        if is_ipset
        then datagram_of parts4 ++ datagram_of parts6
        else transaction portid (parts4 ++ parts6)))

-- `end_add_ip` sends, of the addresses held, exactly those whose bits are not set, each family as one
-- well-formed message or not at all; behind it the context holds nothing.
pub end_add_ip-AreSent :
    (is_ipset : Bool) (portid : ℕ) (shapes : Bool → Option Shape) (ips : Bool → List Bytes)
    (exists : List Bool) (ctx : Addctx)
    → IsCtx is_ipset shapes ips ctx
    → let (datagrams, ctx') = end_add_ip is_ipset portid exists ctx in
      AreSent is_ipset portid shapes ips exists datagrams
      × IsCtx is_ipset shapes nothing_held (reset ctx')
unfolding end_add_ip
end_add_ip-AreSent is_ipset portid shapes ips exists ctx w =
    let (sent4, held4) =
      end_side-IsSide is_ipset true (shapes true) exists 0 (ips true) ctx.four (w true) in
    let (sent6, held6) =
      end_side-IsSide is_ipset false (shapes false) exists ctx.four.ipcnt (ips false) ctx.six
        (w false) in
    let count : ctx.four.ipcnt ≡ length (ips true) =
      side-count is_ipset true (shapes true) (ips true) ctx.four (w true) in
    (
      (
        (end_side is_ipset true exists 0 ctx.four).0,
        (end_side is_ipset false exists ctx.four.ipcnt ctx.six).0,
        sent4,
        subst
            (λ n.
              IsSideSent is_ipset false (shapes false) (fresh exists n (ips false))
                (end_side is_ipset false exists ctx.four.ipcnt ctx.six).0)
            count sent6,
        refl,
      ),
      both
          (λ v4.
            IsSide is_ipset v4 (shapes v4) []
              (side_of (reset (end_add_ip is_ipset portid exists ctx).1) v4))
          held4 held6,
    )
