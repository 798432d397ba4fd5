-- ===== src/Ipset/Add/New.antt =====
-- A new context of src/ipset.c: its messages fit, and it holds no address.
use Prim.Native.Nat.{bit_or}
use mathlib.Core.Option.{some-injective}
use chinadns_ng.Prelude.{
  ◌≢◌, none_ne, ℕ, zero, suc, ◌+◌, ◌-◌, ◌*◌, ◌≤◌, ◌≡◌, inl, inr, refl, subst, Bool, true, false,
  ◌||◌, Option, none, some, [], ◌∷◌, append_assoc, append-nil, arith, ltb, ◌==◌, ==_ne,
  if◌then◌else◌, length, Bool-cases, Option-cases, ◌>>=◌, bind-eq-some, length-append, length-drop,
}
use chinadns_ng.Prelude.Words.{Bytes}
use chinadns_ng.Ipset.{
  ip_n, split_at, family_of, nft_family_maxlen, nft_name_maxlen, NftName, take_part, parts_loop,
  parse_name_nftset,
}
use chinadns_ng.Ipset.Message.{Nlmsg, nlmsg_len, nla_f_nested, u16_bytes}
use chinadns_ng.Ipset.Message.Layout.{grown, nla_header}
use chinadns_ng.Ipset.Context.{Side, init_testmsg, init_addmsg, new_side}
use chinadns_ng.Ipset.Context.Room.{
  IsOpened, init_testmsg_ipset-some, init_testmsg_nftset-some, init_addmsg_ipset-IsOpened,
  init_addmsg_nftset-IsOpened,
}
use chinadns_ng.Ipset.Batch.{elem_size}
use chinadns_ng.Ipset.Add.Holding.{IsHolding}
use chinadns_ng.Ipset.Add.Sides.{Shape, IsSide}

-- Table and set have at most 255 bytes.
abbrev IsShort : NftName → Type 0
IsShort acc = (length acc.table_name ≤ 255) × (length acc.set_name ≤ 255)

abbrev WhereSome : (NftName → Type 0) → Option NftName → Type 0
WhereSome P none = Unit {0}
WhereSome P (some acc) = P acc

WhereSome-bind :
    {A : Type 0} (P : NftName → Type 0) (m : Option A) (f : A → Option NftName)
    → ((a : A) → WhereSome P (f a))
    → WhereSome P (m >>= f)
WhereSome-bind P none f h = tt
WhereSome-bind P (some a) f h = h a

take_part-IsShort :
    (part : Bytes) (acc : NftName) → IsShort acc → WhereSome IsShort (take_part part acc)
unfolding take_part
take_part-IsShort part acc (table, set) = elim (Bool-cases (acc.n == 1)) [
  | inl first ↦ elim (Bool-cases (ltb (nft_family_maxlen - 1) (length part))) [
    | inl long ↦ rw (take_part, first, long) tt
    | inr fits ↦
        rw (take_part, first, fits)
          (WhereSome-bind IsShort (family_of part) (λ family. some (record acc { family = family }))
            (λ family. (table, set)))
  ]
  | inr later ↦ elim (Bool-cases (ltb 3 acc.n)) [
    | inl many ↦ rw (take_part, later, many) tt
    | inr few ↦ elim (Bool-cases (ltb (length part) 1 || ltb (nft_name_maxlen - 1) (length part))) [
      | inl wrong ↦ rw (take_part, later, few, wrong) tt
      | inr right ↦
          let short : length part ≤ 255 = ground arith in
          elim (Bool-cases (acc.n == 2)) [
            | inl second ↦ rw (take_part, later, few, right, second) (short, set)
            | inr third ↦ rw (take_part, later, few, right, third) (table, short)
          ]
    ]
  ]
]

-- Behind a part: the end, or the next part.
next_part-IsShort :
    (fuel : ℕ) (behind : Option Bytes) (acc : NftName)
    → ((next : Bytes) → WhereSome IsShort (parts_loop fuel next acc))
    → IsShort acc
    → WhereSome IsShort (elim behind [ none ↦ some acc | some next ↦ parts_loop fuel next acc ])
next_part-IsShort fuel none acc rest short = short
next_part-IsShort fuel (some next) acc rest short = rest next

parts_loop-IsShort :
    (fuel : ℕ) (start : Bytes) (acc : NftName)
    → IsShort acc
    → WhereSome IsShort (parts_loop fuel start acc)
unfolding parts_loop
parts_loop-IsShort zero start acc short = tt
parts_loop-IsShort (suc fuel) [] acc short = short
parts_loop-IsShort (suc fuel) (c ∷ start) acc short =
    let (part, behind) = split_at b'@' (c ∷ start) in
    let counted : NftName = record acc { n = acc.n + 1 } in
    let part_short = take_part-IsShort part counted short in
    elim (Option-cases (take_part part counted)) [
      | inl refused ↦ rw refused tt
      | inr (acc', taken) ↦
          let short' : IsShort acc' = subst (WhereSome IsShort) taken part_short in
          rw taken (
            next_part-IsShort fuel behind acc' (λ next. parts_loop-IsShort fuel next acc' short')
              short')
    ]

-- The table and the set of a name that `parse_name_nftset` accepts fit into its buffers.
pub parse_name_nftset-IsShort :
    (name : Bytes) {parsed : NftName} → parse_name_nftset name ≡ some parsed → IsShort parsed
unfolding parse_name_nftset
parse_name_nftset-IsShort name {parsed} h =
    let start : NftName = record { n = 0; family = 0; table_name = []; set_name = [] } in
    let (acc, e, f) =
      bind-eq-some (parts_loop (length name + 1) name start)
        (λ acc. if acc.n == 3 then some acc else none) h in
    let short : IsShort acc =
      subst (WhereSome IsShort) e
        (parts_loop-IsShort (length name + 1) name start (omega arith, omega arith)) in
    elim (Bool-cases (acc.n == 3)) [
      | inl three ↦ subst IsShort (some-injective acc parsed (rw three at f)) short
      | inr other ↦ absurd (none_ne (rw other at f))
    ]

-- A name that is no error: of 1 to 31 bytes for ipset, one that is parsed for nftables.
abbrev pub IsSetName : Bool → Bytes → Type 0
IsSetName true name = (1 ≤ length name) × (length name ≤ 31)
IsSetName false name =
    (parsed : NftName) × (parse_name_nftset name ≡ some parsed) × (1 ≤ length name)

named_ne : (is_ipset : Bool) (name : Bytes) → IsSetName is_ipset name → length name ≢ 0
named_ne true name (some_bytes, short) = omega (arith, some_bytes)
named_ne false name (parsed, h, some_bytes) = omega (arith, some_bytes)

opened-IsHolding :
    (is_ipset v4 : Bool) (attrtype : ℕ) (testmsg : Nlmsg) (msg : Nlmsg)
    → 4 + ip_n * elem_size is_ipset v4 ≤ length msg.spare
    → let m : Nlmsg = grown msg (nla_header 4 attrtype) in
      (w : IsHolding is_ipset v4 msg.used attrtype []
        (record { testmsg = some testmsg; msg = some m; baselen = nlmsg_len m; ipcnt = 0 }))
      × (w.message.header ≡ msg.header)
opened-IsHolding is_ipset v4 attrtype testmsg msg le =
    let m : Nlmsg = grown msg (nla_header 4 attrtype) in
    (
      record {
        message = m;
        x = u16_bytes 4;
        rest = m.spare;
        is_msg = refl;
        two = refl;
        memory = simp (append_assoc, append-nil);
        in_use = inl refl;
        baselen = omega (arith, length-append msg.used (nla_header 4 attrtype));
        count = refl;
        few = omega arith;
        sizes = tt;
        room = omega (
          arith,
          le,
          length-append m.used m.spare,
          length-append msg.used (nla_header 4 attrtype),
          length-drop 4 msg.spare,
        );
      },
      refl,
    )

module _ (memory : ℕ → Bytes) (portid : ℕ) (sized : (n : ℕ) → length (memory n) ≡ n) where
  new_msgs :
      (is_ipset : Bool) (name : Bytes) (v4 : Bool)
      → IsSetName is_ipset name
      → (testmsg : Nlmsg) × (attrtype : ℕ) × (init_testmsg memory portid is_ipset name v4 true
          ≡ some testmsg)
        × IsOpened memory portid sized is_ipset v4 attrtype
            (init_addmsg memory portid is_ipset name v4)
  unfolding init_testmsg init_addmsg
  new_msgs true name v4 (some_bytes, short) =
      let (t, e) = init_testmsg_ipset-some memory portid sized name v4 true some_bytes short in
      (
        t,
        bit_or 8 nla_f_nested,
        e,
        init_addmsg_ipset-IsOpened memory portid sized name v4 some_bytes short,
      )
  new_msgs false name v4 (parsed, h, some_bytes) =
      let (table, set) = parse_name_nftset-IsShort name h in
      let (t, e) = init_testmsg_nftset-some memory portid sized name v4 h table set in
      (
        t,
        bit_or 3 nla_f_nested,
        e,
        init_addmsg_nftset-IsOpened memory portid sized name v4 h table set,
      )

  -- For a valid name, one family of a new context is made: its messages fit into their buffers, there
  -- is room for IP_N addresses, and none is held.
  pub new_side-IsSide :
      (is_ipset : Bool) (name : Bytes) (v4 : Bool)
      → IsSetName is_ipset name
      → (side : Side) × (shape : Shape) × (new_side memory portid is_ipset name v4 ≡ some side)
        × IsSide is_ipset v4 (some shape) [] side
  unfolding new_side
  new_side-IsSide is_ipset name v4 valid =
      let (testmsg, attrtype, e, (msg, opened, room)) = new_msgs is_ipset name v4 valid in
      let m : Nlmsg = grown msg (nla_header 4 attrtype) in
      let named : (length name == 0) ≡ false =
        ==_ne (length name) 0 (named_ne is_ipset name valid) in
      (
        record { testmsg = some testmsg; msg = some m; baselen = nlmsg_len m; ipcnt = 0 },
        record { header = msg.header; front = msg.used; attrtype = attrtype },
        rw (named, e, opened) refl,
        opened-IsHolding is_ipset v4 attrtype testmsg msg room,
      )
