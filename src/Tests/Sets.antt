-- ===== src/Tests/Sets.antt =====
-- Addresses for ipset and nftables.
use chinadns_ng.Prelude.{
  equal, ℕ, ◌+◌, ◌≡◌, refl, Bool, true, false, Option, none, some, List, [], ◌∷◌, arith, length,
  replicate, zero, suc, ap, ◌≤◌, subst, All, ◌∙◌, ◌↔◌, ◌++◌,
}
use chinadns_ng.Prelude.Words.{Bytes}
use chinadns_ng.Ipset.{
  split_at, parse_name, parse_name46, family_of, take_part, parts_loop, parse_name_nftset,
}
use chinadns_ng.Ipset.Message.{
  memcpy, nlmsg_add_data, nlmsg_add_nla, add_elem_ipset, add_elem_nftset,
}
use chinadns_ng.Ipset.Context.{
  Side, Addctx, add_setname_ipset, add_names_nftset, init_testmsg_ipset, init_addmsg_ipset,
  init_testmsg_nftset, init_addmsg_nftset, init_testmsg, init_addmsg, new_side, init,
  ipset_new_testctx, ipset_new_addctx,
}
use chinadns_ng.Ipset.Add.{
  sendall_loop, send_req, recv_res, test_ips, ipset_end_add_ip, ipset_add_ip, ipset_test_ip,
}
use chinadns_ng.Ipset.Batch.{
  Datagram, Response, errcode, Received, received, increment, add_ip_ipset, add_ip_nftset,
  test_res_ipset, test_res_nftset, next_ips, save_results, kept_elems, end_msg, end_add_ip, side_of,
  reset,
}
use chinadns_ng.Ipset.Errors.{find_error, ipset_strerror}
use chinadns_ng.Ipset.Accepted.{nft_name, IsNftName, parse_name_nftset-IsNftName}
use chinadns_ng.Ipset.Add.Delivered.{IsSending, IsDelivered, send_req-IsDelivered}
use chinadns_ng.Ipset.Add.Holding.{add_to_side-IsHolding}
use chinadns_ng.Ipset.Add.Sent.{fresh}
use chinadns_ng.Ipset.Add.Sides.{
  Shape, IsSide, IsCtx, AreSent, nothing_held, both, end_add_ip-AreSent,
}
use chinadns_ng.Ipset.Add.Calls.{Returns, IsAck, IsCounting, IsAcknowledging}
use chinadns_ng.Ipset.Add.Returns.{ipset_end_add_ip-Returns}
use chinadns_ng.Ipset.Add.New.{IsSetName, new_side-IsSide}

program : Unit {0}
unfolding split_at parse_name parse_name46 family_of take_part parts_loop parse_name_nftset memcpy
    nlmsg_add_data nlmsg_add_nla add_elem_ipset add_elem_nftset add_setname_ipset add_names_nftset
    init_testmsg_ipset init_addmsg_ipset init_testmsg_nftset init_addmsg_nftset init_testmsg
    init_addmsg new_side init ipset_new_testctx ipset_new_addctx increment add_ip_ipset
    add_ip_nftset test_res_ipset test_res_nftset next_ips save_results kept_elems end_msg end_add_ip
    sendall_loop send_req recv_res test_ips ipset_end_add_ip ipset_add_ip ipset_test_ip equal fresh
program = tt

abbrev blank : ℕ → Bytes
blank n = replicate n 0

length-blank : (n : ℕ) → length (blank n) ≡ n
length-blank zero = refl
length-blank (suc n) = ap suc (length-blank n)

-- "x" for IPv4, and no name for IPv6.
names_parsed : parse_name46 (b'x' ∷ []) ≡ some (b'x' ∷ [], [])
unfolding program
names_parsed = refl

nothing_named : parse_name46 (b'n' ∷ b'u' ∷ b'l' ∷ b'l' ∷ []) ≡ none
unfolding program
nothing_named = refl

carries : increment 4 (10 ∷ 0 ∷ 255 ∷ 255 ∷ []) ≡ 10 ∷ 1 ∷ 0 ∷ 0 ∷ []
unfolding program
carries = refl

wraps_around : increment 4 (255 ∷ 255 ∷ 255 ∷ 255 ∷ []) ≡ 0 ∷ 0 ∷ 0 ∷ 0 ∷ []
unfolding program
wraps_around = refl

new_side-IsSide_example :
    (side : Side) × (shape : Shape) × (new_side blank 7 true (b'x' ∷ []) true ≡ some side)
    × IsSide true true (some shape) [] side
new_side-IsSide_example =
    new_side-IsSide blank 7 length-blank true (b'x' ∷ []) true (omega arith, omega arith)

abbrev ip1 : Bytes
ip1 = 10 ∷ 0 ∷ 0 ∷ 1 ∷ []

-- A context with the set "x" for IPv4 and none for IPv6.
abbrev no_side : Side
no_side = record { testmsg = none; msg = none; baselen = 0; ipcnt = 0 }

abbrev named_x : IsSetName true (b'x' ∷ [])
named_x = (omega arith, omega arith)

abbrev side_x : Side
side_x = (new_side-IsSide blank 7 length-blank true (b'x' ∷ []) true named_x).0

abbrev shape_x : Shape
shape_x = (new_side-IsSide blank 7 length-blank true (b'x' ∷ []) true named_x).1

abbrev side_x-IsSide : IsSide true true (some shape_x) [] side_x
side_x-IsSide = (new_side-IsSide blank 7 length-blank true (b'x' ∷ []) true named_x).3

abbrev shapes : Bool → Option Shape
shapes true = some shape_x
shapes false = none

abbrev no_side-IsSide : IsSide true false none [] no_side
no_side-IsSide = (refl, refl, refl)

abbrev new_ctx : Addctx
new_ctx = record { four = side_x; six = no_side }

-- A kernel that takes everything and says that each address is new; its state counts the datagrams.
abbrev send_all : List Datagram → ℕ → Option ℕ × ℕ
send_all datagrams s = (some (length datagrams), s + length datagrams)

abbrev none_exists : ℕ → ℕ → Received × ℕ
none_exists n s = (received (replicate n (errcode 4103)), s)

-- The address is added to the side, and the context ends.
abbrev one_held : Bool → List Bytes
one_held true = ip1 ∷ []
one_held false = []

abbrev side_one : Side
side_one =
    (add_to_side-IsHolding true true shape_x.front shape_x.attrtype [] side_x side_x-IsSide.0 ip1
      refl (omega arith)).0

abbrev one_ctx : Addctx
one_ctx = record { four = side_one; six = no_side }

one_ctx-IsCtx : IsCtx true shapes one_held one_ctx
one_ctx-IsCtx =
    let (side, e, (w, h)) =
      add_to_side-IsHolding true true shape_x.front shape_x.attrtype [] side_x side_x-IsSide.0 ip1
        refl (omega arith) in
    both (λ v4. IsSide true v4 (shapes v4) (one_held v4) (side_of one_ctx v4))
      (w, h ∙ side_x-IsSide.1) no_side-IsSide

end_add_ip-AreSent_example :
    let (datagrams, ctx') = end_add_ip true 7 (false ∷ []) one_ctx in
    AreSent true 7 shapes one_held (false ∷ []) datagrams
    × IsCtx true shapes nothing_held (reset ctx')
end_add_ip-AreSent_example =
    end_add_ip-AreSent true 7 shapes one_held (false ∷ []) one_ctx one_ctx-IsCtx

-- "ip@t@s" with one "@" more at the end.
abbrev set_text : Bytes
set_text = b'i' ∷ b'p' ∷ b'@' ∷ b't' ∷ b'@' ∷ b's' ∷ b'@' ∷ []

parses_set_text : parse_name_nftset set_text ≡ some (nft_name 2 (b't' ∷ []) (b's' ∷ []))
unfolding program
parses_set_text = refl

parse_name_nftset-IsNftName_example :
    (parse_name_nftset set_text ≡ some (nft_name 2 (b't' ∷ []) (b's' ∷ [])))
    ↔ IsNftName set_text (nft_name 2 (b't' ∷ []) (b's' ∷ []))
parse_name_nftset-IsNftName_example =
    parse_name_nftset-IsNftName set_text (nft_name 2 (b't' ∷ []) (b's' ∷ []))

-- A system that sends one datagram in each call, and remembers what it sent.
abbrev send_one : List Datagram → List Datagram → Option ℕ × List Datagram
send_one [] sent = (none, sent)
send_one (datagram ∷ datagrams) sent = (some 1, sent ++ datagram ∷ [])

send_one-IsSending : IsSending send_one (λ sent. sent)
send_one-IsSending [] sent h = absurd (omega arith)
send_one-IsSending (datagram ∷ datagrams) sent h =
    (1, sent ++ datagram ∷ [], refl, omega arith, omega arith, refl)

abbrev three_datagrams : List Datagram
three_datagrams = ((1 ∷ []) ∷ []) ∷ ((2 ∷ []) ∷ []) ∷ ((3 ∷ []) ∷ []) ∷ []

sends_three : send_req send_one three_datagrams [] ≡ some (some 3, three_datagrams)
unfolding program
sends_three = refl

send_req-IsDelivered_example :
    (s' : List Datagram) × (send_req send_one three_datagrams [] ≡ some (some 3, s'))
    × IsDelivered send_one (λ sent. sent) three_datagrams [] s'
send_req-IsDelivered_example =
    send_req-IsDelivered send_one (λ sent. sent) three_datagrams [] send_one-IsSending (omega arith)
      (omega arith)

names_error : ipset_strerror (λ errcode. "?") 4352 ≡ "IPSET_ERR_HASH_FULL"
unfolding find_error ipset_strerror
names_error = refl

-- A kernel that answers each request with one acknowledgement.
abbrev acknowledged : List Response
acknowledged = errcode 4103 ∷ []

abbrev one_ack : ℕ → ℕ → Received × ℕ
one_ack n s = (received acknowledged, s)

send_all-IsCounting : IsCounting send_all one_ack
send_all-IsCounting datagrams s n some_left e =
    let all : length datagrams ≡ n = cc in (omega (arith, all, some_left), omega (arith, all))

one_ack-IsAcknowledging : IsAcknowledging send_all one_ack
one_ack-IsAcknowledging n s responses e =
    let same : acknowledged ≡ responses = cc in
    subst (λ responses. (1 ≤ length responses) × All IsAck responses) same (omega arith, (tt, tt))

one_ctx-few : one_ctx.four.ipcnt ≤ 10
one_ctx-few =
    let (side, e, (w, h)) =
      add_to_side-IsHolding true true shape_x.front shape_x.attrtype [] side_x side_x-IsSide.0 ip1
        refl (omega arith) in
    omega (arith, w.count)

ipset_end_add_ip-Returns_example : Returns (ipset_end_add_ip send_all one_ack true 7 one_ctx 0)
ipset_end_add_ip-Returns_example =
    ipset_end_add_ip-Returns send_all one_ack true 7 one_ctx 0 send_all-IsCounting
      one_ack-IsAcknowledging one_ctx-few (omega arith)
