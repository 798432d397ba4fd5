-- ===== src/Ipset/Add/Returns.antt =====
-- `ipset_end_add_ip` of src/ipset.c fails no assertion, where the system calls keep to what they promise.
use chinadns_ng.Prelude.{
  ℕ, zero, suc, ◌+◌, ◌*◌, ◌≤◌, ◌≡◌, refl, ap, Bool, true, false, Option, none, some, ◌>>=◌, List,
  [], ◌∷◌, ◌++◌, ◌==◌, if◌then◌else◌, length, map, max, arith, All, length-append, replicate,
  Bool-cases, Option-cases, inl, inr, set,
}
use chinadns_ng.Prelude.Words.{Bytes}
use chinadns_ng.Ipset.{ip_n}
use chinadns_ng.Ipset.Context.{Side, Addctx}
use chinadns_ng.Ipset.Message.{Nlmsg}
use chinadns_ng.Ipset.Batch.{
  Datagram, Response, errcode, answer, Received, failed, no_msg, received, test_res_ipset,
  test_res_nftset, test_res, next_ips, test_requests, save_results, datagram_of, transaction,
  end_add_ip, reset, all_errors,
}
use chinadns_ng.Ipset.Add.{send_req, recv_res, test_ips, ipset_end_add_ip}
use chinadns_ng.Ipset.Add.Calls.{
  IsAck, Returns, Returns-bind, IsCounting, IsAcknowledging, request-Returns,
}

all_errors-IsAck : (responses : List Response) → All IsAck responses → all_errors responses ≡ true
all_errors-IsAck [] v = refl
all_errors-IsAck (errcode n ∷ responses) v = all_errors-IsAck responses v.1
all_errors-IsAck (answer type' ∷ responses) v = absurd v.0

test_res-errcode :
    (is_ipset : Bool) (n : ℕ) → (found : Bool) × (test_res is_ipset (errcode n) ≡ some found)
unfolding test_res_ipset test_res_nftset
test_res-errcode true n = (n == 0, refl)
test_res-errcode false n = (false, refl)

save_results-IsAck :
    (is_ipset : Bool) (responses : List Response) (i : ℕ) (exists : List Bool)
    → All IsAck responses
    → (results : List Bool) × (save_results is_ipset responses i exists ≡ some results)
unfolding save_results
save_results-IsAck is_ipset [] i exists v = (exists, refl)
save_results-IsAck is_ipset (errcode n ∷ responses) i exists v =
    let (found, e) = test_res-errcode is_ipset n in
    let (results, r) =
      save_results-IsAck is_ipset responses (i + 1) (if found then set exists i true else exists)
        v.1 in
    (results, rw (save_results, e) r)
save_results-IsAck is_ipset (answer type' ∷ responses) i exists v = absurd v.0

length-next_ips :
    (is_ipset v4 : Bool) (msg : Nlmsg) (baselen i ipn : ℕ)
    → length (next_ips is_ipset v4 msg baselen i ipn) ≡ ipn
unfolding next_ips
length-next_ips is_ipset v4 msg baselen i zero = refl
length-next_ips is_ipset v4 msg baselen i (suc ipn) =
    ap suc (length-next_ips is_ipset v4 msg baselen (i + 1) ipn)

length-map : {A B : Type 0} (f : A → B) (xs : List A) → length (map f xs) ≡ length xs
length-map f [] = refl
length-map f (x ∷ xs) = ap suc (length-map f xs)

length-test_requests :
    (is_ipset v4 : Bool) (side : Side) → length (test_requests is_ipset v4 side) ≤ side.ipcnt
length-test_requests is_ipset v4 side = elim (Option-cases side.msg) [
  | inl null ↦ rw null (omega arith)
  | inr (msg, there) ↦ elim (Option-cases side.testmsg) [
    | inl null ↦ rw (there, null) (omega arith)
    | inr (testmsg, has) ↦
        rw (there, has)
          (omega (
            arith,
            length-map _ (next_ips is_ipset v4 msg side.baselen 0 side.ipcnt),
            length-next_ips is_ipset v4 msg side.baselen 0 side.ipcnt,
          ))
  ]
]

length-datagram_of : (parts : List Bytes) → length (datagram_of parts) ≤ 1
length-datagram_of [] = omega arith
length-datagram_of (part ∷ parts) = omega arith

length-transaction : (portid : ℕ) (parts : List Bytes) → length (transaction portid parts) ≤ 1
length-transaction portid [] = omega arith
length-transaction portid (part ∷ parts) = omega arith

length-end_add_ip :
    (is_ipset : Bool) (portid : ℕ) (exists : List Bool) (ctx : Addctx)
    → length (end_add_ip is_ipset portid exists ctx).0 ≤ 2
unfolding end_add_ip
length-end_add_ip true portid exists ctx =
    omega (arith, length-append (datagram_of _) (datagram_of _), length-datagram_of _)
length-end_add_ip false portid exists ctx = omega (arith, length-transaction portid _)

module _ {S : Type 0} (sendmmsg : List Datagram → S → Option ℕ × S)
    (recvmmsg : ℕ → S → Received × S) (is_ipset : Bool) (portid : ℕ) where
  test_ips-Returns :
      IsCounting sendmmsg recvmmsg
      → IsAcknowledging sendmmsg recvmmsg
      → (ctx : Addctx) (s : S) → ctx.four.ipcnt ≤ ip_n
      → ctx.six.ipcnt ≤ ip_n
      → Returns (test_ips sendmmsg recvmmsg is_ipset portid ctx s)
  unfolding test_ips
  test_ips-Returns counts acks ctx s few4 few6 =
      let requests : List Datagram =
        test_requests is_ipset true ctx.four ++ test_requests is_ipset false ctx.six in
      let few : length requests ≤ ip_n * 2 = omega (
        arith,
        length-append (test_requests is_ipset true ctx.four) (test_requests is_ipset false ctx.six),
        length-test_requests is_ipset true ctx.four,
        length-test_requests is_ipset false ctx.six,
        few4,
        few6,
      ) in
      elim (Bool-cases (length requests == 0)) [
        | inl nothing ↦ ((replicate (ip_n * 2) false, s), rw (test_ips, nothing) refl)
        | inr something ↦
            let some_left : 1 ≤ length requests = ground arith in
            let zeros : List Bool = replicate (ip_n * 2) false in
            let save : List Response → S → Option (List Bool × S) = λ responses s2.
              save_results is_ipset responses 0 zeros >>= λ exists. some (exists, s2) in
            rw something (
              request-Returns sendmmsg recvmmsg save (λ s2. (zeros, s2))
                (λ responses s2 v.
                  let (results, e) = save_results-IsAck is_ipset responses 0 zeros v in
                  ((results, s2), rw e refl))
                counts acks (λ n. n) requests s some_left few
                (λ n some_msg le. (some_msg, omega (arith, le, few))))
      ]

  abbrev ended : Addctx → List Bool → S → Option (Addctx × S)
  ended ctx exists s1 =
      let (datagrams, ctx') = end_add_ip is_ipset portid exists ctx in
      if length datagrams == 0
      then some (reset ctx', s1)
      else (send_req sendmmsg datagrams s1 >>= λ (sent, s2). elim sent [
        | none ↦ some (reset ctx', s2)
        | some n ↦ recv_res recvmmsg (max (length datagrams) 2) s2 >>= λ (res, s3). elim res [
          | failed ↦ some (reset ctx', s3)
          | no_msg ↦ some (reset ctx', s3)
          | received responses ↦ if all_errors responses then some (reset ctx', s3) else none
        ]
      ])

  ended-Returns :
      IsCounting sendmmsg recvmmsg
      → IsAcknowledging sendmmsg recvmmsg
      → (ctx : Addctx) (exists : List Bool) (s1 : S) → Returns (ended ctx exists s1)
  ended-Returns counts acks ctx exists s1 =
      let (datagrams, ctx') = end_add_ip is_ipset portid exists ctx in
      let few : length datagrams ≤ 2 = length-end_add_ip is_ipset portid exists ctx in
      elim (Bool-cases (length datagrams == 0)) [
        | inl nothing ↦ ((reset ctx', s1), rw nothing refl)
        | inr something ↦
            let some_left : 1 ≤ length datagrams = ground arith in
            let check : List Response → S → Option (Addctx × S) =
              λ responses s3. if all_errors responses then some (reset ctx', s3) else none in
            rw something (
              request-Returns sendmmsg recvmmsg check (λ s3. (reset ctx', s3))
                (λ responses s3 v. ((reset ctx', s3), rw (all_errors-IsAck responses v) refl))
                counts acks (λ n. max (length datagrams) 2) datagrams s1 some_left
                (omega (arith, few)) (λ n some_msg le. (omega (arith, few), omega (arith, few))))
      ]

  -- Where a call of sendmmsg that does not fail sends a datagram at least and one of recvmmsg gives
  -- a message at least, each of them an acknowledgement, `ipset_end_add_ip` returns: none of its
  -- assertions fails on a context of at most IP_N addresses for each family.
  pub ipset_end_add_ip-Returns :
      (ctx : Addctx) (s : S)
      → IsCounting sendmmsg recvmmsg
      → IsAcknowledging sendmmsg recvmmsg
      → ctx.four.ipcnt ≤ ip_n
      → ctx.six.ipcnt ≤ ip_n
      → Returns (ipset_end_add_ip sendmmsg recvmmsg is_ipset portid ctx s)
  unfolding ipset_end_add_ip
  ipset_end_add_ip-Returns ctx s counts acks few4 few6 =
      elim (Bool-cases (ctx.four.ipcnt + ctx.six.ipcnt == 0)) [
        | inl empty ↦ ((ctx, s), rw (ipset_end_add_ip, empty) refl)
        | inr full ↦
            let ((exists, s1), e) = test_ips-Returns counts acks ctx s few4 few6 in
            rw full (
              Returns-bind (test_ips sendmmsg recvmmsg is_ipset portid ctx s)
                (λ (exists, s1). ended ctx exists s1) (exists, s1) e
                (ended-Returns counts acks ctx exists s1))
      ]
