-- ===== src/Ipset/Add/Flushed.antt =====
-- `ipset_end_add_ip` of src/ipset.c: the context holds nothing behind it, however the calls end.
use chinadns_ng.Prelude.{
  ℕ, ◌+◌, ◌≡◌, inl, inr, subst, Bool, true, false, Option, none, some, List, [], arith, ◌==◌,
  if◌then◌else◌, length, max, Bool-cases, ==_iff, ◌>>=◌,
}
use chinadns_ng.Prelude.Words.{Bytes}
use chinadns_ng.Ipset.Context.{Addctx}
use chinadns_ng.Ipset.Add.{ipset_end_add_ip, test_ips, send_req, recv_res}
use chinadns_ng.Ipset.Batch.{
  Datagram, Received, failed, no_msg, received, end_add_ip, side_of, reset, all_errors,
}
use chinadns_ng.Ipset.Add.Holding.{length-nil}
use chinadns_ng.Ipset.Add.Sides.{
  Shape, IsSide, IsCtx, nothing_held, side-count, both, end_add_ip-AreSent,
}

module _ {S : Type 0} where
  -- Where a call returns, the context is as said.
  abbrev pub IsOutcome : (Addctx → Type 0) → Option (Addctx × S) → Type 0
  IsOutcome P none = Unit {0}
  IsOutcome P (some (ctx, s)) = P ctx

  IsOutcome-bind :
      {A : Type 0} (P : Addctx → Type 0) (m : Option A) (f : A → Option (Addctx × S))
      → ((a : A) → IsOutcome P (f a))
      → IsOutcome P (m >>= f)
  IsOutcome-bind P none f h = tt
  IsOutcome-bind P (some a) f h = h a

  module _ (P : Addctx → Type 0) (ctx' : Addctx) (kept : P ctx') where
    IsOutcome-if : (b : Bool) (s : S) → IsOutcome P (if b then some (ctx', s) else none)
    IsOutcome-if true s = kept
    IsOutcome-if false s = tt

    after_recv :
        (res : Received) (s : S)
        → IsOutcome P (elim res [
          | failed ↦ some (ctx', s)
          | no_msg ↦ some (ctx', s)
          | received responses ↦ if all_errors responses then some (ctx', s) else none
        ])
    after_recv failed s = kept
    after_recv no_msg s = kept
    after_recv (received responses) s = IsOutcome-if (all_errors responses) s

    after_send :
        (recvmmsg : ℕ → S → Received × S) (n_msg : ℕ) (sent : Option ℕ) (s : S)
        → IsOutcome P (elim sent [
          | none ↦ some (ctx', s)
          | some n ↦ recv_res recvmmsg n_msg s >>= λ (res, s3). elim res [
            | failed ↦ some (ctx', s3)
            | no_msg ↦ some (ctx', s3)
            | received responses ↦ if all_errors responses then some (ctx', s3) else none
          ]
        ])
    after_send recvmmsg n_msg none s = kept
    after_send recvmmsg n_msg (some n) s =
        IsOutcome-bind P (recv_res recvmmsg n_msg s)
          (λ (res, s3). elim res [
            | failed ↦ some (ctx', s3)
            | no_msg ↦ some (ctx', s3)
            | received responses ↦ if all_errors responses then some (ctx', s3) else none
          ])
          (λ (res, s3). after_recv res s3)

  module _ (sendmmsg : List Datagram → S → Option ℕ × S) (recvmmsg : ℕ → S → Received × S)
      (is_ipset : Bool) (portid : ℕ) (shapes : Bool → Option Shape) (ips : Bool → List Bytes)
      (ctx : Addctx) (w : IsCtx is_ipset shapes ips ctx) where
    -- A context without addresses holds none.
    IsCtx-nothing :
        (ctx.four.ipcnt + ctx.six.ipcnt == 0) ≡ true → IsCtx is_ipset shapes nothing_held ctx
    IsCtx-nothing h =
        let c4 = side-count is_ipset true (shapes true) (ips true) ctx.four (w true) in
        let c6 = side-count is_ipset false (shapes false) (ips false) ctx.six (w false) in
        let sum : ctx.four.ipcnt + ctx.six.ipcnt ≡ 0 =
          (==_iff (ctx.four.ipcnt + ctx.six.ipcnt) 0).0 h in
        both (λ v4. IsSide is_ipset v4 (shapes v4) [] (side_of ctx v4))
          (subst (λ l. IsSide is_ipset true (shapes true) l ctx.four)
            (length-nil (ips true) (omega (arith, c4, sum))) (w true))
          (subst (λ l. IsSide is_ipset false (shapes false) l ctx.six)
            (length-nil (ips false) (omega (arith, c6, sum))) (w false))

    -- Behind `test_ips`.
    abbrev ended : List Bool → S → Option (Addctx × S)
    ended exists s1 =
        let (datagrams, ctx') = end_add_ip is_ipset portid exists ctx in
        if length datagrams == 0
        then some (reset ctx', s1)
        else (send_req sendmmsg datagrams s1 >>= λ (sent, s2). elim sent [
          | none ↦ some (reset ctx', s2)
          | some n ↦ recv_res recvmmsg (max (length datagrams) 2) s2 >>= λ (res, s3). elim res [
            | failed ↦ some (reset ctx', s3)
            | no_msg ↦ some (reset ctx', s3)
            | received responses ↦ if all_errors responses then some (reset ctx', s3) else none
          ]
        ])

    ended-IsCtx :
        (exists : List Bool) (s1 : S)
        → IsOutcome (IsCtx is_ipset shapes nothing_held) (ended exists s1)
    ended-IsCtx exists s1 =
        let (datagrams, ctx') = end_add_ip is_ipset portid exists ctx in
        let P : Addctx → Type 0 = IsCtx is_ipset shapes nothing_held in
        let kept : P (reset ctx') =
          (end_add_ip-AreSent is_ipset portid shapes ips exists ctx w).1 in
        elim (Bool-cases (length datagrams == 0)) [
          | inl nothing ↦ rw nothing kept
          | inr something ↦ rw something (
              IsOutcome-bind P (send_req sendmmsg datagrams s1)
                (λ (sent, s2). elim sent [
                  | none ↦ some (reset ctx', s2)
                  | some n ↦ recv_res recvmmsg (max (length datagrams) 2) s2 >>= λ (res, s3).
                      elim res [
                        | failed ↦ some (reset ctx', s3)
                        | no_msg ↦ some (reset ctx', s3)
                        | received responses ↦
                            if all_errors responses then some (reset ctx', s3) else none
                      ]
                ])
                (λ (sent, s2).
                  after_send P (reset ctx') kept recvmmsg (max (length datagrams) 2) sent s2))
        ]

    -- Where `ipset_end_add_ip` returns, the context holds nothing.
    pub ipset_end_add_ip-IsCtx :
        (s : S)
        → IsOutcome
            (IsCtx is_ipset shapes nothing_held)
            (ipset_end_add_ip sendmmsg recvmmsg is_ipset portid ctx s)
    unfolding ipset_end_add_ip
    ipset_end_add_ip-IsCtx s = elim (Bool-cases (ctx.four.ipcnt + ctx.six.ipcnt == 0)) [
      | inl empty ↦ rw empty (IsCtx-nothing empty)
      | inr full ↦ rw full (
          IsOutcome-bind (IsCtx is_ipset shapes nothing_held)
            (test_ips sendmmsg recvmmsg is_ipset portid ctx s) (λ (exists, s1). ended exists s1)
            (λ (exists, s1). ended-IsCtx exists s1))
    ]
