-- ===== src/Ipset/Add/Calls.antt =====
-- `send_req` and `recv_res` of src/ipset.c return, where the system calls keep to what they promise.
use chinadns_ng.Prelude.{
  ℕ, zero, suc, ◌+◌, ◌-◌, ◌*◌, ◌≤◌, ◌<◌, ◌≡◌, ◌≢◌, refl, ap, ◌∙◌, false, ◌||◌, Option, none, some,
  ◌>>=◌, List, [], ◌∷◌, ltb, ◌==◌, if◌then◌else◌, length, drop, arith, All, length-drop, Bool-cases,
  Option-cases, inl, inr, ==_ne, le→ltb, ltb→lt,
}
use chinadns_ng.Ipset.{ip_n}
use chinadns_ng.Ipset.Batch.{
  Datagram, Response, errcode, answer, Received, failed, no_msg, received,
}
use chinadns_ng.Ipset.Add.{sendall_loop, send_req, recv_res}

-- An acknowledgement, NLMSG_ERROR.
abbrev pub IsAck : Response → Type 0
IsAck (errcode n) = Unit {0}
IsAck (answer type') = ⊥

-- The code returns: no assertion fails.
abbrev pub Returns : {A : Type 0} → Option A → Type 0
Returns {A} o = (a : A) × (o ≡ some a)

pub Returns-bind :
    {A B : Type 0} (m : Option A) (f : A → Option B) (a : A)
    → m ≡ some a
    → Returns (f a)
    → Returns (m >>= f)
Returns-bind m f a e (b, r) = (b, ap (λ o. o >>= f) e ∙ r)

module _ {S : Type 0} (sendmmsg : List Datagram → S → Option ℕ × S)
    (recvmmsg : ℕ → S → Received × S) where
  -- sendmmsg(2): a call that does not fail sends one datagram at least, and no more than there are.
  abbrev pub IsCounting : Type 0
  IsCounting =
      (datagrams : List Datagram) (s : S) (n : ℕ)
      → 1 ≤ length datagrams
      → (sendmmsg datagrams s).0 ≡ some n
      → (1 ≤ n) × (n ≤ length datagrams)

  -- netlink(7) and recvmmsg(2): a call that does not fail gives a message at least, and every message
  -- is an acknowledgement, as all that ipset sends are. (nftables may answer a test with an element.)
  abbrev pub IsAcknowledging : Type 0
  IsAcknowledging =
      (n : ℕ) (s : S) (responses : List Response)
      → (recvmmsg n s).0 ≡ received responses
      → (1 ≤ length responses) × All IsAck responses

  sendall_loop-returns :
      IsCounting
      → (fuel : ℕ) (datagrams : List Datagram) (nsent : ℕ) (s : S) → 1 ≤ length datagrams
      → length datagrams ≤ fuel
      → (k : ℕ) × (s' : S) × (sendall_loop sendmmsg fuel datagrams nsent s ≡ some (k, s'))
        × (k ≤ nsent + length datagrams)
  unfolding sendall_loop
  sendall_loop-returns counts zero datagrams nsent s some_left enough = absurd (omega arith)
  sendall_loop-returns counts (suc fuel) datagrams nsent s some_left enough =
      elim (Option-cases (sendmmsg datagrams s).0) [
        | inl fails ↦ (nsent, (sendmmsg datagrams s).1, rw (sendall_loop, fails) refl, omega arith)
        | inr (n, sent) ↦
            let (some_sent, fits) = counts datagrams s n some_left sent in
            let ne : n ≢ 0 = omega (arith, some_sent) in
            let s1 : S = (sendmmsg datagrams s).1 in
            elim (Bool-cases (ltb n (length datagrams))) [
              | inl more ↦
                  let left : List Datagram = drop n datagrams in
                  let count : length left ≡ length datagrams - n = length-drop n datagrams in
                  let lt : n < length datagrams = ltb→lt n (length datagrams) more in
                  let (k, s', e, le) =
                    sendall_loop-returns counts fuel left (nsent + n) s1 (omega (arith, count, lt))
                      (omega (arith, count, enough, some_sent)) in
                  (
                    k,
                    s',
                    rw (sendall_loop, sent, ==_ne n 0 ne, more) e,
                    omega (arith, le, count, fits),
                  )
              | inr done ↦ (
                nsent + n,
                s1,
                rw (sendall_loop, sent, ==_ne n 0 ne, done) refl,
                omega (arith, fits),
              )
            ]
      ]

  -- The result of `send_req`: -1, or as many as can be received.
  abbrev IsSent : ℕ → Option ℕ → Type 0
  IsSent limit none = Unit {0}
  IsSent limit (some n) = (1 ≤ n) × (n ≤ limit)

  send_req-returns :
      IsCounting
      → (datagrams : List Datagram) (s : S) → 1 ≤ length datagrams
      → length datagrams ≤ ip_n * 2
      → (sent : Option ℕ) × (s' : S) × (send_req sendmmsg datagrams s ≡ some (sent, s'))
        × IsSent (length datagrams) sent
  unfolding send_req
  send_req-returns counts datagrams s some_left few =
      let ne : length datagrams ≢ 0 = omega (arith, some_left) in
      let (k, s', e, le) =
        sendall_loop-returns counts (length datagrams) datagrams 0 s some_left (omega arith) in
      elim (Bool-cases (k == 0)) [
        | inl nothing ↦ (
          none,
          s',
          rw
              (
                send_req,
                ==_ne (length datagrams) 0 ne,
                le→ltb (ip_n * 2) (length datagrams) few,
                e,
                nothing,
              )
              refl,
          tt,
        )
        | inr something ↦
            let some_sent : 1 ≤ k = ground arith in
            (
              some k,
              s',
              rw
                  (
                    send_req,
                    ==_ne (length datagrams) 0 ne,
                    le→ltb (ip_n * 2) (length datagrams) few,
                    e,
                    something,
                  )
                  refl,
              (some_sent, omega (arith, le)),
            )
      ]

  -- What is received: acknowledgements, if anything.
  abbrev AreAcks : Received → Type 0
  AreAcks failed = Unit {0}
  AreAcks no_msg = Unit {0}
  AreAcks (received responses) = All IsAck responses

  -- `recv_res`, given what the system call returns.
  abbrev checked : ℕ → Received × S → Option (Received × S)
  checked n result = if (n == 0) || ltb (ip_n * 2) n then none else (elim result.0 [
    | failed ↦ some (failed, result.1)
    | no_msg ↦ some (no_msg, result.1)
    | received [] ↦ none
    | received (response ∷ rest) ↦ some (received (response ∷ rest), result.1)
  ])

  recv_res-checked : (n : ℕ) (s : S) → recv_res recvmmsg n s ≡ checked n (recvmmsg n s)
  unfolding recv_res
  recv_res-checked n s = refl

  checked-AreAcks :
      (n : ℕ) (s' : S) (res : Received)
      → (n == 0) ≡ false
      → ltb (ip_n * 2) n ≡ false
      → ((responses : List Response)
          → res ≡ received responses
          → (1 ≤ length responses) × All IsAck responses)
      → (checked n (res, s') ≡ some (res, s')) × AreAcks res
  checked-AreAcks n s' failed some_msg few law = (rw (some_msg, few) refl, tt)
  checked-AreAcks n s' no_msg some_msg few law = (rw (some_msg, few) refl, tt)
  checked-AreAcks n s' (received []) some_msg few law = absurd (omega (arith, (law [] refl).0))
  checked-AreAcks n s' (received (response ∷ rest)) some_msg few law =
      (rw (some_msg, few) refl, (law (response ∷ rest) refl).1)

  recv_res-returns :
      IsAcknowledging
      → (n : ℕ) (s : S) → 1 ≤ n
      → n ≤ ip_n * 2
      → (res : Received) × (s' : S) × (recv_res recvmmsg n s ≡ some (res, s')) × AreAcks res
  recv_res-returns acks n s some_msg few =
      let ne : n ≢ 0 = omega (arith, some_msg) in
      let (res, s') = recvmmsg n s in
      let (e, v) = checked-AreAcks n s' res (==_ne n 0 ne) (le→ltb (ip_n * 2) n few) (acks n s) in
      (res, s', recv_res-checked n s ∙ e, v)

  -- Behind a `send_req`: what is received is handled by `handle`, and `fall` is the result without it.
  module _ {B : Type 0} (handle : List Response → S → Option B) (fall : S → B) where
    abbrev on_received : Received → S → Option B
    on_received res s = elim res [
      | failed ↦ some (fall s)
      | no_msg ↦ some (fall s)
      | received responses ↦ handle responses s
    ]

    abbrev on_sent : (ℕ → ℕ) → Option ℕ → S → Option B
    on_sent n_msg sent s = elim sent [
      | none ↦ some (fall s)
      | some n ↦ recv_res recvmmsg (n_msg n) s >>= λ (res, s'). on_received res s'
    ]

  module _ {B : Type 0} (handle : List Response → S → Option B) (fall : S → B)
      (handles : (responses : List Response) (s : S)
        → All IsAck responses
        → Returns (handle responses s)) where
    on_received-Returns :
        (res : Received) (s : S) → AreAcks res → Returns (on_received handle fall res s)
    on_received-Returns failed s v = (fall s, refl)
    on_received-Returns no_msg s v = (fall s, refl)
    on_received-Returns (received responses) s v = handles responses s v

    on_sent-Returns :
        IsAcknowledging
        → (n_msg : ℕ → ℕ) (limit : ℕ) (sent : Option ℕ) (s : S)
        → ((n : ℕ) → 1 ≤ n → n ≤ limit → (1 ≤ n_msg n) × (n_msg n ≤ ip_n * 2))
        → IsSent limit sent
        → Returns (on_sent handle fall n_msg sent s)
    on_sent-Returns acks n_msg limit none s bounds v = (fall s, refl)
    on_sent-Returns acks n_msg limit (some n) s bounds v =
        let (some_msg, few) = bounds n v.0 v.1 in
        let (res, s', e, w) = recv_res-returns acks (n_msg n) s some_msg few in
        Returns-bind (recv_res recvmmsg (n_msg n) s) (λ (res, s'). on_received handle fall res s')
          (res, s') e (on_received-Returns res s' w)

    pub request-Returns :
        IsCounting
        → IsAcknowledging
        → (n_msg : ℕ → ℕ) (datagrams : List Datagram) (s : S) → 1 ≤ length datagrams
        → length datagrams ≤ ip_n * 2
        → ((n : ℕ) → 1 ≤ n → n ≤ length datagrams → (1 ≤ n_msg n) × (n_msg n ≤ ip_n * 2))
        → Returns
            (send_req sendmmsg datagrams s >>= λ (sent, s'). on_sent handle fall n_msg sent s')
    request-Returns counts acks n_msg datagrams s some_left few bounds =
        let (sent, s', e, v) = send_req-returns counts datagrams s some_left few in
        Returns-bind (send_req sendmmsg datagrams s)
          (λ (sent, s'). on_sent handle fall n_msg sent s') (sent, s') e
          (on_sent-Returns acks n_msg (length datagrams) sent s' bounds v)
