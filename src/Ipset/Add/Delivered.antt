-- ===== src/Ipset/Add/Delivered.antt =====
-- `sendall` of src/misc.h as `send_req` of src/ipset.c uses it: how much of a vector is sent, where the
-- system call sends some of what it gets.
use chinadns_ng.Prelude.{
  ℕ, zero, suc, ◌+◌, ◌-◌, ◌*◌, ◌≤◌, ◌<◌, ◌≡◌, ◌≢◌, refl, ap, ◌∙◌, Option, none, some, List, ◌++◌,
  ltb, ◌==◌, if◌then◌else◌, length, take, drop, arith, append_assoc, take-append-drop, take_all,
  length-drop, Bool-cases, inl, inr, ==_ne, le→ltb, ltb→lt, ltb→le,
}
use chinadns_ng.Ipset.{ip_n}
use chinadns_ng.Ipset.Add.{sendall_loop, send_req}
use chinadns_ng.Ipset.Batch.{Datagram}

module _ {S : Type 0} (sendmmsg : List Datagram → S → Option ℕ × S) where
  -- A round, given what the system call returns.
  abbrev pub round : ℕ → List Datagram → ℕ → Option ℕ × S → Option (ℕ × S)
  round fuel datagrams nsent result = elim result.0 [
    | none ↦ some (nsent, result.1)
    | some n ↦
        let rest = sendall_loop sendmmsg fuel (drop n datagrams) (nsent + n) result.1 in
        if n == 0
        then none
        else if ltb n (length datagrams)
        then rest
        else some (nsent + n, result.1)
  ]

  pub sendall_loop-round :
      (fuel : ℕ) (datagrams : List Datagram) (nsent : ℕ) (s : S)
      → sendall_loop sendmmsg (suc fuel) datagrams nsent s
        ≡ round fuel datagrams nsent (sendmmsg datagrams s)
  unfolding sendall_loop
  sendall_loop-round fuel datagrams nsent s = refl

module _ {S : Type 0} (sendmmsg : List Datagram → S → Option ℕ × S)
    (delivered : S → List Datagram) where
  -- As sendmmsg(2) says of a call that does not fail: it sends one datagram at least, and the first
  -- ones of the vector.
  abbrev pub IsSending : Type 0
  IsSending =
      (datagrams : List Datagram) (s : S)
      → 1 ≤ length datagrams
      → (n : ℕ) × (s' : S) × (sendmmsg datagrams s ≡ (some n, s'))
        × (1 ≤ n)
        × (n ≤ length datagrams)
        × (delivered s' ≡ delivered s ++ take n datagrams)

  -- All of the vector is sent, each datagram once and in order.
  abbrev pub IsDelivered : List Datagram → S → S → Type 0
  IsDelivered datagrams s s' = delivered s' ≡ delivered s ++ datagrams

  sendall_loop-IsDelivered :
      IsSending
      → (fuel : ℕ) (datagrams : List Datagram) (nsent : ℕ) (s : S) → 1 ≤ length datagrams
      → length datagrams ≤ fuel
      → (s' : S) × (sendall_loop sendmmsg fuel datagrams nsent s
          ≡ some (nsent + length datagrams, s'))
        × IsDelivered datagrams s s'
  sendall_loop-IsDelivered sends zero datagrams nsent s some_left enough = absurd (omega arith)
  sendall_loop-IsDelivered sends (suc fuel) datagrams nsent s some_left enough =
      let (n, s1, call, some_sent, fits, grown) = sends datagrams s some_left in
      let ne : n ≢ 0 = omega (arith, some_sent) in
      elim (Bool-cases (ltb n (length datagrams))) [
        | inl more ↦
            let left : List Datagram = drop n datagrams in
            let count : length left ≡ length datagrams - n = length-drop n datagrams in
            let lt : n < length datagrams = ltb→lt n (length datagrams) more in
            let (s', e, all) =
              sendall_loop-IsDelivered sends fuel left (nsent + n) s1 (omega (arith, count, lt))
                (omega (arith, count, enough, some_sent)) in
            let total : nsent + n + length left ≡ nsent + length datagrams =
              omega (arith, count, fits) in
            (
              s',
              sendall_loop-round sendmmsg fuel datagrams nsent s
                  ∙ ap (round sendmmsg fuel datagrams nsent) call
                  ∙ rw (==_ne n 0 ne, more) (e ∙ ap (λ k. some (k, s')) total),
              all
                  ∙ ap (λ d. d ++ left) grown
                  ∙ append_assoc (delivered s) (take n datagrams) left
                  ∙ ap (λ d. delivered s ++ d) (take-append-drop n datagrams),
            )
        | inr done ↦
            let whole : n ≡ length datagrams =
              omega (arith, fits, ltb→le n (length datagrams) done) in
            (
              s1,
              sendall_loop-round sendmmsg fuel datagrams nsent s
                  ∙ ap (round sendmmsg fuel datagrams nsent) call
                  ∙ rw (==_ne n 0 ne, done) (ap (λ k. some (nsent + k, s1)) whole),
              grown
                  ∙ ap (λ k. delivered s ++ take k datagrams) whole
                  ∙ ap (λ d. delivered s ++ d) (take_all datagrams),
            )
      ]

  -- Where each system call sends some of what it gets, `send_req` ends with the whole vector sent, of
  -- 1 to 20 datagrams, each once and in order.
  pub send_req-IsDelivered :
      (datagrams : List Datagram) (s : S)
      → IsSending
      → 1 ≤ length datagrams
      → length datagrams ≤ ip_n * 2
      → (s' : S) × (send_req sendmmsg datagrams s ≡ some (some (length datagrams), s'))
        × IsDelivered datagrams s s'
  unfolding send_req
  send_req-IsDelivered datagrams s sends some_left few =
      let ne : length datagrams ≢ 0 = omega (arith, some_left) in
      let (s', e, all) =
        sendall_loop-IsDelivered sends (length datagrams) datagrams 0 s some_left (omega arith) in
      let zero_more : 0 + length datagrams ≡ length datagrams = omega arith in
      (
        s',
        rw
            (
              send_req,
              ==_ne (length datagrams) 0 ne,
              le→ltb (ip_n * 2) (length datagrams) few,
              e,
              zero_more,
              ==_ne (length datagrams) 0 ne,
            )
            refl,
        all,
      )
