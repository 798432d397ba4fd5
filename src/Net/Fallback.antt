-- ===== src/Net/Fallback.antt =====
-- `userspace_sendmmsg` of src/net.c against what sendmmsg(2) promises: where each `sendmsg` sends its
-- message or fails and sends nothing, the call sends the first messages of the vector, in order.
use chinadns_ng.Prelude.{
  ℕ, suc, ◌+◌, ◌≤◌, ◌≡◌, ◌≢◌, refl, sym, ap, ◌∙◌, subst, Option, none, some, List, [], ◌∷◌, ◌++◌,
  ◌==◌, length, take, set, arith, append-nil, append_assoc, Bool-cases, ==_iff, inl, inr,
}
use chinadns_ng.Net.{Flags, Batch, send_loop, userspace_sendmmsg}

module _ {S M : Type 0} (send : M → S → Option ℕ × S) (delivered : S → List M) where
  -- A failed call sends nothing, any other one its message.
  abbrev pub IsMessageCall : Type 0
  IsMessageCall =
      (m : M) (s : S) (ret : Option ℕ) (s' : S)
      → send m s ≡ (ret, s')
      → delivered s' ≡ delivered s ++ (elim ret [ none ↦ [] | some len ↦ m ∷ [] ])

  -- The first `count` messages are sent, and no other.
  abbrev pub IsPrefixSent : List M → S → ℕ → S → Type 0
  IsPrefixSent messages s count s' =
      (count ≤ length messages) × (delivered s' ≡ delivered s ++ take count messages)

  module _ (sendmsg : ℕ → Flags → S → Option ℕ × S) where
    -- `sendmsg` sends the messages of the vector, from the index `i` on.
    abbrev pub IsVector : ℕ → List M → Type 0
    IsVector i [] = Unit {0}
    IsVector i (m ∷ messages) =
        ((flags : Flags) (s : S) → sendmsg i flags s ≡ send m s) × IsVector (i + 1) messages

    -- A round of the loop, given what the single call returns.
    abbrev round : ℕ → ℕ → Flags → List ℕ → Option ℕ × S → Batch S
    round left i flags lens result = elim result.0 [
      | none ↦ record { count = 0; lens = lens; state = result.1 }
      | some len ↦
          let rest = send_loop sendmsg left (i + 1) flags (set lens i len) result.1 in
          record rest { count = rest.count + 1 }
    ]

    send_loop-round :
        (left i : ℕ) (flags : Flags) (lens : List ℕ) (s : S)
        → send_loop sendmsg (suc left) i flags lens s ≡ round left i flags lens (sendmsg i flags s)
    unfolding send_loop
    send_loop-round left i flags lens s = refl

    abbrev IsSentBy : List M → S → Batch S → Type 0
    IsSentBy messages s batch = IsPrefixSent messages s batch.count batch.state

    round-IsSentBy :
        (i : ℕ) (m : M) (messages : List M) (flags : Flags) (lens : List ℕ) (s : S)
        (result : Option ℕ × S)
        → IsMessageCall
        → send m s ≡ result
        → ((lens' : List ℕ) (s' : S)
            → IsSentBy messages s' (send_loop sendmsg (length messages) (i + 1) flags lens' s'))
        → IsSentBy (m ∷ messages) s (round (length messages) i flags lens result)
    round-IsSentBy i m messages flags lens s (none, s') law e rest =
        (omega arith, law m s none s' e)
    round-IsSentBy i m messages flags lens s (some len, s') law e rest =
        let lens' : List ℕ = set lens i len in
        let batch : Batch S = send_loop sendmsg (length messages) (i + 1) flags lens' s' in
        let (few, sent) = rest lens' s' in
        let more : suc (batch.count) ≡ batch.count + 1 = omega arith in
        (
          omega (arith, few),
          sent
              ∙ ap (λ d. d ++ take (batch.count) messages) (law m s (some len) s' e)
              ∙ append_assoc (delivered s) (m ∷ []) (take (batch.count) messages)
              ∙ ap (λ n. delivered s ++ take n (m ∷ messages)) more,
        )

    send_loop-IsSentBy :
        (i : ℕ) (messages : List M) (flags : Flags) (lens : List ℕ) (s : S)
        → IsMessageCall
        → IsVector i messages
        → IsSentBy messages s (send_loop sendmsg (length messages) i flags lens s)
    unfolding send_loop
    send_loop-IsSentBy i [] flags lens s law vector = (omega arith, sym (append-nil (delivered s)))
    send_loop-IsSentBy i (m ∷ messages) flags lens s law (first, vector) =
        subst (IsSentBy (m ∷ messages) s)
          (sym (
            send_loop-round (length messages) i flags lens s
            ∙ ap (round (length messages) i flags lens) (first flags s)))
          (round-IsSentBy i m messages flags lens s (send m s) law refl
            (λ lens' s'. send_loop-IsSentBy (i + 1) messages flags lens' s' law vector))

    -- What sendmmsg(2) promises: the number of messages sent, which are the first ones, or -1 with
    -- nothing sent.
    abbrev pub IsBatchSent : List M → S → Option ℕ → S → Type 0
    IsBatchSent messages s none s' = IsPrefixSent messages s 0 s'
    IsBatchSent messages s (some count) s' = (1 ≤ count) × IsPrefixSent messages s count s'

    -- Where each `sendmsg` sends its message or fails and sends nothing, the replacement of sendmmsg
    -- gives the number of the messages sent, which are the first ones of the vector, in order, or -1
    -- with nothing sent.
    pub userspace_sendmmsg-IsBatchSent :
        (messages : List M) (flags : Flags) (lens : List ℕ) (s : S)
        → IsMessageCall
        → IsVector 0 messages
        → let (ret, lens', s') = userspace_sendmmsg sendmsg (length messages) flags lens s in
          IsBatchSent messages s ret s'
    unfolding userspace_sendmmsg
    userspace_sendmmsg-IsBatchSent messages flags lens s law vector =
        let batch : Batch S = send_loop sendmsg (length messages) 0 flags lens s in
        let (few, sent) = send_loop-IsSentBy 0 messages flags lens s law vector in
        elim (Bool-cases (length messages == 0)) [
          | inl empty ↦ rw (userspace_sendmmsg, empty) (omega arith, sym (append-nil (delivered s)))
          | inr some_left ↦ elim (Bool-cases (batch.count == 0)) [
            | inl none_sent ↦
                let zero_sent : batch.count ≡ 0 = (==_iff (batch.count) 0).0 none_sent in
                rw (userspace_sendmmsg, some_left, none_sent)
                  (omega arith, sent ∙ ap (λ n. delivered s ++ take n messages) zero_sent)
            | inr some_sent ↦
                let ne : batch.count ≢ 0 = ground arith in
                rw (userspace_sendmmsg, some_left, some_sent) (omega (arith, ne), (few, sent))
          ]
        ]
