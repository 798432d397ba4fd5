-- ===== src/Net/Calls.antt =====
-- The batched calls of src/net.c over any single call.
use chinadns_ng.Prelude.{
  ℕ, zero, suc, ◌+◌, ◌≤◌, ◌<◌, ◌≡◌, ◌≢◌, ◌⊎◌, inl, inr, refl, ◌∙◌, Bool, true, false, ◌||◌, Option,
  none, some, List, arith, ◌==◌, if◌then◌else◌, get_or, set, get_or-set_ne, ==_ne, Bool-cases,
  Option-cases,
}
use chinadns_ng.Net.{
  Flags, Batch, count_or_error, recv_loop, userspace_recvmmsg, send_loop, userspace_sendmmsg,
}

-- From a first index on, at most `left` messages are handled, and the lengths of all others stay.
abbrev IsBatch : {S : Type 0} → ℕ → ℕ → List ℕ → Batch S → Type 0
IsBatch left i lens batch =
    (batch.count ≤ left)
    × ((j : ℕ) → (j < i) ⊎ (i + batch.count ≤ j) → get_or batch.lens j 0 ≡ get_or lens j 0)

module _ {S : Type 0} (recvmsg : ℕ → Flags → S → Option ℕ × S) where
  recv_loop-IsBatch :
      (left i : ℕ) (w : Bool) (flags : Flags) (lens : List ℕ) (s : S)
      → IsBatch left i lens (recv_loop recvmsg left i w flags lens s)
  unfolding recv_loop
  recv_loop-IsBatch zero i w flags lens s = (omega arith, λ j h. refl)
  recv_loop-IsBatch (suc left) i w flags lens s = elim (Option-cases (recvmsg i flags s).0) [
    | inl stop ↦ rw (recv_loop, stop) (omega arith, λ j h. refl)
    | inr (len, got) ↦
        let flags' : Flags = if w then record flags { dontwait = true } else flags in
        let (few, kept) =
          recv_loop-IsBatch left (i + 1) w flags' (set lens i len) (recvmsg i flags s).1 in
        rw (recv_loop, got)
          (
            omega (arith, few),
            λ j h.
                let ne : i ≢ j = ground arith in
                kept j (ground arith) ∙ get_or-set_ne lens i j len 0 ne,
          )
  ]

  -- With MSG_WAITFORONE only the first call may be made without MSG_DONTWAIT: what the first call
  -- establishes and every call with MSG_DONTWAIT keeps holds of the system behind the loop.
  recv_loop_dontwait :
      (P : S → Type 0)
      → ((i : ℕ) (flags : Flags) (s : S) → flags.dontwait ≡ true → P s → P (recvmsg i flags s).1)
      → (left i : ℕ) (flags : Flags) (lens : List ℕ) (s : S) → flags.dontwait ≡ true
      → P s
      → P (recv_loop recvmsg left i true flags lens s).state
  unfolding recv_loop
  recv_loop_dontwait P keeps zero i flags lens s d h = h
  recv_loop_dontwait P keeps (suc left) i flags lens s d h =
      elim (Option-cases (recvmsg i flags s).0) [
        | inl stop ↦ rw (recv_loop, stop) (keeps i flags s d h)
        | inr (len, got) ↦
            rw (recv_loop, got)
              (recv_loop_dontwait P keeps left (i + 1) (record flags { dontwait = true })
                (set lens i len) (recvmsg i flags s).1 refl (keeps i flags s d h))
      ]

  -- With MSG_WAITFORONE and no timeout, only the first of the calls of `userspace_recvmmsg` is made
  -- without MSG_DONTWAIT: what that call establishes, and every call with MSG_DONTWAIT keeps, holds
  -- behind them all, however many messages there are and wherever the calls fail.
  pub userspace_recvmmsg_dontwait :
      (P : S → Type 0) (vlen : ℕ) (flags : Flags) (lens : List ℕ) (s : S)
      → ((i : ℕ) (f : Flags) (t : S) → f.dontwait ≡ true → P t → P (recvmsg i f t).1)
      → P (recvmsg 0 (record flags { waitforone = false }) s).1
      → flags.waitforone ≡ true
      → vlen ≢ 0
      → P (userspace_recvmmsg recvmsg vlen flags false lens s).2
  unfolding userspace_recvmmsg recv_loop
  userspace_recvmmsg_dontwait P zero flags lens s keeps first w some_len = absurd (some_len refl)
  userspace_recvmmsg_dontwait P (suc left) flags lens s keeps first w some_len =
      let first_flags : Flags = record flags { waitforone = false } in
      elim (Option-cases (recvmsg 0 first_flags s).0) [
        | inl stop ↦ rw (userspace_recvmmsg, ==_ne (suc left) 0 some_len, recv_loop, stop) first
        | inr (len, got) ↦
            rw (userspace_recvmmsg, ==_ne (suc left) 0 some_len, recv_loop, got, w)
              (recv_loop_dontwait P keeps left 1 (record first_flags { dontwait = true })
                (set lens 0 len) (recvmsg 0 first_flags s).1 refl first)
      ]

-- The result of a batched call: at most `vlen` messages, a count that is not 0 or an error, and the
-- lengths of the messages that were not handled as they were.
abbrev pub IsBatchResult : {S : Type 0} → ℕ → List ℕ → Option ℕ × List ℕ × S → Type 0
IsBatchResult vlen lens (res, lens', s) =
    ((res ≡ none) × ((j : ℕ) → get_or lens' j 0 ≡ get_or lens j 0))
    ⊎ ((n : ℕ) × (res ≡ some n)
        × (1 ≤ n)
        × (n ≤ vlen)
        × ((j : ℕ) → n ≤ j → get_or lens' j 0 ≡ get_or lens j 0))

IsBatch-IsBatchResult :
    {S : Type 0} (vlen : ℕ) (lens : List ℕ) (batch : Batch S)
    → IsBatch vlen 0 lens batch
    → IsBatchResult vlen lens (count_or_error batch)
IsBatch-IsBatchResult vlen lens batch (few, kept) = elim (Bool-cases (batch.count == 0)) [
  | inl zero_count ↦ rw zero_count (inl (refl, λ j. kept j (ground arith)))
  | inr some_count ↦
      rw some_count (inr (batch.count, refl, ground arith, few, λ j h. kept j (ground arith)))
]

send_loop-IsBatch :
    {S : Type 0} (sendmsg : ℕ → Flags → S → Option ℕ × S) (left i : ℕ) (flags : Flags)
    (lens : List ℕ) (s : S)
    → IsBatch left i lens (send_loop sendmsg left i flags lens s)
unfolding send_loop
send_loop-IsBatch sendmsg zero i flags lens s = (omega arith, λ j h. refl)
send_loop-IsBatch sendmsg (suc left) i flags lens s = elim (Option-cases (sendmsg i flags s).0) [
  | inl stop ↦ rw (send_loop, stop) (omega arith, λ j h. refl)
  | inr (len, got) ↦
      let (few, kept) =
        send_loop-IsBatch sendmsg left (i + 1) flags (set lens i len) (sendmsg i flags s).1 in
      rw (send_loop, got)
        (
          omega (arith, few),
          λ j h.
              let ne : i ≢ j = ground arith in
              kept j (ground arith) ∙ get_or-set_ne lens i j len 0 ne,
        )
]

-- Whatever the single calls do, both batched calls handle at most `vlen` messages, give -1 in place
-- of 0, and leave the length of every message that was not handled as it was.
pub batched_calls-IsBatchResult :
    {S : Type 0} (recvmsg sendmsg : ℕ → Flags → S → Option ℕ × S) (vlen : ℕ) (flags : Flags)
    (has_timeout : Bool) (lens : List ℕ) (s : S)
    → IsBatchResult vlen lens (userspace_recvmmsg recvmsg vlen flags has_timeout lens s)
      × IsBatchResult vlen lens (userspace_sendmmsg sendmsg vlen flags lens s)
unfolding userspace_recvmmsg userspace_sendmmsg
batched_calls-IsBatchResult recvmsg sendmsg vlen flags has_timeout lens s = (
  elim (Bool-cases ((vlen == 0) || has_timeout)) [
    | inl refused ↦ rw (userspace_recvmmsg, refused) (inl (refl, λ j. refl))
    | inr passed ↦
        rw (userspace_recvmmsg, passed)
          (IsBatch-IsBatchResult vlen lens
            (recv_loop recvmsg vlen 0 flags.waitforone (record flags { waitforone = false }) lens s)
            (recv_loop-IsBatch recvmsg vlen 0 flags.waitforone (record flags { waitforone = false })
              lens s))
  ],
  elim (Bool-cases (vlen == 0)) [
    | inl refused ↦ rw (userspace_sendmmsg, refused) (inl (refl, λ j. refl))
    | inr passed ↦
        rw (userspace_sendmmsg, passed)
          (IsBatch-IsBatchResult vlen lens (send_loop sendmsg vlen 0 flags lens s)
            (send_loop-IsBatch sendmsg vlen 0 flags lens s))
  ],
)
