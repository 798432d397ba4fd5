-- ===== src/Net.antt =====
-- src/net.c: `userspace_recvmmsg` and `userspace_sendmmsg`, which stand in for the system calls on
-- old kernels. `recvmsg` and `sendmsg` are parameters: the index of the message, the flags and the
-- system's state to the length, or `none` for a negative result, and the next state.
pub mod Calls
pub mod Fallback
use chinadns_ng.Prelude.{
  ℕ, zero, suc, ◌+◌, Bool, true, false, ◌||◌, Option, none, some, List, ◌==◌, if◌then◌else◌, set,
}

-- `flags`: MSG_WAITFORONE, MSG_DONTWAIT and the rest.
pub record Flags : Type 0 where
  pub waitforone : Bool
  pub dontwait : Bool
  pub other : ℕ

-- The number of messages, the lengths `msg_len` of the vector, and the state.
pub record Batch (S : Type 0) : Type 0 where
  pub count : ℕ
  pub lens : List ℕ
  pub state : S

-- The result of a call: the count, or `none` for -1.
abbrev pub count_or_error : {S : Type 0} → Batch S → Option ℕ × List ℕ × S
count_or_error batch =
    (if batch.count == 0 then none else some batch.count, batch.lens, batch.state)

module _ {S : Type 0} (recvmsg : ℕ → Flags → S → Option ℕ × S) where
  -- The loop from index `i` on, with the number of messages left.
  unfoldable pub recv_loop : ℕ → ℕ → Bool → Flags → List ℕ → S → Batch S
  recv_loop zero i wait_for_one flags lens s = record { count = 0; lens = lens; state = s }
  recv_loop (suc left) i wait_for_one flags lens s =
      let (res, s') = recvmsg i flags s in
      let flags' = if wait_for_one then record flags { dontwait = true } else flags in
      elim res [
        | none ↦ record { count = 0; lens = lens; state = s' }
        | some len ↦
            let rest = recv_loop left (i + 1) wait_for_one flags' (set lens i len) s' in
            record rest { count = rest.count + 1 }
      ]

  -- `has_timeout` is whether a timeout is given.
  unfoldable pub userspace_recvmmsg : ℕ → Flags → Bool → List ℕ → S → Option ℕ × List ℕ × S
  userspace_recvmmsg vlen flags has_timeout lens s =
      if (vlen == 0) || has_timeout
      then (none, lens, s)
      else count_or_error
          (recv_loop vlen 0 flags.waitforone (record flags { waitforone = false }) lens s)

module _ {S : Type 0} (sendmsg : ℕ → Flags → S → Option ℕ × S) where
  unfoldable pub send_loop : ℕ → ℕ → Flags → List ℕ → S → Batch S
  send_loop zero i flags lens s = record { count = 0; lens = lens; state = s }
  send_loop (suc left) i flags lens s =
      let (res, s') = sendmsg i flags s in
      elim res [
        | none ↦ record { count = 0; lens = lens; state = s' }
        | some len ↦
            let rest = send_loop left (i + 1) flags (set lens i len) s' in
            record rest { count = rest.count + 1 }
      ]

  unfoldable pub userspace_sendmmsg : ℕ → Flags → List ℕ → S → Option ℕ × List ℕ × S
  userspace_sendmmsg vlen flags lens s =
      if vlen == 0 then (none, lens, s) else count_or_error (send_loop vlen 0 flags lens s)

-- The two pointers to batched calls.
pub record BatchedCalls (R W : Type 0) : Type 0 where
  pub recvmmsg : R
  pub sendmmsg : W

-- ENOSYS, as errno(3) documents it.
abbrev pub enosys : ℕ
enosys = 38

-- The arguments are what errno is behind a try of each system call, which fails in any case.
unfoldable pub net_init :
    {R W : Type 0} → ℕ → ℕ → BatchedCalls R W → BatchedCalls R W → BatchedCalls R W
net_init recv_errno send_errno syscalls userspace = record {
  recvmmsg = if recv_errno == enosys then userspace.recvmmsg else syscalls.recvmmsg;
  sendmmsg = if send_errno == enosys then userspace.sendmmsg else syscalls.sendmmsg;
}
