-- ===== src/Tests/Batches.antt =====
-- Batched calls on a socket that has two messages.
use chinadns_ng.Prelude.{
  ℕ, zero, suc, ◌≡◌, refl, some, none, Option, List, [], ◌∷◌, Bool, true, false, arith, ◌+◌, ◌++◌,
  subst, sym, append-nil, map,
}
use chinadns_ng.Net.{Flags, recv_loop, userspace_recvmmsg, send_loop, userspace_sendmmsg, net_init}
use chinadns_ng.Net.Fallback.{IsMessageCall, IsBatchSent, userspace_sendmmsg-IsBatchSent}
use chinadns_ng.Bitvec.{bitvec_get, bitvec_set1, bitvec_set0, no_bits}
use chinadns_ng.Bitvec.Laws.{IsUpdated, bitvec_set-IsUpdated}
use chinadns_ng.Net.Calls.{IsBatchResult, userspace_recvmmsg_dontwait, batched_calls-IsBatchResult}

program : Unit {0}
unfolding bitvec_get bitvec_set1 bitvec_set0 net_init recv_loop userspace_recvmmsg send_loop
    userspace_sendmmsg
program = tt

-- The state is how many calls were made that may block; ten bytes come for the first two.
abbrev count_blocking : Bool → ℕ → ℕ
count_blocking true calls = calls
count_blocking false calls = suc calls

abbrev two_messages : ℕ → Flags → ℕ → Option ℕ × ℕ
two_messages zero flags calls = (some 10, count_blocking flags.dontwait calls)
two_messages (suc zero) flags calls = (some 10, count_blocking flags.dontwait calls)
two_messages (suc (suc i)) flags calls = (none, count_blocking flags.dontwait calls)

abbrev wait_for_one : Flags
wait_for_one = record { waitforone = true; dontwait = false; other = 0 }

abbrev blocking : Flags
blocking = record { waitforone = false; dontwait = false; other = 0 }

abbrev no_lens : List ℕ
no_lens = 0 ∷ 0 ∷ 0 ∷ 0 ∷ []

receives_two :
    userspace_recvmmsg two_messages 4 wait_for_one false no_lens 0
    ≡ (some 2, 10 ∷ 10 ∷ 0 ∷ 0 ∷ [], 1)
unfolding program
receives_two = refl

blocks_each_time :
    userspace_recvmmsg two_messages 4 blocking false no_lens 0 ≡ (some 2, 10 ∷ 10 ∷ 0 ∷ 0 ∷ [], 3)
unfolding program
blocks_each_time = refl

two_messages_dontwait :
    (i : ℕ) (f : Flags) (calls : ℕ) → f.dontwait ≡ true → calls ≡ 1 → (two_messages i f calls).1 ≡ 1
two_messages_dontwait zero f calls d h = rw d h
two_messages_dontwait (suc zero) f calls d h = rw d h
two_messages_dontwait (suc (suc i)) f calls d h = rw d h

userspace_recvmmsg_dontwait_example :
    (userspace_recvmmsg two_messages 4 wait_for_one false no_lens 0).2 ≡ 1
userspace_recvmmsg_dontwait_example =
    userspace_recvmmsg_dontwait two_messages (λ calls. calls ≡ 1) 4 wait_for_one no_lens 0
      two_messages_dontwait refl refl (omega arith)

batched_calls-IsBatchResult_example :
    IsBatchResult 4 no_lens (userspace_recvmmsg two_messages 4 wait_for_one false no_lens 0)
    × IsBatchResult 4 no_lens (userspace_sendmmsg two_messages 4 wait_for_one no_lens 0)
batched_calls-IsBatchResult_example =
    batched_calls-IsBatchResult two_messages two_messages 4 wait_for_one false no_lens 0

-- A kernel that has recvmmsg and no sendmmsg.
picks_each :
    net_init {R = ℕ} {W = ℕ} 9 38
      (record { recvmmsg = 1; sendmmsg = 2 })
      (record { recvmmsg = 3; sendmmsg = 4 })
    ≡ record { recvmmsg = 1; sendmmsg = 4 }
unfolding program
picks_each = refl

-- A socket that takes two messages of one number each.
abbrev take_two : ℕ → List ℕ → Option ℕ × List ℕ
take_two m [] = (some 1, m ∷ [])
take_two m (x ∷ []) = (some 1, x ∷ m ∷ [])
take_two m (x ∷ y ∷ s) = (none, x ∷ y ∷ s)

take_two-IsMessageCall : IsMessageCall take_two (λ s. s)
take_two-IsMessageCall m [] ret s' e =
    subst (λ p. p.1 ≡ [] ++ (elim p.0 [ none ↦ [] | some len ↦ m ∷ [] ])) e refl
take_two-IsMessageCall m (x ∷ []) ret s' e =
    subst (λ p. p.1 ≡ (x ∷ []) ++ (elim p.0 [ none ↦ [] | some len ↦ m ∷ [] ])) e refl
take_two-IsMessageCall m (x ∷ y ∷ s) ret s' e =
    subst (λ p. p.1 ≡ (x ∷ y ∷ s) ++ (elim p.0 [ none ↦ [] | some len ↦ m ∷ [] ])) e
      (sym (append-nil (x ∷ y ∷ s)))

abbrev send_next : ℕ → Flags → List ℕ → Option ℕ × List ℕ
send_next i flags s = take_two (i + 7) s

userspace_sendmmsg-IsBatchSent_example :
    let (ret, lens', s') = userspace_sendmmsg send_next 3 blocking no_lens [] in
    IsBatchSent take_two (λ s. s) send_next (7 ∷ 8 ∷ 9 ∷ []) [] ret s'
userspace_sendmmsg-IsBatchSent_example =
    userspace_sendmmsg-IsBatchSent take_two (λ s. s) send_next (7 ∷ 8 ∷ 9 ∷ []) blocking no_lens []
      take_two-IsMessageCall ((λ flags s. refl), ((λ flags s. refl), ((λ flags s. refl), tt)))

-- The third bit of ten.
sets_one :
    map
      (bitvec_get (bitvec_set0 (bitvec_set1 (bitvec_set1 (no_bits 10) 2) 9) 9))
      (1 ∷ 2 ∷ 3 ∷ 9 ∷ [])
    ≡ false ∷ true ∷ false ∷ false ∷ []
unfolding program
sets_one = refl

bitvec_set-IsUpdated_example :
    IsUpdated (0 ∷ 5 ∷ []) 9 true (bitvec_set1 (0 ∷ 5 ∷ []) 9)
    × IsUpdated (0 ∷ 5 ∷ []) 9 false (bitvec_set0 (0 ∷ 5 ∷ []) 9)
bitvec_set-IsUpdated_example =
    bitvec_set-IsUpdated (0 ∷ 5 ∷ []) 9 (omega arith, (omega arith, tt)) (omega arith)
