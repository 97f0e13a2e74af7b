-- ===== src/Tests/Threads.antt =====
-- Interleaved threads on small inputs: the locks of CuckooHash/Cuckoo.hpp, and the clients of
-- ReplicatedKeyValueStoreRDMA/App/Remote.cpp.
use concurrent_computing.Prelude.{ℕ, ◌<◌, ◌≡◌, refl, arith, none, [], ◌∷◌, update, some}
use concurrent_computing.Cuckoo.Locks.{lock_two, lock_three}
use concurrent_computing.Cuckoo.Locks.Threads.{
  System, Reach, here, next, begin_two, begin_three, take, idle_system, thread, CanMove,
  Reach-CanMove,
}
use concurrent_computing.Replica.Remote.Clients as Clients
use concurrent_computing.Replica.Remote.Clients.{Reach-alone}

-- Thread 0 has lock 1 and comes to lock 2; thread 1 waits for lock 1.
abbrev waiting : System
waiting = record {
  owner = update (λ l. none) 1 (some 0);
  threads =
      update
        (update (update (λ k. thread [] []) 0 (thread [] (lock_two 2 1))) 1
          (thread [] (lock_three 3 1 2)))
        0 (thread (1 ∷ []) (2 ∷ []));
}

waiting-Reach : Reach 4 idle_system waiting
unfolding lock_two lock_three
waiting-Reach =
    next
      (next (next here (begin_two idle_system 0 2 1 refl (omega arith) (omega arith))) (
        begin_three
          (record {
            owner = λ l. none;
            threads = update (λ k. thread [] []) 0 (thread [] (lock_two 2 1));
          })
          1 3 1 2 refl (omega arith) (omega arith) (omega arith)))
      (take
        (record {
          owner = λ l. none;
          threads =
              update (update (λ k. thread [] []) 0 (thread [] (lock_two 2 1))) 1
                (thread [] (lock_three 3 1 2));
        })
        0 1 [] (2 ∷ []) refl refl)

threads_example : (j : ℕ) × CanMove 4 waiting j
unfolding lock_two lock_three
threads_example = Reach-CanMove 4 1 1 (2 ∷ 3 ∷ []) waiting-Reach refl

-- One node, and a client thread that has its lock.
abbrev first_round : Clients.System
first_round = record {
  lock = λ m. 0;
  phase = update (λ k. Clients.idle) 5 (Clients.preparing 0 0 []);
}

abbrev second_round : Clients.System
second_round = record {
  lock = update (λ m. 0) 0 1;
  phase = update first_round.phase 5 (Clients.preparing 0 1 (0 ∷ []));
}

abbrev busy : Clients.System
busy = record second_round { phase = update second_round.phase 5 (Clients.sending (0 ∷ [])) }

busy-Reach : Clients.Reach 1 Clients.quiet busy
busy-Reach =
    Clients.next
      (Clients.next
        (Clients.next Clients.here (Clients.prepare Clients.quiet 5 0 refl (omega arith)))
        (Clients.acquire first_round 5 0 0 0 [] refl (omega arith) refl refl))
      (Clients.prepared second_round 5 0 1 (0 ∷ []) refl refl)

clients_example : (◌≡◌ {A = ℕ} 5 5) × ((m : ℕ) → m < 1 → busy.lock m ≡ 1)
clients_example = Reach-alone 1 5 5 (0 ∷ []) (0 ∷ []) busy-Reach (omega arith) refl refl
