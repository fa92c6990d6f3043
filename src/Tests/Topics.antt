-- ===== src/Tests/Topics.antt =====
-- Two goroutines and one topic: the first locks it, the second waits, the first unlocks it.
use external_task_worker.Base.{ℕ, zero, String, ◌≡◌, refl, true, false, some, set}
use external_task_worker.Camunda.TopicMutex.{
  outside, lock, unlock, System, locks, unlocks, Reach, here, next,
}
use external_task_worker.Camunda.TopicMutex.Exclusion.{
  sum, idle, start, mutual_exclusion, unlock_finds_mutex, waiting_can_enter,
}

abbrev after_lock : ℕ → String → System → System
after_lock i topic s = record {
  topics = (lock topic s.topics).0;
  goroutines = set s.goroutines i (lock topic s.topics).1;
}

abbrev after_unlock : ℕ → String → System → System
after_unlock i topic s = record {
  topics = unlock topic s.topics;
  goroutines = set s.goroutines i outside;
}

abbrev both : System
both = after_lock 1 "t" (after_lock 0 "t" (start 2))

abbrev left : System
left = after_unlock 0 "t" both

reach_both : Reach (start 2) both
unfolding lock idle
reach_both = next (next here (locks 0 "t" refl)) (locks 1 "t" refl)

reach_left : Reach (start 2) left
unfolding lock idle
reach_left = next reach_both (unlocks 0 "t" refl)

mutual_exclusion_example : zero ≡ zero
unfolding lock idle
mutual_exclusion_example = mutual_exclusion 2 both reach_both 0 0 "t" refl refl

unlock_finds_mutex_example :
    (m : ℕ) × (both.topics.mux "t" ≡ some m) × (both.topics.locked m ≡ true)
unfolding lock idle
unlock_finds_mutex_example = unlock_finds_mutex 2 both reach_both 0 "t" refl

waiting_can_enter_example : left.topics.locked 0 ≡ false
unfolding lock unlock idle sum
waiting_can_enter_example = waiting_can_enter 2 left reach_left 1 "t" 0 refl refl
