-- ===== src/Examples/Scheduling.antt =====
-- Examples for the queues, the scheduler and the timer.
use course_project_os_integr.Base.{
  ℕ, ◌+◌, ◌*◌, ◌%◌, ◌^◌, ◌<◌, ◌≡◌, refl, true, some, [], ◌∷◌, ◌++◌, arith, ◌==◌, if◌then◌else◌,
}
use course_project_os_integr.Threads.{
  Queue, Kernel, Scheduled, switch_to, append, remove, schedule, yield_thread, runnable_kthread,
  is_ready,
}
use course_project_os_integr.Threads.Links.{Linked, NotIn, Distinct, Represents}
use course_project_os_integr.Threads.Links.Grow.{append-Represents}
use course_project_os_integr.Threads.Remove.{remove-Represents}
use course_project_os_integr.Threads.Choice.{
  Choice, FirstReady, schedule-Choice, yield_thread-switches,
}
use course_project_os_integr.Timer.{wake}
use course_project_os_integr.Timer.Seconds.{
  seconds_shown, seconds_in, IsTime, ticks, midnight, ticks-seconds,
}
use course_project_os_integr.Timer.Wake.{Woken, wake-Woken}

-- Thread 16 before thread 32.
abbrev pair : Queue
pair = record {
  head = 16;
  tail = 32;
  next = λ t. if t == 16 then 32 else 0;
  prev = λ t. if t == 32 then 16 else 0;
}

pair-Represents : Represents pair (16 ∷ 32 ∷ [])
unfolding Represents Linked Distinct NotIn
pair-Represents = (
  (refl, (λ e. omega arith), refl, (refl, (λ e. omega arith), refl, (refl, refl))),
  (((λ e. omega arith), tt), (tt, tt)),
)

out_of_pair : NotIn 48 (16 ∷ 32 ∷ [])
unfolding NotIn
out_of_pair = ((λ e. omega arith), ((λ e. omega arith), tt))

append-Represents_example : Represents (append pair 48) (16 ∷ 32 ∷ 48 ∷ [])
append-Represents_example =
    append-Represents pair 48 (16 ∷ 32 ∷ []) (λ e. omega arith) out_of_pair pair-Represents

remove-Represents_example : Represents (remove pair 32) (16 ∷ [])
remove-Represents_example = remove-Represents pair 32 (16 ∷ []) [] pair-Represents

-- Thread 48 runs, thread 16 sleeps for three seconds more.
abbrev running : Kernel
running = record {
  run_queue = pair;
  all_thread_list = pair;
  current_thread = 48;
  sleeping = λ t. if t == 16 then 3 else 0;
  alive = λ t. true;
}

schedule-Choice_example :
    (s : Scheduled) × (schedule 3 running ≡ some s) × Choice running (16 ∷ 32 ∷ []) s
schedule-Choice_example = schedule-Choice 3 running (16 ∷ 32 ∷ []) (omega arith) pair-Represents

now_ready : is_ready running 48 ≡ true
unfolding is_ready
now_ready = refl

yield_thread-switches_example :
    (t : ℕ) × (q : Queue) × (f : FirstReady (runnable_kthread running 48) (16 ∷ 32 ∷ 48 ∷ []) t)
    × Represents q (f.earlier ++ f.later)
    × (yield_thread 4 running
        ≡ some (
            switch_to t
              (record (runnable_kthread running 48) { run_queue = q; current_thread = t })))
yield_thread-switches_example =
    yield_thread-switches 4 running (16 ∷ 32 ∷ []) (omega arith) pair-Represents (λ e. omega arith)
      out_of_pair now_ready

wake-Woken_example : (k : Kernel) × (wake 3 running 16 ≡ some k) × Woken running k (16 ∷ 32 ∷ [])
wake-Woken_example = wake-Woken 3 running (16 ∷ 32 ∷ []) (omega arith) pair-Represents out_of_pair

few_seconds : seconds_in 65536 + 1 < 3600 * 2 ^ 16
unfolding seconds_in
few_seconds = omega arith

-- After 65536 ticks of a hundredth of a second the clock shows 656 seconds.
ticks-seconds_example :
    IsTime (ticks 65536 midnight)
    × ((ticks 65536 midnight).total_ticks ≡ 65536 % 65536)
    × (seconds_shown (ticks 65536 midnight) ≡ seconds_in 65536)
ticks-seconds_example = ticks-seconds 65536 few_seconds
