-- ===== src/Threads.antt =====
-- The thread queues and the scheduler of sys/kthread.c. A thread is its address, 0 is `NULL`, and
-- each field of the threads is a function of the address; the links of the run queue and those of
-- the list of all threads are different fields.
pub mod Links
pub mod Remove
pub mod Choice
use course_project_os_integr.Base.{
  ℕ, zero, suc, ◌+◌, Bool, true, false, ◌&&◌, not, Option, none, some, List, ◌==◌, if◌then◌else◌,
  ◌>>=◌,
}

pub record Queue : Type 0 where
  pub head : ℕ
  pub tail : ℕ
  pub next : ℕ → ℕ
  pub prev : ℕ → ℕ

-- `thread->field = value`
unfoldable pub update {ℓ} : {A : Type ℓ} → (ℕ → A) → ℕ → A → ℕ → A
update field thread value t = if t == thread then value else field t

unfoldable pub append : Queue → ℕ → Queue
unfolding update
append q node =
    if q.tail == 0
    then record {
      head = node;
      tail = node;
      next = update q.next node 0;
      prev = update q.prev node 0;
    }
    else record {
      head = q.head;
      tail = node;
      next = update (update q.next node 0) q.tail node;
      prev = update q.prev node q.tail;
    }

unfoldable pub insert : Queue → ℕ → Queue
unfolding update
insert q node =
    if q.head == 0
    then record {
      head = node;
      tail = node;
      next = update q.next node 0;
      prev = update q.prev node 0;
    }
    else record {
      head = node;
      tail = q.tail;
      next = update q.next node q.head;
      prev = update (update q.prev node 0) q.head node;
    }

-- The first branch of `remove_runnable_kthread`, then the second, which reads the links again.
unfoldable pub unlink_next : Queue → ℕ → Queue
unfolding update
unlink_next q node =
    if q.prev node == 0
    then record q { head = q.next node }
    else record q { next = update q.next (q.prev node) (q.next node) }

unfoldable pub unlink_prev : Queue → ℕ → Queue
unfolding update
unlink_prev q node =
    if q.next node == 0
    then record q { tail = q.prev node }
    else record q { prev = update q.prev (q.next node) (q.prev node) }

unfoldable pub remove : Queue → ℕ → Queue
unfolding unlink_next unlink_prev
remove q node = unlink_prev (unlink_next q node) node

-- The kernel's variables and the fields of the threads that the scheduler reads.
pub record Kernel : Type 0 where
  pub run_queue : Queue
  pub all_thread_list : Queue
  pub current_thread : ℕ
  pub sleeping : ℕ → ℕ
  pub alive : ℕ → Bool

unfoldable pub append_run_queue : Kernel → ℕ → Kernel
unfolding append
append_run_queue k node = record k { run_queue = append k.run_queue node }

unfoldable pub insert_run_queue : Kernel → ℕ → Kernel
unfolding insert
insert_run_queue k node = record k { run_queue = insert k.run_queue node }

unfoldable pub append_global_list_queue : Kernel → ℕ → Kernel
unfolding append
append_global_list_queue k node = record k { all_thread_list = append k.all_thread_list node }

unfoldable pub insert_global_list_queue : Kernel → ℕ → Kernel
unfolding insert
insert_global_list_queue k node = record k { all_thread_list = insert k.all_thread_list node }

unfoldable pub remove_alllist_kthread : Kernel → ℕ → Kernel
unfolding remove
remove_alllist_kthread k node = record k { all_thread_list = remove k.all_thread_list node }

unfoldable pub remove_runnable_kthread : Kernel → ℕ → Kernel
unfolding remove
remove_runnable_kthread k node = record k { run_queue = remove k.run_queue node }

-- A thread that may be chosen.
unfoldable pub is_ready : Kernel → ℕ → Bool
is_ready k t = (k.sleeping t == 0) && k.alive t

-- The loop of `next_runnable_kthread`; `none` is a walk longer than the fuel.
unfoldable pub crawl_ready : ℕ → Kernel → ℕ → Option ℕ
unfolding is_ready
crawl_ready zero k crawl = none
crawl_ready (suc fuel) k crawl =
    let rest = crawl_ready fuel k (k.run_queue.next crawl) in
    if crawl == 0 then some 0 else if is_ready k crawl then some crawl else rest

-- What the scheduler comes to: a thread to switch to, or the kernel's panic.
pub data Scheduled : Type 0 where
  switch_to : ℕ → Kernel → Scheduled
  panic : Scheduled

unfoldable pub next_runnable_kthread : ℕ → Kernel → Option Scheduled
unfolding crawl_ready remove_runnable_kthread
next_runnable_kthread fuel k = crawl_ready fuel k k.run_queue.head >>= λ runnable.
    if runnable == 0
    then some panic
    else some (switch_to runnable (remove_runnable_kthread k runnable))

-- `Schedule` up to `Switch_To_Thread`, which makes the thread the current one.
unfoldable pub schedule : ℕ → Kernel → Option Scheduled
unfolding next_runnable_kthread
schedule fuel k = next_runnable_kthread fuel k >>= λ s. elim s [
  | switch_to t k' ↦ some (switch_to t (record k' { current_thread = t }))
  | panic ↦ some panic
]

unfoldable pub runnable_kthread : Kernel → ℕ → Kernel
unfolding append_run_queue
runnable_kthread k t = append_run_queue k t

unfoldable pub alllist_kthread : Kernel → ℕ → Kernel
unfolding append_global_list_queue
alllist_kthread k t = append_global_list_queue k t

-- `Yield`
unfoldable pub yield_thread : ℕ → Kernel → Option Scheduled
unfolding runnable_kthread schedule
yield_thread fuel k = schedule fuel (runnable_kthread k k.current_thread)

-- `Exit_thread`, whose exit code no one reads.
unfoldable pub exit_thread : ℕ → Kernel → Option Scheduled
unfolding update schedule
exit_thread fuel k = schedule fuel (record k { alive = update k.alive k.current_thread false })
