-- ===== src/Processes.antt =====
-- Processes: their ids and table, the list of a parent's children, `fork` and `sys_exit`, from
-- sys/kthread.c and sys/isr.c. The queues of threads are those of `Threads`.
pub mod Children
pub mod Ids
pub mod Leaving
use course_project_os_integr.Base.{
  ℕ, zero, suc, Option, none, some, List, ◌==◌, get_elem?, if◌then◌else◌, ◌>>=◌, store,
}
use course_project_os_integr.Base.Integers.{ℤ, pos, negsuc, add_nat, sub_nat}
use course_project_os_integr.Threads.{
  Kernel, update, remove_runnable_kthread, remove_alllist_kthread, append_run_queue,
  append_global_list_queue,
}

-- The nodes of the join queues, and `head.next` of each thread. 0 is `NULL`.
pub record Joins : Type 0 where
  pub first : ℕ → ℕ
  pub node_next : ℕ → ℕ
  pub node_child : ℕ → ℕ

pub record World : Type 0 where
  pub kernel : Kernel
  pub joins : Joins
  pub next_free_pid : ℤ
  pub ptable : List ℕ
  pub pid : ℕ → ℤ
  pub parent : ℕ → ℕ

-- `pid` indexes the table; outside of its 100 entries the access faults.
abbrev pub ptable_at : World → ℤ → Option ℕ
ptable_at w (pos n) = get_elem? w.ptable n
ptable_at w (negsuc n) = none

abbrev pub ptable_set : World → ℤ → ℕ → Option World
ptable_set w (pos n) k = store w.ptable n k >>= λ t. some (record w { ptable = t })
ptable_set w (negsuc n) k = none

unfoldable pub add_to_ptable : World → ℕ → Option World
add_to_ptable w k_thread = ptable_set w (w.pid k_thread) k_thread

unfoldable pub alloc_pid : World → World × ℤ
unfolding add_nat
alloc_pid w = let n = add_nat w.next_free_pid 1 in (record w { next_free_pid = n }, n)

unfoldable pub free_pid : World → World
unfolding sub_nat
free_pid w = record w { next_free_pid = sub_nat w.next_free_pid 1 }

-- `while (crawl->next) crawl = crawl->next`, from a node on; `none` is a walk longer than the fuel.
unfoldable pub crawl_last : ℕ → (ℕ → ℕ) → ℕ → Option ℕ
crawl_last zero next crawl = none
crawl_last (suc fuel) next crawl =
    let rest = crawl_last fuel next (next crawl) in if next crawl == 0 then some crawl else rest

-- `temp` is the address that `sub_malloc` gives the new node.
unfoldable pub append_join_queue : ℕ → ℕ → ℕ → ℕ → Joins → Option Joins
unfolding crawl_last update
append_join_queue fuel temp node cthread j =
    let child = update j.node_child temp node in
    let next = update j.node_next temp 0 in
    if j.first cthread == 0
    then some (record { first = update j.first cthread temp; node_next = next; node_child = child })
    else (crawl_last fuel next (j.first cthread) >>= λ crawl.
        some (record j { node_next = update next crawl temp; node_child = child }))

-- the pointer `crawl->next`, where `crawl` is a node, or 0 for the head in the thread itself
abbrev pub next_of : Joins → ℕ → ℕ → ℕ
next_of j thread crawl = if crawl == 0 then j.first thread else j.node_next crawl

-- The loop of `remove_child` stops in front of the child's node, or at the end.
unfoldable pub crawl_child : ℕ → Joins → ℕ → ℕ → ℕ → Option ℕ
crawl_child zero j thread child crawl = none
crawl_child (suc fuel) j thread child crawl =
    let after = next_of j thread crawl in
    let rest = crawl_child fuel j thread child after in
    if after == 0 then some crawl else if j.node_child after == child then some crawl else rest

-- Without such a child the node to take out is `NULL`, and reading it faults.
unfoldable pub remove_child : ℕ → ℕ → ℕ → Joins → Option Joins
unfolding crawl_child update
remove_child fuel thread child j = crawl_child fuel j thread child 0 >>= λ crawl.
    let tmp = next_of j thread crawl in
    if tmp == 0
    then none
    else if crawl == 0
    then some (record j { first = update j.first thread (j.node_next tmp) })
    else some (record j { node_next = update j.node_next crawl (j.node_next tmp) })

unfoldable pub thread_cleanup : ℕ → ℕ → World → Option World
unfolding remove_child remove_runnable_kthread remove_alllist_kthread
thread_cleanup fuel k_thread w =
    let kernel = remove_alllist_kthread (remove_runnable_kthread w.kernel k_thread) k_thread in
    if w.parent k_thread == 0
    then some (record w { kernel = kernel })
    else (remove_child fuel (w.parent k_thread) k_thread w.joins >>= λ j.
        some (record w { kernel = kernel; joins = j }))

-- A table entry of 0 is a thread at `NULL`, whose fields the clean-up reads.
unfoldable pub sys_exit : ℕ → World → Option World
unfolding thread_cleanup free_pid
sys_exit fuel w =
    let pid = w.pid w.kernel.current_thread in
    ptable_at w pid >>= λ k_thread.
    thread_cleanup fuel k_thread w >>= λ w'. ptable_set w' pid 0 >>= λ w''. some (free_pid w'')

-- `memcpy` of the current thread's structure: the fields that this model has. The links in the queues
-- are written again by the two appends.
unfoldable pub copy_thread : ℕ → World → World
unfolding update
copy_thread child w =
    let current = w.kernel.current_thread in
    let k = w.kernel in
    let j = w.joins in
    record w {
      kernel = record k {
        sleeping = update k.sleeping child (k.sleeping current);
        alive = update k.alive child (k.alive current);
      };
      joins = record j { first = update j.first child (j.first current) };
      pid = update w.pid child (w.pid current);
    }

-- `fork` without the child's stack and page tables. `child` and `temp` are what `sub_malloc` returns.
unfoldable pub fork : ℕ → ℕ → ℕ → World → Option World
unfolding copy_thread alloc_pid append_join_queue append_run_queue append_global_list_queue update
fork fuel child temp w =
    let current = w.kernel.current_thread in
    let (w₁, n) = alloc_pid (copy_thread child w) in
    let w₂ = record w₁ { pid = update w₁.pid child n; parent = update w₁.parent child current } in
    ptable_set w₂ n child >>= λ w₃. append_join_queue fuel temp child current w₃.joins >>= λ j.
    some (record w₃ {
      joins = j;
      kernel = append_run_queue (append_global_list_queue w₃.kernel child) child;
    })
