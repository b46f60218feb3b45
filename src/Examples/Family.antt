-- ===== src/Examples/Family.antt =====
-- Examples for new threads, processes and their ids.
use course_project_os_integr.Base.{◌≢◌}
use course_project_os_integr.Base.{
  ◌≡◌, refl, true, Option, none, some, [], ◌∷◌, ◌++◌, arith, ◌==◌, replicate, if◌then◌else◌,
}
use course_project_os_integr.Base.Integers.{pos}
use course_project_os_integr.Threads.{Queue, remove}
use course_project_os_integr.Threads.Links.{NotIn, Distinct, Linked, Represents}
use course_project_os_integr.Launch.{Stack, Code, Regs, setup_kthread, fork_int, resume}
use course_project_os_integr.Launch.Starts.{Launches, setup_kthread-Launches, fork_int-resume}
use course_project_os_integr.Processes.{World, Joins, ptable_at, sys_exit, fork}
use course_project_os_integr.Processes.Ids.{fork-sys_exit_reuses}
use course_project_os_integr.Processes.Leaving.{
  append_all, AllFresh, survivors, remove_again-Represents,
}

abbrev stack : Stack
stack = record { rsp = 0x9000; mem = λ _. 7 }

abbrev code : Code
code = record { launch_thread = 0x100; thread_exit = 0x200 }

setup_kthread-Launches_example : Launches code (setup_kthread code stack 0x300 5) 0x300 5
setup_kthread-Launches_example = setup_kthread-Launches code stack 0x300 5

abbrev saved : Regs
saved = record {
  r15 = 1;
  r14 = 2;
  r13 = 3;
  r12 = 4;
  r11 = 5;
  r10 = 6;
  r9 = 7;
  r8 = 8;
  rsi = 9;
  rdi = 10;
  rbp = 11;
  rdx = 12;
  rcx = 13;
  rbx = 14;
  rax = 15;
  int_no = 16;
  err_code = 17;
  rip = 18;
  cs = 0x1B;
  rflags = 0x202;
  rsp = 19;
  ss = 0x23;
}

fork_int-resume_example :
    resume (fork_int stack 4 saved)
    ≡ record saved { rax = 4; int_no = 17; err_code = 16; ss = 0x23 }
fork_int-resume_example = fork_int-resume stack 4 saved

abbrev empty_queue : Queue
empty_queue = record { head = 0; tail = 0; next = λ _. 0; prev = λ _. 0 }

-- Thread 10 runs as process 1 and thread 20 as process 2, which was created last.
abbrev two_processes : World
two_processes = record {
  kernel = record {
    run_queue = empty_queue;
    all_thread_list = empty_queue;
    current_thread = 10;
    sleeping = λ _. 0;
    alive = λ _. true;
  };
  joins = record { first = λ _. 0; node_next = λ _. 0; node_child = λ _. 0 };
  next_free_pid = pos 2;
  ptable = 0 ∷ 10 ∷ 20 ∷ replicate 97 0;
  pid = λ t. if t == 10 then pos 1 else if t == 20 then pos 2 else pos 0;
  parent = λ _. 0;
}

abbrev the_world : Option World → World
the_world (some w) = w
the_world none = two_processes

-- The world after process 1 left, the switch to thread 5, of process 0, and a fork of that one.
abbrev one_left : World
one_left = the_world (sys_exit 3 two_processes)

abbrev switched : World
switched = record one_left { kernel = record one_left.kernel { current_thread = 5 } }

abbrev one_forked : World
one_forked = the_world (fork 3 30 40 switched)

run_exit : sys_exit 3 two_processes ≡ some one_left
unfolding sys_exit
run_exit = refl

run_fork : fork 3 30 40 switched ≡ some one_forked
unfolding fork sys_exit
run_fork = refl

same_ids :
    (switched.pid ≡ one_left.pid)
    × (switched.ptable ≡ one_left.ptable)
    × (switched.next_free_pid ≡ one_left.next_free_pid)
same_ids = (refl, refl, refl)

one_is_not_two : two_processes.pid 10 ≢ two_processes.pid 20
one_is_not_two e = ground arith

fork-sys_exit_reuses_example :
    (ptable_at switched (switched.pid 20) ≡ some 20)
    × (one_forked.pid 30 ≡ one_forked.pid 20)
    × (one_forked.pid 20 ≡ switched.pid 20)
    × (ptable_at one_forked (one_forked.pid 20) ≡ some 30)
fork-sys_exit_reuses_example =
    fork-sys_exit_reuses 3 30 40 20 two_processes one_left switched one_forked refl refl
      one_is_not_two run_exit same_ids.0 same_ids.1 same_ids.2 run_fork (omega arith)

abbrev no_joins : Joins
no_joins = record { first = λ _. 0; node_next = λ _. 0; node_child = λ _. 0 }

-- Thread 10 has a child whose node is at 50, and forks again.
abbrev with_child : World
with_child = record two_processes {
  joins = record {
    first = λ t. if t == 10 then 50 else 0;
    node_next = λ _. 0;
    node_child = λ _. 20;
  };
}

abbrev with_two : World
with_two = the_world (fork 3 30 60 with_child)

run_second : fork 3 30 60 with_child ≡ some with_two
unfolding fork
run_second = refl

-- Thread 10 alone in the run queue.
abbrev alone : Queue
alone = record { head = 10; tail = 10; next = λ _. 0; prev = λ _. 0 }

alone-Represents : Represents alone (10 ∷ [])
unfolding Represents Linked Distinct NotIn
alone-Represents = ((refl, omega arith, refl, (refl, refl)), (tt, tt))

later_fresh : AllFresh 10 [] (30 ∷ 31 ∷ [])
unfolding AllFresh
later_fresh = omega arith

remove_again-Represents_example :
    Represents (append_all (30 ∷ 31 ∷ []) (remove alone 10)) ([] ++ 30 ∷ 31 ∷ [])
    × Represents
        (remove (append_all (30 ∷ 31 ∷ []) (remove alone 10)) 10)
        (survivors [] (30 ∷ 31 ∷ []))
remove_again-Represents_example =
    remove_again-Represents alone 10 [] (30 ∷ 31 ∷ []) alone-Represents later_fresh
