-- ===== src/Launch.antt =====
-- The stacks on which a thread starts: `setup_kthread` of sys/kthread.c, `setup_kthread_user` of
-- sys/exec.c and `fork_int` of sys/isr.c, and the way back through sys/kthread.s.
pub mod Words
pub mod Starts
use course_project_os_integr.Base.{
  ℕ, zero, suc, ◌+◌, ◌-◌, ◌*◌, ◌%◌, ◌^◌, List, [], ◌∷◌, ◌++◌, ◌==◌, replicate, if◌then◌else◌,
}

-- A thread's stack pointer and the memory, as words at addresses.
pub record Stack : Type 0 where
  pub rsp : ℕ
  pub mem : ℕ → ℕ

-- `Push`, and `PushU`, which is the same on the pointer to the kernel's stack of a user thread.
unfoldable pub push : Stack → ℕ → Stack
push s value =
    let rsp = (s.rsp + 2 ^ 64 - 8) % 2 ^ 64 in
    record { rsp = rsp; mem = λ a. if a == rsp then value else s.mem a }

-- One call of `Push` for each value.
unfoldable pub push_all : List ℕ → Stack → Stack
unfolding push
push_all [] s = s
push_all (v ∷ vs) s = push_all vs (push s v)

-- `Push_General_Registers` and `PushU_General_Registers`
unfoldable pub push_general_registers : Stack → Stack
unfolding push_all
push_general_registers s = push_all (replicate 15 0) s

abbrev pub kern_cs : ℕ
kern_cs = 0x8

abbrev pub kern_ds : ℕ
kern_ds = 0x10

abbrev pub user_cs : ℕ
user_cs = 0x1B

abbrev pub user_ds : ℕ
user_ds = 0x23

-- The addresses of the functions that the frame of a kernel thread names.
pub record Code : Type 0 where
  pub launch_thread : ℕ
  pub thread_exit : ℕ

unfoldable pub setup_kthread : Code → Stack → ℕ → ℕ → Stack
unfolding push_all push_general_registers
setup_kthread code s start_func arg =
    let entered = push_all (arg ∷ code.thread_exit ∷ start_func ∷ kern_ds ∷ []) s in
    push_general_registers (
      push_all ((entered.rsp + 8) % 2 ^ 64 ∷ 0 ∷ kern_cs ∷ code.launch_thread ∷ 0 ∷ 0 ∷ []) entered)

-- `rsp` is the stack of the user; the frame goes on the kernel's stack.
unfoldable pub setup_kthread_user : ℕ → Stack → ℕ → Stack
unfolding push_all push_general_registers
setup_kthread_user rsp s start_func =
    push_general_registers (push_all (user_ds ∷ rsp ∷ 0x200 ∷ user_cs ∷ start_func ∷ 0 ∷ 0 ∷ []) s)

-- What an interrupt saves of the interrupted thread.
pub record Regs : Type 0 where
  pub r15 : ℕ
  pub r14 : ℕ
  pub r13 : ℕ
  pub r12 : ℕ
  pub r11 : ℕ
  pub r10 : ℕ
  pub r9 : ℕ
  pub r8 : ℕ
  pub rsi : ℕ
  pub rdi : ℕ
  pub rbp : ℕ
  pub rdx : ℕ
  pub rcx : ℕ
  pub rbx : ℕ
  pub rax : ℕ
  pub int_no : ℕ
  pub err_code : ℕ
  pub rip : ℕ
  pub cs : ℕ
  pub rflags : ℕ
  pub rsp : ℕ
  pub ss : ℕ

unfoldable pub fork_int : Stack → ℕ → Regs → Stack
unfolding push_all
fork_int s pid r =
    push_all
      (0x23 ∷ r.rsp ∷ r.rflags ∷ r.cs ∷ r.rip ∷ r.int_no ∷ r.err_code ∷ pid ∷ r.rbx ∷ r.rcx ∷ r.rdx
        ∷ r.rbp ∷ r.rdi ∷ r.rsi ∷ r.r8 ∷ r.r9 ∷ r.r10 ∷ r.r11 ∷ r.r12 ∷ r.r13 ∷ r.r14 ∷ r.r15 ∷ [])
      s

-- The `k`-th word from the top.
unfoldable pub stack_word : Stack → ℕ → ℕ
stack_word s k = s.mem ((s.rsp + 8 * k) % 2 ^ 64)

-- The end of `Switch_To_Thread`: `POPAQ`, two words dropped, `iretq`.
unfoldable pub resume : Stack → Regs
unfolding stack_word
resume s = record {
  r15 = stack_word s 0;
  r14 = stack_word s 1;
  r13 = stack_word s 2;
  r12 = stack_word s 3;
  r11 = stack_word s 4;
  r10 = stack_word s 5;
  r9 = stack_word s 6;
  r8 = stack_word s 7;
  rsi = stack_word s 8;
  rdi = stack_word s 9;
  rbp = stack_word s 10;
  rdx = stack_word s 11;
  rcx = stack_word s 12;
  rbx = stack_word s 13;
  rax = stack_word s 14;
  int_no = stack_word s 15;
  err_code = stack_word s 16;
  rip = stack_word s 17;
  cs = stack_word s 18;
  rflags = stack_word s 19;
  rsp = stack_word s 20;
  ss = stack_word s 21;
}
