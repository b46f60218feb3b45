-- ===== src/Launch/Starts.antt =====
-- How the three kinds of new thread start.
use course_project_os_integr.Base.{
  ℕ, zero, suc, ◌+◌, ◌%◌, ◌^◌, ◌<◌, ◌≡◌, refl, sym, ap, ◌∙◌, List, [], ◌∷◌, arith, replicate,
  length,
}
use course_project_os_integr.Launch.{
  Stack, Code, Regs, push_all, push_general_registers, kern_cs, kern_ds, user_cs, user_ds,
  setup_kthread, setup_kthread_user, fork_int, stack_word, resume,
}
use course_project_os_integr.Launch.Words.{words, onto, words-push_all, push_all-rsp}

abbrev word_at : List ℕ → ℕ → ℕ
word_at [] k = 0
word_at (w ∷ ws) zero = w
word_at (w ∷ ws) (suc k) = word_at ws k

-- the registers in the order in which they are popped
abbrev regs_of : List ℕ → Regs
regs_of ws = record {
  r15 = word_at ws 0;
  r14 = word_at ws 1;
  r13 = word_at ws 2;
  r12 = word_at ws 3;
  r11 = word_at ws 4;
  r10 = word_at ws 5;
  r9 = word_at ws 6;
  r8 = word_at ws 7;
  rsi = word_at ws 8;
  rdi = word_at ws 9;
  rbp = word_at ws 10;
  rdx = word_at ws 11;
  rcx = word_at ws 12;
  rbx = word_at ws 13;
  rax = word_at ws 14;
  int_no = word_at ws 15;
  err_code = word_at ws 16;
  rip = word_at ws 17;
  cs = word_at ws 18;
  rflags = word_at ws 19;
  rsp = word_at ws 20;
  ss = word_at ws 21;
}

resume-words : (s : Stack) → resume s ≡ regs_of (words 22 0 s)
unfolding resume words
resume-words s = refl

-- general registers on top of `vs`
words-general :
    (vs : List ℕ) (n : ℕ) (s : Stack)
    → n ≡ length vs
    → n < 2 ^ 50
    → words (15 + n) 0 (push_all (replicate 15 0) (push_all vs s))
      ≡ onto (replicate 15 0) (onto vs [])
unfolding words
words-general vs n s at small =
    let same : length vs + 0 ≡ n = omega (arith, at) in
    words-push_all (replicate 15 0) n (push_all vs s) (omega arith)
    ∙ ap (onto (replicate 15 0))
        (ap (λ m. words m 0 (push_all vs s)) (sym same) ∙ words-push_all vs 0 s (omega arith))

-- A forked child resumes with every register of its parent, but the process id in `rax`, which is what
-- `fork` returns to it, and the user's data segment. The two words of the interrupt, which the way back
-- drops, are swapped.
pub fork_int-resume :
    (s : Stack) (pid : ℕ) (r : Regs)
    → resume (fork_int s pid r)
      ≡ record r { rax = pid; int_no = r.err_code; err_code = r.int_no; ss = 0x23 }
unfolding fork_int words
fork_int-resume s pid r =
    let pushed : List ℕ =
      0x23 ∷ r.rsp ∷ r.rflags ∷ r.cs ∷ r.rip ∷ r.int_no ∷ r.err_code ∷ pid ∷ r.rbx ∷ r.rcx ∷ r.rdx
      ∷ r.rbp ∷ r.rdi ∷ r.rsi ∷ r.r8 ∷ r.r9 ∷ r.r10 ∷ r.r11 ∷ r.r12 ∷ r.r13 ∷ r.r14 ∷ r.r15 ∷ [] in
    resume-words (fork_int s pid r) ∙ ap regs_of (words-push_all pushed 0 s (omega arith))

-- The frame of a user thread starts it at its function, in user mode, with interrupts on, on the
-- user's stack, and with all general registers zero.
pub setup_kthread_user-resume :
    (rsp : ℕ) (s : Stack) (start_func : ℕ)
    → resume (setup_kthread_user rsp s start_func)
      ≡ regs_of (
          0 ∷ 0 ∷ 0 ∷ 0 ∷ 0 ∷ 0 ∷ 0 ∷ 0 ∷ 0 ∷ 0 ∷ 0 ∷ 0 ∷ 0 ∷ 0 ∷ 0 ∷ 0 ∷ 0 ∷ start_func ∷ user_cs
          ∷ 0x200 ∷ rsp ∷ user_ds ∷ [])
unfolding setup_kthread_user push_general_registers words
setup_kthread_user-resume rsp s start_func =
    let pushed : List ℕ = user_ds ∷ rsp ∷ 0x200 ∷ user_cs ∷ start_func ∷ 0 ∷ 0 ∷ [] in
    resume-words (setup_kthread_user rsp s start_func)
    ∙ ap regs_of (words-general pushed 7 s refl (omega arith))

-- the first four words of a kernel thread's stack, and the frame above them
abbrev entry_words : Code → ℕ → ℕ → List ℕ
entry_words code start_func arg = arg ∷ code.thread_exit ∷ start_func ∷ kern_ds ∷ []

abbrev frame_words : Code → ℕ → List ℕ
frame_words code rsp = rsp ∷ 0 ∷ kern_cs ∷ code.launch_thread ∷ 0 ∷ 0 ∷ []

setup_kthread-words :
    (code : Code) (s : Stack) (start_func arg : ℕ)
    → words 25 0 (setup_kthread code s start_func arg)
      ≡ onto (replicate 15 0) (
          onto
            (frame_words code (((push_all (entry_words code start_func arg) s).rsp + 8) % 2 ^ 64))
            (onto (entry_words code start_func arg) []))
unfolding setup_kthread push_general_registers words
setup_kthread-words code s start_func arg =
    let first = push_all (entry_words code start_func arg) s in
    let frame = frame_words code ((first.rsp + 8) % 2 ^ 64) in
    words-push_all (replicate 15 0) 10 (push_all frame first) (omega arith)
    ∙ ap (onto (replicate 15 0)) (
        words-push_all frame 4 first (omega arith)
        ∙ ap (onto frame) (words-push_all (entry_words code start_func arg) 0 s (omega arith)))

-- What a kernel thread's first stack does: the processor enters `Launch_Thread` in kernel mode with
-- interrupts off; the stack then holds the address of the thread's function, to which
-- `Launch_Thread` returns, behind it `thread_exit`, to which that function returns, and the argument.
pub record Launches (code : Code) (s : Stack) (start_func arg : ℕ) : Type 0 where
  pub enters : (resume s).rip ≡ code.launch_thread
  pub segments : ((resume s).cs ≡ kern_cs) × ((resume s).ss ≡ kern_ds)
  pub flags : (resume s).rflags ≡ 0
  pub then_start : s.mem (resume s).rsp ≡ start_func
  pub then_exit : s.mem (((resume s).rsp + 8) % 2 ^ 64) ≡ code.thread_exit
  pub argument : s.mem (((resume s).rsp + 16) % 2 ^ 64) ≡ arg

setup_kthread-rsp :
    (code : Code) (s : Stack) (start_func arg : ℕ)
    → ((setup_kthread code s start_func arg).rsp + 176) % 2 ^ 64
      ≡ ((push_all (entry_words code start_func arg) s).rsp + 8) % 2 ^ 64
unfolding setup_kthread push_general_registers
setup_kthread-rsp code s start_func arg =
    let first = push_all (entry_words code start_func arg) s in
    let frame = frame_words code ((first.rsp + 8) % 2 ^ 64) in
    omega (arith, push_all-rsp (replicate 15 0) (push_all frame first), push_all-rsp frame first)

-- `setup_kthread` prepares any stack so that the switch to the new thread runs its function.
pub setup_kthread-Launches :
    (code : Code) (s : Stack) (start_func arg : ℕ)
    → Launches code (setup_kthread code s start_func arg) start_func arg
unfolding words stack_word resume
setup_kthread-Launches code s start_func arg =
    let t = setup_kthread code s start_func arg in
    let all = setup_kthread-words code s start_func arg in
    let top : t.mem ((t.rsp + 160) % 2 ^ 64) ≡ (t.rsp + 176) % 2 ^ 64 =
      ap (λ ws. word_at ws 20) all ∙ sym (setup_kthread-rsp code s start_func arg) in
    let next : ((t.rsp + 176) % 2 ^ 64 + 8) % 2 ^ 64 ≡ (t.rsp + 184) % 2 ^ 64 = omega arith in
    let last : ((t.rsp + 176) % 2 ^ 64 + 16) % 2 ^ 64 ≡ (t.rsp + 192) % 2 ^ 64 = omega arith in
    record {
      enters = ap (λ ws. word_at ws 17) all;
      segments = (ap (λ ws. word_at ws 18) all, ap (λ ws. word_at ws 21) all);
      flags = ap (λ ws. word_at ws 19) all;
      then_start = rw top (ap (λ ws. word_at ws 22) all);
      then_exit = rw (top, next) (ap (λ ws. word_at ws 23) all);
      argument = rw (top, last) (ap (λ ws. word_at ws 24) all);
    }
