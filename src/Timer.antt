-- ===== src/Timer.antt =====
-- The clock of sys/timer.c, which also wakes sleeping threads (`sleep` of sys/isr.c).
pub mod Seconds
pub mod Wake
use course_project_os_integr.Base.{
  ℕ, zero, suc, ◌+◌, ◌-◌, ◌*◌, ◌/◌, ◌%◌, ◌^◌, Bool, true, false, not, ◌&&◌, ◌||◌, Option, none,
  some, ltb, leb, ◌==◌, if◌then◌else◌, ◌>>=◌,
}
use course_project_os_integr.Screen.{Screen, write_time}
use course_project_os_integr.Threads.{Kernel, update}

-- The counters, each a `uint16_t`.
pub record Clock : Type 0 where
  pub total_ticks : ℕ
  pub total_ticks_secs : ℕ
  pub mins : ℕ
  pub hours : ℕ

abbrev pub up : ℕ → ℕ
up n = (n + 1) % 2 ^ 16

-- The counters one second later.
unfoldable pub next_second : Clock → Clock
next_second c =
    if leb 60 (up c.total_ticks_secs)
    then if leb 60 (up c.mins)
      then record c { total_ticks_secs = 0; mins = 0; hours = up c.hours }
      else record c { total_ticks_secs = 0; mins = up c.mins }
    else record c { total_ticks_secs = up c.total_ticks_secs }

-- The counters after a tick, and whether a second is over.
unfoldable pub tick : Clock → Clock × Bool
unfolding next_second
tick c =
    let c1 : Clock = record c { total_ticks = up c.total_ticks } in
    if c1.total_ticks % 100 == 0 then (next_second c1, true) else (c1, false)

-- `crawl->sleeping > 0` on the 32 bits of a signed `int`
abbrev pub is_positive : ℕ → Bool
is_positive v = ltb 0 v && ltb v (2 ^ 31)

-- The loop over the run queue; `none` is a walk longer than the fuel.
unfoldable pub wake : ℕ → Kernel → ℕ → Option Kernel
unfolding update
wake zero k crawl = none
wake (suc fuel) k crawl =
    let k1 : Kernel =
      if is_positive (k.sleeping crawl)
      then record k { sleeping = update k.sleeping crawl (k.sleeping crawl - 1) }
      else k in
    let rest = wake fuel k1 (k1.run_queue.next crawl) in
    if crawl == 0 || crawl == k.current_thread then some k else rest

unfoldable pub show_clock : Clock → Screen → Option Screen
unfolding write_time
show_clock c s =
    write_time (c.total_ticks_secs % 10) (c.total_ticks_secs / 10) (c.mins % 10) (c.mins / 10)
      (c.hours % 10) (c.hours / 10) s

-- The state that an interrupt of the timer works on.
pub record Machine : Type 0 where
  pub clock : Clock
  pub kernel : Kernel
  pub screen : Screen

unfoldable pub timer_handler : ℕ → Machine → Option Machine
unfolding tick wake show_clock
timer_handler fuel m =
    let (c, second) = tick m.clock in
    if second
    then (wake fuel m.kernel m.kernel.run_queue.head >>= λ k.
        show_clock c m.screen >>= λ s. some (record { clock = c; kernel = k; screen = s }))
    else some (record m { clock = c })

-- `sleep` of sys/isr.c; the 64-bit argument is cut to an `int`.
unfoldable pub sleep : Kernel → ℕ → Kernel
unfolding update
sleep k time = record k { sleeping = update k.sleeping k.current_thread (time % 2 ^ 32) }
