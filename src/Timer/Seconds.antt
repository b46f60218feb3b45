-- ===== src/Timer/Seconds.antt =====
-- How the clock runs.
use course_project_os_integr.Base.{
  ℕ, zero, suc, ◌+◌, ◌*◌, ◌/◌, ◌%◌, ◌^◌, ◌≤◌, ◌<◌, ◌≡◌, inl, inr, refl, sym, ◌∙◌, arith, ◌==◌,
  if◌then◌else◌, Bool-cases,
}
use course_project_os_integr.Timer.{Clock, tick, next_second}

-- The time of day that the counters show, in seconds.
unfoldable pub seconds_shown : Clock → ℕ
seconds_shown c = c.hours * 3600 + c.mins * 60 + c.total_ticks_secs

unfoldable pub IsTime : Clock → Type 0
IsTime c = (c.total_ticks < 2 ^ 16) × (c.total_ticks_secs < 60) × (c.mins < 60) × (c.hours < 2 ^ 16)

unfoldable pub ticks : ℕ → Clock → Clock
unfolding tick
ticks zero c = c
ticks (suc n) c = (tick (ticks n c)).0

-- The seconds that the clock counts in `n` ticks: 656 in every 65536, one for each hundred of the
-- rest.
unfoldable pub seconds_in : ℕ → ℕ
seconds_in n = 656 * (n / 65536) + n % 65536 / 100

next_second-IsTime :
    (c : Clock)
    → IsTime c
    → seconds_shown c + 1 < 3600 * 2 ^ 16
    → IsTime (next_second c) × (seconds_shown (next_second c) ≡ seconds_shown c + 1)
unfolding IsTime seconds_shown next_second
next_second-IsTime c (t, s, m, h) bound = ground arith

next_second_ticks : (c : Clock) → (next_second c).total_ticks ≡ c.total_ticks
unfolding next_second
next_second_ticks c = ground arith

tick-IsTime :
    (c : Clock)
    → IsTime c
    → seconds_shown c + 1 < 3600 * 2 ^ 16
    → IsTime ((tick c).0)
      × (((tick c).0).total_ticks ≡ (c.total_ticks + 1) % 65536)
      × (seconds_shown ((tick c).0) ≡ (
          if (c.total_ticks + 1) % 65536 % 100 == 0 then seconds_shown c + 1 else seconds_shown c))
unfolding IsTime seconds_shown tick
tick-IsTime c (t, s, m, h) bound = elim (Bool-cases ((c.total_ticks + 1) % 65536 % 100 == 0)) [
  | inl over ↦
      let c1 : Clock = record c { total_ticks = (c.total_ticks + 1) % 65536 } in
      let (ok, shown) = next_second-IsTime c1 (omega arith, s, m, h) bound in
      rw over (ok, next_second_ticks c1, shown)
  | inr within ↦ rw within ((omega arith, s, m, h), refl, refl)
]

seconds_in_step :
    (n : ℕ)
    → seconds_in (suc n)
      ≡ (if (n % 65536 + 1) % 65536 % 100 == 0 then seconds_in n + 1 else seconds_in n)
unfolding seconds_in
seconds_in_step n = ground arith

seconds_in_mono : (n : ℕ) → seconds_in n ≤ seconds_in (suc n)
seconds_in_mono n =
    let step = seconds_in_step n in
    elim (Bool-cases ((n % 65536 + 1) % 65536 % 100 == 0)) [
      | inl over ↦
          let e : seconds_in (suc n) ≡ seconds_in n + 1 = step ∙ rw over refl in omega arith
      | inr within ↦
          let e : seconds_in (suc n) ≡ seconds_in n = step ∙ rw within refl in omega arith
    ]

-- The clock as the kernel starts it.
abbrev pub midnight : Clock
midnight = record { total_ticks = 0; total_ticks_secs = 0; mins = 0; hours = 0 }

-- From the start, as long as the hours fit their 16 bits, `n` ticks of the timer leave proper
-- minutes and seconds, and the time shown is the count of seconds in `n` ticks.
pub ticks-seconds :
    (n : ℕ)
    → seconds_in n + 1 < 3600 * 2 ^ 16
    → IsTime (ticks n midnight)
      × ((ticks n midnight).total_ticks ≡ n % 65536)
      × (seconds_shown (ticks n midnight) ≡ seconds_in n)
unfolding ticks IsTime seconds_shown seconds_in
ticks-seconds zero h = ((omega arith, omega arith, omega arith, omega arith), refl, refl)
ticks-seconds (suc n) h =
    let mono = seconds_in_mono n in
    let (ok, count, shown) = ticks-seconds n (omega arith) in
    let c = ticks n midnight in
    let (ok', count', shown') = tick-IsTime c ok (rw shown (omega arith)) in
    let same : (c.total_ticks + 1) % 65536 ≡ suc n % 65536 = omega (arith, count) in
    (ok', count' ∙ same, shown' ∙ rw (count, shown) (sym (seconds_in_step n)))
