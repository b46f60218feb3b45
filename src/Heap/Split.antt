-- ===== src/Heap/Split.antt =====
-- What `split_block` leaves of a block.
use course_project_os_integr.Base.{
  ℕ, ◌+◌, ◌-◌, ◌*◌, ◌/◌, ◌%◌, ◌^◌, ◌≤◌, ◌<◌, ◌≡◌, ◌≢◌, ap, ◌∙◌, true, arith,
}
use course_project_os_integr.Threads.{update}
use course_project_os_integr.Threads.Links.{update_same, update_other}
use course_project_os_integr.Heap.{Heap, split_at, split_block, payload}

-- A split of block `b` for `s` bytes: the block keeps `s` bytes, the rest is a free block behind them, and
-- the list goes from the block over the rest to what followed. But the rest is placed by whole headers,
-- and its size is reckoned without the bytes that this skips, so that it ends `16 - s % 16` bytes behind
-- the end of the block that was split. The block has fewer than 2^16 bytes, 20 more than `s` at least, and
-- its address is not within 2^17 of the end of the address space.
pub split_block-overruns :
    (b s : ℕ) (h : Heap)
    → s + 20 ≤ h.size b
    → h.size b < 2 ^ 16
    → b + 2 ^ 17 < 2 ^ 64
    → let h' = split_block b s h in
      let new = h'.next b in
      (h'.size b ≡ s)
      × (payload b + s ≤ new)
      × (h'.free new ≡ true)
      × (h'.next new ≡ h.next b)
      × (payload new + h'.size new ≡ payload b + h.size b + (16 - s % 16))
unfolding split_block
split_block-overruns b s h large small room =
    let tot : (s + 16) % 2 ^ 16 ≡ s + 16 = omega arith in
    let new = split_at b s in
    let at : new ≡ b + 16 * (1 + (s + 16) / 16) = omega (arith, tot) in
    let ne : new ≢ b = λ e. absurd (omega arith) in
    let sizes = update h.size new ((h.size b + 2 ^ 16 - (s + 16) % 2 ^ 16) % 2 ^ 16) in
    let linked : update (update h.next new (h.next b)) b new b ≡ new =
      update_same (update h.next new (h.next b)) b new in
    let rest : update sizes b s new ≡ h.size b - (s + 16) =
      update_other sizes b new s ne ∙ update_same h.size new _ ∙ omega (arith, tot) in
    let behind : update (update h.next new (h.next b)) b new new ≡ h.next b =
      update_other (update h.next new (h.next b)) b new new ne
      ∙ update_same h.next new (h.next b) in
    (
      update_same sizes b s,
      omega (arith, linked, at),
      ap (update h.free new true) linked ∙ update_same h.free new true,
      ap (update (update h.next new (h.next b)) b new) linked ∙ behind,
      omega (arith, linked, at, ap (update sizes b s) linked, rest),
    )
