-- ===== src/Bitmap/Regions.antt =====
-- Marking memory regions, and the boot of the allocator in `mm_phy_init`.
pub mod Marking
pub mod Boot
pub mod Reserved
pub mod Returns
use course_project_os_integr.Base.{
  ℕ, zero, suc, ◌+◌, ◌-◌, ◌*◌, ◌/◌, ◌%◌, ◌^◌, ◌≤◌, ◌<◌, ◌≡◌, ◌⊎◌, inl, inr, refl, sym, ap, ◌∙◌,
  Bool, true, false, not, ◌||◌, ◌&&◌, Option, none, some, List, [], ◌∷◌, ◌++◌, arith, ltb, ◌==◌,
  Bool-cases, Option-cases, if◌then◌else◌, length, get_elem?, set, replicate, ◌>>=◌, store,
}
use course_project_os_integr.Bitmap.{
  Bitmap, block_size, count_up, count_down, set_block, unset_block,
}

-- The loops of `mmgr_phy_init_regions` and `mmgr_phy_deinit_regions`: `n` blocks from `b` on, each
-- counted. Block numbers are passed as `int`.
unfoldable pub unset_region : ℕ → ℕ → Bitmap → Option Bitmap
unset_region zero b m = some m
unset_region (suc n) b m = unset_block m.words (b % 2 ^ 32) >>= λ ws.
    unset_region n (suc b) (record m { words = ws; used_blocks = count_down m.used_blocks 1 })

unfoldable pub set_region : ℕ → ℕ → Bitmap → Option Bitmap
set_region zero b m = some m
set_region (suc n) b m = set_block m.words (b % 2 ^ 32) >>= λ ws.
    set_region n (suc b) (record m { words = ws; used_blocks = count_up m.used_blocks 1 })

unfoldable pub phy_init_regions : ℕ → ℕ → Bitmap → Option Bitmap
unfolding unset_region
phy_init_regions base len m = unset_region (len / block_size) (base / block_size) m

unfoldable pub phy_deinit_regions : ℕ → ℕ → Bitmap → Option Bitmap
unfolding set_region
phy_deinit_regions base len m = set_region (len / block_size) (base / block_size) m >>= λ n.
    set_block n.words 0 >>= λ ws. some (record n { words = ws })

-- MY_KERNEL_SIZE is 40.
unfoldable pub syncwith_kernel : Bitmap → Option Bitmap
unfolding set_region
syncwith_kernel m = set_region (40 * 256 - 512) 512 m

-- An entry of the boot loader's memory map. Type 1 is usable memory.
pub record Smap : Type 0 where
  pub base : ℕ
  pub len : ℕ
  pub kind : ℕ

pub record Tables : Type 0 where
  pub total : List Smap
  pub usable : List Smap
  pub usable_size : ℕ

-- The loop over the memory map. Both tables have ten entries.
unfoldable pub collect : List Smap → Tables → Option Tables
collect [] t = some t
collect (s ∷ rest) t =
    let skip = collect rest t in
    let keep = collect rest (record t { total = t.total ++ (s ∷ []) }) in
    let use_it = collect rest (record {
      total = t.total ++ (s ∷ []);
      usable = t.usable ++ (s ∷ []);
      usable_size = (t.usable_size + s.len) % 2 ^ 64;
    }) in
    if s.len == 0
    then skip
    else if ltb (length t.total) 10
    then if s.kind == 1 then (if ltb (length t.usable) 10 then use_it else none) else keep
    else none

-- `memset(mmgr_memory_map, 0xF, n)` on the 64-bit words: `n` bytes become 0x0F.
unfoldable pub low_bytes : ℕ → ℕ → ℕ
low_bytes zero w = w
low_bytes (suc n) w = low_bytes n (w / 256) * 256 + 15

unfoldable pub memset_map : ℕ → List ℕ → Option (List ℕ)
unfolding low_bytes
memset_map n [] = if n == 0 then some [] else none
memset_map n (w ∷ ws) =
    memset_map (n - 8) ws >>= λ rest. some (low_bytes (if ltb n 8 then n else 8) w ∷ rest)

unfoldable pub init_all : List Smap → Bitmap → Option Bitmap
unfolding phy_init_regions
init_all [] m = some m
init_all (s ∷ rest) m = phy_init_regions s.base s.len m >>= init_all rest

-- `mmgr_max_blocks` and `mmgr_used_blocks` as set before the usable regions are freed.
abbrev pub all_used : Tables → List ℕ → Bitmap
all_used t ws = record {
  words = ws;
  used_blocks = t.usable_size / block_size;
  max_blocks = t.usable_size / block_size;
}

abbrev pub cleared_bytes : Tables → ℕ
cleared_bytes t = t.usable_size / block_size / 64 % 2 ^ 32

-- The second half of `mm_phy_init`. The bitmap starts as static data, all zero.
unfoldable pub boot : Tables → Option Bitmap
unfolding memset_map init_all set_region
boot t = memset_map (cleared_bytes t) (replicate 1200 0) >>= λ ws.
    init_all t.usable (all_used t ws) >>= set_region 1024 0

-- The allocator after boot, and the size of the usable memory in megabytes.
unfoldable pub mm_phy_init : List Smap → Option (Bitmap × ℕ)
unfolding collect boot
mm_phy_init map = collect map (record { total = []; usable = []; usable_size = 0 }) >>= λ t.
    boot t >>= λ m. some (m, t.usable_size / (1024 * 1024))
