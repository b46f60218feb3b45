-- ===== src/Bitmap/Regions/Returns.antt =====
-- `mm_phy_init` returns on a memory map that its arrays can hold.
use course_project_os_integr.Base.{
  ℕ, ◌+◌, ◌-◌, ◌*◌, ◌/◌, ◌%◌, ◌^◌, ◌≤◌, ◌<◌, ◌≡◌, refl, sym, ap, ◌∙◌, Bool, true, false, not, ◌||◌,
  ◌&&◌, ◌>>=◌, >>=-eq-some, some, List, [], ◌∷◌, arith, ltb, leb, if◌then◌else◌, length, replicate,
  length-replicate,
}
use course_project_os_integr.Bitmap.{Bitmap, block_size}
use course_project_os_integr.Bitmap.Slots.{taken}
use course_project_os_integr.Bitmap.Regions.{
  Smap, Tables, unset_region, set_region, phy_init_regions, collect, low_bytes, memset_map,
  init_all, all_used, cleared_bytes, boot, mm_phy_init,
}
use course_project_os_integr.Bitmap.Regions.Marking.{
  covers, unset_region-some, set_region-some, unset_region-slots, set_region-slots,
}
use mathlib.Core.Option.{some-injective}
use course_project_os_integr.Bitmap.Regions.Boot.{
  start, memset_map-length, unset_region-Changed, init_all-Changed, mm_phy_init-Reserved,
}

-- every region ends below block 76,800, the last one with a bit in the 1200 words
unfoldable pub inside : List Smap → Bool
inside [] = true
inside (s ∷ rest) = leb (s.base / block_size + s.len / block_size) 76800 && inside rest

memset_map-some :
    (n : ℕ) (ws : List ℕ) → n ≤ 8 * length ws → (ws' : List ℕ) × (memset_map n ws ≡ some ws')
unfolding memset_map
memset_map-some n [] h = ([], ground arith)
memset_map-some n (w ∷ ws) h =
    let (rest, e) = memset_map-some (n - 8) ws (omega arith) in
    (low_bytes (if ltb n 8 then n else 8) w ∷ rest, rw e)

init_all-some :
    (map : List Smap) (m : Bitmap)
    → inside map ≡ true
    → length m.words ≡ 1200
    → (m' : Bitmap) × (init_all map m ≡ some m')
unfolding init_all phy_init_regions inside
init_all-some [] m h len = (m, refl)
init_all-some (s ∷ rest) m h len =
    let n = s.len / block_size in
    let b = s.base / block_size in
    let here : b + n ≤ 76800 = ground arith in
    let (k, e) = unset_region-some n b m (omega arith) (omega arith) in
    let same = (unset_region-Changed n b m k e).same_length in
    let (m', later) = init_all-some rest k (ground arith) (same ∙ len) in (m', rw (e, later))

boot-some :
    (t : Tables)
    → cleared_bytes t ≤ 9600
    → inside t.usable ≡ true
    → (m : Bitmap) × (boot t ≡ some m)
unfolding boot
boot-some t small h =
    let zeros : List ℕ = replicate 1200 0 in
    let all : length zeros ≡ 1200 = length-replicate {A = ℕ} 1200 0 in
    let (ws, cleared) = memset_map-some (cleared_bytes t) zeros (omega arith) in
    let len : length ws ≡ 1200 = memset_map-length (cleared_bytes t) zeros ws cleared ∙ all in
    let (k, freed) = init_all-some t.usable (all_used t ws) h len in
    let same = (init_all-Changed t.usable (all_used t ws) k freed).same_length in
    let long : length k.words ≡ 1200 = same ∙ len in
    let (m, reserved) = set_region-some 1024 0 k (omega arith) (omega arith) in
    (m, rw (cleared, freed, reserved))

-- a block of some region, or one that shares its slot with such a block
abbrev pub covered : List Smap → ℕ → Bool
covered [] c = false
covered (s ∷ rest) c = covers (s.len / block_size) (s.base / block_size) c || covered rest c

abbrev pub blocks_of : List Smap → ℕ
blocks_of [] = 0
blocks_of (s ∷ rest) = s.len / block_size + blocks_of rest

and_nor : (x y z : Bool) → ((x && not y) && not z) ≡ (x && not (y || z))
and_nor x y z = ground arith

and_true : (x : Bool) → x ≡ (x && true)
and_true x = ground arith

init_all-slots :
    (map : List Smap) (m m' : Bitmap)
    → inside map ≡ true
    → init_all map m ≡ some m'
    → ((c : ℕ) → taken m'.words c ≡ (taken m.words c && not (covered map c)))
      × ((m'.used_blocks + blocks_of map) % 2 ^ 64 ≡ m.used_blocks % 2 ^ 64)
unfolding init_all phy_init_regions inside
init_all-slots [] m m' within h =
    let e : m ≡ m' = some-injective m m' h in
    (
      λ c. sym (ap (λ k. taken k.words c) e) ∙ and_true (taken m.words c),
      ap (λ k. (k.used_blocks + 0) % 2 ^ 64) (sym e) ∙ omega arith,
    )
init_all-slots (s ∷ rest) m m' within h =
    let n = s.len / block_size in
    let b = s.base / block_size in
    let here : b + n ≤ 76800 = ground arith in
    let (k, freed, later) = >>=-eq-some (unset_region n b m) (init_all rest) h in
    let (_, slots, counts) = unset_region-slots n b m k (omega arith) freed in
    let (slots', counts') = init_all-slots rest k m' (ground arith) later in
    (
      λ c.
          slots' c
          ∙ ap (λ x. x && not (covered rest c)) (slots c)
          ∙ and_nor (taken m.words c) (covers n b c) (covered rest c),
      omega arith,
    )

-- The state of the allocator after boot: the slots of the first 1024 blocks are in use, those of the
-- usable regions above are free, and the others are as `memset` left them.
pub record Booted (t : Tables) (m : Bitmap) : Type 0 where
  pub words : List ℕ
  pub cleared : memset_map (cleared_bytes t) (replicate 1200 0) ≡ some words
  pub slots :
      (c : ℕ) → taken m.words c ≡ ((taken words c && not (covered t.usable c)) || covers 1024 0 c)
  pub counts :
      (m.used_blocks + blocks_of t.usable) % 2 ^ 64 ≡ (t.usable_size / block_size + 1024) % 2 ^ 64
  pub max : m.max_blocks ≡ t.usable_size / block_size

boot-Booted : (t : Tables) (n : Bitmap) → inside t.usable ≡ true → boot t ≡ some n → Booted t n
unfolding boot
boot-Booted t n within h =
    let zeros : List ℕ = replicate 1200 0 in
    let (ws, cleared, h₁) =
      >>=-eq-some (memset_map (cleared_bytes t) zeros)
        (λ ws. init_all t.usable (all_used t ws) >>= set_region 1024 0) h in
    let (k, freed, reserved) =
      >>=-eq-some (init_all t.usable (all_used t ws)) (set_region 1024 0) h₁ in
    let (slots, counts) = init_all-slots t.usable (all_used t ws) k within freed in
    let (second, slots', counts') = set_region-slots 1024 0 k n (omega arith) reserved in
    record {
      words = ws;
      cleared = cleared;
      slots = λ c. slots' c ∙ ap (λ x. x || covers 1024 0 c) (slots c);
      counts = omega arith;
      max = second.same_max ∙ (init_all-Changed t.usable (all_used t ws) k freed).same_max;
    }

-- `mm_phy_init` returns, when the memory map fits in its tables, the bytes that it clears are in the
-- array, and so are the words of the usable regions. It then reports the size of the usable memory in
-- megabytes, keeps the array at its 1200 words, and sets the number of blocks to that of the usable
-- memory. Each of the first 1024 blocks (4 MB) is shown as in use. Of the other blocks, those that share
-- a slot with a block of a usable region are free, and the rest are as the `memset` at the start leaves
-- them. The count of used blocks is that of the usable memory, less the blocks of the usable regions,
-- plus 1024, on 64 bits.
pub mm_phy_init-reserves :
    (map : List Smap) (t : Tables)
    → collect map start ≡ some t
    → cleared_bytes t ≤ 9600
    → inside t.usable ≡ true
    → (m : Bitmap) × (mm_phy_init map ≡ some (m, t.usable_size / (1024 * 1024)))
      × (length m.words ≡ 1200)
      × ((c : ℕ) → c < 1024 → taken m.words c ≡ true)
      × Booted t m
unfolding mm_phy_init
mm_phy_init-reserves map t read small h =
    let (m, booted) = boot-some t small h in
    let size = t.usable_size / (1024 * 1024) in
    let runs : mm_phy_init map ≡ some (m, size) = rw (read, booted) in
    let (len, words, blocks, low) = mm_phy_init-Reserved map m size runs in
    (m, runs, len, low, boot-Booted t m h booted)
