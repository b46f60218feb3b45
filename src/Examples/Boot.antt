-- ===== src/Examples/Boot.antt =====
-- Examples for the initialisation of the physical allocator.
use course_project_os_integr.Base.{
  ℕ, ◌*◌, ◌/◌, ◌^◌, ◌<◌, ◌≤◌, ◌≡◌, ◌⊎◌, refl, true, false, Option, none, some, List, [], ◌∷◌, arith,
  length,
}
use course_project_os_integr.Bitmap.{
  Bitmap, one_shl, set_block, unset_block, block_size, alloc_block,
}
use course_project_os_integr.Bitmap.History
use course_project_os_integr.Bitmap.Slots.{taken}
use course_project_os_integr.Bitmap.Blocks.{IsBitmap, AllocOutcome, alloc_block-AllocOutcome}
use course_project_os_integr.Bitmap.Regions.{Smap, Tables, collect, mm_phy_init}
use course_project_os_integr.Bitmap.Regions.Boot.{start, mm_phy_init-Reserved}
use course_project_os_integr.Bitmap.Regions.Reserved.{mm_phy_init-alloc_block}
use course_project_os_integr.Bitmap.Regions.Returns.{inside, Booted, mm_phy_init-reserves}

-- One usable region of 8 MB from address 0 on.
abbrev map : List Smap
map = record { base = 0; len = 0x800000; kind = 1 } ∷ []

abbrev booted : Option (Bitmap × ℕ) → Bitmap
booted (some r) = r.0
booted none = record { words = []; used_blocks = 0; max_blocks = 0 }

run_boot : mm_phy_init map ≡ some (booted (mm_phy_init map), 8)
unfolding mm_phy_init one_shl unset_block set_block
run_boot = refl

abbrev map_tables : Tables
map_tables = record { total = map; usable = map; usable_size = 0x800000 }

map_read : collect map start ≡ some map_tables
unfolding collect
map_read = refl

map_inside : inside map_tables.usable ≡ true
unfolding inside
map_inside = refl

mm_phy_init-reserves_example :
    (m : Bitmap) × (mm_phy_init map ≡ some (m, map_tables.usable_size / (1024 * 1024)))
    × (length m.words ≡ 1200)
    × ((c : ℕ) → c < 1024 → taken m.words c ≡ true)
    × Booted map_tables m
mm_phy_init-reserves_example = mm_phy_init-reserves map map_tables map_read (omega arith) map_inside

room : (booted (mm_phy_init map)).max_blocks / 64 ≤ 1200
unfolding mm_phy_init one_shl unset_block set_block
room = omega arith

counter : (booted (mm_phy_init map)).used_blocks < 2 ^ 64
unfolding mm_phy_init one_shl unset_block set_block
counter = omega arith

booted-IsBitmap : IsBitmap (booted (mm_phy_init map))
booted-IsBitmap =
    let (len, words, _, _) = mm_phy_init-Reserved map (booted (mm_phy_init map)) 8 run_boot in
    record {
      covered = omega (arith, room);
      small = omega arith;
      entries = words;
      counter = counter;
    }

first_alloc :
    (r : Bitmap × ℕ) × (alloc_block (booted (mm_phy_init map)) ≡ some r)
    × AllocOutcome (booted (mm_phy_init map)) r
first_alloc = alloc_block-AllocOutcome (booted (mm_phy_init map)) booted-IsBitmap

mm_phy_init-alloc_block_example : ((first_alloc.0).1 ≡ 0) ⊎ (1024 * block_size ≤ (first_alloc.0).1)
mm_phy_init-alloc_block_example =
    mm_phy_init-alloc_block map (booted (mm_phy_init map)) ((first_alloc.0).0) 8 ((first_alloc.0).1)
      (record { map = booted (mm_phy_init map); held = λ _. false }) run_boot room counter
      History.start (first_alloc.1)
