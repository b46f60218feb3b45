-- ===== src/Bitmap/Regions/Boot.antt =====
-- The state of the allocator after `mm_phy_init`.
use course_project_os_integr.Base.{
  ℕ, zero, suc, ◌-◌, ◌*◌, ◌/◌, ◌%◌, ◌^◌, ◌≤◌, ◌<◌, ◌≡◌, inl, inr, refl, ap, ◌∙◌, Bool, true, ◌||◌,
  some, List, [], ◌∷◌, arith, ltb, Option-cases, if◌then◌else◌, length, replicate, length-replicate,
  ◌>>=◌, >>=-eq-some,
}
use native.Mathlib.Nat.{pow-suc}
use mathlib.Core.Path.{subst}
use mathlib.Core.Option.{some-injective}
use course_project_os_integr.Bitmap.{Bitmap, block_size, unset_block}
use course_project_os_integr.Bitmap.Slots.{taken, IsWords}
use course_project_os_integr.Bitmap.Regions.{
  Smap, Tables, unset_region, phy_init_regions, set_region, collect, low_bytes, memset_map,
  init_all, all_used, cleared_bytes, boot, mm_phy_init,
}
use course_project_os_integr.Bitmap.Regions.Marking.{
  Changed, Changed-refl, Changed-trans, unset_one, set_region-slots, covers-inside,
}

cons-IsWords : (w : ℕ) (ws : List ℕ) → w < 2 ^ 64 → IsWords ws → IsWords (w ∷ ws)
cons-IsWords w ws h good zero v e = subst (λ u. u < 2 ^ 64) (some-injective w v e) h
cons-IsWords w ws h good (suc i) v e = good i v e

zeros-IsWords : (n : ℕ) → IsWords (replicate n 0)
zeros-IsWords zero = λ i w e. ground arith
zeros-IsWords (suc n) = cons-IsWords 0 (replicate n 0) (omega arith) (zeros-IsWords n)

low_bytes-fits : (n k w : ℕ) → n ≤ k → w < 256 ^ k → low_bytes n w < 256 ^ k
unfolding low_bytes
low_bytes-fits zero k w p h = h
low_bytes-fits (suc n) zero w p h = absurd (omega arith)
low_bytes-fits (suc n) (suc k) w p h =
    let rest : low_bytes n (w / 256) < 256 ^ k =
      low_bytes-fits n k (w / 256) (omega arith) (omega (arith, pow-suc 256 k)) in
    omega (arith, pow-suc 256 k)

pub memset_map-length :
    (n : ℕ) (ws ws' : List ℕ) → memset_map n ws ≡ some ws' → length ws' ≡ length ws
unfolding memset_map
memset_map-length n [] ws' h = ground arith
memset_map-length n (w ∷ ws) ws' h = elim (Option-cases (memset_map (n - 8) ws)) [
  | inl e ↦ absurd (ground arith)
  | inr (rest, e) ↦ ground (arith, memset_map-length (n - 8) ws rest)
]

memset_map-IsWords :
    (n : ℕ) (ws ws' : List ℕ) → IsWords ws → memset_map n ws ≡ some ws' → IsWords ws'
unfolding memset_map
memset_map-IsWords n [] ws' good h = λ i w e. ground arith
memset_map-IsWords n (w ∷ ws) ws' good h = elim (Option-cases (memset_map (n - 8) ws)) [
  | inl e ↦ absurd (ground arith)
  | inr (rest, e) ↦
      let first = low_bytes (if ltb n 8 then n else 8) w in
      let small : first < 2 ^ 64 =
        low_bytes-fits (if ltb n 8 then n else 8) 8 w (ground arith) (good 0 w refl) in
      let later = memset_map-IsWords (n - 8) ws rest (λ i v q. good (suc i) v q) e in
      subst IsWords (some-injective (first ∷ rest) ws' (rw e at h))
        (cons-IsWords first rest small later)
]

pub unset_region-Changed : (n b : ℕ) (m m' : Bitmap) → unset_region n b m ≡ some m' → Changed m m'
unfolding unset_region
unset_region-Changed zero b m m' h = subst (Changed m) (some-injective m m' h) (Changed-refl m)
unset_region-Changed (suc n) b m m' h = elim (Option-cases (unset_block m.words (b % 2 ^ 32))) [
  | inl e ↦ absurd (ground arith)
  | inr (ws, e) ↦
      Changed-trans (unset_one m (b % 2 ^ 32) ws e)
        (unset_region-Changed n (suc b) _ m' (rw e at h))
]

pub init_all-Changed : (map : List Smap) (m m' : Bitmap) → init_all map m ≡ some m' → Changed m m'
unfolding init_all phy_init_regions
init_all-Changed [] m m' h = subst (Changed m) (some-injective m m' h) (Changed-refl m)
init_all-Changed (s ∷ rest) m m' h =
    elim (Option-cases (unset_region (s.len / block_size) (s.base / block_size) m)) [
      | inl e ↦ absurd (ground arith)
      | inr (k, e) ↦
          Changed-trans (unset_region-Changed (s.len / block_size) (s.base / block_size) m k e)
            (init_all-Changed rest k m' (rw e at h))
    ]

or_true : (x : Bool) → (x || true) ≡ true
or_true x = ground arith

in_megabytes : (u : ℕ) → u / block_size / 256 ≡ u / (1024 * 1024)
in_megabytes u = omega arith

abbrev Reserved : Tables → Bitmap → Type 0
Reserved t m =
    (length m.words ≡ 1200)
    × IsWords m.words
    × (m.max_blocks ≡ t.usable_size / block_size)
    × ((c : ℕ) → c < 1024 → taken m.words c ≡ true)

boot-Reserved : (t : Tables) (n : Bitmap) → boot t ≡ some n → Reserved t n
unfolding boot
boot-Reserved t n h =
    let zeros : List ℕ = replicate 1200 0 in
    let (ws, cleared, h₁) =
      >>=-eq-some (memset_map (cleared_bytes t) zeros)
        (λ ws. init_all t.usable (all_used t ws) >>= set_region 1024 0) h in
    let (k, freed, reserved) =
      >>=-eq-some (init_all t.usable (all_used t ws)) (set_region 1024 0) h₁ in
    let first = init_all-Changed t.usable (all_used t ws) k freed in
    let (second, slots, _) = set_region-slots 1024 0 k n (omega arith) reserved in
    let both = Changed-trans first second in
    let words = memset_map-IsWords (cleared_bytes t) zeros ws (zeros-IsWords 1200) cleared in
    (
      both.same_length
          ∙ memset_map-length (cleared_bytes t) zeros ws cleared
          ∙ length-replicate {A = ℕ} 1200 0,
      both.entries words,
      both.same_max,
      λ c lt.
          slots c
          ∙ ap (λ x. taken k.words c || x) (covers-inside 1024 0 c (omega arith) (omega arith))
          ∙ or_true (taken k.words c),
    )

abbrev pub start : Tables
start = record { total = []; usable = []; usable_size = 0 }

pub mm_phy_init-Reserved :
    (map : List Smap) (m : Bitmap) (size : ℕ)
    → mm_phy_init map ≡ some (m, size)
    → (length m.words ≡ 1200)
      × IsWords m.words
      × (m.max_blocks / 256 ≡ size)
      × ((c : ℕ) → c < 1024 → taken m.words c ≡ true)
unfolding mm_phy_init
mm_phy_init-Reserved map m size h =
    let (t, _, h₁) =
      >>=-eq-some (collect map start) (λ t. boot t >>= λ n. some (n, t.usable_size / (1024 * 1024)))
        h in
    let (n, booted, h₂) = >>=-eq-some (boot t) (λ n. some (n, t.usable_size / (1024 * 1024))) h₁ in
    let pair : (n, t.usable_size / (1024 * 1024)) ≡ (m, size) =
      some-injective (n, t.usable_size / (1024 * 1024)) (m, size) h₂ in
    let (len, words, blocks, low) =
      subst (Reserved t) (ap (λ r. r.0) pair) (boot-Reserved t n booted) in
    let megabytes : t.usable_size / (1024 * 1024) ≡ size = ap (λ r. r.1) pair in
    (len, words, ap (λ (x : ℕ). x / 256) blocks ∙ in_megabytes t.usable_size ∙ megabytes, low)
