-- ===== src/Ssd/Params/Layout.antt =====
-- The geometry that ssd_init_params computes is consistent.
use xharvest.Base.{
  ℕ, ◌+◌, ◌-◌, ◌*◌, ◌/◌, ◌%◌, ◌≤◌, ◌<◌, ◌≡◌, true, some, arith, ltb, ◌&&◌, div_round_up, some_inj,
  lt→ltb, ◌∙◌, ap, sym, refl, ◌⊎◌, inl, inr, none, if◌then◌else◌, if-eq-some, none≢some, u32, ◌^◌,
}
use mathlib.Core.Path.{subst}
use native.Mathlib.Nat.{
  mul-div_cancel, mul_assoc, lt-mul-div-succ, div-add-mod, mul-le-mul_right, mul-pos, mod-eq_of_lt,
}
use xharvest.Ssd.Params.{
  SsdConfig, SsdParams, derived, params_checks, plane_blocks, ssd_init_params, int_checks,
}

-- A ceiling division covers what is divided.
div_round_up-covers : (n d : ℕ) → 0 < d → n ≤ d * div_round_up n d
div_round_up-covers n d h =
    let p : n + d - 1 < d * ((n + d - 1) / d + 1) = lt-mul-div-succ (n + d - 1) h in grind arith

exact : (n d : ℕ) → 0 < d → n % d ≡ 0 → n ≡ n / d * d
exact n d h e = grind (arith, div-add-mod n d)

regroup : (q b r c a : ℕ) → b ≡ r * c → a ≡ q * b → r * q * c ≡ a
regroup q b r c a e f = rw (f, e) (grind arith)

-- The pages of a device hold what its blocks hold.
capacity_of_pages :
    (capacity blk_size blks plns luns nchs pages per pgsz oneshot : ℕ)
    → capacity ≤ blk_size * blks * (plns * luns * nchs)
    → blk_size ≤ oneshot * per
    → oneshot ≡ pages * pgsz
    → capacity ≤ pages * per * blks * plns * luns * nchs * pgsz
capacity_of_pages capacity blk_size blks plns luns nchs pages per pgsz oneshot h k e =
    let m : blk_size * (blks * (plns * luns * nchs))
        ≤ oneshot * per * (blks * (plns * luns * nchs)) =
      mul-le-mul_right (blks * (plns * luns * nchs)) k in
    let w = rw e at m in omega arith

-- Dividing in two exact steps is dividing once.
div-mul-div : (a b c : ℕ) → 0 < b → 0 < c → a % b ≡ 0 → b % c ≡ 0 → b / c * (a / b) ≡ a / c
div-mul-div a b c hb hc e f =
    let whole : b / c * (a / b) * c ≡ a =
      regroup (a / b) b (b / c) c a (exact b c hc f) (exact a b hb e) in
    sym (mul-div_cancel (b / c * (a / b)) hc) ∙ ap (λ x. x / c) whole

quotient_pos : (n d : ℕ) → 0 < n → 0 < d → n % d ≡ 0 → 0 < n / d
quotient_pos n d h k e = grind (arith, div-add-mod n d)

block_pages :
    (oneshot flash pgsz per : ℕ)
    → 0 < flash
    → 0 < pgsz
    → oneshot % flash ≡ 0
    → flash % pgsz ≡ 0
    → flash / pgsz * (oneshot / flash * per) ≡ oneshot / pgsz * per
block_pages oneshot flash pgsz per h k e f =
    sym (mul_assoc (flash / pgsz) (oneshot / flash) per)
    ∙ ap (λ x. x * per) (div-mul-div oneshot flash pgsz h k e f)

-- What the FTLs rely on.
pub record IsLayout (capacity : ℕ) (p : SsdParams) : Type 0 where
  pub page : 0 < p.pgsz
  pub wordline : 0 < p.pgs_per_oneshotpg
  pub block_oneshot : p.pgs_per_blk ≡ p.pgs_per_oneshotpg * p.oneshotpgs_per_blk
  pub block_flash : p.pgs_per_flashpg * p.flashpgs_per_blk ≡ p.pgs_per_blk
  pub plane : p.pgs_per_pl ≡ p.pgs_per_blk * p.blks_per_pl
  pub lun : p.pgs_per_lun ≡ p.pgs_per_pl * p.pls_per_lun
  pub channel : p.pgs_per_ch ≡ p.pgs_per_lun * p.luns_per_ch
  pub device : p.tt_pgs ≡ p.pgs_per_ch * p.nchs
  pub line : p.pgs_per_line ≡ p.luns_per_ch * p.nchs * p.pgs_per_blk
  pub lines : p.pgs_per_line * p.tt_lines ≡ p.tt_pgs
  pub sectors : p.tt_secs ≡ p.tt_pgs * p.secs_per_pg
  pub roomy : capacity ≤ p.tt_pgs * p.pgsz

record Checks (c : SsdConfig) (nparts : ℕ) : Type 0 where
  page : 0 < c.lba_size * (4096 / c.lba_size)
  flash : 0 < c.flash_page_size
  oneshot : 0 < c.oneshot_page_size
  dies : 0 < c.plns_per_lun * c.luns_per_nand_ch * (c.nand_channels / nparts)
  oneshot_pages : c.oneshot_page_size % (c.lba_size * (4096 / c.lba_size)) ≡ 0
  flash_pages : c.flash_page_size % (c.lba_size * (4096 / c.lba_size)) ≡ 0
  oneshot_flash : c.oneshot_page_size % c.flash_page_size ≡ 0
  blocks : (0 < c.blks_per_pln) ⊎ ((c.blks_per_pln ≡ 0) × (0 < c.blk_size))

-- The fields that the function computes by cases.
abbrev dies : SsdConfig → ℕ → ℕ
dies c nparts = c.plns_per_lun * c.luns_per_nand_ch * (c.nand_channels / nparts)

derived-IsLayout :
    (c : SsdConfig) (capacity nparts blks blk_size : ℕ)
    → Checks c nparts
    → capacity ≤ blk_size * blks * dies c nparts
    → IsLayout capacity
        (derived c (c.nand_channels / nparts) blks (div_round_up blk_size c.oneshot_page_size))
derived-IsLayout c capacity nparts blks blk_size k h = record {
  page = k.page;
  wordline = quotient_pos _ _ k.oneshot k.page k.oneshot_pages;
  block_oneshot = refl;
  block_flash = block_pages _ _ _ _ k.flash k.page k.oneshot_flash k.flash_pages;
  plane = refl;
  lun = refl;
  channel = refl;
  device = refl;
  line = refl;
  lines = grind arith;
  sectors = grind arith;
  roomy =
      capacity_of_pages capacity blk_size blks c.plns_per_lun c.luns_per_nand_ch
        (c.nand_channels / nparts) _ (div_round_up blk_size c.oneshot_page_size) _
        c.oneshot_page_size h (div_round_up-covers blk_size c.oneshot_page_size k.oneshot)
        (exact _ _ k.page k.oneshot_pages);
}

params_checks-Checks :
    (c : SsdConfig) (nparts : ℕ)
    → (params_checks c nparts && ltb 0 (dies c nparts)) ≡ true
    → Checks c nparts
params_checks-Checks c nparts e = ground arith

regroup_dies : (m plns luns nchs : ℕ) → m * plns * luns * nchs ≡ m * (plns * luns * nchs)
regroup_dies m plns luns nchs = omega arith

spread-covers :
    (capacity m plns luns nchs : ℕ)
    → 0 < m
    → 0 < plns * luns * nchs
    → capacity ≤ div_round_up capacity (m * plns * luns * nchs) * m * (plns * luns * nchs)
spread-covers capacity m plns luns nchs h k =
    let p : 0 < m * plns * luns * nchs = rw (regroup_dies m plns luns nchs) (mul-pos h k) in
    let q = div_round_up-covers capacity (m * plns * luns * nchs) p in omega arith

-- The blocks of a plane that are computed from the capacity fit 32 bits.
abbrev pub BlocksFit : SsdConfig → ℕ → ℕ → Type 0
BlocksFit c capacity nchs =
    c.blks_per_pln ≡ 0
    → div_round_up capacity (c.blk_size * c.plns_per_lun * c.luns_per_nand_ch * nchs) < 2 ^ 32

plane_blocks-covers :
    (c : SsdConfig) (capacity nparts : ℕ)
    → Checks c nparts
    → BlocksFit c capacity (c.nand_channels / nparts)
    → capacity
      ≤ (plane_blocks c capacity (c.nand_channels / nparts)).1
        * (plane_blocks c capacity (c.nand_channels / nparts)).0
        * dies c nparts
unfolding plane_blocks
plane_blocks-covers c capacity nparts k small = elim k.blocks [
  | inl fixed ↦
      let q =
        spread-covers capacity c.blks_per_pln c.plns_per_lun c.luns_per_nand_ch
          (c.nand_channels / nparts) fixed k.dies in
      rw (lt→ltb 0 c.blks_per_pln fixed) q
  | inr (unset, sized) ↦
      let q =
        spread-covers capacity c.blk_size c.plns_per_lun c.luns_per_nand_ch
          (c.nand_channels / nparts) sized k.dies in
      let whole = mod-eq_of_lt (small unset) in rw (unset, whole) (omega arith)
]

-- Whatever constants and capacity the function accepts, if neither of the two quotients that it stores
-- in an `int` is truncated, the geometry is consistent: pages add up to flash pages, one-shot pages,
-- blocks, planes, dies, channels and lines, and the pages of the partition hold its share of the
-- capacity.
pub ssd_init_params-IsLayout :
    (c : SsdConfig) (capacity nparts : ℕ) {p : SsdParams}
    → BlocksFit c (capacity / nparts) (c.nand_channels / nparts)
    → div_round_up
        (plane_blocks c (capacity / nparts) (c.nand_channels / nparts)).1
        c.oneshot_page_size
      < 2 ^ 32
    → ssd_init_params c capacity nparts ≡ some p
    → IsLayout (capacity / nparts) p
unfolding ssd_init_params
ssd_init_params-IsLayout c capacity nparts {p} small short e =
    let nchs = c.nand_channels / nparts in
    let blocks = plane_blocks c (capacity / nparts) nchs in
    let per = u32 (div_round_up blocks.1 c.oneshot_page_size) in
    let geometry = derived c nchs blocks.0 per in
    elim (if-eq-some (params_checks c nparts && ltb 0 (dies c nparts))
      (if int_checks c nchs blocks.0 per then some geometry else none) none e) [
        | inr (t, q) ↦ absurd (none≢some q)
        | inl (t, q) ↦ elim (if-eq-some (int_checks c nchs blocks.0 per) (some geometry) none q) [
          | inr (i, r) ↦ absurd (none≢some r)
          | inl (i, r) ↦
              let k = params_checks-Checks c nparts t in
              subst (IsLayout (capacity / nparts)) (some_inj r) (
                subst (λ n. IsLayout (capacity / nparts) (derived c nchs blocks.0 n))
                  (sym (mod-eq_of_lt short))
                  (derived-IsLayout c (capacity / nparts) nparts blocks.0 blocks.1 k
                    (plane_blocks-covers c (capacity / nparts) nparts k small)))
        ]
      ]
