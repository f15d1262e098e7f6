-- ===== src/Conv/Index.antt =====
-- Page numbers: `ppa2pgidx` numbers the pages of the device without gaps or repetition.
use xharvest.Base.{
  ≢→==, update_self, some_inj, suc, ℕ, ◌+◌, ◌*◌, ◌/◌, ◌^◌, ◌≤◌, ◌<◌, ◌≡◌, true, some, refl, arith,
  if◌then◌else◌, update, ap, sym, ◌∙◌, Bool-cases, inl, inr,
}
use native.Mathlib.Nat.{mul-le-mul_right, suc-mul, mul_comm, div-eq_of_lt, mul-add-div_right}
use xharvest.Ssd.Nand.{Ppa, Ssd, same_pg}
use xharvest.Ssd.Params.Layout.{IsLayout}
use xharvest.Conv.{Maps, ppa2pgidx, get_rmap_ent, set_rmap_ent}

-- A digit before others: `a` in base `m` before `b`.
digit_bound : (a n m b t : ℕ) → a < n → b < m → t ≡ m * n → a * m + b < t
digit_bound a n m b t h k e =
    let up : suc a * m ≤ n * m = mul-le-mul_right m h in
    omega (arith, up, suc-mul a m, mul_comm m n, e)

digit_inj : (a a' m b b' : ℕ) → b < m → b' < m → a * m + b ≡ a' * m + b' → (a ≡ a') × (b ≡ b')
digit_inj a a' m b b' h k e =
    let pos : 0 < m = omega arith in
    let top : (x y : ℕ) → y < m → (x * m + y) / m ≡ x =
      λ x y l. mul-add-div_right pos x y ∙ rw (div-eq_of_lt l) (omega arith) in
    let same : a ≡ a' = sym (top a b h) ∙ ap (λ n. n / m) e ∙ top a' b' k in
    (same, omega (arith, e, ap (λ n. n * m) same))

-- The page is one of the device's.
pub record IsPage (ssd : Ssd) (p : Ppa) : Type 0 where
  pub ch_in : p.ch < ssd.sp.nchs
  pub lun_in : p.lun < ssd.sp.luns_per_ch
  pub pl_in : p.pl < ssd.sp.pls_per_lun
  pub blk_in : p.blk < ssd.sp.blks_per_pl
  pub pg_in : p.pg < ssd.sp.pgs_per_blk

module _ (ftl : Maps) {capacity : ℕ} (l : IsLayout capacity ftl.ssd.sp)
    (small : ftl.ssd.sp.tt_pgs < 2 ^ 64) where
  in_block : Ppa → ℕ
  in_block p = p.blk * ftl.ssd.sp.pgs_per_blk + p.pg

  in_plane : Ppa → ℕ
  in_plane p = p.pl * ftl.ssd.sp.pgs_per_pl + in_block p

  in_lun : Ppa → ℕ
  in_lun p = p.lun * ftl.ssd.sp.pgs_per_lun + in_plane p

  index : Ppa → ℕ
  index p = p.ch * ftl.ssd.sp.pgs_per_ch + in_lun p

  -- Each part of the address stays below the number of pages of what it is in.
  record Below (p : Ppa) : Type 0 where
    block : in_block p < ftl.ssd.sp.pgs_per_pl
    plane : in_plane p < ftl.ssd.sp.pgs_per_lun
    lun : in_lun p < ftl.ssd.sp.pgs_per_ch
    whole : index p < ftl.ssd.sp.tt_pgs

  IsPage-Below : (p : Ppa) → IsPage ftl.ssd p → Below p
  unfolding in_block in_plane in_lun index
  IsPage-Below p h =
      let sp = ftl.ssd.sp in
      let b = digit_bound p.blk sp.blks_per_pl sp.pgs_per_blk p.pg _ h.blk_in h.pg_in l.plane in
      let c = digit_bound p.pl sp.pls_per_lun sp.pgs_per_pl (in_block p) _ h.pl_in b l.lun in
      let d = digit_bound p.lun sp.luns_per_ch sp.pgs_per_lun (in_plane p) _ h.lun_in c l.channel in
      record {
        block = b;
        plane = c;
        lun = d;
        whole = digit_bound p.ch sp.nchs sp.pgs_per_ch (in_lun p) _ h.ch_in d l.device;
      }

  ppa2pgidx-index : (p : Ppa) → IsPage ftl.ssd p → ppa2pgidx ftl p ≡ some (index p)
  unfolding ppa2pgidx in_block in_plane in_lun index
  ppa2pgidx-index p h = let w = (IsPage-Below p h).whole in ground (arith, w)

  index_inj :
      (p q : Ppa) → IsPage ftl.ssd p → IsPage ftl.ssd q → index p ≡ index q → same_pg p q ≡ true
  unfolding in_block in_plane in_lun index
  index_inj p q h k e =
      let sp = ftl.ssd.sp in
      let b = IsPage-Below p h in
      let b' = IsPage-Below q k in
      let (ch, e1) = digit_inj p.ch q.ch sp.pgs_per_ch _ _ b.lun b'.lun e in
      let (lun, e2) = digit_inj p.lun q.lun sp.pgs_per_lun _ _ b.plane b'.plane e1 in
      let (pl, e3) = digit_inj p.pl q.pl sp.pgs_per_pl _ _ b.block b'.block e2 in
      let (blk, pg) = digit_inj p.blk q.blk sp.pgs_per_blk _ _ h.pg_in k.pg_in e3 in
      ground (arith, ch, lun, pl, blk, pg)

  -- On a device with a consistent geometry of less than 2^64 pages, every page has a number below
  -- the number of pages, so that the assertion holds, and no other page has the same.
  pub ppa2pgidx-numbers :
      (p q : Ppa)
      → IsPage ftl.ssd p
      → IsPage ftl.ssd q
      → (n : ℕ) × (ppa2pgidx ftl p ≡ some n)
        × (n < ftl.ssd.sp.tt_pgs)
        × (ppa2pgidx ftl q ≡ some n → same_pg p q ≡ true)
  ppa2pgidx-numbers p q h k = (
    index p,
    ppa2pgidx-index p h,
    (IsPage-Below p h).whole,
    λ e. index_inj p q h k (some_inj (sym e ∙ ppa2pgidx-index q k)),
  )

  same_pg-index : (p q : Ppa) → same_pg p q ≡ true → index p ≡ index q
  unfolding in_block in_plane in_lun index
  same_pg-index p q e = ground arith

  -- After `rmap` is set for a page of the device, the page has that LPN and every other page has the
  -- LPN that it had.
  pub get_rmap_ent-set_rmap_ent :
      (lpn : ℕ) (p q : Ppa)
      → IsPage ftl.ssd p
      → IsPage ftl.ssd q
      → (ftl' : Maps) × (set_rmap_ent ftl lpn p ≡ some ftl')
        × (get_rmap_ent ftl' q ≡ (if same_pg p q then some lpn else get_rmap_ent ftl q))
  unfolding set_rmap_ent get_rmap_ent
  get_rmap_ent-set_rmap_ent lpn p q h k =
      let ftl' : Maps = record ftl { rmap = update ftl.rmap (index p) lpn } in
      let at' : ppa2pgidx ftl' q ≡ some (index q) = ppa2pgidx-index q k in
      (
        ftl',
        rw (ppa2pgidx-index p h) refl,
        elim (Bool-cases (same_pg p q)) [
          | inl e ↦ rw (at', e, same_pg-index p q e) (ap some (update_self ftl.rmap (index q) lpn))
          | inr e ↦ rw (at', e, ≢→== (index q) (index p) (λ s. cc (index_inj p q h k (sym s)))) refl
        ],
      )
