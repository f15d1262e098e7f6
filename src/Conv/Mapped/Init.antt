-- ===== src/Conv/Mapped/Init.antt =====
-- NVMevirt/conv_ftl.c, conv_init_namespace: a new namespace.
use xharvest.Base.{
  ℕ, zero, suc, ◌-◌, ◌*◌, ◌≤◌, ◌<◌, ◌≡◌, true, false, some, List, [], ◌∷◌, ◌++◌, ◌==◌, refl, arith,
  sym, ◌∙◌, ap, sub32,
}
use native.Mathlib.Nat.{mul-zero, zero-mul}
use xharvest.Ssd.Params.{SsdParams}
use xharvest.Ssd.Nand.{
  Ppa, Ssd, get_pg, get_blk, get_pl, get_lun, get_ch, ssd_init, ssd_init_ch, pg_free, pg_valid,
  unmapped_ppa, ppa_of_word, ppa_word, invalid_lpn,
}
use xharvest.Conv.{init_maps, mapped_ppa}
use xharvest.Conv.Lines.{LineState, get_next_free_line}
use xharvest.Conv.Ftl.{
  LineQueue, IsLineQueue, ConvParams, ConvFtl, maps, line_numbers, init_lines,
  prepare_write_pointer, conv_init_ftl, LinePointer, set_wp,
}
use xharvest.Conv.Io.{ConvNs, conv_init_namespace}
use xharvest.Conv.Mapped.{IsDevice, IsMapped, NoLpn, NoPage}
use xharvest.Conv.Mapped.Pointers.{IsPointer}
use xharvest.Conv.Mapped.Write.{IsRunning}
use xharvest.Conv.Mapped.Namespace.{IsServing, is_written}

first_lines : (n : ℕ) → (rest : List ℕ) × (line_numbers (suc (suc n)) ≡ 0 ∷ 1 ∷ rest)
unfolding line_numbers
first_lines zero = ([], refl)
first_lines (suc n) =
    let (rest, e) = first_lines n in
    (rest ++ (suc (suc n) ∷ []), ap (λ l. l ++ (suc (suc n) ∷ [])) e)

-- The first line is the user's, the second that of the garbage collection.
abbrev new_lines : {Q : Type 0} → LineQueue Q → Ssd → List ℕ → LineState Q
new_lines ops ssd rest = record {
  ssd = ssd;
  lines = λ i. record { id = i; ipc = 0; vpc = 0; pos = 0 };
  victim_line_pq = ops.init ssd.sp.tt_lines;
  free_line_list = rest;
  full_line_list = [];
  free_line_cnt = sub32 (sub32 ssd.sp.blks_per_pl 1) 1;
  victim_line_cnt = 0;
  full_line_cnt = 0;
}

abbrev at_line : ℕ → LinePointer
at_line i = record { curline = i; at = record { ch = 0; lun = 0; pg = 0; blk = i; pl = 0 } }

abbrev pub new_ftl : {Q : Type 0} → LineQueue Q → ConvParams → Ssd → List ℕ → ConvFtl Q
new_ftl ops cpp ssd rest = record {
  cp = cpp;
  lm = new_lines ops ssd rest;
  maptbl = λ i. ppa_of_word unmapped_ppa;
  rmap = λ i. invalid_lpn;
  wp = at_line 0;
  gc_wp = at_line 1;
  write_credits = ssd.sp.pgs_per_line;
  credits_to_refill = ssd.sp.pgs_per_line;
  nand_calls = 0;
}

conv_init_ftl-new_ftl :
    {Q : Type 0} (ops : LineQueue Q) (cpp : ConvParams) (ssd : Ssd) (n : ℕ)
    → ssd.sp.blks_per_pl ≡ suc (suc n)
    → ssd.sp.tt_lines ≡ suc (suc n)
    → (rest : List ℕ) × (conv_init_ftl ops cpp ssd ≡ some (new_ftl ops cpp ssd rest))
unfolding conv_init_ftl init_lines prepare_write_pointer get_next_free_line set_wp init_maps
conv_init_ftl-new_ftl ops cpp ssd n e t =
    let (rest, lines) = first_lines n in
    let same : (suc (suc n) == suc (suc n)) ≡ true = ground arith in
    (rest, rw (e, t, lines, same) refl)

factors : (a b n : ℕ) → n ≡ a * b → 0 < n → (0 < a) × (0 < b)
factors zero b n e h = absurd (omega (arith, e, h, zero-mul b))
factors (suc a) zero n e h = absurd (omega (arith, e, h, mul-zero (suc a)))
factors (suc a) (suc b) n e h = (omega arith, omega arith)

-- A pointer at the first page of a line.
at_line-IsPointer :
    (ssd : Ssd) (i : ℕ)
    → IsDevice ssd.sp
    → 0 < ssd.sp.tt_pgs
    → i < ssd.sp.blks_per_pl
    → IsPointer ssd (let p = at_line i in p.at)
at_line-IsPointer ssd i d room below =
    let sp = ssd.sp in
    let l = d.layout in
    let (ch, nchs) = factors sp.pgs_per_ch sp.nchs sp.tt_pgs l.device room in
    let (lun, luns) = factors sp.pgs_per_lun sp.luns_per_ch sp.pgs_per_ch l.channel ch in
    let (pl, pls) = factors sp.pgs_per_pl sp.pls_per_lun sp.pgs_per_lun l.lun lun in
    let (blk, blks) = factors sp.pgs_per_blk sp.blks_per_pl sp.pgs_per_pl l.plane pl in
    let (p, wordlines) =
      factors sp.pgs_per_oneshotpg sp.oneshotpgs_per_blk sp.pgs_per_blk l.block_oneshot blk in
    record {
      w = 0;
      off = 0;
      stands = record {
        at = sym (zero-mul sp.pgs_per_oneshotpg) ∙ omega arith;
        off_in = p;
        wordline_in = wordlines;
        ch_in = nchs;
        lun_in = luns;
      };
      plane = refl;
      blk_in = below;
    }

is_true : ¬ (false ≡ true)
is_true e = cc

free_valid : ¬ (pg_free ≡ pg_valid)
free_valid e = cc

unmapped : mapped_ppa (ppa_of_word unmapped_ppa) ≡ false
unfolding mapped_ppa ppa_of_word ppa_word
unmapped = refl

new_maps-IsMapped :
    {Q : Type 0} (ops : LineQueue Q) (cpp : ConvParams) (ssd : Ssd) (rest : List ℕ)
    → ((q : Ppa) → get_pg ssd q ≡ pg_free)
    → IsMapped (maps (new_ftl ops cpp ssd rest)) NoLpn NoPage
new_maps-IsMapped ops cpp ssd rest free = record {
  held = λ j n h (f : mapped_ppa (ppa_of_word unmapped_ppa) ≡ true).
      absurd (is_true (sym unmapped ∙ f));
  current = λ q h v. absurd (free_valid (sym (free q) ∙ v));
  moved_used = λ q h x. absurd x;
  moved_unmapped = λ q h x. absurd x;
}

pub new_ftl-IsRunning :
    {Q : Type 0} {ops : LineQueue Q} (k : IsLineQueue ops) (cpp : ConvParams) (ssd : Ssd)
    (rest : List ℕ)
    → IsDevice ssd.sp
    → 0 < ssd.sp.tt_pgs
    → 2 ≤ ssd.sp.blks_per_pl
    → ((q : Ppa) → get_pg ssd q ≡ pg_free)
    → IsRunning k (new_ftl ops cpp ssd rest)
new_ftl-IsRunning {Q} {ops} k cpp ssd rest d room lines free =
    let blks = ssd.sp.blks_per_pl in
    record {
      sound = record {
        device = d;
        maps_right = new_maps-IsMapped ops cpp ssd rest free;
        pointers = record {
          user = at_line-IsPointer ssd 0 d room (omega (arith, lines));
          gc = at_line-IsPointer ssd 1 d room (omega (arith, lines));
        };
      };
      inside = record {
        geometry = refl;
        lines = record {
          ids = λ j. refl;
          victims = λ j v. absurd (is_true (sym (k.init_in ssd.sp.tt_lines j) ∙ v));
        };
        user = omega (arith, lines);
        gc = omega (arith, lines);
      };
    }

pub new_pages : (spp : SsdParams) (q : Ppa) → get_pg (ssd_init spp) q ≡ pg_free
unfolding get_pg get_blk get_pl get_lun get_ch ssd_init ssd_init_ch
new_pages spp q = refl

-- On a geometry that has pages, two lines or more, and one line for each block of a plane, and whose
-- addresses fit their bit fields, a namespace is built, its invariant holds, and none of its pages has
-- been written.
pub conv_init_namespace-IsServing :
    {Q : Type 0} {ops : LineQueue Q} (k : IsLineQueue ops) (cpp : ConvParams) (spp : SsdParams)
    (nr_parts : ℕ)
    → IsDevice spp
    → 0 < spp.tt_pgs
    → 2 ≤ spp.blks_per_pl
    → spp.tt_lines ≡ spp.blks_per_pl
    → (ns : ConvNs Q) × (conv_init_namespace ops cpp spp nr_parts ≡ some ns)
      × IsServing k ns
      × ((j : ℕ) → is_written ns j ≡ false)
unfolding conv_init_namespace is_written ssd_init
conv_init_namespace-IsServing {Q} {ops} k cpp spp nr_parts d room lines same =
    let ssd = ssd_init spp in
    let e : spp.blks_per_pl ≡ suc (suc (spp.blks_per_pl - 2)) = omega (arith, lines) in
    let (rest, built) = conv_init_ftl-new_ftl ops cpp ssd (spp.blks_per_pl - 2) e (same ∙ e) in
    let ftl = new_ftl ops cpp ssd rest in
    let ns : ConvNs Q = record {
      nr_parts = nr_parts;
      ftls = λ i. ftl;
      pcie = ssd.pcie;
      write_buffer = ssd.write_buffer;
    } in
    let run = new_ftl-IsRunning k cpp ssd rest d room lines (new_pages spp) in
    (ns, rw built refl, record { parts = λ i h. run; params = λ i h. refl }, λ j. unmapped)
