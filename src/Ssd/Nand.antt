-- ===== src/Ssd/Nand.antt =====
-- NVMevirt/ssd.h and ssd.c: physical page addresses, and the tree of channels, dies (LUNs), planes,
-- blocks and pages. A C array is a function of the index.
use xharvest.Base.{
  ℕ, ◌+◌, ◌-◌, ◌*◌, ◌/◌, ◌%◌, ◌^◌, ◌≡◌, Bool, false, arith, ◌==◌, if◌then◌else◌, update, ◌&&◌,
}
use xharvest.Channel.{ChannelModel, chmodel_init, unit_xfer_size}
use xharvest.Ssd.Params.{SsdParams}
use xharvest.Ssd.Buffer.{Buffer, buffer_init}

-- The bit fields `g` of `struct ppa`, from the lowest bit up.
pub record Ppa : Type 0 where
  pub pg : ℕ
  pub blk : ℕ
  pub pl : ℕ
  pub lun : ℕ
  pub ch : ℕ
  pub rsv : ℕ

-- The union's 64-bit word `ppa`, and its fields. The widths are 16, 16, 8, 8, 8 and 8 bits.
unfoldable pub ppa_word : Ppa → ℕ
ppa_word p = p.pg + p.blk * 2 ^ 16 + p.pl * 2 ^ 32 + p.lun * 2 ^ 40 + p.ch * 2 ^ 48 + p.rsv * 2 ^ 56

unfoldable pub ppa_of_word : ℕ → Ppa
ppa_of_word w = record {
  pg = w % 2 ^ 16;
  blk = w / 2 ^ 16 % 2 ^ 16;
  pl = w / 2 ^ 32 % 2 ^ 8;
  lun = w / 2 ^ 40 % 2 ^ 8;
  ch = w / 2 ^ 48 % 2 ^ 8;
  rsv = w / 2 ^ 56 % 2 ^ 8;
}

-- The fields `h.blk_in_ssd`: the word without the page and the reserved bits.
unfoldable pub blk_in_ssd : Ppa → ℕ
blk_in_ssd p = p.blk + p.pl * 2 ^ 16 + p.lun * 2 ^ 24 + p.ch * 2 ^ 32

abbrev pub unmapped_ppa : ℕ
unmapped_ppa = 2 ^ 64 - 1

abbrev pub invalid_lpn : ℕ
invalid_lpn = 2 ^ 64 - 1

pub data PageStatus : Type 0 where
  pg_free pg_invalid pg_valid : PageStatus

pub record NandBlock : Type 0 where
  pub pages : ℕ → PageStatus
  pub npgs : ℕ
  pub ipc : ℕ
  pub vpc : ℕ
  pub erase_cnt : ℕ
  pub wp : ℕ

pub record NandPlane : Type 0 where
  pub blocks : ℕ → NandBlock
  pub nblks : ℕ

pub record NandLun : Type 0 where
  pub planes : ℕ → NandPlane
  pub npls : ℕ
  pub next_lun_avail_time : ℕ
  pub busy : Bool
  pub gc_endtime : ℕ

pub record SsdChannel : Type 0 where
  pub luns : ℕ → NandLun
  pub nluns : ℕ
  pub gc_endtime : ℕ
  pub perf_model : ChannelModel

-- `pcie` holds the link's `perf_model`.
pub record Ssd : Type 0 where
  pub sp : SsdParams
  pub channels : ℕ → SsdChannel
  pub pcie : ChannelModel
  pub write_buffer : Buffer

unfoldable pub ssd_init_nand_page : PageStatus
ssd_init_nand_page = pg_free

unfoldable pub ssd_init_nand_blk : SsdParams → NandBlock
unfolding ssd_init_nand_page
ssd_init_nand_blk spp = record {
  pages = λ i. ssd_init_nand_page;
  npgs = spp.pgs_per_blk;
  ipc = 0;
  vpc = 0;
  erase_cnt = 0;
  wp = 0;
}

unfoldable pub ssd_init_nand_plane : SsdParams → NandPlane
unfolding ssd_init_nand_blk
ssd_init_nand_plane spp = record { blocks = λ i. ssd_init_nand_blk spp; nblks = spp.blks_per_pl }

-- `gc_endtime` is not set by the code; it is written before it is read.
unfoldable pub ssd_init_nand_lun : SsdParams → NandLun
unfolding ssd_init_nand_plane
ssd_init_nand_lun spp = record {
  planes = λ i. ssd_init_nand_plane spp;
  npls = spp.pls_per_lun;
  next_lun_avail_time = 0;
  busy = false;
  gc_endtime = 0;
}

unfoldable pub ssd_init_ch : SsdParams → SsdChannel
unfolding ssd_init_nand_lun
ssd_init_ch spp =
    let model = chmodel_init spp.ch_bandwidth in
    record {
      luns = λ i. ssd_init_nand_lun spp;
      nluns = spp.luns_per_ch;
      gc_endtime = 0;
      perf_model = record model {
        xfer_lat = (model.xfer_lat + spp.fw_ch_xfer_lat * unit_xfer_size / 4096) % 2 ^ 32;
      };
    }

unfoldable pub ssd_init_pcie : SsdParams → ChannelModel
ssd_init_pcie spp = chmodel_init spp.pcie_bandwidth

unfoldable pub ssd_init : SsdParams → Ssd
unfolding ssd_init_ch ssd_init_pcie
ssd_init spp = record {
  sp = spp;
  channels = λ i. ssd_init_ch spp;
  pcie = ssd_init_pcie spp;
  write_buffer = buffer_init spp.write_buffer_size;
}

unfoldable pub get_ch : Ssd → Ppa → SsdChannel
get_ch ssd p = ssd.channels p.ch

unfoldable pub get_lun : Ssd → Ppa → NandLun
unfolding get_ch
get_lun ssd p = (get_ch ssd p).luns p.lun

unfoldable pub get_pl : Ssd → Ppa → NandPlane
unfolding get_lun
get_pl ssd p = (get_lun ssd p).planes p.pl

unfoldable pub get_blk : Ssd → Ppa → NandBlock
unfolding get_pl
get_blk ssd p = (get_pl ssd p).blocks p.blk

unfoldable pub get_pg : Ssd → Ppa → PageStatus
unfolding get_blk
get_pg ssd p = (get_blk ssd p).pages p.pg

-- Writes through the pointers that those functions return.
unfoldable pub set_ch : Ssd → Ppa → SsdChannel → Ssd
set_ch ssd p c = record ssd { channels = update ssd.channels p.ch c }

unfoldable pub set_lun : Ssd → Ppa → NandLun → Ssd
unfolding set_ch get_ch
set_lun ssd p l = let c = get_ch ssd p in set_ch ssd p (record c { luns = update c.luns p.lun l })

unfoldable pub set_blk : Ssd → Ppa → NandBlock → Ssd
unfolding set_lun get_lun get_pl
set_blk ssd p b =
    let l = get_lun ssd p in
    let plane = get_pl ssd p in
    set_lun ssd p (record l {
      planes = update l.planes p.pl (record plane { blocks = update plane.blocks p.blk b });
    })

unfoldable pub set_pg : Ssd → Ppa → PageStatus → Ssd
unfolding set_blk get_blk
set_pg ssd p st =
    let b = get_blk ssd p in set_blk ssd p (record b { pages = update b.pages p.pg st })

-- The same block, and the same page.
abbrev pub same_lun : Ppa → Ppa → Bool
same_lun p q = q.ch == p.ch && q.lun == p.lun

abbrev pub same_blk : Ppa → Ppa → Bool
same_blk p q = q.ch == p.ch && (q.lun == p.lun && (q.pl == p.pl && q.blk == p.blk))

abbrev pub same_pg : Ppa → Ppa → Bool
same_pg p q = same_blk p q && q.pg == p.pg

-- After a status is written through the pointer to a page, that page has it and any other page has
-- what it had.
get_pg-set_pg :
    (ssd : Ssd) (p q : Ppa) (st : PageStatus)
    → get_pg (set_pg ssd p st) q ≡ (if same_pg p q then st else get_pg ssd q)
unfolding get_pg set_pg
get_pg-set_pg ssd p q st = ground arith

pub get_blk-set_blk :
    (ssd : Ssd) (p q : Ppa) (b : NandBlock)
    → get_blk (set_blk ssd p b) q ≡ (if same_blk p q then b else get_blk ssd q)
unfolding get_blk set_blk
get_blk-set_blk ssd p q b = ground arith
