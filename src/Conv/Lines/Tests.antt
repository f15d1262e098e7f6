-- ===== src/Conv/Lines/Tests.antt =====
-- A queue over the lines, kept as a list without order, and a device whose blocks have one valid page.
use xharvest.Base.{
  ℕ, ◌<◌, ◌≡◌, ◌==◌, true, false, if◌then◌else◌, some, refl, arith, List, [], ◌∷◌, update,
  update_self, sum_below, Bool-cases, inl, inr, ==→≡, ≢→==, ap,
}
use xharvest.Channel.{chmodel_init}
use xharvest.Ssd.Buffer.{buffer_init}
use xharvest.Ssd.Nand.{
  Ppa, PageStatus, pg_free, pg_valid, pg_invalid, NandBlock, Ssd, get_pg, get_blk,
}
use xharvest.Ssd.Params.{SsdConfig, derived}
use xharvest.Conv.Lines.{
  Line, VictimQueue, IsVictimQueue, LineState, mark_page_valid, mark_page_invalid, mark_block_free,
}
use xharvest.Conv.Lines.Counts.{IsCounted, Marked, pages_of}
use xharvest.Conv.Lines.Marks.{mark_page_valid-Marked}
use xharvest.Conv.Lines.Invalid.{mark_page_invalid-Marked}
use xharvest.Conv.Lines.Erase.{mark_block_free-IsCounted}

abbrev set_pos : (ℕ → Line) → ℕ → ℕ → ℕ → Line
set_pos lines i k = let l = lines i in update lines i (record l { pos = k })

abbrev set_vpc : (ℕ → Line) → ℕ → ℕ → ℕ → Line
set_vpc lines i k = let l = lines i in update lines i (record l { vpc = k })

abbrev bag : VictimQueue (List ℕ)
bag = record {
  insert = λ q lines i. (i ∷ q, set_pos lines i 1);
  change_priority = λ q lines pri i. (q, set_vpc lines i pri);
}

set_pos-counts :
    (lines : ℕ → Line) (i j k : ℕ)
    → ((set_pos lines i k j).vpc ≡ (lines j).vpc) × ((set_pos lines i k j).ipc ≡ (lines j).ipc)
set_pos-counts lines i j k = elim (Bool-cases (j == i)) [
  | inl e ↦ rw (e, ==→≡ j i e) (refl, refl)
  | inr e ↦ rw e (refl, refl)
]

set_vpc-ipc : (lines : ℕ → Line) (i j k : ℕ) → (set_vpc lines i k j).ipc ≡ (lines j).ipc
set_vpc-ipc lines i j k = elim (Bool-cases (j == i)) [
  | inl e ↦ rw (e, ==→≡ j i e) refl
  | inr e ↦ rw e refl
]

bag-IsVictimQueue : IsVictimQueue bag
bag-IsVictimQueue = record {
  insert_vpc = λ q lines i j. (set_pos-counts lines i j 1).0;
  insert_ipc = λ q lines i j. (set_pos-counts lines i j 1).1;
  change_self = λ q lines pri i. ap (λ l. l.vpc) (update_self lines i _);
  change_vpc = λ q lines pri i j n. rw (≢→== j i n) refl;
  change_ipc = λ q lines pri i j. set_vpc-ipc lines i j pri;
}

abbrev samsung_970pro : SsdConfig
samsung_970pro = record {
  lba_size = 512;
  nand_channels = 8;
  luns_per_nand_ch = 2;
  plns_per_lun = 1;
  cell_mode = 2;
  flash_page_size = 32768;
  oneshot_page_size = 32768;
  blks_per_pln = 8192;
  blk_size = 0;
  max_ch_xfer_size = 16384;
  write_unit_size = 512;
  nand_channel_bandwidth = 800;
  pcie_bandwidth = 3360;
  nand_4kb_read_latency = λ cell. 29760;
  nand_read_latency = λ cell. 30013;
  nand_prog_latency = 185000;
  nand_erase_latency = 0;
  fw_4kb_read_latency = 21500;
  fw_read_latency = 30490;
  fw_wbuf_latency0 = 4000;
  fw_wbuf_latency1 = 460;
  fw_ch_xfer_latency = 0;
  global_wb_size = 1048576;
  write_early_completion = true;
}

abbrev one_page : ℕ → PageStatus
one_page i = if i == 3 then pg_valid else pg_free

-- Page 3 of each block is valid.
abbrev block : NandBlock
block = record { pages = one_page; npgs = 128; ipc = 0; vpc = 1; erase_cnt = 0; wp = 0 }

abbrev device : Ssd
device = record {
  sp = derived samsung_970pro 2 8192 16;
  channels = λ c. record {
    luns = λ l. record {
      planes = λ i. record { blocks = λ b. block; nblks = 8192 };
      npls = 1;
      next_lun_avail_time = 0;
      busy = false;
      gc_endtime = 0;
    };
    nluns = 2;
    gc_endtime = 0;
    perf_model = chmodel_init 800;
  };
  pcie = chmodel_init 3360;
  write_buffer = buffer_init 1048576;
}

abbrev state : LineState (List ℕ)
state = record {
  ssd = device;
  lines = λ i. record { id = i; ipc = 0; vpc = 4; pos = 0 };
  victim_line_pq = [];
  free_line_list = 5 ∷ 6 ∷ [];
  full_line_list = [];
  free_line_cnt = 2;
  victim_line_cnt = 0;
  full_line_cnt = 0;
}

block-IsCounted : IsCounted 128 block
unfolding pages_of sum_below
block-IsCounted = record { vpc_counts = refl; ipc_counts = refl }

abbrev page_at : ℕ → Ppa
page_at k = record { pg = k; blk = 2; pl = 0; lun = 1; ch = 1; rsv = 0 }

mark_page_valid-Marked_example :
    (s' : LineState (List ℕ)) × (mark_page_valid state (page_at 4) ≡ some s')
    × Marked state s' (page_at 4) pg_valid 0 5
unfolding get_pg get_blk
mark_page_valid-Marked_example =
    mark_page_valid-Marked state (page_at 4) (omega arith) refl block-IsCounted (omega arith)

mark_page_invalid-Marked_example :
    (s' : LineState (List ℕ)) × (mark_page_invalid bag state (page_at 3) ≡ some s')
    × Marked state s' (page_at 3) pg_invalid 1 3
unfolding get_pg get_blk
mark_page_invalid-Marked_example =
    mark_page_invalid-Marked state (page_at 3) (omega arith) bag bag-IsVictimQueue refl
      block-IsCounted (omega arith, omega arith)

mark_block_free-IsCounted_example :
    (s' : LineState (List ℕ)) × (mark_block_free state (page_at 0) ≡ some s')
    × ((q : Ppa) → IsCounted 128 (get_blk device q) → IsCounted 128 (get_blk s'.ssd q))
    × ((i : ℕ) → i < 128 → (get_blk s'.ssd (page_at 0)).pages i ≡ pg_free)
unfolding get_blk
mark_block_free-IsCounted_example = mark_block_free-IsCounted state (page_at 0) refl
