-- ===== src/Conv/Mapped/Tests.antt =====
-- A device of one die: four blocks of one wordline of two pages.
use xharvest.Base.{
  div_round_up, ◌/◌, ◌<◌, ◌^◌, ℕ, ◌+◌, ◌-◌, ◌≡◌, inl, inr, Bool, true, false, Option, none, some,
  List, [], ◌∷◌, ◌==◌, if◌then◌else◌, ◌||◌, refl, arith, sym, ◌∙◌, ap, Bool-cases, ==→≡, update,
}
use xharvest.Ssd.Params.{SsdConfig, SsdParams, ssd_init_params, plane_blocks, derived}
use xharvest.Ssd.Params.Layout.{ssd_init_params-IsLayout}
use xharvest.Ssd.Nand.{Ssd, ssd_init}
use xharvest.Conv.Lines.{Line}
use xharvest.Conv.Ftl.{LineQueue, IsLineQueue, ConvParams, ConvFtl}
use xharvest.Conv.Gc.{do_gc}
use xharvest.Conv.Io.{
  refused, ConvNs, RwRequest, ConvReply, conv_init_namespace, start_lpn_of, end_lpn_of,
}
use xharvest.Conv.Commands.{cmd_write, conv_write, conv_proc_nvme_io_cmd}
use xharvest.Conv.Io.{
  conv_init_namespace, drop_old, program_wordline, write_lpn, write_page, write_all,
}
use xharvest.Conv.Commands.{write_admitted, conv_write, conv_proc_nvme_io_cmd}
use xharvest.Conv.Gc.{
  gc_command, gc_program, gc_write_page, select_victim_line, count_valid, move_valid,
  clean_one_flashpg, each_below, erase_block, gc_die, gc_line, collect_victim, do_gc, foreground_gc,
  check_and_refill_write_credit,
}
use xharvest.Conv.Ftl.{
  get_wp, set_wp, should_gc_high, consume_write_credit, retire_line, next_line,
  advance_write_pointer, place_page, advance_nand,
}
use xharvest.Conv.Lines.{
  mark_page_valid, lower_vpc, full_to_victim, mark_page_invalid, mark_block_free, mark_line_free,
  get_next_free_line,
}
use xharvest.Conv.{
  last_pg_in_wordline, ppa2pgidx, valid_lpn, mapped_ppa, valid_ppa, get_maptbl_ent, set_maptbl_ent,
  get_rmap_ent, set_rmap_ent, next_wordline, next_lun, next_ch, advance_in_line, get_new_page,
}
use xharvest.Ssd.Timing.{
  get_cell, ssd_advance_pcie, ssd_advance_write_buffer, channel_transfer, set_avail, advance_write,
  advance_die, advance_switch, ssd_advance_nand,
}
use xharvest.Ssd.Nand.{
  ppa_word, ppa_of_word, blk_in_ssd, ssd_init_nand_page, ssd_init_nand_blk, ssd_init_nand_plane,
  ssd_init_nand_lun, ssd_init_ch, ssd_init_pcie, ssd_init, get_ch, get_lun, get_pl, get_blk, get_pg,
  set_ch, set_lun, set_blk, set_pg,
}
use xharvest.Ssd.Buffer.{buffer_init, buffer_allocate}
use xharvest.Channel.{
  chmodel_init, advance_head, consumed_credits, consume, transfer_loop, entries_used,
  chmodel_request,
}
use xharvest.Conv.Mapped.{IsDevice, NoPage}
use xharvest.Conv.Mapped.Erased.{IsCollected}
use xharvest.Conv.Mapped.Loops.{do_gc-IsCollected}
use xharvest.Conv.Mapped.Write.{IsRunning, victim-inside}
use xharvest.Conv.Mapped.Init.{new_ftl, new_ftl-IsRunning, new_pages, conv_init_namespace-IsServing}
use xharvest.Conv.Mapped.Namespace.{IsServing, is_written, ArePagesWritten}
use xharvest.Conv.Mapped.Serving.{conv_write-ArePagesWritten, conv_proc_nvme_io_cmd-IsServing}

abbrev one_die : SsdConfig
one_die = record {
  lba_size = 512;
  nand_channels = 1;
  luns_per_nand_ch = 1;
  plns_per_lun = 1;
  cell_mode = 1;
  flash_page_size = 8192;
  oneshot_page_size = 8192;
  blks_per_pln = 4;
  blk_size = 0;
  max_ch_xfer_size = 16384;
  write_unit_size = 512;
  nand_channel_bandwidth = 800;
  pcie_bandwidth = 3360;
  nand_4kb_read_latency = λ cell. 10;
  nand_read_latency = λ cell. 10;
  nand_prog_latency = 100;
  nand_erase_latency = 1000;
  fw_4kb_read_latency = 1;
  fw_read_latency = 1;
  fw_wbuf_latency0 = 1;
  fw_wbuf_latency1 = 1;
  fw_ch_xfer_latency = 0;
  global_wb_size = 65536;
  write_early_completion = true;
}

abbrev params : SsdParams
params = derived one_die 1 4 1

ssd_init_params-one_die : ssd_init_params one_die 32768 1 ≡ some params
unfolding ssd_init_params plane_blocks
ssd_init_params-one_die = refl

block_fits :
    div_round_up (plane_blocks one_die (32768 / 1) (one_die.nand_channels / 1)).1 8192 < 2 ^ 32
unfolding plane_blocks
block_fits = omega arith

params-IsDevice : IsDevice params
params-IsDevice = record {
  capacity = 32768;
  layout =
      ssd_init_params-IsLayout one_die 32768 1 (λ e. omega (arith, e)) block_fits
        ssd_init_params-one_die;
  pages_fit = omega arith;
  pg_fits = omega arith;
  blk_fits = omega arith;
  lun_fits = omega arith;
  ch_fits = omega arith;
  has_plane = omega arith;
}

-- A queue that returns the last line that was put into it.
abbrev stack : LineQueue (List ℕ)
stack = record {
  victims = record {
    insert = λ q lines i. (i ∷ q, update lines i (let line = lines i in record line { pos = 1 }));
    change_priority =
        λ q lines pri i. (q, update lines i (let line = lines i in record line { vpc = pri }));
  };
  init = λ n. [];
  peek = λ q. elim q [ [] ↦ none | i ∷ rest ↦ some i ];
  pop = λ q lines. elim q [ [] ↦ ([], lines) | i ∷ rest ↦ (rest, lines) ];
}

-- What an option has.
unfoldable found : {A : Type 0} → Option A → Bool
found none = false
found (some a) = true

unfoldable or_else : {A : Type 0} → A → Option A → A
or_else d none = d
or_else d (some a) = a

or_else-found : {A : Type 0} (d : A) (m : Option A) → found m ≡ true → m ≡ some (or_else d m)
unfolding found or_else
or_else-found d none e = cc
or_else-found d (some a) e = refl

same_id :
    (lines : ℕ → Line) (i : ℕ) (line : Line)
    → line.id ≡ (lines i).id
    → (j : ℕ) → (update lines i line j).id ≡ (lines j).id
same_id lines i line e j = elim (Bool-cases (j == i)) [
  | inl f ↦ rw f (e ∙ ap (λ x. (lines x).id) (sym (==→≡ j i f)))
  | inr f ↦ rw f refl
]

unfoldable member : List ℕ → ℕ → Bool
member [] j = false
member (i ∷ q) j = (j == i) || member q j

stack-IsLineQueue : IsLineQueue stack
unfolding member
stack-IsLineQueue = record {
  contents = member;
  init_in = λ n j. refl;
  peek_in = peek_in;
  pop_in = pop_in;
  insert_in = λ q lines i j e. elim (Bool-cases (j == i)) [
    | inl f ↦ inr (==→≡ j i f)
    | inr f ↦ inl (sym (rw f refl) ∙ e)
  ];
  change_in = λ q lines pri i j e. e;
  pop_id = pop_id;
  insert_id = λ q lines i. same_id lines i (let line = lines i in record line { pos = 1 }) refl;
  change_id =
      λ q lines pri i. same_id lines i (let line = lines i in record line { vpc = pri }) refl;
}
  where
    peek_in : (q : List ℕ) (i : ℕ) → stack.peek q ≡ some i → member q i ≡ true
    peek_in [] i e = cc
    peek_in (a ∷ q) i e = ground arith

    pop_in :
        (q : List ℕ) (lines : ℕ → Line) (j : ℕ)
        → member (stack.pop q lines).0 j ≡ true
        → member q j ≡ true
    pop_in [] lines j e = e
    pop_in (a ∷ q) lines j e = ground arith

    pop_id : (q : List ℕ) (lines : ℕ → Line) (j : ℕ) → ((stack.pop q lines).1 j).id ≡ (lines j).id
    pop_id [] lines j = refl
    pop_id (a ∷ q) lines j = refl

abbrev ssd : Ssd
ssd = ssd_init params

abbrev no_delay : ℕ → ConvParams
no_delay high = record {
  gc_thres_lines = high;
  gc_thres_lines_high = high;
  enable_gc_delay = false;
}

abbrev ns : ConvParams → ConvNs (List ℕ)
ns cp = record {
  nr_parts = 1;
  ftls = λ i. new_ftl stack cp ssd (2 ∷ 3 ∷ []);
  pcie = ssd.pcie;
  write_buffer = ssd.write_buffer;
}

ns-IsServing : (cp : ConvParams) → IsServing stack-IsLineQueue (ns cp)
unfolding ssd_init
ns-IsServing cp = record {
  parts = λ i h.
      new_ftl-IsRunning stack-IsLineQueue cp ssd (2 ∷ 3 ∷ []) params-IsDevice (omega arith)
        (omega arith) (new_pages params);
  params = λ i h. refl;
}

-- The first page of the namespace.
abbrev page_0 : RwRequest
page_0 = record { slba = 0; length = 7; fua = false; nsecs_start = 5 }

abbrev clock : ℕ → ℕ → ℕ → ℕ
clock i n m = 0

abbrev write_once : ConvNs (List ℕ) → Option (ConvReply (List ℕ))
write_once n = conv_write stack clock 0 n page_0

abbrev write_0 : ConvNs (List ℕ) → ConvReply (List ℕ)
write_0 n = or_else (refused n) (write_once n)

abbrev first : ℕ → ConvNs (List ℕ)
first high = let r = write_0 (ns (no_delay high)) in r.ns

abbrev run_once : Option (ConvReply (List ℕ))
run_once = conv_proc_nvme_io_cmd stack clock (λ i. 0) (first 2) cmd_write page_0 0

abbrev answer : ConvReply (List ℕ)
answer = or_else (refused (first 2)) run_once

abbrev second : ConvNs (List ℕ)
second = let r = write_0 (first 0) in r.ns

abbrev collection : Option (Bool × ConvFtl (List ℕ))
collection = do_gc stack (clock 0) (second.ftls 0) true

abbrev collected : Bool × ConvFtl (List ℕ)
collected = or_else (false, second.ftls 0) collection

-- Two writes of the page, the second as a command; then, where no line was collected meanwhile, a
-- collection.
runs-found :
    (found (write_once (ns (no_delay 2))) ≡ true)
    × (found (write_once (first 2)) ≡ true)
    × (found run_once ≡ true)
    × (found (write_once (ns (no_delay 0))) ≡ true)
    × (found (write_once (first 0)) ≡ true)
    × (found collection ≡ true)
unfolding found or_else drop_old program_wordline write_lpn write_page write_all write_admitted
    conv_write gc_command gc_program gc_write_page select_victim_line count_valid move_valid
    clean_one_flashpg each_below erase_block gc_die gc_line collect_victim do_gc foreground_gc
    check_and_refill_write_credit get_wp set_wp should_gc_high consume_write_credit retire_line
    next_line advance_write_pointer place_page advance_nand mark_page_valid lower_vpc full_to_victim
    mark_page_invalid mark_block_free mark_line_free get_next_free_line last_pg_in_wordline
    ppa2pgidx valid_lpn mapped_ppa valid_ppa get_maptbl_ent set_maptbl_ent get_rmap_ent set_rmap_ent
    next_wordline next_lun next_ch advance_in_line get_new_page ssd_advance_pcie
    ssd_advance_write_buffer channel_transfer set_avail advance_write advance_die advance_switch
    ssd_advance_nand ppa_word ppa_of_word blk_in_ssd ssd_init_nand_page ssd_init_nand_blk
    ssd_init_nand_plane ssd_init_nand_lun ssd_init_ch ssd_init_pcie ssd_init get_ch get_lun get_pl
    get_blk get_pg set_ch set_lun set_blk set_pg get_cell buffer_init buffer_allocate chmodel_init
    advance_head consumed_credits consume transfer_loop entries_used chmodel_request
    conv_proc_nvme_io_cmd
runs-found = (refl, refl, refl, refl, refl, refl)

-- A write that is found to have a reply.
found-IsServing :
    (n : ConvNs (List ℕ))
    → IsServing stack-IsLineQueue n
    → found (write_once n) ≡ true
    → (let r = write_0 n in IsServing stack-IsLineQueue r.ns × (r.ns.nr_parts ≡ n.nr_parts))
found-IsServing n s e =
    let w =
      conv_write-ArePagesWritten stack-IsLineQueue clock 0 n page_0 (write_0 n) s
        (or_else-found (refused n) (write_once n) e) in
    (w.serving, w.same_parts)

first-IsServing : IsServing stack-IsLineQueue (first 2)
first-IsServing = (found-IsServing (ns (no_delay 2)) (ns-IsServing (no_delay 2)) runs-found.0).0

conv_write-ArePagesWritten_example :
    (let reply = write_0 (first 2) in
      let spp = ((first 2).ftls 0).lm.ssd.sp in
      ArePagesWritten stack-IsLineQueue
        (first 2)
        reply.ns
        (start_lpn_of spp page_0)
        (if reply.served then end_lpn_of spp page_0 + 1 - start_lpn_of spp page_0 else 0))
conv_write-ArePagesWritten_example =
    conv_write-ArePagesWritten stack-IsLineQueue clock 0 (first 2) page_0 (write_0 (first 2))
      first-IsServing (or_else-found (refused (first 2)) (write_once (first 2)) runs-found.1)

conv_proc_nvme_io_cmd-IsServing_example :
    IsServing stack-IsLineQueue answer.ns
    × ((j : ℕ) → is_written (first 2) j ≡ true → is_written answer.ns j ≡ true)
conv_proc_nvme_io_cmd-IsServing_example =
    conv_proc_nvme_io_cmd-IsServing stack-IsLineQueue clock (λ i. 0) (first 2) cmd_write page_0 0
      answer first-IsServing (or_else-found (refused (first 2)) run_once runs-found.2)

conv_init_namespace-IsServing_example :
    (n : ConvNs (List ℕ)) × (conv_init_namespace stack (no_delay 2) params 2 ≡ some n)
    × IsServing stack-IsLineQueue n
    × ((j : ℕ) → is_written n j ≡ false)
conv_init_namespace-IsServing_example =
    conv_init_namespace-IsServing stack-IsLineQueue (no_delay 2) params 2 params-IsDevice
      (omega arith) (omega arith) refl

second-IsRunning : IsRunning stack-IsLineQueue (second.ftls 0)
second-IsRunning =
    let (s, e) = found-IsServing (ns (no_delay 0)) (ns-IsServing (no_delay 0)) runs-found.3 in
    let (t, f) = found-IsServing (first 0) s runs-found.4 in t.parts 0 (omega (arith, e, f))

do_gc-IsCollected_example : IsCollected (second.ftls 0) collected.1 NoPage
do_gc-IsCollected_example =
    do_gc-IsCollected stack (clock 0) (second.ftls 0) collected.1 true collected.0
      second-IsRunning.sound (victim-inside stack-IsLineQueue (second.ftls 0) true second-IsRunning)
      (or_else-found (false, second.ftls 0) collection runs-found.5)
