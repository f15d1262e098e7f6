-- ===== src/Ssd/Timing/Bounds.antt =====
-- What the timing functions keep and what they answer.
use xharvest.Base.{
  ◌||◌, ℕ, zero, suc, ◌+◌, ◌-◌, ◌*◌, ◌/◌, ◌%◌, ◌^◌, ◌≤◌, ◌<◌, ◌≡◌, ◌≢◌, false, some, refl, arith,
  ◌==◌, if◌then◌else◌, u64, min, max, Bool-cases, ◌∙◌, ap, inl, inr,
}
use xharvest.Channel.{ChannelModel}
use xharvest.Channel.Request.{IsValid, chmodel_request-Served}
use xharvest.Ssd.Nand.{
  Ppa, ppa_word, unmapped_ppa, Ssd, get_ch, get_lun, get_blk, set_ch, set_lun, same_lun,
}
use xharvest.Ssd.Timing.{
  NandCmd, NandOp, nand_read, nand_write, nand_erase, nand_nop, ReadTimes, channel_transfer,
  ssd_advance_pcie, read_round, read_loop, set_avail, get_cell, advance_read, advance_write,
  advance_die, advance_switch, ssd_advance_nand,
}

-- The models of all channels and of the link are valid.
pub record IsReady (ssd : Ssd) : Type 0 where
  pub channels_valid : (c : ℕ) → IsValid (ssd.channels c).perf_model
  pub pcie_valid : IsValid ssd.pcie

abbrev pub avail : Ssd → Ppa → ℕ
avail ssd q = (get_lun ssd q).next_lun_avail_time

-- Only models have changed.
pub record SameData (ssd ssd' : Ssd) : Type 0 where
  pub same_sp : ssd'.sp ≡ ssd.sp
  pub same_buffer : ssd'.write_buffer ≡ ssd.write_buffer
  pub same_blk : (q : Ppa) → get_blk ssd' q ≡ get_blk ssd q

-- A transfer from time `t` that ends at `r.0`.
pub record Moved (ssd : Ssd) (t : ℕ) (r : ℕ × Ssd) : Type 0 where
  pub ready : IsReady r.1
  pub later : t ≤ r.0
  pub soon : r.0 < t + 2 ^ 33
  pub data_kept : SameData ssd r.1
  pub dies_kept : (q : Ppa) → avail r.1 q ≡ avail ssd q

set_model : Ssd → Ppa → ChannelModel → Ssd
set_model ssd p m = let c = get_ch ssd p in set_ch ssd p (record c { perf_model = m })

set_model_keeps :
    (ssd : Ssd) (p : Ppa) (m : ChannelModel)
    → SameData ssd (set_model ssd p m) × ((q : Ppa) → avail (set_model ssd p m) q ≡ avail ssd q)
unfolding set_model set_ch get_ch get_blk get_lun
set_model_keeps ssd p m =
    (record { same_sp = refl; same_buffer = refl; same_blk = λ q. ground arith }, λ q. ground arith)

set_model-IsReady :
    (ssd : Ssd) (p : Ppa) (m : ChannelModel) → IsReady ssd → IsValid m → IsReady (set_model ssd p m)
unfolding set_model set_ch get_ch
set_model-IsReady ssd p m v w = record {
  channels_valid =
      λ c. elim (Bool-cases (c == p.ch)) [ inl e ↦ rw e w | inr e ↦ rw e (v.channels_valid c) ];
  pcie_valid = v.pcie_valid;
}

channel_transfer-Moved :
    (ssd : Ssd) (p : Ppa) (now t length : ℕ)
    → IsReady ssd
    → t < 2 ^ 63
    → (r : ℕ × Ssd) × (channel_transfer ssd p now t length ≡ some r) × Moved ssd t r
unfolding channel_transfer get_ch set_model
channel_transfer-Moved ssd p now t length v h =
    let (r, e, s) =
      chmodel_request-Served (get_ch ssd p).perf_model now t length (v.channels_valid p.ch) h in
    (
      (r.0, set_model ssd p r.1),
      rw e refl,
      record {
        ready = set_model-IsReady ssd p r.1 v s.valid;
        later = s.later;
        soon = s.soon;
        data_kept = (set_model_keeps ssd p r.1).0;
        dies_kept = (set_model_keeps ssd p r.1).1;
      },
    )

ssd_advance_pcie-Moved :
    (ssd : Ssd) (now t length : ℕ)
    → IsReady ssd
    → t < 2 ^ 63
    → (r : ℕ × Ssd) × (ssd_advance_pcie ssd now t length ≡ some r) × Moved ssd t r
unfolding ssd_advance_pcie get_blk
ssd_advance_pcie-Moved ssd now t length v h =
    let (r, e, s) = chmodel_request-Served ssd.pcie now t length v.pcie_valid h in
    (
      (r.0, record ssd { pcie = r.1 }),
      rw e refl,
      record {
        ready = record { channels_valid = v.channels_valid; pcie_valid = s.valid };
        later = s.later;
        soon = s.soon;
        data_kept = record { same_sp = refl; same_buffer = refl; same_blk = λ q. refl };
        dies_kept = λ q. refl;
      },
    )

SameData-trans : {a b c : Ssd} → SameData a b → SameData b c → SameData a c
SameData-trans s t = record {
  same_sp = t.same_sp ∙ s.same_sp;
  same_buffer = t.same_buffer ∙ s.same_buffer;
  same_blk = λ q. t.same_blk q ∙ s.same_blk q;
}

-- What a round leaves, from the state `s`.
record Rounded (s s' : ReadTimes) : Type 0 where
  ready : IsReady s'.ssd
  later : s.chnl_stime ≤ s'.chnl_stime
  soon : s'.chnl_stime < s.chnl_stime + 2 ^ 33
  covered : s'.chnl_stime ≤ s'.completed_time
  data_kept : SameData s.ssd s'.ssd
  dies_kept : (q : Ppa) → avail s'.ssd q ≡ avail s.ssd q

read_round-Rounded :
    (clock : ℕ → ℕ) (i : ℕ) (cmd : NandCmd) (s : ReadTimes) (size : ℕ)
    → IsReady s.ssd
    → s.chnl_stime + 2 ^ 33 < 2 ^ 63
    → (s' : ReadTimes) × (read_round clock i cmd s size ≡ some s') × Rounded s s'
unfolding read_round
read_round-Rounded clock i cmd s size v h =
    let (r, e, m) =
      channel_transfer-Moved s.ssd cmd.ppa (clock (2 * i + 1)) s.chnl_stime size v (omega arith) in
    let (l, f, n) =
      ssd_advance_pcie-Moved r.1 (clock (2 * i + 2)) r.0 size m.ready (omega (arith, m.soon)) in
    elim (Bool-cases cmd.interleave_pci_dma) [
      | inl overlap ↦ (
        record { ssd = l.1; chnl_stime = r.0; completed_time = l.0 },
        rw (e, f, overlap) refl,
        record {
          ready = n.ready;
          later = m.later;
          soon = m.soon;
          covered = n.later;
          data_kept = SameData-trans m.data_kept n.data_kept;
          dies_kept = λ q. n.dies_kept q ∙ m.dies_kept q;
        },
      )
      | inr apart ↦ (
        record { ssd = r.1; chnl_stime = r.0; completed_time = r.0 },
        rw (e, apart) refl,
        record {
          ready = m.ready;
          later = m.later;
          soon = m.soon;
          covered = omega arith;
          data_kept = m.data_kept;
          dies_kept = m.dies_kept;
        },
      )
    ]

-- What the loop leaves.
record Looped (s s' : ReadTimes) : Type 0 where
  ready : IsReady s'.ssd
  later : s.chnl_stime ≤ s'.chnl_stime
  covered : s'.chnl_stime ≤ s'.completed_time
  data_kept : SameData s.ssd s'.ssd
  dies_kept : (q : Ppa) → avail s'.ssd q ≡ avail s.ssd q

done : (s : ReadTimes) → IsReady s.ssd → s.chnl_stime ≤ s.completed_time → Looped s s
done s v c = record {
  ready = v;
  later = omega arith;
  covered = c;
  data_kept = record { same_sp = refl; same_buffer = refl; same_blk = λ q. refl };
  dies_kept = λ q. refl;
}

read_loop-Looped :
    (fuel : ℕ) (clock : ℕ → ℕ) (i : ℕ) (cmd : NandCmd) (remaining : ℕ) (s : ReadTimes)
    → remaining ≤ fuel
    → 0 < s.ssd.sp.max_ch_xfer_size
    → IsReady s.ssd
    → s.chnl_stime ≤ s.completed_time
    → s.chnl_stime + 2 ^ 33 * remaining + 2 ^ 33 < 2 ^ 63
    → (s' : ReadTimes) × (read_loop fuel clock i cmd remaining s ≡ some s') × Looped s s'
unfolding read_loop
read_loop-Looped zero clock i cmd remaining s f p v c h = (s, ground arith, done s v c)
read_loop-Looped (suc fuel) clock i cmd remaining s f p v c h = elim (Bool-cases (remaining == 0)) [
  | inl e ↦ (s, rw e refl, done s v c)
  | inr e ↦
      let size = min remaining s.ssd.sp.max_ch_xfer_size in
      let (s', eq, m) = read_round-Rounded clock i cmd s size v (omega arith) in
      let more : 0 < remaining = ground arith in
      let (r, eq', l) =
        read_loop-Looped fuel clock (i + 1) cmd (remaining - size) s' (omega arith)
          (rw m.data_kept.same_sp p) m.ready m.covered (omega (arith, m.soon)) in
      (
        r,
        rw (e, eq) eq',
        record {
          ready = l.ready;
          later = omega (arith, m.later, l.later);
          covered = l.covered;
          data_kept = SameData-trans m.data_kept l.data_kept;
          dies_kept = λ q. l.dies_kept q ∙ m.dies_kept q;
        },
      )
]

set_avail_lem :
    (ssd : Ssd) (p : Ppa) (t : ℕ)
    → SameData ssd (set_avail ssd p t)
      × ((q : Ppa) → avail (set_avail ssd p t) q ≡ (if same_lun p q then t else avail ssd q))
unfolding set_avail set_lun get_lun get_blk
set_avail_lem ssd p t =
    (record { same_sp = refl; same_buffer = refl; same_blk = λ q. ground arith }, λ q. ground arith)

set_avail-IsReady : (ssd : Ssd) (p : Ppa) (t : ℕ) → IsReady ssd → IsReady (set_avail ssd p t)
unfolding set_avail set_lun set_ch get_ch
set_avail-IsReady ssd p t v = record {
  channels_valid = λ c. elim (Bool-cases (c == p.ch)) [
    | inl e ↦ rw e (v.channels_valid p.ch)
    | inr e ↦ rw e (v.channels_valid c)
  ];
  pcie_valid = v.pcie_valid;
}

-- A command on the die of `p` that may start at `start` and ends at `r.0`.
pub record Advanced (ssd : Ssd) (p : Ppa) (start : ℕ) (r : ℕ × Ssd) : Type 0 where
  pub ready : IsReady r.1
  pub ended : max (avail ssd p) start ≤ r.0
  pub die : max (avail ssd p) start ≤ avail r.1 p
  pub die_first : avail r.1 p ≤ r.0
  pub other_dies : (q : Ppa) → same_lun p q ≡ false → avail r.1 q ≡ avail ssd q
  pub data_kept : SameData ssd r.1

-- The last step of each case sets the die's time.
set_avail-Advanced :
    (ssd ssd' : Ssd) (p : Ppa) (start time done : ℕ)
    → IsReady ssd'
    → SameData ssd ssd'
    → ((q : Ppa) → avail ssd' q ≡ avail ssd q)
    → max (avail ssd p) start ≤ time
    → time ≤ done
    → Advanced ssd p start (done, set_avail ssd' p time)
set_avail-Advanced ssd ssd' p start time done v d k lo hi =
    let (s, a) = set_avail_lem ssd' p time in
    record {
      ready = set_avail-IsReady ssd' p time v;
      ended = omega arith;
      die = ground (arith, a p);
      die_first = ground (arith, a p);
      other_dies = λ q e. ground (arith, a q, k q);
      data_kept = SameData-trans d s;
    }

-- The limits under which no time wraps: the die and the start below 2^61 ns, the latencies below
-- 2^32 ns, and less than 2^28 bytes.
pub record IsTimely (ssd : Ssd) (cmd : NandCmd) (start : ℕ) : Type 0 where
  pub ready : IsReady ssd
  pub cells : (ssd.sp.pgs_per_flashpg ≢ 0) × (ssd.sp.cell_mode ≢ 0)
  pub chunk : 0 < ssd.sp.max_ch_xfer_size
  pub bytes : cmd.xfer_size < 2 ^ 28
  pub read_bytes : cmd.op ≡ nand_read → 0 < cmd.xfer_size
  pub start_small : start < 2 ^ 61
  pub die_small : avail ssd cmd.ppa < 2 ^ 61
  pub read_4kb : (cell : ℕ) → ssd.sp.pg_4kb_rd_lat cell < 2 ^ 32
  pub read : (cell : ℕ) → ssd.sp.pg_rd_lat cell < 2 ^ 32
  pub write : ssd.sp.pg_wr_lat < 2 ^ 32
  pub erase : ssd.sp.blk_er_lat < 2 ^ 32

module _ (clock : ℕ → ℕ) (ssd : Ssd) (cmd : NandCmd) (start : ℕ) (k : IsTimely ssd cmd start) where
  advance_die-Advanced :
      (latency : ℕ)
      → latency < 2 ^ 32
      → (r : ℕ × Ssd) × (advance_die ssd cmd latency start ≡ some r) × Advanced ssd cmd.ppa start r
  unfolding advance_die
  advance_die-Advanced latency h = (
    _,
    refl,
    set_avail-Advanced ssd ssd cmd.ppa start _ _ k.ready
        (record { same_sp = refl; same_buffer = refl; same_blk = λ q. refl }) (λ q. refl)
        (omega (arith, k.start_small, k.die_small)) (omega arith),
  )

  advance_write-Advanced :
      (r : ℕ × Ssd) × (advance_write clock ssd cmd start ≡ some r) × Advanced ssd cmd.ppa start r
  unfolding advance_write
  advance_write-Advanced =
      let (r, e, m) =
        channel_transfer-Moved ssd cmd.ppa (clock 1) (max (avail ssd cmd.ppa) start) cmd.xfer_size
          k.ready (omega (arith, k.start_small, k.die_small)) in
      let time = u64 (r.0 + r.1.sp.pg_wr_lat) in
      let same : r.1.sp.pg_wr_lat ≡ ssd.sp.pg_wr_lat = ap (λ p. p.pg_wr_lat) m.data_kept.same_sp in
      (
        (time, set_avail r.1 cmd.ppa time),
        rw e refl,
        set_avail-Advanced ssd r.1 cmd.ppa start time time m.ready m.data_kept m.dies_kept
            (omega (arith, same, k.start_small, k.die_small, k.write, m.later, m.soon))
            (omega arith),
      )

  advance_read-Advanced :
      (cell : ℕ)
      → 0 < cmd.xfer_size
      → (r : ℕ × Ssd) × (advance_read clock ssd cmd cell start ≡ some r)
        × Advanced ssd cmd.ppa start r
  unfolding advance_read
  advance_read-Advanced cell bytes =
      let latency =
        if cmd.xfer_size == 4096 then ssd.sp.pg_4kb_rd_lat cell else ssd.sp.pg_rd_lat cell in
      let small : latency < 2 ^ 32 = ground (arith, k.read_4kb cell, k.read cell) in
      let first = u64 (max (avail ssd cmd.ppa) start + latency) in
      let some_bytes : (cmd.xfer_size == 0) ≡ false = ground arith in
      let (s, e, l) =
        read_loop-Looped cmd.xfer_size clock 0 cmd cmd.xfer_size
          (record { ssd = ssd; chnl_stime = first; completed_time = first }) (omega arith) k.chunk
          k.ready (omega arith) (omega (arith, k.start_small, k.die_small, k.bytes)) in
      (
        (s.completed_time, set_avail s.ssd cmd.ppa s.chnl_stime),
        rw (some_bytes, e) refl,
        set_avail-Advanced ssd s.ssd cmd.ppa start _ _ l.ready l.data_kept l.dies_kept
            (omega (arith, k.start_small, k.die_small, l.later)) l.covered,
      )

  advance_switch-Advanced :
      (cell : ℕ) (op : NandOp)
      → (op ≡ nand_read → 0 < cmd.xfer_size)
      → (r : ℕ × Ssd) × (advance_switch clock ssd cmd cell start op ≡ some r)
        × Advanced ssd cmd.ppa start r
  unfolding advance_switch
  advance_switch-Advanced cell nand_read h = advance_read-Advanced cell (h refl)
  advance_switch-Advanced cell nand_write h = advance_write-Advanced
  advance_switch-Advanced cell nand_erase h = advance_die-Advanced ssd.sp.blk_er_lat k.erase
  advance_switch-Advanced cell nand_nop h = advance_die-Advanced 0 (omega arith)

-- A NAND command on a mapped page, with times, latencies and sizes in range, ends: its end and its
-- die's next free time are not before the die was free and the command could start, the other dies'
-- times and the pages do not change, and the models stay valid.
pub ssd_advance_nand-Advanced :
    (clock : ℕ → ℕ) (ssd : Ssd) (cmd : NandCmd)
    → IsTimely ssd cmd (if cmd.stime == 0 then clock 0 else cmd.stime)
    → ppa_word cmd.ppa ≢ unmapped_ppa
    → (r : ℕ × Ssd) × (ssd_advance_nand clock ssd cmd ≡ some r)
      × Advanced ssd cmd.ppa (if cmd.stime == 0 then clock 0 else cmd.stime) r
unfolding ssd_advance_nand get_cell
ssd_advance_nand-Advanced clock ssd cmd k mapped =
    let start = if cmd.stime == 0 then clock 0 else cmd.stime in
    let cell = cmd.ppa.pg / ssd.sp.pgs_per_flashpg % ssd.sp.cell_mode in
    let (r, e, a) = advance_switch-Advanced clock ssd cmd start k cell cmd.op k.read_bytes in
    let there : (ppa_word cmd.ppa == unmapped_ppa) ≡ false = ground arith in
    let cells : ((ssd.sp.pgs_per_flashpg == 0) || (ssd.sp.cell_mode == 0)) ≡ false =
      ground (arith, k.cells) in
    (r, rw (there, cells) e, a)
