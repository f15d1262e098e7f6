-- ===== src/Zns/Io/Refused.antt =====
-- NVMevirt/zns_read_write.c: what a refused plain write leaves in the write buffer.
use xharvest.Base.{
  ◌%◌, ≢→==, ℕ, ◌+◌, ◌≤◌, ◌<◌, ◌≡◌, ◌≢◌, ◌^◌, false, some, refl, arith, ltb, ◌==◌, if◌then◌else◌,
  lt→ltb, [], ap, sym, ◌∙◌, Bool-cases, inl, inr, update_self,
}
use xharvest.Ssd.Buffer.{Buffer, buffer_allocate}
use xharvest.Zns.{ZnsFtl, Status, success, invalid_write, err_boundary, lba_to_zone}
use xharvest.Zns.Io.{
  RwCmd, done, nr_lbas_from_rw_cmd, lba_to_byte, admit_write, check_boundary_error,
}
use xharvest.Zns.Io.Transfer.{get_write_buffer, set_write_buffer, zns_write_plain, write_timing}

-- The LBA at which the write begins.
abbrev pub first_lba : ZnsFtl → RwCmd → ℕ
first_lba ftl cmd = if cmd.append then (ftl.zone_descs (lba_to_zone ftl cmd.slba)).wp else cmd.slba

granted_all :
    (buf : Buffer) (size : ℕ)
    → size < 2 ^ 32
    → size ≤ buf.remaining
    → ltb (buffer_allocate buf size).0 size ≡ false
unfolding buffer_allocate
granted_all buf size h k = ground arith

taken_back :
    (buf : Buffer) (size : ℕ)
    → size ≤ buf.remaining
    → (buffer_allocate buf size).1.remaining + size ≡ buf.remaining
unfolding buffer_allocate
taken_back buf size k = ground arith

timing_refused :
    (clocks : ℕ → ℕ → ℕ) (now : ℕ) (cmd : RwCmd) (zid slba nr_lba : ℕ) (st : Status) (ftl : ZnsFtl)
    → st ≢ success
    → write_timing clocks now cmd zid slba nr_lba (st, ftl)
      ≡ some (done (record { status = st; nsecs_target = cmd.nsecs_start; releases = [] }) ftl)
unfolding write_timing
timing_refused clocks now cmd zid slba nr_lba success ftl n = absurd (n refl)
timing_refused clocks now cmd zid slba nr_lba st ftl n = refl

taken : ZnsFtl → RwCmd → ZnsFtl
taken ftl cmd =
    let zid = lba_to_zone ftl cmd.slba in
    set_write_buffer ftl zid
      (buffer_allocate (get_write_buffer ftl zid) (lba_to_byte (nr_lbas_from_rw_cmd cmd))).1

zns_write_plain-refused :
    (clocks : ℕ → ℕ → ℕ) (now : ℕ) (ftl ftl' : ZnsFtl) (cmd : RwCmd) (st : Status)
    → lba_to_zone ftl cmd.slba < ftl.zp.nr_zones
    → lba_to_byte (nr_lbas_from_rw_cmd cmd) < 2 ^ 32
    → lba_to_byte (nr_lbas_from_rw_cmd cmd)
      ≤ (get_write_buffer ftl (lba_to_zone ftl cmd.slba)).remaining
    → admit_write
        (taken ftl cmd)
        (lba_to_zone ftl cmd.slba)
        (first_lba ftl cmd)
        (nr_lbas_from_rw_cmd cmd)
      ≡ some (st, ftl')
    → st ≢ success
    → zns_write_plain clocks now ftl cmd
      ≡ some (done (record { status = st; nsecs_target = cmd.nsecs_start; releases = [] }) ftl')
unfolding zns_write_plain taken
zns_write_plain-refused clocks now ftl ftl' cmd st h small room e n =
    let granted =
      granted_all (get_write_buffer ftl (lba_to_zone ftl cmd.slba))
        (lba_to_byte (nr_lbas_from_rw_cmd cmd)) small room in
    rw (lt→ltb _ _ h, granted, e) (timing_refused clocks now cmd _ _ _ st ftl' n)

-- A write that does not begin at the write pointer.
admit_write-misplaced :
    (ftl : ZnsFtl) (zid slba nr_lba : ℕ)
    → ftl.ssd.sp.write_unit_size ≢ 0
    → slba ≢ (ftl.zone_descs zid).wp
    → (st : Status) × (admit_write ftl zid slba nr_lba ≡ some (st, ftl)) × (st ≢ success)
unfolding admit_write
admit_write-misplaced ftl zid slba nr_lba w n =
    let unit = ≢→== _ _ w in
    elim (Bool-cases (lba_to_byte nr_lba % ftl.ssd.sp.write_unit_size == 0)) [
      | inr t ↦ (invalid_write, rw (unit, t) refl, λ k. cc)
      | inl whole ↦ elim (Bool-cases (check_boundary_error ftl slba nr_lba)) [
        | inr t ↦ (err_boundary, rw (unit, whole, t) refl, λ k. cc)
        | inl inside ↦ (invalid_write, rw (unit, whole, inside, ≢→== _ _ n) refl, λ k. cc)
      ]
    ]

record Taken (ftl ftl' : ZnsFtl) (zid : ℕ) (buf : Buffer) : Type 0 where
  same_zones : ftl'.zone_descs ≡ ftl.zone_descs
  same_sp : ftl'.ssd.sp ≡ ftl.ssd.sp
  holds_buffer : get_write_buffer ftl' zid ≡ buf

set_write_buffer-Taken :
    (ftl : ZnsFtl) (zid : ℕ) (buf : Buffer) → Taken ftl (set_write_buffer ftl zid buf) zid buf
set_write_buffer-Taken ftl zid buf = elim (Bool-cases (ftl.zp.zone_wb_size == 0)) [
  | inl e ↦ rw e (record { same_zones = refl; same_sp = refl; holds_buffer = rw e refl })
  | inr e ↦ rw e (record {
    same_zones = refl;
    same_sp = refl;
    holds_buffer = rw e (update_self ftl.zone_write_buffer zid buf);
  })
]

-- A plain write that does not begin at the write pointer, of less than 2^32 bytes that the write buffer
-- has room for, answers an error at its start time. Its bytes are gone from the buffer, and no release
-- is scheduled that would give them back.
pub zns_write_plain-leaks :
    (clocks : ℕ → ℕ → ℕ) (now : ℕ) (ftl : ZnsFtl) (cmd : RwCmd)
    → lba_to_zone ftl cmd.slba < ftl.zp.nr_zones
    → lba_to_byte (nr_lbas_from_rw_cmd cmd) < 2 ^ 32
    → lba_to_byte (nr_lbas_from_rw_cmd cmd)
      ≤ (get_write_buffer ftl (lba_to_zone ftl cmd.slba)).remaining
    → ftl.ssd.sp.write_unit_size ≢ 0
    → first_lba ftl cmd ≢ (ftl.zone_descs (lba_to_zone ftl cmd.slba)).wp
    → (st : Status) × (ftl' : ZnsFtl) × (st ≢ success)
      × (zns_write_plain clocks now ftl cmd
          ≡ some
              (done (record { status = st; nsecs_target = cmd.nsecs_start; releases = [] }) ftl'))
      × ((get_write_buffer ftl' (lba_to_zone ftl cmd.slba)).remaining
            + lba_to_byte (nr_lbas_from_rw_cmd cmd)
          ≡ (get_write_buffer ftl (lba_to_zone ftl cmd.slba)).remaining)
unfolding taken buffer_allocate
zns_write_plain-leaks clocks now ftl cmd h small room w n =
    let zid = lba_to_zone ftl cmd.slba in
    let size = lba_to_byte (nr_lbas_from_rw_cmd cmd) in
    let buf = get_write_buffer ftl zid in
    let t = set_write_buffer-Taken ftl zid (buffer_allocate buf size).1 in
    let (st, e, f) =
      admit_write-misplaced (taken ftl cmd) zid (first_lba ftl cmd) (nr_lbas_from_rw_cmd cmd)
        (λ z. w (ap (λ p. p.write_unit_size) (sym t.same_sp) ∙ z))
        (λ z. n (z ∙ ap (λ d. (d zid).wp) t.same_zones)) in
    (
      st,
      taken ftl cmd,
      f,
      zns_write_plain-refused clocks now ftl (taken ftl cmd) cmd st h small room e f,
      ap (λ b. b.remaining + size) t.holds_buffer ∙ taken_back buf size room,
    )
