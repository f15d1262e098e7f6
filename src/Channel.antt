-- ===== src/Channel.antt =====
-- NVMevirt/channel_model.c and channel_model.h: the bandwidth of a NAND channel or of the PCIe link,
-- as a circular array of credits, one entry for each interval of 4000 ns.
-- `credit_t` is `uint8_t`; the array is a function of the index. The clock's reading is an argument.
pub mod Transfer
pub mod Request
mod Tests
use xharvest.Base.{
  ℕ, zero, suc, ◌+◌, ◌-◌, ◌*◌, ◌/◌, ◌%◌, Option, none, some, ltb, leb, ◌==◌, if◌then◌else◌, u8, u32,
  u64, sub64, div_round_up, fill, update, ◌>>=◌,
}

abbrev pub nr_credit_entries : ℕ
nr_credit_entries = 98304

abbrev pub unit_time_interval : ℕ
unit_time_interval = 4000

abbrev pub unit_xfer_size : ℕ
unit_xfer_size = 128

abbrev pub unit_xfer_credits : ℕ
unit_xfer_credits = 1

abbrev pub ns_per_sec : ℕ
ns_per_sec = 1000000000

abbrev pub mega : ℕ → ℕ
mega n = n * 1048576

abbrev pub bandwidth_to_tx_time : ℕ → ℕ
bandwidth_to_tx_time mbs = unit_xfer_size * ns_per_sec / mega mbs

abbrev pub bandwidth_to_max_credits : ℕ → ℕ
bandwidth_to_max_credits mbs =
    mega mbs * unit_time_interval / ns_per_sec / unit_xfer_size * unit_xfer_credits

pub record ChannelModel : Type 0 where
  pub cur_time : ℕ
  pub head : ℕ
  pub valid_len : ℕ
  pub max_credits : ℕ
  pub command_credits : ℕ
  pub xfer_lat : ℕ
  pub avail_credits : ℕ → ℕ

-- The previous contents of the structure do not matter: every field is written.
unfoldable pub chmodel_init : ℕ → ChannelModel
chmodel_init bandwidth = record {
  cur_time = 0;
  head = 0;
  valid_len = 0;
  max_credits = u32 (bandwidth_to_max_credits bandwidth);
  command_credits = 0;
  xfer_lat = u32 (bandwidth_to_tx_time bandwidth);
  avail_credits = λ i. u8 (bandwidth_to_max_credits bandwidth);
}

-- The head moves to the entry of the current time, and the entries that it passes are refilled.
unfoldable pub advance_head : ChannelModel → ℕ → ChannelModel
advance_head ch now =
    let offs = u32 (sub64 (now / unit_time_interval) (ch.cur_time / unit_time_interval)) in
    let cur_time_offs = if ltb offs ch.valid_len then offs else ch.valid_len in
    let credit = u8 ch.max_credits in
    let to_end = nr_credit_entries - ch.head in
    let refilled =
      if leb nr_credit_entries (u32 (ch.head + cur_time_offs))
      then fill (fill ch.avail_credits ch.head credit to_end) 0 credit (cur_time_offs - to_end)
      else fill ch.avail_credits ch.head credit cur_time_offs in
    record ch {
      cur_time = now;
      head = (ch.head + cur_time_offs) % nr_credit_entries;
      valid_len = ch.valid_len - cur_time_offs;
      avail_credits = refilled;
    }

-- The variables of the `while (1)` loop.
pub record Progress : Type 0 where
  pub credits : ℕ → ℕ
  pub remaining : ℕ
  pub pos : ℕ
  pub delay : ℕ

-- What the entry at `pos` can pay.
unfoldable pub consumed_credits : Progress → ℕ
consumed_credits t = if leb t.remaining (t.credits t.pos) then t.remaining else t.credits t.pos

-- One round's first part: the entry at `pos` pays.
unfoldable pub consume : Progress → Progress
consume t = record t {
  credits = update t.credits t.pos (t.credits t.pos - consumed_credits t);
  remaining = t.remaining - consumed_credits t;
}

-- `none` means that the fuel ran out. The loop stops when the credits are paid, or when the next
-- entry is the head again (the array is full).
unfoldable pub transfer_loop : ℕ → ℕ → Progress → Option Progress
transfer_loop zero head t = none
transfer_loop (suc fuel) head t =
    let t' = consume t in
    let next_pos = (t'.pos + 1) % nr_credit_entries in
    let rest = transfer_loop fuel head (record t' { pos = next_pos; delay = u32 (t'.delay + 1) }) in
    if t'.remaining == 0 then some t' else if next_pos == head then some t' else rest

-- The entries from the head up to and including `pos`.
unfoldable pub entries_used : ℕ → ℕ → ℕ
entries_used head pos =
    if leb head pos then pos - head + 1 else nr_credit_entries - (head - pos - 1)

-- `none` is the failed assertion on `valid_len`, or the division by `max_credits` where that is 0.
-- The result is the time at which the
-- transfer ends, and the model that the call leaves behind. A request in the past, or too far ahead
-- for the array, is granted at once.
unfoldable pub chmodel_request : ChannelModel → ℕ → ℕ → ℕ → Option (ℕ × ChannelModel)
chmodel_request ch now request_time length =
    let units_to_xfer = u32 (div_round_up length unit_xfer_size) in
    let ch' = advance_head ch now in
    let request_time_offs =
      u32 (sub64 (request_time / unit_time_interval) (now / unit_time_interval)) in
    let demand = u32 (u32 (units_to_xfer * unit_xfer_credits) + ch'.command_credits) in
    let start : Progress = record {
      credits = ch'.avail_credits;
      remaining = demand;
      pos = (ch'.head + request_time_offs) % nr_credit_entries;
      delay = 0;
    } in
    let default_delay = demand / ch'.max_credits in
    let finish : Option (ℕ × ChannelModel) = do
      t ← transfer_loop nr_credit_entries ch'.head start
      let used = entries_used ch'.head t.pos
      let late = if ltb default_delay t.delay then t.delay - default_delay else 0
      some (
        u64 (request_time + (u32 (ch'.xfer_lat * units_to_xfer) + late * unit_time_interval)),
        record ch' {
          valid_len = if ltb ch'.valid_len used then used else ch'.valid_len;
          avail_credits = t.credits;
        },
      )
    in if ltb nr_credit_entries ch'.valid_len
      then none
      else if ltb request_time now
      then some (request_time, ch')
      else if leb nr_credit_entries request_time_offs
      then some (request_time, ch')
      else if ch'.max_credits == 0
      then none
      else finish
