-- ===== src/Channel/Request.antt =====
-- chmodel_request as a whole: the state it keeps, the time it answers and the credits it takes.
use xharvest.Base.{
  ℕ, ◌+◌, ◌-◌, ◌*◌, ◌/◌, ◌%◌, ◌^◌, ◌≤◌, ◌<◌, ◌≡◌, ◌≢◌, ◌⊎◌, inl, inr, refl, none, some, arith, ltb,
  if◌then◌else◌, u32, u64, sub64, div_round_up, sum_below,
}
use native.Mathlib.Decide.{dec_lt}
use xharvest.Channel.{
  nr_credit_entries, unit_xfer_size, unit_time_interval, ChannelModel, Progress, advance_head,
  entries_used, transfer_loop, chmodel_init, chmodel_request,
}
use xharvest.Channel.Transfer.{Transferred, transfer_loop-Transferred}

-- The head and the length of the used part stay inside the array, and an interval has credits.
pub record IsValid (ch : ChannelModel) : Type 0 where
  pub head_in : ch.head < nr_credit_entries
  pub len_in : ch.valid_len ≤ nr_credit_entries
  pub credits : ch.max_credits ≢ 0

-- A new model of at least 31 MB/s is valid.
pub chmodel_init-IsValid : (mbs : ℕ) → 31 ≤ mbs → mbs < 10 ^ 6 → IsValid (chmodel_init mbs)
unfolding chmodel_init
chmodel_init-IsValid mbs lo hi = omega arith

pub advance_head-IsValid :
    (ch : ChannelModel) (now : ℕ) → IsValid ch → IsValid (advance_head ch now)
unfolding advance_head
advance_head-IsValid ch now v = omega arith

entries_used-le :
    (head pos : ℕ)
    → head < nr_credit_entries
    → pos < nr_credit_entries
    → entries_used head pos ≤ nr_credit_entries
unfolding entries_used
entries_used-le head pos h p = ground arith

-- The units of 128 bytes that a request transfers.
abbrev pub units : ℕ → ℕ
units length = u32 (div_round_up length unit_xfer_size)

abbrev pub offset_of : ℕ → ℕ → ℕ
offset_of now request_time =
    u32 (sub64 (request_time / unit_time_interval) (now / unit_time_interval))

abbrev pub demand_of : ChannelModel → ℕ → ℕ
demand_of ch length = u32 (u32 (units length * 1) + ch.command_credits)

-- What a request leaves: a valid model, a time that is no earlier than asked, and no more credits taken than the request demands.
pub record Served (ch : ChannelModel) (now request_time length : ℕ) (r : ℕ × ChannelModel)
    : Type 0 where
  pub valid : IsValid r.1
  pub clock : r.1.cur_time ≡ now
  pub later : request_time ≤ r.0
  pub soon : r.0 < request_time + 2 ^ 33
  pub taken :
      sum_below nr_credit_entries (advance_head ch now).avail_credits
      ≤ sum_below nr_credit_entries r.1.avail_credits + demand_of (advance_head ch now) length

clock_lem : (ch : ChannelModel) (now : ℕ) → (advance_head ch now).cur_time ≡ now
unfolding advance_head
clock_lem ch now = refl

max_credits-advance_head :
    (ch : ChannelModel) (now : ℕ) → (advance_head ch now).max_credits ≡ ch.max_credits
unfolding advance_head
max_credits-advance_head ch now = refl

-- What the call answers where it hands the request to the loop.
answer : ChannelModel → ℕ → ℕ → Progress → ℕ × ChannelModel
answer ch request_time length t =
    let used = entries_used ch.head t.pos in
    let default_delay = demand_of ch length / ch.max_credits in
    let late = if ltb default_delay t.delay then t.delay - default_delay else 0 in
    (
      u64 (request_time + (u32 (ch.xfer_lat * units length) + late * unit_time_interval)),
      record ch {
        valid_len = if ltb ch.valid_len used then used else ch.valid_len;
        avail_credits = t.credits;
      },
    )

abbrev start_of : ChannelModel → ℕ → ℕ → ℕ → Progress
start_of ch now request_time length = record {
  credits = ch.avail_credits;
  remaining = demand_of ch length;
  pos = (ch.head + offset_of now request_time) % nr_credit_entries;
  delay = 0;
}

-- A request in the window of the array: the answer covers the transfer itself, and what the array
-- loses is the demand less what is left unpaid, where no entry gains.
-- Where the request starts in the array.
abbrev pub first_entry : ChannelModel → ℕ → ℕ → ℕ
first_entry ch now request_time =
    ((advance_head ch now).head + offset_of now request_time) % nr_credit_entries

-- The entries that were passed are drained, and the time is theirs; what is unpaid is so because the
-- next entry is the head.
pub record Granted (ch : ChannelModel) (now request_time length : ℕ) (r : ℕ × ChannelModel)
    : Type 0 where
  pub served : Served ch now request_time length r
  pub covers : request_time + u32 (ch.xfer_lat * units length) ≤ r.0
  pub unpaid : ℕ
  pub paid :
      sum_below nr_credit_entries r.1.avail_credits + demand_of ch length
      ≡ sum_below nr_credit_entries (advance_head ch now).avail_credits + unpaid
  pub no_more : (j : ℕ) → r.1.avail_credits j ≤ (advance_head ch now).avail_credits j
  pub passed : ℕ
  pub drained :
      (j : ℕ)
      → j < passed
      → r.1.avail_credits ((first_entry ch now request_time + j) % nr_credit_entries) ≡ 0
  pub exhausted :
      unpaid ≢ 0
      → r.1.avail_credits ((first_entry ch now request_time + passed) % nr_credit_entries) ≡ 0
  pub untouched :
      (j : ℕ)
      → passed < j
      → j < nr_credit_entries
      → r.1.avail_credits ((first_entry ch now request_time + j) % nr_credit_entries)
        ≡ (advance_head ch now).avail_credits
            ((first_entry ch now request_time + j) % nr_credit_entries)
  pub settled :
      (unpaid ≡ 0)
      ⊎ ((first_entry ch now request_time + passed + 1) % nr_credit_entries
          ≡ (advance_head ch now).head)
  pub time :
      r.0
      ≡ u64 (
          request_time
          + (u32 (ch.xfer_lat * units length)
              + (passed - demand_of ch length / ch.max_credits) * unit_time_interval))

module _ (ch : ChannelModel) (now request_time length : ℕ) (t : Progress) (k : ℕ)
    (v : IsValid (advance_head ch now)) (small : request_time < 2 ^ 63)
    (tr : Transferred
      (advance_head ch now).head
      (start_of (advance_head ch now) now request_time length)
      t
      k) where
  answer-later :
      request_time + u32 ((advance_head ch now).xfer_lat * units length)
      ≤ (answer (advance_head ch now) request_time length t).0
  unfolding answer
  answer-later = ground (arith, tr.waited, tr.short)

  answer-soon : (answer (advance_head ch now) request_time length t).0 < request_time + 2 ^ 33
  unfolding answer
  answer-soon = ground (arith, tr.waited, tr.short)

  answer-Served :
      Served ch now request_time length (answer (advance_head ch now) request_time length t)
  unfolding answer
  answer-Served = record {
    valid = ground (
      arith,
      entries_used-le (advance_head ch now).head t.pos v.head_in (omega (arith, tr.moved)),
    );
    clock = clock_lem ch now;
    later = omega (arith, answer-later);
    soon = answer-soon;
    taken = omega (arith, tr.kept);
  }

  fields-advance_head :
      ((advance_head ch now).xfer_lat ≡ ch.xfer_lat)
      × ((advance_head ch now).command_credits ≡ ch.command_credits)
  unfolding advance_head
  fields-advance_head = (refl, refl)

  answer-Granted :
      Granted ch now request_time length (answer (advance_head ch now) request_time length t)
  unfolding answer advance_head
  answer-Granted = record {
    served = answer-Served;
    covers = answer-later;
    unpaid = t.remaining;
    paid = tr.kept;
    no_more = tr.shrinks;
    passed = k;
    drained = tr.drained;
    exhausted = tr.exhausted;
    untouched = tr.untouched;
    settled = elim tr.ended [ inl e ↦ inl e | inr e ↦ inr (grind (arith, tr.moved)) ];
    time = ground (arith, tr.waited, tr.short);
  }

chmodel_request-loop :
    (ch : ChannelModel) (now request_time length : ℕ) (t : Progress)
    → IsValid (advance_head ch now)
    → now ≤ request_time
    → offset_of now request_time < nr_credit_entries
    → transfer_loop nr_credit_entries
        (advance_head ch now).head
        (start_of (advance_head ch now) now request_time length)
      ≡ some t
    → chmodel_request ch now request_time length
      ≡ some (answer (advance_head ch now) request_time length t)
unfolding chmodel_request answer
chmodel_request-loop ch now request_time length t w lo hi e =
    ground (arith, max_credits-advance_head ch now)

-- The early answers leave the model with its head advanced, and take nothing.
chmodel_request-early :
    (ch : ChannelModel) (now request_time length : ℕ)
    → IsValid (advance_head ch now)
    → (request_time < now) ⊎ (nr_credit_entries ≤ offset_of now request_time)
    → chmodel_request ch now request_time length ≡ some (request_time, advance_head ch now)
unfolding chmodel_request
chmodel_request-early ch now request_time length w h = ground arith

-- A request that is neither in the past nor beyond the array, on a valid model and at a time below
-- 2^63, is answered, and the model stays valid. From the entry of its time on it drains the entries that
-- it passes, and the one it stops at if something stays unpaid; the entries further on keep their
-- credits, and none gains any. It takes the demand, in full unless it stops because the next entry is the
-- head. The answer is the time asked, the transfer's latency and one interval for each entry
-- passed beyond the quotient of the demand by the credits of an interval.
pub chmodel_request-Granted :
    (ch : ChannelModel) (now request_time length : ℕ)
    → IsValid ch
    → request_time < 2 ^ 63
    → now ≤ request_time
    → offset_of now request_time < nr_credit_entries
    → (r : ℕ × ChannelModel) × (chmodel_request ch now request_time length ≡ some r)
      × Granted ch now request_time length r
chmodel_request-Granted ch now request_time length v small lo hi =
    let w = advance_head-IsValid ch now v in
    let (t, k, e, tr) =
      transfer_loop-Transferred nr_credit_entries (advance_head ch now).head
        (start_of (advance_head ch now) now request_time length) w.head_in (omega arith)
        (omega arith) (omega arith) in
    (
      answer (advance_head ch now) request_time length t,
      chmodel_request-loop ch now request_time length t w lo hi e,
      answer-Granted ch now request_time length t k w small tr,
    )

early-Served :
    (ch : ChannelModel) (now request_time length : ℕ)
    → IsValid ch
    → (request_time < now) ⊎ (nr_credit_entries ≤ offset_of now request_time)
    → (r : ℕ × ChannelModel) × (chmodel_request ch now request_time length ≡ some r)
      × Served ch now request_time length r
early-Served ch now request_time length v h = (
  (request_time, advance_head ch now),
  chmodel_request-early ch now request_time length (advance_head-IsValid ch now v) h,
  record {
    valid = advance_head-IsValid ch now v;
    clock = clock_lem ch now;
    later = omega arith;
    soon = omega arith;
    taken = omega arith;
  },
)

-- A request to a valid model, at a time below 2^63, is always answered, on
-- the early returns too: the model stays valid and has the clock's time, the answer is not before
-- the time asked and less than 2^33 ns after it, and no more credits are taken than the request demands.
pub chmodel_request-Served :
    (ch : ChannelModel) (now request_time length : ℕ)
    → IsValid ch
    → request_time < 2 ^ 63
    → (r : ℕ × ChannelModel) × (chmodel_request ch now request_time length ≡ some r)
      × Served ch now request_time length r
chmodel_request-Served ch now request_time length v small = elim (dec_lt request_time now) [
  | yes past ↦ early-Served ch now request_time length v (inl past)
  | no here ↦ elim (dec_lt (offset_of now request_time) nr_credit_entries) [
    | no far ↦ early-Served ch now request_time length v (inr (omega arith))
    | yes near ↦
        let (r, e, g) =
          chmodel_request-Granted ch now request_time length v small (omega arith) near in
        (r, e, g.served)
  ]
]

-- Where the credits of an interval are 0, a request that is neither in the past nor beyond the array
-- divides by 0.
pub chmodel_request-no_credits :
    (ch : ChannelModel) (now request_time length : ℕ)
    → ch.max_credits ≡ 0
    → now ≤ request_time
    → offset_of now request_time < nr_credit_entries
    → chmodel_request ch now request_time length ≡ none
unfolding chmodel_request
chmodel_request-no_credits ch now request_time length z lo hi =
    ground (arith, max_credits-advance_head ch now)
