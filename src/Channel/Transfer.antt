-- ===== src/Channel/Transfer.antt =====
-- The loop of chmodel_request: that it ends, and what it takes from the array.
use xharvest.Base.{
  ℕ, zero, suc, ◌+◌, ◌-◌, ◌%◌, ◌^◌, ◌≤◌, ◌<◌, ◌≡◌, ◌≢◌, ◌⊎◌, ◌∙◌, inl, inr, refl, some, arith, ◌==◌,
  u32, update, sum_below, sum_below-update, Bool-cases,
}
use xharvest.Channel.{nr_credit_entries, Progress, consumed_credits, consume, transfer_loop}

-- How many entries may still be visited from `pos` on.
abbrev distance : ℕ → ℕ → ℕ
distance head pos = (head + nr_credit_entries - 1 - pos) % nr_credit_entries

-- What one round takes.
record Consumed (t t' : Progress) : Type 0 where
  kept :
      sum_below nr_credit_entries t'.credits + t.remaining
      ≡ sum_below nr_credit_entries t.credits + t'.remaining
  less : t'.remaining ≤ t.remaining
  dry : t'.remaining ≢ 0 → t'.credits t.pos ≡ 0
  same_pos : t'.pos ≡ t.pos
  same_delay : t'.delay ≡ t.delay
  shrinks : (j : ℕ) → t'.credits j ≤ t.credits j
  others : (j : ℕ) → j ≢ t.pos → t'.credits j ≡ t.credits j

consumed_credits_lem :
    (t : Progress)
    → (consumed_credits t ≤ t.remaining)
      × (consumed_credits t ≤ t.credits t.pos)
      × (t.remaining - consumed_credits t ≢ 0 → consumed_credits t ≡ t.credits t.pos)
unfolding consumed_credits
consumed_credits_lem t = ground arith

consumed_sum :
    (t : Progress)
    → t.pos < nr_credit_entries
    → sum_below nr_credit_entries (update t.credits t.pos (t.credits t.pos - consumed_credits t))
        + t.remaining
      ≡ sum_below nr_credit_entries t.credits + (t.remaining - consumed_credits t)
consumed_sum t h = omega (
  arith,
  consumed_credits_lem t,
  sum_below-update nr_credit_entries t.credits t.pos (t.credits t.pos - consumed_credits t) h,
)

consume-Consumed : (t : Progress) → t.pos < nr_credit_entries → Consumed t (consume t)
unfolding consume
consume-Consumed t h =
    let (a, b, c) = consumed_credits_lem t in
    record {
      kept = consumed_sum t h;
      less = omega arith;
      dry = λ e. ground (arith, c e);
      same_pos = refl;
      same_delay = refl;
      shrinks = λ j. ground arith;
      others = λ j n. ground (arith, n);
    }

-- What the whole loop does, from `t` to `r`, `k` entries further on.
pub record Transferred (head : ℕ) (t r : Progress) (k : ℕ) : Type 0 where
  pub kept :
      sum_below nr_credit_entries r.credits + t.remaining
      ≡ sum_below nr_credit_entries t.credits + r.remaining
  pub less : r.remaining ≤ t.remaining
  pub moved : r.pos ≡ (t.pos + k) % nr_credit_entries
  pub waited : r.delay ≡ u32 (t.delay + k)
  pub short : k ≤ distance head t.pos
  pub ended : (r.remaining ≡ 0) ⊎ ((r.pos + 1) % nr_credit_entries ≡ head)
  pub shrinks : (j : ℕ) → r.credits j ≤ t.credits j
  pub drained : (j : ℕ) → j < k → r.credits ((t.pos + j) % nr_credit_entries) ≡ 0
  pub exhausted : r.remaining ≢ 0 → r.credits ((t.pos + k) % nr_credit_entries) ≡ 0
  pub untouched :
      (j : ℕ)
      → k < j
      → j < nr_credit_entries
      → r.credits ((t.pos + j) % nr_credit_entries) ≡ t.credits ((t.pos + j) % nr_credit_entries)

stop-Transferred :
    (head : ℕ) (t t' : Progress)
    → t.pos < nr_credit_entries
    → t.delay < 2 ^ 32
    → Consumed t t'
    → (t'.remaining ≡ 0) ⊎ ((t'.pos + 1) % nr_credit_entries ≡ head)
    → Transferred head t t' 0
stop-Transferred head t t' hp hd c e = record {
  kept = c.kept;
  less = c.less;
  moved = omega (arith, c.same_pos);
  waited = omega (arith, c.same_delay);
  short = omega arith;
  ended = e;
  shrinks = c.shrinks;
  drained = λ j h. absurd (omega arith);
  exhausted =
      λ more. let e : (t.pos + 0) % nr_credit_entries ≡ t.pos = omega arith in rw e (c.dry more);
  untouched = λ j h l. c.others _ (omega arith);
}

-- The state in which the next round starts.
abbrev next_round : Progress → Progress
next_round t = record t { pos = (t.pos + 1) % nr_credit_entries; delay = u32 (t.delay + 1) }

distance_falls :
    (head pos pos' fuel : ℕ)
    → head < nr_credit_entries
    → pos < nr_credit_entries
    → pos' ≡ pos
    → (pos' + 1) % nr_credit_entries ≢ head
    → distance head pos < suc fuel
    → distance head ((pos' + 1) % nr_credit_entries) < fuel
distance_falls head pos pos' fuel hh hp e ne h = omega arith

step-Transferred :
    (head : ℕ) (t t' r : Progress) (k : ℕ)
    → head < nr_credit_entries
    → t.pos < nr_credit_entries
    → Consumed t t'
    → t'.remaining ≢ 0
    → (t'.pos + 1) % nr_credit_entries ≢ head
    → Transferred head (next_round t') r k
    → Transferred head t r (suc k)
step-Transferred head t t' r k hh hp c more on ih = record {
  kept = omega (arith, ih.kept, c.kept);
  less = omega (arith, ih.less, c.less);
  moved = omega (arith, ih.moved, c.same_pos);
  waited = omega (arith, ih.waited, c.same_delay);
  short = omega (arith, ih.short, c.same_pos);
  ended = ih.ended;
  shrinks = λ j. omega (arith, ih.shrinks j, c.shrinks j);
  drained = go;
  exhausted = λ left. rw (further k) (ih.exhausted left);
  untouched = kept_later;
}
  where
    further :
        (j : ℕ)
        → (t.pos + suc j) % nr_credit_entries
          ≡ ((t'.pos + 1) % nr_credit_entries + j) % nr_credit_entries
    further j = omega (arith, c.same_pos)

    kept_later :
        (j : ℕ)
        → suc k < j
        → j < nr_credit_entries
        → r.credits ((t.pos + j) % nr_credit_entries) ≡ t.credits ((t.pos + j) % nr_credit_entries)
    kept_later zero h l = absurd (omega arith)
    kept_later (suc j) h l =
        rw (further j) (ih.untouched j (omega arith) (omega arith))
        ∙ c.others ((t.pos + suc j) % nr_credit_entries) (omega arith)

    go : (j : ℕ) → j < suc k → r.credits ((t.pos + j) % nr_credit_entries) ≡ 0
    go zero h =
        let e : (t.pos + 0) % nr_credit_entries ≡ t.pos = omega arith in
        rw e (omega (arith, ih.shrinks t.pos, c.dry more))
    go (suc j) h = rw (further j) (ih.drained j (omega arith))

-- With the entries up to the head as fuel, from a position inside the array, the loop ends. It takes from
-- the entries what it takes off the demand, moves on one entry and one interval of delay a round without
-- passing the head, stops with nothing left or before the head, leaves the entries it passed empty, and
-- the one it stops at if something is left, and touches no other entry.
pub transfer_loop-Transferred :
    (fuel head : ℕ) (t : Progress)
    → head < nr_credit_entries
    → t.pos < nr_credit_entries
    → t.delay < 2 ^ 32
    → distance head t.pos < fuel
    → (r : Progress) × (k : ℕ) × (transfer_loop fuel head t ≡ some r) × Transferred head t r k
unfolding transfer_loop
transfer_loop-Transferred zero head t hh hp hd hf = absurd (omega arith)
transfer_loop-Transferred (suc fuel) head t hh hp hd hf =
    let t' = consume t in
    let c = consume-Consumed t hp in
    elim (Bool-cases (t'.remaining == 0)) [
      | inl paid ↦ (t', 0, rw paid refl, stop-Transferred head t t' hp hd c (inl (ground arith)))
      | inr more ↦ elim (Bool-cases ((t'.pos + 1) % nr_credit_entries == head)) [
        | inl full ↦
            (t', 0, rw (more, full) refl, stop-Transferred head t t' hp hd c (inr (ground arith)))
        | inr on ↦
            let (r, k, e, ih) =
              transfer_loop-Transferred fuel head (next_round t') hh (omega arith) (omega arith)
                (distance_falls head t.pos t'.pos fuel hh hp c.same_pos (ground arith) hf) in
            (
              r,
              suc k,
              rw (more, on) e,
              step-Transferred head t t' r k hh hp c (ground arith) (ground arith) ih,
            )
      ]
    ]
