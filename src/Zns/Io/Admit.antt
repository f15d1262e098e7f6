-- ===== src/Zns/Io/Admit.antt =====
-- A write to a zone without a random write area: which writes are admitted, and what they change.
use xharvest.Base.{
  ◌/◌, u32, ℕ, ◌+◌, ◌*◌, ◌%◌, ◌<◌, ◌≡◌, ◌≢◌, false, some, refl, ◌==◌, u64, Bool-cases, inl, inr, ap,
  sym, ◌∙◌, ==→≡, ≢→==,
}
use xharvest.Zns.{ZnsFtl, full, Status, success, err_boundary, invalid_write, zone_to_slba}
use xharvest.Zns.Manage.Accounting.{IsAccounted}
use xharvest.Zns.Io.{enter_write, move_entered, admit_write, check_boundary_error, lba_to_byte}
use xharvest.Zns.Io.Enter.{Entered, unchanged, enter_write-Entered, increase_write_ptr-Increased}

zone_to_slba-same :
    (a b : ZnsFtl) (z : ℕ) → b.zp ≡ a.zp → b.ssd ≡ a.ssd → zone_to_slba b z ≡ zone_to_slba a z
unfolding zone_to_slba
zone_to_slba-same a b z p q =
    ap (λ zp. u32 (z * (zp.zone_size / b.ssd.sp.secsz))) p
    ∙ ap (λ d. u32 (z * (a.zp.zone_size / d.sp.secsz))) q

-- What a write does to the zones, by the status it answers.
pub record Written (ftl : ZnsFtl) (zid slba nr_lba : ℕ) (r : Status × ZnsFtl) : Type 0 where
  pub accounts : IsAccounted r.1
  pub same_zp : r.1.zp ≡ ftl.zp
  pub same_ssd : r.1.ssd ≡ ftl.ssd
  pub at_pointer : r.0 ≡ success → slba ≡ (ftl.zone_descs zid).wp
  pub advanced : r.0 ≡ success → (r.1.zone_descs zid).wp ≡ u64 (slba + nr_lba)
  pub filled :
      r.0 ≡ success
      → u64 (slba + nr_lba) ≡ u64 (zone_to_slba ftl zid + (ftl.zone_descs zid).zone_capacity)
      → (r.1.zone_descs zid).state ≡ full
  pub others : (z : ℕ) → z ≢ zid → r.1.zone_descs z ≡ ftl.zone_descs z
  pub refused : r.0 ≢ success → r.1.zone_descs ≡ ftl.zone_descs

module _ (ftl : ZnsFtl) (zid slba nr_lba : ℕ) (h : zid < ftl.zp.nr_zones) where
  refuse :
      (st : Status) (ftl' : ZnsFtl)
      → st ≢ success
      → Entered ftl zid (st, ftl')
      → Written ftl zid slba nr_lba (st, ftl')
  refuse st ftl' n e = record {
    accounts = e.accounts;
    same_zp = e.same_zp;
    same_ssd = e.same_ssd;
    at_pointer = λ k. absurd (n k);
    advanced = λ k. absurd (n k);
    filled = λ k. absurd (n k);
    others = e.others;
    refused = e.refused;
  }

  move_entered-Written :
      (r : Status × ZnsFtl)
      → Entered ftl zid r
      → slba ≡ (ftl.zone_descs zid).wp
      → (ftl.zone_descs zid).zrwav ≡ false
      → (r' : Status × ZnsFtl) × (move_entered r zid nr_lba ≡ some r')
        × Written ftl zid slba nr_lba r'
  unfolding move_entered
  move_entered-Written (success, f) e p v =
      let (f', q, i) =
        increase_write_ptr-Increased f zid nr_lba e.accounts (rw e.same_zp h) (e.same_zrwav ∙ v)
          (e.opened refl) in
      let start : u64 ((f.zone_descs zid).wp + nr_lba) ≡ u64 (slba + nr_lba) =
        ap (λ k. u64 (k + nr_lba)) (e.same_wp ∙ sym p) in
      let end_same = sym (
        ap (λ c. u64 (zone_to_slba f zid + c)) e.same_capacity
        ∙ ap (λ k. u64 (k + (ftl.zone_descs zid).zone_capacity))
            (zone_to_slba-same ftl f zid e.same_zp e.same_ssd)) in
      (
        (success, f'),
        rw q refl,
        record {
          accounts = i.accounts;
          same_zp = i.same_zp ∙ e.same_zp;
          same_ssd = i.same_ssd ∙ e.same_ssd;
          at_pointer = λ _. p;
          advanced = λ _. i.advanced ∙ start;
          filled = λ _ l. i.filled (start ∙ l ∙ end_same);
          others = λ z n. i.others z n ∙ e.others z n;
          refused = λ n. absurd (n refl);
        },
      )
  move_entered-Written (st, f) e p v = ((st, f), refl, refuse st f (λ k. cc) e)

  -- On a device with its accounts in order and a nonzero write unit, the admission of a write to a zone
  -- of the device without a random write area has a status. If it succeeds, the write began
  -- at the write pointer, which is then past the last LBA written, and the zone is full if that is its
  -- capacity. If it fails, no zone has changed. No other zone changes, and the resource counters are
  -- still the numbers of the zones that hold them.
  pub admit_write-Written :
      IsAccounted ftl
      → (ftl.zone_descs zid).zrwav ≡ false
      → ftl.ssd.sp.write_unit_size ≢ 0
      → (r : Status × ZnsFtl) × (admit_write ftl zid slba nr_lba ≡ some r)
        × Written ftl zid slba nr_lba r
  unfolding admit_write
  admit_write-Written a v w =
      elim (Bool-cases (lba_to_byte nr_lba % ftl.ssd.sp.write_unit_size == 0)) [
        | inr t ↦ (
          _,
          rw (≢→== _ _ w, t) refl,
          refuse invalid_write ftl (λ k. cc) (unchanged ftl zid a h _ (λ k. cc)),
        )
        | inl whole ↦ elim (Bool-cases (check_boundary_error ftl slba nr_lba)) [
          | inr t ↦ (
            _,
            rw (≢→== _ _ w, whole, t) refl,
            refuse err_boundary ftl (λ k. cc) (unchanged ftl zid a h _ (λ k. cc)),
          )
          | inl inside ↦ elim (Bool-cases (slba == (ftl.zone_descs zid).wp)) [
            | inr t ↦ (
              _,
              rw (≢→== _ _ w, whole, inside, t) refl,
              refuse invalid_write ftl (λ k. cc) (unchanged ftl zid a h _ (λ k. cc)),
            )
            | inl at ↦
                let (r, e, p) =
                  move_entered-Written (enter_write ftl zid slba (ftl.zone_descs zid).state)
                    (enter_write-Entered ftl zid a h slba _ refl) (==→≡ _ _ at) v in
                (r, rw (≢→== _ _ w, whole, inside, at) e, p)
          ]
        ]
      ]
