-- ===== src/Conv/Mapped/Collect.antt =====
-- NVMevirt/conv_ftl.c, gc_write_page: garbage collection moves a page.
use xharvest.Base.{
  ℕ, ◌≡◌, ◌≢◌, ◌⊎◌, inl, inr, true, none, some, ◌==◌, if◌then◌else◌, refl, sym, ◌∙◌, ap, Bool-cases,
  some_inj, if-eq-some, none≢some, >>=-eq-some, ==→≡, not_==→≢,
}
use mathlib.Core.Path.{subst}
use xharvest.Ssd.Nand.{Ppa, PageStatus, pg_free, pg_valid, get_pg, same_pg}
use xharvest.Ssd.Timing.{NandOp, nand_write, nand_nop}
use xharvest.Conv.{Maps, mapped_ppa, get_rmap_ent, valid_lpn, last_pg_in_wordline}
use xharvest.Conv.Index.{IsPage}
use xharvest.Conv.Ftl.{LineQueue, gc_io, ConvFtl, maps, place_page, advance_nand}
use xharvest.Conv.Gc.{gc_command, gc_program, gc_write_page}
use xharvest.Conv.Mapped.{
  IsAt, IsMapped, NoLpn, get_pg-same_pg, get_rmap_ent-same_pg, same_pg_sym, same_pg_trans,
}
use xharvest.Conv.Mapped.Place.{Placed-IsMapped}
use xharvest.Conv.Mapped.Steps.{
  IsSoundBut, Quiet, Quiet-refl, IsSoundBut-Quiet, place_page-IsPlaced, advance_nand-Quiet,
  device-same_sp,
}

pub gc_command-Quiet :
    {Q : Type 0} (clock : ℕ → ℕ → ℕ) (ftl ftl' : ConvFtl Q) (op : NandOp) (xfer_size : ℕ) (p : Ppa)
    → gc_command clock ftl op xfer_size p ≡ some ftl'
    → Quiet ftl ftl'
unfolding gc_command
gc_command-Quiet clock ftl ftl' op xfer_size p h = elim (if-eq-some ftl.cp.enable_gc_delay _ _ h) [
  | inr (e, q) ↦ subst (Quiet ftl) (some_inj q) (Quiet-refl ftl)
  | inl (e, q) ↦
      let ((t, f), a, b) = >>=-eq-some (advance_nand clock ftl _) _ q in
      subst (Quiet ftl) (some_inj b) (advance_nand-Quiet clock ftl f _ t a)
]

gc_program-Quiet :
    {Q : Type 0} (clock : ℕ → ℕ → ℕ) (ftl ftl' : ConvFtl Q) (p : Ppa)
    → gc_program clock ftl p ≡ some ftl'
    → Quiet ftl ftl'
unfolding gc_program
gc_program-Quiet clock ftl ftl' p h = elim (if-eq-some (last_pg_in_wordline (maps ftl) p) _ _ h) [
  | inl (e, q) ↦ gc_command-Quiet clock ftl ftl' nand_write _ p q
  | inr (e, q) ↦ gc_command-Quiet clock ftl ftl' nand_nop 0 p q
]

-- The collection goes on: the same LPNs are mapped, and no page that is used changes its status.
pub record IsCollecting {Q : Type 0} (ftl ftl' : ConvFtl Q) (M : Ppa → Type 0) : Type 0 where
  pub sound : IsSoundBut ftl' NoLpn M
  pub same_sp : ftl'.lm.ssd.sp ≡ ftl.lm.ssd.sp
  pub same_lpns : (j : ℕ) → mapped_ppa (ftl'.maptbl j) ≡ mapped_ppa (ftl.maptbl j)
  pub used_kept :
      (q : Ppa) → get_pg ftl.lm.ssd q ≢ pg_free → get_pg ftl'.lm.ssd q ≡ get_pg ftl.lm.ssd q

pub IsCollecting-Quiet :
    {Q : Type 0} (a b c : ConvFtl Q) (M : Ppa → Type 0)
    → IsCollecting a b M
    → Quiet b c
    → IsCollecting a c M
IsCollecting-Quiet a b c M k q = record {
  sound = IsSoundBut-Quiet b c NoLpn M q k.sound;
  same_sp = q.same.same_sp ∙ k.same_sp;
  same_lpns = λ j. ap (λ (t : ℕ → Ppa). mapped_ppa (t j)) q.same.same_maptbl ∙ k.same_lpns j;
  used_kept = λ p u. q.same.same_pages p ∙ k.used_kept p u;
}

pub IsCollecting-trans :
    {Q : Type 0} (a b c : ConvFtl Q) (M M' : Ppa → Type 0)
    → IsCollecting a b M
    → IsCollecting b c M'
    → IsCollecting a c M'
IsCollecting-trans a b c M M' k l = record {
  sound = l.sound;
  same_sp = l.same_sp ∙ k.same_sp;
  same_lpns = λ j. l.same_lpns j ∙ k.same_lpns j;
  used_kept = λ q u. let s = k.used_kept q u in l.used_kept q (λ z. u (sym s ∙ z)) ∙ s;
}

-- The moved pages, by another description.
pub IsSoundBut-moved :
    {Q : Type 0} (ftl : ConvFtl Q) (M M' : Ppa → Type 0)
    → ((q : Ppa) → IsPage ftl.lm.ssd q → M q → M' q)
    → ((q : Ppa) → IsPage ftl.lm.ssd q → M' q → M q)
    → IsSoundBut ftl NoLpn M
    → IsSoundBut ftl NoLpn M'
IsSoundBut-moved ftl M M' to from s =
    let k = s.maps_right in
    record {
      device = s.device;
      maps_right = record {
        held = k.held;
        current = λ q h v. elim (k.current q h v) [ inl x ↦ inl (to q h x) | inr x ↦ inr x ];
        moved_used = λ q h x. k.moved_used q h (from q h x);
        moved_unmapped = λ q h x. k.moved_unmapped q h (from q h x);
      };
      pointers = s.pointers;
    }

abbrev pub With : (Ppa → Type 0) → Ppa → Ppa → Type 0
With M p q = M q ⊎ (same_pg p q ≡ true)

valid≢free : (st : PageStatus) → st ≡ pg_valid → st ≢ pg_free
valid≢free st v f = cc

-- An LPN is at one page.
IsAt-owner :
    (m : Maps) (M : Ppa → Type 0) (j lpn : ℕ) (q : Ppa)
    → IsMapped m NoLpn M
    → IsAt m j q
    → get_rmap_ent m q ≡ some lpn
    → j ≡ lpn
IsAt-owner m M j lpn q k a e =
    let h = k.held j (λ x. x) a.in_range a.mapped in
    some_inj (sym h.owner ∙ sym (get_rmap_ent-same_pg m (m.maptbl j) q a.same) ∙ e)

IsAt-same_pg : (m : Maps) (j : ℕ) (p q : Ppa) → IsAt m j p → same_pg p q ≡ true → IsAt m j q
IsAt-same_pg m j p q a e = record {
  in_range = a.in_range;
  mapped = a.mapped;
  same = same_pg_trans (m.maptbl j) p q a.same e;
}

-- Used pages that are not valid: no LPN is mapped to them.
pub add_invalid :
    {Q : Type 0} (ftl : ConvFtl Q) (M N : Ppa → Type 0)
    → IsSoundBut ftl NoLpn M
    → ((q : Ppa) → N q → get_pg ftl.lm.ssd q ≢ pg_free)
    → ((q : Ppa) → N q → get_pg ftl.lm.ssd q ≢ pg_valid)
    → IsSoundBut ftl NoLpn (λ q. M q ⊎ N q)
add_invalid ftl M N s u n =
    let k = s.maps_right in
    record {
      device = s.device;
      maps_right = record {
        held = k.held;
        current = λ q h v. elim (k.current q h v) [ inl x ↦ inl (inl x) | inr x ↦ inr x ];
        moved_used = λ q h x z. elim x [ inl y ↦ k.moved_used q h y z | inr e ↦ u q e z ];
        moved_unmapped = λ q h x j a. elim x [
          | inl y ↦ k.moved_unmapped q h y j a
          | inr e ↦
              let held = k.held j (λ y. y) a.in_range a.mapped in
              n q e (get_pg-same_pg ftl.lm.ssd (ftl.maptbl j) q a.same ∙ held.valid)
        ];
      };
      pointers = s.pointers;
    }

pub IsCollecting-same :
    {Q : Type 0} (ftl : ConvFtl Q) (M : Ppa → Type 0)
    → IsSoundBut ftl NoLpn M
    → IsCollecting ftl ftl M
IsCollecting-same ftl M s = record {
  sound = s;
  same_sp = refl;
  same_lpns = λ j. refl;
  used_kept = λ q u. refl;
}

pub IsCollecting-moved :
    {Q : Type 0} (a b : ConvFtl Q) (M M' : Ppa → Type 0)
    → ((q : Ppa) → IsPage b.lm.ssd q → M q → M' q)
    → ((q : Ppa) → IsPage b.lm.ssd q → M' q → M q)
    → IsCollecting a b M
    → IsCollecting a b M'
IsCollecting-moved a b M M' to from k = record {
  sound = IsSoundBut-moved b M M' to from k.sound;
  same_sp = k.same_sp;
  same_lpns = k.same_lpns;
  used_kept = k.used_kept;
}

module _ {Q : Type 0} (ops : LineQueue Q) (clock : ℕ → ℕ → ℕ) where
  -- A valid page that was not moved yet moves: the LPN that is mapped to it goes to another page.
  pub gc_write_page-IsCollecting :
      (ftl ftl' : ConvFtl Q) (M : Ppa → Type 0) (p : Ppa)
      → IsSoundBut ftl NoLpn M
      → IsPage ftl.lm.ssd p
      → get_pg ftl.lm.ssd p ≡ pg_valid
      → ¬ M p
      → gc_write_page ops clock ftl p ≡ some ftl'
      → IsCollecting ftl ftl' (With M p)
  unfolding gc_write_page
  gc_write_page-IsCollecting ftl ftl' M p s page valid fresh h =
      let m = maps ftl in
      let k = s.maps_right in
      let (lpn, e1, h1) = >>=-eq-some (get_rmap_ent m p) _ h in
      let ((new, f), e2, h2) =
        >>=-eq-some (if valid_lpn m lpn then place_page ops gc_io ftl lpn else none) _ h1 in
      let e3 : place_page ops gc_io ftl lpn ≡ some (new, f) =
        elim (if-eq-some (valid_lpn m lpn) (place_page ops gc_io ftl lpn) none e2) [
          | inl (b, q) ↦ q
          | inr (b, q) ↦ absurd (none≢some q)
        ] in
      let at_p : IsAt m lpn p = elim (k.current p page valid) [
        | inl x ↦ absurd (fresh x)
        | inr (j, a, o) ↦ subst (λ x. IsAt m x p) (some_inj (sym o ∙ e1)) a
      ] in
      let pl = place_page-IsPlaced ops gc_io ftl f lpn new s.device s.pointers e3 in
      let n = pl.placed in
      let right =
        Placed-IsMapped m (maps f) lpn new n M (With M p) at_p.in_range
          (record {
            held = λ j e. k.held j (λ x. x);
            current = k.current;
            moved_used = k.moved_used;
            moved_unmapped = k.moved_unmapped;
          })
          (λ q x. inl x)
          (λ q b v a.
            inr (
              same_pg_trans p (ftl.maptbl lpn) q (same_pg_sym (ftl.maptbl lpn) p at_p.same) a.same))
          (λ q b x z. elim x [
            | inl y ↦ k.moved_used q b y z
            | inr e ↦ valid≢free _ (get_pg-same_pg ftl.lm.ssd p q e ∙ valid) z
          ])
          (λ q b x j i a. elim x [
            | inl y ↦ k.moved_unmapped q b y j a
            | inr e ↦ i (IsAt-owner m M j lpn p k (IsAt-same_pg m j q p a (same_pg_sym p q e)) e1)
          ]) in
      IsCollecting-Quiet ftl f ftl' (With M p)
        (record {
          sound = record {
            device = device-same_sp ftl.lm.ssd f.lm.ssd n.same_sp s.device;
            maps_right = right;
            pointers = pl.pointers;
          };
          same_sp = n.same_sp;
          same_lpns = λ j. elim (Bool-cases (j == lpn)) [
            | inl e ↦
                subst (λ x. mapped_ppa (f.maptbl x) ≡ mapped_ppa (ftl.maptbl x))
                  (sym (==→≡ j lpn e)) (ap mapped_ppa n.now ∙ n.new_mapped ∙ sym at_p.mapped)
            | inr e ↦ ap mapped_ppa (n.others j (not_==→≢ j lpn e))
          ];
          used_kept = λ q u. elim (Bool-cases (same_pg new q)) [
            | inl e ↦ absurd (u (get_pg-same_pg ftl.lm.ssd new q e ∙ n.was_free))
            | inr e ↦ n.pages q ∙ rw e refl
          ];
        })
        (gc_program-Quiet clock f ftl' new h2)
