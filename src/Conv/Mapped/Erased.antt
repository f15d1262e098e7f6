-- ===== src/Conv/Mapped/Erased.antt =====
-- NVMevirt/conv_ftl.c, do_gc: a block that no LPN is mapped to is erased.
use xharvest.Base.{
  ℕ, ◌<◌, ◌≡◌, ◌≢◌, inl, inr, true, false, some, refl, arith, sym, ◌∙◌, ap, Bool-cases, some_inj,
  >>=-eq-some,
}
use mathlib.Core.Path.{subst}
use xharvest.Ssd.Params.{SsdParams}
use xharvest.Ssd.Nand.{
  Ppa, PageStatus, pg_free, pg_valid, Ssd, get_pg, get_blk, get_pl, get_lun, get_ch, set_lun,
  set_ch, same_blk,
}
use xharvest.Ssd.Timing.{nand_erase}
use xharvest.Conv.{Maps, mapped_ppa}
use xharvest.Conv.Index.{IsPage}
use xharvest.Conv.Lines.{mark_block_free}
use xharvest.Conv.Lines.Pages.{mark_block_free-pages}
use xharvest.Conv.Ftl.{ConvFtl, maps, with_lines}
use xharvest.Conv.Gc.{gc_command, end_gc, erase_block}
use xharvest.Conv.Mapped.{IsAt, IsMapped, NoLpn, same_pg_refl, get_rmap_ent-same_sp, IsPage-same_sp}
use xharvest.Conv.Mapped.Collect.{gc_command-Quiet}
use xharvest.Conv.Mapped.Steps.{
  IsSoundBut, Quiet, IsSoundBut-Quiet, device-same_sp, ArePointers-same,
}

valid≢free : (st : PageStatus) → st ≡ pg_valid → st ≢ pg_free
valid≢free st v f = cc

-- The pages that have moved, but for those of the block.
abbrev pub Without : (Ppa → Type 0) → Ppa → Ppa → Type 0
Without M p q = M q × (same_blk p q ≡ false)

-- What garbage collection keeps between its steps.
pub record IsCollected {Q : Type 0} (ftl ftl' : ConvFtl Q) (M : Ppa → Type 0) : Type 0 where
  pub sound : IsSoundBut ftl' NoLpn M
  pub same_sp : ftl'.lm.ssd.sp ≡ ftl.lm.ssd.sp
  pub same_lpns : (j : ℕ) → mapped_ppa (ftl'.maptbl j) ≡ mapped_ppa (ftl.maptbl j)

pub IsCollected-Quiet :
    {Q : Type 0} (a b c : ConvFtl Q) (M : Ppa → Type 0)
    → IsCollected a b M
    → Quiet b c
    → IsCollected a c M
IsCollected-Quiet a b c M k q = record {
  sound = IsSoundBut-Quiet b c NoLpn M q k.sound;
  same_sp = q.same.same_sp ∙ k.same_sp;
  same_lpns = λ j. ap (λ (t : ℕ → Ppa). mapped_ppa (t j)) q.same.same_maptbl ∙ k.same_lpns j;
}

-- The erased block: no LPN was mapped to its pages, and the others stay.
freed-IsMapped :
    (m : Maps) (ssd : Ssd) (p : Ppa) (M : Ppa → Type 0)
    → IsMapped m NoLpn M
    → ((q : Ppa) → IsPage m.ssd q → same_blk p q ≡ true → M q)
    → ssd.sp ≡ m.ssd.sp
    → ((q : Ppa) → same_blk p q ≡ false → get_pg ssd q ≡ get_pg m.ssd q)
    → ((q : Ppa) → same_blk p q ≡ true → q.pg < m.ssd.sp.pgs_per_blk → get_pg ssd q ≡ pg_free)
    → IsMapped (record m { ssd = ssd }) NoLpn (Without M p)
freed-IsMapped m ssd p M k whole sp kept freed =
    let m' : Maps = record m { ssd = ssd } in
    let owner = λ (q : Ppa). get_rmap_ent-same_sp m m' q sp refl in
    let back = λ (q : Ppa) (h : IsPage ssd q). IsPage-same_sp ssd m.ssd q (sym sp) h in
    let below = λ (j : ℕ) (h : j < ssd.sp.tt_pgs). subst (λ (s : SsdParams). j < s.tt_pgs) sp h in
    let above =
      λ (j : ℕ) (h : j < m.ssd.sp.tt_pgs). subst (λ (s : SsdParams). j < s.tt_pgs) (sym sp) h in
    let back_at : (j : ℕ) (q : Ppa) → IsAt m' j q → IsAt m j q =
      λ j q a. record { in_range = below j a.in_range; mapped = a.mapped; same = a.same } in
    let outside : (q : Ppa) → get_pg ssd q ≢ pg_free → IsPage m.ssd q → same_blk p q ≡ false =
      λ q u h. elim (Bool-cases (same_blk p q)) [
        | inl e ↦ absurd (u (freed q e h.pg_in))
        | inr e ↦ e
      ] in
    record {
      held = λ j e h f.
          let was = k.held j e (below j h) f in
          let q = m.maptbl j in
          let here : IsAt m j q = record {
            in_range = below j h;
            mapped = f;
            same = same_pg_refl q;
          } in
          let apart : same_blk p q ≡ false = elim (Bool-cases (same_blk p q)) [
            | inl z ↦ absurd (k.moved_unmapped q was.page (whole q was.page z) j here)
            | inr z ↦ z
          ] in
          record {
            page = IsPage-same_sp m.ssd ssd q sp was.page;
            valid = kept q apart ∙ was.valid;
            owner = owner q ∙ was.owner;
          };
      current = λ q h v.
          let page = back q h in
          let apart = outside q (valid≢free _ v) page in
          elim (k.current q page (sym (kept q apart) ∙ v)) [
            | inl x ↦ inl (x, apart)
            | inr (j, a, o) ↦ inr (
              j,
              record { in_range = above j a.in_range; mapped = a.mapped; same = a.same },
              owner q ∙ o,
            )
          ];
      moved_used = λ q h (x, apart) z. k.moved_used q (back q h) x (sym (kept q apart) ∙ z);
      moved_unmapped = λ q h (x, apart) j a. k.moved_unmapped q (back q h) x j (back_at j q a);
    }

end_gc-Quiet :
    {Q : Type 0} (ftl : ConvFtl Q) (p : Ppa)
    → (let lm = ftl.lm in Quiet ftl (with_lines ftl (record lm { ssd = end_gc lm.ssd p })))
unfolding get_pg get_blk get_pl get_lun get_ch set_lun set_ch
end_gc-Quiet ftl p = record {
  same = record {
    same_sp = refl;
    same_pages = λ q. ground arith;
    same_maptbl = refl;
    same_rmap = refl;
  };
  same_wp = refl;
  same_gc_wp = refl;
}

-- A block all of whose pages have moved.
pub erase_block-IsCollected :
    {Q : Type 0} (clock : ℕ → ℕ → ℕ) (ftl ftl' : ConvFtl Q) (M : Ppa → Type 0) (p : Ppa)
    → IsSoundBut ftl NoLpn M
    → ((q : Ppa) → IsPage ftl.lm.ssd q → same_blk p q ≡ true → M q)
    → erase_block clock ftl p ≡ some ftl'
    → IsCollected ftl ftl' (Without M p)
unfolding erase_block
erase_block-IsCollected clock ftl ftl' M p s whole h =
    let (lm, e1, h1) = >>=-eq-some (mark_block_free ftl.lm p) _ h in
    let freed = with_lines ftl lm in
    let (f, e2, h2) = >>=-eq-some (gc_command clock freed nand_erase 0 p) _ h1 in
    let (sp, kept, free) = mark_block_free-pages ftl.lm lm p e1 in
    let base : IsCollected ftl freed (Without M p) = record {
      sound = record {
        device = device-same_sp ftl.lm.ssd lm.ssd sp s.device;
        maps_right = freed-IsMapped (maps ftl) lm.ssd p M s.maps_right whole sp kept free;
        pointers = ArePointers-same ftl freed sp refl refl s.pointers;
      };
      same_sp = sp;
      same_lpns = λ j. refl;
    } in
    let erased =
      IsCollected-Quiet ftl freed f (Without M p) base
        (gc_command-Quiet clock freed f nand_erase 0 p e2) in
    subst (λ x. IsCollected ftl x (Without M p)) (some_inj h2)
      (IsCollected-Quiet ftl f _ (Without M p) erased (end_gc-Quiet f p))
