-- ===== src/Ssd/Timing/Pages.antt =====
-- NVMevirt/ssd.c: a NAND command takes time and changes no page.
use xharvest.Base.{
  ℕ, zero, suc, ◌+◌, ◌-◌, ◌*◌, ◌≡◌, Option, none, some, ◌==◌, if◌then◌else◌, refl, arith, ◌∙◌, ap,
  inl, inr, >>=-eq-some, some_inj, min, max, if-eq-some, none≢some,
}
use mathlib.Core.Path.{subst}
use xharvest.Ssd.Nand.{
  Ppa, Ssd, get_ch, get_lun, get_pl, get_blk, set_ch, set_lun, ppa_word, unmapped_ppa,
}
use xharvest.Ssd.Timing.{
  NandOp, nand_read, nand_write, nand_erase, nand_nop, NandCmd, ReadTimes, get_cell,
  ssd_advance_pcie, channel_transfer, read_round, read_loop, set_avail, advance_read, advance_write,
  advance_die, advance_switch, ssd_advance_nand,
}
use xharvest.Channel.{chmodel_request}

-- The same parameters and the same blocks.
pub record SamePages (a b : Ssd) : Type 0 where
  pub same_sp : b.sp ≡ a.sp
  pub same_blk : (q : Ppa) → get_blk b q ≡ get_blk a q

pub SamePages-refl : (a : Ssd) → SamePages a a
SamePages-refl a = record { same_sp = refl; same_blk = λ q. refl }

pub SamePages-trans : (a b c : Ssd) → SamePages a b → SamePages b c → SamePages a c
SamePages-trans a b c s t = record {
  same_sp = t.same_sp ∙ s.same_sp;
  same_blk = λ q. t.same_blk q ∙ s.same_blk q;
}

set_avail-SamePages : (ssd : Ssd) (p : Ppa) (t : ℕ) → SamePages ssd (set_avail ssd p t)
unfolding set_avail set_lun set_ch get_lun get_ch get_blk get_pl
set_avail-SamePages ssd p t = record { same_sp = refl; same_blk = λ q. ground arith }

-- A result that is given has the pages.
given :
    {a s s' : Ssd} {t t' : ℕ}
    → ◌≡◌ {A = Option (ℕ × Ssd)} (some (t, s)) (some (t', s'))
    → SamePages a s
    → SamePages a s'
given {a} e k = subst (SamePages a) (ap (λ x. x.1) (some_inj e)) k

channel_transfer-SamePages :
    (ssd ssd' : Ssd) (p : Ppa) (now request_time length done : ℕ)
    → channel_transfer ssd p now request_time length ≡ some (done, ssd')
    → SamePages ssd ssd'
unfolding channel_transfer get_ch get_lun get_blk get_pl set_ch
channel_transfer-SamePages ssd ssd' p now request_time length done h =
    let (r, e, f) =
      >>=-eq-some (chmodel_request (get_ch ssd p).perf_model now request_time length) _ h in
    given f (record { same_sp = refl; same_blk = λ q. ground arith })

pub ssd_advance_pcie-SamePages :
    (ssd ssd' : Ssd) (now request_time length done : ℕ)
    → ssd_advance_pcie ssd now request_time length ≡ some (done, ssd')
    → SamePages ssd ssd'
unfolding ssd_advance_pcie get_blk get_pl get_lun get_ch
ssd_advance_pcie-SamePages ssd ssd' now request_time length done h =
    let (r, e, f) = >>=-eq-some (chmodel_request ssd.pcie now request_time length) _ h in
    given f (record { same_sp = refl; same_blk = λ q. refl })

read_round-SamePages :
    (clock : ℕ → ℕ) (i : ℕ) (cmd : NandCmd) (s s' : ReadTimes) (xfer_size : ℕ)
    → read_round clock i cmd s xfer_size ≡ some s'
    → SamePages s.ssd s'.ssd
unfolding read_round
read_round-SamePages clock i cmd s s' xfer_size h =
    let (r, e, f) =
      >>=-eq-some (channel_transfer s.ssd cmd.ppa (clock (2 * i + 1)) s.chnl_stime xfer_size) _ h in
    let one = channel_transfer-SamePages s.ssd r.1 cmd.ppa _ _ _ r.0 e in
    let linked = ssd_advance_pcie r.1 (clock (2 * i + 2)) r.0 xfer_size in
    let (r', e', f') =
      >>=-eq-some (if cmd.interleave_pci_dma then linked else some (r.0, r.1)) _ f in
    let two : SamePages r.1 r'.1 =
      elim (if-eq-some cmd.interleave_pci_dma linked (some (r.0, r.1)) e') [
        | inl (b, m) ↦ ssd_advance_pcie-SamePages r.1 r'.1 _ _ _ r'.0 m
        | inr (b, m) ↦ given m (SamePages-refl r.1)
      ] in
    subst (λ x. SamePages s.ssd x.ssd) (some_inj f') (SamePages-trans s.ssd r.1 r'.1 one two)

read_loop-SamePages :
    (fuel : ℕ) (clock : ℕ → ℕ) (i : ℕ) (cmd : NandCmd) (remaining : ℕ) (s s' : ReadTimes)
    → read_loop fuel clock i cmd remaining s ≡ some s'
    → SamePages s.ssd s'.ssd
unfolding read_loop
read_loop-SamePages zero clock i cmd remaining s s' h =
    elim (if-eq-some (remaining == 0) (some s) none h) [
      | inl (b, m) ↦ subst (λ x. SamePages s.ssd x.ssd) (some_inj m) (SamePages-refl s.ssd)
      | inr (b, m) ↦ absurd (none≢some m)
    ]
read_loop-SamePages (suc fuel) clock i cmd remaining s s' h =
    let xfer_size = min remaining s.ssd.sp.max_ch_xfer_size in
    elim (if-eq-some (remaining == 0) (some s) _ h) [
      | inl (b, m) ↦ subst (λ x. SamePages s.ssd x.ssd) (some_inj m) (SamePages-refl s.ssd)
      | inr (b, m) ↦
          let (t, e, f) = >>=-eq-some (read_round clock i cmd s xfer_size) _ m in
          SamePages-trans s.ssd t.ssd s'.ssd (read_round-SamePages clock i cmd s t xfer_size e)
            (read_loop-SamePages fuel clock (i + 1) cmd (remaining - xfer_size) t s' f)
    ]

advance_die-SamePages :
    (ssd ssd' : Ssd) (cmd : NandCmd) (latency cmd_stime t : ℕ)
    → advance_die ssd cmd latency cmd_stime ≡ some (t, ssd')
    → SamePages ssd ssd'
unfolding advance_die
advance_die-SamePages ssd ssd' cmd latency cmd_stime t h =
    given h (set_avail-SamePages ssd cmd.ppa _)

advance_write-SamePages :
    (clock : ℕ → ℕ) (ssd ssd' : Ssd) (cmd : NandCmd) (cmd_stime t : ℕ)
    → advance_write clock ssd cmd cmd_stime ≡ some (t, ssd')
    → SamePages ssd ssd'
unfolding advance_write
advance_write-SamePages clock ssd ssd' cmd cmd_stime t h =
    let chnl_stime = max (get_lun ssd cmd.ppa).next_lun_avail_time cmd_stime in
    let (r, e, f) =
      >>=-eq-some (channel_transfer ssd cmd.ppa (clock 1) chnl_stime cmd.xfer_size) _ h in
    given f (
      SamePages-trans ssd r.1 _ (channel_transfer-SamePages ssd r.1 cmd.ppa _ _ _ r.0 e)
        (set_avail-SamePages r.1 cmd.ppa _))

advance_read-SamePages :
    (clock : ℕ → ℕ) (ssd ssd' : Ssd) (cmd : NandCmd) (cell cmd_stime t : ℕ)
    → advance_read clock ssd cmd cell cmd_stime ≡ some (t, ssd')
    → SamePages ssd ssd'
unfolding advance_read
advance_read-SamePages clock ssd ssd' cmd cell cmd_stime t h =
    elim (if-eq-some (cmd.xfer_size == 0) none _ h) [
      | inl (b, m) ↦ absurd (none≢some m)
      | inr (b, m) ↦
          let (s, e, f) = >>=-eq-some (read_loop cmd.xfer_size clock 0 cmd cmd.xfer_size _) _ m in
          given f (
            SamePages-trans ssd s.ssd _
              (read_loop-SamePages cmd.xfer_size clock 0 cmd cmd.xfer_size _ s e)
              (set_avail-SamePages s.ssd cmd.ppa _))
    ]

advance_switch-SamePages :
    (clock : ℕ → ℕ) (ssd ssd' : Ssd) (cmd : NandCmd) (cell cmd_stime t : ℕ) (op : NandOp)
    → advance_switch clock ssd cmd cell cmd_stime op ≡ some (t, ssd')
    → SamePages ssd ssd'
unfolding advance_switch
advance_switch-SamePages clock ssd ssd' cmd cell cmd_stime t nand_read h =
    advance_read-SamePages clock ssd ssd' cmd cell cmd_stime t h
advance_switch-SamePages clock ssd ssd' cmd cell cmd_stime t nand_write h =
    advance_write-SamePages clock ssd ssd' cmd cmd_stime t h
advance_switch-SamePages clock ssd ssd' cmd cell cmd_stime t nand_erase h =
    advance_die-SamePages ssd ssd' cmd ssd.sp.blk_er_lat cmd_stime t h
advance_switch-SamePages clock ssd ssd' cmd cell cmd_stime t nand_nop h =
    advance_die-SamePages ssd ssd' cmd 0 cmd_stime t h

pub ssd_advance_nand-SamePages :
    (clock : ℕ → ℕ) (ssd ssd' : Ssd) (cmd : NandCmd) (t : ℕ)
    → ssd_advance_nand clock ssd cmd ≡ some (t, ssd')
    → SamePages ssd ssd'
unfolding ssd_advance_nand
ssd_advance_nand-SamePages clock ssd ssd' cmd t h =
    elim (if-eq-some (ppa_word cmd.ppa == unmapped_ppa) _ _ h) [
      | inl (b, m) ↦ given m (SamePages-refl ssd)
      | inr (b, m) ↦
          let (cell, e, f) = >>=-eq-some (get_cell ssd cmd.ppa) _ m in
          advance_switch-SamePages clock ssd ssd' cmd cell _ t cmd.op f
    ]
