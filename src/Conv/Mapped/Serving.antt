-- ===== src/Conv/Mapped/Serving.antt =====
-- NVMevirt/conv_ftl.c: the commands of a namespace keep its invariant.
use xharvest.Base.{
  ℕ, ◌+◌, ◌-◌, ◌/◌, ◌≤◌, ◌<◌, ◌≡◌, inl, inr, true, some, [], ltb, leb, ◌==◌, if◌then◌else◌, ◌&&◌,
  ◌||◌, not, refl, arith, sym, ◌∙◌, ap, Bool-cases, some_inj, if-eq-some, >>=-eq-some,
}
use mathlib.Core.Path.{subst}
use native.Mathlib.Nat.{div-lt_iff_lt-mul}
use xharvest.Ssd.Params.{SsdParams}
use xharvest.Ssd.Buffer.{Buffer, buffer_allocate}
use xharvest.Ssd.Nand.{Ssd, get_pg}
use xharvest.Ssd.Timing.{ssd_advance_write_buffer}
use xharvest.Ssd.Timing.Pages.{SamePages, ssd_advance_pcie-SamePages}
use xharvest.Conv.Ftl.{LineQueue, IsLineQueue, ConvFtl}
use xharvest.Conv.Io.{
  ConvNs, instance_of, put_instance, RwRequest, ConvReply, WriteLoop, nr_bytes, start_lpn_of,
  end_lpn_of, refused, conv_read, read_parts, write_all,
}
use xharvest.Conv.Commands.{
  write_admitted, conv_write, conv_flush, conv_proc_nvme_io_cmd, cmd_write, cmd_read, cmd_flush,
}
use xharvest.Conv.Lines.Pages.{excluded}
use xharvest.Conv.Mapped.Inside.{AreInside-same}
use xharvest.Conv.Mapped.Within.{IsInside-lines}
use xharvest.Conv.Mapped.Namespace.{
  is_written, IsServing, ArePagesWritten, write_all-ArePagesWritten,
}
use xharvest.Conv.Mapped.Unchanged.{
  IsKept, IsUnchanged, IsUnchanged-refl, put_instance-IsUnchanged, read_parts-IsUnchanged,
}

module _ {Q : Type 0} {ops : LineQueue Q} (k : IsLineQueue ops) where
  loaded-IsKept :
      (ftl : ConvFtl Q) (ssd : Ssd)
      → SamePages ftl.lm.ssd ssd
      → (let lm = ftl.lm in IsKept k ftl (record ftl { lm = record lm { ssd = ssd } }))
  unfolding get_pg
  loaded-IsKept ftl ssd s =
      let lm = ftl.lm in
      record {
        quiet = record {
          same = record {
            same_sp = s.same_sp;
            same_pages = λ q. ap (λ b. b.pages q.pg) (s.same_blk q);
            same_maptbl = refl;
            same_rmap = refl;
          };
          same_wp = refl;
          same_gc_wp = refl;
        };
        stays = λ n i.
            IsInside-lines k n ftl (record ftl { lm = record lm { ssd = ssd } }) s.same_sp
              (AreInside-same k n lm (record lm { ssd = ssd }) refl (λ j. refl) i.lines) refl refl
              i;
      }

  -- How many pages the loop of a write has.
  abbrev rounds : ConvNs Q → RwRequest → ℕ
  rounds ns req = let spp = (ns.ftls 0).lm.ssd.sp in end_lpn_of spp req + 1 - start_lpn_of spp req

  write_admitted-ArePagesWritten :
      (clock : ℕ → ℕ → ℕ → ℕ) (now : ℕ) (ns : ConvNs Q) (req : RwRequest) (reply : ConvReply Q)
      → 0 < ns.nr_parts
      → (let spp = (ns.ftls 0).lm.ssd.sp in end_lpn_of spp req / ns.nr_parts < spp.tt_pgs)
      → IsServing k ns
      → write_admitted ops clock now ns req ≡ some reply
      → (reply.served ≡ true)
        × (let spp = (ns.ftls 0).lm.ssd.sp in
            ArePagesWritten k ns reply.ns (start_lpn_of spp req) (rounds ns req))
  unfolding write_admitted ssd_advance_write_buffer
  write_admitted-ArePagesWritten clock now ns req reply some_parts range s h =
      let ftl0 = instance_of ns 0 in
      let lm0 = ftl0.lm in
      let spp = lm0.ssd.sp in
      let first = start_lpn_of spp req in
      let n = rounds ns req in
      let ((t, ssd), e, h1) =
        >>=-eq-some (ssd_advance_write_buffer lm0.ssd now req.nsecs_start (nr_bytes req)) _ h in
      let ftl0' : ConvFtl Q = record ftl0 { lm = record lm0 { ssd = ssd } } in
      let loaded = put_instance ns 0 ftl0' in
      let begin : WriteLoop Q = record { ns = loaded; nsecs_latest = t; releases = [] } in
      let (w, e2, h2) = >>=-eq-some (write_all ops clock t n first begin) _ h1 in
      let u =
        put_instance-IsUnchanged k ns 0 ftl0' some_parts
          (loaded-IsKept ftl0 ssd (ssd_advance_pcie-SamePages lm0.ssd ssd now _ (nr_bytes req) t e))
          s in
      let below : (j : ℕ) → first ≤ j → j < first + n → j / ns.nr_parts < spp.tt_pgs = λ j a b.
        let limit = (div-lt_iff_lt-mul some_parts).0 range in
        (div-lt_iff_lt-mul some_parts).1 (omega (arith, limit, a, b)) in
      let done =
        write_all-ArePagesWritten k clock t n first begin w some_parts
          (λ j a b.
            subst (λ (sp : SsdParams). j / ns.nr_parts < sp.tt_pgs) (sym u.same_params)
              (below j a b))
          u.serving e2 in
      subst (λ (x : ConvReply Q). (x.served ≡ true) × ArePagesWritten k ns x.ns first n)
        (some_inj h2)
        (
          refl,
          record {
            serving = done.serving;
            same_parts = done.same_parts ∙ u.same_parts;
            written = done.written;
            others = λ j a. done.others j a ∙ u.same_written j;
          },
        )

  -- A refused write.
  nothing-ArePagesWritten :
      (ns ns' : ConvNs Q) (lpn : ℕ) → IsUnchanged k ns ns' → ArePagesWritten k ns ns' lpn 0
  nothing-ArePagesWritten ns ns' lpn u = record {
    serving = u.serving;
    same_parts = u.same_parts;
    written = λ j a b. absurd (omega (arith, a, b));
    others = λ j a. u.same_written j;
  }

  with_buffer-IsUnchanged :
      (ns : ConvNs Q) (buf : Buffer)
      → IsServing k ns
      → IsUnchanged k ns (record ns { write_buffer = buf })
  unfolding is_written
  with_buffer-IsUnchanged ns buf s = record {
    serving = record { parts = s.parts; params = s.params };
    same_parts = refl;
    same_params = refl;
    same_written = λ j. refl;
  }

  -- A write with a reply keeps the invariant. If it was served, its pages have been written, and of
  -- the others the same as before; if it was refused, the same pages as before.
  pub conv_write-ArePagesWritten :
      (clock : ℕ → ℕ → ℕ → ℕ) (now : ℕ) (ns : ConvNs Q) (req : RwRequest) (reply : ConvReply Q)
      → IsServing k ns
      → conv_write ops clock now ns req ≡ some reply
      → (let spp = (ns.ftls 0).lm.ssd.sp in
          ArePagesWritten k ns reply.ns
            (start_lpn_of spp req)
            (if reply.served then end_lpn_of spp req + 1 - start_lpn_of spp req else 0))
  unfolding conv_write
  conv_write-ArePagesWritten clock now ns req reply s h =
      let spp = (ns.ftls 0).lm.ssd.sp in
      let first = start_lpn_of spp req in
      let n = rounds ns req in
      let (allocated, buf) = buffer_allocate ns.write_buffer (nr_bytes req) in
      let ns' = record ns { write_buffer = buf } in
      let u = with_buffer-IsUnchanged ns buf s in
      let Done = λ (x : ConvReply Q). ArePagesWritten k ns x.ns first (if x.served then n else 0) in
      let (z, h1) = excluded (ns.nr_parts == 0 || spp.secs_per_pg == 0) _ h in
      let some_parts : 0 < ns.nr_parts = ground arith in
      let out = not (ltb (end_lpn_of spp req / ns.nr_parts) spp.tt_pgs) in
      elim (if-eq-some out (some (refused ns)) _ h1) [
        | inl (b, q) ↦
            subst Done (some_inj q) (nothing-ArePagesWritten ns ns first (IsUnchanged-refl k ns s))
        | inr (b, h2) ↦ elim (if-eq-some (ltb allocated (nr_bytes req)) (some (refused ns')) _ h2) [
          | inl (c, q) ↦ subst Done (some_inj q) (nothing-ArePagesWritten ns ns' first u)
          | inr (c, q) ↦
              let in_range : end_lpn_of spp req / ns.nr_parts < spp.tt_pgs = ground arith in
              let (served, w) =
                write_admitted-ArePagesWritten clock now ns' req reply some_parts in_range u.serving
                  q in
              rw served (record {
                serving = w.serving;
                same_parts = w.same_parts;
                written = w.written;
                others = λ j a. w.others j a ∙ u.same_written j;
              })
        ]
      ]

  conv_read-IsUnchanged :
      (clock : ℕ → ℕ → ℕ → ℕ) (ns : ConvNs Q) (req : RwRequest) (reply : ConvReply Q)
      → IsServing k ns
      → conv_read clock ns req ≡ some reply
      → IsUnchanged k ns reply.ns
  unfolding conv_read
  conv_read-IsUnchanged clock ns req reply s h =
      let spp = (ns.ftls 0).lm.ssd.sp in
      let Same = λ (x : ConvReply Q). IsUnchanged k ns x.ns in
      let (z, h1) =
        excluded (ns.nr_parts == 0 || spp.secs_per_pg == 0 || spp.pgs_per_flashpg == 0) _ h in
      let some_parts : 0 < ns.nr_parts = ground arith in
      let end = end_lpn_of spp req in
      elim (if-eq-some (not (ltb (end / ns.nr_parts) spp.tt_pgs)) (some (refused ns)) _ h1) [
        | inl (b, q) ↦ subst Same (some_inj q) (IsUnchanged-refl k ns s)
        | inr (b, q) ↦
            let ((ns', latest), e, h2) = >>=-eq-some (read_parts clock _ ns.nr_parts _ end _) _ q in
            subst Same (some_inj h2) (
              read_parts-IsUnchanged k clock _ ns.nr_parts _ end req.nsecs_start latest ns ns'
                some_parts s e)
      ]

  -- Every command with a reply, whatever its opcode, keeps the invariant of the namespace, and the
  -- pages that have been written stay so.
  pub conv_proc_nvme_io_cmd-IsServing :
      (clock : ℕ → ℕ → ℕ → ℕ) (now : ℕ → ℕ) (ns : ConvNs Q) (opcode : ℕ) (req : RwRequest)
      (target : ℕ) (reply : ConvReply Q)
      → IsServing k ns
      → conv_proc_nvme_io_cmd ops clock now ns opcode req target ≡ some reply
      → IsServing k reply.ns × ((j : ℕ) → is_written ns j ≡ true → is_written reply.ns j ≡ true)
  unfolding conv_proc_nvme_io_cmd conv_flush
  conv_proc_nvme_io_cmd-IsServing clock now ns opcode req target reply s h =
      let Good = λ (x : ConvReply Q).
        IsServing k x.ns × ((j : ℕ) → is_written ns j ≡ true → is_written x.ns j ≡ true) in
      let same : IsServing k ns × ((j : ℕ) → is_written ns j ≡ true → is_written ns j ≡ true) =
        (s, λ j w. w) in
      elim (if-eq-some (opcode == cmd_write) (conv_write ops clock (now 0) ns req) _ h) [
        | inl (a, q) ↦ written clock (now 0) ns req reply s q
        | inr (a, h1) ↦ elim (if-eq-some (opcode == cmd_read) (conv_read clock ns req) _ h1) [
          | inl (b, q) ↦
              let u = conv_read-IsUnchanged clock ns req reply s q in
              (u.serving, λ j w. u.same_written j ∙ w)
          | inr (b, h2) ↦ elim (if-eq-some (opcode == cmd_flush) (some (conv_flush ns now)) _ h2) [
            | inl (c, q) ↦ subst Good (some_inj q) same
            | inr (c, q) ↦ subst Good (some_inj q) same
          ]
        ]
      ]
    where
      written :
          (clock : ℕ → ℕ → ℕ → ℕ) (now : ℕ) (ns : ConvNs Q) (req : RwRequest) (reply : ConvReply Q)
          → IsServing k ns
          → conv_write ops clock now ns req ≡ some reply
          → IsServing k reply.ns × ((j : ℕ) → is_written ns j ≡ true → is_written reply.ns j ≡ true)
      written clock now ns req reply s h =
          let w = conv_write-ArePagesWritten clock now ns req reply s h in
          let spp = (ns.ftls 0).lm.ssd.sp in
          let a = start_lpn_of spp req in
          let n = if reply.served then rounds ns req else 0 in
          (
            w.serving,
            λ j before. elim (Bool-cases (leb a j && ltb j (a + n))) [
              | inl e ↦ w.written j (ground arith) (ground arith)
              | inr e ↦ w.others j (ground arith) ∙ before
            ],
          )
