-- ===== src/Conv/Lines.antt =====
-- NVMevirt/conv_ftl.c: pages become valid, invalid and free, with the counters of blocks and lines.
-- The victim queue is the library's priority queue over the lines, which calls back to set a line's
-- position (`pos`) and its priority (`vpc`): a parameter of the model.
pub mod Counts
pub mod Marks
pub mod Invalid
pub mod Erase
pub mod Pages
mod Tests
use xharvest.Base.{
  ℕ, zero, suc, ◌+◌, ◌-◌, ◌≡◌, ◌≢◌, Bool, true, false, Option, none, some, List, [], ◌∷◌, ltb, ◌==◌,
  if◌then◌else◌, update, ◌>>=◌, ◌&&◌, ◌||◌, not, u32, sub32, fill, ◌++◌,
}
use xharvest.Ssd.Nand.{
  Ppa, PageStatus, pg_free, pg_invalid, pg_valid, NandBlock, Ssd, get_pg, get_blk, set_pg, set_blk,
}

pub record Line : Type 0 where
  pub id : ℕ
  pub ipc : ℕ
  pub vpc : ℕ
  pub pos : ℕ

-- The calls of the priority queue that this code makes.
pub record VictimQueue (Q : Type 0) : Type 0 where
  pub insert : Q → (ℕ → Line) → ℕ → Q × (ℕ → Line)
  pub change_priority : Q → (ℕ → Line) → ℕ → ℕ → Q × (ℕ → Line)

-- What the queue does to the lines through its callbacks: an insertion only moves positions, and a
-- change of priority also sets the priority of that line.
pub record IsVictimQueue {Q : Type 0} (ops : VictimQueue Q) : Type 0 where
  pub insert_vpc :
      (q : Q) (lines : ℕ → Line) (i j : ℕ) → ((ops.insert q lines i).1 j).vpc ≡ (lines j).vpc
  pub insert_ipc :
      (q : Q) (lines : ℕ → Line) (i j : ℕ) → ((ops.insert q lines i).1 j).ipc ≡ (lines j).ipc
  pub change_self :
      (q : Q) (lines : ℕ → Line) (pri i : ℕ) → ((ops.change_priority q lines pri i).1 i).vpc ≡ pri
  pub change_vpc :
      (q : Q) (lines : ℕ → Line) (pri i j : ℕ)
      → j ≢ i
      → ((ops.change_priority q lines pri i).1 j).vpc ≡ (lines j).vpc
  pub change_ipc :
      (q : Q) (lines : ℕ → Line) (pri i j : ℕ)
      → ((ops.change_priority q lines pri i).1 j).ipc ≡ (lines j).ipc

-- The SSD and the line management; the lists hold the lines' numbers.
pub record LineState (Q : Type 0) : Type 0 where
  pub ssd : Ssd
  pub lines : ℕ → Line
  pub victim_line_pq : Q
  pub free_line_list : List ℕ
  pub full_line_list : List ℕ
  pub free_line_cnt : ℕ
  pub victim_line_cnt : ℕ
  pub full_line_cnt : ℕ

abbrev pub is_free : PageStatus → Bool
is_free pg_free = true
is_free _ = false

abbrev pub is_valid : PageStatus → Bool
is_valid pg_valid = true
is_valid _ = false

abbrev pub set_line : {Q : Type 0} → LineState Q → ℕ → Line → LineState Q
set_line s i line = record s { lines = update s.lines i line }

-- `none` is a failed assertion, in the order of the code.
unfoldable pub mark_page_valid : {Q : Type 0} → LineState Q → Ppa → Option (LineState Q)
mark_page_valid s p =
    let spp = s.ssd.sp in
    let ssd1 = set_pg s.ssd p pg_valid in
    let b = get_blk ssd1 p in
    let ssd2 = set_blk ssd1 p (record b { vpc = b.vpc + 1 }) in
    let line = s.lines p.blk in
    let s' = record s { ssd = ssd2 } in
    if not (is_free (get_pg s.ssd p))
    then none
    else if not (ltb b.vpc spp.pgs_per_blk)
    then none
    else if not (ltb line.vpc spp.pgs_per_line)
    then none
    else some (set_line s' p.blk (record line { vpc = line.vpc + 1 }))

-- `list_del_init`: the entry leaves its list.
unfoldable pub list_del : List ℕ → ℕ → List ℕ
list_del [] i = []
list_del (j ∷ js) i = let rest = list_del js i in if j == i then js else j ∷ rest

-- The line loses a valid page: through the queue if it is in it.
unfoldable pub lower_vpc : {Q : Type 0} → VictimQueue Q → LineState Q → ℕ → LineState Q
lower_vpc ops s i =
    let line = s.lines i in
    let (q, lines) = ops.change_priority s.victim_line_pq s.lines (line.vpc - 1) i in
    if line.pos == 0
    then set_line s i (record line { vpc = line.vpc - 1 })
    else record s { victim_line_pq = q; lines = lines }

-- A line that was full moves to the victims.
unfoldable pub full_to_victim : {Q : Type 0} → VictimQueue Q → LineState Q → ℕ → LineState Q
full_to_victim ops s i =
    let (q, lines) = ops.insert s.victim_line_pq s.lines i in
    record s {
      full_line_list = list_del s.full_line_list i;
      full_line_cnt = sub32 s.full_line_cnt 1;
      victim_line_pq = q;
      lines = lines;
      victim_line_cnt = u32 (s.victim_line_cnt + 1);
    }

unfoldable pub mark_page_invalid :
    {Q : Type 0} → VictimQueue Q → LineState Q → Ppa → Option (LineState Q)
mark_page_invalid ops s p =
    let spp = s.ssd.sp in
    let ssd1 = set_pg s.ssd p pg_invalid in
    let b = get_blk ssd1 p in
    let ssd2 = set_blk ssd1 p (record b { ipc = b.ipc + 1; vpc = b.vpc - 1 }) in
    let line = s.lines p.blk in
    let was_full_line = line.vpc == spp.pgs_per_line in
    let s1 = set_line (record s { ssd = ssd2 }) p.blk (record line { ipc = line.ipc + 1 }) in
    let s2 = lower_vpc ops s1 p.blk in
    if not (is_valid (get_pg s.ssd p))
    then none
    else if not (ltb b.ipc spp.pgs_per_blk) || b.vpc == 0 || ltb spp.pgs_per_blk b.vpc
    then none
    else if not (ltb line.ipc spp.pgs_per_line) || was_full_line && not (line.ipc == 0)
    then none
    else if line.vpc == 0 || ltb spp.pgs_per_line line.vpc
    then none
    else some (if was_full_line then full_to_victim ops s2 p.blk else s2)

-- The pages and counters of the block; its wear counter goes up.
unfoldable pub mark_block_free : {Q : Type 0} → LineState Q → Ppa → Option (LineState Q)
mark_block_free s p =
    let b = get_blk s.ssd p in
    let freed = record b {
      pages = fill b.pages 0 pg_free s.ssd.sp.pgs_per_blk;
      ipc = 0;
      vpc = 0;
      erase_cnt = b.erase_cnt + 1;
    } in
    if b.npgs == s.ssd.sp.pgs_per_blk then some (record s { ssd = set_blk s.ssd p freed }) else none

unfoldable pub mark_line_free : {Q : Type 0} → LineState Q → Ppa → LineState Q
mark_line_free s p =
    let line = s.lines p.blk in
    let s' = set_line s p.blk (record line { ipc = 0; vpc = 0 }) in
    record s' {
      free_line_list = s.free_line_list ++ (p.blk ∷ []);
      free_line_cnt = u32 (s.free_line_cnt + 1);
    }

-- The first free line, if there is one.
unfoldable pub get_next_free_line : {Q : Type 0} → LineState Q → Option (ℕ × LineState Q)
get_next_free_line s = elim s.free_line_list [
  | [] ↦ none
  | i ∷ rest ↦ some (i, record s { free_line_list = rest; free_line_cnt = sub32 s.free_line_cnt 1 })
]
