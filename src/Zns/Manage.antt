-- ===== src/Zns/Manage.antt =====
-- NVMevirt/zns_mgmt_send.c: the zone management commands.
-- A result is the status and the new FTL; `none` is a failed `ASSERT`, or an index past the zones,
-- which the code does not check.
pub mod Count
pub mod Accounting
pub mod Release
pub mod Closing
pub mod Opening
pub mod Flush
pub mod Commands
use xharvest.Base.{
  ℕ, zero, suc, ◌+◌, ◌-◌, ◌*◌, ◌%◌, min, Bool, true, false, Option, none, some, ltb, leb, ◌==◌,
  if◌then◌else◌, u64, sub64, update, fill, ◌>>=◌, ◌&&◌, not,
}
use xharvest.Ssd.Buffer.{buffer_refill}
use xharvest.Zns.{
  ZnsFtl, ZoneState, empty, opened_impl, opened_expl, closed, read_only, full, offline, Status,
  success, invalid_field, invalid_zone_operation, zrwa_rsrc_unavail, no_active_zone, no_open_zone,
  invalid_transition, active_zone, open_zone, zrwa_zone, is_zone_resource_full,
  acquire_zone_resource, release_zone_resource, set_zone, change_zone_state, lba_to_zone,
  zone_to_slba,
}

abbrev pub Reply : Type 0
Reply = Option (Status × ZnsFtl)

unfoldable pub close_zone : ZnsFtl → ℕ → ZoneState → Reply
close_zone ftl zid opened_impl = do
  ftl' ← release_zone_resource (change_zone_state ftl zid closed) open_zone
  some (success, ftl')
close_zone ftl zid opened_expl = do
  ftl' ← release_zone_resource (change_zone_state ftl zid closed) open_zone
  some (success, ftl')
close_zone ftl zid closed = some (success, ftl)
close_zone ftl zid _ = some (invalid_transition, ftl)

-- What the cases of an opened and of a closed zone share: the resources of an active zone go back.
unfoldable pub release_active : ZnsFtl → Bool → Option ZnsFtl
release_active ftl is_zrwa_zone = do
  ftl' ← release_zone_resource ftl active_zone
  if is_zrwa_zone then release_zone_resource ftl' zrwa_zone else some ftl'

unfoldable pub release_opened : ZnsFtl → Bool → Option ZnsFtl
unfolding release_active
release_opened ftl is_zrwa_zone = do
  ftl' ← release_zone_resource ftl open_zone
  release_active ftl' is_zrwa_zone

-- How many resources a zone in this state gives back when it stops being active.
unfoldable pub release_of : ZnsFtl → Bool → ZoneState → Option ZnsFtl
unfolding release_opened
release_of ftl is_zrwa_zone opened_impl = release_opened ftl is_zrwa_zone
release_of ftl is_zrwa_zone opened_expl = release_opened ftl is_zrwa_zone
release_of ftl is_zrwa_zone closed = release_active ftl is_zrwa_zone
release_of ftl is_zrwa_zone _ = some ftl

unfoldable pub finish_zone : ZnsFtl → ℕ → ZoneState → Reply
finish_zone ftl zid full = some (success, ftl)
finish_zone ftl zid read_only = some (invalid_transition, ftl)
finish_zone ftl zid offline = some (invalid_transition, ftl)
finish_zone ftl zid state = do
  ftl' ← release_of ftl (ftl.zone_descs zid).zrwav state
  some (success, change_zone_state ftl' zid full)

-- The end of the fall-through: an open resource, then the state.
unfoldable pub open_closed : ZnsFtl → ℕ → Reply
open_closed ftl zid =
    let (acquired, ftl') = acquire_zone_resource ftl open_zone in
    if acquired
    then some (success, change_zone_state ftl' zid opened_expl)
    else some (no_open_zone, ftl)

unfoldable pub open_empty : ZnsFtl → ℕ → Bool → Reply
unfolding open_closed
open_empty ftl zid zrwa =
    let plain = (acquire_zone_resource ftl active_zone).1 in
    let d = ftl.zone_descs zid in
    let marked = set_zone (acquire_zone_resource ftl zrwa_zone).1 zid (record d { zrwav = true }) in
    let with_zrwa = (acquire_zone_resource marked active_zone).1 in
    if is_zone_resource_full ftl active_zone
    then some (no_active_zone, ftl)
    else if is_zone_resource_full ftl open_zone
    then some (no_open_zone, ftl)
    else if not zrwa
    then open_closed plain zid
    else if is_zone_resource_full ftl zrwa_zone
    then some (zrwa_rsrc_unavail, ftl)
    else open_closed with_zrwa zid

unfoldable pub open_zone_cmd : ZnsFtl → ℕ → Bool → ZoneState → Reply
unfolding open_empty
open_zone_cmd ftl zid zrwa empty = open_empty ftl zid zrwa
open_zone_cmd ftl zid zrwa closed = open_closed ftl zid
open_zone_cmd ftl zid zrwa opened_impl = some (success, change_zone_state ftl zid opened_expl)
open_zone_cmd ftl zid zrwa opened_expl = some (success, ftl)
open_zone_cmd ftl zid zrwa _ = some (invalid_transition, ftl)

-- `__reset_zone`: the zone's bytes are cleared and its write pointer goes back.
unfoldable pub clear_zone : ZnsFtl → ℕ → ZnsFtl
clear_zone ftl zid =
    let d = ftl.zone_descs zid in
    let cleared = set_zone ftl zid (record d { wp = d.zslba; zrwav = false }) in
    record cleared {
      storage = fill ftl.storage (zid * ftl.zp.zone_size) 0 ftl.zp.zone_size;
      zrwa_buffer =
          if ftl.zp.zrwa_buffer_size == 0
          then ftl.zrwa_buffer
          else update ftl.zrwa_buffer zid (buffer_refill (ftl.zrwa_buffer zid));
    }

unfoldable pub reset_zone : ZnsFtl → ℕ → ZoneState → Reply
reset_zone ftl zid read_only = some (invalid_transition, ftl)
reset_zone ftl zid offline = some (invalid_transition, ftl)
reset_zone ftl zid state = do
  ftl' ← release_of ftl (ftl.zone_descs zid).zrwav state
  some (success, clear_zone (change_zone_state ftl' zid empty) zid)

unfoldable pub offline_zone : ZnsFtl → ℕ → ZoneState → Reply
offline_zone ftl zid read_only = some (success, change_zone_state ftl zid offline)
offline_zone ftl zid offline = some (success, ftl)
offline_zone ftl zid _ = some (invalid_transition, ftl)

-- The switch of the explicit flush: the write pointer moves past `slba`, and a zone that is full
-- gives its resources back.
unfoldable pub flush_to : ZnsFtl → ℕ → ℕ → ZoneState → Reply
flush_to ftl zid slba state =
    let d = ftl.zone_descs zid in
    let moved = set_zone ftl zid (record d { wp = u64 (slba + 1) }) in
    let fill_up : Reply = do
      ftl' ← release_of moved true state
      some (success, change_zone_state ftl' zid full)
    in if u64 (slba + 1) == u64 (zone_to_slba ftl zid + d.zone_capacity)
      then fill_up
      else some (success, moved)

unfoldable pub flush_state : ZnsFtl → ℕ → ℕ → ZoneState → Reply
flush_state ftl zid slba opened_expl = flush_to ftl zid slba opened_expl
flush_state ftl zid slba opened_impl = flush_to ftl zid slba opened_impl
flush_state ftl zid slba closed = flush_to ftl zid slba closed
flush_state ftl zid slba _ = some (invalid_zone_operation, ftl)

-- `if (!(zone_descs[zid].wp <= slba && slba <= zrwa_end))`
unfoldable pub in_zrwa : ZnsFtl → ℕ → ℕ → Bool
in_zrwa ftl zid slba =
    let d = ftl.zone_descs zid in
    let zrwa_end =
      min (sub64 (u64 (d.wp + ftl.zp.lbas_per_zrwa)) 1)
        (sub64 (u64 (zone_to_slba ftl zid + d.zone_capacity)) 1) in
    leb d.wp slba && leb slba zrwa_end

unfoldable pub nr_lbas_flush : ZnsFtl → ℕ → ℕ → ℕ
nr_lbas_flush ftl zid slba = u64 (sub64 slba (ftl.zone_descs zid).wp + 1)

unfoldable pub flush_explicit_zrwa : ZnsFtl → ℕ → Reply
flush_explicit_zrwa ftl slba =
    let zid = lba_to_zone ftl slba in
    let d = ftl.zone_descs zid in
    if not d.zrwav
    then some (invalid_zone_operation, ftl)
    else if not (in_zrwa ftl zid slba)
    then some (invalid_zone_operation, ftl)
    else if ftl.zp.lbas_per_zrwafg == 0
    then none
    else if not (nr_lbas_flush ftl zid slba % ftl.zp.lbas_per_zrwafg == 0)
    then some (invalid_field, ftl)
    else flush_state ftl zid slba d.state

pub data Action : Type 0 where
  close_action finish_action open_action reset_action offline_action flush_action : Action

-- `option` is the command's `zsaso`: whether a zone is opened with a random write area.
unfoldable pub zmgmt_dispatch : ZnsFtl → ℕ → Action → Bool → ℕ → ZoneState → Reply
zmgmt_dispatch ftl slba close_action option zid state = close_zone ftl zid state
zmgmt_dispatch ftl slba finish_action option zid state = finish_zone ftl zid state
zmgmt_dispatch ftl slba open_action option zid state = open_zone_cmd ftl zid option state
zmgmt_dispatch ftl slba reset_action option zid state = reset_zone ftl zid state
zmgmt_dispatch ftl slba offline_action option zid state = offline_zone ftl zid state
zmgmt_dispatch ftl slba flush_action option zid state = flush_explicit_zrwa ftl slba

-- `__zmgmt_send`
unfoldable pub zmgmt_send_zone : ZnsFtl → ℕ → Action → Bool → Reply
zmgmt_send_zone ftl slba action option =
    let zid = lba_to_zone ftl slba in
    if ltb zid ftl.zp.nr_zones
    then zmgmt_dispatch ftl slba action option zid (ftl.zone_descs zid).state
    else none

-- The loop of `select_all` from zone `zid` on, over the `n` zones that are left.
unfoldable pub zmgmt_send_all : ℕ → ℕ → ZnsFtl → Action → Bool → Option ZnsFtl
zmgmt_send_all zero zid ftl action option = some ftl
zmgmt_send_all (suc n) zid ftl action option = do
  (status, ftl') ← zmgmt_send_zone ftl (zone_to_slba ftl zid) action option
  zmgmt_send_all n (zid + 1) ftl' action option

-- The command completes at its start time. With `select_all` the zones' own statuses are dropped.
unfoldable pub zns_zmgmt_send : ZnsFtl → ℕ → Bool → Action → Bool → Reply
zns_zmgmt_send ftl slba select_all action option =
    let all = (do
      ftl' ← zmgmt_send_all ftl.zp.nr_zones 0 ftl action option
      some (success, ftl')) in
    if select_all then all else zmgmt_send_zone ftl slba action option
