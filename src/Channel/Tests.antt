-- ===== src/Channel/Tests.antt =====
-- Runs of the channel model, for the PCIe link of the Samsung 970 PRO.
use xharvest.Base.{ℕ, ◌≡◌, some, refl, arith}
use xharvest.Channel.{
  ChannelModel, chmodel_init, chmodel_request, Progress, transfer_loop, nr_credit_entries,
}
use xharvest.Channel.Transfer.{Transferred, transfer_loop-Transferred}
use xharvest.Channel.Request.{
  Served, Granted, chmodel_init-IsValid, chmodel_request-Served, chmodel_request-Granted,
}

abbrev link : ChannelModel
link = chmodel_init 3360

link_credits : (link.max_credits ≡ 110) × (link.avail_credits 7 ≡ 110) × (link.xfer_lat ≡ 36)
unfolding chmodel_init
link_credits = (refl, refl, refl)

chmodel_request-Served_example :
    (r : ℕ × ChannelModel) × (chmodel_request link 5000 9000 4096 ≡ some r)
    × Served link 5000 9000 4096 r
chmodel_request-Served_example =
    chmodel_request-Served link 5000 9000 4096
      (chmodel_init-IsValid 3360 (omega arith) (omega arith)) (omega arith)

chmodel_request-Granted_example :
    (r : ℕ × ChannelModel) × (chmodel_request link 5000 9000 4096 ≡ some r)
    × Granted link 5000 9000 4096 r
chmodel_request-Granted_example =
    chmodel_request-Granted link 5000 9000 4096
      (chmodel_init-IsValid 3360 (omega arith) (omega arith)) (omega arith) (omega arith)
      (omega arith)

-- A demand of more than one interval's credits.
abbrev start : Progress
start = record { credits = λ j. 110; remaining = 300; pos = 5; delay = 0 }

transfer_loop-Transferred_example :
    (r : Progress) × (k : ℕ) × (transfer_loop nr_credit_entries 5 start ≡ some r)
    × Transferred 5 start r k
transfer_loop-Transferred_example =
    transfer_loop-Transferred nr_credit_entries 5 start (omega arith) (omega arith) (omega arith)
      (omega arith)
