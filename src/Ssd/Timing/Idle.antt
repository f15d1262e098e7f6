-- ===== src/Ssd/Timing/Idle.antt =====
-- ssd_next_idle_time is the latest of the clock and of the dies' times.
use xharvest.Base.{lt_or_eq, max_cases, ℕ, zero, suc, ◌≤◌, ◌<◌, ◌≡◌, ◌⊎◌, inl, inr, refl, arith}
use xharvest.Ssd.Nand.{Ssd, SsdChannel, NandLun}
use xharvest.Ssd.Timing.{latest_of_luns, latest_of_channels, ssd_next_idle_time}

luns-le : (luns : ℕ → NandLun) (n now : ℕ) → now ≤ latest_of_luns luns n now
unfolding latest_of_luns
luns-le luns zero now = omega arith
luns-le luns (suc n) now = omega (arith, luns-le luns n now)

luns-ge :
    (luns : ℕ → NandLun) (n now l : ℕ)
    → l < n
    → (luns l).next_lun_avail_time ≤ latest_of_luns luns n now
unfolding latest_of_luns
luns-ge luns zero now l h = absurd (omega arith)
luns-ge luns (suc n) now l h = grind (arith, luns-ge luns n now l)

channels-le :
    (channels : ℕ → SsdChannel) (nluns n now : ℕ) → now ≤ latest_of_channels channels nluns n now
unfolding latest_of_channels
channels-le channels nluns zero now = omega arith
channels-le channels nluns (suc n) now = omega (
  arith,
  channels-le channels nluns n now,
  luns-le (channels n).luns nluns (latest_of_channels channels nluns n now),
)

channels-ge :
    (channels : ℕ → SsdChannel) (nluns n now c l : ℕ)
    → c < n
    → l < nluns
    → ((channels c).luns l).next_lun_avail_time ≤ latest_of_channels channels nluns n now
unfolding latest_of_channels
channels-ge channels nluns zero now c l h k = absurd (omega arith)
channels-ge channels nluns (suc n) now c l h k = elim (lt_or_eq c n h) [
  | inl lt ↦ omega (
    arith,
    channels-ge channels nluns n now c l lt k,
    luns-le (channels n).luns nluns (latest_of_channels channels nluns n now),
  )
  | inr e ↦ rw e (luns-ge (channels n).luns nluns (latest_of_channels channels nluns n now) l k)
]

luns_attained :
    (luns : ℕ → NandLun) (n now : ℕ)
    → (latest_of_luns luns n now ≡ now)
      ⊎ ((l : ℕ) × (l < n) × (latest_of_luns luns n now ≡ (luns l).next_lun_avail_time))
unfolding latest_of_luns
luns_attained luns zero now = inl refl
luns_attained luns (suc n) now =
    elim (max_cases (latest_of_luns luns n now) (luns n).next_lun_avail_time) [
      | inr e ↦ inr (n, omega arith, e)
      | inl e ↦ elim (luns_attained luns n now) [
        | inl f ↦ inl (omega arith)
        | inr (l, h, f) ↦ inr (l, omega arith, omega arith)
      ]
    ]

channels_attained :
    (channels : ℕ → SsdChannel) (nluns n now : ℕ)
    → (latest_of_channels channels nluns n now ≡ now)
      ⊎ ((c l : ℕ) × (c < n)
          × (l < nluns)
          × (latest_of_channels channels nluns n now ≡ ((channels c).luns l).next_lun_avail_time))
unfolding latest_of_channels
channels_attained channels nluns zero now = inl refl
channels_attained channels nluns (suc n) now =
    elim (luns_attained (channels n).luns nluns (latest_of_channels channels nluns n now)) [
      | inr (l, h, e) ↦ inr (n, l, omega arith, h, e)
      | inl e ↦ elim (channels_attained channels nluns n now) [
        | inl f ↦ inl (omega arith)
        | inr (c, l, h, k, f) ↦ inr (c, l, omega arith, k, omega arith)
      ]
    ]

-- The time at which the whole SSD is idle is not before the clock nor before any die is free, and it
-- is one of these.
pub ssd_next_idle_time_lem :
    (ssd : Ssd) (now : ℕ)
    → (now ≤ ssd_next_idle_time ssd now)
      × ((c l : ℕ)
          → c < ssd.sp.nchs
          → l < ssd.sp.luns_per_ch
          → ((ssd.channels c).luns l).next_lun_avail_time ≤ ssd_next_idle_time ssd now)
      × ((ssd_next_idle_time ssd now ≡ now)
          ⊎ ((c l : ℕ) × (c < ssd.sp.nchs)
              × (l < ssd.sp.luns_per_ch)
              × (ssd_next_idle_time ssd now ≡ ((ssd.channels c).luns l).next_lun_avail_time)))
unfolding ssd_next_idle_time
ssd_next_idle_time_lem ssd now = (
  channels-le ssd.channels ssd.sp.luns_per_ch ssd.sp.nchs now,
  λ c l h k. channels-ge ssd.channels ssd.sp.luns_per_ch ssd.sp.nchs now c l h k,
  channels_attained ssd.channels ssd.sp.luns_per_ch ssd.sp.nchs now,
)
