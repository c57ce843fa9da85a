-- ===== src/Format/Times.antt =====
-- The parts of a time.
use mapper.Prelude.{ℕ, ◌+◌, ◌*◌, ◌<◌, ◌≡◌, arith}
use mapper.Format.{wdhm_parts}

-- The parts that `wdhm` shows make up the time, with fewer than 7 days, 24 hours, 60 minutes and 60
-- seconds.
pub wdhm_parts_lem :
    (time : ℕ)
    → (((wdhm_parts time).w * 604800
          + (wdhm_parts time).d * 86400
          + (wdhm_parts time).h * 3600
          + (wdhm_parts time).m * 60
          + (wdhm_parts time).s)
        ≡ time)
      × ((wdhm_parts time).d < 7)
      × ((wdhm_parts time).h < 24)
      × ((wdhm_parts time).m < 60)
      × ((wdhm_parts time).s < 60)
unfolding wdhm_parts
wdhm_parts_lem time = omega arith
