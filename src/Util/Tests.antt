-- ===== src/Util/Tests.antt =====
-- The theorems on powers at a power that wraps.
use libnodecc.Prelude.{◌%◌, ◌^◌, ◌≡◌, arith}
use libnodecc.Util.Power.{size_mod, ipow, ipow_lem}

ipow_lem_example : ipow 10 20 ≡ 10 ^ 20 % size_mod
ipow_lem_example = ipow_lem 10 20 (omega arith)
