-- ===== src/Daemon/Tests/Blocks.antt =====
-- A chain that makes a block in every second sleep.
use cw_orchestrator.Common.{ℕ, ◌+◌, ◌≡◌, ◌≤◌, refl, arith, true, ok, ◌/◌}
use cw_orchestrator.Daemon.Core.{Node, wait_blocks}
use cw_orchestrator.Daemon.Core.Waiting.{IsGrowing, rounds_for, wait_blocks-returns}

abbrev height : ℕ → ℕ
height n = n / 2

abbrev clock : Node ℕ (Unit {0}) (Unit {0})
clock = record {
  block_height = λ n. (ok (height n), n);
  average_block_speed = λ multiplier n. (ok tt, n);
  nine_tenths = tt;
  mul = λ t k. t;
  sleep = λ t n. n + 1;
  code = λ id n. (true, n);
}

growing : IsGrowing clock height 1
growing = record {
  answers = λ n. refl;
  speed = λ n. tt;
  speed_of = λ n. refl;
  stays = λ t n. omega arith;
  grows = λ m n. omega arith;
}

wait_blocks-returns_example :
    ((wait_blocks clock (rounds_for clock height 1 3) 3 10).0 ≡ ok true)
    × (5 + 3 ≤ height (wait_blocks clock (rounds_for clock height 1 3) 3 10).1)
wait_blocks-returns_example = wait_blocks-returns clock height 1 growing 3 10
