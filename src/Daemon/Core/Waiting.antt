-- ===== src/Daemon/Core/Waiting.antt =====
-- How many rounds the waiting for blocks takes, and what it waits for, in cw-orch-daemon/src/core.rs.
use cw_orchestrator.Common.{
  ℕ, zero, suc, ◌+◌, ◌≡◌, ◌≤◌, refl, arith, true, some, ok, leb, Bool-cases, inl, inr,
}
use cw_orchestrator.Daemon.Core.{Node, wait_until, wait_blocks}

module _ {N F T : Type 0} (node : Node N F T) where
  -- `k` sleeps one after the other.
  abbrev pub slept : ℕ → T → N → N
  slept zero t n = n
  slept (suc k) t n = slept k t (node.sleep t n)

  module _ (height : N → ℕ) (patience : ℕ) where
    -- A node that answers each query, on a chain that does not halt: its height never falls during a
    -- sleep, and it grows by at least one in any `patience + 1` sleeps of the length that is asked for.
    pub record IsGrowing : Type 0 where
      pub answers : (n : N) → node.block_height n ≡ (ok (height n), n)
      pub speed : N → T
      pub speed_of :
          (n : N) → node.average_block_speed (some node.nine_tenths) n ≡ (ok (speed n), n)
      pub stays : (t : T) (n : N) → height n ≤ height (node.sleep t n)
      pub grows : (m n : N) → height n + 1 ≤ height (slept (suc patience) (speed m) n)

    -- The rounds for a number of blocks: for each one as many as the sleeps that may pass without it.
    abbrev pub rounds_for : ℕ → ℕ
    rounds_for zero = zero
    rounds_for (suc blocks) = suc (patience + rounds_for blocks)

    module _ (growing : IsGrowing) (m : N) where
      -- The loop ended by its test, and the height is then reached.
      abbrev Reaches : ℕ → ℕ → ℕ → N → Type 0
      Reaches fuel end_height last_height n =
          ((wait_until node fuel (growing.speed m) end_height last_height n).0 ≡ ok true)
          × (end_height
              ≤ height (wait_until node fuel (growing.speed m) end_height last_height n).1)

      -- One round: the test, or a sleep and the rest.
      wait_until-step :
          (fuel end_height last_height : ℕ) (n : N)
          → last_height ≤ height n
          → Reaches fuel end_height
              (height (node.sleep (growing.speed m) n))
              (node.sleep (growing.speed m) n)
          → Reaches (suc fuel) end_height last_height n
      unfolding wait_until
      wait_until-step fuel end_height last_height n known rest =
          elim (Bool-cases (leb end_height last_height)) [
            | inl e ↦ rw e (refl, ground (arith, e, known))
            | inr e ↦ rw (e, growing.answers (node.sleep (growing.speed m) n)) rest
          ]

      -- With `sleeps` more until the next block for sure, and `blocks` after it.
      wait_until-Reaches :
          (fuel blocks sleeps end_height : ℕ) (n : N)
          → fuel ≡ sleeps + rounds_for blocks
          → end_height ≤ height (slept sleeps (growing.speed m) n) + blocks
          → Reaches fuel end_height (height n) n
      unfolding wait_until
      wait_until-Reaches zero zero zero end_height n eq enough =
          (ground (arith, enough), omega (arith, enough))
      wait_until-Reaches zero (suc blocks) zero end_height n eq enough = absurd (omega (arith, eq))
      wait_until-Reaches zero blocks (suc sleeps) end_height n eq enough =
          absurd (omega (arith, eq))
      wait_until-Reaches (suc fuel) zero zero end_height n eq enough = absurd (omega (arith, eq))
      wait_until-Reaches (suc fuel) (suc blocks) zero end_height n eq enough =
          let more = growing.grows m n in
          wait_until-step fuel end_height (height n) n (omega arith) (
            wait_until-Reaches fuel blocks patience end_height (node.sleep (growing.speed m) n)
              (omega arith) (omega arith))
      wait_until-Reaches (suc fuel) blocks (suc sleeps) end_height n eq enough =
          wait_until-step fuel end_height (height n) n (omega arith) (
            wait_until-Reaches fuel blocks sleeps end_height (node.sleep (growing.speed m) n)
              (omega arith) enough)

      -- From a height that was asked for before.
      wait_until-from :
          (amount last_height : ℕ) (n : N)
          → last_height ≤ height n
          → Reaches (rounds_for amount) (last_height + amount) last_height n
      unfolding wait_until
      wait_until-from zero last_height n known = (ground arith, omega (arith, known))
      wait_until-from (suc blocks) last_height n known =
          let more = growing.grows m n in
          wait_until-step (patience + rounds_for blocks) (last_height + suc blocks) last_height n
            known
            (wait_until-Reaches (patience + rounds_for blocks) blocks patience
              (last_height + suc blocks) (node.sleep (growing.speed m) n) refl (omega arith))

    -- If the node answers each query, its height never falls during a sleep, and it grows by at least one
    -- in any `patience + 1` sleeps of 0.9 of the average time of a block, then `wait_blocks` ends well
    -- within `patience + 1` rounds for each block that it waits for, and the height has then grown by
    -- that many blocks.
    pub wait_blocks-returns :
        IsGrowing
        → (amount : ℕ) (n : N)
        → ((wait_blocks node (rounds_for amount) amount n).0 ≡ ok true)
          × (height n + amount ≤ height (wait_blocks node (rounds_for amount) amount n).1)
    unfolding wait_blocks
    wait_blocks-returns growing amount n =
        let later = growing.stays (node.mul (growing.speed n) amount) n in
        rw (growing.answers n, growing.speed_of n)
          (wait_until-from growing n amount (height n)
            (node.sleep (node.mul (growing.speed n) amount) n) later)
