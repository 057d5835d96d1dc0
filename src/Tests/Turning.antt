-- ===== src/Tests/Turning.antt =====
-- Witnesses on readers, writers and denials at one inode.
use ospersonal.Common.{arith, false, refl, ◌≡◌}
use ospersonal.Inode.Turns.{waits, read_round, write_begin, write_round}
use ospersonal.Inode.Turns.Places.{
  Places, TurnReach, at_start, step_on, no_turns, write_enters, write_grows,
}
use ospersonal.Inode.Turns.Stuck.{growth_failed, failed_growth_blocks}

abbrev entered : Places
unfolding write_begin
entered = record (no_turns 100 2) { turns = (write_begin (no_turns 100 2).turns).1; entered = 1 }

-- A writer of 200 bytes to an inode of 100, in allocate_file.
abbrev grows : Places
unfolding write_round
grows = record entered { turns = (write_round entered.turns 200).1; entered = 0; growing = 1 }

grows-reached : TurnReach (no_turns 100 2) grows
unfolding write_begin write_round
grows-reached =
    step_on entered grows (step_on (no_turns 100 2) entered at_start (write_enters refl))
      (write_grows 0 200 refl refl)

failed_growth_blocks_example :
    ((read_round (growth_failed grows 200).turns false 10).0 ≡ waits)
    × ((write_round (growth_failed grows 200).turns 10).0 ≡ waits)
unfolding grows
failed_growth_blocks_example =
    failed_growth_blocks 100 2 200 grows (growth_failed grows 200) grows-reached (omega arith)
      at_start false 10
