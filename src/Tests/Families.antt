-- ===== src/Tests/Families.antt =====
-- pintos/src/userprog/process.c: a child that exits with 7 while its parent waits.
use ospersonal.Common.{◌≡◌, ◌≢◌, some, none, refl, arith}
use ospersonal.Process.{
  Family, new_family, parent_goes_on, parent_waits, child_exits, call, Lives, born, lives_on,
  exit_share, wait_end, setup_share, waiting,
}
use ospersonal.Process.Lifetime.{no_use_after_free, Settled, Lives-Settled, wait_returns}

abbrev told : Family
told = record {
  share = some (record (setup_share 5 0) { refcount = 1; rvalue = 7; sig = 1 });
  parent = waiting;
  exited = some 7;
  answer = none;
}

told-Lives : Lives (new_family 5 0) told
unfolding call exit_share
told-Lives =
    lives_on (record (new_family 5 0) { parent = waiting }) told
      (lives_on (new_family 5 0) (record (new_family 5 0) { parent = waiting }) born
        (parent_waits refl) refl)
      (child_exits 7 refl) refl

no_use_after_free_example :
    call told (
      parent_goes_on
        (record (setup_share 5 0) { refcount = 1; rvalue = 7; sig = 1 })
        refl
        refl
        (omega arith))
    ≢ none
no_use_after_free_example = no_use_after_free 5 0 told-Lives (
    parent_goes_on (record (setup_share 5 0) { refcount = 1; rvalue = 7; sig = 1 }) refl refl
      (omega arith))

Lives-Settled_example : Settled told
Lives-Settled_example = Lives-Settled 5 0 told-Lives

wait_returns_example : wait_end told.share ≡ some (7, none)
wait_returns_example = wait_returns 5 0 7 told-Lives refl refl
