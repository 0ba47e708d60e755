-- ===== src/Errors/Tests.antt =====
-- The error registry on concrete calls.
use anycode.Base.{◌≤◌, none, arith, length}
use anycode.Errors.{ErrorRegistryInner, new, warning, critical, network, system, record_error}
use anycode.Errors.Laws.{started, recorded, length-errors_Reachable}

abbrev after_one : ErrorRegistryInner
after_one = (record_error 5 (new 1) critical network "down" none none).0

abbrev after_two : ErrorRegistryInner
after_two = (record_error 6 after_one warning system "slow" none none).0

length-errors_Reachable_example : length after_two.errors ≤ 1
length-errors_Reachable_example = length-errors_Reachable 1 after_two (omega arith) (
    recorded 6 warning system "slow" none none
      (recorded 5 critical network "down" none none started))
