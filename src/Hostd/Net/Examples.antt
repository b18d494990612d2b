-- ===== src/Hostd/Net/Examples.antt =====
-- The network identities of the VMs of index 7 and 8, where every command succeeds.
use sleepwalk.Prelude.{ℕ, suc, [], ◌≡◌, refl, true}
use sleepwalk.Prelude.Results.{ok}
use sleepwalk.Hostd.Net.{Shell, identity, create, create_tap, run_ip, in_range}
use sleepwalk.Hostd.Net.Plan.{Assigned, create-Assigned}

-- The world counts the commands.
abbrev willing : Shell
willing = record {
  World = ℕ;
  output = λ args n. (ok (true, []), suc n);
  send_frame = λ frame n. (ok tt, suc n);
}

create-Assigned_example : Assigned willing 7 0 (create willing 7 0)
create-Assigned_example = create-Assigned willing 7 0

created_seven : (create willing 7 0).0 ≡ ok (identity 7 9)
unfolding create in_range create_tap run_ip
created_seven = refl

created_eight : (create willing 8 3).0 ≡ ok (identity 8 10)
unfolding create in_range create_tap run_ip
created_eight = refl
