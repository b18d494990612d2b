-- ===== src/Hostd/Restore/Examples.antt =====
-- A restore of a VM with a network on a host where Firecracker does not start, and one where it does.
use sleepwalk.Prelude.{ℕ, suc, Bool, true, false, if◌then◌else◌, some, []}
use sleepwalk.Prelude.Results.{ok, err}
use sleepwalk.Hostd.Net.{identity}
use sleepwalk.Hostd.Restore.{Target, nothing, receive_and_restore}
use sleepwalk.Hostd.Restore.Holdings.{Kept, receive_and_restore-Kept}

-- The world counts the effects.
abbrev host : Bool → Target
host starts = record {
  World = ℕ;
  Error = Unit {0};
  create_work = λ n. (ok tt, suc n);
  recv_snapshot = λ n. (ok 3, suc n);
  net_exists = λ n. true;
  read_net = λ n. (ok [], suc n);
  parse_net = λ bytes. ok (identity 4 6);
  tap_command = λ c name n. (ok tt, suc n);
  bind_uffd = λ n. (ok tt, suc n);
  start_server = suc;
  spawn = λ n. (if starts then ok tt else err tt, suc n);
  load_snapshot = λ n. (ok tt, suc n);
  announce = λ net n. suc n;
  vsock_exists = λ n. true;
  read_vsock = λ n. (err tt, suc n);
  mem_len = λ n. some 268435456;
  kill = suc;
  stop_server = suc;
  remove_work = suc;
  destroy_tap = λ name n. suc n;
  remove_socket = λ path n. suc n;
}

receive_and_restore-Kept_example :
    Kept (host false) true (receive_and_restore (host false) (record { uuid = 5 }) (0, nothing))
receive_and_restore-Kept_example = receive_and_restore-Kept (host false) (record { uuid = 5 }) 0
