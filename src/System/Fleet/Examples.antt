-- ===== src/System/Fleet/Examples.antt =====
-- A fleet of two hosts, whose rebalancer moves a VM from the first to the second.
use mathlib.Core.Path.{subst}
use sleepwalk.Prelude.{
  ◌≡◌, ◌≢◌, refl, true, false, Option, none, some, List, [], ◌∷◌, take, drop, arith,
}
use sleepwalk.Prelude.BTreeMap.{get}
use sleepwalk.Prelude.Strings.{decimal}
use sleepwalk.Proto.Ids.{Text, VmId, HostId, compare_text, vm_ord, host_ord, text_ord}
use sleepwalk.Proto.Vsock.{GuestToHost, hello, drain_ack}
use sleepwalk.Proto.Compat.{same_text}
use sleepwalk.Hostd.Migrate.Scripted.{answering}
use sleepwalk.Hostd.Migrate.{RunningVm, Daemon, migrate_send}
use sleepwalk.Rebalancer.Placement.{Rebalance}
use sleepwalk.Rebalancer.Control.{HostEndpoint, Fleet, endpoint, execute}
use sleepwalk.Rebalancer.Client.{http_daemon}
use sleepwalk.System.Fleet.{Between, passes, Daemons, web}
use sleepwalk.System.Fleet.Calls.{received_by, migrate_send-call}
use sleepwalk.System.Fleet.Moves.{client, Stepped, InOrder, execute-Stepped}

abbrev third : VmId
third = record { uuid = 51 }

abbrev vm : RunningVm
vm = record { id = third; vsock_uds = []; net = none }

abbrev idle_guest : List GuestToHost
idle_guest = hello third (record { version = [] }) ∷ drain_ack none ∷ []

abbrev source_daemon : Daemon answering 500 8
source_daemon = record { vms = (third, vm) ∷ []; torn = (idle_guest, []) }

abbrev target_daemon : Daemon answering 500 8
target_daemon = record { vms = []; torn = ([], []) }

abbrev parse_digit : Text → Option VmId
parse_digit (c ∷ []) = some (record { uuid = c })
parse_digit _ = none

-- Addresses have eight characters, and an id is one.
abbrev middle : Between answering 500 8
middle = record {
  locate = λ url. some (take 8 url, drop 8 url);
  parse_id = parse_digit;
  refused = [];
  broken = [];
  status_text = decimal;
  passage = λ path query d. passes;
  artifacts = true;
  binds = λ listen. true;
  send_fresh = λ to d. (false, d);
  elsewhere = λ e d. (404, d);
}

-- "http://a" and "http://b"
abbrev at_a : Text
at_a = 104 ∷ 116 ∷ 116 ∷ 112 ∷ 58 ∷ 47 ∷ 47 ∷ 97 ∷ []

abbrev at_b : Text
at_b = 104 ∷ 116 ∷ 116 ∷ 112 ∷ 58 ∷ 47 ∷ 47 ∷ 98 ∷ []

abbrev host_a : HostId
host_a = record { name = 97 ∷ [] }

abbrev host_b : HostId
host_b = record { name = 98 ∷ [] }

-- "b:9"
abbrev data_b : Text
data_b = 98 ∷ 58 ∷ 57 ∷ []

abbrev endpoint_a : HostEndpoint
endpoint_a = record { control_url = at_a; data_listen = []; data_addr = [] }

abbrev endpoint_b : HostEndpoint
endpoint_b = record { control_url = at_b; data_listen = 57 ∷ []; data_addr = data_b }

abbrev fleet : Fleet
fleet = record { hosts = (host_a, endpoint_a) ∷ (host_b, endpoint_b) ∷ [] }

abbrev move : Rebalance
move = record { vm = third; from = host_a; to = host_b }

abbrev daemons : Daemons answering 500 8 middle
daemons = (at_a, source_daemon) ∷ (at_b, target_daemon) ∷ []

abbrev shown : VmId → Text
shown id = id.uuid ∷ []

abbrev silent : Text → Text
silent url = []

registered_id : (v : RunningVm) → get third source_daemon.vms ≡ some v → v.id ≡ third
unfolding get
registered_id v e = ground arith

addresses_differ : at_a ≢ at_b
unfolding compare_text
addresses_differ e =
    let bad : false ≡ true = subst (λ x. same_text at_a x ≡ true) e refl in ground arith

in_order :
    InOrder answering 500 8 middle silent shown fleet move endpoint_a endpoint_b at_a at_b
      source_daemon daemons
unfolding endpoint get compare_text
in_order = record {
  source_known = refl;
  target_known = refl;
  send_located = refl;
  recv_located = refl;
  apart = addresses_differ;
  source_there = refl;
  ascending = (tt, tt);
  own_id = registered_id;
  read_back = refl;
  plain_id = (refl, tt);
  plain_target = (refl, (refl, (refl, tt)));
}

execute-Stepped_example :
    Stepped answering 500 8 middle silent at_a move source_daemon
      (execute (client answering 500 8 middle silent) shown fleet move daemons)
execute-Stepped_example =
    execute-Stepped answering 500 8 middle silent shown fleet move endpoint_a endpoint_b at_a at_b
      source_daemon daemons in_order

migrate_send-call_example :
    (http_daemon (web answering 500 8 middle silent)).migrate_send at_a (51 ∷ []) data_b daemons
    ≡ received_by answering 500 8 middle passes at_a
        (migrate_send answering 500 8 third data_b source_daemon)
        daemons
unfolding get compare_text
migrate_send-call_example =
    migrate_send-call answering 500 8 middle silent at_a (51 ∷ []) data_b at_a third source_daemon
      daemons refl refl refl (refl, tt) (refl, (refl, (refl, tt)))
