-- ===== src/Hostd/Migrate/Scripted.antt =====
-- A host whose guest answers with the messages listed, and on which everything else works.
use sleepwalk.Prelude.{List, [], ◌∷◌}
use sleepwalk.Prelude.Results.{ok, err}
use sleepwalk.Proto.Vsock.{GuestToHost}
use sleepwalk.Hostd.Migrate.{Host}

abbrev pub answering : Host
answering = record {
  World = List GuestToHost;
  Error = Unit {0};
  Timing = Unit {0};
  connect_tcp = λ ip w. (ok tt, w);
  connect_vsock = λ path w. (ok tt, w);
  recv = λ w. elim w [ [] ↦ (err tt, []) | m ∷ ms ↦ (ok m, ms) ];
  send = λ m w. (ok tt, w);
  write_vsock_path = λ vm w. (ok tt, w);
  write_net_identity = λ vm w. (ok tt, w);
  snapshot_and_send = λ vm addr w. (ok tt, w);
  kill = λ vm w. w;
}
