-- ===== src/Hostd/Source/Examples.antt =====
-- A guest that is idle when it is asked, and a transfer that fails.
use sleepwalk.Prelude.{List, none, [], ◌∷◌}
use sleepwalk.Prelude.Results.{ok, err}
use sleepwalk.Proto.Vsock.{GuestToHost, hello, drain_ack}
use sleepwalk.Hostd.Migrate.Scripted.{answering}
use sleepwalk.Hostd.Source.{Source, SourceOrder, migrate_source}
use sleepwalk.Hostd.Source.Gate.{Gated, unheld, migrate_source-Gated}

abbrev cut_off : Source answering
cut_off = record {
  create_work = λ w. (ok tt, w);
  spawn_process = λ w. (ok tt, w);
  call = λ c w. (ok tt, w);
  connect_retry = λ w. (ok tt, w);
  send_snapshot = λ addr names w. (err tt, w);
  mem_len = λ w. none;
  clock = λ w. 0;
  kill = λ w. w;
  remove_work = λ w. w;
  remove_socket = λ w. w;
}

abbrev order : SourceOrder
order = record { kernel = []; rootfs = []; vsock_uds = []; mem_file = []; state_file = [] }

abbrev idle : List GuestToHost
idle = hello (record { uuid = 3 }) (record { version = [] }) ∷ drain_ack none ∷ []

migrate_source-Gated_example :
    Gated answering cut_off 500 8 idle order []
      (migrate_source answering cut_off 500 8 order [] (idle, unheld))
migrate_source-Gated_example = migrate_source-Gated answering cut_off 500 8 idle order []
