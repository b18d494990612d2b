-- ===== src/Hostd/Examples.antt =====
-- Signals, calls and streams to try the theorems on.
use sleepwalk.Prelude.{
  All, ◌++◌, some, take, drop, replicate, ℕ, zero, suc, ◌+◌, ◌%◌, ◌^◌, ◌≤◌, ◌<◌, ◌≡◌, refl, ◌↔◌,
  Bool, true, false, none, List, [], ◌∷◌, map, length, ltb, all, arith,
}
use sleepwalk.Prelude.Results.{ok, err}
use sleepwalk.Proto.Vsock.{GuestToHost, hello, drain_ack}
use sleepwalk.Proto.Ids.{compare_text, vm_ord}
use sleepwalk.Hostd.Quiesce.{InfraThresholds, new_infra, infra_is_quiet}
use sleepwalk.Hostd.Quiesce.Window.{record_all, last_n, readings, last_quiet, infra_is_quiet_iff}
use sleepwalk.Hostd.Drain.{quiescent, verdict, new_coordinator}
use sleepwalk.Hostd.Drain.Verdict.{
  Signal, from_guest, from_infra, from_storage, observe_all, Evidence, verdict-quiescent_iff,
}
use sleepwalk.Hostd.Vm.{boot, pause, FirecrackerApi, new}
use sleepwalk.Hostd.Vm.Lifecycle.{perform, Outcome, perform-Outcome}
use sleepwalk.Hostd.Uffd.{UserFault, File, serve_page, GuestRegionUffdMapping}
use sleepwalk.Hostd.Uffd.Pages.{Answered, serve_page-Answered}
use sleepwalk.Hostd.Migrate.Scripted.{answering}
use sleepwalk.Hostd.Uffd.Serving.{
  pagefault, removed, Poll, interrupted, timeout, ready, serve_polls,
}
use sleepwalk.Hostd.Uffd.Serving.Passes.{pass, all_events, serve_polls-pass}
use sleepwalk.Hostd.Migrate.{RunningVm, Daemon, migrate_running, migrate_send}
use sleepwalk.Hostd.Migrate.Custody.{Parted, Settled, migrate_running-Parted, migrate_send-Settled}
use sleepwalk.Prelude.BTreeMap.{get}
use sleepwalk.Hostd.Transfer.{
  Bytes, Crc, OutboundFile, send_files, recv_files, is_unsafe, contains, contains_dots,
}
use sleepwalk.Hostd.Transfer.Frames.{Streams, found, delivered, send_files-recv_files}
use sleepwalk.Hostd.Transfer.Names.{Contained, recv_files-Contained}

abbrev two_samples : InfraThresholds ℕ
two_samples = record { cpu_pct = 5; samples = 2 }

abbrev ticks : List (ℕ × Bool)
ticks = (90, false) ∷ (3, true) ∷ (4, true) ∷ []

quiet_after_ticks : infra_is_quiet ltb (record_all ticks (new_infra two_samples)) ≡ true
quiet_after_ticks = ground (arith, infra_is_quiet_iff ltb two_samples ticks)

infra_is_quiet_iff_example :
    (infra_is_quiet ltb (record_all ticks (new_infra two_samples)) ≡ true)
    ↔ (0 < two_samples.samples)
      × (two_samples.samples ≤ length ticks)
      × (last_quiet false ticks ≡ true)
      × (all (λ c. ltb c two_samples.cpu_pct) (last_n two_samples.samples (readings ticks)) ≡ true)
infra_is_quiet_iff_example = infra_is_quiet_iff ltb two_samples ticks

abbrev signals : List (Signal ℕ)
signals =
    from_infra 3 true ∷ from_guest (drain_ack none) ∷ from_infra 4 true ∷ from_storage true ∷ []

verdict-quiescent_iff_example :
    (verdict ltb (observe_all signals (new_coordinator two_samples)) ≡ quiescent)
    ↔ Evidence ltb two_samples signals
verdict-quiescent_iff_example = verdict-quiescent_iff ltb two_samples signals

-- A Firecracker that takes a boot and a pause, and fails whatever comes after them.
abbrev two_calls : FirecrackerApi
two_calls = record {
  Port = ℕ;
  Error = ℕ;
  issue = λ op n. elim n [ zero ↦ (err 500, 0) | suc m ↦ (ok tt, m) ];
}

perform-Outcome_example :
    let v = (perform two_calls boot (new two_calls (record { uuid = 1 }) 2)).1 in
    Outcome two_calls pause v (perform two_calls pause v)
perform-Outcome_example =
    perform-Outcome two_calls pause
      (perform two_calls boot (new two_calls (record { uuid = 1 }) 2)).1

-- A checksum that adds the bytes up.
abbrev sum_from : ℕ → Bytes → ℕ
sum_from n [] = n
sum_from n (b ∷ bs) = sum_from ((n + b) % 2 ^ 32) bs

abbrev adding : Crc
adding = record {
  Hasher = ℕ;
  fresh = 0;
  update = λ bs n. sum_from n bs;
  finalize = λ n. n % 2 ^ 32;
}

adding_32 : (n : ℕ) → n % 2 ^ 32 < 2 ^ 32
adding_32 n = omega arith

abbrev any_text : Bytes → Bool
any_text name = true

-- A memory file and a state file.
abbrev snapshot_files : List OutboundFile
snapshot_files =
    record {
      name = b'm' ∷ b'e' ∷ b'm' ∷ [];
      len = 5;
      contents = 7 ∷ 0 ∷ 255 ∷ 0 ∷ 1 ∷ [];
      more = λ left. 1;
    }
    ∷ record { name = b'v' ∷ b'm' ∷ []; len = 0; contents = []; more = λ left. 0 }
    ∷ []

sum_from-append : (xs ys : Bytes) (n : ℕ) → sum_from n (xs ++ ys) ≡ sum_from (sum_from n xs) ys
sum_from-append [] ys n = refl
sum_from-append (x ∷ xs) ys n = sum_from-append xs ys ((n + x) % 2 ^ 32)

adding_streams : Streams adding
adding_streams = record {
  update-nil = λ h. refl;
  update-append = λ xs ys h. sum_from-append xs ys h;
}

send_files-recv_files_example :
    (wire : Bytes) × (send_files adding snapshot_files ≡ ok wire)
    × (recv_files adding any_text (record { stream = wire; disk = [] }) ≡ (
      ok (map (λ f. f.name) snapshot_files),
      record { stream = []; disk = delivered adding adding_streams any_text snapshot_files [] },
    ))
    × All
        (λ f.
          found adding adding_streams any_text f.name
            (delivered adding adding_streams any_text snapshot_files [])
          ≡ some f.contents)
        snapshot_files
unfolding is_unsafe contains contains_dots compare_text
send_files-recv_files_example =
    send_files-recv_files adding adding_streams any_text adding_32 snapshot_files
      (
        (refl, omega arith, omega arith, omega arith, refl, refl),
        ((refl, omega arith, omega arith, omega arith, refl, refl), tt),
      )
      ((refl, tt), (tt, tt))

-- A stream that names a file `..`.
recv_files-Contained_example :
    Contained any_text
      (recv_files adding any_text (record { stream = 0 ∷ 2 ∷ 46 ∷ 46 ∷ 0 ∷ []; disk = [] })).1.disk
recv_files-Contained_example = recv_files-Contained adding any_text (0 ∷ 2 ∷ 46 ∷ 46 ∷ 0 ∷ [])

abbrev image : Bytes
image = 11 ∷ 12 ∷ 13 ∷ 14 ∷ 15 ∷ 16 ∷ []

abbrev image_file : File
image_file = record { Error = Unit {0}; read_at = λ offset n. ok (take n (drop offset image)) }

-- A memory that lists what was put into it, the last page first.
abbrev listing : UserFault
listing = record {
  Memory = List (ℕ × Bytes);
  Error = Unit {0};
  copy = λ addr bytes w. (ok tt, (addr, bytes) ∷ w);
  zero_page = λ addr n w. (ok tt, (addr, replicate n 0) ∷ w);
}

-- A fault in the second of three pages of four bytes, for which the image has two bytes.
serve_page-Answered_example :
    Answered image_file image
      (λ offset n. refl)
      listing
      4
      2
      3
      (omega arith)
      (omega arith)
      14
      []
      (serve_page image_file listing 8 12 4 6 14 [])
serve_page-Answered_example =
    serve_page-Answered image_file image (λ offset n. refl) listing 4 2 3 (omega arith)
      (omega arith) 14 []

abbrev regions : List GuestRegionUffdMapping
regions =
    record { base_host_virt_addr = 0; size = 8; offset = 0 }
    ∷ record { base_host_virt_addr = 64; size = 8; offset = 4 }
    ∷ []

abbrev running_vm : RunningVm
running_vm = record { id = record { uuid = 3 }; vsock_uds = []; net = none }

abbrev quiet_guest : List GuestToHost
quiet_guest = hello (record { uuid = 3 }) (record { version = [] }) ∷ drain_ack none ∷ []

abbrev daemon : Daemon answering 5000000000 8
daemon = record { vms = (record { uuid = 3 }, running_vm) ∷ []; torn = (quiet_guest, []) }

registered_id :
    (vm : RunningVm) → get (record { uuid = 3 }) daemon.vms ≡ some vm → vm.id ≡ record { uuid = 3 }
unfolding get
registered_id vm e = ground arith

migrate_running-Parted_example :
    Parted answering 5000000000 8 running_vm
      (quiet_guest, [])
      (migrate_running answering 5000000000 8 running_vm [] (quiet_guest, []))
migrate_running-Parted_example =
    migrate_running-Parted answering 5000000000 8 running_vm [] quiet_guest []

migrate_send-Settled_example :
    Settled answering 5000000000 8
      (record { uuid = 3 })
      daemon
      (migrate_send answering 5000000000 8 (record { uuid = 3 }) [] daemon)
migrate_send-Settled_example =
    migrate_send-Settled answering 5000000000 8 (record { uuid = 3 }) [] daemon (tt, tt)
      registered_id

-- A page of the second region, a range that was removed, and a fault in no region.
abbrev polls : List (Poll (Unit {0}) (Unit {0}))
polls =
    timeout
    ∷ ready (pagefault 66 ∷ []) none
    ∷ interrupted
    ∷ ready (removed 0 4 ∷ pagefault 900 ∷ []) none
    ∷ []

serve_polls-pass_example :
    serve_polls image_file listing 4 regions polls []
    ≡ pass image_file image
        (λ offset n. refl)
        listing
        4
        regions
        (λ a bytes w. refl)
        (λ a n w. refl)
        (all_events image_file image
          (λ offset n. refl)
          listing
          4
          regions
          (λ a bytes w. refl)
          (λ a n w. refl)
          polls)
        []
serve_polls-pass_example =
    serve_polls-pass image_file image (λ offset n. refl) listing 4 regions (λ a bytes w. refl)
      (λ a n w. refl) polls [] tt
