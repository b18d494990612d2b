-- ===== src/Rebalancer/Control.antt =====
-- crates/rebalancer/src/control.rs: one step of the control loop, over a daemon interface that acts
-- on a world of its own, and the recording daemon. A `String` of the source is a list of code
-- points; `to_string` is the `Display` of a `VmId`, which is the uuid crate's. `PseudoDaemon` keeps
-- the fields of a call apart instead of formatting them into a line.
pub mod Steps
use sleepwalk.Prelude.{
  ℕ, ◌≡◌, Bool, true, false, if◌then◌else◌, Option, none, some, List, [], ◌∷◌, ◌++◌,
}
use sleepwalk.Prelude.Results.{
  Result, ok, err, map_err, ok_or, Method, pure, fail, from_result, ◌>>=◌, ◌>>◌,
}
use sleepwalk.Prelude.BTreeMap.{BTreeMap, get, insert}
use sleepwalk.Proto.Ids.{Text, VmId, HostId, host_ord}
use sleepwalk.Proto.Compat.{CompatClass}
use sleepwalk.Rebalancer.Placement.{Float, Placement, Pressure, Rebalance, pick_victim}

-- The `op` of a daemon error.
pub data DaemonOp : Type 0 where
  recv_op send_op : DaemonOp

pub data CtlError : Type 0 where
  unknown_host : HostId → CtlError
  daemon : HostId → DaemonOp → Text → CtlError

pub record HostEndpoint : Type 0 where
  pub control_url : Text
  pub data_listen : Text
  pub data_addr : Text

pub record Fleet : Type 0 where
  pub hosts : BTreeMap HostId HostEndpoint

-- `Fleet::new`
abbrev pub empty_fleet : Fleet
empty_fleet = record { hosts = [] }

-- `Fleet::add`
unfoldable pub add : HostId → HostEndpoint → Fleet → Fleet
add host endpoint f = record { hosts = insert host endpoint f.hosts }

-- `Fleet::endpoint`
unfoldable pub endpoint : Fleet → HostId → Result HostEndpoint CtlError
endpoint f host = ok_or (get host f.hosts) (unknown_host host)

pub record DaemonApi : Type 1 where
  pub Net : Type 0
  pub migrate_recv : Text → Text → Method Net Text (Unit {0})
  pub migrate_send : Text → Text → Text → Method Net Text (Unit {0})

-- `map_err` on a call.
abbrev pub on_error : {S A E F : Type 0} → (E → F) → Method S E A → Method S F A
on_error f m s = let (r, s') = m s in (map_err f r, s')

module _ (api : DaemonApi) (to_string : VmId → Text) where
  -- What `rebalance_once` does with the move it picked.
  unfoldable pub execute : Fleet → Rebalance → Method api.Net CtlError (Option Rebalance)
  execute fleet mv = do
    target ← from_result (endpoint fleet mv.to)
    source ← from_result (endpoint fleet mv.from)
    on_error (daemon mv.to recv_op) (api.migrate_recv target.control_url target.data_listen)
    on_error (daemon mv.from send_op)
        (api.migrate_send source.control_url (to_string mv.vm) target.data_addr)
    pure (some mv)

  module _ (fl : Float) where
    unfoldable pub rebalance_once :
        Placement
        → BTreeMap HostId (Pressure fl)
        → BTreeMap VmId ℕ
        → Pressure fl
        → BTreeMap HostId CompatClass
        → Fleet
        → Method api.Net CtlError (Option Rebalance)
    rebalance_once placement pressure idle high_watermark compat fleet =
        elim (pick_victim fl placement pressure idle high_watermark compat) [
          | some mv ↦ execute fleet mv
          | none ↦ pure none
        ]

-- A call of a daemon with its arguments.
pub data DaemonCall : Type 0 where
  recv_call : Text → Text → DaemonCall
  send_call : Text → Text → Text → DaemonCall

-- The two fields of a `PseudoDaemon`.
pub record PseudoDaemon : Type 0 where
  pub calls : List DaemonCall
  pub fail : Option DaemonOp

abbrev same_daemon_op : DaemonOp → Option DaemonOp → Bool
same_daemon_op recv_op (some recv_op) = true
same_daemon_op send_op (some send_op) = true
same_daemon_op _ _ = false

-- `PseudoDaemon::record`; the text of the injected failure is left out.
abbrev record_call : DaemonOp → DaemonCall → Method PseudoDaemon Text (Unit {0})
record_call op call d =
    let d' = record d { calls = d.calls ++ call ∷ [] } in
    if same_daemon_op op d.fail then (err [], record d' { fail = none }) else (ok tt, d')

abbrev pub pseudo_daemon : DaemonApi
pseudo_daemon = record {
  Net = PseudoDaemon;
  migrate_recv = λ url listen. record_call recv_op (recv_call url listen);
  migrate_send = λ url vm to. record_call send_op (send_call url vm to);
}
