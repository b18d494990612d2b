-- ===== src/Rebalancer/Control/Steps.antt =====
-- What one step of the control loop calls, and in which order, by how it ended.
use sleepwalk.Prelude.{ℕ, ◌≡◌, refl, ◌⊎◌, Option, none, some, List, [], ◌∷◌, ◌++◌, arith}
use sleepwalk.Prelude.Results.{Result, ok, err}
use sleepwalk.Prelude.BTreeMap.{BTreeMap, get}
use sleepwalk.Proto.Ids.{Text, VmId, HostId, host_ord}
use sleepwalk.Proto.Compat.{CompatClass}
use sleepwalk.Rebalancer.Placement.{Float, Placement, Pressure, Rebalance, pick_victim}
use sleepwalk.Rebalancer.Control.{
  recv_op, send_op, CtlError, unknown_host, daemon, HostEndpoint, Fleet, endpoint, DaemonApi,
  DaemonCall, recv_call, send_call, execute, rebalance_once,
}

-- A call and what it came back with.
abbrev pub Exchange : Type 0
Exchange = DaemonCall × Result (Unit {0}) Text

-- Any daemon with the list of the calls it got and its answers, in their order.
abbrev pub recording_daemon : DaemonApi → DaemonApi
recording_daemon api = record {
  Net = api.Net × List Exchange;
  migrate_recv = λ url listen (n, calls).
      let (r, n') = api.migrate_recv url listen n in
      (r, (n', calls ++ (recv_call url listen, r) ∷ []));
  migrate_send = λ url vm to (n, calls).
      let (r, n') = api.migrate_send url vm to n in
      (r, (n', calls ++ (send_call url vm to, r) ∷ []));
}

module _ (api : DaemonApi) (to_string : VmId → Text) (fleet : Fleet) where
  abbrev pub recv_of : HostEndpoint → DaemonCall
  recv_of target = recv_call target.control_url target.data_listen

  abbrev pub send_of : Rebalance → HostEndpoint → HostEndpoint → DaemonCall
  send_of mv source target = send_call source.control_url (to_string mv.vm) target.data_addr

  abbrev pub Registered : Rebalance → HostEndpoint → HostEndpoint → Type 0
  Registered mv source target =
      (get mv.to fleet.hosts ≡ some target) × (get mv.from fleet.hosts ≡ some source)

  -- The outcome of carrying out the move `mv`.
  abbrev pub Carried :
      Rebalance → Result (Option Rebalance) CtlError × (api.Net × List Exchange) → Type 0
  Carried mv (ok moved, (_, calls)) =
      (source : HostEndpoint) × (target : HostEndpoint) × Registered mv source target
      × (moved ≡ some mv)
      × (calls ≡ (recv_of target, ok tt) ∷ (send_of mv source target, ok tt) ∷ [])
  Carried mv (err (unknown_host host), (_, calls)) =
      ((host ≡ mv.to) ⊎ (host ≡ mv.from)) × (get host fleet.hosts ≡ none) × (calls ≡ [])
  Carried mv (err (daemon host recv_op text), (_, calls)) =
      (source : HostEndpoint) × (target : HostEndpoint) × Registered mv source target
      × (host ≡ mv.to)
      × (calls ≡ (recv_of target, err text) ∷ [])
  Carried mv (err (daemon host send_op text), (_, calls)) =
      (source : HostEndpoint) × (target : HostEndpoint) × Registered mv source target
      × (host ≡ mv.from)
      × (calls ≡ (recv_of target, ok tt) ∷ (send_of mv source target, err text) ∷ [])

  Carried-from :
      (mv : Rebalance) (n : api.Net) (source target : Option HostEndpoint)
      → get mv.from fleet.hosts ≡ source
      → get mv.to fleet.hosts ≡ target
      → Carried mv (execute (recording_daemon api) to_string fleet mv (n, []))
  unfolding execute endpoint
  Carried-from mv n _ none es et = ground arith
  Carried-from mv n none (some target) es et = ground arith
  Carried-from mv n (some source) (some target) es et = ground arith

  module _ (fl : Float) where
    -- The outcome of one step.
    abbrev pub Stepped :
        Option Rebalance → Result (Option Rebalance) CtlError × (api.Net × List Exchange) → Type 0
    Stepped none (r, (_, calls)) = (r ≡ ok none) × (calls ≡ [])
    Stepped (some mv) o = Carried mv o

    Stepped-from :
        (placement : Placement) (pressure : BTreeMap HostId (Pressure fl)) (idle : BTreeMap VmId ℕ)
        (high_watermark : Pressure fl) (compat : BTreeMap HostId CompatClass) (n : api.Net)
        (picked : Option Rebalance)
        → pick_victim fl placement pressure idle high_watermark compat ≡ picked
        → Stepped picked (
            rebalance_once
              (recording_daemon api)
              to_string
              fl
              placement
              pressure
              idle
              high_watermark
              compat
              fleet
              (n, []))
    unfolding rebalance_once
    Stepped-from placement pressure idle high_watermark compat n none e = ground arith
    Stepped-from placement pressure idle high_watermark compat n (some mv) e =
        ground
          (arith, Carried-from mv n (get mv.from fleet.hosts) (get mv.to fleet.hosts) refl refl)

    -- One step calls no daemon if no move was picked or a host of it is unknown. Otherwise it tells
    -- the target to receive, with the endpoints of the fleet; if that fails, it calls no more and its
    -- error is that of the call, with the target's name; and if it succeeds, it tells the source to
    -- send, and succeeds exactly if that does, or its error is that of the call, with the source's
    -- name.
    pub rebalance_once-Stepped :
        (placement : Placement) (pressure : BTreeMap HostId (Pressure fl)) (idle : BTreeMap VmId ℕ)
        (high_watermark : Pressure fl) (compat : BTreeMap HostId CompatClass) (n : api.Net)
        → Stepped (pick_victim fl placement pressure idle high_watermark compat) (
            rebalance_once
              (recording_daemon api)
              to_string
              fl
              placement
              pressure
              idle
              high_watermark
              compat
              fleet
              (n, []))
    rebalance_once-Stepped placement pressure idle high_watermark compat n =
        Stepped-from placement pressure idle high_watermark compat n _ refl
