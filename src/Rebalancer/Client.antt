-- ===== src/Rebalancer/Client.antt =====
-- crates/rebalancer/src/bin/rebalance.rs: the client of the host daemons and the loop round the
-- control step. Connecting and the exchange of one request, with the reading of JSON and of UUIDs,
-- are parameters; the loop stops where the source returns.
pub mod Loop
mod Examples
use sleepwalk.Prelude.{
  ℕ, zero, suc, Bool, true, false, ◌&&◌, ◌||◌, not, leb, ltb, Option, none, some, List, [], ◌∷◌,
  ◌++◌,
}
use sleepwalk.Prelude.Results.{
  Result, ok, err, map_err, ok_or, Method, pure, fail, from_result, ◌>>=◌, ◌>>◌,
}
use sleepwalk.Prelude.BTreeMap.{BTreeMap, insert}
use sleepwalk.Proto.Ids.{Text, VmId, HostId, vm_ord, host_ord}
use sleepwalk.Proto.Compat.{CompatClass}
use sleepwalk.Rebalancer.Placement.{Float, Placement, Pressure, Rebalance, assign, new_pressure}
use sleepwalk.Rebalancer.Control.{
  CtlError, HostEndpoint, Fleet, empty_fleet, add, DaemonApi, rebalance_once,
}

-- "/status"
abbrev pub status_suffix : Text
status_suffix = 47 ∷ 115 ∷ 116 ∷ 97 ∷ 116 ∷ 117 ∷ 115 ∷ []

-- "/migrate/recv"
abbrev pub recv_suffix : Text
recv_suffix = 47 ∷ 109 ∷ 105 ∷ 103 ∷ 114 ∷ 97 ∷ 116 ∷ 101 ∷ 47 ∷ 114 ∷ 101 ∷ 99 ∷ 118 ∷ []

-- "listen="
abbrev pub listen_field : Text
listen_field = 108 ∷ 105 ∷ 115 ∷ 116 ∷ 101 ∷ 110 ∷ 61 ∷ []

-- "/migrate/send"
abbrev pub send_suffix : Text
send_suffix = 47 ∷ 109 ∷ 105 ∷ 103 ∷ 114 ∷ 97 ∷ 116 ∷ 101 ∷ 47 ∷ 115 ∷ 101 ∷ 110 ∷ 100 ∷ []

-- "vm="
abbrev pub vm_field : Text
vm_field = 118 ∷ 109 ∷ 61 ∷ []

-- "&to="
abbrev pub to_field : Text
to_field = 38 ∷ 116 ∷ 111 ∷ 61 ∷ []

-- "HTTP "
abbrev pub http_prefix : Text
http_prefix = 72 ∷ 84 ∷ 84 ∷ 80 ∷ 32 ∷ []

-- The query that `HttpDaemon::migrate_send` puts behind the question mark.
abbrev pub send_query : Text → Text → Text
send_query vm to = vm_field ++ vm ++ (to_field ++ to)

abbrev pub recv_query : Text → Text
recv_query listen = listen_field ++ listen

-- `StatusCode::is_success`
abbrev pub is_success : ℕ → Bool
is_success code = leb 200 code && ltb code 300

-- The exchange of one request: the URL up to the query, and the query; how a status code is shown
-- (`StatusCode`'s `Display`, the number and the reason phrase); and the pause of the loop.
pub record Web : Type 1 where
  pub Net : Type 0
  pub get : Text → Method Net Text Text
  pub post : Text → Text → Method Net Text ℕ
  pub status_text : ℕ → Text
  pub pause : Net → Net

module _ (web : Web) where
  abbrev checked : ℕ → Method web.Net Text (Unit {0})
  checked code = elim (is_success code) [
    | true ↦ pure tt
    | false ↦ fail (http_prefix ++ web.status_text code)
  ]

  -- `post`
  unfoldable pub post : Text → Text → Method web.Net Text (Unit {0})
  post path query = web.post path query >>= checked

  -- `HttpDaemon`
  abbrev pub http_daemon : DaemonApi
  http_daemon = record {
    Net = web.Net;
    migrate_recv = λ url listen. post (url ++ recv_suffix) (recv_query listen);
    migrate_send = λ url vm to. post (url ++ send_suffix) (send_query vm to);
  }

pub record HostCfg : Type 0 where
  pub id : HostId
  pub control_url : Text
  pub data_listen : Text
  pub data_addr : Text

abbrev endpoint_of : HostCfg → HostEndpoint
endpoint_of h = record {
  control_url = h.control_url;
  data_listen = h.data_listen;
  data_addr = h.data_addr;
}

-- The fleet that `main` builds from the configured hosts.
unfoldable pub fleet_from : List HostCfg → Fleet → Fleet
fleet_from [] fleet = fleet
fleet_from (h ∷ hs) fleet = fleet_from hs (add h.id (endpoint_of h) fleet)

pub data MainError : Type 0 where
  status_error : HostId → Text → MainError
  bad_status : HostId → MainError
  bad_vm_id : Text → MainError
  step_error : CtlError → MainError

-- How the loop ends if nothing fails.
pub data Outcome : Type 0 where
  converged no_eligible_move max_reached : Outcome

module _ (fl : Float) where
  -- What `main` reads of a `StatusResp`.
  pub record StatusResp : Type 0 where
    pub vms : List Text
    pub pressure : fl.F
    pub compat : CompatClass

  -- The fleet as it was read in one step.
  pub record Readings : Type 0 where
    pub placement : Placement
    pub pressure : BTreeMap HostId (Pressure fl)
    pub idle : BTreeMap VmId ℕ
    pub compat : BTreeMap HostId CompatClass

  abbrev pub no_readings : Readings
  no_readings = record { placement = []; pressure = []; idle = []; compat = [] }

  -- 60 seconds.
  abbrev pub assumed_idle : ℕ
  assumed_idle = 60000000000

  module _ (web : Web) (decode : Text → Option StatusResp) (parse_id : Text → Option VmId)
      (to_string : VmId → Text) where
    abbrev pub Main : Type 0 → Type 0
    Main A = Method web.Net MainError A

    abbrev pub contextual : {A E : Type 0} → (E → MainError) → Method web.Net E A → Main A
    contextual f m w = let (r, w') = m w in (map_err f r, w')

    -- `fetch_status`; the status of the answer is not looked at.
    unfoldable pub fetch_status : HostCfg → Main StatusResp
    fetch_status h = do
      body ← contextual (status_error h.id) (web.get (h.control_url ++ status_suffix))
      from_result (ok_or (decode body) (bad_status h.id))

    -- The loop over the VMs of one host.
    unfoldable pub place_vms : HostId → List Text → Readings → Result Readings MainError
    place_vms host [] r = ok r
    place_vms host (vm ∷ vms) r = elim (parse_id vm) [
      | none ↦ err (bad_vm_id vm)
      | some id ↦ place_vms host vms (record r {
        placement = assign host id r.placement;
        idle = insert id assumed_idle r.idle;
      })
    ]

    abbrev with_pressure : HostId → StatusResp → Readings → Readings
    with_pressure host st r = record r {
      pressure = insert host (new_pressure fl st.pressure) r.pressure;
    }

    abbrev with_class : HostId → StatusResp → Readings → Readings
    with_class host st r = record r { compat = insert host st.compat r.compat }

    -- The loop over the hosts.
    unfoldable pub observe : List HostCfg → Readings → Main Readings
    observe [] r = pure r
    observe (h ∷ hs) r = do
      st ← fetch_status h
      r' ← from_result (place_vms h.id st.vms (with_pressure h.id st r))
      observe hs (with_class h.id st r')

    module _ (gt : fl.F → fl.F → Bool) (watermark : fl.F) (hosts : List HostCfg) where
      -- `p.get() > cfg.watermark` for some host.
      unfoldable pub any_hot : BTreeMap HostId (Pressure fl) → Bool
      any_hot [] = false
      any_hot ((h, p) ∷ ps) = gt p.reading watermark || any_hot ps

      -- How the loop ends when a step has found no move.
      unfoldable pub stopped : Readings → Outcome
      stopped r = elim (any_hot r.pressure) [ true ↦ no_eligible_move | false ↦ converged ]

      -- The control step on the readings.
      unfoldable pub act_on : Readings → Main (Option Rebalance)
      act_on r = contextual step_error (
          rebalance_once (http_daemon web) to_string fl r.placement r.pressure r.idle
            (new_pressure fl watermark) r.compat (fleet_from hosts empty_fleet))

      abbrev pub Ending : Type 0
      Ending = List Rebalance × Outcome

      -- What follows the step: the rest of the loop after a pause, or the end.
      unfoldable pub go_on : Main Ending → Readings → Option Rebalance → Main Ending
      go_on rest r none w = (ok ([], stopped r), w)
      go_on rest r (some mv) w =
          let (e, w') = rest (web.pause w) in
          elim e [ ok e ↦ (ok (mv ∷ e.0, e.1), w') | err e ↦ (err e, w') ]

      -- The loop of `main` over this many steps: the moves it has made, and how it ended.
      unfoldable pub run_steps : ℕ → Main Ending
      run_steps zero = pure ([], max_reached)
      run_steps (suc n) = do r ← observe hosts no_readings; mv ← act_on r; go_on (run_steps n) r mv
