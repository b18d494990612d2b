-- ===== src/Rebalancer/Client/Examples.antt =====
-- The loop over one host that is never hot.
use Prim.Native.Nat.{compare}
use sleepwalk.Prelude.{ℕ, true, leb, Option, none, some, []}
use sleepwalk.Prelude.Results.{ok}
use sleepwalk.Proto.Ids.{Text, VmId}
use sleepwalk.Rebalancer.Placement.{Float}
use sleepwalk.Rebalancer.Client.{Web, HostCfg, StatusResp}

abbrev whole : Float
whole = record {
  F = ℕ;
  zero = 0;
  is_finite = λ x. true;
  clamp_unit = λ x. x;
  total_cmp = compare;
  le = leb;
}

-- Daemons that answer every request.
abbrev answering : Web
answering = record {
  Net = ℕ;
  get = λ url n. (ok [], n);
  post = λ url query n. (ok 200, n);
  status_text = λ code. [];
  pause = λ n. n;
}

abbrev status : StatusResp whole
status = record {
  vms = [];
  pressure = 3;
  compat = record { vendor = []; model = []; tsc_khz = 1; kernel = [] };
}

abbrev decode : Text → Option (StatusResp whole)
decode body = some status

abbrev read_id : Text → Option VmId
read_id t = none

abbrev show_id : VmId → Text
show_id id = []

abbrev only_host : HostCfg
only_host = record { id = record { name = [] }; control_url = []; data_listen = []; data_addr = [] }
