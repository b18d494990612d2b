-- ===== src/System/Fleet.antt =====
-- The host daemons behind the HTTP client of the rebalancer: the requests of
-- crates/rebalancer/src/bin/rebalance.rs, answered by the routes of crates/hostd/src/bin/hostd.rs.
pub mod Calls
pub mod Moves
mod Examples
use sleepwalk.Prelude.{ℕ, Bool, true, false, Option, none, some}
use sleepwalk.Prelude.Results.{Result, ok, err}
use sleepwalk.Prelude.BTreeMap.{BTreeMap, get, insert}
use sleepwalk.Proto.Ids.{Text, VmId, text_ord}
use sleepwalk.Hostd.Migrate.{Host, Status, status_ok, conflict, not_found, internal_error, Daemon}
use sleepwalk.Hostd.Daemon.{
  post_method, Endpoint, migrate_out, migrate_in, route, Answer, answered, accepted, bad_request,
  serve_send, recv_answer,
}
use sleepwalk.Rebalancer.Client.{Web}

-- The codes of `StatusCode`.
abbrev pub code_of : Answer → ℕ
code_of (answered status_ok) = 200
code_of (answered conflict) = 409
code_of (answered not_found) = 404
code_of (answered internal_error) = 500
code_of accepted = 202
code_of bad_request = 400

-- What becomes of a request to a daemon: it is answered, it never gets there, or it is served to its
-- end and the answer is lost.
pub data Passage : Type 0 where
  passes lost_before lost_after : Passage

-- What stands between the two programs: how a URL falls into the address of a daemon and a path, how
-- an id is read, what a refused and what a broken connection says, how a status code is shown, which
-- exchanges are lost and when, and what a daemon does beside migrations out.
pub record Between (h : Host) (drain_deadline patience : ℕ) : Type 0 where
  pub locate : Text → Option (Text × Text)
  pub parse_id : Text → Option VmId
  pub refused : Text
  pub broken : Text
  pub status_text : ℕ → Text
  pub passage : Text → Text → Daemon h drain_deadline patience → Passage
  pub artifacts : Bool
  pub binds : Text → Bool
  pub send_fresh : Text → Daemon h drain_deadline patience → Bool × Daemon h drain_deadline patience
  pub elsewhere : Endpoint → Daemon h drain_deadline patience → ℕ × Daemon h drain_deadline patience

module _ (h : Host) (drain_deadline patience : ℕ) (b : Between h drain_deadline patience) where
  abbrev pub D : Type 0
  D = Daemon h drain_deadline patience

  abbrev pub at_endpoint : Endpoint → Text → D → ℕ × D
  at_endpoint migrate_out query d =
      let (a, d') = serve_send b.parse_id h drain_deadline patience b.send_fresh (some query) d in
      (code_of a, d')
  at_endpoint migrate_in query d = (code_of (recv_answer b.artifacts b.binds (some query)), d)
  at_endpoint e query d = b.elsewhere e d

  -- The answer of one daemon.
  abbrev pub respond : Text → Text → D → ℕ × D
  respond path query d = at_endpoint (route post_method path) query d

  abbrev pub Daemons : Type 0
  Daemons = BTreeMap Text D

  abbrev pub at_address : Option D → Text → Text → Text → Daemons → Result ℕ Text × Daemons
  at_address none base path query net = (err b.refused, net)
  at_address (some d) base path query net =
      let (code, d') = respond path query d in
      elim (b.passage path query d) [
        | passes ↦ (ok code, insert base d' net)
        | lost_before ↦ (err b.broken, net)
        | lost_after ↦ (err b.broken, insert base d' net)
      ]

  abbrev pub deliver : Option (Text × Text) → Text → Daemons → Result ℕ Text × Daemons
  deliver none query net = (err b.refused, net)
  deliver (some (base, path)) query net = at_address (get base net) base path query net

  -- The exchanges of the client over these daemons, which go on by themselves while it waits.
  abbrev pub web : (Text → Text) → Web
  web status_of = record {
    Net = Daemons;
    get = λ url net. (ok (status_of url), net);
    post = λ url query. deliver (b.locate url) query;
    status_text = b.status_text;
    pause = λ net. net;
  }
