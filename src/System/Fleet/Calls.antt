-- ===== src/System/Fleet/Calls.antt =====
-- The calls of the client reach the handlers they are meant for, with their arguments.
use mathlib.Core.Path.{ap, ◌∙◌}
use sleepwalk.Prelude.{ℕ, ◌≡◌, refl, Option, some, [], ◌∷◌, ◌++◌, arith}
use sleepwalk.Prelude.Results.{Result, ok, err}
use sleepwalk.Prelude.BTreeMap.{get, insert}
use sleepwalk.Prelude.Strings.{Free, split, split_once, split-Free, split-append}
use sleepwalk.Proto.Ids.{Text, VmId, compare_text, text_ord}
use sleepwalk.Hostd.Migrate.{
  Host, Status, status_ok, conflict, not_found, internal_error, Daemon, migrate_send,
}
use sleepwalk.Hostd.Daemon.{
  find_pair, query_param, to_key, vm_key, send_request, send_running, serve_send, route, answered,
}
use sleepwalk.Rebalancer.Client.{send_query, send_suffix, http_prefix, post, http_daemon}
use sleepwalk.System.Fleet.{
  Between, Passage, passes, lost_before, lost_after, Daemons, web, respond, code_of,
}

-- The query that the client writes holds the two arguments, for the server's reader of queries.
send_query-split :
    (vm to : Text)
    → Free 38 vm
    → Free 38 to
    → split 38 (send_query vm to) ≡ (118 ∷ 109 ∷ 61 ∷ vm) ∷ (116 ∷ 111 ∷ 61 ∷ to) ∷ []
send_query-split vm to f g =
    split-append 38 (118 ∷ 109 ∷ 61 ∷ vm) (116 ∷ 111 ∷ 61 ∷ to) (refl, (refl, (refl, f)))
    ∙ ap (◌∷◌ (118 ∷ 109 ∷ 61 ∷ vm)) (split-Free 38 (116 ∷ 111 ∷ 61 ∷ to) (refl, (refl, (refl, g))))

pub query_param-send_query :
    (vm to : Text)
    → Free 38 vm
    → Free 38 to
    → (query_param (some (send_query vm to)) vm_key ≡ some vm)
      × (query_param (some (send_query vm to)) to_key ≡ some to)
unfolding query_param find_pair split_once compare_text
query_param-send_query vm to f g = (
  ap (find_pair vm_key) (send_query-split vm to f g),
  ap (find_pair to_key) (send_query-split vm to f g),
)

send_request-send_query :
    (parse_id : Text → Option VmId) (vm to : Text) (id : VmId)
    → Free 38 vm
    → Free 38 to
    → parse_id vm ≡ some id
    → send_request parse_id (some (send_query vm to)) ≡ send_running id to
unfolding send_request
send_request-send_query parse_id vm to id f g p =
    let (at_vm, at_to) = query_param-send_query vm to f g in ground (arith, at_vm, at_to)

module _ (h : Host) (drain_deadline patience : ℕ) (b : Between h drain_deadline patience) where
  serve_send-running :
      (query to : Text) (id : VmId) (d : Daemon h drain_deadline patience)
      → send_request b.parse_id (some query) ≡ send_running id to
      → let (s, d') = migrate_send h drain_deadline patience id to d in
        serve_send b.parse_id h drain_deadline patience b.send_fresh (some query) d
        ≡ (answered s, d')
  unfolding serve_send
  serve_send-running query to id d e = ground (arith, e)

  -- A request to send a running VM away is served by `migrate_send` with that VM and target.
  respond-send :
      (vm to : Text) (id : VmId) (d : Daemon h drain_deadline patience)
      → Free 38 vm
      → Free 38 to
      → b.parse_id vm ≡ some id
      → let (s, d') = migrate_send h drain_deadline patience id to d in
        respond h drain_deadline patience b send_suffix (send_query vm to) d
        ≡ (code_of (answered s), d')
  unfolding route compare_text
  respond-send vm to id d f g p =
      ap (λ x. (code_of x.0, x.1))
        (serve_send-running (send_query vm to) to id d
          (send_request-send_query b.parse_id vm to id f g p))

  -- How the client takes the answer.
  abbrev pub taken : Status → Result (Unit {0}) Text
  taken status_ok = ok tt
  taken conflict = err (http_prefix ++ b.status_text 409)
  taken not_found = err (http_prefix ++ b.status_text 404)
  taken internal_error = err (http_prefix ++ b.status_text 500)

  -- What becomes of a call, by what becomes of the exchange.
  abbrev pub received_by :
      Passage
      → Text
      → Status × Daemon h drain_deadline patience
      → Daemons h drain_deadline patience b
      → Result (Unit {0}) Text × Daemons h drain_deadline patience b
  received_by passes base (s, d') net = (taken s, insert base d' net)
  received_by lost_before base (s, d') net = (err b.broken, net)
  received_by lost_after base (s, d') net = (err b.broken, insert base d' net)

  call-from :
      (status_of : Text → Text) (url vm to base : Text) (id : VmId)
      (d : Daemon h drain_deadline patience) (net : Daemons h drain_deadline patience b)
      → b.locate (url ++ send_suffix) ≡ some (base, send_suffix)
      → get base net ≡ some d
      → b.parse_id vm ≡ some id
      → Free 38 vm
      → Free 38 to
      → (p : Passage) → b.passage send_suffix (send_query vm to) d ≡ p
      → (http_daemon (web h drain_deadline patience b status_of)).migrate_send url vm to net
        ≡ received_by p base (migrate_send h drain_deadline patience id to d) net
  unfolding post
  call-from status_of url vm to base id d net l e i f g passes p =
      ground (arith, l, e, p, respond-send vm to id d f g i)
  call-from status_of url vm to base id d net l e i f g lost_before p =
      ground (arith, l, e, p, respond-send vm to id d f g i)
  call-from status_of url vm to base id d net l e i f g lost_after p =
      ground (arith, l, e, p, respond-send vm to id d f g i)

  -- The call of the client to have a VM sent away is the `migrate_send` of the daemon at that address
  -- with that VM and target, and no other daemon changes: if the exchange is not lost, the call
  -- succeeds exactly if the VM has moved, and otherwise says with which status it has not; if it is
  -- lost on the way there, the call fails and nothing changes; and if the answer is lost, the call
  -- fails after the daemon has done all that it was to do. The conditions are that the daemon is
  -- there, that the URL is taken apart where the client put it together, that the daemon reads the id
  -- back, that neither argument has an ampersand, and that a request that gets there is served to its
  -- end.
  pub migrate_send-call :
      (status_of : Text → Text) (url vm to base : Text) (id : VmId)
      (d : Daemon h drain_deadline patience) (net : Daemons h drain_deadline patience b)
      → b.locate (url ++ send_suffix) ≡ some (base, send_suffix)
      → get base net ≡ some d
      → b.parse_id vm ≡ some id
      → Free 38 vm
      → Free 38 to
      → (http_daemon (web h drain_deadline patience b status_of)).migrate_send url vm to net
        ≡ received_by
            (b.passage send_suffix (send_query vm to) d)
            base
            (migrate_send h drain_deadline patience id to d)
            net
  migrate_send-call status_of url vm to base id d net l e p f g =
      call-from status_of url vm to base id d net l e p f g
        (b.passage send_suffix (send_query vm to) d) refl
