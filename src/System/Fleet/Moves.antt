-- ===== src/System/Fleet/Moves.antt =====
-- What a control step of the rebalancer over HTTP comes to at the host that the VM is to leave.
use mathlib.Core.Path.{ap, subst, ◌∙◌, sym}
use sleepwalk.Prelude.{
  ℕ, ◌≡◌, ◌≢◌, ◌⊎◌, inl, inr, refl, Bool, true, false, Option, none, some, ◌++◌, arith,
}
use sleepwalk.Prelude.Results.{Result, ok, err, pure, ◌>>◌}
use sleepwalk.Prelude.BTreeMap.{get, IsAscending, get-insert_self, get-insert_ne}
use sleepwalk.Prelude.Strings.{Free}
use sleepwalk.Proto.Ids.{Text, VmId, vm_ord, text_ord}
use sleepwalk.Hostd.Migrate.{
  Host, RunningVm, Status, status_ok, conflict, not_found, internal_error, Daemon, migrate_send,
}
use sleepwalk.Hostd.Migrate.Custody.{Gone, Settled, migrate_send-Settled}
use sleepwalk.Rebalancer.Placement.{Rebalance}
use sleepwalk.Rebalancer.Control.{
  CtlError, daemon, send_op, recv_op, HostEndpoint, Fleet, endpoint, DaemonApi, on_error, execute,
}
use sleepwalk.Rebalancer.Client.{
  send_suffix, send_query, recv_suffix, recv_query, post, http_daemon,
}
use sleepwalk.System.Fleet.{
  Between, Passage, passes, lost_before, lost_after, Daemons, web, respond, at_address,
}
use sleepwalk.System.Fleet.Calls.{received_by, migrate_send-call}

abbrev after_send :
    {N : Type 0} → Rebalance → Result (Unit {0}) Text × N → Result (Option Rebalance) CtlError × N
after_send mv (ok _, net) = (ok (some mv), net)
after_send mv (err e, net) = (err (daemon mv.from send_op e), net)

-- The two calls of a step, by what they come back with.
sent_by :
    {N : Type 0} (P : Result (Option Rebalance) CtlError × N → Type 0) (mv : Rebalance) (net : N)
    (q : Result (Unit {0}) Text × N)
    → P (after_send mv q)
    → P ((on_error (daemon mv.from send_op) (λ _. q) >> pure (some mv)) net)
sent_by P mv net (ok _, n) g = g
sent_by P mv net (err e, n) g = g

recv_ends :
    {N : Type 0} (P : Result (Option Rebalance) CtlError × N → Type 0) (mv : Rebalance) (net : N)
    (p : Result (Unit {0}) Text × N) (send : N → Result (Unit {0}) Text × N)
    → ((e : Text) → P (err (daemon mv.to recv_op e), p.1))
    → P (after_send mv (send p.1))
    → P (
        (on_error (daemon mv.to recv_op) (λ _. p)
            >> (on_error (daemon mv.from send_op) send >> pure (some mv)))
          net)
recv_ends P mv net (ok _, n) send f g = sent_by P mv n (send n) g
recv_ends P mv net (err e, n) send f g = f e

-- What holds of a step that knows both hosts, by how its two calls end.
execute-cases :
    (api : DaemonApi) (to_string : VmId → Text) (fleet : Fleet) (mv : Rebalance)
    (source target : HostEndpoint) (net : api.Net)
    → endpoint fleet mv.from ≡ ok source
    → endpoint fleet mv.to ≡ ok target
    → (P : Result (Option Rebalance) CtlError × api.Net → Type 0)
    → let (r, net1) = api.migrate_recv target.control_url target.data_listen net in
      ((e : Text) → P (err (daemon mv.to recv_op e), net1))
      → P (
          after_send mv
            (api.migrate_send source.control_url (to_string mv.vm) target.data_addr net1))
      → P (execute api to_string fleet mv net)
unfolding execute
execute-cases api to_string fleet mv source target net s t P f g = rw t (
    rw s (
      recv_ends P mv net (api.migrate_recv target.control_url target.data_listen net)
        (api.migrate_send source.control_url (to_string mv.vm) target.data_addr) f g))

module _ (h : Host) (drain_deadline patience : ℕ) (b : Between h drain_deadline patience)
    (status_of : Text → Text) where
  abbrev pub Dm : Type 0
  Dm = Daemon h drain_deadline patience

  abbrev pub Net : Type 0
  Net = Daemons h drain_deadline patience b

  abbrev pub client : DaemonApi
  client = http_daemon (web h drain_deadline patience b status_of)

  -- Every VM is where it was, and none was torn down.
  abbrev pub Unmoved : Dm → Dm → Type 0
  Unmoved d d' = ((j : VmId) → get j d'.vms ≡ get j d.vms) × (d'.torn.1 ≡ d.torn.1)

  -- The daemon at the address, if the step has succeeded and if it has not.
  abbrev pub Left : Text → VmId → Dm → Bool → Net → Type 0
  Left base id d moved net' = (d' : Dm) × (get base net' ≡ some d') × elim moved [
    | true ↦ Gone h drain_deadline patience id d d'
    | false ↦ Unmoved d d' ⊎ Gone h drain_deadline patience id d d'
  ]

  abbrev pub Stepped : Text → Rebalance → Dm → Result (Option Rebalance) CtlError × Net → Type 0
  Stepped base mv d (ok o, net') = (o ≡ some mv) × Left base mv.vm d true net'
  Stepped base mv d (err e, net') = Left base mv.vm d false net'

  at_address-ne :
      (base at path query : Text) (d : Dm) (net : Net) (p : Passage)
      → b.passage path query d ≡ p
      → base ≢ at
      → get base (at_address h drain_deadline patience b (some d) at path query net).1
        ≡ get base net
  at_address-ne base at path query d net passes p n =
      ground
        (arith, p, get-insert_ne base at (respond h drain_deadline patience b path query d).1 net n)
  at_address-ne base at path query d net lost_before p n = ground (arith, p)
  at_address-ne base at path query d net lost_after p n =
      ground
        (arith, p, get-insert_ne base at (respond h drain_deadline patience b path query d).1 net n)

  -- A request changes no daemon but the one at its address.
  elsewhere :
      (base at path query : Text) (o : Option Dm) (net : Net)
      → base ≢ at
      → get base (at_address h drain_deadline patience b o at path query net).1 ≡ get base net
  elsewhere base at path query none net n = refl
  elsewhere base at path query (some d) net n =
      at_address-ne base at path query d net (b.passage path query d) refl n

  received :
      (base at url listen : Text) (net : Net)
      → b.locate (url ++ recv_suffix) ≡ some (at, recv_suffix)
      → base ≢ at
      → get base (client.migrate_recv url listen net).1 ≡ get base net
  unfolding post
  received base at url listen net l n =
      ground (arith, l, elsewhere base at recv_suffix (recv_query listen) (get at net) net n)

  -- What a request to send has done, by its answer and by what has become of the exchange.
  sent-Stepped :
      (base : Text) (mv : Rebalance) (d d' : Dm) (net : Net) (s : Status) (p : Passage)
      → get base net ≡ some d
      → Settled h drain_deadline patience mv.vm d (s, d')
      → Stepped base mv d
          (after_send mv (received_by h drain_deadline patience b p base (s, d') net))
  sent-Stepped base mv d d' net s lost_before there k = (d, there, inl ((λ j. refl), refl))
  sent-Stepped base mv d d' net status_ok passes there k =
      (refl, (d', get-insert_self base d' net, k))
  sent-Stepped base mv d d' net conflict passes there k = (d', get-insert_self base d' net, inl k)
  sent-Stepped base mv d d' net not_found passes there k = (
    d',
    get-insert_self base d' net,
    inl ((λ j. ap (λ x. get j x.vms) k.1), ap (λ x. x.torn.1) k.1),
  )
  sent-Stepped base mv d d' net internal_error passes there k =
      (d', get-insert_self base d' net, inr k)
  sent-Stepped base mv d d' net status_ok lost_after there k =
      (d', get-insert_self base d' net, inr k)
  sent-Stepped base mv d d' net conflict lost_after there k =
      (d', get-insert_self base d' net, inl k)
  sent-Stepped base mv d d' net not_found lost_after there k = (
    d',
    get-insert_self base d' net,
    inl ((λ j. ap (λ x. get j x.vms) k.1), ap (λ x. x.torn.1) k.1),
  )
  sent-Stepped base mv d d' net internal_error lost_after there k =
      (d', get-insert_self base d' net, inr k)

  module _ (to_string : VmId → Text) (fleet : Fleet) (mv : Rebalance) (source target : HostEndpoint)
      (base at : Text) (d : Dm) (net : Net) where
    -- The step runs between two daemons of the fleet that are not at one address, and the source is
    -- in order: it is there, its VMs are kept under their own ids, and it reads ids back.
    pub record InOrder : Type 0 where
      pub source_known : endpoint fleet mv.from ≡ ok source
      pub target_known : endpoint fleet mv.to ≡ ok target
      pub send_located : b.locate (source.control_url ++ send_suffix) ≡ some (base, send_suffix)
      pub recv_located : b.locate (target.control_url ++ recv_suffix) ≡ some (at, recv_suffix)
      pub apart : base ≢ at
      pub source_there : get base net ≡ some d
      pub ascending : IsAscending d.vms
      pub own_id : (vm : RunningVm) → get mv.vm d.vms ≡ some vm → vm.id ≡ mv.vm
      pub read_back : b.parse_id (to_string mv.vm) ≡ some mv.vm
      pub plain_id : Free 38 (to_string mv.vm)
      pub plain_target : Free 38 target.data_addr

    -- A control step over HTTP between two daemons of the fleet that are not at one address, where the
    -- source is there, keeps its VMs under their own ids, in order, and reads ids back, the two URLs
    -- are taken apart where they were put together, neither the id nor the target has an ampersand,
    -- and a request that gets to a daemon is served to its end (the answer may be lost), leaves
    -- the source with every VM it had, and none torn down, or without exactly the VM that was to move,
    -- which was torn down once; and if the step succeeds, it is the second.
    pub execute-Stepped : InOrder → Stepped base mv d (execute client to_string fleet mv net)
    unfolding execute
    execute-Stepped o =
        let net1 : Net = (client.migrate_recv target.control_url target.data_listen net).1 in
        let there : get base net1 ≡ some d =
          received base at target.control_url target.data_listen net o.recv_located o.apart
          ∙ o.source_there in
        let sent =
          migrate_send-call h drain_deadline patience b status_of source.control_url
            (to_string mv.vm) target.data_addr base mv.vm d net1 o.send_located there o.read_back
            o.plain_id o.plain_target in
        let settled =
          migrate_send-Settled h drain_deadline patience mv.vm target.data_addr d o.ascending
            o.own_id in
        let done =
          subst (λ x. Stepped base mv d (after_send mv x)) (sym sent)
            (sent-Stepped base mv d
              (migrate_send h drain_deadline patience mv.vm target.data_addr d).1 net1
              (migrate_send h drain_deadline patience mv.vm target.data_addr d).0
              (b.passage send_suffix (send_query (to_string mv.vm) target.data_addr) d) there
              settled) in
        execute-cases client to_string fleet mv source target net o.source_known o.target_known
          (Stepped base mv d) (λ e. (d, there, inl ((λ j. refl), refl))) done
