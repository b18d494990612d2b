-- ===== src/Proto/Fsm/Reach.antt =====
-- Which phases the public methods of `Migration` lead to, and what they carry along.
use sleepwalk.Prelude.{◌≡◌, refl, ap, ◌∙◌, ◌≢◌, ◌↔◌}
use sleepwalk.Proto.Fsm.{
  Phase, Abortable, intent_abortable, draining_abortable, quiescent_abortable, Migration, drain,
  quiesce, snapshot, transfer, restore, cutover, clean_up, abort,
}

-- One call of a public method.
pub data Transition : Phase → Phase → Type 0 where
  drains : Transition Phase.intent Phase.draining
  quiesces : Transition Phase.draining Phase.quiescent
  snapshots : Transition Phase.quiescent Phase.snapshotting
  transfers : Transition Phase.snapshotting Phase.transferring
  restores : Transition Phase.transferring Phase.restoring
  cuts_over : Transition Phase.restoring Phase.cut_over
  cleans_up : Transition Phase.cut_over Phase.cleanup
  aborts : {s : Phase} → Abortable s → Transition s Phase.stable

pub call : {s t : Phase} → Transition s t → Migration s → Migration t
call drains m = drain m
call quiesces m = quiesce m
call snapshots m = snapshot m
call transfers m = transfer m
call restores m = restore m
call cuts_over m = cutover m
call cleans_up m = clean_up m
call (aborts a) m = abort a m

pub data Calls (s : Phase) : Phase → Type 0 where
  none_yet : Calls s s
  then_call : {t u : Phase} → Calls s t → Transition t u → Calls s u

pub call_all : {s t : Phase} → Calls s t → Migration s → Migration t
unfolding call
call_all none_yet m = m
call_all (then_call cs c) m = call c (call_all cs m)

-- The VM and its two hosts.
pub record SameMove {s t : Phase} (m : Migration s) (n : Migration t) : Type 0 where
  pub same_vm : n.vm ≡ m.vm
  pub same_from : n.from ≡ m.from
  pub same_to : n.to ≡ m.to

call-SameMove : {s t : Phase} (c : Transition s t) (m : Migration s) → SameMove m (call c m)
unfolding call drain quiesce snapshot transfer restore cutover clean_up abort
call-SameMove drains m = record { same_vm = refl; same_from = refl; same_to = refl }
call-SameMove _ m = record { same_vm = refl; same_from = refl; same_to = refl }

-- Whatever methods are called in whatever order they allow, the migration stays about the same VM
-- and the same two hosts.
pub call_all-SameMove :
    {s t : Phase} (cs : Calls s t) (m : Migration s) → SameMove m (call_all cs m)
unfolding call_all
call_all-SameMove none_yet m = record { same_vm = refl; same_from = refl; same_to = refl }
call_all-SameMove (then_call cs c) m =
    let before = call_all-SameMove cs m in
    let after = call-SameMove c (call_all cs m) in
    record {
      same_vm = after.same_vm ∙ before.same_vm;
      same_from = after.same_from ∙ before.same_from;
      same_to = after.same_to ∙ before.same_to;
    }

-- The phases from the snapshot on.
pub data Committed : Phase → Type 0 where
  snapshotting_committed : Committed Phase.snapshotting
  transferring_committed : Committed Phase.transferring
  restoring_committed : Committed Phase.restoring
  cut_over_committed : Committed Phase.cut_over
  cleanup_committed : Committed Phase.cleanup

Transition-Committed : {s t : Phase} → Transition s t → Committed s → Committed t
Transition-Committed transfers c = transferring_committed
Transition-Committed restores c = restoring_committed
Transition-Committed cuts_over c = cut_over_committed
Transition-Committed cleans_up c = cleanup_committed
Transition-Committed (aborts intent_abortable) c = elim c [ ]
Transition-Committed (aborts draining_abortable) c = elim c [ ]
Transition-Committed (aborts quiescent_abortable) c = elim c [ ]
Transition-Committed drains c = elim c [ ]
Transition-Committed quiesces c = elim c [ ]
Transition-Committed snapshots c = elim c [ ]

pub calls-Committed : {s t : Phase} → Calls s t → Committed s → Committed t
calls-Committed none_yet c = c
calls-Committed (then_call cs d) c = Transition-Committed d (calls-Committed cs c)

-- First the one, then the other.
pub append_calls : {s t u : Phase} → Calls s t → Calls t u → Calls s u
append_calls before none_yet = before
append_calls before (then_call after c) = then_call (append_calls before after) c

-- The calls are some that lead to `quiescent`, then the snapshot, and then some more.
abbrev pub ThroughQuiescent : {s t : Phase} → Calls s t → Type 0
ThroughQuiescent {s} {t} cs =
    (before : Calls s Phase.quiescent) × (after : Calls Phase.snapshotting t) × (cs
      ≡ append_calls (then_call before snapshots) after)

-- A call after the snapshot changes nothing about that.
one_more :
    {s t u : Phase} (cs : Calls s t) (c : Transition t u)
    → ThroughQuiescent cs
    → ThroughQuiescent (then_call cs c)
unfolding append_calls
one_more cs c (before, after, e) = (before, then_call after c, ap (λ x. then_call x c) e)

commit_passes : {s t : Phase} → ¬ Committed s → (cs : Calls s t) → Committed t → ThroughQuiescent cs
unfolding append_calls
commit_passes before none_yet c = absurd (before c)
commit_passes before (then_call cs snapshots) c = (cs, none_yet, refl)
commit_passes before (then_call cs transfers) c =
    one_more cs transfers (commit_passes before cs snapshotting_committed)
commit_passes before (then_call cs restores) c =
    one_more cs restores (commit_passes before cs transferring_committed)
commit_passes before (then_call cs cuts_over) c =
    one_more cs cuts_over (commit_passes before cs restoring_committed)
commit_passes before (then_call cs cleans_up) c =
    one_more cs cleans_up (commit_passes before cs cut_over_committed)
commit_passes before (then_call cs (aborts a)) c = elim c [ ]
commit_passes before (then_call cs drains) c = elim c [ ]
commit_passes before (then_call cs quiesces) c = elim c [ ]

-- Every sequence of method calls from `intent` to a phase from the snapshot on is some calls to
-- `quiescent`, then `snapshot`, and then some more calls.
pub commit_needs_quiescent :
    {t : Phase} (cs : Calls Phase.intent t) → Committed t → ThroughQuiescent cs
commit_needs_quiescent cs c = commit_passes (λ i. elim i [ ]) cs c

may_abort : (s : Phase) → s ≢ Phase.stable → ¬ Committed s → Abortable s
may_abort Phase.intent ne b = intent_abortable
may_abort Phase.draining ne b = draining_abortable
may_abort Phase.quiescent ne b = quiescent_abortable
may_abort Phase.snapshotting ne b = absurd (b snapshotting_committed)
may_abort Phase.transferring ne b = absurd (b transferring_committed)
may_abort Phase.restoring ne b = absurd (b restoring_committed)
may_abort Phase.cut_over ne b = absurd (b cut_over_committed)
may_abort Phase.cleanup ne b = absurd (b cleanup_committed)
may_abort Phase.stable ne b = absurd (ne refl)

-- A phase that is not `stable` already can still be aborted, by some calls, exactly if it is not
-- one of those from the snapshot on.
pub stable_iff_not-Committed :
    (s : Phase) → s ≢ Phase.stable → Calls s Phase.stable ↔ (¬ Committed s)
stable_iff_not-Committed s ne = (
  (λ cs c. elim (calls-Committed cs c) [ ]),
  λ before. then_call none_yet (aborts (may_abort s ne before)),
)
