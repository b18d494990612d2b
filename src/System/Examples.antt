-- ===== src/System/Examples.antt =====
-- A session in which the guest's turn ends before the drain request reaches it, and another is asked
-- for before the snapshot.
use sleepwalk.Prelude.{true, false, ◌≡◌, refl, none, [], ◌∷◌, inl}
use sleepwalk.Prelude.Results.{ok}
use sleepwalk.Proto.Ids.{Timestamp}
use sleepwalk.Proto.Vsock.{hello}
use sleepwalk.Guestd.Channel.{PseudoChannel, send_pseudo}
use sleepwalk.Guestd.Guest.{Guest, handle, start_turn, end_turn}
use sleepwalk.Guestd.Guest.Calls.{starts, ends, perform, history}
use sleepwalk.Hostd.Migrate.{
  RunningVm, quiescent, link_handshake, await_ack, link_drain, drain_to_quiescence,
}
use sleepwalk.System.Session.{
  Session, Faults, arrives, failed_after, tick, take_message, receive, session_host,
}
use sleepwalk.System.Session.Frozen.{Good, Drained, drain_to_quiescence-Drained}

abbrev noon : Timestamp
noon = record { nanos = 5 }

-- The transfer fails after the snapshot.
abbrev cut_short : Faults
cut_short = record {
  connects = λ n. true;
  reads = λ n. true;
  delivers = λ n. arrives;
  writes_path = λ n. true;
  writes_net = λ n. true;
  snapshots = λ n. failed_after;
  hung_up = λ n. false;
}

abbrev greeting_guest : Guest PseudoChannel
greeting_guest = record {
  vm_id = record { uuid = 3 };
  version = record { version = [] };
  chan = record { inbox = []; outbox = hello (record { uuid = 3 }) (record { version = [] }) ∷ [] };
  env = [];
  next_turn = record { counter = 1 };
  in_flight = none;
  gated = false;
  backlog = 0;
}

abbrev session : Session
session = record {
  guest = greeting_guest;
  schedule = (starts noon ∷ []) ∷ (ends noon ∷ []) ∷ [] ∷ [] ∷ [] ∷ [] ∷ (starts noon ∷ []) ∷ [];
  frozen = none;
  ticks = 0;
}

session-Good : Good session
session-Good = (inl (tt, tt), ((refl, (refl, (refl, (refl, (refl, (refl, (refl, tt))))))), tt))

-- The drain of this session reaches quiescence.
session_drains : (drain_to_quiescence (session_host noon cut_short) 250 9 session).0 ≡ ok quiescent
unfolding drain_to_quiescence link_drain link_handshake await_ack tick take_message receive history
    perform start_turn end_turn handle send_pseudo
session_drains = refl

drain_to_quiescence-Drained_example :
    Drained noon cut_short 250 9 (drain_to_quiescence (session_host noon cut_short) 250 9 session)
drain_to_quiescence-Drained_example =
    drain_to_quiescence-Drained noon cut_short 250 9 session session-Good

abbrev moving : RunningVm
moving = record { id = record { uuid = 3 }; vsock_uds = []; net = none }
