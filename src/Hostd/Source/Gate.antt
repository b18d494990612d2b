-- ===== src/Hostd/Source/Gate.antt =====
-- What must have been before a snapshot is taken, and what is left behind.
use mathlib.Core.Path.{ap, subst, sym}
use sleepwalk.Prelude.{ℕ, Bool, ◌⊎◌, inl, inr, All, ◌≡◌, refl, true, false, List, [], ◌∷◌, arith}
use sleepwalk.Prelude.Results.{Result, ok, err, ◌>>=◌, ◌>>◌}
use sleepwalk.Proto.Ids.{Text}
use sleepwalk.Hostd.Firecracker.Commands.{Command, pause_vm, save_snapshot}
use sleepwalk.Hostd.Migrate.{
  Host, LinkError, DrainState, quiescent, busy, link_handshake, link_drain,
}
use sleepwalk.Hostd.Source.{
  Source, SourceError, work_dir, process, firecracker, transfer, connect, handshake, drain,
  not_quiescent, SourceTiming, Holding, SourceOrder, source_commands, State, call_all, or_drop,
  or_abort, cleared, drain_guest, snapshot_and_send, migrate_source, quiet, effect,
}

abbrev pub unheld : Holding
unheld = record { work = false; process = false }

-- The work dir without the process.
abbrev pub work_left : Holding
work_left = record { work = true; process = false }

abbrev both_held : Holding
both_held = record { work = true; process = true }

-- The calls that freeze a guest and write it down.
abbrev pub freezes : Command → Bool
freezes pause_vm = true
freezes (save_snapshot t) = true
freezes _ = false

module _ (h : Host) (s : Source h) (drain_deadline patience : ℕ) where
  -- What the host may come to, from the world `w0` on, by any effects other than a transfer and the
  -- calls that freeze a guest and write it down.
  pub data Unfrozen (w0 : h.World) : h.World → Type 0 where
    starts : Unfrozen w0 w0
    makes_work : {w : h.World} → Unfrozen w0 w → Unfrozen w0 (s.create_work w).1
    spawns : {w : h.World} → Unfrozen w0 w → Unfrozen w0 (s.spawn_process w).1
    calls :
        {w : h.World} (c : Command) → freezes c ≡ false → Unfrozen w0 w → Unfrozen w0 (s.call c w).1
    connects : {w : h.World} → Unfrozen w0 w → Unfrozen w0 (s.connect_retry w).1
    greets :
        {w : h.World} → Unfrozen w0 w → Unfrozen w0 (link_handshake h drain_deadline patience w).1
    drains : {w : h.World} → Unfrozen w0 w → Unfrozen w0 (link_drain h drain_deadline patience w).1

  abbrev S : Type 0
  S = State h s drain_deadline patience

  module _ (w0 : h.World) (o : SourceOrder) (addr : Text) where
    -- A drain of a guest that nothing had frozen said quiescent, and left this world.
    abbrev pub Drained : h.World → Type 0
    Drained w =
        (v : h.World) × Unfrozen w0 v × (link_drain h drain_deadline patience v ≡ (ok quiescent, w))

    -- From such a world, `snapshot_and_send` has answered this.
    abbrev pub Frozen : Result SourceTiming (SourceError h.Error) → Type 0
    Frozen r =
        (w : h.World) × Drained w
        × ((snapshot_and_send h s drain_deadline patience o addr [] (w, both_held)).0 ≡ r)

    -- Nothing has frozen the guest, and the process was killed, or was never there.
    abbrev pub Dropped : h.World → Type 0
    Dropped w = (v : h.World) × Unfrozen w0 v × (w ≡ s.kill v)

    abbrev pub Aborted : h.World → Type 0
    Aborted w = (v : h.World) × Unfrozen w0 v × (w ≡ s.remove_socket (s.remove_work (s.kill v)))

    abbrev pub Gated : Result SourceTiming (SourceError h.Error) × S → Type 0
    Gated (ok timing, (w, k)) = Frozen (ok timing) × (k ≡ unheld)
    Gated (err (transfer e), (w, k)) = Frozen (err (transfer e)) × (k ≡ work_left)
    Gated (err (work_dir e), (w, k)) = Unfrozen w0 w × (k ≡ unheld)
    Gated (err (process e), (w, k)) = Unfrozen w0 w × (k ≡ work_left)
    Gated (err (firecracker e), (w, k)) =
        (Dropped w ⊎ Frozen (err (firecracker e))) × (k ≡ work_left)
    Gated (err (connect e), (w, k)) = Aborted w × (k ≡ unheld)
    Gated (err (handshake e), (w, k)) = Aborted w × (k ≡ unheld)
    Gated (err (drain e), (w, k)) = Aborted w × (k ≡ unheld)
    Gated (err not_quiescent, (w, k)) = Aborted w × (k ≡ unheld)

    abbrev Called : Result (Unit {0}) (SourceError h.Error) × S → Type 0
    Called (ok u, (w, k)) = Unfrozen w0 w × (k ≡ both_held)
    Called (err (firecracker e), (w, k)) = Unfrozen w0 w × (k ≡ both_held)
    Called (err e, x) = ⊥

    call-Called :
        (cs : List Command) (r : Result (Unit {0}) h.Error) (w : h.World)
        → Unfrozen w0 w
        → Called (call_all h s drain_deadline patience cs (w, both_held))
        → Called (
            (effect h s drain_deadline patience firecracker (λ v. (r, w))
                >> call_all h s drain_deadline patience cs)
              (w, both_held))
    call-Called cs (ok _) w f c = c
    call-Called cs (err e) w f c = (f, refl)

    call_all-Called :
        (cs : List Command) (w : h.World)
        → All (λ c. freezes c ≡ false) cs
        → Unfrozen w0 w
        → Called (call_all h s drain_deadline patience cs (w, both_held))
    call_all-Called [] w a f = (f, refl)
    call_all-Called (c ∷ cs) w a f =
        let g : Unfrozen w0 (s.call c w).1 = calls c a.0 f in
        call-Called cs (s.call c w).0 (s.call c w).1 g (call_all-Called cs (s.call c w).1 a.1 g)

    abbrev Sent : Result SourceTiming (SourceError h.Error) × S → Type 0
    Sent (ok timing, (w, k)) = k ≡ both_held
    Sent (err (firecracker e), (w, k)) = k ≡ both_held
    Sent (err (transfer e), (w, k)) = k ≡ both_held
    Sent (err e, x) = ⊥

    snapshot_and_send-Sent :
        (w : h.World)
        → Sent (snapshot_and_send h s drain_deadline patience o addr [] (w, both_held))
    unfolding snapshot_and_send
    snapshot_and_send-Sent w = ground arith

    abbrev Asked : Result (Unit {0}) (SourceError h.Error) × S → Type 0
    Asked (ok u, (w, k)) = Drained w × (k ≡ both_held)
    Asked (err (connect e), (w, k)) = Unfrozen w0 w
    Asked (err (handshake e), (w, k)) = Unfrozen w0 w
    Asked (err (drain e), (w, k)) = Unfrozen w0 w
    Asked (err not_quiescent, (w, k)) = Unfrozen w0 w
    Asked (err e, x) = ⊥

    answer-Asked :
        (w w' : h.World) (r : Result DrainState (LinkError h.Error))
        → Unfrozen w0 w
        → link_drain h drain_deadline patience w ≡ (r, w')
        → Asked (
            (effect h s drain_deadline patience drain (λ v. (r, w'))
                >>= quiet h s drain_deadline patience)
              (w, both_held))
    answer-Asked w w' (ok quiescent) f e = ((w, f, e), refl)
    answer-Asked w w' (ok busy) f e = subst (Unfrozen w0) (ap (λ x. x.1) e) (drains f)
    answer-Asked w w' (err x) f e = subst (Unfrozen w0) (ap (λ x. x.1) e) (drains f)

    drain_guest-Asked :
        (w : h.World)
        → Unfrozen w0 w
        → Asked (drain_guest h s drain_deadline patience (w, both_held))
    unfolding drain_guest
    drain_guest-Asked w f =
        let w1 : h.World = (s.connect_retry w).1 in
        let w2 : h.World = (link_handshake h drain_deadline patience w1).1 in
        let (r, w3) = link_drain h drain_deadline patience w2 in
        ground
          (arith, connects f, greets (connects f), answer-Asked w2 w3 r (greets (connects f)) refl)

    abbrev send : S → Result SourceTiming (SourceError h.Error) × S
    send =
        or_drop h s drain_deadline patience
          (snapshot_and_send h s drain_deadline patience o addr [])
        >>= λ timing x. (ok timing, cleared h s drain_deadline patience x)

    Sent-Gated :
        (p : Result SourceTiming (SourceError h.Error) × S) (x : S)
        → Frozen p.0
        → Sent p
        → Gated (
            (or_drop h s drain_deadline patience (λ v. p)
                >>= (λ timing y. (ok timing, cleared h s drain_deadline patience y)))
              x)
    Sent-Gated (ok t, (w, k)) x d u = (d, refl)
    Sent-Gated (err (firecracker e), (w, k)) x d u =
        (inr d, ap {A = Holding} (λ v. record v { process = false }) u)
    Sent-Gated (err (transfer e), (w, k)) x d u =
        (d, ap {A = Holding} (λ v. record v { process = false }) u)
    Sent-Gated (err (work_dir e), y) x d u = absurd u
    Sent-Gated (err (process e), y) x d u = absurd u
    Sent-Gated (err (connect e), y) x d u = absurd u
    Sent-Gated (err (handshake e), y) x d u = absurd u
    Sent-Gated (err (drain e), y) x d u = absurd u
    Sent-Gated (err not_quiescent, y) x d u = absurd u

    send-Gated : (w : h.World) (k : Holding) → Drained w → k ≡ both_held → Gated (send (w, k))
    send-Gated w k d e =
        subst (λ v. Gated (send (w, v))) (sym e)
          (Sent-Gated (snapshot_and_send h s drain_deadline patience o addr [] (w, both_held))
            (w, both_held) (w, d, refl) (snapshot_and_send-Sent w))

    abbrev ask : S → Result SourceTiming (SourceError h.Error) × S
    ask = or_abort h s drain_deadline patience (drain_guest h s drain_deadline patience) >> send

    Asked-Gated :
        (p : Result (Unit {0}) (SourceError h.Error) × S) (x : S)
        → Asked p
        → Gated ((or_abort h s drain_deadline patience (λ v. p) >> send) x)
    Asked-Gated (ok u, (w, k)) x a = send-Gated w k a.0 a.1
    Asked-Gated (err (connect e), (w, k)) x a = ((w, a, refl), refl)
    Asked-Gated (err (handshake e), (w, k)) x a = ((w, a, refl), refl)
    Asked-Gated (err (drain e), (w, k)) x a = ((w, a, refl), refl)
    Asked-Gated (err not_quiescent, (w, k)) x a = ((w, a, refl), refl)
    Asked-Gated (err (work_dir e), y) x a = absurd a
    Asked-Gated (err (process e), y) x a = absurd a
    Asked-Gated (err (firecracker e), y) x a = absurd a
    Asked-Gated (err (transfer e), y) x a = absurd a

    ask-Gated : (w : h.World) (k : Holding) → Unfrozen w0 w → k ≡ both_held → Gated (ask (w, k))
    ask-Gated w k f e =
        subst (λ v. Gated (ask (w, v))) (sym e)
          (Asked-Gated (drain_guest h s drain_deadline patience (w, both_held)) (w, both_held)
            (drain_guest-Asked w f))

    Called-Gated :
        (p : Result (Unit {0}) (SourceError h.Error) × S) (x : S)
        → Called p
        → Gated ((or_drop h s drain_deadline patience (λ v. p) >> ask) x)
    Called-Gated (ok u, (w, k)) x a = ask-Gated w k a.0 a.1
    Called-Gated (err (firecracker e), (w, k)) x a =
        (inl (w, a.0, refl), ap {A = Holding} (λ v. record v { process = false }) a.1)
    Called-Gated (err (transfer e), y) x a = absurd a
    Called-Gated (err (work_dir e), y) x a = absurd a
    Called-Gated (err (process e), y) x a = absurd a
    Called-Gated (err (connect e), y) x a = absurd a
    Called-Gated (err (handshake e), y) x a = absurd a
    Called-Gated (err (drain e), y) x a = absurd a
    Called-Gated (err not_quiescent, y) x a = absurd a

    boots : All (λ c. freezes c ≡ false) (source_commands o)
    boots = (refl, (refl, (refl, (refl, (refl, tt)))))

    -- A VM that is booted to be sent away is paused, snapshotted and sent only in the world that a
    -- drain of its guest has left that said quiescent, before which it was neither paused nor
    -- snapshotted; and a migration that has failed before that has done neither. When its migration
    -- ends, no process is left; the work dir is left exactly if the process could not be started,
    -- Firecracker refused a call, or the transfer failed.
    pub migrate_source-Gated :
        Gated (migrate_source h s drain_deadline patience o addr (w0, unheld))
    unfolding migrate_source
    migrate_source-Gated =
        let w1 : h.World = (s.create_work w0).1 in
        let w2 : h.World = (s.spawn_process w1).1 in
        let cs : List Command = source_commands o in
        let made : Unfrozen w0 w1 = makes_work starts in
        let spawned : Unfrozen w0 w2 = spawns made in
        ground (
          arith,
          made,
          spawned,
          Called-Gated (call_all h s drain_deadline patience cs (w2, both_held)) (w2, both_held)
              (call_all-Called cs w2 boots spawned),
        )
