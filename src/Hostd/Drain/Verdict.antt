-- ===== src/Hostd/Drain/Verdict.antt =====
-- The verdict of a drain against all the signals observed for it.
use sleepwalk.Prelude.{
  ◌≤◌, ◌<◌, ◌≡◌, refl, ◌↔◌, Bool, true, false, Option, none, some, List, [], ◌∷◌, length, all,
  arith,
}
use sleepwalk.Proto.Ids.{TurnId}
use sleepwalk.Proto.Vsock.{GuestToHost, turn_started, turn_ended, drain_ack}
use sleepwalk.Hostd.Quiesce.{
  InfraThresholds, QuiescenceDetector, new_detector, app_is_quiet, infra_is_quiet, is_quiescent,
}
use sleepwalk.Hostd.Quiesce.Window.{record_all, readings, last_quiet, last_n, infra_is_quiet_iff}
use sleepwalk.Hostd.Drain.{
  quiescent, new_coordinator, observe_guest, observe_infra, observe_storage, verdict,
}

-- One signal of a drain.
pub data Signal (F : Type 0) : Type 0 where
  from_guest : GuestToHost → Signal F
  from_infra : F → Bool → Signal F
  from_storage : Bool → Signal F

-- The turn that the guest's messages leave open, where a drain's answer is to be believed.
abbrev pub reported : Option TurnId → GuestToHost → Option TurnId
reported w (turn_started t now) = some t
reported w (turn_ended t now) = none
reported w (drain_ack o) = o
reported w _ = w

abbrev pub acked : Bool → GuestToHost → Bool
acked b (drain_ack o) = true
acked b _ = b

module _ {F : Type 0} where
  pub observe : Signal F → QuiescenceDetector F → QuiescenceDetector F
  observe (from_guest m) d = observe_guest m d
  observe (from_infra cpu quiet) d = observe_infra cpu quiet d
  observe (from_storage b) d = observe_storage b d

  pub observe_all : List (Signal F) → QuiescenceDetector F → QuiescenceDetector F
  observe_all [] d = d
  observe_all (s ∷ ss) d = observe_all ss (observe s d)

  -- What the signals say of each layer, each read off its own signals alone.
  pub open_report : Option TurnId → List (Signal F) → Option TurnId
  open_report w [] = w
  open_report w (from_guest m ∷ ss) = open_report (reported w m) ss
  open_report w (_ ∷ ss) = open_report w ss

  pub was_acked : Bool → List (Signal F) → Bool
  was_acked b [] = b
  was_acked b (from_guest m ∷ ss) = was_acked (acked b m) ss
  was_acked b (_ ∷ ss) = was_acked b ss

  pub samples_of : List (Signal F) → List (F × Bool)
  samples_of [] = []
  samples_of (from_infra cpu quiet ∷ ss) = (cpu, quiet) ∷ samples_of ss
  samples_of (_ ∷ ss) = samples_of ss

  pub synced : Bool → List (Signal F) → Bool
  synced b [] = b
  synced b (from_storage c ∷ ss) = synced c ss
  synced b (_ ∷ ss) = synced b ss

  -- The detector after the signals is made of the three readings.
  record Reads (ss : List (Signal F)) (d e : QuiescenceDetector F) : Type 0 where
    app_open : e.app.in_flight ≡ open_report d.app.in_flight ss
    app_gated : e.app.gated ≡ was_acked d.app.gated ss
    infra_all : e.infra ≡ record_all (samples_of ss) d.infra
    storage_last : e.storage.caught_up ≡ synced d.storage.caught_up ss

  observe_all-Reads :
      (ss : List (Signal F)) (d : QuiescenceDetector F) → Reads ss d (observe_all ss d)
  unfolding observe_all observe open_report was_acked samples_of synced record_all observe_guest
      observe_infra observe_storage
  observe_all-Reads [] d = record {
    app_open = refl;
    app_gated = refl;
    infra_all = refl;
    storage_last = refl;
  }
  observe_all-Reads (from_guest m ∷ ss) d = ground (arith, observe_all-Reads ss (observe_guest m d))
  observe_all-Reads (from_infra cpu quiet ∷ ss) d =
      ground (arith, observe_all-Reads ss (observe_infra cpu quiet d))
  observe_all-Reads (from_storage b ∷ ss) d =
      ground (arith, observe_all-Reads ss (observe_storage b d))

  -- All that a snapshot needs to have been observed.
  pub record Evidence (lt : F → F → Bool) (th : InfraThresholds F) (ss : List (Signal F))
      : Type 0 where
    pub gate_closed : was_acked false ss ≡ true
    pub no_turn : open_report none ss ≡ none
    pub sampled : (0 < th.samples) × (th.samples ≤ length (samples_of ss))
    pub machine_quiet :
        (last_quiet false (samples_of ss) ≡ true)
        × (all (λ c. lt c th.cpu_pct) (last_n th.samples (readings (samples_of ss))) ≡ true)
    pub storage_synced : synced false ss ≡ true

  is_quiescent_iff :
      (lt : F → F → Bool) (d : QuiescenceDetector F)
      → (is_quiescent lt d ≡ true)
        ↔ (d.app.gated ≡ true)
          × (d.app.in_flight ≡ none)
          × (infra_is_quiet lt d.infra ≡ true)
          × (d.storage.caught_up ≡ true)
  unfolding is_quiescent app_is_quiet
  is_quiescent_iff lt d = ground arith

  -- The verdict of a fresh drain is `quiescent` exactly if there is evidence for every layer: the
  -- guest has acked the drain, its messages leave no turn open, the machine was quiet for the whole
  -- window of samples and at its last tick, and the storage was last reported in sync. With no
  -- signal at all it is `busy`.
  pub verdict-quiescent_iff :
      (lt : F → F → Bool) (th : InfraThresholds F) (ss : List (Signal F))
      → (verdict lt (observe_all ss (new_coordinator th)) ≡ quiescent) ↔ Evidence lt th ss
  unfolding verdict new_detector
  verdict-quiescent_iff lt th ss =
      let d = observe_all ss (new_coordinator th) in
      let r = observe_all-Reads ss (new_coordinator th) in
      let i = infra_is_quiet_iff lt th (samples_of ss) in
      ground (arith, r, i, is_quiescent_iff lt d)
