-- ===== src/Rebalancer/Client/Loop.antt =====
-- How the loop round the control step ends.
use sleepwalk.Prelude.{
  ℕ, ◌<◌, ◌≡◌, length, ◌⊎◌, All, Bool, true, false, Option, none, some, List, [], ◌∷◌,
}
use sleepwalk.Prelude.BTreeMap.{BTreeMap, insert}
use sleepwalk.Prelude.Results.{Result, ok, err, Method, pure}
use sleepwalk.Proto.Ids.{Text, VmId, HostId}
use sleepwalk.Proto.Compat.{CompatClass}
use sleepwalk.Proto.Ids.{host_ord, vm_ord}
use sleepwalk.Rebalancer.Placement.{Float, Pressure, Rebalance, pick_victim, new_pressure}
use sleepwalk.Rebalancer.Control.{empty_fleet, execute}
use sleepwalk.Rebalancer.Client.{
  Web, http_daemon, contextual, step_error, HostCfg, fleet_from, MainError, Outcome, converged,
  no_eligible_move, max_reached, StatusResp, Readings, no_readings, fetch_status, observe, any_hot,
  act_on, go_on, run_steps,
}

module _ (fl : Float) (web : Web) (decode : Text → Option (StatusResp fl))
    (parse_id : Text → Option VmId) (to_string : VmId → Text) (gt : fl.F → fl.F → Bool)
    (watermark : fl.F) (hosts : List HostCfg) where
  abbrev pub look : Method web.Net MainError (Readings fl)
  look = observe fl web decode parse_id to_string hosts (no_readings fl)

  abbrev pub pick : Readings fl → Option Rebalance
  pick r = pick_victim fl r.placement r.pressure r.idle (new_pressure fl watermark) r.compat

  abbrev pub hot : BTreeMap HostId (Pressure fl) → Bool
  hot = any_hot fl web decode parse_id to_string gt watermark hosts

  abbrev act : Readings fl → Method web.Net MainError (Option Rebalance)
  act = act_on fl web decode parse_id to_string gt watermark hosts

  abbrev pub loop : ℕ → Method web.Net MainError (List Rebalance × Outcome)
  loop = run_steps fl web decode parse_id to_string gt watermark hosts

  abbrev follow :
      Method web.Net MainError (List Rebalance × Outcome)
      → Readings fl
      → Option Rebalance
      → Method web.Net MainError (List Rebalance × Outcome)
  follow = go_on fl web decode parse_id to_string gt watermark hosts

  -- A host is above the watermark.
  abbrev pub SomeHot : BTreeMap HostId (Pressure fl) → Type 0
  SomeHot [] = ⊥
  SomeHot ((_, p) ∷ ps) = (gt p.reading watermark ≡ true) ⊎ SomeHot ps

  abbrev pub Cool : HostId × Pressure fl → Type 0
  Cool e = gt e.1.reading watermark ≡ false

  abbrev pub Settled : Outcome → Readings fl → Type 0
  Settled converged r = All Cool r.pressure
  Settled no_eligible_move r = SomeHot r.pressure
  Settled max_reached r = ⊥

  -- Every host of the list has been asked for its status, one after the other from the first network
  -- to the second, and the answers are put into the two maps.
  abbrev pub AllRead :
      List HostCfg
      → web.Net
      → web.Net
      → BTreeMap HostId (Pressure fl)
      → BTreeMap HostId CompatClass
      → Readings fl
      → Type 0
  AllRead [] w w' ps cs r = (w' ≡ w) × (r.pressure ≡ ps) × (r.compat ≡ cs)
  AllRead (h ∷ hs) w w' ps cs r =
      (st : StatusResp fl) × (w1 : web.Net) × (fetch_status fl web decode parse_id to_string h w
        ≡ (ok st, w1))
      × AllRead hs w1 w' (insert h.id (new_pressure fl st.pressure) ps) (insert h.id st.compat cs) r

  -- The last thing done was to read the status of every host, and there was no move in the readings.
  abbrev pub NoMove : Outcome → web.Net → Type 0
  NoMove o w' =
      (w : web.Net) × (r : Readings fl) × (look w ≡ (ok r, w'))
      × AllRead hosts w w' [] [] r
      × (pick r ≡ none)
      × Settled o r

  abbrev Looked :
      List HostCfg
      → web.Net
      → BTreeMap HostId (Pressure fl)
      → BTreeMap HostId CompatClass
      → Result (Readings fl) MainError × web.Net
      → Type 0
  Looked hs w ps cs (ok r, w') = AllRead hs w w' ps cs r
  Looked hs w ps cs (err e, w') = Unit

  abbrev pub Ended : ℕ → Result (List Rebalance × Outcome) MainError × web.Net → Type 0
  Ended n (err e, w) = Unit
  Ended n (ok (moves, max_reached), w) = length moves ≡ n
  Ended n (ok (moves, converged), w) = (length moves < n) × NoMove converged w
  Ended n (ok (moves, no_eligible_move), w) = (length moves < n) × NoMove no_eligible_move w

  abbrev decision : Option Rebalance → Method web.Net MainError (Option Rebalance)
  decision p = contextual fl web decode parse_id to_string step_error (elim p [
    | some mv ↦ execute (http_daemon web) to_string (fleet_from hosts empty_fleet) mv
    | none ↦ pure none
  ])
