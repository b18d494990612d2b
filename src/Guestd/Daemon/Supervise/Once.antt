-- ===== src/Guestd/Daemon/Supervise/Once.antt =====
-- The wrapped process is started once, with the right variables.
use mathlib.Core.Path.{ap, sym, ◌∙◌}
use sleepwalk.Prelude.{
  ◌+◌, length, ◌++◌, ◌≡◌, refl, Bool, true, false, Option, none, some, List, [], ◌∷◌, arith,
}
use sleepwalk.Prelude.Results.{Result, ok, err}
use sleepwalk.Proto.Ids.{Text, GuestdVersion}
use sleepwalk.Proto.Vsock.{Env}
use sleepwalk.Guestd.Channel.{GuestChannel}
use sleepwalk.Guestd.Guest.{Guest, new, handshake}
use sleepwalk.Guestd.Wrap.{WrapConfig, new_tracker}
use sleepwalk.Guestd.Daemon.Supervise.{
  Processes, SpawnError, exec_words, split_whitespace, spawn_child, Supervisor, Running, exited,
  going, spawn_reader, start_child, serve, boot, Visit, visit, visits, run_wrapped,
}

-- Any starting of processes with the list of its calls: the program with its arguments, and the
-- variables.
abbrev pub recording : Processes → Processes
recording ps = record {
  World = ps.World × List (List Text × Env);
  Error = ps.Error;
  exec = λ program args env (w, calls).
      let (r, w') = ps.exec program args env w in (r, (w', calls ++ (program ∷ args, env) ∷ []));
}

module _ (ps : Processes) (ch : GuestChannel) (version : GuestdVersion) (cmd : Text)
    (cfg : WrapConfig) where
  abbrev pub R : Processes
  R = recording ps

  abbrev pub Call : Type 0
  Call = List Text × Env

  -- The secrets of the first handshake that succeeded.
  abbrev pub learn : Option Env → Visit R ch → Option Env
  learn (some env) v = some env
  learn none v =
      let (met, g) = handshake ch (new ch v.id version v.chan) in
      elim met [ ok _ ↦ some g.env | err e ↦ none ]

  abbrev pub learn_all : Option Env → List (Visit R ch) → Option Env
  learn_all known [] = known
  learn_all known (v ∷ vs) = learn_all (learn known v) vs

  -- The calls of `exec` there should have been: the words of the command, and the variables.
  abbrev pub expected : Bool → Option Env → List Call
  expected false known = (split_whitespace cmd, []) ∷ []
  expected true none = []
  expected true (some env) = (split_whitespace cmd, env) ∷ []

  -- The daemon runs with these processes, or it has ended after a process could not be started.
  abbrev pub Started : List Call → Running R → Type 0
  Started calls exited =
      (env : Env) × (w : R.World) × (e : SpawnError R.Error) × ((spawn_child R cmd env w).0 ≡ err e)
  Started calls (going s) = (s.world.1 ≡ calls) × (s.tasks ≡ length calls)

  abbrev Flags : Bool → Option Env → Supervisor R → Type 0
  Flags false known s = s.spawned ≡ true
  Flags true none s = (s.spawned ≡ false) × (s.first_connection ≡ true)
  Flags true (some env) s = s.spawned ≡ true

  abbrev InStep : Bool → Option Env → Running R → Type 0
  InStep await_secrets known exited = Started [] exited
  InStep await_secrets known (going s) =
      (s.world.1 ≡ expected await_secrets known)
      × (s.tasks ≡ length (expected await_secrets known))
      × Flags await_secrets known s

  exec_words-logs :
      (words : List Text) (env : Env) (w : R.World)
      → (exec_words R words env w).0 ≡ ok tt
      → (exec_words R words env w).1.1 ≡ w.1 ++ (words, env) ∷ []
  exec_words-logs [] env w e = absurd (ground (arith, e))
  exec_words-logs (program ∷ args) env w e = refl

  spawned-InStep :
      (env : Env) (s : Supervisor R) (p : Result (Unit {0}) (SpawnError R.Error) × R.World)
      → spawn_child R cmd env s.world ≡ p
      → s.world.1 ≡ []
      → s.tasks ≡ 0
      → InStep true (some env) (elim p.0 [ ok _ ↦ going (spawn_reader R s p.1) | err e ↦ exited ])
  unfolding spawn_child
  spawned-InStep env s (ok _, w) e h t = (
    ap (λ q. q.1.1) (sym e)
        ∙ exec_words-logs (split_whitespace cmd) env s.world (ap (λ q. q.0) e)
        ∙ ap (λ l. l ++ (split_whitespace cmd, env) ∷ []) h,
    ap (λ n. n + 1) t,
    refl,
  )
  spawned-InStep env s (err x, w) e h t = (env, s.world, x, ap (λ q. q.0) e)

  start_child-InStep :
      (env : Env) (s : Supervisor R)
      → s.world.1 ≡ []
      → s.tasks ≡ 0
      → InStep true (some env) (start_child R cmd env s)
  unfolding start_child
  start_child-InStep env s h t = spawned-InStep env s (spawn_child R cmd env s.world) refl h t

  serve-InStep :
      (a : Bool) (known : Option Env) (v : Visit R ch) (g : Guest ch.Conn) (r : Running R)
      → InStep a known r
      → InStep a known (serve R ch cfg v g r)
  serve-InStep a known v g exited h = h
  serve-InStep false known v g (going s) h = h
  serve-InStep true none v g (going s) h = h
  serve-InStep true (some env) v g (going s) h = h

  visit-InStep :
      (await_secrets : Bool) (known : Option Env) (s : Supervisor R) (v : Visit R ch)
      → InStep await_secrets known (going s)
      → InStep await_secrets (learn known v) (visit R ch version cmd cfg await_secrets s v)
  unfolding visit
  visit-InStep false known s v h = ground arith
  visit-InStep true none s v h =
      let g : Guest ch.Conn = (handshake ch (new ch v.id version v.chan)).1 in
      let s' : Supervisor R = record s { first_connection = false } in
      ground (
        arith,
        serve-InStep true (some g.env) v g (start_child R cmd g.env s')
            (start_child-InStep g.env s' h.0 h.1),
      )
  visit-InStep true (some env) s v h = ground arith

  visits-InStep :
      (await_secrets : Bool) (known : Option Env) (vs : List (Visit R ch)) (r : Running R)
      → InStep await_secrets known r
      → Started
          (expected await_secrets (learn_all known vs))
          (visits R ch version cmd cfg await_secrets r vs)
  unfolding visits
  visits-InStep a known vs exited h = h
  visits-InStep a known [] (going s) h = (h.0, h.1)
  visits-InStep a known (v ∷ vs) (going s) h =
      visits-InStep a (learn known v) vs (visit R ch version cmd cfg a s v)
        (visit-InStep a known s v h)

  at_once : (r : Running R) → InStep true (some []) r → InStep false none r
  at_once exited h = h
  at_once (going s) h = h

  boot-InStep : (a : Bool) (w : ps.World) → InStep a none (boot R cmd a (w, []))
  unfolding boot
  boot-InStep true w = (refl, refl, (refl, refl))
  boot-InStep false w =
      let s : Supervisor R = record {
        spawned = false;
        first_connection = true;
        tasks = 0;
        reader = record { tracker = new_tracker; log = []; reading = false };
        world = (w, []);
      } in
      at_once (start_child R cmd [] s) (start_child-InStep [] s refl refl)

  -- Whatever connections come and whatever goes wrong on them, wrap mode has called `exec` exactly once
  -- if it does not wait for secrets, without variables; if it does, never before a handshake has
  -- succeeded, and from then on exactly once, with the secrets of the first handshake that succeeded;
  -- each time with the words of the command, and with one task that reads the process. The only other
  -- end is that the process could not be started.
  pub run_wrapped-Started :
      (await_secrets : Bool) (w : ps.World) (vs : List (Visit R ch))
      → Started
          (expected await_secrets (learn_all none vs))
          (run_wrapped R ch version cmd cfg await_secrets (w, []) vs)
  unfolding run_wrapped
  run_wrapped-Started a w vs = visits-InStep a none vs (boot R cmd a (w, [])) (boot-InStep a w)
