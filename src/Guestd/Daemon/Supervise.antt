-- ===== src/Guestd/Daemon/Supervise.antt =====
-- crates/guestd/src/bin/guestd.rs: the wrapped process, from the configuration that names it to the
-- loop of `run_wrapped`. The environment of the daemon and the starting of processes are parameters.
pub mod Once
pub mod Argv
use sleepwalk.Prelude.{
  ℕ, ◌+◌, Bool, true, false, ◌&&◌, ◌||◌, Option, none, some, List, [], ◌∷◌, ◌++◌, if◌then◌else◌,
}
use sleepwalk.Prelude.Strings.{is_whitespace, trim}
use sleepwalk.Prelude.Results.{Result, ok, err}
use sleepwalk.Proto.Ids.{Text, VmId, GuestdVersion, Timestamp}
use sleepwalk.Proto.Vsock.{Env}
use sleepwalk.Guestd.Channel.{GuestChannel}
use sleepwalk.Guestd.Guest.{Guest, new, handshake, resume}
use sleepwalk.Guestd.Wrap.{WrapConfig, default_config, new_tracker}
use sleepwalk.Guestd.Daemon.{NextLine, Reader, serve_wrap_messages}

-- What the daemon finds at its start: the variables and files it asks for, where there are any.
pub record Surroundings : Type 0 where
  pub wrap_cmd : Option Text
  pub wrap_start : Option Text
  pub wrap_end : Option Text
  pub await_secrets : Option Text
  pub wrap_cmd_file : Option Text
  pub await_secrets_file : Bool

abbrev pub or_else {ℓ} : {A : Type ℓ} → Option A → Option A → Option A
or_else (some a) o = some a
or_else none o = o

abbrev unwrap_or {ℓ} : {A : Type ℓ} → Option A → A → A
unwrap_or (some a) b = a
unwrap_or none b = b

abbrev is_some {ℓ} : {A : Type ℓ} → Option A → Bool
is_some (some a) = true
is_some none = false

-- `wrap_await_secrets`
unfoldable pub wrap_await_secrets : Surroundings → Bool
wrap_await_secrets s = is_some s.await_secrets || s.await_secrets_file

abbrev pub non_empty : Text → Option Text
non_empty [] = none
non_empty (c ∷ cmd) = some (c ∷ cmd)

abbrev pub trimmed : Option Text → Option Text
trimmed none = none
trimmed (some t) = non_empty (trim t)

abbrev pub with_config : Surroundings → Option Text → Option (Text × WrapConfig)
with_config s none = none
with_config s (some cmd) = some (
  cmd,
  record {
    start_marker = unwrap_or s.wrap_start default_config.start_marker;
    end_marker = unwrap_or s.wrap_end default_config.end_marker;
  },
)

-- `wrap_config_from_env`
unfoldable pub wrap_config_from_env : Surroundings → Option (Text × WrapConfig)
wrap_config_from_env s = with_config s (trimmed (or_else s.wrap_cmd s.wrap_cmd_file))

-- `str::split_whitespace`
abbrev pub extend : Text → List Text → List Text
extend [] ws = ws
extend (c ∷ w) ws = (c ∷ w) ∷ ws

unfoldable pub words_from : Text → Text → List Text
words_from w [] = extend w []
words_from w (c ∷ t) =
    let next = words_from [] t in
    let longer = words_from (w ++ c ∷ []) t in if is_whitespace c then extend w next else longer

abbrev pub split_whitespace : Text → List Text
split_whitespace t = words_from [] t

-- The starting of processes: given a program, its arguments and the variables it gets, whether
-- there is a pipe from it.
pub record Processes : Type 1 where
  pub World : Type 0
  pub Error : Type 0
  pub exec : Text → List Text → Env → World → Result Bool Error × World

pub data SpawnError (E : Type 0) : Type 0 where
  empty_command not_piped : SpawnError E
  failed_exec : E → SpawnError E

abbrev pub piped : {E : Type 0} → Result Bool E → Result (Unit {0}) (SpawnError E)
piped (ok true) = ok tt
piped (ok false) = err not_piped
piped (err e) = err (failed_exec e)

module _ (ps : Processes) where
  abbrev pub exec_words :
      List Text → Env → ps.World → Result (Unit {0}) (SpawnError ps.Error) × ps.World
  exec_words [] env w = (err empty_command, w)
  exec_words (program ∷ args) env w = let (r, w') = ps.exec program args env w in (piped r, w')

  -- `spawn_child`
  unfoldable pub spawn_child :
      Text → Env → ps.World → Result (Unit {0}) (SpawnError ps.Error) × ps.World
  spawn_child cmd env w = exec_words (split_whitespace cmd) env w

  -- The state of `run_wrapped`: its two flags, how many tasks read a process, and what they share.
  pub record Supervisor : Type 0 where
    pub spawned : Bool
    pub first_connection : Bool
    pub tasks : ℕ
    pub reader : Reader
    pub world : ps.World

  pub data Running : Type 0 where
    exited : Running
    going : Supervisor → Running

  abbrev pub spawn_reader : Supervisor → ps.World → Supervisor
  spawn_reader s w = record s {
    spawned = true;
    tasks = s.tasks + 1;
    reader = record (s.reader) { reading = true };
    world = w;
  }

  -- A spawn whose failure ends the daemon.
  unfoldable pub start_child : Text → Env → Supervisor → Running
  start_child cmd env s =
      let (r, w) = spawn_child cmd env s.world in
      elim r [ ok _ ↦ going (spawn_reader s w) | err e ↦ exited ]

  -- What `run_wrapped` does before it takes a connection.
  unfoldable pub boot : Text → Bool → ps.World → Running
  boot cmd await_secrets w =
      let s : Supervisor = record {
        spawned = false;
        first_connection = true;
        tasks = 0;
        reader = record { tracker = new_tracker; log = []; reading = false };
        world = w;
      } in
      let child = start_child cmd [] s in if await_secrets then going s else child

  module _ (ch : GuestChannel) where
    -- A connection with the id that is drawn for it, the time it comes at, and what the process
    -- prints during its waits.
    pub record Visit : Type 0 where
      pub id : VmId
      pub now : Timestamp
      pub reads : List (List NextLine)
      pub chan : ch.Conn

    abbrev pub serve : WrapConfig → Visit → Guest ch.Conn → Running → Running
    serve cfg v g exited = exited
    serve cfg v g (going s) =
        let (ended, (r, c)) = serve_wrap_messages ch cfg v.reads s.reader g.chan in
        going (record s { reader = r })

    -- The body of the loop in `run_wrapped`, from the connection on.
    unfoldable pub visit : GuestdVersion → Text → WrapConfig → Bool → Supervisor → Visit → Running
    visit version cmd cfg await_secrets s v =
        let (met, g) = handshake ch (new ch v.id version v.chan) in
        let s' : Supervisor = record s { first_connection = false } in
        let deferred = start_child cmd g.env s' in
        let started =
          if await_secrets && (if s.spawned then false else true) then deferred else going s' in
        let (announced, g') = resume ch v.now g in
        elim met [
          | err e ↦ going s
          | ok _ ↦ elim s.first_connection [
            | true ↦ serve cfg v g started
            | false ↦ elim announced [ err e ↦ going s | ok _ ↦ serve cfg v g' (going s) ]
          ]
        ]

    unfoldable pub visits :
        GuestdVersion → Text → WrapConfig → Bool → Running → List Visit → Running
    visits version cmd cfg await_secrets exited vs = exited
    visits version cmd cfg await_secrets (going s) [] = going s
    visits version cmd cfg await_secrets (going s) (v ∷ vs) =
        visits version cmd cfg await_secrets (visit version cmd cfg await_secrets s v) vs

    -- `run_wrapped`
    unfoldable pub run_wrapped :
        GuestdVersion → Text → WrapConfig → Bool → ps.World → List Visit → Running
    run_wrapped version cmd cfg await_secrets w vs =
        visits version cmd cfg await_secrets (boot cmd await_secrets w) vs
