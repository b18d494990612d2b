-- ===== src/Guestd/Daemon/Supervise/Argv.antt =====
-- The command of a configuration can be run.
use mathlib.Core.List.{reverse, reverse-append}
use mathlib.Core.Path.{subst, ◌∙◌}
use sleepwalk.Prelude.{
  ℕ, ◌≡◌, refl, sym, Bool, true, false, Option, none, some, List, [], ◌∷◌, ◌++◌, arith,
  if◌then◌else◌,
}
use sleepwalk.Prelude.Strings.{is_whitespace, trim_start, trim_end, trim}
use sleepwalk.Prelude.Results.{Result, ok, err}
use sleepwalk.Proto.Ids.{Text}
use sleepwalk.Proto.Vsock.{Env}
use sleepwalk.Guestd.Wrap.{WrapConfig}
use sleepwalk.Guestd.Daemon.Supervise.{
  Surroundings, non_empty, wrap_config_from_env, trimmed, split_whitespace, extend, with_config,
  or_else, words_from, Processes, piped, exec_words, empty_command, spawn_child,
}

abbrev HasWords : List Text → Type 0
HasWords [] = ⊥
HasWords (w ∷ ws) = Unit

extend-HasWords : (w : Text) (ws : List Text) → HasWords ws → HasWords (extend w ws)
extend-HasWords [] ws h = h
extend-HasWords (c ∷ w) ws h = tt

word-HasWords : (w : Text) (c : ℕ) → HasWords (extend (w ++ c ∷ []) [])
word-HasWords [] c = tt
word-HasWords (d ∷ w) c = tt

-- A character that is not white space makes a word.
words_from-HasWords :
    (w t : Text) (c : ℕ) → is_whitespace c ≡ false → HasWords (words_from w (t ++ c ∷ []))
unfolding words_from
words_from-HasWords w [] c h = ground (arith, word-HasWords w c)
words_from-HasWords w (d ∷ t) c h = ground (
  arith,
  words_from-HasWords (w ++ d ∷ []) t c h,
  extend-HasWords w (words_from [] (t ++ c ∷ [])) (words_from-HasWords [] t c h),
)

kept_head :
    (p : ℕ → Bool) (d c : ℕ) (t skipped rest : Text) (b : Bool)
    → p d ≡ b
    → (skipped ≡ c ∷ rest → p c ≡ false)
    → (if b then skipped else d ∷ t) ≡ c ∷ rest
    → p c ≡ false
kept_head p d c t skipped rest true e f h = f h
kept_head p d c t skipped rest false e f h = cc

trim_start_head :
    (t : Text) (c : ℕ) (rest : Text) → trim_start t ≡ c ∷ rest → is_whitespace c ≡ false
unfolding trim_start
trim_start_head [] c rest h = ground arith
trim_start_head (d ∷ t) c rest h =
    kept_head is_whitespace d c t (trim_start t) rest (is_whitespace d) refl
      (trim_start_head t c rest) h

trimmed-HasWords :
    (t r : Text) → trim_start t ≡ r → ¬ (reverse r ≡ []) → HasWords (split_whitespace (reverse r))
trimmed-HasWords t [] e h = elim (h refl) [ ]
trimmed-HasWords t (c ∷ r) e h =
    subst (λ x. HasWords (split_whitespace x)) (sym (reverse-append (c ∷ []) r))
      (words_from-HasWords [] (reverse r) c (trim_start_head t c r e))

trim-HasWords : (t : Text) → ¬ (trim t ≡ []) → HasWords (split_whitespace (trim t))
unfolding trim trim_end
trim-HasWords t h =
    let backwards = reverse (trim_start t) in
    trimmed-HasWords backwards (trim_start backwards) refl h

nonempty-HasWords :
    (t x cmd : Text) → trim t ≡ x → non_empty x ≡ some cmd → HasWords (split_whitespace cmd)
nonempty-HasWords t [] cmd e h = ground arith
nonempty-HasWords t (c ∷ x) cmd e h =
    subst (λ y. HasWords (split_whitespace y)) (e ∙ (cc)) (trim-HasWords t (λ z. cc))

config-HasWords :
    (s : Surroundings) (raw : Option Text) (cmd : Text) (cfg : WrapConfig)
    → with_config s (trimmed raw) ≡ some (cmd, cfg)
    → HasWords (split_whitespace cmd)
config-HasWords s none cmd cfg h = ground arith
config-HasWords s (some t) cmd cfg h = from_config (non_empty (trim t)) refl h
  where
    from_config :
        (o : Option Text)
        → non_empty (trim t) ≡ o
        → with_config s o ≡ some (cmd, cfg)
        → HasWords (split_whitespace cmd)
    from_config none e k = ground arith
    from_config (some x) e k =
        let same : x ≡ cmd = cc in
        subst (λ y. HasWords (split_whitespace y)) same (nonempty-HasWords t (trim t) x refl e)

piped_not_empty : {E : Type 0} → (r : Result Bool E) → ¬ (piped r ≡ err empty_command)
piped_not_empty (ok true) h = ground arith
piped_not_empty (ok false) h = ground arith
piped_not_empty (err e) h = ground arith

exec_words_not_empty :
    (ps : Processes) (ws : List Text) (env : Env) (w : ps.World)
    → HasWords ws
    → ¬ ((exec_words ps ws env w).0 ≡ err empty_command)
exec_words_not_empty ps [] env w h = elim h [ ]
exec_words_not_empty ps (program ∷ args) env w h = piped_not_empty (ps.exec program args env w).0

-- Whatever program is then run and however, a command that the configuration names does not fail for
-- being empty.
pub config_not_empty :
    (s : Surroundings) (cmd : Text) (cfg : WrapConfig) (ps : Processes) (env : Env) (w : ps.World)
    → wrap_config_from_env s ≡ some (cmd, cfg)
    → ¬ ((spawn_child ps cmd env w).0 ≡ err empty_command)
unfolding wrap_config_from_env spawn_child
config_not_empty s cmd cfg ps env w h e =
    exec_words_not_empty ps (split_whitespace cmd) env w
      (config-HasWords s (or_else s.wrap_cmd s.wrap_cmd_file) cmd cfg h) e
