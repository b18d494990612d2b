-- ===== src/Hostd/Uffd/Serving.antt =====
-- crates/hostd/src/uffd.rs: the loops of `UffdRestoreHandler`. A loop over the socket or over `poll`
-- has a list beside it of what each turn finds, whose end is the flag `stop`.
pub mod Passes
use sleepwalk.Prelude.{
  ℕ, ◌+◌, ◌-◌, ◌%◌, ◌^◌, ◌≡◌, refl, Bool, true, false, Option, none, some, List, [], ◌∷◌, ◌++◌,
  arith,
}
use sleepwalk.Prelude.Results.{Result, ok, err, Method, pure, fail, ◌>>=◌, ◌>>◌}
use sleepwalk.Hostd.Transfer.{Bytes}
use sleepwalk.Hostd.Uffd.{
  UserFault, File, UffdError, uffd, io, no_region, align_down, Serve, kernel,
  GuestRegionUffdMapping, file_offset, find_region, serve_fault,
}
use sleepwalk.Hostd.Uffd.Pages.{Holds, window, padded-window}

-- What `read_event` gives.
pub data Event : Type 0 where
  pagefault : ℕ → Event
  removed : ℕ → ℕ → Event
  other_event : Event

-- What a turn of the loop finds at `poll`; where there are events, whether reading on fails.
pub data Poll (U E : Type 0) : Type 0 where
  interrupted timeout : Poll U E
  poll_failed : E → Poll U E
  ready : List Event → Option U → Poll U E

-- What a turn of the loop in `accept` finds at the socket.
pub data Knock (E : Type 0) : Type 0 where
  would_block connects : Knock E
  accept_failed : E → Knock E

-- `UffdRestoreHandler::accept`
unfoldable pub accept : {E : Type 0} → List (Knock E) → Result Bool E
accept [] = ok false
accept (would_block ∷ knocks) = accept knocks
accept (connects ∷ knocks) = ok true
accept (accept_failed e ∷ knocks) = err e

module _ (mem : File) (u : UserFault) (page : ℕ) where
  module _ (mappings : List GuestRegionUffdMapping) where
    -- The match on an event.
    unfoldable pub serve_event : Event → Serve mem u
    serve_event (pagefault addr) = serve_fault mem u mappings page addr
    serve_event (removed start end) =
        kernel mem u (u.zero_page start ((end + 2 ^ 64 - start) % 2 ^ 64))
    serve_event other_event = pure tt

    -- The inner loop.
    unfoldable pub serve_events : List Event → Option u.Error → Serve mem u
    serve_events [] none = pure tt
    serve_events [] (some e) = fail (uffd e)
    serve_events (ev ∷ evs) end = serve_event ev >> serve_events evs end

    -- The outer loop.
    unfoldable pub serve_polls : List (Poll u.Error mem.Error) → Serve mem u
    serve_polls [] = pure tt
    serve_polls (interrupted ∷ ps) = serve_polls ps
    serve_polls (timeout ∷ ps) = serve_polls ps
    serve_polls (poll_failed e ∷ ps) = fail (io e)
    serve_polls (ready evs end ∷ ps) = serve_events evs end >> serve_polls ps

  abbrev connected :
      Result (List GuestRegionUffdMapping) (UffdError u.Error mem.Error)
      → Result (Unit {0}) mem.Error
      → List (Poll u.Error mem.Error)
      → Serve mem u
  connected (err e) opened polls = fail e
  connected (ok mappings) (err e) polls = fail (io e)
  connected (ok mappings) (ok _) polls = serve_polls mappings polls

  -- `UffdRestoreHandler::serve`, by how the handshake and the opening of the file end.
  unfoldable pub serve :
      List (Knock mem.Error)
      → Result (List GuestRegionUffdMapping) (UffdError u.Error mem.Error)
      → Result (Unit {0}) mem.Error
      → List (Poll u.Error mem.Error)
      → Serve mem u
  serve knocks shook opened polls = elim (accept knocks) [
    | ok false ↦ pure tt
    | ok true ↦ connected shook opened polls
    | err e ↦ fail (io e)
  ]
