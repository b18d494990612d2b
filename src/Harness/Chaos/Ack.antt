-- ===== src/Harness/Chaos/Ack.antt =====
-- What `read_ack` makes of a transcript that grows.
use sleepwalk.Prelude.{◌≡◌, refl, Bool, true, false, Option, none, some, List, [], ◌∷◌, ◌++◌}
use sleepwalk.Proto.Ids.{TurnId}
use sleepwalk.Proto.Vsock.{
  GuestToHost, hello, turn_started, turn_ended, drain_ack, resumed, ping, pong,
}
use sleepwalk.Harness.Chaos.{read_ack}

-- Whether a drain has been acknowledged.
unfoldable pub answered : List GuestToHost → Bool
answered [] = false
answered (drain_ack o ∷ ms) = true
answered (turn_started t now ∷ ms) = answered ms
answered (turn_ended t now ∷ ms) = answered ms
answered (hello vm version ∷ ms) = answered ms
answered (resumed now ∷ ms) = answered ms
answered (ping ∷ ms) = answered ms
answered (pong ∷ ms) = answered ms

-- After the first acknowledgement the rest is not read.
pub read_ack-append :
    (w : Option TurnId) (ms xs : List GuestToHost)
    → answered ms ≡ true
    → (read_ack w (ms ++ xs) ≡ read_ack w ms) × (answered (ms ++ xs) ≡ true)
unfolding read_ack answered
read_ack-append w [] xs a = cc
read_ack-append w (drain_ack o ∷ ms) xs a = (refl, refl)
read_ack-append w (turn_started t now ∷ ms) xs a = read_ack-append (some t) ms xs a
read_ack-append w (turn_ended t now ∷ ms) xs a = read_ack-append none ms xs a
read_ack-append w (hello vm version ∷ ms) xs a = read_ack-append w ms xs a
read_ack-append w (resumed now ∷ ms) xs a = read_ack-append w ms xs a
read_ack-append w (ping ∷ ms) xs a = read_ack-append w ms xs a
read_ack-append w (pong ∷ ms) xs a = read_ack-append w ms xs a

-- Before it, what is read is what the messages leave in flight, and one more message is read after
-- them.
pub read_ack-snoc :
    (w : Option TurnId) (ms : List GuestToHost) (m : GuestToHost)
    → answered ms ≡ false
    → (read_ack w (ms ++ m ∷ []) ≡ read_ack (read_ack w ms).1 (m ∷ []))
      × (answered (ms ++ m ∷ []) ≡ answered (m ∷ []))
unfolding read_ack answered
read_ack-snoc w [] m a = (refl, refl)
read_ack-snoc w (drain_ack o ∷ ms) m a = cc
read_ack-snoc w (turn_started t now ∷ ms) m a = read_ack-snoc (some t) ms m a
read_ack-snoc w (turn_ended t now ∷ ms) m a = read_ack-snoc none ms m a
read_ack-snoc w (hello vm version ∷ ms) m a = read_ack-snoc w ms m a
read_ack-snoc w (resumed now ∷ ms) m a = read_ack-snoc w ms m a
read_ack-snoc w (ping ∷ ms) m a = read_ack-snoc w ms m a
read_ack-snoc w (pong ∷ ms) m a = read_ack-snoc w ms m a
