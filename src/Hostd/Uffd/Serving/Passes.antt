-- ===== src/Hostd/Uffd/Serving/Passes.antt =====
-- What the loops of the restore handler come to.
use sleepwalk.Prelude.{
  ℕ, ◌&&◌, leb, ltb, if◌then◌else◌, ◌+◌, ◌-◌, ◌%◌, ◌^◌, ◌≡◌, refl, Option, none, some, List, [],
  ◌∷◌, ◌++◌, arith,
}
use sleepwalk.Prelude.Results.{Result, ok, err, ◌>>◌}
use sleepwalk.Hostd.Transfer.{Bytes}
use sleepwalk.Hostd.Uffd.{
  UserFault, File, UffdError, no_region, align_down, Serve, GuestRegionUffdMapping, file_offset,
  find_region, region_contains, serve_fault,
}
use sleepwalk.Hostd.Uffd.Pages.{Holds, window, padded-window}
use sleepwalk.Hostd.Uffd.Serving.{
  Event, pagefault, removed, other_event, Poll, interrupted, timeout, poll_failed, ready,
  serve_event, serve_events, serve_polls,
}

module _ (mem : File) (image : Bytes) (regular : Holds mem image) (u : UserFault) (page : ℕ)
    (mappings : List GuestRegionUffdMapping)
    (copies : (a : ℕ) (bytes : Bytes) (w : u.Memory) → (u.copy a bytes w).0 ≡ ok tt)
    (zeroes : (a n : ℕ) (w : u.Memory) → (u.zero_page a n w).0 ≡ ok tt) where
  abbrev pub Answer : Type 0
  Answer = Result (Unit {0}) (UffdError u.Error mem.Error) × u.Memory

  -- Where the snapshot has the byte of an address: as far from the place of the first region that the
  -- address lies in as the address is from the start of that region.
  abbrev pub place : ℕ → List GuestRegionUffdMapping → Option ℕ
  place a [] = none
  place a (m ∷ ms) =
      let rest = place a ms in
      if leb m.base_host_virt_addr a && ltb a ((m.base_host_virt_addr + m.size) % 2 ^ 64)
      then some ((m.offset + (a - m.base_host_virt_addr)) % 2 ^ 64)
      else rest

  -- One pass over events: a fault in a region gets the page of the snapshot that the region gives it,
  -- a removed range gets zeros, and a fault in no region ends it.
  abbrev pub pass : List Event → u.Memory → Answer
  pass [] w = (ok tt, w)
  pass (other_event ∷ evs) w = pass evs w
  pass (removed start end ∷ evs) w =
      pass evs (u.zero_page start ((end + 2 ^ 64 - start) % 2 ^ 64) w).1
  pass (pagefault addr ∷ evs) w = elim (place (align_down page addr) mappings) [
    | none ↦ (err (no_region (align_down page addr)), w)
    | some at ↦ pass evs (u.copy (align_down page addr) (window page at image) w).1
  ]

  -- All that the turns of the outer loop have read.
  abbrev pub all_events : List (Poll u.Error mem.Error) → List Event
  all_events [] = []
  all_events (ready evs end ∷ ps) = evs ++ all_events ps
  all_events (p ∷ ps) = all_events ps

  -- No turn fails outside the answers to events.
  abbrev pub Healthy : List (Poll u.Error mem.Error) → Type 0
  Healthy [] = Unit
  Healthy (ready evs none ∷ ps) = Healthy ps
  Healthy (ready evs (some e) ∷ ps) = ⊥
  Healthy (poll_failed e ∷ ps) = ⊥
  Healthy (p ∷ ps) = Healthy ps

  place-find_region :
      (a : ℕ) (ms : List GuestRegionUffdMapping)
      → place a ms ≡ elim (find_region a ms) [ none ↦ none | some m ↦ some (file_offset m a) ]
  unfolding find_region region_contains file_offset
  place-find_region a [] = refl
  place-find_region a (m ∷ ms) = ground (arith, place-find_region a ms)

  fault-pass :
      (addr : ℕ) (w : u.Memory) (o : Option GuestRegionUffdMapping)
      → find_region (align_down page addr) mappings ≡ o
      → serve_fault mem u mappings page addr w ≡ elim o [
        | none ↦ (err (no_region (align_down page addr)), w)
        | some m ↦ (
          ok tt,
          (u.copy
              (align_down page addr)
              (window page (file_offset m (align_down page addr)) image)
              w).1,
        )
      ]
  unfolding serve_fault
  fault-pass addr w none e = ground (arith, e)
  fault-pass addr w (some m) e =
      let o = file_offset m (align_down page addr) in
      ground (
        arith,
        e,
        regular o page,
        padded-window page o image,
        copies (align_down page addr) (window page o image) w,
      )

  serve_events-pass :
      (evs later : List Event) (k : Serve mem u)
      → ((w : u.Memory) → k w ≡ pass later w)
      → (w : u.Memory) → (serve_events mem u page mappings evs none >> k) w ≡ pass (evs ++ later) w
  unfolding serve_events serve_event
  serve_events-pass [] later k h w = h w
  serve_events-pass (other_event ∷ evs) later k h w = serve_events-pass evs later k h w
  serve_events-pass (removed start end ∷ evs) later k h w =
      let n = (end + 2 ^ 64 - start) % 2 ^ 64 in
      ground (arith, zeroes start n w, serve_events-pass evs later k h (u.zero_page start n w).1)
  serve_events-pass (pagefault addr ∷ evs) later k h w =
      by_region (find_region (align_down page addr) mappings) refl (serve_events-pass evs later k h)
    where
      by_region :
          (o : Option GuestRegionUffdMapping)
          → find_region (align_down page addr) mappings ≡ o
          → ((v : u.Memory)
              → (serve_events mem u page mappings evs none >> k) v ≡ pass (evs ++ later) v)
          → (serve_events mem u page mappings (pagefault addr ∷ evs) none >> k) w
            ≡ pass (pagefault addr ∷ (evs ++ later)) w
      by_region none e rest =
          ground
            (arith, fault-pass addr w none e, e, place-find_region (align_down page addr) mappings)
      by_region (some m) e rest =
          let a = align_down page addr in
          let w1 : u.Memory = (u.copy a (window page (file_offset m a) image) w).1 in
          ground (arith, fault-pass addr w (some m) e, e, rest w1, place-find_region a mappings)

  -- If the snapshot is a regular file, the kernel takes every page and nothing else fails, the loops
  -- make one pass over all events, in the order in which they were read, however they are spread over
  -- the turns, until `stop` is set: a fault in a region is answered with the page of the snapshot that
  -- lies as far from the place of the region as its address from the start of the region, a removed
  -- range with zeros, and a fault in no region ends the serving with an error.
  pub serve_polls-pass :
      (ps : List (Poll u.Error mem.Error)) (w : u.Memory)
      → Healthy ps
      → serve_polls mem u page mappings ps w ≡ pass (all_events ps) w
  unfolding serve_polls
  serve_polls-pass [] w h = refl
  serve_polls-pass (interrupted ∷ ps) w h = serve_polls-pass ps w h
  serve_polls-pass (timeout ∷ ps) w h = serve_polls-pass ps w h
  serve_polls-pass (ready evs none ∷ ps) w h =
      serve_events-pass evs (all_events ps) (serve_polls mem u page mappings ps)
        (λ v. serve_polls-pass ps v h) w
  serve_polls-pass (ready evs (some e) ∷ ps) w h = absurd h
  serve_polls-pass (poll_failed e ∷ ps) w h = absurd h
