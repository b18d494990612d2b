-- ===== src/Hostd/Uffd/Regions.antt =====
-- How the fault handler of a restored Firecracker answers.
use sleepwalk.Prelude.{
  ℕ, ◌≡◌, refl, ◌⊎◌, inl, inr, true, false, Bool-cases, Option, none, some, List, [], ◌∷◌, In, All,
  arith,
}
use sleepwalk.Prelude.Results.{Result, err}
use sleepwalk.Hostd.Transfer.{Bytes}
use sleepwalk.Hostd.Uffd.{
  UserFault, File, UffdError, no_region, align_down, kernel, GuestRegionUffdMapping,
  region_contains, file_offset, find_region, serve_fault,
}
use sleepwalk.Hostd.Uffd.Pages.{Holds, window, padded-window}

find_region-some :
    (addr : ℕ) (ms : List GuestRegionUffdMapping) (m : GuestRegionUffdMapping)
    → find_region addr ms ≡ some m
    → In m ms × (region_contains addr m ≡ true)
unfolding find_region
find_region-some addr [] m e = cc
find_region-some addr (n ∷ ms) m e = elim (Bool-cases (region_contains addr n)) [
  | inl t ↦ ground (arith, e, t)
  | inr f ↦ ground (arith, e, f, find_region-some addr ms m)
]

find_region-none :
    (addr : ℕ) (ms : List GuestRegionUffdMapping)
    → find_region addr ms ≡ none
    → All (λ m. region_contains addr m ≡ false) ms
unfolding find_region
find_region-none addr [] e = tt
find_region-none addr (n ∷ ms) e = ground (arith, find_region-none addr ms)

module _ (mem : File) (image : Bytes) (regular : Holds mem image) (u : UserFault)
    (mappings : List GuestRegionUffdMapping) (page : ℕ) where
  -- The answer to a fault at `addr`.
  abbrev pub Resolved :
      ℕ → u.Memory → Result (Unit {0}) (UffdError u.Error mem.Error) × u.Memory → Type 0
  Resolved addr w o =
      (All (λ m. region_contains (align_down page addr) m ≡ false) mappings
        × (o ≡ (err (no_region (align_down page addr)), w)))
      ⊎ ((m : GuestRegionUffdMapping) × In m mappings
          × (region_contains (align_down page addr) m ≡ true)
          × (o
              ≡ kernel mem u
                  (u.copy (align_down page addr)
                    (window page (file_offset m (align_down page addr)) image))
                  w))

  Resolved-from :
      (addr : ℕ) (w : u.Memory) (o : Option GuestRegionUffdMapping)
      → find_region (align_down page addr) mappings ≡ o
      → Resolved addr w (serve_fault mem u mappings page addr w)
  unfolding serve_fault
  Resolved-from addr w none e =
      inl (find_region-none (align_down page addr) mappings e, ground (arith, e))
  Resolved-from addr w (some m) e =
      let (member, inside) = find_region-some (align_down page addr) mappings m e in
      let o = file_offset m (align_down page addr) in
      inr (m, member, inside, ground (arith, e, regular o page, padded-window page o image))

  -- A fault whose page begins in none of the regions is refused and the memory left alone. Any other
  -- is answered with one page: the bytes of the snapshot from the place that a region which holds
  -- the page's beginning gives it, and zeros past the end of the snapshot.
  pub serve_fault-Resolved :
      (addr : ℕ) (w : u.Memory) → Resolved addr w (serve_fault mem u mappings page addr w)
  serve_fault-Resolved addr w =
      Resolved-from addr w (find_region (align_down page addr) mappings) refl
