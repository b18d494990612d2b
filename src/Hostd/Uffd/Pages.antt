-- ===== src/Hostd/Uffd/Pages.antt =====
-- What a fault is answered with.
use sleepwalk.Prelude.{
  ℕ, zero, suc, ◌+◌, ◌-◌, ◌*◌, ◌/◌, ◌%◌, ◌^◌, ◌≤◌, ◌<◌, ◌≡◌, refl, ap, sym, ◌∙◌, ◌⊎◌, inl, inr,
  ◌||◌, Bool-cases, ltb, leb, some, [], ◌∷◌, length, take, drop, replicate, length-take,
  length-drop, arith,
}
use native.Mathlib.Nat.{
  mod-lt, mod-eq-sub-div-mul, div-mul-le_self, mul-le-mul_right, le-div_iff_mul-le,
  div-lt_iff_lt-mul,
}
use sleepwalk.Prelude.Results.{Result, ok, err}
use sleepwalk.Hostd.Transfer.{Bytes}
use sleepwalk.Hostd.Uffd.{
  UserFault, File, UffdError, out_of_range, align_down, padded, fill, kernel, serve_page,
}

-- The byte of an image at an offset, and zero past its end.
unfoldable pub byte_at : ℕ → Bytes → ℕ
byte_at k [] = 0
byte_at zero (b ∷ bs) = b
byte_at (suc k) (b ∷ bs) = byte_at k bs

-- So many bytes of it from an offset on.
pub window : ℕ → ℕ → Bytes → Bytes
window zero k image = []
window (suc n) k image = byte_at k image ∷ window n (suc k) image

window-nil : (n k : ℕ) → window n k [] ≡ replicate n 0
unfolding window byte_at
window-nil zero k = refl
window-nil (suc n) k = ap (λ t. 0 ∷ t) (window-nil n (suc k))

window-suc : (n k b : ℕ) (image : Bytes) → window n (suc k) (b ∷ image) ≡ window n k image
unfolding window byte_at
window-suc zero k b image = refl
window-suc (suc n) k b image = ap (λ t. byte_at k image ∷ t) (window-suc n (suc k) b image)

pub padded-window : (n k : ℕ) (image : Bytes) → padded n (take n (drop k image)) ≡ window n k image
unfolding window byte_at
padded-window zero k image = ground arith
padded-window (suc n) zero [] = ground (arith, window-nil (suc n) 0)
padded-window (suc n) (suc k) [] = ground (arith, window-nil (suc n) (suc k))
padded-window (suc n) zero (b ∷ image) =
    ground (arith, padded-window n 0 image, window-suc n 0 b image)
padded-window (suc n) (suc k) (b ∷ image) =
    padded-window (suc n) k image ∙ sym (window-suc (suc n) k b image)

align_down-div : (page addr : ℕ) → align_down page addr ≡ addr / page * page
align_down-div page addr = omega (arith, mod-eq-sub-div-mul addr page, div-mul-le_self addr page)

-- A multiple of the page that is no higher than an address is no higher than its page.
≤-align_down : (page m addr : ℕ) → 0 < page → m * page ≤ addr → m * page ≤ align_down page addr
≤-align_down page m addr p h =
    rw (align_down-div page addr) (mul-le-mul_right page ((le-div_iff_mul-le p).1 h))

-- The page of an address below a multiple of the page ends no later than there.
align_down-end :
    (page e addr : ℕ) → 0 < page → addr < e * page → align_down page addr + page ≤ e * page
align_down-end page e addr p h =
    let lower = (div-lt_iff_lt-mul p).1 h in
    omega (arith, align_down-div page addr, mul-le-mul_right page lower)

-- What is documented of positioned reads of a regular file that holds the image.
abbrev pub Holds : File → Bytes → Type 0
Holds file image = (offset n : ℕ) → file.read_at offset n ≡ ok (take n (drop offset image))

module _ (file : File) (image : Bytes) (regular : Holds file image) where
  fill-window :
      (page offset : ℕ)
      → 0 < page
      → offset < length image
      → fill file (length image) page offset ≡ ok (some (window page offset image))
  unfolding fill
  fill-window page offset p h = ground (
    arith,
    regular offset page,
    length-take page (drop offset image),
    length-drop offset image,
    padded-window page offset image,
  )

  module _ (u : UserFault) (page first pages : ℕ) (some_page : 0 < page)
      (fits : (first + pages) * page < 2 ^ 64) where
    -- How a fault at `addr` is answered.
    abbrev pub Answered :
        ℕ → u.Memory → Result (Unit {0}) (UffdError u.Error file.Error) × u.Memory → Type 0
    Answered addr w o =
        (((addr < first * page) ⊎ ((first + pages) * page ≤ addr))
          × (o ≡ (err (out_of_range addr (first * page) ((first + pages) * page)), w)))
        ⊎ ((first * page ≤ align_down page addr)
            × (align_down page addr + page ≤ (first + pages) * page)
            × (align_down page addr ≤ addr)
            × (addr < align_down page addr + page)
            × (((align_down page addr - first * page < length image)
                  × (o
                      ≡ kernel file u
                          (u.copy (align_down page addr)
                            (window page (align_down page addr - first * page) image))
                          w))
                ⊎ ((length image ≤ align_down page addr - first * page)
                    × (o ≡ kernel file u (u.zero_page (align_down page addr) page) w))))

    -- Where the page of an address lies.
    placed : (addr : ℕ) → (align_down page addr ≤ addr) × (addr < align_down page addr + page)
    placed addr = omega (arith, mod-lt addr some_page)

    end_fits : (first * page + pages * page) % 2 ^ 64 ≡ (first + pages) * page
    end_fits = ground (arith, fits)

    refused :
        (addr : ℕ) (w : u.Memory)
        → (addr < first * page) ⊎ ((first + pages) * page ≤ addr)
        → serve_page file u (first * page) (pages * page) page (length image) addr w
          ≡ (err (out_of_range addr (first * page) ((first + pages) * page)), w)
    unfolding serve_page
    refused addr w (inl low) = ground (arith, end_fits, placed addr)
    refused addr w (inr high) =
        ground (arith, end_fits, ≤-align_down page (first + pages) addr some_page high)

    copied :
        (addr : ℕ) (w : u.Memory)
        → first * page ≤ align_down page addr
        → align_down page addr + page ≤ (first + pages) * page
        → align_down page addr - first * page < length image
        → serve_page file u (first * page) (pages * page) page (length image) addr w
          ≡ kernel file u
              (u.copy
                (align_down page addr)
                (window page (align_down page addr - first * page) image))
              w
    unfolding serve_page
    copied addr w low high read =
        ground
          (arith, end_fits, fill-window page (align_down page addr - first * page) some_page read)

    zeroed :
        (addr : ℕ) (w : u.Memory)
        → first * page ≤ align_down page addr
        → align_down page addr + page ≤ (first + pages) * page
        → length image ≤ align_down page addr - first * page
        → serve_page file u (first * page) (pages * page) page (length image) addr w
          ≡ kernel file u (u.zero_page (align_down page addr) page) w
    unfolding serve_page fill
    zeroed addr w low high past = ground (arith, end_fits)

    -- A fault outside the region is refused and the memory left alone. A fault inside it is answered
    -- with one page, which holds the address and lies in the region: with the bytes of the snapshot
    -- from the place that the page has in the region, zeros past the end of the snapshot, or with a
    -- zero page if the whole page lies past that end.
    pub serve_page-Answered :
        (addr : ℕ) (w : u.Memory)
        → Answered addr w
            (serve_page file u (first * page) (pages * page) page (length image) addr w)
    serve_page-Answered addr w =
        elim (Bool-cases (ltb addr (first * page) || leb ((first + pages) * page) addr)) [
          | inl out ↦
              let o : (addr < first * page) ⊎ ((first + pages) * page ≤ addr) = ground arith in
              inl (o, refused addr w o)
          | inr within ↦
              let low = ≤-align_down page first addr some_page (ground arith) in
              let high = align_down-end page (first + pages) addr some_page (ground arith) in
              let (below, above) = placed addr in
              inr (
                low,
                high,
                below,
                above,
                elim (Bool-cases (leb (length image) (align_down page addr - first * page))) [
                  | inl past ↦ inr (ground arith, zeroed addr w low high (ground arith))
                  | inr read ↦ inl (ground arith, copied addr w low high (ground arith))
                ],
              )
        ]
