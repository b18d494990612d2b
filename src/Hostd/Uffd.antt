-- ===== src/Hostd/Uffd.antt =====
-- crates/hostd/src/uffd.rs: the page-fault server of a lazily restored guest. The kernel's
-- userfaultfd and the positioned reads of a file are parameters; the handshake with Firecracker is
-- left out. Addresses are 64-bit and wrap. A page size is a power of two, for
-- which masking an address with it rounds down to a multiple.
pub mod Pages
pub mod Regions
pub mod Serving
use sleepwalk.Prelude.{
  ℕ, ◌+◌, ◌-◌, ◌*◌, ◌%◌, ◌^◌, Bool, true, false, ◌&&◌, ◌||◌, if◌then◌else◌, ltb, leb, ◌==◌, Option,
  none, some, List, [], ◌∷◌, ◌++◌, length, replicate,
}
use sleepwalk.Prelude.Results.{Result, ok, err, map_err, Method, pure, fail}
use sleepwalk.Hostd.Transfer.{Bytes}

-- The operations of `userfaultfd::Uffd` on the memory it watches.
pub record UserFault : Type 1 where
  pub Memory : Type 0
  pub Error : Type 0
  pub copy : ℕ → Bytes → Method Memory Error (Unit {0})
  pub zero_page : ℕ → ℕ → Method Memory Error (Unit {0})

-- `FileExt::read_at`: what a read at an offset of at most so many bytes gives.
pub record File : Type 1 where
  pub Error : Type 0
  pub read_at : ℕ → ℕ → Result Bytes Error

pub data UffdError (U E : Type 0) : Type 0 where
  uffd : U → UffdError U E
  io : E → UffdError U E
  out_of_range : ℕ → ℕ → ℕ → UffdError U E
  no_region : ℕ → UffdError U E

-- `addr & !(page - 1)`
abbrev pub align_down : ℕ → ℕ → ℕ
align_down page addr = addr - addr % page

-- A buffer of zeros with the bytes read at its start.
abbrev pub padded : ℕ → Bytes → Bytes
padded page bytes = bytes ++ replicate (page - length bytes) 0

module _ (file : File) where
  -- `FilePageSource::fill`, with the page that it filled, or none for a hole.
  unfoldable pub fill : ℕ → ℕ → ℕ → Result (Option Bytes) file.Error
  fill len page offset = if leb len offset then ok none else elim (file.read_at offset page) [
    | err e ↦ err e
    | ok bytes ↦ if length bytes == 0 then ok none else ok (some (padded page bytes))
  ]

  module _ (u : UserFault) where
    abbrev pub Serve : Type 0
    Serve = Method u.Memory (UffdError u.Error file.Error) (Unit {0})

    -- `?` on a call of the kernel's.
    abbrev pub kernel : Method u.Memory u.Error (Unit {0}) → Serve
    kernel m w = let (r, w') = m w in (map_err uffd r, w')

    -- `PageFaultServer`, whose source is a file of length `file_len`.
    unfoldable pub serve_page : (base len page file_len : ℕ) → ℕ → Serve
    serve_page base len page file_len addr =
        let aligned = align_down page addr in
        let end = (base + len) % 2 ^ 64 in
        if ltb aligned base || leb end aligned
        then fail (out_of_range addr base end)
        else elim (fill file_len page (aligned - base)) [
          | err e ↦ fail (io e)
          | ok none ↦ kernel (u.zero_page aligned page)
          | ok (some bytes) ↦ kernel (u.copy aligned bytes)
        ]

pub record GuestRegionUffdMapping : Type 0 where
  pub base_host_virt_addr : ℕ
  pub size : ℕ
  pub offset : ℕ

-- `GuestRegionUffdMapping::contains`
unfoldable pub region_contains : ℕ → GuestRegionUffdMapping → Bool
region_contains addr m =
    leb m.base_host_virt_addr addr && ltb addr ((m.base_host_virt_addr + m.size) % 2 ^ 64)

-- `GuestRegionUffdMapping::file_offset`
unfoldable pub file_offset : GuestRegionUffdMapping → ℕ → ℕ
file_offset m addr = (m.offset + (addr - m.base_host_virt_addr)) % 2 ^ 64

-- `mappings.iter().find(|m| m.contains(aligned))`
unfoldable pub find_region : ℕ → List GuestRegionUffdMapping → Option GuestRegionUffdMapping
find_region addr [] = none
find_region addr (m ∷ ms) = if region_contains addr m then some m else find_region addr ms

module _ (mem : File) (u : UserFault) where
  unfoldable pub serve_fault : List GuestRegionUffdMapping → ℕ → ℕ → Serve mem u
  serve_fault mappings page addr =
      let aligned = align_down page addr in
      elim (find_region aligned mappings) [
        | none ↦ fail (no_region aligned)
        | some region ↦ elim (mem.read_at (file_offset region aligned) page) [
          | err e ↦ fail (io e)
          | ok bytes ↦ kernel mem u (u.copy aligned (padded page bytes))
        ]
      ]
