-- ===== src/Hostd/Net/Plan.antt =====
-- crates/hostd/src/net.rs: the identities that `create` assigns.
use mathlib.Core.Path.{subst}
use sleepwalk.Prelude.{
  both_true, ℕ, zero, suc, ◌+◌, ◌≤◌, ◌<◌, ◌≡◌, refl, sym, ap, ◌∙◌, Bool, true, false, ◌&&◌, ◌==◌,
  List, [], ◌∷◌, ◌++◌, arith, replicate, ◌⊎◌, inl, inr,
}
use sleepwalk.Prelude.Results.{Result, ok, err, map_err, pure, bind_ok, from_result, ◌>>=◌, ◌>>◌}
use sleepwalk.Prelude.Strings.{digits_in, decimal, split, parse_u8, parse_digits, digit_value}
use sleepwalk.Hostd.Net.{
  NetError, out_of_range, NetId, Shell, identity, parse_mac, parse_ipv4, put_at, arp_frame, create,
  create_tap, announce, allot, in_range, sending, announce_failed,
}

same_bytes : List ℕ → List ℕ → Bool
same_bytes [] [] = true
same_bytes (a ∷ s) (b ∷ t) = a == b && same_bytes s t
same_bytes _ _ = false

same_bytes-eq : (s t : List ℕ) → same_bytes s t ≡ true → s ≡ t
unfolding same_bytes
same_bytes-eq [] [] h = refl
same_bytes-eq [] (b ∷ t) h = ground arith
same_bytes-eq (a ∷ s) [] h = ground arith
same_bytes-eq (a ∷ s) (b ∷ t) h = ground (arith, same_bytes-eq s t)

reads_as : Result (List ℕ) NetError → List ℕ → Bool
reads_as (ok s) t = same_bytes s t
reads_as (err e) t = false

reads_as-eq : (r : Result (List ℕ) NetError) (t : List ℕ) → reads_as r t ≡ true → r ≡ ok t
unfolding reads_as
reads_as-eq (ok s) t h = ap ok (same_bytes-eq s t h)
reads_as-eq (err e) t h = ground arith

abbrev mac_of : ℕ → List ℕ
mac_of host = 2 ∷ 0 ∷ 0 ∷ 0 ∷ 0 ∷ host ∷ []

abbrev ip_of : ℕ → List ℕ
ip_of host = 10 ∷ 200 ∷ 0 ∷ host ∷ []

reads_back : ℕ → Bool
reads_back n =
    reads_as (parse_mac (identity n (n + 2)).mac) (mac_of (n + 2))
    && reads_as (parse_ipv4 (identity n (n + 2)).ip) (ip_of (n + 2))

all_below : ℕ → (ℕ → Bool) → Bool
all_below zero p = true
all_below (suc n) p = p n && all_below n p

all_below_lem : (n k : ℕ) (p : ℕ → Bool) → all_below n p ≡ true → k < n → p k ≡ true
unfolding all_below
all_below_lem zero k p h b = ground arith
all_below_lem (suc n) k p h b = ground (arith, all_below_lem n k p)

-- The identities of all places read back, by running the parsers on each.
all_read_back : all_below 253 reads_back ≡ true
unfolding all_below reads_back reads_as same_bytes parse_mac parse_ipv4 identity decimal digits_in
    split parse_u8 parse_digits digit_value
all_read_back = refl

-- The bytes that the addresses of an identity stand for.
abbrev pub Numbered : ℕ → NetId → Type 0
Numbered n net =
    (parse_mac net.mac ≡ ok (mac_of (n + 2))) × (parse_ipv4 net.ip ≡ ok (ip_of (n + 2)))

identity-Numbered : (n : ℕ) → n ≤ 252 → Numbered n (identity n (n + 2))
unfolding reads_back
identity-Numbered n b =
    let (m, i) =
      both_true (reads_as (parse_mac (identity n (n + 2)).mac) (mac_of (n + 2)))
        (reads_as (parse_ipv4 (identity n (n + 2)).ip) (ip_of (n + 2)))
        (all_below_lem 253 n reads_back all_read_back (omega (arith, b))) in
    (
      reads_as-eq (parse_mac (identity n (n + 2)).mac) (mac_of (n + 2)) m,
      reads_as-eq (parse_ipv4 (identity n (n + 2)).ip) (ip_of (n + 2)) i,
    )

in_range_bound : (idx : ℕ) → in_range idx ≡ true → idx ≤ 252
unfolding in_range
in_range_bound idx h = ground arith

last_mac :
    (i j : ℕ)
    → ◌≡◌ {A = Result (List ℕ) NetError} (ok (mac_of (i + 2))) (ok (mac_of (j + 2)))
    → i ≡ j
last_mac i j h = ground arith

last_ip :
    (i j : ℕ) → ◌≡◌ {A = Result (List ℕ) NetError} (ok (ip_of (i + 2))) (ok (ip_of (j + 2))) → i ≡ j
last_ip i j h = ground arith

-- The bytes of a gratuitous ARP request.
abbrev pub announcement : ℕ → List ℕ
announcement host =
    replicate 6 255
    ++ (mac_of host
        ++ 8
          ∷ 6
          ∷ 0
          ∷ 1
          ∷ 8
          ∷ 0
          ∷ 6
          ∷ 4
          ∷ 0
          ∷ 1
          ∷ (mac_of host ++ (ip_of host ++ (replicate 6 0 ++ ip_of host))))

arp_frame_lem : (host : ℕ) → arp_frame (mac_of host) (ip_of host) ≡ announcement host
unfolding arp_frame put_at
arp_frame_lem host = refl

module _ (sh : Shell) where
  -- How `create` may end.
  abbrev pub Assigned : ℕ → sh.World → Result NetId NetError × sh.World → Type 0
  Assigned idx w (ok net, w') = (idx ≤ 252) × Numbered idx net
  Assigned idx w (err e, w') = (idx ≤ 252) ⊎ ((e ≡ out_of_range idx) × (w' ≡ w))

  made :
      (idx : ℕ) (w : sh.World) (r : Result (Unit {0}) NetError × sh.World)
      → idx ≤ 252
      → Assigned idx w (((λ v. r) >> pure (identity idx (idx + 2))) w)
  made idx w (ok _, w') b = (b, identity-Numbered idx b)
  made idx w (err e, w') b = inl b

  allot-Assigned :
      (b : Bool) (idx : ℕ) (w : sh.World)
      → (b ≡ true → idx ≤ 252)
      → Assigned idx w (allot sh b idx w)
  allot-Assigned false idx w h = inr (refl, refl)
  allot-Assigned true idx w h = made idx w (create_tap sh (identity idx (idx + 2)).tap w) (h refl)

  -- An identity is made only for an index up to 252, and its addresses are then those of the bytes 2,
  -- 0, 0, 0, 0, index + 2 and 10, 200, 0, index + 2; a larger index is refused without running a
  -- command.
  pub create-Assigned : (idx : ℕ) (w : sh.World) → Assigned idx w (create sh idx w)
  unfolding create
  create-Assigned idx w = allot-Assigned (in_range idx) idx w (in_range_bound idx)

  created :
      (idx : ℕ) (w : sh.World) (net : NetId) (p : Result NetId NetError × sh.World)
      → p.0 ≡ ok net
      → Assigned idx w p
      → (idx ≤ 252) × Numbered idx net
  created idx w net (ok n, w') h a =
      subst (λ m. (idx ≤ 252) × Numbered idx m) (ap (λ r. elim r [ ok x ↦ x | err e ↦ n ]) h) a
  created idx w net (err e, w') h a = ground arith

  -- Two VMs of different indices have different MAC addresses and different IP addresses.
  pub create_distinct :
      (i j : ℕ) (v w : sh.World) (a b : NetId)
      → (create sh i v).0 ≡ ok a
      → (create sh j w).0 ≡ ok b
      → ¬ (i ≡ j)
      → ¬ (a.mac ≡ b.mac) × ¬ (a.ip ≡ b.ip)
  create_distinct i j v w a b h k n =
      let (_, (mac_a, ip_a)) = created i v a (create sh i v) h (create-Assigned i v) in
      let (_, (mac_b, ip_b)) = created j w b (create sh j w) k (create-Assigned j w) in
      (
        λ e. n (last_mac i j (sym mac_a ∙ ap parse_mac e ∙ mac_b)),
        λ e. n (last_ip i j (sym ip_a ∙ ap parse_ipv4 e ∙ ip_b)),
      )

  -- What is announced of an identity that `create` made is one frame of 42 bytes: to all stations,
  -- from the VM's MAC, an ARP request in which sender and target are the VM's IP.
  pub announce-create :
      (idx : ℕ) (v w : sh.World) (net : NetId)
      → (create sh idx v).0 ≡ ok net
      → announce sh net w ≡ (
        map_err announce_failed (sh.send_frame (announcement (idx + 2)) w).0,
        (sh.send_frame (announcement (idx + 2)) w).1,
      )
  unfolding announce
  announce-create idx v w net h =
      let (_, (mac, ip)) = created idx v net (create sh idx v) h (create-Assigned idx v) in
      bind_ok (from_result (parse_mac net.mac))
        (λ m. from_result (parse_ipv4 net.ip) >>= λ i. sending sh (arp_frame m i)) w
        (mac_of (idx + 2)) mac
      ∙ bind_ok (from_result (parse_ipv4 net.ip)) (λ i. sending sh (arp_frame (mac_of (idx + 2)) i))
          w (ip_of (idx + 2)) ip
      ∙ ap (λ f. sending sh f w) (arp_frame_lem (idx + 2))
