-- ===== src/Hostd/Quiesce/Window.antt =====
-- The sliding window of the infra layer against the whole history of samples.
use sleepwalk.Prelude.{
  ℕ, zero, suc, ◌-◌, ◌≤◌, ◌<◌, ◌≡◌, refl, sym, ap, ◌∙◌, ◌↔◌, Bool, true, false, ◌&&◌, List, [], ◌∷◌,
  ◌++◌, map, append_assoc, append-nil, length, length-append, length-drop, drop, all, ltb, ◌==◌,
  if◌then◌else◌, arith, leb, Bool-cases, inl, inr,
}
use sleepwalk.Hostd.Quiesce.{
  InfraThresholds, InfraLayer, pop_front, new_infra, record_sample, infra_is_quiet,
}

-- The last `n` elements, or all if there are fewer.
abbrev pub last_n {ℓ} : {A : Type ℓ} → ℕ → List A → List A
last_n n xs = drop (length xs - n) xs

module _ {A : Type 0} where
  drop-snoc :
      (k : ℕ) (xs : List A) (x : A) → k ≤ length xs → drop k (xs ++ x ∷ []) ≡ drop k xs ++ x ∷ []
  drop-snoc zero xs x h = refl
  drop-snoc (suc k) [] x h = absurd (omega arith)
  drop-snoc (suc k) (y ∷ xs) x h = drop-snoc k xs x (omega arith)

  drop-suc : (k : ℕ) (xs : List A) → drop (suc k) xs ≡ pop_front (drop k xs)
  drop-suc zero [] = refl
  drop-suc zero (x ∷ xs) = refl
  drop-suc (suc k) [] = refl
  drop-suc (suc k) (x ∷ xs) = drop-suc k xs

  drop-nil : (k : ℕ) → drop {A = A} k [] ≡ []
  drop-nil zero = refl
  drop-nil (suc k) = refl

  -- How the last `n` change when an element comes.
  last_n-snoc :
      (n : ℕ) (xs : List A) (x : A)
      → 0 < n
      → last_n n (xs ++ x ∷ [])
        ≡ (if length (last_n n xs) == n then pop_front (last_n n xs) else last_n n xs) ++ x ∷ []
  last_n-snoc n xs x h = elim (Bool-cases (leb n (length xs))) [
    | inl full ↦ ground (
      arith,
      length-append xs (x ∷ []),
      length-drop (length xs - n) xs,
      drop-snoc (suc (length xs - n)) xs x,
      drop-suc (length xs - n) xs,
    )
    | inr short ↦ ground (
      arith,
      length-append xs (x ∷ []),
      length-drop (length xs - n) xs,
      drop-snoc (length xs - n) xs x,
    )
  ]

module _ {F : Type 0} where
  -- The layer after a history of ticks, oldest first.
  unfoldable pub record_all : List (F × Bool) → InfraLayer F → InfraLayer F
  record_all [] l = l
  record_all ((cpu, quiet) ∷ h) l = record_all h (record_sample cpu quiet l)

  abbrev pub readings : List (F × Bool) → List F
  readings = map (λ s. s.0)

  -- Whether the queues were quiet at the last tick.
  abbrev pub last_quiet : Bool → List (F × Bool) → Bool
  last_quiet b [] = b
  last_quiet b ((cpu, quiet) ∷ h) = last_quiet quiet h

  record_all-thresholds :
      (h : List (F × Bool)) (l : InfraLayer F) → (record_all h l).thresholds ≡ l.thresholds
  unfolding record_all record_sample
  record_all-thresholds [] l = refl
  record_all-thresholds ((cpu, quiet) ∷ h) l = record_all-thresholds h (record_sample cpu quiet l)

  record_all-window :
      (h : List (F × Bool)) (past : List F) (l : InfraLayer F)
      → 0 < l.thresholds.samples
      → l.recent ≡ last_n l.thresholds.samples past
      → let r = record_all h l in
        (r.recent ≡ last_n l.thresholds.samples (past ++ readings h))
        × (r.queues_quiet ≡ last_quiet l.queues_quiet h)
  unfolding record_all record_sample
  record_all-window [] past l p e = (rw append-nil e, refl)
  record_all-window ((cpu, quiet) ∷ h) past l p e =
      let (w, q) =
        record_all-window h (past ++ cpu ∷ []) (record_sample cpu quiet l) p
          (rw e (sym (last_n-snoc l.thresholds.samples past cpu p))) in
      (w ∙ ap (last_n l.thresholds.samples) (append_assoc past (cpu ∷ []) (readings h)), q)

  length-readings : (h : List (F × Bool)) → length (readings h) ≡ length h
  length-readings [] = refl
  length-readings (s ∷ h) = ap suc (length-readings h)

  window :
      (th : InfraThresholds F) (h : List (F × Bool))
      → 0 < th.samples
      → let r = record_all h (new_infra th) in
        (r.recent ≡ last_n th.samples (readings h)) × (r.queues_quiet ≡ last_quiet false h)
  window th h p = record_all-window h [] (new_infra th) p (sym (drop-nil (0 - th.samples)))

  quiet_parts :
      (lt : F → F → Bool) (th : InfraThresholds F) (w : List F) (q : Bool) (l : InfraLayer F)
      → l.thresholds ≡ th
      → l.recent ≡ w
      → l.queues_quiet ≡ q
      → infra_is_quiet lt l
        ≡ (ltb 0 th.samples && length w == th.samples && q && all (λ c. lt c th.cpu_pct) w)
  unfolding infra_is_quiet
  quiet_parts lt th w q l e f g = rw (e, f, g)

  -- The layer is quiet after a history exactly if it asks for at least one sample, has seen as many
  -- as it asks for, the last that many readings all test below the threshold, and the queues were
  -- quiet at the last tick: no older sample counts, and one reading that fails the test in the
  -- window is enough to keep the machine busy.
  pub infra_is_quiet_iff :
      (lt : F → F → Bool) (th : InfraThresholds F) (h : List (F × Bool))
      → (infra_is_quiet lt (record_all h (new_infra th)) ≡ true)
        ↔ (0 < th.samples)
          × (th.samples ≤ length h)
          × (last_quiet false h ≡ true)
          × (all (λ c. lt c th.cpu_pct) (last_n th.samples (readings h)) ≡ true)
  infra_is_quiet_iff lt th h = elim (Bool-cases (ltb 0 th.samples)) [
    | inl p ↦
        let (w, q) = window th h (ground arith) in
        let e =
          quiet_parts lt th (last_n th.samples (readings h)) (last_quiet false h)
            (record_all h (new_infra th)) (record_all-thresholds h (new_infra th)) w q in
        ground
          (arith, e, length-drop (length (readings h) - th.samples) (readings h), length-readings h)
    | inr p ↦
        let e =
          quiet_parts lt th (record_all h (new_infra th)).recent
            (record_all h (new_infra th)).queues_quiet (record_all h (new_infra th))
            (record_all-thresholds h (new_infra th)) refl refl in
        ground (arith, e)
  ]
