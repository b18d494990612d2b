-- ===== src/Harness/Chaos/Timeline.antt =====
-- The order of the events: the turns one after another, with the drain at some place among them.
use sleepwalk.Prelude.{
  ℕ, zero, suc, ◌+◌, ◌%◌, ◌≤◌, ◌<◌, ◌≡◌, refl, ap, sym, ◌∙◌, ◌⊎◌, inl, inr, true, false, Bool-cases,
  List, [], ◌∷◌, ◌++◌, length, arith,
}
use mathlib.Core.Path.{subst}
use sleepwalk.Prelude.Order.{not_gt}
use sleepwalk.Harness.Rng.{SplitMix64, next_u64}
use sleepwalk.Harness.Chaos.{
  Turn, Event, Kind, by_time, sort_in, sort_events, turn_events, generate_turns, generate,
}

-- Turns that follow one another from a tick on.
abbrev pub Spaced : ℕ → List Turn → Type 0
Spaced from [] = Unit
Spaced from (t ∷ ts) = (from ≤ t.start) × (t.start < t.end) × Spaced t.end ts

-- The list is another one with one event put in.
abbrev pub Merged : Event → List Event → List Event → Type 0
Merged d xs [] = ⊥
Merged d xs (y ∷ l) =
    ((y ≡ d) × (l ≡ xs)) ⊎ ((rest : List Event) × (xs ≡ y ∷ rest) × Merged d rest l)

-- The event comes no later than the first of the list.
abbrev Before : Event → List Event → Type 0
Before e [] = Unit
Before e (f ∷ fs) = not_gt (by_time e f) ≡ true

sort_in-head : (e : Event) (xs : List Event) → Before e xs → sort_in e xs ≡ e ∷ xs
unfolding sort_in
sort_in-head e [] b = refl
sort_in-head e (f ∷ fs) b = ground arith

Merged-first : (d : Event) (xs l : List Event) → l ≡ xs → Merged d xs (d ∷ l)
Merged-first d xs l e = inl (refl, e)

false-true : false ≡ true → ⊥
false-true e = cc

-- An event that sorts late is put in behind the first.
sort_in_late :
    (e d y : Event) (xs l : List Event)
    → Before e xs
    → not_gt (by_time e y) ≡ false
    → ((rest : List Event) → xs ≡ y ∷ rest → ⊥)
    → Merged d xs (y ∷ l)
    → Merged d (e ∷ xs) (y ∷ sort_in e l)
sort_in_late e d y xs l b late other (inl (same, all)) =
    inl (same, ap (sort_in e) all ∙ sort_in-head e xs b)
sort_in_late e d y xs l b late other (inr (rest, at, m)) = absurd (other rest at)

sort_in-Merged :
    (e d : Event) (xs l : List Event)
    → Before e xs
    → Merged d xs l
    → Merged d (e ∷ xs) (sort_in e l)
unfolding sort_in
sort_in-Merged e d xs [] b m = elim m [ ]
sort_in-Merged e d xs (y ∷ l) b m = elim (Bool-cases (not_gt (by_time e y))) [
  | inl early ↦ rw early (inr (xs, refl, m))
  | inr late ↦
      let first_is : (rest : List Event) → xs ≡ y ∷ rest → not_gt (by_time e y) ≡ true =
        λ rest at. subst (Before e) at b in
      rw late
        (sort_in_late e d y xs l b late (λ rest at. false-true (sym late ∙ first_is rest at)) m)
]

-- The end of a turn comes before all of the turns after it.
ends_first :
    (t : Turn) (i : ℕ) (ts : List Turn)
    → Spaced t.end ts
    → Before (record { tick = t.end; kind = Kind.end; turn = i }) (turn_events (suc i) ts)
unfolding turn_events
ends_first t i [] s = tt
ends_first t i (u ∷ ts) (a, b, s) = ground arith

-- Sorted, the events are those of the turns in their order, with the drain's put in.
pub sort_events-Merged :
    (d : Event) (from i : ℕ) (ts : List Turn)
    → Spaced from ts
    → Merged d (turn_events i ts) (sort_events (turn_events i ts ++ d ∷ []))
unfolding sort_events turn_events sort_in
sort_events-Merged d from i [] s = inl (refl, refl)
sort_events-Merged d from i (t ∷ ts) (a, b, s) =
    let more = sort_events-Merged d t.end (suc i) ts s in
    let begins : Event = record { tick = t.start; kind = Kind.start; turn = i } in
    let ends : Event = record { tick = t.end; kind = Kind.end; turn = i } in
    let rest = sort_events (turn_events (suc i) ts ++ d ∷ []) in
    sort_in-Merged begins d (ends ∷ turn_events (suc i) ts) (sort_in ends rest) (ground arith)
      (sort_in-Merged ends d (turn_events (suc i) ts) rest (ends_first t i ts s) more)

pub generate_turns-Spaced :
    (k cursor : ℕ) (rng : SplitMix64)
    → Spaced cursor (generate_turns k cursor rng).0 × (length (generate_turns k cursor rng).0 ≡ k)
unfolding generate_turns
generate_turns-Spaced zero cursor rng = (tt, refl)
generate_turns-Spaced (suc k) cursor rng =
    let rng1 = (next_u64 rng).1 in
    let start : ℕ = cursor + (next_u64 rng).0 % 120 in
    let more = generate_turns-Spaced k (start + (20 + (next_u64 rng1).0 % 150)) (next_u64 rng1).1 in
    ((omega arith, omega arith, more.0), ap suc more.1)

-- Every seed gives between three and eight turns that follow one another.
pub generate-Spaced :
    (rng : SplitMix64)
    → Spaced 0 (generate rng).0 × (3 ≤ length (generate rng).0) × (length (generate rng).0 ≤ 8)
unfolding generate
generate-Spaced rng =
    let more = generate_turns-Spaced (3 + (next_u64 rng).0 % 6) 0 (next_u64 rng).1 in
    (more.0, omega (arith, more.1), omega (arith, more.1))

pub Merged-cons :
    (d x : Event) (xs l : List Event)
    → Merged d (x ∷ xs) l
    → (l ≡ d ∷ x ∷ xs) ⊎ ((rest : List Event) × (l ≡ x ∷ rest) × Merged d xs rest)
Merged-cons d x xs [] m = elim m [ ]
Merged-cons d x xs (y ∷ l) (inl (at, all)) = inl (rw (at, all))
Merged-cons d x xs (y ∷ l) (inr (rest, at, m)) =
    inr (l, ground arith, subst (λ r. Merged d r l) (sym (rest_is x y xs rest at)) m)
  where
    rest_is : (x y : Event) (xs rest : List Event) → x ∷ xs ≡ y ∷ rest → xs ≡ rest
    rest_is x y xs rest e = ground arith

pub Merged-nil : (d : Event) (l : List Event) → Merged d [] l → l ≡ d ∷ []
Merged-nil d [] m = elim m [ ]
Merged-nil d (y ∷ l) (inl (at, all)) = rw (at, all)
Merged-nil d (y ∷ l) (inr (rest, at, m)) = cc
