-- ===== src/Hostd/GuestLink/Retry.antt =====
-- crates/hostd/src/guestlink.rs: the attempts of `connect_retry`.
use mathlib.Core.Path.{subst}
use sleepwalk.Prelude.{ℕ, List, [], ◌∷◌, ◌++◌, ◌≡◌, refl, sym, ap, ◌∙◌, arith, All, ◌⊎◌, inl, inr}
use sleepwalk.Prelude.Results.{Result, ok, err}
use sleepwalk.Proto.Lines.{Stream}
use sleepwalk.Hostd.GuestLink.{
  LinkFault, no_attempt, link_connect, retry_from, connects, connect_retry,
}

module _ (s : Stream) (port : ℕ) where
  -- The attempt fails.
  abbrev pub Refused : Result s.Conn s.Error → Type 0
  Refused d = (f : LinkFault s.Error) × (link_connect s d port ≡ err f)

  -- The last of the faults of attempts that all fail, or the one that was there before.
  abbrev pub last_fault :
      LinkFault s.Error → (ds : List (Result s.Conn s.Error)) → All Refused ds → LinkFault s.Error
  last_fault last [] h = last
  last_fault last (d ∷ ds) h = last_fault h.0.0 ds h.1

  retry_reaches :
      (last : LinkFault s.Error) (before after : List (Result s.Conn s.Error))
      (d : Result s.Conn s.Error) (l : s.Conn)
      → All Refused before
      → link_connect s d port ≡ ok l
      → retry_from s last (connects s port (before ++ d ∷ after)) ≡ ok l
  unfolding retry_from
  retry_reaches last [] after d l h e = ground (arith, e)
  retry_reaches last (b ∷ before) after d l h e =
      ground (arith, h.0.1, retry_reaches h.0.0 before after d l h.1 e)

  retry_exhausted :
      (last : LinkFault s.Error) (ds : List (Result s.Conn s.Error)) (h : All Refused ds)
      → retry_from s last (connects s port ds) ≡ err (last_fault last ds h)
  unfolding retry_from
  retry_exhausted last [] h = refl
  retry_exhausted last (d ∷ ds) h = ground (arith, h.0.1, retry_exhausted h.0.0 ds h.1)

  -- Some attempt is the first that reaches the guest.
  abbrev pub Reached : List (Result s.Conn s.Error) → s.Conn → Type 0
  Reached ds l =
      (before : List (Result s.Conn s.Error)) × (d : Result s.Conn s.Error) × (after : List
        (Result s.Conn s.Error))
      × (ds ≡ before ++ d ∷ after)
      × All Refused before
      × (link_connect s d port ≡ ok l)

  -- What a call has come to, by its answer.
  abbrev pub Retried : List (Result s.Conn s.Error) → Result s.Conn (LinkFault s.Error) → Type 0
  Retried ds (ok l) = Reached ds l
  Retried ds (err f) = (h : All Refused ds) × (f ≡ last_fault no_attempt ds h)

  first_of :
      (d : Result s.Conn s.Error) (ds : List (Result s.Conn s.Error))
      (r : Result s.Conn (LinkFault s.Error))
      → link_connect s d port ≡ r
      → All Refused ds ⊎ ((l : s.Conn) × Reached ds l)
      → All Refused (d ∷ ds) ⊎ ((l : s.Conn) × Reached (d ∷ ds) l)
  first_of d ds (ok l) e later = inr (l, ([], d, ds, refl, tt, e))
  first_of d ds (err f) e (inl h) = inl ((f, e), h)
  first_of d ds (err f) e (inr (l, (before, b, after, q, h, c))) =
      inr (l, (d ∷ before, b, after, ap (λ xs. d ∷ xs) q, ((f, e), h), c))

  some_or_none :
      (ds : List (Result s.Conn s.Error)) → All Refused ds ⊎ ((l : s.Conn) × Reached ds l)
  some_or_none [] = inl tt
  some_or_none (d ∷ ds) = first_of d ds (link_connect s d port) refl (some_or_none ds)

  Retried-from :
      (ds : List (Result s.Conn s.Error))
      → All Refused ds ⊎ ((l : s.Conn) × Reached ds l)
      → Retried ds (retry_from s no_attempt (connects s port ds))
  Retried-from ds (inl h) = subst (Retried ds) (sym (retry_exhausted no_attempt ds h)) (h, refl)
  Retried-from ds (inr (l, (before, d, after, q, h, e))) =
      subst (Retried ds)
        (sym (
          ap (λ xs. retry_from s no_attempt (connects s port xs)) q
          ∙ retry_reaches no_attempt before after d l h e))
        (before, d, after, q, h, e)

  -- Whatever its attempts come to, `connect_retry` answers with the link of the first attempt that
  -- reaches the guest, all before it having failed and whatever comes after it; or all attempts have
  -- failed, and it answers with the fault of the last, or `no_attempt` if the deadline left room for
  -- none.
  pub connect_retry-outcome :
      (ds : List (Result s.Conn s.Error)) → Retried ds (connect_retry s ds port)
  unfolding connect_retry
  connect_retry-outcome ds = Retried-from ds (some_or_none ds)
