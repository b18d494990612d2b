-- ===== src/Rebalancer/Placement/Choice.antt =====
-- What a chosen move is worth.
use sleepwalk.Prelude.{
  ℕ, ◌≡◌, refl, ap, ◌≢◌, sym, ◌∙◌, Bool, true, false, Option, none, some, In, In-filter_by,
  filter_by-In, if◌then◌else◌, arith,
}
use mathlib.Core.Path.{subst, ap₂}
use mathlib.Core.Option.{some-injective}
use sleepwalk.Prelude.Order.{
  IsOrder, Le, reversed, IsMax, max_by-IsMax, min_by-IsMax, by_key-IsOrder, reversed-IsOrder,
  both-IsOrder, compare-IsOrder,
}
use sleepwalk.Prelude.BTreeMap.{BTreeMap, get, IsAscending, In-get}
use sleepwalk.Proto.Ids.{VmId, HostId, vm_ord, host_ord}
use sleepwalk.Proto.Compat.{CompatClass, compatible_with}
use sleepwalk.Rebalancer.Placement.{
  Float, FloatLaws, Rebalance, Placement, Pressure, Entry, ◌>>=◌, vms_on, or_zero, by_idleness,
  most_idle_vm, differs, by_heat, by_coolness, host_of, hottest_host, class_accepts, candidates,
  coolest_compatible_host, pressure_of, pick_victim,
}

pub >>=-some :
    {A B : Type 0} (m : Option A) (f : A → Option B) {b : B}
    → (m >>= f) ≡ some b
    → (a : A) × (m ≡ some a) × (f a ≡ some b)
>>=-some none f e = cc
>>=-some (some a) f e = (a, refl, e)

unless_some :
    {A : Type 0} (t : Bool) (m : Option A) {a : A}
    → (if t then none else m) ≡ some a
    → (t ≡ false) × (m ≡ some a)
unless_some true m e = cc
unless_some false m e = (refl, e)

pub differs→≢ : (g h : HostId) → differs g h ≡ true → g ≢ h
differs→≢ g h d e = ground (arith, host_ord.is_order.flips g g)

-- What makes a move the right one. The comparisons are those of the code's folds; that the members
-- are extreme under them is not.
pub record GoodMove (fl : Float) (placement : Placement) (pressure : BTreeMap HostId (Pressure fl))
    (idle : BTreeMap VmId ℕ) (high_watermark : Pressure fl) (compat : BTreeMap HostId CompatClass)
    (mv : Rebalance) : Type 0 where
  pub source_reading : Pressure fl
  pub target_reading : Pressure fl
  pub source_class : CompatClass
  pub target_class : CompatClass
  -- No host is hotter than the source, and of those as hot it has the lowest id.
  pub hottest : IsMax (by_heat fl) pressure (mv.from, source_reading)
  pub overloaded : fl.le source_reading.reading high_watermark.reading ≡ false
  pub source_known : get mv.from compat ≡ some source_class
  pub target_known : get mv.to compat ≡ some target_class
  pub can_restore : compatible_with source_class target_class ≡ true
  pub elsewhere : mv.to ≢ mv.from
  pub target_read : In (mv.to, target_reading) pressure
  pub cooler : fl.le source_reading.reading target_reading.reading ≡ false
  -- No other host that can restore the snapshot is cooler than the target.
  pub coolest :
      (e : Entry fl)
      → In e pressure
      → differs e.0 mv.from ≡ true
      → class_accepts source_class (get e.0 compat) ≡ true
      → Le (by_coolness fl) (mv.to, target_reading) e
  -- The VM lives on the source, and no VM there has been idle for longer.
  pub most_idle : IsMax (by_idleness idle) (vms_on placement mv.from) mv.vm

pub by_idleness-IsOrder : (idle : BTreeMap VmId ℕ) → IsOrder (by_idleness idle)
by_idleness-IsOrder idle =
    both-IsOrder (by_key-IsOrder (λ v. or_zero (get v idle)) compare-IsOrder)
      (reversed-IsOrder vm_ord.is_order)

pub accepts-some :
    (c : CompatClass) (o : Option CompatClass)
    → class_accepts c o ≡ true
    → (d : CompatClass) × (o ≡ some d) × (compatible_with c d ≡ true)
accepts-some c none e = cc
accepts-some c (some d) e = (d, refl, e)

module _ (fl : Float) (laws : FloatLaws fl) where
  pub by_heat-IsOrder : IsOrder (by_heat fl)
  by_heat-IsOrder =
      both-IsOrder (by_key-IsOrder (λ e. e.1.reading) laws.total)
        (reversed-IsOrder (by_key-IsOrder (λ e. e.0) host_ord.is_order))

  pub by_coolness-IsOrder : IsOrder (by_coolness fl)
  by_coolness-IsOrder =
      both-IsOrder (by_key-IsOrder (λ e. e.1.reading) laws.total)
        (by_key-IsOrder (λ e. e.0) host_ord.is_order)

  pub host_of-some :
      (o : Option (Entry fl)) (h : HostId)
      → host_of fl o ≡ some h
      → (p : Pressure fl) × (o ≡ some (h, p))
  host_of-some none h e = cc
  host_of-some (some (g, p)) h e = (p, ground arith)

  hottest_host-IsMax :
      (pressure : BTreeMap HostId (Pressure fl)) (h : HostId)
      → hottest_host fl pressure ≡ some h
      → (p : Pressure fl) × IsMax (by_heat fl) pressure (h, p)
  unfolding hottest_host
  hottest_host-IsMax pressure h e =
      let (p, f) = host_of-some _ h e in (p, max_by-IsMax by_heat-IsOrder pressure f)

  coolest-IsMin :
      (pressure : BTreeMap HostId (Pressure fl)) (except h : HostId) (source : CompatClass)
      (compat : BTreeMap HostId CompatClass)
      → coolest_compatible_host fl pressure except source compat ≡ some h
      → (p : Pressure fl) × IsMax
          (reversed (by_coolness fl))
          (candidates fl pressure except source compat)
          (h, p)
  unfolding coolest_compatible_host
  coolest-IsMin pressure except h source compat e =
      let (p, f) = host_of-some _ h e in (p, min_by-IsMax by_coolness-IsOrder _ f)

  pub pressure_of-In :
      (pressure : BTreeMap HostId (Pressure fl)) (h : HostId) (p : Pressure fl)
      → IsAscending pressure
      → In (h, p) pressure
      → pressure_of fl pressure h ≡ p.reading
  unfolding pressure_of
  pressure_of-In pressure h p a i = ground (arith, In-get h p pressure a i)

  pub candidates-In :
      (pressure : BTreeMap HostId (Pressure fl)) (except : HostId) (source : CompatClass)
      (compat : BTreeMap HostId CompatClass) (e : Entry fl)
      → In e (candidates fl pressure except source compat)
      → In e pressure × (differs e.0 except ≡ true) × (class_accepts source (get e.0 compat) ≡ true)
  candidates-In pressure except source compat e i =
      let (j, accepted) = In-filter_by _ e _ i in
      let (k, other) = In-filter_by _ e pressure j in (k, other, accepted)

  pub In-candidates :
      (pressure : BTreeMap HostId (Pressure fl)) (except : HostId) (source : CompatClass)
      (compat : BTreeMap HostId CompatClass) (e : Entry fl)
      → In e pressure
      → differs e.0 except ≡ true
      → class_accepts source (get e.0 compat) ≡ true
      → In e (candidates fl pressure except source compat)
  In-candidates pressure except source compat e i d a =
      filter_by-In _ e _ (filter_by-In _ e pressure i d) a

  -- A move that is chosen is a good one: from the hottest host, which is above the watermark, to
  -- the coolest of the other hosts that can restore its snapshot, which is strictly cooler, of a
  -- VM that no VM on the source outlasts in idleness.
  pub pick_victim-GoodMove :
      (placement : Placement) (pressure : BTreeMap HostId (Pressure fl)) (idle : BTreeMap VmId ℕ)
      (high_watermark : Pressure fl) (compat : BTreeMap HostId CompatClass) (mv : Rebalance)
      → IsAscending pressure
      → pick_victim fl placement pressure idle high_watermark compat ≡ some mv
      → GoodMove fl placement pressure idle high_watermark compat mv
  unfolding pick_victim most_idle_vm
  pick_victim-GoodMove placement pressure idle high_watermark compat mv asc e =
      let (h, eh, e1) = >>=-some (hottest_host fl pressure) _ e in
      let (over, e2) = unless_some _ _ e1 in
      let (c, ec, e3) = >>=-some (get h compat) _ e2 in
      let (t, et, e4) = >>=-some (coolest_compatible_host fl pressure h c compat) _ e3 in
      let (cool, e5) = unless_some _ _ e4 in
      let (v, ev, e6) = >>=-some (most_idle_vm (vms_on placement h) idle) _ e5 in
      let (p, hot) = hottest_host-IsMax pressure h eh in
      let (q, least) = coolest-IsMin pressure h t c compat et in
      let (seen, other, accepted) = candidates-In pressure h c compat (t, q) least.member in
      let (d, ed, fits) = accepts-some c (get t compat) accepted in
      let ph = pressure_of-In pressure h p asc hot.member in
      let pt = pressure_of-In pressure t q asc seen in
      subst (GoodMove fl placement pressure idle high_watermark compat) (some-injective _ _ e6)
        (record {
          source_reading = p;
          target_reading = q;
          source_class = c;
          target_class = d;
          hottest = hot;
          overloaded = ap (λ x. fl.le x high_watermark.reading) (sym ph) ∙ over;
          source_known = ec;
          target_known = ed;
          can_restore = fits;
          elsewhere = differs→≢ t h other;
          target_read = seen;
          cooler = ap₂ fl.le (sym ph) (sym pt) ∙ cool;
          coolest = λ x i y z. least.upper x (In-candidates pressure h c compat x i y z);
          most_idle = max_by-IsMax (by_idleness-IsOrder idle) _ ev;
        })
