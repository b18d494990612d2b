-- ===== src/Rebalancer/Placement/Existence.antt =====
-- When a move is found: whenever a good one exists, and so also for VMs of which nothing is known.
use Prim.Native.Nat.{Ordering}
use sleepwalk.Prelude.{
  ℕ, ◌≡◌, refl, ap, ◌≢◌, ◌↔◌, true, false, none, some, List, In, All, All-In, arith,
}
use sleepwalk.Prelude.Order.{
  and_then, not_gt, IsMax-unique, reversed, reversed-IsOrder, Le, IsMax, max_by-IsMax, min_by-IsMax,
  max_by-some, min_by-some,
}
use sleepwalk.Prelude.BTreeMap.{BTreeMap, get, IsAscending}
use sleepwalk.Proto.Ids.{VmId, HostId, compare_host, host_ord, vm_ord}
use sleepwalk.Proto.Compat.{CompatClass, compatible_with}
use sleepwalk.Rebalancer.Placement.{
  Float, FloatLaws, Rebalance, Placement, Pressure, vms_on, by_idleness, most_idle_vm, differs,
  by_heat, by_coolness, hottest_host, candidates, coolest_compatible_host, pick_victim,
  new_pressure,
}
use sleepwalk.Rebalancer.Placement.Choice.{
  GoodMove, pick_victim-GoodMove, by_heat-IsOrder, by_coolness-IsOrder, pressure_of-In,
  In-candidates, candidates-In, by_idleness-IsOrder, accepts-some, differs→≢,
}

first_not_gt : (o o' : Ordering) → not_gt (and_then o o') ≡ true → not_gt o ≡ true
first_not_gt o o' e = ground arith

≢→differs : (g h : HostId) → g ≢ h → differs g h ≡ true
≢→differs g h n = ground (arith, host_ord.eq_of_cmp g h)

module _ (fl : Float) (laws : FloatLaws fl) where
  -- Every reading is finite, as `Pressure::new` makes them.
  abbrev pub AllFinite : BTreeMap HostId (Pressure fl) → Type 0
  AllFinite pressure = All (λ e. fl.is_finite e.1.reading ≡ true) pressure

  pub new_pressure-finite : (v : fl.F) → fl.is_finite (new_pressure fl v).reading ≡ true
  unfolding new_pressure
  new_pressure-finite v = ground (arith, laws.zero_finite, laws.clamp_finite v)

  module _ (pressure : BTreeMap HostId (Pressure fl)) (asc : IsAscending pressure) where
    -- Equal by heat, or by coolness, means the same host.
    hosts_equal :
        (o : Ordering) (g h : HostId) → and_then o (compare_host g h) ≡ Ordering.eq → g ≡ h
    hosts_equal o g h e = host_ord.eq_of_cmp g h (ground arith)

    hottest_host_unique :
        (h : HostId) (p : Pressure fl)
        → IsMax (by_heat fl) pressure (h, p)
        → hottest_host fl pressure ≡ some h
    unfolding hottest_host
    hottest_host_unique h p x =
        let (m, e) = max_by-some (by_heat fl) (h, p) pressure x.member in
        let u =
          IsMax-unique (by_heat-IsOrder fl laws) x
            (max_by-IsMax (by_heat-IsOrder fl laws) pressure e) in
        rw e (ap some (hosts_equal _ m.0 h u))

    coolest_host_unique :
        (except h : HostId) (source : CompatClass) (compat : BTreeMap HostId CompatClass)
        (p : Pressure fl)
        → IsMax (reversed (by_coolness fl)) (candidates fl pressure except source compat) (h, p)
        → coolest_compatible_host fl pressure except source compat ≡ some h
    unfolding coolest_compatible_host
    coolest_host_unique except h source compat p x =
        let cs = candidates fl pressure except source compat in
        let (m, e) = min_by-some (by_coolness fl) (h, p) cs x.member in
        let order = reversed-IsOrder (by_coolness-IsOrder fl laws) in
        let u = IsMax-unique order x (min_by-IsMax (by_coolness-IsOrder fl laws) cs e) in
        rw e (ap some (hosts_equal _ m.0 h u))

  most_idle_unique :
      (vms : List VmId) (idle : BTreeMap VmId ℕ) (v : VmId)
      → IsMax (by_idleness idle) vms v
      → most_idle_vm vms idle ≡ some v
  unfolding most_idle_vm
  most_idle_unique vms idle v x =
      let (m, e) = max_by-some (by_idleness idle) v vms x.member in
      let u =
        IsMax-unique (by_idleness-IsOrder idle) x (max_by-IsMax (by_idleness-IsOrder idle) vms e) in
      rw e (ap some (vm_ord.eq_of_cmp m v (ground arith)))

  -- A host that reads no higher than a cooler one is cooler as well.
  still_cooler :
      (p q m : Pressure fl)
      → fl.is_finite m.reading ≡ true
      → fl.is_finite q.reading ≡ true
      → Le fl.total_cmp m.reading q.reading
      → fl.le p.reading q.reading ≡ false
      → fl.le p.reading m.reading ≡ false
  still_cooler p q m fm fq l c =
      ground
        (arith, laws.le_of_total m.reading q.reading, laws.le_trans p.reading m.reading q.reading)

  module _ (placement : Placement) (pressure : BTreeMap HostId (Pressure fl))
      (idle : BTreeMap VmId ℕ) (high_watermark : Pressure fl) (compat : BTreeMap HostId CompatClass)
      (asc : IsAscending pressure) where
    pub GoodMove-picked :
        (mv : Rebalance)
        → GoodMove fl placement pressure idle high_watermark compat mv
        → pick_victim fl placement pressure idle high_watermark compat ≡ some mv
    unfolding pick_victim
    GoodMove-picked mv g =
        let least : IsMax (reversed (by_coolness fl))
            (candidates fl pressure mv.from g.source_class compat) (mv.to, g.target_reading) =
          record {
            member =
                In-candidates fl laws pressure mv.from g.source_class compat
                  (mv.to, g.target_reading) g.target_read (≢→differs mv.to mv.from g.elsewhere)
                  (rw g.target_known g.can_restore);
            upper = λ e i.
                let (k, d, a) = candidates-In fl laws pressure mv.from g.source_class compat e i in
                g.coolest e k d a;
          } in
        rw (
          hottest_host_unique pressure asc mv.from g.source_reading g.hottest,
          pressure_of-In fl laws pressure mv.from g.source_reading asc g.hottest.member,
          g.overloaded,
          g.source_known,
          coolest_host_unique pressure asc mv.from mv.to g.source_class compat g.target_reading
              least,
          pressure_of-In fl laws pressure mv.to g.target_reading asc g.target_read,
          g.cooler,
          most_idle_unique (vms_on placement mv.from) idle mv.vm g.most_idle,
        )

    -- On readings that are in order, `pick_victim` returns a move exactly if it is the good one: so
    -- there is at most one good move, and the code finds it whenever there is one.
    pub pick_victim-eq-some_iff :
        (mv : Rebalance)
        → (pick_victim fl placement pressure idle high_watermark compat ≡ some mv)
          ↔ GoodMove fl placement pressure idle high_watermark compat mv
    pick_victim-eq-some_iff mv = (
      pick_victim-GoodMove fl laws placement pressure idle high_watermark compat mv asc,
      GoodMove-picked mv,
    )

    -- Some move is found if the hottest host is above the watermark and has a VM, and any other
    -- host that can restore its snapshot reads strictly lower.
    pub pick_victim-finds :
        (fin : AllFinite pressure) (h t : HostId) (p q : Pressure fl) (c d : CompatClass) (v : VmId)
        → IsMax (by_heat fl) pressure (h, p)
        → fl.le p.reading high_watermark.reading ≡ false
        → get h compat ≡ some c
        → In v (vms_on placement h)
        → In (t, q) pressure
        → t ≢ h
        → get t compat ≡ some d
        → compatible_with c d ≡ true
        → fl.le p.reading q.reading ≡ false
        → (mv : Rebalance) × (pick_victim fl placement pressure idle high_watermark compat
            ≡ some mv)
          × (mv.from ≡ h)
          × In mv.vm (vms_on placement h)
    pick_victim-finds fin h t p q c d v hot over known lives read other class fits cooler =
        let cs = candidates fl pressure h c compat in
        let present =
          In-candidates fl laws pressure h c compat (t, q) read (≢→differs t h other)
            (rw class fits) in
        let (m, em) = min_by-some (by_coolness fl) (t, q) cs present in
        let least = min_by-IsMax (by_coolness-IsOrder fl laws) cs em in
        let (seen, apart, accepted) = candidates-In fl laws pressure h c compat m least.member in
        let (b, eb, restores) = accepts-some c (get m.0 compat) accepted in
        let (w, ew) = max_by-some (by_idleness idle) v (vms_on placement h) lives in
        let idlest = max_by-IsMax (by_idleness-IsOrder idle) (vms_on placement h) ew in
        let mv : Rebalance = record { vm = w; from = h; to = m.0 } in
        (
          mv,
          GoodMove-picked mv (record {
            source_reading = p;
            target_reading = m.1;
            source_class = c;
            target_class = b;
            hottest = hot;
            overloaded = over;
            source_known = known;
            target_known = eb;
            can_restore = restores;
            elsewhere = differs→≢ m.0 h apart;
            target_read = seen;
            cooler =
                still_cooler p q m.1 (All-In _ pressure seen fin) (All-In _ pressure read fin)
                  (first_not_gt _ _ (least.upper (t, q) present)) cooler;
            coolest = λ e i x y. least.upper e (In-candidates fl laws pressure h c compat e i x y);
            most_idle = idlest;
          }),
          refl,
          idlest.member,
        )

    -- If no reading is the idleness of a VM of the hottest host, a VM of that host is moved all the
    -- same, one of which nothing is known. The conditions are those under which a VM is moved: all
    -- readings of pressure are finite, the host is above the watermark and has a VM, and another host
    -- is strictly cooler and of a compatible class, where both classes are known.
    pub pick_victim_without_evidence :
        (fin : AllFinite pressure) (h t : HostId) (p q : Pressure fl) (c d : CompatClass) (v : VmId)
        → IsMax (by_heat fl) pressure (h, p)
        → fl.le p.reading high_watermark.reading ≡ false
        → get h compat ≡ some c
        → In v (vms_on placement h)
        → In (t, q) pressure
        → t ≢ h
        → get t compat ≡ some d
        → compatible_with c d ≡ true
        → fl.le p.reading q.reading ≡ false
        → All (λ w. get w idle ≡ none) (vms_on placement h)
        → (mv : Rebalance) × (pick_victim fl placement pressure idle high_watermark compat
            ≡ some mv)
          × (mv.from ≡ h)
          × In mv.vm (vms_on placement h)
          × (get mv.vm idle ≡ none)
    pick_victim_without_evidence fin h t p q c d v hot over known lives read other class fits cooler
          unread =
        let (mv, found, from, lives') =
          pick_victim-finds fin h t p q c d v hot over known lives read other class fits cooler in
        (
          mv,
          found,
          from,
          lives',
          All-In (λ w. get w idle ≡ none) (vms_on placement h) lives' unread,
        )
