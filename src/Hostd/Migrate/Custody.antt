-- ===== src/Hostd/Migrate/Custody.antt =====
-- Where a VM is after a migration out of the host was asked for.
use sleepwalk.Prelude.{
  ℕ, ◌≡◌, refl, ap, ◌≢◌, ◌∙◌, sym, ◌==◌, Bool-cases, inl, inr, Option, none, some, List, [], ◌∷◌,
  ◌++◌, arith,
}
use sleepwalk.Prelude.Results.{Result, ok, err}
use sleepwalk.Prelude.BTreeMap.{
  BTreeMap, get, insert, remove, IsAscending, get-insert_self, get-insert_ne, get-remove_self,
  get-remove_ne,
}
use sleepwalk.Proto.Ids.{Text, VmId, vm_ord}
use sleepwalk.Hostd.Migrate.{
  RunningVm, Host, LinkError, DrainState, quiescent, busy, MigrateOutcome, moved, stood_down,
  Status, status_ok, conflict, not_found, internal_error, drained, depart, Torn, migrate_running,
  Daemon, migrate_send,
}

module _ (h : Host) (drain_deadline patience : ℕ) where
  -- What `migrate_running` has done with the VM, by how it ended.
  abbrev pub Parted :
      RunningVm
      → Torn h drain_deadline patience
      → Result (MigrateOutcome h.Timing) h.Error × Torn h drain_deadline patience
      → Type 0
  Parted vm (w, torn) (ok (stood_down kept), (_, torn')) =
      ((drained h drain_deadline patience vm w).0 ≢ ok quiescent) × (kept ≡ vm) × (torn' ≡ torn)
  Parted vm (w, torn) (ok (moved timing), (_, torn')) =
      ((drained h drain_deadline patience vm w).0 ≡ ok quiescent) × (torn' ≡ torn ++ vm.id ∷ [])
  Parted vm (w, torn) (err e, (_, torn')) =
      ((drained h drain_deadline patience vm w).0 ≡ ok quiescent) × (torn' ≡ torn ++ vm.id ∷ [])

  Parted-from :
      (vm : RunningVm) (addr : Text) (w : h.World) (torn : List VmId)
      (r : Result DrainState (LinkError h.Error))
      → (drained h drain_deadline patience vm w).0 ≡ r
      → Parted vm (w, torn) (migrate_running h drain_deadline patience vm addr (w, torn))
  unfolding migrate_running depart
  Parted-from vm addr w torn (err e) q = ground arith
  Parted-from vm addr w torn (ok busy) q = ground arith
  Parted-from vm addr w torn (ok quiescent) q = ground arith

  -- A running VM that is to be migrated is torn down, once, exactly if the drain reached quiescence,
  -- whether the rest succeeds or fails, and handed back untouched exactly if it did not.
  pub migrate_running-Parted :
      (vm : RunningVm) (addr : Text) (w : h.World) (torn : List VmId)
      → Parted vm (w, torn) (migrate_running h drain_deadline patience vm addr (w, torn))
  migrate_running-Parted vm addr w torn =
      Parted-from vm addr w torn (drained h drain_deadline patience vm w).0 refl

  abbrev D : Type 0
  D = Daemon h drain_deadline patience

  -- The VM has left the registry and was torn down, and no other VM was touched.
  abbrev pub Gone : VmId → D → D → Type 0
  Gone id d d' =
      (get id d'.vms ≡ none)
      × ((j : VmId) → j ≢ id → get j d'.vms ≡ get j d.vms)
      × (d'.torn.1 ≡ d.torn.1 ++ id ∷ [])

  -- What a request has done to the registry, by its answer.
  abbrev pub Settled : VmId → D → Status × D → Type 0
  Settled id d (not_found, d') = (get id d.vms ≡ none) × (d' ≡ d)
  Settled id d (conflict, d') = ((j : VmId) → get j d'.vms ≡ get j d.vms) × (d'.torn.1 ≡ d.torn.1)
  Settled id d (status_ok, d') = Gone id d d'
  Settled id d (internal_error, d') = Gone id d d'

  restored :
      (id j : VmId) (vm : RunningVm) (vms : BTreeMap VmId RunningVm)
      → get id vms ≡ some vm
      → vm.id ≡ id
      → get j (insert vm.id vm (remove id vms)) ≡ get j vms
  restored id j vm vms found own = elim (Bool-cases (j.uuid == id.uuid)) [
    | inl same ↦
        let at_own : j ≡ vm.id = ground arith in
        rw at_own (get-insert_self vm.id vm (remove id vms) ∙ sym (ap (λ k. get k vms) own ∙ found))
    | inr apart ↦
        get-insert_ne j vm.id vm (remove id vms) (ground arith)
        ∙ get-remove_ne j id vms (ground arith)
  ]

  module _ (id : VmId) (to : Text) (d : D) (asc : IsAscending d.vms)
      (own_id : (vm : RunningVm) → get id d.vms ≡ some vm → vm.id ≡ id) where
    Settled-from :
        (o : Option RunningVm)
        → get id d.vms ≡ o
        → Settled id d (migrate_send h drain_deadline patience id to d)
    unfolding migrate_send
    Settled-from none e = ground arith
    Settled-from (some vm) e = ground (
      arith,
      own_id vm e,
      migrate_running-Parted vm to d.torn.0 d.torn.1,
      λ (j : VmId). restored id j vm d.vms e (own_id vm e),
      get-remove_self id d.vms asc,
      λ (j : VmId). get-remove_ne j id d.vms,
    )

    -- No VM is lost and none is lost twice: a request for a VM that is not here changes nothing; one
    -- that stands down leaves the registry with the same VMs and tears none down; and one that
    -- succeeds or fails takes exactly this VM out of the registry and tears it down once.
    pub migrate_send-Settled : Settled id d (migrate_send h drain_deadline patience id to d)
    migrate_send-Settled = Settled-from (get id d.vms) refl
