-- ===== src/Miniport/Pnp/Removes.antt =====
-- What WnbdDispatchPnp of driver/driver.c does to the disks of the adapter.
use wnbd.Prelude.{
  ◌+◌, ◌≡◌, ◌≢◌, ◌∙◌, [], refl, sym, ap, subst, Bool, true, false, not, ◌||◌, Option, none, some,
  ◌==◌, arith, split-if,
}
use wnbd.Wdk.{is_failure}
use wnbd.Connections.{Disk, Extension, find_by_addr, remove_disk}
use wnbd.Request.Complete.{has_pending_async_requests}
use wnbd.Ioctl.{IoctlEnv, Adapter}
use wnbd.Ioctl.Lookup.{
  acquire_found, acquire_device, update_references, release_device, release-acquire,
}
use wnbd.Ioctl.Mapping.{update, references_of, monitor_end, disconnect_sync}
use wnbd.Ioctl.Balance.Holders.{or-neither, holder, others, others-before, let_go}
use wnbd.Ioctl.Balance.{missed, held, acquire_found-Found, found_missing}
use wnbd.Miniport.{find_device_by_addr}
use wnbd.Miniport.Pnp.Targets.{
  IsIdle, Ends, passed, turned_down, removed, waits, idle, busy, looked_up, minor_other, same_disk,
}
use wnbd.Miniport.Pnp.{
  Minor, query_capabilities, start_device, query_remove_device, remove_device, other_minor,
  PnpRequest, Plug, PnpOutcome, forward, start_found, start_pnp, query_found, removed_end,
  remove_found, find_pnp, run_minor, dispatch_pnp,
}

module _ {S : Type 0} (env : IoctlEnv) (r : PnpRequest) (p : Plug S) where
  pass : (p' : Plug S) → p'.adapter.ext ≡ p.adapter.ext → IsIdle r p → Ends env r p (forward p')
  pass p' e idle = passed false p' refl e idle

  -- A request that neither queries nor removes.
  IsIdle-minor : r.minor ≢ remove_device → r.minor ≢ query_remove_device → IsIdle r p
  IsIdle-minor n m d up target = (n, λ e. elim (m e) [ ])

  -- Nothing is looked up.
  not_looked_up :
      (not p.has_extension || p.adapter.ext.device_count == 0 || is_failure r.scsi_address.0) ≡ true
      → IsIdle r p
  not_looked_up h d (known, disks, got) target =
      elim (looked_up p.has_extension p.adapter.ext.device_count (is_failure r.scsi_address.0) h
        known disks got) [ ]

  -- There is no disk at the address, or it is being removed.
  missing : find_device_by_addr p.adapter.ext r.scsi_address.1 ≡ (none, p.adapter.ext) → IsIdle r p
  unfolding find_device_by_addr acquire_found acquire_device
  missing h d up (found, free, same) = elim (found_missing p.adapter.ext _ d h found free) [ ]

  -- The object at the address is another.
  other_object :
      (d : Disk)
      → find_by_addr r.scsi_address.1.path_id r.scsi_address.1.target_id r.scsi_address.1.lun
          p.adapter.ext.disks
        ≡ some d
      → p.pdos d.connection_id ≢ r.device_object
      → IsIdle r p
  other_object d found other e up (found', free, same) =
      elim (other (ap (λ x. p.pdos x.connection_id) (same_disk _ d e found found') ∙ same)) [ ]

  -- What follows the lookup by the object's address.
  at_address :
      (k : Option Disk × Extension → PnpOutcome S)
      → (find_device_by_addr p.adapter.ext r.scsi_address.1 ≡ (none, p.adapter.ext)
          → Ends env r p (k (none, p.adapter.ext)))
      → ((d : Disk)
          → find_by_addr r.scsi_address.1.path_id r.scsi_address.1.target_id r.scsi_address.1.lun
              p.adapter.ext.disks
            ≡ some d
          → d.released ≡ false
          → Ends env r p (k (some d, update_references d.connection_id (λ n. n + 1) p.adapter.ext)))
      → Ends env r p (k (find_device_by_addr p.adapter.ext r.scsi_address.1))
  unfolding find_device_by_addr
  at_address k miss hit =
      elim (acquire_found-Found p.adapter.ext (
        find_by_addr r.scsi_address.1.path_id r.scsi_address.1.target_id r.scsi_address.1.lun
          p.adapter.ext.disks)) [
            | missed e ↦ subst (λ x. Ends env r p (k x)) (sym e) (miss e)
            | held d found free e ↦ subst (λ x. Ends env r p (k x)) (sym e) (hit d found free)
          ]

  start_pnp-Ends : IsIdle r p → Ends env r p (start_pnp env r p)
  unfolding start_pnp start_found release_device
  start_pnp-Ends idle =
      split-if (Ends env r p) (not p.has_extension || is_failure r.scsi_address.0) _ _
        (λ h. pass p refl idle)
        (λ h.
          at_address (start_found env r p) (λ e. pass p refl idle)
            (λ d found free. pass _ (release-acquire p.adapter.ext d) idle))

  -- A query finds the disk idle.
  query-IsIdle :
      r.minor ≡ query_remove_device
      → (d : Disk)
      → find_by_addr r.scsi_address.1.path_id r.scsi_address.1.target_id r.scsi_address.1.lun
          p.adapter.ext.disks
        ≡ some d
      → ((p.adapter.devices d.connection_id).pending ≡ [])
        × ((p.adapter.devices d.connection_id).submitted ≡ [])
      → IsIdle r p
  query-IsIdle m d found (no_pending, no_submitted) e up (found', free, same) =
      let is = same_disk _ d e found found' in
      (
        (λ n. minor_other m n),
        λ q. (
          ap (λ x. (p.adapter.devices x.connection_id).pending) (sym is) ∙ no_pending,
          ap (λ x. (p.adapter.devices x.connection_id).submitted) (sym is) ∙ no_submitted,
        ),
      )

  query_found-Ends :
      r.minor ≡ query_remove_device
      → (d : Disk)
      → find_by_addr r.scsi_address.1.path_id r.scsi_address.1.target_id r.scsi_address.1.lun
          p.adapter.ext.disks
        ≡ some d
      → d.released ≡ false
      → Ends env r p (
          query_found env r p
            (some d, update_references d.connection_id (λ n. n + 1) p.adapter.ext))
  unfolding query_found release_device
  query_found-Ends m d found free =
      split-if (Ends env r p) (not (p.pdos d.connection_id == r.device_object)) _ _
        (λ h. pass _ (release-acquire p.adapter.ext d) (other_object d found (ground (arith, h))))
        (λ same.
          split-if (Ends env r p) (has_pending_async_requests (p.adapter.devices d.connection_id)) _
            _
            (λ full.
              turned_down d _ refl m (found, free, ground (arith, same))
                (busy (p.adapter.devices d.connection_id) full) (release-acquire p.adapter.ext d))
            (λ none_left.
              pass _ (release-acquire p.adapter.ext d)
                (query-IsIdle m d found (idle (p.adapter.devices d.connection_id) none_left))))

  remove_found-Ends :
      r.minor ≡ remove_device
      → (d : Disk)
      → find_by_addr r.scsi_address.1.path_id r.scsi_address.1.target_id r.scsi_address.1.lun
          p.adapter.ext.disks
        ≡ some d
      → d.released ≡ false
      → Ends env r p (
          remove_found env r p
            (some d, update_references d.connection_id (λ n. n + 1) p.adapter.ext))
  unfolding remove_found release_device disconnect_sync removed_end monitor_end
  remove_found-Ends m d found free =
      let a = p.adapter in
      let ext = release_device (update_references d.connection_id (λ n. n + 1) a.ext) d in
      let a' : Adapter S = record a {
        ext = ext;
        devices =
            update a.devices d.connection_id
              (record (a.devices d.connection_id) { removal_event = true });
      } in
      let gone : Bool = references_of (others a d) == 0 || env.others_release in
      split-if (Ends env r p) (not (p.pdos d.connection_id == r.device_object)) _ _
        (λ h. pass _ (release-acquire p.adapter.ext d) (other_object d found (ground (arith, h))))
        (λ same.
          split-if (λ (o : Option (Adapter S)). Ends env r p (removed_end env r p o)) gone
            (some (monitor_end env d a')) none
            (λ h.
              removed d _ refl m (found, free, ground (arith, same)) (let_go env a d h)
                (ap (λ ext. remove_disk ext d) (release-acquire a.ext d)))
            (λ h.
              let (someone, stays) =
                or-neither (references_of (others a d) == 0) env.others_release h in
              let (e, held_by, refs) = holder (others a d) someone in
              waits d e refl m (found, free, ground (arith, same))
                (sym (others-before a d) ∙ held_by) refs stays))

  find_pnp-Ends :
      (k : Plug S → Option Disk × Extension → PnpOutcome S)
      → Ends env r p (k p (find_device_by_addr p.adapter.ext r.scsi_address.1))
      → Ends env r p (find_pnp env r k p)
  unfolding find_pnp
  find_pnp-Ends k h =
      split-if (Ends env r p)
        (not p.has_extension || p.adapter.ext.device_count == 0 || is_failure r.scsi_address.0) _ _
        (λ e. pass p refl (not_looked_up e)) (λ e. h)

  run_minor-Ends : (m : Minor) → r.minor ≡ m → Ends env r p (run_minor env r m p)
  unfolding run_minor query_found remove_found
  run_minor-Ends query_capabilities e = passed true p refl refl (IsIdle-minor (λ x. cc) (λ x. cc))
  run_minor-Ends start_device e = start_pnp-Ends (IsIdle-minor (λ x. cc) (λ x. cc))
  run_minor-Ends query_remove_device e =
      find_pnp-Ends (query_found env r)
        (at_address (query_found env r p) (λ h. pass p refl (missing h)) (query_found-Ends e))
  run_minor-Ends remove_device e =
      find_pnp-Ends (remove_found env r)
        (at_address (remove_found env r p) (λ h. pass p refl (missing h)) (remove_found-Ends e))
  run_minor-Ends other_minor e = pass p refl (IsIdle-minor (λ x. cc) (λ x. cc))

-- Every call of WnbdDispatchPnp ends in one of four ways. It forwards the request to StorPort, every disk
-- referenced as before; if the disk that was started with this device object was looked up, at its SCSI
-- address and not being removed, then the request is not IRP_MN_REMOVE_DEVICE, and for
-- IRP_MN_QUERY_REMOVE_DEVICE nothing of that disk is pending or submitted. It refuses
-- IRP_MN_QUERY_REMOVE_DEVICE as busy, because that disk has requests that are pending or submitted; the
-- disks are as before. It forwards IRP_MN_REMOVE_DEVICE after it removed that disk, which nobody else
-- held unless whoever held it let go. Or it still waits for someone who holds that disk and does not
-- let go.
pub dispatch_pnp-Ends :
    {S : Type 0}
    → (env : IoctlEnv) (r : PnpRequest) (p : Plug S) → Ends env r p (dispatch_pnp env r p)
unfolding dispatch_pnp
dispatch_pnp-Ends env r p = run_minor-Ends env r p r.minor refl
