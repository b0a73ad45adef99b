-- ===== src/Options/SetGet.antt =====
-- What WnbdGetDrvOpt returns after WnbdSetDrvOpt, driver/options.c.
use wnbd.Prelude.{
  split-if, ℕ, ◌≡◌, refl, Bool, false, some, List, [], ◌∷◌, arith, Bool-cases, inl, inr, ap, sym,
  ◌∙◌, take,
}
use wnbd.Wdk.{NtStatus, is_failure}
use wnbd.Options.{
  OptType, OptValue, DriverOption, Kernel, find_opt, update_opt, process_option_value, get_drv_opt,
  opt_reg_type, opt_reg_size,
}
use wnbd.Options.Table.{Changed, store, set_processed, set_drv_opt}

module _ (k : Kernel) where
  find_opt-update_opt :
      (name : List ℕ) (v : OptValue) (table : List DriverOption) (o : DriverOption)
      → find_opt k name table ≡ some o
      → find_opt k name (update_opt k name v table) ≡ some (record o { value = v })
  unfolding find_opt update_opt
  find_opt-update_opt name v [] o e = cc
  find_opt-update_opt name v (p ∷ ps) o e = elim (Bool-cases (k.same_name name p.name)) [
    | inl b ↦ ground (arith, b, e)
    | inr b ↦ ground (arith, b, find_opt-update_opt name v ps o (ground (arith, b, e)))
  ]

  set_processed-table :
      (name : List ℕ) (type : OptType) (persistent : Bool) (table : List DriverOption) (s : k.State)
      (status : NtStatus) (v : OptValue)
      → (set_processed k name type persistent table s (status, v)).0 ≡ NtStatus.success
      → (set_processed k name type persistent table s (status, v)).1.0 ≡ update_opt k name v table
  unfolding set_processed store
  set_processed-table name type persistent table s status v =
      let P : Changed k → Type 0 =
        λ r. (r.0 ≡ NtStatus.success → r.1.0 ≡ update_opt k name v table) in
      let written =
        k.set_value name (opt_reg_type type) (take (opt_reg_size type) v.data_bytes) s in
      split-if P (is_failure status) _ _ (λ f g. ground (arith, f, g))
        (λ f.
          split-if P persistent _ _
            (λ p. split-if P (is_failure written.0) _ _ (λ f g. ground (arith, f, g)) (λ f g. refl))
            (λ p g. refl))

  -- If WnbdSetDrvOpt succeeds for an option, persistently or not, WnbdGetDrvOpt of the runtime value
  -- under the same name succeeds and returns the value that WnbdProcessOptionValue made of the given
  -- one.
  pub set_drv_opt-get_drv_opt :
      (name : List ℕ) (v w : OptValue) (persistent : Bool) (table : List DriverOption) (s : k.State)
      (o : DriverOption)
      → find_opt k name table ≡ some o
      → (set_drv_opt k name v persistent table s).0 ≡ NtStatus.success
      → let (table', s') = (set_drv_opt k name v persistent table s).1 in
        get_drv_opt k name w false table' s' ≡ (NtStatus.success, (process_option_value k o v).1)
  unfolding set_drv_opt get_drv_opt
  set_drv_opt-get_drv_opt name v w persistent table s o e h =
      let r = process_option_value k o v in
      let q : set_drv_opt k name v persistent table s
          ≡ set_processed k name o.type persistent table s r =
        ground (arith, e) in
      let t : (set_drv_opt k name v persistent table s).1.0 ≡ update_opt k name r.1 table =
        ap (λ x. x.1.0) q
        ∙ set_processed-table name o.type persistent table s r.0 r.1 (ap (λ x. x.0) (sym q) ∙ h) in
      let f = ap (find_opt k name) t ∙ find_opt-update_opt name r.1 table o e in ground (arith, f)
