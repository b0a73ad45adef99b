-- ===== src/Options/Typed.antt =====
-- Every option keeps values of its own type, driver/options.c.
use wnbd.Prelude.{
  split-option, split-if, ℕ, ◌≡◌, refl, Bool, true, false, some, List, [], ◌∷◌, arith, All,
  either-if, Bool-cases, inl, inr, ap, sym, ◌∙◌, if◌then◌else◌,
}
use wnbd.Wdk.{NtStatus, is_failure}
use wnbd.Options.{
  opt_reg_size, take, opt_reg_type, get_persistent_opt, terminated, OptType, OptValue, opt_wstr,
  opt_bool, opt_int64, opt_unknown, DriverOption, Kernel, same_type, find_opt, update_opt,
  convert_string, process_option_value,
}
use wnbd.Options.Table.{
  Changed, store, set_processed, set_drv_opt, reset_drv_opt, reload_processed, reload_found,
  reload_loop, reload_persistent_options, no_value,
}

abbrev pub IsTyped : DriverOption → Type 0
IsTyped o = (o.value.type ≡ o.type) × (o.default_value.type ≡ o.type)

same_type_sound : (a b : OptType) → same_type a b ≡ true → a ≡ b
unfolding same_type
same_type_sound opt_unknown opt_unknown h = refl
same_type_sound opt_bool opt_bool h = refl
same_type_sound opt_int64 opt_int64 h = refl
same_type_sound opt_wstr opt_wstr h = refl
same_type_sound opt_unknown opt_bool h = cc
same_type_sound opt_unknown opt_int64 h = cc
same_type_sound opt_unknown opt_wstr h = cc
same_type_sound opt_bool opt_unknown h = cc
same_type_sound opt_bool opt_int64 h = cc
same_type_sound opt_bool opt_wstr h = cc
same_type_sound opt_int64 opt_unknown h = cc
same_type_sound opt_int64 opt_bool h = cc
same_type_sound opt_int64 opt_wstr h = cc
same_type_sound opt_wstr opt_unknown h = cc
same_type_sound opt_wstr opt_bool h = cc
same_type_sound opt_wstr opt_int64 h = cc

-- A value that was accepted has the type asked for.
data Accepted (type : OptType) (r : NtStatus × OptValue) : Type 0 where
  accepted : (is_failure r.0 ≡ false → r.1.type ≡ type) → Accepted type r

refusal-Accepted :
    (type : OptType) (r : NtStatus × OptValue) → is_failure r.0 ≡ true → Accepted type r
refusal-Accepted type r h = accepted (λ e. cc)

module _ (k : Kernel) where
  convert_string-Accepted :
      (type : OptType) (v : OptValue) → Accepted type (convert_string k type v)
  unfolding convert_string
  convert_string-Accepted opt_bool v = accepted (λ e. ground (arith, e))
  convert_string-Accepted opt_int64 v = accepted (λ e. ground (arith, e))
  convert_string-Accepted opt_unknown v = accepted (λ e. cc)
  convert_string-Accepted opt_wstr v = accepted (λ e. cc)

  process_option_value-Accepted :
      (o : DriverOption) (v : OptValue) → Accepted o.type (process_option_value k o v)
  unfolding process_option_value
  process_option_value-Accepted o v =
      let b = same_type v.type o.type in
      let v' : OptValue = record v { data_bytes = terminated v.data_bytes } in
      let P : NtStatus × OptValue → Type 0 = Accepted o.type in
      let same : b ≡ true → v.type ≡ o.type = same_type_sound v.type o.type in
      either-if P (same_type v.type opt_wstr) _ _
        (split-if P b (NtStatus.success, v') (convert_string k o.type v')
          (λ h. accepted (λ e. same h)) (λ h. convert_string-Accepted o.type v'))
        (split-if P b (NtStatus.success, v) (NtStatus.object_type_mismatch, v)
          (λ h. accepted (λ e. same h))
          (λ h. refusal-Accepted o.type (NtStatus.object_type_mismatch, v) refl))

  find_opt-IsTyped :
      (name : List ℕ) (table : List DriverOption) (o : DriverOption)
      → find_opt k name table ≡ some o
      → All IsTyped table
      → IsTyped o
  unfolding find_opt
  find_opt-IsTyped name [] o e h = cc
  find_opt-IsTyped name (p ∷ ps) o e (h, hs) = elim (Bool-cases (k.same_name name p.name)) [
    | inl b ↦ ground (arith, b, e, h)
    | inr b ↦ find_opt-IsTyped name ps o (ground (arith, b, e)) hs
  ]

  update_opt-IsTyped :
      (name : List ℕ) (v : OptValue) (table : List DriverOption) (o : DriverOption)
      → find_opt k name table ≡ some o
      → v.type ≡ o.type
      → All IsTyped table
      → All IsTyped (update_opt k name v table)
  unfolding find_opt update_opt
  update_opt-IsTyped name v [] o e t h = tt
  update_opt-IsTyped name v (p ∷ ps) o e t (h, hs) =
      split-if (All IsTyped) (k.same_name name p.name) (record p { value = v } ∷ ps)
        (p ∷ update_opt k name v ps)
        (λ b.
          let same : p ≡ o = ground (arith, b, e) in ((t ∙ ap (λ x. x.type) (sym same), h.1), hs))
        (λ b. (h, update_opt-IsTyped name v ps o (ground (arith, b, e)) t hs))

  store-IsTyped :
      (name : List ℕ) (v : OptValue) (table : List DriverOption) (r : NtStatus × k.State)
      (o : DriverOption)
      → find_opt k name table ≡ some o
      → v.type ≡ o.type
      → All IsTyped table
      → All IsTyped (store k name v table r).1.0
  unfolding store
  store-IsTyped name v table (status, s) o e t h =
      either-if (λ (r : Changed k). All IsTyped r.1.0) (is_failure status) _ _ h
        (update_opt-IsTyped name v table o e t h)

  set_processed-IsTyped :
      (name : List ℕ) (persistent : Bool) (table : List DriverOption) (s : k.State)
      (r : NtStatus × OptValue) (o : DriverOption)
      → find_opt k name table ≡ some o
      → Accepted o.type r
      → All IsTyped table
      → All IsTyped (set_processed k name o.type persistent table s r).1.0
  unfolding set_processed
  set_processed-IsTyped name persistent table s (status, v) o e (accepted t) h =
      let P : Changed k → Type 0 = λ r. All IsTyped r.1.0 in
      split-if P (is_failure status) _ _ (λ f. h)
        (λ f.
          let written =
            k.set_value name (opt_reg_type o.type) (take (opt_reg_size o.type) v.data_bytes) s in
          either-if P persistent _ _ (store-IsTyped name v table written o e (t f) h)
            (store-IsTyped name v table (NtStatus.success, s) o e (t f) h))

  set_drv_opt-IsTyped :
      (name : List ℕ) (v : OptValue) (persistent : Bool) (table : List DriverOption) (s : k.State)
      → All IsTyped table
      → All IsTyped (set_drv_opt k name v persistent table s).1.0
  unfolding set_drv_opt
  set_drv_opt-IsTyped name v persistent table s h =
      split-option (λ (r : Changed k). All IsTyped r.1.0) (find_opt k name table) _ _ (λ e. h)
        (λ o e.
          set_processed-IsTyped name persistent table s (process_option_value k o v) o e
            (process_option_value-Accepted o v) h)

  reset_drv_opt-IsTyped :
      (name : List ℕ) (persistent : Bool) (table : List DriverOption) (s : k.State)
      → All IsTyped table
      → All IsTyped (reset_drv_opt k name persistent table s).1.0
  unfolding reset_drv_opt
  reset_drv_opt-IsTyped name persistent table s h =
      split-option (λ (r : Changed k). All IsTyped r.1.0) (find_opt k name table) _ _ (λ e. h)
        (λ o e.
          store-IsTyped name o.default_value table
            (if persistent then k.delete_value name s else (NtStatus.success, s)) o e
            (find_opt-IsTyped name table o e h).1 h)

  reload_processed-IsTyped :
      (o : DriverOption) (r : NtStatus × OptValue)
      → Accepted o.type r
      → IsTyped o
      → IsTyped (reload_processed k o r).1
  unfolding reload_processed
  reload_processed-IsTyped o (status, v) (accepted t) h =
      split-if (λ (r : NtStatus × DriverOption). IsTyped r.1) (is_failure status) _ _ (λ f. h)
        (λ f. (t f, h.1))

  reload_found-IsTyped :
      (o : DriverOption) (r : NtStatus × OptValue) → IsTyped o → IsTyped (reload_found k o r).1
  unfolding reload_found
  reload_found-IsTyped o (status, v) h =
      split-if (λ (r : NtStatus × DriverOption). IsTyped r.1) (is_failure status) _ _ (λ f. h)
        (λ f.
          reload_processed-IsTyped o (process_option_value k o v)
            (process_option_value-Accepted o v) h)

  reload_loop-IsTyped :
      (table : List DriverOption) (s : k.State) (status : NtStatus) (os : List DriverOption)
      → All IsTyped os
      → All IsTyped (reload_loop k table s status os).1
  unfolding reload_loop
  reload_loop-IsTyped table s status [] h = tt
  reload_loop-IsTyped table s status (o ∷ os) (h, hs) =
      let r = get_persistent_opt k o.name no_value table s in
      (reload_found-IsTyped o r h, reload_loop-IsTyped table s (reload_found k o r).0 os hs)

  -- What changes the options: WnbdSetDrvOpt, WnbdResetDrvOpt, WnbdReloadPersistentOptions.
  pub data Change (table : List DriverOption) (s : k.State) : List DriverOption → Type 0 where
    set_option :
        (name : List ℕ) (v : OptValue) (persistent : Bool)
        → Change table s (set_drv_opt k name v persistent table s).1.0
    reset_option :
        (name : List ℕ) (persistent : Bool)
        → Change table s (reset_drv_opt k name persistent table s).1.0
    reload_options : Change table s (reload_persistent_options k table s).1

  -- Setting, resetting and reloading options, whatever the caller's value and the registry hold, leave
  -- every option with a value and a default of its own type, if it had them before.
  pub Change-IsTyped :
      (table : List DriverOption) (s : k.State) (table' : List DriverOption)
      → Change table s table'
      → All IsTyped table
      → All IsTyped table'
  unfolding reload_persistent_options
  Change-IsTyped table s table' (set_option name v persistent) h =
      set_drv_opt-IsTyped name v persistent table s h
  Change-IsTyped table s table' (reset_option name persistent) h =
      reset_drv_opt-IsTyped name persistent table s h
  Change-IsTyped table s table' reload_options h =
      reload_loop-IsTyped table s NtStatus.success table h
