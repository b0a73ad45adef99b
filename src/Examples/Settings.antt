-- ===== src/Examples/Settings.antt =====
-- The driver's options on a registry that keeps one value.
use wnbd.Prelude.{ℕ, Bool, true, false, ◌&&◌, Option, none, some, List, [], ◌∷◌, ◌==◌, All, arith}
use wnbd.Wdk.{NtStatus}
use wnbd.Options.{opt_int64, OptValue, RegType, reg_none, Kernel, driver_options, int64_data}
use wnbd.Options.Table.{set_drv_opt}
use wnbd.Options.Typed.{IsTyped, Change-IsTyped, set_option}

abbrev same_codes : List ℕ → List ℕ → Bool
same_codes [] [] = true
same_codes (x ∷ xs) (y ∷ ys) = (x == y) && same_codes xs ys
same_codes _ _ = false

abbrev pub Stored : Type 0
Stored = Option (RegType × List ℕ)

abbrev query_stored : List ℕ → Stored → NtStatus × (RegType × List ℕ)
query_stored name none = (NtStatus.object_name_not_found, (reg_none, []))
query_stored name (some v) = (NtStatus.success, v)

abbrev pub kernel : Kernel
kernel = record {
  State = Stored;
  query_value = query_stored;
  set_value = λ name type b s. (NtStatus.success, some (type, b));
  delete_value = λ name s. (NtStatus.success, none);
  same_name = same_codes;
  to_int64 = λ length b. (NtStatus.success, 0);
}

-- "LogLevel", and its new value 3
abbrev pub log_level : List ℕ
log_level = 76 ∷ 111 ∷ 103 ∷ 76 ∷ 101 ∷ 118 ∷ 101 ∷ 108 ∷ []

abbrev pub three : OptValue
three = record { type = opt_int64; data_bytes = int64_data 3 }

driver_options-IsTyped : All IsTyped driver_options
driver_options-IsTyped = ground arith

Change-IsTyped_example :
    All IsTyped (set_drv_opt kernel log_level three true driver_options none).1.0
Change-IsTyped_example =
    Change-IsTyped kernel driver_options none
      (set_drv_opt kernel log_level three true driver_options none).1.0
      (set_option log_level three true) driver_options-IsTyped
