-- ===== src/Options.antt =====
-- The driver's options: driver/options.c, driver/options.h and WstrToBool of driver/util.h. A string is
-- its 16-bit codes before the NUL, a value's union is its bytes. The registry and the string functions
-- of the kernel are parameters.
pub mod SetGet
pub mod Table
pub mod Typed
use wnbd.Prelude.{
  ℕ, suc, ◌+◌, ◌-◌, ◌*◌, ◌%◌, ◌/◌, ◌^◌, Bool, true, false, not, ◌&&◌, ◌||◌, Option, none, some,
  List, [], ◌∷◌, ◌++◌, ◌==◌, ltb, if◌then◌else◌, length, take, drop, replicate,
}
use wnbd.Wdk.{NtStatus, is_failure}
use wnbd.Nbd.Wire.{little8, from_little8}

-- WnbdOptValType
pub data OptType : Type 0 where
  opt_unknown opt_bool opt_int64 opt_wstr : OptType

unfoldable pub same_type : OptType → OptType → Bool
same_type opt_unknown opt_unknown = true
same_type opt_bool opt_bool = true
same_type opt_int64 opt_int64 = true
same_type opt_wstr opt_wstr = true
same_type _ _ = false

-- WNBD_OPTION_VALUE: the type, and the 512 bytes of Data.
pub record OptValue : Type 0 where
  pub type : OptType
  pub data_bytes : List ℕ

-- WNBD_OPTION
pub record DriverOption : Type 0 where
  pub name : List ℕ
  pub type : OptType
  pub default_value : OptValue
  pub value : OptValue

-- REG_QWORD, REG_SZ, REG_NONE, and other types of registry values.
pub data RegType : Type 0 where
  reg_qword reg_sz reg_none reg_other : RegType

unfoldable pub same_reg_type : RegType → RegType → Bool
same_reg_type reg_qword reg_qword = true
same_reg_type reg_sz reg_sz = true
same_reg_type reg_none reg_none = true
same_reg_type _ _ = false

-- WnbdOptRegType
unfoldable pub opt_reg_type : OptType → RegType
opt_reg_type opt_bool = reg_qword
opt_reg_type opt_int64 = reg_qword
opt_reg_type opt_wstr = reg_sz
opt_reg_type opt_unknown = reg_none

-- WnbdOptRegSize
unfoldable pub opt_reg_size : OptType → ℕ
opt_reg_size opt_bool = 8
opt_reg_size opt_int64 = 8
opt_reg_size opt_wstr = 256
opt_reg_size opt_unknown = 0

-- sizeof(Value->Data)
abbrev pub data_size : ℕ
data_size = 512

abbrev pub padded : List ℕ → List ℕ
padded b = b ++ replicate (data_size - length b) 0

-- Zeroed data, and data with AsBool or AsInt64 set.
abbrev pub zero_data : List ℕ
zero_data = replicate data_size 0

abbrev pub bool_data : Bool → List ℕ
bool_data b = (if b then 1 else 0) ∷ replicate 511 0

abbrev pub int64_data : ℕ → List ℕ
int64_data n = little8 n ++ replicate 504 0

-- WNBD_DEF_OPT
abbrev pub option_bool : List ℕ → Bool → DriverOption
option_bool name b =
    let v : OptValue = record { type = opt_bool; data_bytes = bool_data b } in
    record { name = name; type = opt_bool; default_value = v; value = v }

abbrev pub option_int64 : List ℕ → ℕ → DriverOption
option_int64 name n =
    let v : OptValue = record { type = opt_int64; data_bytes = int64_data n } in
    record { name = name; type = opt_int64; default_value = v; value = v }

-- WnbdDriverOptions: LogLevel, NewMappingsAllowed, EtwLoggingEnabled, WppLoggingEnabled,
-- DbgPrintEnabled, MaxIOReqPerAdapter, MaxIOReqPerLun, RemoveStaleConnections, StaleReqTimeoutMs,
-- StaleConnTimeoutMs.
abbrev pub driver_options : List DriverOption
driver_options =
    option_int64 (76 ∷ 111 ∷ 103 ∷ 76 ∷ 101 ∷ 118 ∷ 101 ∷ 108 ∷ []) 1
    ∷ option_bool
        (78 ∷ 101 ∷ 119 ∷ 77 ∷ 97 ∷ 112 ∷ 112 ∷ 105 ∷ 110 ∷ 103 ∷ 115 ∷ 65 ∷ 108 ∷ 108 ∷ 111 ∷ 119
          ∷ 101 ∷ 100 ∷ [])
        true
    ∷ option_bool
        (69 ∷ 116 ∷ 119 ∷ 76 ∷ 111 ∷ 103 ∷ 103 ∷ 105 ∷ 110 ∷ 103 ∷ 69 ∷ 110 ∷ 97 ∷ 98 ∷ 108 ∷ 101
          ∷ 100 ∷ [])
        true
    ∷ option_bool
        (87 ∷ 112 ∷ 112 ∷ 76 ∷ 111 ∷ 103 ∷ 103 ∷ 105 ∷ 110 ∷ 103 ∷ 69 ∷ 110 ∷ 97 ∷ 98 ∷ 108 ∷ 101
          ∷ 100 ∷ [])
        false
    ∷ option_bool
        (68 ∷ 98 ∷ 103 ∷ 80 ∷ 114 ∷ 105 ∷ 110 ∷ 116 ∷ 69 ∷ 110 ∷ 97 ∷ 98 ∷ 108 ∷ 101 ∷ 100 ∷ [])
        true
    ∷ option_int64
        (77 ∷ 97 ∷ 120 ∷ 73 ∷ 79 ∷ 82 ∷ 101 ∷ 113 ∷ 80 ∷ 101 ∷ 114 ∷ 65 ∷ 100 ∷ 97 ∷ 112 ∷ 116 ∷ 101
          ∷ 114 ∷ [])
        1000
    ∷ option_int64 (77 ∷ 97 ∷ 120 ∷ 73 ∷ 79 ∷ 82 ∷ 101 ∷ 113 ∷ 80 ∷ 101 ∷ 114 ∷ 76 ∷ 117 ∷ 110 ∷ [])
        255
    ∷ option_bool
        (82 ∷ 101 ∷ 109 ∷ 111 ∷ 118 ∷ 101 ∷ 83 ∷ 116 ∷ 97 ∷ 108 ∷ 101 ∷ 67 ∷ 111 ∷ 110 ∷ 110 ∷ 101
          ∷ 99 ∷ 116 ∷ 105 ∷ 111 ∷ 110 ∷ 115 ∷ [])
        true
    ∷ option_int64
        (83 ∷ 116 ∷ 97 ∷ 108 ∷ 101 ∷ 82 ∷ 101 ∷ 113 ∷ 84 ∷ 105 ∷ 109 ∷ 101 ∷ 111 ∷ 117 ∷ 116 ∷ 77
          ∷ 115 ∷ [])
        15000
    ∷ option_int64
        (83 ∷ 116 ∷ 97 ∷ 108 ∷ 101 ∷ 67 ∷ 111 ∷ 110 ∷ 110 ∷ 84 ∷ 105 ∷ 109 ∷ 101 ∷ 111 ∷ 117 ∷ 116
          ∷ 77 ∷ 115 ∷ [])
        60000
    ∷ []

-- A wide string: the codes before the first NUL.
unfoldable pub wstr_of : List ℕ → List ℕ
wstr_of (low ∷ high ∷ b) =
    let code = low + high * 2 ^ 8 in let rest = wstr_of b in if code == 0 then [] else code ∷ rest
wstr_of _ = []

-- Value->Data.AsWstr[WNBD_MAX_NAME_LENGTH - 1] = 0
abbrev pub terminated : List ℕ → List ℕ
terminated b = take 510 b ++ (0 ∷ 0 ∷ [])

-- The registry key of the driver on a state, _wcsicmp as a test for equality, and
-- RtlUnicodeStringToInt64 for a string with its Length.
pub record Kernel : Type 1 where
  pub State : Type 0
  pub query_value : List ℕ → State → NtStatus × (RegType × List ℕ)
  pub set_value : List ℕ → RegType → List ℕ → State → NtStatus × State
  pub delete_value : List ℕ → State → NtStatus × State
  pub same_name : List ℕ → List ℕ → Bool
  pub to_int64 : ℕ → List ℕ → NtStatus × ℕ

module _ (k : Kernel) where
  -- WnbdFindOpt
  unfoldable pub find_opt : List ℕ → List DriverOption → Option DriverOption
  find_opt name [] = none
  find_opt name (o ∷ os) = if k.same_name name o.name then some o else find_opt name os

  -- The value of the option that WnbdFindOpt points to, changed.
  unfoldable pub update_opt : List ℕ → OptValue → List DriverOption → List DriverOption
  update_opt name v [] = []
  update_opt name v (o ∷ os) =
      if k.same_name name o.name then record o { value = v } ∷ os else o ∷ update_opt name v os

  -- A registry value of the right type, as the data of an option of that type.
  unfoldable pub read_data : OptType → List ℕ → NtStatus × List ℕ
  read_data opt_bool b =
      if not (length b == 8)
      then (NtStatus.object_type_mismatch, zero_data)
      else (NtStatus.success, bool_data (not (from_little8 b 0 == 0)))
  read_data opt_int64 b =
      if not (length b == 8)
      then (NtStatus.object_type_mismatch, zero_data)
      else (NtStatus.success, padded b)
  read_data opt_wstr b =
      if ltb data_size (length b)
      then (NtStatus.buffer_overflow, zero_data)
      else (NtStatus.success, padded b)
  read_data opt_unknown b = (NtStatus.object_type_mismatch, zero_data)

  abbrev with_data : OptType → OptValue → NtStatus × List ℕ → NtStatus × OptValue
  with_data type v (status, b) =
      if is_failure status
      then (status, record v { data_bytes = b })
      else (status, record { type = type; data_bytes = b })

  unfoldable pub read_found :
      DriverOption → OptValue → NtStatus × (RegType × List ℕ) → NtStatus × OptValue
  unfolding read_data opt_reg_type same_reg_type
  read_found o v (status, (reg_type, b)) =
      if is_failure status
      then (status, record v { data_bytes = zero_data })
      else if not (same_reg_type (opt_reg_type o.type) reg_type)
      then (NtStatus.object_type_mismatch, record v { data_bytes = zero_data })
      else with_data o.type v (read_data o.type b)

  -- WnbdGetPersistentOpt: the status, and the caller's value after it.
  unfoldable pub get_persistent_opt :
      List ℕ → OptValue → List DriverOption → k.State → NtStatus × OptValue
  unfolding find_opt read_found
  get_persistent_opt name v table s = elim (find_opt name table) [
    | none ↦ (NtStatus.object_name_not_found, v)
    | some o ↦ read_found o v (k.query_value name s)
  ]

  -- WnbdGetDrvOpt
  unfoldable pub get_drv_opt :
      List ℕ → OptValue → Bool → List DriverOption → k.State → NtStatus × OptValue
  unfolding find_opt get_persistent_opt
  get_drv_opt name v true table s = get_persistent_opt name v table s
  get_drv_opt name v false table s = elim (find_opt name table) [
    | none ↦ (NtStatus.object_name_not_found, v)
    | some o ↦ (NtStatus.success, o.value)
  ]

  -- WstrToBool: "1", "t", "true", "yes", "y", and "0", "f", "false", "no", "n".
  unfoldable pub wstr_to_bool : List ℕ → Option Bool
  wstr_to_bool w =
      if k.same_name w (49 ∷ [])
        || k.same_name w (116 ∷ [])
        || k.same_name w (116 ∷ 114 ∷ 117 ∷ 101 ∷ [])
        || k.same_name w (121 ∷ 101 ∷ 115 ∷ [])
        || k.same_name w (121 ∷ [])
      then some true
      else if k.same_name w (48 ∷ [])
          || k.same_name w (102 ∷ [])
          || k.same_name w (102 ∷ 97 ∷ 108 ∷ 115 ∷ 101 ∷ [])
          || k.same_name w (110 ∷ 111 ∷ [])
          || k.same_name w (110 ∷ [])
      then some false
      else none

  -- A string converted to an option's type; the UNICODE_STRING that is parsed has Length 0.
  unfoldable pub convert_string : OptType → OptValue → NtStatus × OptValue
  unfolding wstr_to_bool wstr_of
  convert_string opt_bool v = elim (wstr_to_bool (wstr_of v.data_bytes)) [
    | none ↦ (NtStatus.invalid_parameter, v)
    | some b ↦ (NtStatus.success, record { type = opt_bool; data_bytes = bool_data b })
  ]
  convert_string opt_int64 v =
      let (status, n) = k.to_int64 0 (wstr_of v.data_bytes) in
      if is_failure status
      then (status, v)
      else (status, record { type = opt_int64; data_bytes = int64_data n })
  convert_string _ v = (NtStatus.object_type_mismatch, v)

  -- WnbdProcessOptionValue: the status, and the value after it.
  unfoldable pub process_option_value : DriverOption → OptValue → NtStatus × OptValue
  unfolding same_type convert_string
  process_option_value o v =
      if same_type v.type opt_wstr
      then (let v' = record v { data_bytes = terminated v.data_bytes } in
          if same_type v.type o.type then (NtStatus.success, v') else convert_string o.type v')
      else if same_type v.type o.type
      then (NtStatus.success, v)
      else (NtStatus.object_type_mismatch, v)
