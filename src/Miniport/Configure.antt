-- ===== src/Miniport/Configure.antt =====
-- What WnbdHwFindAdapter of driver/scsi_driver_extensions.c tells StorPort about queue depths, and what
-- WnbdHwProcessServiceRequest does with the status of a command.
use wnbd.Prelude.{
  ℕ, ◌*◌, ◌≤◌, ◌≡◌, refl, Bool, ◌&&◌, Option, none, some, List, ◌∷◌, ltb, leb, arith, if◌then◌else◌,
}
use wnbd.Word.{wrap32}
use wnbd.Wdk.{NtStatus}
use wnbd.Options.{Kernel, DriverOption}
use wnbd.Nbd.Wire.{from_little8}
use wnbd.Ioctl.{Irp, IoctlEnv, Outcome, Adapter}
use wnbd.Ioctl.Parse.{parse_user_ioctl}

-- WNBD_DEFAULT_MAX_IO_REQ_PER_ADAPTER, WNBD_DEFAULT_MAX_IO_REQ_PER_LUN, WNBD_ABS_MAX_IO_REQ_PER_ADAPTER,
-- WNBD_ABS_MAX_IO_REQ_PER_LUN
abbrev pub default_io_per_adapter : ℕ
default_io_per_adapter = 1000

abbrev pub default_io_per_lun : ℕ
default_io_per_lun = 255

abbrev pub max_io_per_adapter : ℕ
max_io_per_adapter = 1024 * 128

abbrev pub max_io_per_lun : ℕ
max_io_per_lun = 1024

-- (DWORD) Value.Data.AsInt64 of an option
abbrev pub dword_of : DriverOption → ℕ
dword_of o = wrap32 (from_little8 o.value.data_bytes 0)

-- A configured limit, or the default if it is 0 or too large.
abbrev pub limit : ℕ → ℕ → ℕ → ℕ
limit configured most fallback =
    if ltb 0 configured && leb configured most then configured else fallback

-- MaxNumberOfIO, MaxIOsPerLun and InitialLunQueueDepth.
pub record QueueDepths : Type 0 where
  pub max_number_of_io : ℕ
  pub max_ios_per_lun : ℕ
  pub initial_lun_queue_depth : ℕ

-- The options OptMaxIOReqPerAdapter and OptMaxIOReqPerLun stand sixth and seventh.
unfoldable pub queue_depths : List DriverOption → Option QueueDepths
queue_depths (o0 ∷ o1 ∷ o2 ∷ o3 ∷ o4 ∷ per_adapter ∷ per_lun ∷ rest) =
    let lun = limit (dword_of per_lun) max_io_per_lun default_io_per_lun in
    some (record {
      max_number_of_io = limit (dword_of per_adapter) max_io_per_adapter default_io_per_adapter;
      max_ios_per_lun = lun;
      initial_lun_queue_depth = lun;
    })
queue_depths _ = none

-- The depths that StorPort accepts of this driver.
pub record IsWorkable (q : QueueDepths) : Type 0 where
  pub adapter_most : q.max_number_of_io ≤ max_io_per_adapter
  pub adapter_least : 1 ≤ q.max_number_of_io
  pub lun_most : q.max_ios_per_lun ≤ max_io_per_lun
  pub lun_least : 1 ≤ q.max_ios_per_lun
  pub initial : q.initial_lun_queue_depth ≡ q.max_ios_per_lun

limit-most : (n most fallback : ℕ) → fallback ≤ most → limit n most fallback ≤ most
limit-most n most fallback h = ground (arith, h)

limit-least : (n most fallback : ℕ) → 1 ≤ fallback → 1 ≤ limit n most fallback
limit-least n most fallback h = ground (arith, h)

-- Whatever the values of the seven options are, negative ones as 64-bit patterns included, the depths are
-- at least 1 and at most 131072 for the adapter and 1024 for a disk, which starts with its most.
pub queue_depths-IsWorkable :
    (o0 o1 o2 o3 o4 per_adapter per_lun : DriverOption) (rest : List DriverOption)
    → (q : QueueDepths) × (queue_depths (o0 ∷ o1 ∷ o2 ∷ o3 ∷ o4 ∷ per_adapter ∷ per_lun ∷ rest)
        ≡ some q)
      × IsWorkable q
unfolding queue_depths
queue_depths-IsWorkable o0 o1 o2 o3 o4 per_adapter per_lun rest =
    let a = dword_of per_adapter in
    let l = dword_of per_lun in
    (
      record {
        max_number_of_io = limit a max_io_per_adapter default_io_per_adapter;
        max_ios_per_lun = limit l max_io_per_lun default_io_per_lun;
        initial_lun_queue_depth = limit l max_io_per_lun default_io_per_lun;
      },
      refl,
      record {
        adapter_most = limit-most a max_io_per_adapter default_io_per_adapter (omega arith);
        adapter_least = limit-least a max_io_per_adapter default_io_per_adapter (omega arith);
        lun_most = limit-most l max_io_per_lun default_io_per_lun (omega arith);
        lun_least = limit-least l max_io_per_lun default_io_per_lun (omega arith);
        initial = refl;
      },
    )

-- The IRP is completed with a status, or stays pending.
abbrev pub irp_end : NtStatus → Option NtStatus
irp_end NtStatus.pending = none
irp_end status = some status

module _ (k : Kernel) (env : IoctlEnv) where
  abbrev pub Served : Type 0
  Served = Option (Option NtStatus × Adapter k.State)

  unfoldable pub serve_end : Outcome k.State → Served
  serve_end none = none
  serve_end (some (ans, a)) = some (irp_end ans.status, a)

  -- WnbdHwProcessServiceRequest; `is_device_control` says that the major function is
  -- IRP_MJ_DEVICE_CONTROL.
  unfoldable pub process_service_request : Bool → Irp → Adapter k.State → Served
  unfolding parse_user_ioctl serve_end
  process_service_request is_device_control irp a =
      if is_device_control
      then serve_end (parse_user_ioctl k env irp a)
      else some (some NtStatus.invalid_device_request, a)
