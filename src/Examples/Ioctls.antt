-- ===== src/Examples/Ioctls.antt =====
-- The theorems on the commands of user space at concrete inputs: a disk is created on an empty adapter,
-- then listed.
use wnbd.Prelude.{ℕ, ◌≤◌, ◌<◌, ◌≡◌, refl, true, false, none, some, [], ◌∷◌, arith, map}
use wnbd.Wdk.{NtStatus}
use wnbd.Types.{WnbdStatus}
use wnbd.Options.{driver_options}
use wnbd.Request.Dispatch.{zero_request}
use wnbd.Request.Response.{Reply, ReplyEnv}
use wnbd.Connections.Invariant.{IsConsistent}
use wnbd.Ioctl.{
  RawProperties, Buffer, Irp, Answer, no_output, list_output, IoctlEnv, Outcome, Adapter,
}
use wnbd.Ioctl.Check.{with_output}
use wnbd.Ioctl.Query.{connection_info, list_ioctl}
use wnbd.Ioctl.Parse.{parse_user_ioctl}
use wnbd.Ioctl.Invariant.{IsFresh, Calls, start, call, Calls-IsConsistent}
use wnbd.Ioctl.Listing.{asked_size, listed_size, list_ioctl-lists}
use wnbd.Examples.{flags, allocs, options, fresh_device, no_memory, lock_env, round}
use wnbd.Connections.{find_by_name}
use wnbd.Examples.Disks.{first_clear, find_clear, find_clear-IsFindClear, empty, create_env}
use wnbd.Examples.Settings.{kernel, log_level, three, Stored}

-- "d", 1000 blocks, without a serial number
abbrev pub raw : RawProperties
raw = record {
  instance_name = 100 ∷ 0 ∷ [];
  serial_number = 0 ∷ [];
  flags = flags;
  block_count = 1000;
  block_size = 512;
  pid = 0;
  naa_identifier = [];
}

abbrev good_status : WnbdStatus
good_status = record {
  scsi_status = 0;
  sense_key = 0;
  asc = 0;
  ascq = 0;
  information = 0;
  information_valid = false;
}

abbrev reply : Reply
reply = record {
  request_handle = 1;
  status = good_status;
  data_buffer = none;
  data_buffer_size = 0;
}

-- A buffer with a command's code.
abbrev buffer : ℕ → Buffer
buffer code = record {
  io_control_code = code;
  properties = raw;
  instance_name = 100 ∷ 0 ∷ [];
  set_size = record { connection_id = 2; block_count = 2000 };
  fetch = record { connection_id = 2; request = zero_request; data_buffer_size = 4096 };
  send = record { connection_id = 2; reply = reply };
  opt = record { name = log_level; persistent = false };
  value = three;
  set_opt = record { name = log_level; value = three; persistent = false };
  list_persistent = false;
}

abbrev irp : ℕ → Irp
irp code = record {
  is_service_irp = true;
  system_buffer = some (buffer code);
  input_length = 1408;
  output_length = 4096;
  information = 0;
  pid = 4;
}

abbrev answer_env : ReplyEnv
answer_env = record { pid = 4; system_address = true; lock = lock_env; now = 30 }

abbrev pub env : IoctlEnv
env = record {
  find_clear = find_clear;
  creation = create_env;
  pool_allocs = allocs;
  others_release = true;
  drain = options;
  now = 40;
  fetch_rounds = round ∷ [];
  removed_at_exit = false;
  answer = answer_env;
  build = record { major = 0; minor = 6; patch = 0; description = 48 ∷ [] };
}

abbrev pub adapter : Adapter Stored
adapter = record {
  ext = empty;
  devices = λ i. fresh_device;
  disk_numbers = λ i. 0;
  pnp_device_ids = λ i. [];
  request_handle = 0;
  memory = no_memory;
  options = driver_options;
  registry = none;
  creation_owners = 0;
}

abbrev pub adapter_of : Outcome Stored → Adapter Stored
adapter_of none = adapter
adapter_of (some (ans, a)) = a

abbrev answer_of : Outcome Stored → Answer
answer_of none = record {
  status = NtStatus.success;
  information = 0;
  output = no_output;
  overwritten = 0;
}
answer_of (some (ans, a)) = ans

abbrev pub created : Adapter Stored
created = adapter_of (parse_user_ioctl kernel env (irp 2) adapter)

created-returned :
    parse_user_ioctl kernel env (irp 2) adapter
    ≡ some (answer_of (parse_user_ioctl kernel env (irp 2) adapter), created)
unfolding parse_user_ioctl find_by_name first_clear
created-returned = refl

empty-IsFresh : IsFresh empty
empty-IsFresh = record { no_disks = refl; no_buckets = λ b. refl; no_count = refl }

created-Calls : Calls kernel adapter created
created-Calls = call env (irp 2) start find_clear-IsFindClear (omega arith) created-returned

Calls-IsConsistent_example : IsConsistent created.ext
Calls-IsConsistent_example = Calls-IsConsistent kernel adapter created empty-IsFresh created-Calls

pub created-IsConsistent : IsConsistent created.ext
created-IsConsistent = Calls-IsConsistent kernel adapter created empty-IsFresh created-Calls

created-count : created.ext.device_count ≡ 1
unfolding parse_user_ioctl find_by_name first_clear
created-count = refl

list_ioctl-lists_example :
    let n = created.ext.device_count in
    ((irp 6).output_length < asked_size n
      → list_ioctl (irp 6) created ≡ with_output NtStatus.success (asked_size n) no_output created)
    × (asked_size n ≤ (irp 6).output_length
        → list_ioctl (irp 6) created
          ≡ with_output NtStatus.success
              (listed_size n)
              (list_output (map (connection_info created) created.ext.disks))
              created)
list_ioctl-lists_example =
    list_ioctl-lists (irp 6) created created-IsConsistent (omega (arith, created-count))
      (omega arith)
