-- ===== src/Dispatcher/Handled.antt =====
-- What WnbdHandleRequest of libwnbd/libwnbd.cpp does with a request, and how WnbdDispatcherLoop ends.
use wnbd.Prelude.{ℕ, ◌≡◌, ◌≢◌, ◌≤◌, ◌<◌, ◌⊎◌, true, false, List, [], ◌∷◌, if◌then◌else◌}
use wnbd.Types.{
  RequestType, req_unknown, req_read, req_write, req_flush, req_unmap, req_disconnect,
  req_persist_res_in, req_persist_res_out,
}
use wnbd.Dispatcher.{
  Incoming, Response, UserDisk, descriptor_count, is_running, Round, reset_failed, fetch_failed,
  fetched,
}

-- What the interface and the disk's properties support, by the type of the request.
abbrev pub IsSupported : RequestType → UserDisk → Incoming → Type 0
IsSupported req_read d i = d.interface.read ≡ true
IsSupported req_write d i = d.interface.write ≡ true
IsSupported req_flush d i = (d.interface.flush ≡ true) × (d.flush_supported ≡ true)
IsSupported req_unmap d i =
    (d.interface.unmap ≡ true)
    × (d.unmap_supported ≡ true)
    × (i.anchor ≡ true → d.unmap_anchor_supported ≡ true)
    × (descriptor_count i.request.cmd ≤ d.max_unmap_desc_count)
IsSupported req_persist_res_in d i =
    (d.interface.persist_res_in ≡ true) × (d.persist_res_supported ≡ true)
IsSupported req_persist_res_out d i =
    (d.interface.persist_res_out ≡ true) × (d.persist_res_supported ≡ true)
IsSupported req_disconnect d i = ⊥
IsSupported req_unknown d i = ⊥

-- The additional sense code of a refusal: an invalid command; an anchor, or too many descriptors, of an
-- unmap request that is supported but for that.
abbrev pub IsReason : ℕ → UserDisk → Incoming → Type 0
IsReason asc d i =
    (asc ≡ 32)
    ⊎ ((asc ≡ 36) × (i.anchor ≡ true) × (d.unmap_anchor_supported ≡ false))
    ⊎ ((asc ≡ 38) × (d.max_unmap_desc_count < descriptor_count i.request.cmd))

-- The response of a refusal: CHECK CONDITION, ILLEGAL REQUEST and an additional sense code.
abbrev pub refusal_response : ℕ → Incoming → Response
refusal_response asc i = record {
  request_handle = i.request.request_handle;
  request_type = i.request.request_type;
  status = record {
    scsi_status = 2;
    sense_key = 5;
    asc = asc;
    ascq = 0;
    information = 0;
    information_valid = false;
  };
}

-- What becomes of a request.
pub data Handled (i : Incoming) (d d' : UserDisk) : Type 0 where
  disconnected :
      i.request.request_type ≡ req_disconnect
      → d'.stopped ≡ true
      → d'.called ≡ d.called
      → d'.sent ≡ d.sent
      → Handled i d d'
  called :
      IsSupported i.request.request_type d i
      → d'.called ≡ i.request ∷ d.called
      → d'.sent ≡ d.sent
      → d'.stopped ≡ d.stopped
      → Handled i d d'
  turned_down :
      (asc : ℕ)
      → i.request.request_type ≢ req_disconnect
      → (IsSupported i.request.request_type d i → ⊥)
      → IsReason asc d i
      → d'.called ≡ d.called
      → d'.sent ≡ (if is_running d then refusal_response asc i ∷ d.sent else d.sent)
      → Handled i d d'

-- A round that ends the loop: an error, or a disconnect request.
abbrev pub IsLast : Round → Type 0
IsLast reset_failed = Unit {0}
IsLast (fetch_failed e) = Unit {0}
IsLast (fetched ioctl i) = i.request.request_type ≡ req_disconnect

abbrev pub HasLast : List Round → Type 0
HasLast [] = ⊥
HasLast (r ∷ rounds) = IsLast r ⊎ HasLast rounds
