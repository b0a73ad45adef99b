-- ===== src/Emulated/Pages/Bounds.antt =====
-- Writing a vital product data page of driver/scsi_operation.c into the host's buffer.
use wnbd.Prelude.{
  ◌<◌, inr, inl, ◌/◌, ◌^◌, ◌⊎◌, if◌then◌else◌, either-if, ℕ, ◌+◌, ◌-◌, ◌≤◌, ◌≡◌, Option, none, some,
  List, [], ◌∷◌, ◌++◌, length, take, drop, arith, length-append, length-take, length-drop,
}
use wnbd.Wdk.{SrbStatus}
use wnbd.Types.{Device, Srb}
use wnbd.Emulated.{ltb, reverse4, not, answered, put, Answer}
use wnbd.Emulated.Pages.{
  overrun, page_limits, max_transfer_length, page_identifiers, page_supported, page_provisioning,
  block_limits_size, page_list, page_characteristics, characteristics_size, provisioning_size,
  naa_id_size, number_of_pages, unmap_limits, set_characteristics, head, set_supported_pages,
  set_device_identifier, set_provisioning, set_block_limits, page_serial, serial_size,
  set_serial_number, write,
}

abbrev pub size_of : Option (List ℕ) → ℕ
size_of none = 0
size_of (some b) = length b

-- The buffer has its size still, and the transfer length was not raised.
abbrev pub IsInBounds : Srb → Answer → Type 0
IsInBounds srb (status, srb') =
    (size_of srb'.data_buffer ≡ size_of srb.data_buffer)
    × (srb'.data_transfer_length ≤ srb.data_transfer_length)

-- A buffer of `n` bytes that is written to inside of them has `n` bytes still.
pub length-write :
    (n i : ℕ) (bytes buffer : List ℕ)
    → i + length bytes ≤ n
    → length buffer ≡ n
    → length (write i bytes buffer) ≡ n
length-write n i bytes buffer h e = omega (
  arith,
  h,
  e,
  length-append (take i buffer) (bytes ++ drop (i + length bytes) buffer),
  length-append bytes (drop (i + length bytes) buffer),
  length-take i buffer,
  length-drop (i + length bytes) buffer,
)

pub length-put :
    (n : ℕ) (bytes buffer : List ℕ)
    → length bytes ≤ n
    → length buffer ≡ n
    → length (put bytes buffer) ≡ n
length-put n bytes buffer h e = omega (
  arith,
  h,
  e,
  length-append bytes (drop (length bytes) buffer),
  length-drop (length bytes) buffer,
)

pub le-cases : (n m : ℕ) → (n ≤ m) ⊎ (m < n)
le-cases n m = ground arith

module _ (srb : Srb) (n : ℕ) (same : size_of srb.data_buffer ≡ n) where
  -- An answer that depends on whether the host asks for enough.
  pub if_short :
      (size : ℕ) (a b : Answer)
      → IsInBounds srb a
      → (size ≤ srb.data_transfer_length → IsInBounds srb b)
      → IsInBounds srb (if ltb srb.data_transfer_length size then a else b)
  if_short size a b h k = elim (le-cases size srb.data_transfer_length) [
    | inl l ↦ ground (arith, k l)
    | inr l ↦ ground (arith, h)
  ]

  pub answered-IsInBounds :
      (b : List ℕ) (size : ℕ)
      → length b ≡ n
      → size ≤ srb.data_transfer_length
      → IsInBounds srb (answered srb b size)
  answered-IsInBounds b size h k = (omega (arith, h, same), k)

  pub keeps-IsInBounds :
      (status : SrbStatus) (buffer : List ℕ)
      → length buffer ≡ n
      → IsInBounds srb (status, record srb { data_buffer = some buffer })
  keeps-IsInBounds status buffer e = (omega (arith, same, e), omega arith)

  module _ (d : Device) (long : srb.data_transfer_length ≤ n) (buffer : List ℕ)
      (e : length buffer ≡ n) where
    head-length :
        (code size : ℕ) → 4 ≤ size → size ≤ srb.data_transfer_length → length (head code buffer) ≡ n
    head-length code size h k = length-put n (0 ∷ code ∷ []) buffer (omega (arith, h, k, long)) e

    pub set_supported_pages-IsInBounds :
        (4 + number_of_pages d.properties.flags.naa_id_specified ≤ srb.data_transfer_length)
        → IsInBounds srb
            (set_supported_pages d srb (number_of_pages d.properties.flags.naa_id_specified) buffer)
    unfolding set_supported_pages
    set_supported_pages-IsInBounds h =
        let naa = d.properties.flags.naa_id_specified in
        let fields = number_of_pages naa ∷ page_list naa in
        let page = write 3 fields (head page_supported buffer) in
        let fits : 3 + length fields ≤ n = ground (arith, long, h) in
        let l : length page ≡ n =
          length-write n 3 fields (head page_supported buffer) fits
            (head-length page_supported (4 + number_of_pages naa) (omega arith) h) in
        answered-IsInBounds page (4 + number_of_pages naa) l h

    -- A page that starts with its head, and its bytes from the fourth on.
    page_length :
        (code size : ℕ) (fields : List ℕ)
        → 4 ≤ size
        → 3 + length fields ≤ size
        → size ≤ srb.data_transfer_length
        → length (write 3 fields (head code buffer)) ≡ n
    page_length code size fields h f k =
        length-write n 3 fields (head code buffer) (omega (arith, f, k, long))
          (head-length code size h k)

    pub set_serial_number-IsInBounds : IsInBounds srb (set_serial_number d srb buffer)
    unfolding set_serial_number
    set_serial_number-IsInBounds =
        let serial = d.properties.serial_number in
        let size = serial_size serial in
        let fields = size ∷ take size (serial ++ (0 ∷ [])) in
        if_short (4 + size) (overrun srb buffer)
          (answered srb (write 3 fields (head page_serial buffer)) (4 + size))
          (keeps-IsInBounds SrbStatus.data_overrun buffer e)
          (λ h.
            answered-IsInBounds (write 3 fields (head page_serial buffer)) (4 + size)
              (page_length page_serial (4 + size) fields (omega arith)
                (omega (arith, length-take size (serial ++ (0 ∷ [])))) h)
              h)

    pub set_device_identifier-IsInBounds : IsInBounds srb (set_device_identifier d srb buffer)
    unfolding set_device_identifier
    set_device_identifier-IsInBounds =
        let id = d.properties.naa_identifier in
        let size = naa_id_size id in
        let fields = (4 + size) ∷ 1 ∷ 3 ∷ [] in
        let first = write 3 fields (head page_identifiers buffer) in
        let page = write 7 (size ∷ take size id) first in
        let long_enough = answered srb page (4 + (4 + size)) in
        either-if (IsInBounds srb) (not d.properties.flags.naa_id_specified) _ _
          (keeps-IsInBounds SrbStatus.invalid_request buffer e)
          (if_short (4 + (4 + size)) (overrun srb buffer) long_enough
            (keeps-IsInBounds SrbStatus.data_overrun buffer e)
            (λ h.
              answered-IsInBounds page (4 + (4 + size))
                (length-write n 7 (size ∷ take size id) first
                  (omega (arith, long, h, length-take size id))
                  (page_length page_identifiers (4 + (4 + size)) fields (omega arith) (omega arith)
                    h))
                h))

    pub set_block_limits-IsInBounds :
        block_limits_size ≤ srb.data_transfer_length
        → IsInBounds srb (set_block_limits d srb buffer)
    unfolding set_block_limits unmap_limits
    set_block_limits-IsInBounds h =
        let first = write 3 (60 ∷ []) (head page_limits buffer) in
        let blocks = reverse4 (max_transfer_length / d.properties.block_size) in
        let page = write 8 blocks first in
        let unmap = reverse4 (2 ^ 32 - 1) ++ reverse4 1 in
        let l : length page ≡ n =
          length-write n 8 blocks first (omega (arith, long, h))
            (page_length page_limits block_limits_size (60 ∷ []) (omega arith) (omega arith) h) in
        let k : length (write 20 unmap page) ≡ n =
          length-write n 20 unmap page (omega (arith, long, h)) l in
        either-if (λ (b : List ℕ). IsInBounds srb (answered srb b block_limits_size))
          d.properties.flags.unmap_supported (write 20 unmap page) page
          (answered-IsInBounds (write 20 unmap page) block_limits_size k h)
          (answered-IsInBounds page block_limits_size l h)

    pub set_provisioning-IsInBounds :
        provisioning_size ≤ srb.data_transfer_length
        → IsInBounds srb (set_provisioning d srb buffer)
    unfolding set_provisioning
    set_provisioning-IsInBounds h =
        let page = write 3 (4 ∷ []) (head page_provisioning buffer) in
        let thin = write 5 (128 ∷ 2 ∷ []) page in
        let l : length page ≡ n =
          page_length page_provisioning provisioning_size (4 ∷ []) (omega arith) (omega arith) h in
        let k : length thin ≡ n = length-write n 5 (128 ∷ 2 ∷ []) page (omega (arith, long, h)) l in
        either-if (λ (b : List ℕ). IsInBounds srb (answered srb b provisioning_size))
          d.properties.flags.unmap_supported thin page
          (answered-IsInBounds thin provisioning_size k h)
          (answered-IsInBounds page provisioning_size l h)

    pub set_characteristics-IsInBounds :
        characteristics_size ≤ srb.data_transfer_length
        → IsInBounds srb (set_characteristics d srb buffer)
    unfolding set_characteristics
    set_characteristics-IsInBounds h =
        let page = write 3 (60 ∷ 0 ∷ 0 ∷ []) (head page_characteristics buffer) in
        let flags : List ℕ = 0 ∷ (if d.properties.flags.fua_supported then 2 else 0) ∷ [] in
        let l : length (write 7 flags page) ≡ n =
          length-write n 7 flags page (omega (arith, long, h)) (
            page_length page_characteristics characteristics_size (60 ∷ 0 ∷ 0 ∷ []) (omega arith)
              (omega arith) h) in
        answered-IsInBounds (write 7 flags page) characteristics_size l h
