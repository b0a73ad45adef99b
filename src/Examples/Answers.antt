-- ===== src/Examples/Answers.antt =====
-- The theorems on commands that are answered at once, at concrete inputs.
use wnbd.Prelude.{ℕ, ◌+◌, ◌^◌, ◌≤◌, ◌<◌, ◌≡◌, refl, List, [], ◌∷◌, arith}
use wnbd.Wdk.{SrbStatus}
use wnbd.Types.{Srb}
use wnbd.Request.Initialize.{initialize_device}
use wnbd.Emulated.{read_capacity}
use wnbd.Emulated.Capacity.{read32, read64, bytes_of, read_capacity-last_block}
use wnbd.Examples.{fresh_device, read_srb}

abbrev capacity_srb : Srb
capacity_srb = record read_srb { data_transfer_length = 32 }

abbrev capacity_cdb : List ℕ
capacity_cdb = 158 ∷ 16 ∷ []

fresh_device-sizes :
    (1 ≤ fresh_device.properties.block_count)
    × ((fresh_device.properties.block_count < 2 ^ 64)
        × (fresh_device.properties.block_size < 2 ^ 32))
unfolding initialize_device
fresh_device-sizes = (omega arith, (omega arith, omega arith))

read_capacity-last_block_example :
    let r = read_capacity fresh_device capacity_srb capacity_cdb in
    (r.0 ≡ SrbStatus.success)
    × (r.1.data_transfer_length ≤ 32)
    × (read64 (bytes_of r.1) + 1 ≡ fresh_device.properties.block_count)
    × (read32 (bytes_of r.1) 8 ≡ fresh_device.properties.block_size)
read_capacity-last_block_example =
    read_capacity-last_block fresh_device capacity_srb capacity_cdb (1 ∷ 2 ∷ []) refl refl refl
      (omega arith) fresh_device-sizes.0 fresh_device-sizes.1.0 fresh_device-sizes.1.1
