-- ===== src/Connections/Address.antt =====
-- SCSI addresses of driver/userspace.c: a bit of the bitmap is split into bus, target and logical unit,
-- and the monitor thread computes the bit again.
use wnbd.Prelude.{ℕ, ◌<◌, ◌≡◌, arith}
use wnbd.Types.{Properties}
use wnbd.Connections.{max_luns, max_targets, max_buses, max_disks, bit_of, new_disk}

-- The address that a new disk gets from a bit of the bitmap is one that the adapter has, and the bit
-- that is cleared when the disk goes is the bit that was set for it.
pub bit_of-new_disk :
    (p : Properties) (bit id : ℕ)
    → bit < max_disks
    → (bit_of (new_disk p bit id) ≡ bit)
      × ((new_disk p bit id).bus < max_buses)
      × ((new_disk p bit id).target < max_targets)
      × ((new_disk p bit id).lun < max_luns)
unfolding bit_of new_disk
bit_of-new_disk p bit id h = ground arith
