-- ===== src/Ioctl/Listing.antt =====
-- IOCTL_WNBD_LIST of driver/userspace.c, as a caller uses it: ask for the size, then for the disks.
use wnbd.Prelude.{
  ℕ, zero, suc, ◌+◌, ◌*◌, ◌^◌, ◌≤◌, ◌<◌, ◌≡◌, refl, ap, ◌∙◌, false, List, [], ◌∷◌, map, arith,
  length, if◌then◌else◌,
}
use wnbd.Wdk.{NtStatus}
use wnbd.Connections.{max_disks, Disk}
use wnbd.Connections.Invariant.{IsConsistent}
use wnbd.Ioctl.{Irp, no_output, list_output, Adapter}
use wnbd.Ioctl.Check.{
  connection_info_size, connection_list_size, list_head_size, bad_output, with_output,
}
use wnbd.Ioctl.Query.{
  connection_info, room, fill_list, list_end, enumerate_connections, required_size, list_ioctl,
}

-- The size that LIST asks for `n` disks, and the size of what it then reports.
abbrev pub asked_size : ℕ → ℕ
asked_size n = connection_list_size + connection_info_size * n

abbrev pub listed_size : ℕ → ℕ
listed_size n = list_head_size + connection_info_size * n

module _ {S : Type 0} (a : Adapter S) where
  fill_list-all :
      (ds : List Disk) (n : ℕ) → length ds ≤ n → fill_list a ds n ≡ (map (connection_info a) ds, [])
  unfolding fill_list
  fill_list-all [] n h = refl
  fill_list-all (d ∷ ds) zero h = ground (arith, h)
  fill_list-all (d ∷ ds) (suc n) h =
      ap (λ r. (connection_info a d ∷ r.0, r.1)) (fill_list-all ds n (omega (arith, h)))

  length-map : (ds : List Disk) → length (map (connection_info a) ds) ≡ length ds
  length-map [] = refl
  length-map (d ∷ ds) = ap suc (length-map ds)

  listed :
      (irp : Irp)
      → a.ext.device_count ≡ length a.ext.disks
      → length a.ext.disks ≤ room irp
      → enumerate_connections irp a
        ≡ with_output NtStatus.success
            (listed_size a.ext.device_count)
            (list_output (map (connection_info a) a.ext.disks))
            a
  unfolding enumerate_connections list_end
  listed irp count enough =
      ap (list_end a) (fill_list-all a.ext.disks (room irp) enough)
      ∙ ap
          (λ n.
            with_output NtStatus.success n (list_output (map (connection_info a) a.ext.disks)) a)
          (omega (arith, length-map a.ext.disks, count))

  list_short :
      (irp : Irp)
      → a.ext.device_count ≤ max_disks
      → irp.output_length < asked_size a.ext.device_count
      → list_ioctl irp a ≡ with_output NtStatus.success (asked_size a.ext.device_count) no_output a
  unfolding list_ioctl
  list_short irp n short =
      let size : required_size a.ext ≡ asked_size a.ext.device_count = omega (arith, n) in
      ground (arith, size, short)

  list_long :
      (irp : Irp)
      → a.ext.device_count ≡ length a.ext.disks
      → a.ext.device_count ≤ max_disks
      → irp.output_length < 2 ^ 32
      → asked_size a.ext.device_count ≤ irp.output_length
      → list_ioctl irp a
        ≡ with_output NtStatus.success
            (listed_size a.ext.device_count)
            (list_output (map (connection_info a) a.ext.disks))
            a
  unfolding list_ioctl
  list_long irp count n len long =
      let size : required_size a.ext ≡ asked_size a.ext.device_count = omega (arith, n) in
      let enough : length a.ext.disks ≤ room irp = omega (arith, count, len, long) in
      let test : bad_output irp (required_size a.ext) ≡ false = ground (arith, size, long) in
      ap
        (λ b.
          if b
          then with_output NtStatus.success (required_size a.ext) no_output a
          else enumerate_connections irp a)
        test
      ∙ listed irp count enough

-- LIST on consistent disks, at most 128: with an output buffer that is shorter than 2040 + 2032 * n
-- bytes for n disks, it succeeds, writes nothing, and reports that size as IoStatus.Information. With a
-- buffer of that size or more, below 2 ^ 32, it succeeds, writes the entries of all disks in the order
-- in which they were mapped, and reports the 8 + 2032 * n bytes that these take.
pub list_ioctl-lists :
    {S : Type 0}
    → (irp : Irp) (a : Adapter S) → IsConsistent a.ext
    → a.ext.device_count ≤ max_disks
    → irp.output_length < 2 ^ 32
    → let n = a.ext.device_count in
      (irp.output_length < asked_size n
        → list_ioctl irp a ≡ with_output NtStatus.success (asked_size n) no_output a)
      × (asked_size n ≤ irp.output_length
          → list_ioctl irp a
            ≡ with_output NtStatus.success
                (listed_size n)
                (list_output (map (connection_info a) a.ext.disks))
                a)
list_ioctl-lists irp a c n len =
    (λ short. list_short a irp n short, λ long. list_long a irp c.counted n len long)
