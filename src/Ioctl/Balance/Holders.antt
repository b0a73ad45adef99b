-- ===== src/Ioctl/Balance/Holders.antt =====
-- Who holds a disk that WnbdDisconnectSync of driver/util.c waits for.
use wnbd.Prelude.{
  ◌+◌, ◌-◌, ◌≡◌, ◌≤◌, ◌⊎◌, inl, inr, refl, ap, ◌∙◌, Bool, true, false, ◌||◌, Option, none, some,
  ◌==◌, arith,
}
use wnbd.Connections.{Disk, find_by_conn_id}
use wnbd.Ioctl.{IoctlEnv, Adapter}
use wnbd.Ioctl.Lookup.{update_references, release-acquire}
use wnbd.Ioctl.Mapping.{references_of}
use wnbd.Ioctl.Balance.{IsLetGo}

-- Who holds a disk: nobody, or someone.
unheld :
    (o : Option Disk) → (references_of o == 0) ≡ true → (e : Disk) → o ≡ some e → e.references ≡ 0
unheld none h e found = ground (arith, found)
unheld (some d) h e found = ground (arith, h, found)

pub holder :
    (o : Option Disk)
    → (references_of o == 0) ≡ false
    → (e : Disk) × (o ≡ some e) × (1 ≤ e.references)
holder none h = ground (arith, h)
holder (some d) h = (d, refl, ground (arith, h))

pub or-either : (x y : Bool) → (x || y) ≡ true → (x ≡ true) ⊎ (y ≡ true)
or-either x y h = ground (arith, h)

pub or-neither : (x y : Bool) → (x || y) ≡ false → (x ≡ false) × (y ≡ false)
or-neither x y h = (ground (arith, h), ground (arith, h))

module _ {S : Type 0} (a : Adapter S) where
  -- Who holds the disk once this call has let go of it.
  abbrev pub others : Disk → Option Disk
  others d =
      find_by_conn_id
        (update_references d.connection_id (λ n. n - 1)
          (update_references d.connection_id (λ n. n + 1) a.ext))
        d.connection_id

  pub others-before : (d : Disk) → others d ≡ find_by_conn_id a.ext d.connection_id
  others-before d = ap (λ ext. find_by_conn_id ext d.connection_id) (release-acquire a.ext d)

module _ {S : Type 0} (env : IoctlEnv) (a : Adapter S) where
  pub let_go :
      (d : Disk) → (references_of (others a d) == 0 || env.others_release) ≡ true → IsLetGo env a d
  let_go d h = elim (or-either (references_of (others a d) == 0) env.others_release h) [
    | inl none_left ↦ inl (λ e found. unheld (others a d) none_left e (others-before a d ∙ found))
    | inr released ↦ inr released
  ]
