-- ===== src/Machines/Laws.antt =====
-- The searches by identifier, and what the operations on a machine leave alone.
use gomaasapi.Prelude.{
  ◌≡◌, refl, sym, ◌⊎◌, inl, inr, false, none, some, List, [], ◌∷◌, ◌++◌, arith, ◌==◌, int_eq, ℤ,
  Result, ok, err, All, Bool-cases,
}
use gomaasapi.Strings.{Text}
use gomaasapi.Value.{Value}
use gomaasapi.Http.{Platform, World}
use gomaasapi.Schema.{Juju}
use gomaasapi.Reading.{Read}
use gomaasapi.Resources.Storage.{Partition, BlockDevice}
use gomaasapi.Resources.Hosts.{Machine, read_machine}
use gomaasapi.Controller.{Controller}
use gomaasapi.Machines.{
  StartArgs, update_machine_from, find_partition, first_found, partition_by_id, machine_partition,
  MachineOutcome, read_update, finish_machine, start, set_owner_data,
}

-- All partitions of the block devices, in order.
abbrev pub all_partitions : List BlockDevice → List Partition
all_partitions [] = []
all_partitions (b ∷ devices) = b.partitions ++ all_partitions devices

find_partition-append :
    (id : ℤ) (ps qs : List Partition)
    → find_partition id (ps ++ qs) ≡ first_found (find_partition id ps) (find_partition id qs)
unfolding find_partition first_found
find_partition-append id [] qs = refl
find_partition-append id (p ∷ ps) qs = elim (Bool-cases (p.id == id)) [
  | inl e ↦ rw e refl
  | inr e ↦ rw e (find_partition-append id ps qs)
]

partition_by_id-all :
    (id : ℤ) (devices : List BlockDevice)
    → partition_by_id id devices ≡ find_partition id (all_partitions devices)
unfolding partition_by_id find_partition
partition_by_id-all id [] = refl
partition_by_id-all id (b ∷ devices) =
    rw (partition_by_id-all id devices)
      (sym (find_partition-append id b.partitions (all_partitions devices)))

-- `p` is the first of the partitions with this identifier.
abbrev pub FirstPartition : ℤ → List Partition → Partition → Type 0
FirstPartition id ps p =
    (before after : List Partition) × (ps ≡ before ++ p ∷ after)
    × All (λ q. (q.id == id) ≡ false) before
    × (p.id ≡ id)

find_partition_lem :
    (id : ℤ) (ps : List Partition)
    → ((find_partition id ps ≡ none) × All (λ q. (q.id == id) ≡ false) ps)
      ⊎ ((p : Partition) × (find_partition id ps ≡ some p) × FirstPartition id ps p)
unfolding find_partition
find_partition_lem id [] = inl (refl, tt)
find_partition_lem id (p ∷ ps) = elim (Bool-cases (p.id == id)) [
  | inl e ↦ inr (p, rw e refl, ([], ps, refl, tt, ground arith))
  | inr e ↦ elim (find_partition_lem id ps) [
    | inl (h, others) ↦ inl (rw e h, (e, others))
    | inr (q, h, (before, after, s, r, t)) ↦ inr (q, rw e h, (p ∷ before, after, rw s, (e, r), t))
  ]
]

-- `Partition` finds, of all partitions of the machine's block devices in their order, the first with
-- the identifier, and finds none only where no partition has it.
machine_partition_lem :
    (id : ℤ) (m : Machine)
    → ((machine_partition id m ≡ none)
        × All (λ q. (q.id == id) ≡ false) (all_partitions m.block_devices))
      ⊎ ((p : Partition) × (machine_partition id m ≡ some p)
          × FirstPartition id (all_partitions m.block_devices) p)
unfolding machine_partition
machine_partition_lem id m =
    rw (partition_by_id-all id m.block_devices)
      (find_partition_lem id (all_partitions m.block_devices))

-- The hardware of a machine: its interfaces and block devices.
pub record SameHardware (m n : Machine) : Type 0 where
  pub boot_interface : n.boot_interface ≡ m.boot_interface
  pub interface_set : n.interface_set ≡ m.interface_set
  pub physical_block_devices : n.physical_block_devices ≡ m.physical_block_devices
  pub block_devices : n.block_devices ≡ m.block_devices

SameHardware-refl : (m : Machine) → SameHardware m m
SameHardware-refl m = record {
  boot_interface = refl;
  interface_set = refl;
  physical_block_devices = refl;
  block_devices = refl;
}

module _ (P : Platform) (J : Juju P) (c : Controller) where
  -- The operation succeeded, or the machine is the one before; its hardware is in each case.
  abbrev pub Updated : Machine → MachineOutcome P → Type 0
  Updated m (result, n, w) = ((result ≡ ok tt) ⊎ (n ≡ m)) × SameHardware m n

  read_update-Updated :
      (m : Machine) (r : Read P Machine) (w : World P) → Updated m (read_update P J c m r w)
  unfolding read_update update_machine_from
  read_update-Updated m (err e) w = (inr refl, SameHardware-refl m)
  read_update-Updated m (ok other) w = (
    inl refl,
    record {
      boot_interface = refl;
      interface_set = refl;
      physical_block_devices = refl;
      block_devices = refl;
    },
  )

  finish_machine-Updated :
      (f : P.Err → P.Err) (m : Machine) (r : Result P.Err (Value P.Float) × World P)
      → Updated m (finish_machine P J c f m r)
  unfolding finish_machine
  finish_machine-Updated f m (err e, w) = (inr refl, SameHardware-refl m)
  finish_machine-Updated f m (ok source, w) =
      read_update-Updated m (read_machine P J c.api_version source) w

  -- `Start` and `SetOwnerData` succeed, or leave the machine as it was; in each case they keep its
  -- interfaces and block devices, whatever the server answers.
  pub machine_operations-Updated :
      (a : StartArgs) (owner_data : List (Text × Text)) (m : Machine) (w : World P)
      → Updated m (start P J c a m w) × Updated m (set_owner_data P J c owner_data m w)
  unfolding start set_owner_data
  machine_operations-Updated a owner_data m w =
      (finish_machine-Updated _ m _, finish_machine-Updated _ m _)
