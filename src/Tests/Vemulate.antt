-- ===== src/Tests/Vemulate.antt =====
-- Two partitions, 1 and 2, with no route yet.
use twan.Base.{
  ◌≡◌, ◌+◌, ◌||◌, refl, inl, inr, true, false, none, some, arith, update, ◌==◌, if◌then◌else◌,
  Bool-cases,
}
use twan.Bitmap.{Bmp256}
use twan.Vemulate.{
  einval, ok, error, vipi_route, Vpartition, Table, put_receiver, put_sender, vemu_set_route,
  far_vcpu,
}
use twan.Vemulate.Routes.{IsTable}
use twan.Vemulate.Routes.Outcome.{SetRoute, vemu_set_route_lem}
use twan.Vemulate.Revoke.{far_vcpu_lem}

abbrev empty_map : Bmp256
empty_map = record { bmp = λ i. 0 }

abbrev partition : Vpartition
partition = record {
  receivers = λ kind. empty_map;
  senders = λ kind. empty_map;
  criticality_perms = λ i. record {
    read = false;
    write = false;
    min_criticality_writeable = 0;
    max_criticality_writeable = 0;
  };
  vcpus = λ i. 0x1000 + i;
  vcpu_count = 4;
}

abbrev two_partitions : Table
two_partitions vid = if vid == 1 || vid == 2 then some partition else none

two_partitions-IsTable : IsTable two_partitions
unfolding IsTable
two_partitions-IsTable vid = elim (Bool-cases (vid == 1 || vid == 2)) [
  | inl e ↦ rw e (λ kind. (λ i hi. omega arith, λ i hi. omega arith))
  | inr e ↦ rw e tt
]

vemu_set_route_example :
    SetRoute two_partitions vipi_route 1 2 true (vemu_set_route two_partitions 2 1 vipi_route true)
vemu_set_route_example =
    vemu_set_route_lem two_partitions 2 1 vipi_route true two_partitions-IsTable (omega arith)
      (omega arith)

abbrev unrouted : Table
unrouted =
    update (update two_partitions 1 (some (put_receiver partition vipi_route 2 false))) 2
      (some (put_sender partition vipi_route 1 false))

unrouted_is : vemu_set_route two_partitions 2 1 vipi_route false ≡ ok unrouted
unfolding vemu_set_route
unrouted_is = refl

far_vcpu_example : far_vcpu unrouted 1 2 vipi_route 3 ≡ error einval
far_vcpu_example =
    far_vcpu_lem two_partitions unrouted 2 1 vipi_route two_partitions-IsTable (omega arith)
      (omega arith) unrouted_is 3
