-- ===== src/Vemulate/Revoke.antt =====
-- A route that was dropped, and the calls that ask for it.
use mathlib.Core.Path.{subst}
use twan.Base.{ℕ, ◌<◌, ◌≡◌, inl, inr, refl, false, arith, ◌==◌, Bool-cases, Option-cases}
use twan.Bitmap.{bmp256_test}
use twan.Vemulate.{einval, ok, error, Table, vemu_set_route, far_vcpu}
use twan.Vemulate.Routes.{is_sender, IsTable}
use twan.Vemulate.Routes.Outcome.{SetRoute, IsRouted, vemu_set_route_lem}

-- A call by a partition that is no sender is refused.
far_refused :
    (table : Table) (from to kind processor_id : ℕ)
    → is_sender table kind from to ≡ false
    → far_vcpu table from to kind processor_id ≡ error einval
unfolding far_vcpu
far_refused table from to kind processor_id h = elim (Bool-cases (to == from)) [
  | inl e ↦ rw e refl
  | inr e ↦ elim (Option-cases (table to)) [
    | inl n ↦ rw (e, n) refl
    | inr (target, t) ↦
        let closed : bmp256_test (target.senders kind) from ≡ false = rw t at h in
        rw (e, t, closed) refl
  ]
]

module _ (before after : Table) (to from kind : ℕ) (words : IsTable before) (from_u8 : from < 256)
    (to_u8 : to < 256) (dropped : vemu_set_route before to from kind false ≡ ok after) where
  no_sender : is_sender after kind from to ≡ false
  no_sender =
      let routed : IsRouted before after kind from to false =
        subst (SetRoute before kind from to false) dropped
          (vemu_set_route_lem before to from kind false words from_u8 to_u8) in
      ground (arith, routed.senders kind from to)

  -- On maps of 64-bit words and for identifiers below 256: once `vemu_set_route` has dropped a route, the
  -- checks that the calls on another partition's processors share refuse every call of this type from the one
  -- partition to the other, whatever processor it names.
  pub far_vcpu_lem : (processor_id : ℕ) → far_vcpu after from to kind processor_id ≡ error einval
  far_vcpu_lem processor_id = far_refused after from to kind processor_id no_sender
