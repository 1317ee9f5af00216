-- ===== src/Vemulate/Routes/Outcome.antt =====
-- The outcome of `vemu_set_route`.
use twan.Base.{
  ℕ, ◌<◌, ◌≤◌, ◌≡◌, ◌≢◌, ◌⊎◌, inl, inr, refl, ap, Bool, true, false, ◌&&◌, ◌||◌, arith, ◌==◌, leb,
  if◌then◌else◌, Bool-cases, Option-cases, ==_iff,
}
use twan.Vemulate.Routes.{
  is_sender, is_receiver, IsTable, is_live, live, IsMirrored, changed, is_here, changed-sender,
  changed-receiver, changed-is_live, changed-IsTable, changed-IsMirrored,
}
use twan.Vemulate.{einval, Result, ok, error, num_route_types, Table, vemu_set_route}

-- What a change of the route of type `kind` between two partitions does.
pub record IsRouted (before after : Table) (kind from to : ℕ) (allow : Bool) : Type 0 where
  pub senders :
      (k a b : ℕ)
      → is_sender after k a b
        ≡ (if (kind == k) && ((from == a) && (to == b)) then allow else is_sender before k a b)
  pub receivers :
      (k a b : ℕ)
      → is_receiver after k a b
        ≡ (if (kind == k) && ((from == a) && (to == b)) then allow else is_receiver before k a b)
  pub live : (vid : ℕ) → is_live after vid ≡ is_live before vid
  pub table : IsTable after
  pub mirrored : IsMirrored before → IsMirrored after

-- why a call is refused
abbrev pub IsRefused : Table → (kind from to : ℕ) → Type 0
IsRefused before kind from to =
    (from ≡ to)
    ⊎ ((num_route_types ≤ kind) ⊎ ((is_live before from ≡ false) ⊎ (is_live before to ≡ false)))

abbrev pub SetRoute : Table → (kind from to : ℕ) → (allow : Bool) → Result Table → Type 0
SetRoute before kind from to allow (ok after) = IsRouted before after kind from to allow
SetRoute before kind from to allow (error e) = (e ≡ einval) × IsRefused before kind from to

module _ (before : Table) (to from kind : ℕ) (allow : Bool) (words : IsTable before)
    (from_u8 : from < 256) (to_u8 : to < 256) where
  -- On maps of 64-bit words and for identifiers below 256, `vemu_set_route` is refused with -EINVAL, and
  -- changes nothing, only between a partition and itself, for a type of route that is none, or if one of the
  -- two partitions is not there. Otherwise it sets or drops this route of this type at both ends, leaves every
  -- other route of every type and partition as it was, and keeps the two ends of every route in agreement.
  pub vemu_set_route_lem :
      SetRoute before kind from to allow (vemu_set_route before to from kind allow)
  unfolding vemu_set_route changed is_here
  vemu_set_route_lem = elim (Bool-cases (from == to || leb num_route_types kind)) [
    | inl e ↦ rw e (refl, bad_arguments e)
    | inr e ↦ elim (Option-cases (before from)) [
      | inl n ↦ rw (e, n) (refl, inr (inr (inl (ap live n))))
      | inr (sender, s) ↦ elim (Option-cases (before to)) [
        | inl n ↦ rw (e, s, n) (refl, inr (inr (inr (ap live n))))
        | inr (target, t) ↦
            let ne : from ≢ to = ground (arith, e) in
            rw (e, s, t)
              (record {
                senders =
                    changed-sender before to from kind allow sender target words s t ne from_u8
                      to_u8;
                receivers =
                    changed-receiver before to from kind allow sender target words s t ne from_u8
                      to_u8;
                live =
                    changed-is_live before to from kind allow sender target words s t ne from_u8
                      to_u8;
                table =
                    changed-IsTable before to from kind allow sender target words s t ne from_u8
                      to_u8;
                mirrored =
                    changed-IsMirrored before to from kind allow sender target words s t ne from_u8
                      to_u8;
              })
      ]
    ]
  ]
    where
      bad_arguments :
          (from == to || leb num_route_types kind) ≡ true → IsRefused before kind from to
      bad_arguments e = elim (Bool-cases (from == to)) [
        | inl same ↦ inl ((==_iff from to).0 same)
        | inr differ ↦ inr (inl (ground (arith, e, differ)))
      ]
