-- ===== src/Vemulate/Routes.antt =====
-- What a change of a route does to the routes of all partitions.
pub mod Outcome
use mathlib.Core.Path.{subst}
use twan.Base.{
  ℕ, ◌<◌, ◌≤◌, ◌≡◌, ◌≢◌, ◌⊎◌, inl, inr, refl, sym, ap, ◌∙◌, Bool, true, false, ◌&&◌, ◌||◌, Option,
  none, some, arith, ◌==◌, leb, if◌then◌else◌, update, Bool-cases, Option-cases, ℕ_discrete, ==_iff,
  ==_false,
}
use twan.Bitmap.{Bmp256, bmp256_test}
use twan.Bitmap.Laws.{IsWords, test-set, test-unset, set-IsWords, unset-IsWords}
use twan.Vemulate.{
  einval, Result, ok, error, num_route_types, Vpartition, Table, change_map, put_receiver,
  put_sender, vemu_set_route,
}

abbrev pub sends : Option Vpartition → (kind vid : ℕ) → Bool
sends none kind vid = false
sends (some p) kind vid = bmp256_test (p.senders kind) vid

abbrev pub receives : Option Vpartition → (kind vid : ℕ) → Bool
receives none kind vid = false
receives (some p) kind vid = bmp256_test (p.receivers kind) vid

-- partition `from` stands among the senders of `to`
abbrev pub is_sender : Table → (kind from to : ℕ) → Bool
is_sender table kind from to = sends (table to) kind from

-- partition `to` stands among the receivers of `from`
abbrev pub is_receiver : Table → (kind from to : ℕ) → Bool
is_receiver table kind from to = receives (table from) kind to

sender-some :
    (table : Table) (kind from to : ℕ) (p : Vpartition)
    → table to ≡ some p
    → is_sender table kind from to ≡ bmp256_test (p.senders kind) from
sender-some table kind from to p e = ap (λ o. sends o kind from) e

receiver-some :
    (table : Table) (kind from to : ℕ) (p : Vpartition)
    → table from ≡ some p
    → is_receiver table kind from to ≡ bmp256_test (p.receivers kind) to
receiver-some table kind from to p e = ap (λ o. receives o kind to) e

-- Every map is one of 64-bit words.
abbrev pub WordsOf : Option Vpartition → Type 0
WordsOf none = Unit
WordsOf (some p) = (kind : ℕ) → IsWords (p.senders kind) × IsWords (p.receivers kind)

unfoldable pub IsTable : Table → Type 0
IsTable table = (vid : ℕ) → WordsOf (table vid)

abbrev pub live : Option Vpartition → Bool
live none = false
live (some p) = true

abbrev pub is_live : Table → (vid : ℕ) → Bool
is_live table vid = live (table vid)

-- Both ends of a route between two partitions tell the same.
pub IsMirrored : Table → Type 0
IsMirrored table =
    (kind from to : ℕ)
    → is_live table from ≡ true
    → is_live table to ≡ true
    → is_receiver table kind from to ≡ is_sender table kind from to

test-change_map :
    (allow : Bool) (m : Bmp256) (b c : ℕ)
    → IsWords m
    → b < 256
    → bmp256_test (change_map allow m b) c ≡ (if b == c then allow else bmp256_test m c)
test-change_map true m b c words hb = test-set m b c
test-change_map false m b c words hb = test-unset m b c words hb

change_map-IsWords :
    (allow : Bool) (m : Bmp256) (b : ℕ) → IsWords m → IsWords (change_map allow m b)
change_map-IsWords true m b words = set-IsWords m b words
change_map-IsWords false m b words = unset-IsWords m b words

put-IsWords :
    (maps : ℕ → Bmp256) (route_type vid kind : ℕ) (allow : Bool)
    → ((k : ℕ) → IsWords (maps k))
    → IsWords (update maps route_type (change_map allow (maps route_type) vid) kind)
put-IsWords maps route_type vid kind allow all = elim (Bool-cases (route_type == kind)) [
  | inl e ↦ rw e (change_map-IsWords allow (maps route_type) vid (all route_type))
  | inr e ↦ rw e (all kind)
]

keep : (allow b here : Bool) → here ≡ false → b ≡ (if here then allow else b)
keep allow b here e = rw e refl

module _ (table : Table) (to_vid from_vid route_type : ℕ) (allow : Bool)
    (sender target : Vpartition) (words : IsTable table) (sender_is : table from_vid ≡ some sender)
    (target_is : table to_vid ≡ some target) (ne : from_vid ≢ to_vid) (from_u8 : from_vid < 256)
    (to_u8 : to_vid < 256) where
  target_words : WordsOf (some target)
  unfolding IsTable
  target_words = subst WordsOf target_is (words to_vid)

  sender_words : WordsOf (some sender)
  unfolding IsTable
  sender_words = subst WordsOf sender_is (words from_vid)

  pub changed : Table
  changed =
      update (update table from_vid (some (put_receiver sender route_type to_vid allow))) to_vid
        (some (put_sender target route_type from_vid allow))

  pub is_here : (kind from to : ℕ) → Bool
  is_here kind from to = (route_type == kind) && ((from_vid == from) && (to_vid == to))

  changed-at :
      (vid : ℕ)
      → changed vid ≡ (
          if to_vid == vid
          then some (put_sender target route_type from_vid allow)
          else if from_vid == vid
          then some (put_receiver sender route_type to_vid allow)
          else table vid)
  unfolding changed
  changed-at vid = refl

  at_target :
      (vid : ℕ) → to_vid ≡ vid → changed vid ≡ some (put_sender target route_type from_vid allow)
  at_target vid e = rw (changed-at vid, (==_iff to_vid vid).1 e) refl

  at_sender :
      (vid : ℕ) → from_vid ≡ vid → changed vid ≡ some (put_receiver sender route_type to_vid allow)
  at_sender vid e =
      let other : (to_vid == vid) ≡ false = ground (arith, e, ne) in
      rw (changed-at vid, other, (==_iff from_vid vid).1 e) refl

  at_other : (vid : ℕ) → to_vid ≢ vid → from_vid ≢ vid → changed vid ≡ table vid
  at_other vid not_to not_from =
      rw (changed-at vid, ==_false to_vid vid not_to, ==_false from_vid vid not_from) refl

  target_at : (vid : ℕ) → to_vid ≡ vid → table vid ≡ some target
  target_at vid e = ap table (sym e) ∙ target_is

  sender_at : (vid : ℕ) → from_vid ≡ vid → table vid ≡ some sender
  sender_at vid e = ap table (sym e) ∙ sender_is

  pub changed-sender :
      (kind from to : ℕ)
      → is_sender changed kind from to
        ≡ (if is_here kind from to then allow else is_sender table kind from to)
  unfolding is_here
  changed-sender kind from to = elim (ℕ_discrete to_vid to) [
    | yes e ↦
        rw
          (
            sender-some changed kind from to _ (at_target to e),
            sender-some table kind from to _ (target_at to e),
          )
          (ground (
            arith,
            test-change_map allow (target.senders route_type) from_vid from
                (target_words route_type).0 from_u8,
          ))
    | no n ↦ elim (ℕ_discrete from_vid to) [
      | yes e ↦
          rw
            (
              sender-some changed kind from to _ (at_sender to e),
              sender-some table kind from to _ (sender_at to e),
            )
            (ground (arith, n))
      | no m ↦
          ap (λ o. sends o kind from) (at_other to n m)
          ∙ keep allow (is_sender table kind from to) (is_here kind from to) (ground (arith, n))
    ]
  ]

  pub changed-receiver :
      (kind from to : ℕ)
      → is_receiver changed kind from to
        ≡ (if is_here kind from to then allow else is_receiver table kind from to)
  unfolding is_here
  changed-receiver kind from to = elim (ℕ_discrete from_vid from) [
    | yes e ↦
        rw
          (
            receiver-some changed kind from to _ (at_sender from e),
            receiver-some table kind from to _ (sender_at from e),
          )
          (ground (
            arith,
            test-change_map allow (sender.receivers route_type) to_vid to
                (sender_words route_type).1 to_u8,
          ))
    | no n ↦ elim (ℕ_discrete to_vid from) [
      | yes e ↦
          rw
            (
              receiver-some changed kind from to _ (at_target from e),
              receiver-some table kind from to _ (target_at from e),
            )
            (ground (arith, n))
      | no m ↦
          ap (λ o. receives o kind to) (at_other from m n)
          ∙ keep allow (is_receiver table kind from to) (is_here kind from to) (ground (arith, n))
    ]
  ]

  pub changed-is_live : (vid : ℕ) → is_live changed vid ≡ is_live table vid
  changed-is_live vid = elim (ℕ_discrete to_vid vid) [
    | yes e ↦ ap live (at_target vid e) ∙ sym (ap live (target_at vid e))
    | no n ↦ elim (ℕ_discrete from_vid vid) [
      | yes e ↦ ap live (at_sender vid e) ∙ sym (ap live (sender_at vid e))
      | no m ↦ ap live (at_other vid n m)
    ]
  ]

  pub changed-IsTable : IsTable changed
  unfolding IsTable
  changed-IsTable vid = elim (ℕ_discrete to_vid vid) [
    | yes e ↦ subst WordsOf (sym (at_target vid e)) (λ kind. (
      put-IsWords target.senders route_type from_vid kind allow (λ k. (target_words k).0),
      (target_words kind).1,
    ))
    | no n ↦ elim (ℕ_discrete from_vid vid) [
      | yes e ↦ subst WordsOf (sym (at_sender vid e)) (λ kind. (
        (sender_words kind).0,
        put-IsWords sender.receivers route_type to_vid kind allow (λ k. (sender_words k).1),
      ))
      | no m ↦ subst WordsOf (sym (at_other vid n m)) (words vid)
    ]
  ]

  pub changed-IsMirrored : IsMirrored table → IsMirrored changed
  unfolding IsMirrored
  changed-IsMirrored mirrored kind from to live_from live_to =
      let same =
        mirrored kind from to (sym (changed-is_live from) ∙ live_from)
          (sym (changed-is_live to) ∙ live_to) in
      changed-receiver kind from to
      ∙ ap (λ b. if is_here kind from to then allow else b) same
      ∙ sym (changed-sender kind from to)
