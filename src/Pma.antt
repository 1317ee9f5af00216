-- ===== src/Pma.antt =====
-- initcalls/early/mem/pma_buddy.c: the allocator of physical pages, over at most five arenas of the buddy allocator.
pub mod Pages
pub mod Cycle
use twan.Base.{
  ℕ, zero, suc, ◌+◌, ◌*◌, ◌^◌, Bool, true, false, Option, none, some, ◌==◌, ltb, leb, if◌then◌else◌,
  update,
}
use twan.Buddy.{BuddyArena, buddy_arena_init, buddy_alloc, buddy_free, buddy_order_can_alloc}

-- PMA_NUM_ARENAS
abbrev pub pma_num_arenas : ℕ
pma_num_arenas = 5

-- what the calls return: 0, -EINVAL or -ENOSPC
pub data Status : Type 0 where
  success einval enospc : Status

-- `arenas` and `num_arenas_initialized`
pub record Pma : Type 0 where
  pub arenas : ℕ → BuddyArena
  pub num_arenas : ℕ

-- The loop of `__buddy_get_order`. A `u32` is below 2 ^ 32, so 33 rounds are enough.
pub get_order_loop : (rounds num_pages order size : ℕ) → ℕ
get_order_loop zero num_pages order size = order
get_order_loop (suc rounds) num_pages order size =
    let rest = get_order_loop rounds num_pages (order + 1) (size * 2) in
    if ltb size num_pages then rest else order

pub buddy_get_order : (num_pages : ℕ) → ℕ
unfolding get_order_loop
buddy_get_order num_pages = get_order_loop 33 num_pages 0 1

abbrev pub add_arena : Pma → Option BuddyArena → Status × Pma
add_arena s none = (einval, s)
add_arena s (some arena) =
    (success, record { arenas = update s.arenas s.num_arenas arena; num_arenas = s.num_arenas + 1 })

pub pma_buddy_init_range : (phys size : ℕ) → Pma → Status × Pma
pma_buddy_init_range phys size s =
    if s.num_arenas == pma_num_arenas
    then (enospc, s)
    else add_arena s (buddy_arena_init (s.arenas s.num_arenas) phys size)

-- The loop of `pma_buddy_alloc_pages` from arena `i` on, with `rounds` arenas to go: the address and the arena's number,
-- with PMA_NULL if no arena serves the order.
pub alloc_loop : (rounds order i : ℕ) → (ℕ → BuddyArena) → (ℕ × ℕ) × (ℕ → BuddyArena)
alloc_loop zero order i arenas = ((0, 0), arenas)
alloc_loop (suc rounds) order i arenas =
    let (ret, arena) = buddy_alloc (arenas i) order in
    let skipped = alloc_loop rounds order (i + 1) arenas in
    let failed = alloc_loop rounds order (i + 1) (update arenas i arena) in
    if buddy_order_can_alloc (arenas i) order
    then if ret == 0 then failed else ((ret, i), update arenas i arena)
    else skipped

pub pma_buddy_alloc_pages : (num_pages : ℕ) → Pma → (ℕ × ℕ) × Pma
unfolding buddy_get_order alloc_loop
pma_buddy_alloc_pages num_pages s =
    let (out, arenas) = alloc_loop s.num_arenas (buddy_get_order num_pages) 0 s.arenas in
    (out, record s { arenas = arenas })

pub pma_buddy_free_pages : (id phys num_pages : ℕ) → Pma → Status × Pma
unfolding buddy_get_order
pma_buddy_free_pages id phys num_pages s = if leb s.num_arenas id then (einval, s) else (
  success,
  record s {
    arenas = update s.arenas id (buddy_free phys (buddy_get_order num_pages) (s.arenas id));
  },
)
