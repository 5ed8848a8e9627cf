-- ===== src/Recycler/Blocks.antt =====
-- `_Allocate` and `_Deallocate`: the room of the blocks that are given out and kept.
use executors.Base.{ℕ, ◌<◌, Option, none, some, leb, arith, Bool-cases, inl, inr}
use executors.Recycler.{Block, Recycler, allocate, deallocate}

-- A block in use with `size` bytes: it has a byte more, which holds a size that the block has room for.
pub record IsInUse (size : ℕ) (b : Block) : Type 0 where
  pub room : size < b.extent
  pub told : b.bytes size < b.extent

-- A block that is kept: its first byte holds a size that it has room for.
abbrev pub IsKept : Option Block → Type 0
IsKept none = Unit
IsKept (some b) = b.bytes 0 < b.extent

pub record IsValid (r : Recycler) : Type 0 where
  pub first : IsKept r.memory
  pub second : IsKept r.next_memory

allocate_shape :
    (bytes : ℕ → ℕ) (address size : ℕ) (m n : Option Block)
    → IsKept m
    → IsKept n
    → let a = allocate bytes address size (record { memory = m; next_memory = n }) in
      IsInUse size a.block × IsKept a.recycler.memory × IsKept a.recycler.next_memory
unfolding allocate
allocate_shape bytes address size none n h k =
    (record { room = ground arith; told = ground arith }, h, k)
allocate_shape bytes address size (some b) n h k = elim (Bool-cases (leb size (b.bytes 0))) [
  | inl fits ↦ rw fits (record { room = ground arith; told = ground arith }, k, tt)
  | inr small ↦ rw small (record { room = ground arith; told = ground arith }, k, tt)
]

-- `_Allocate` gives a block with at least the bytes that it was asked for and one more, where it keeps
-- a size that the block has room for; the blocks that stay in the recycler are as they should be.
pub allocate-IsInUse :
    (bytes : ℕ → ℕ) (address size : ℕ) (r : Recycler)
    → IsValid r
    → let a = allocate bytes address size r in IsInUse size a.block × IsValid a.recycler
allocate-IsInUse bytes address size r v =
    let h = allocate_shape bytes address size r.memory r.next_memory v.first v.second in
    (h.0, record { first = h.1; second = h.2 })

deallocate_shape :
    (b : Block) (size : ℕ) (m n : Option Block)
    → IsInUse size b
    → IsKept m
    → IsKept n
    → let d = deallocate (some b) size (record { memory = m; next_memory = n }) in
      IsKept d.0.memory × IsKept d.0.next_memory
unfolding deallocate
deallocate_shape b size none n u h k = ground (arith, u.told)
deallocate_shape b size (some m) none u h k = ground (arith, u.told)
deallocate_shape b size (some m) (some n) u h k = ground arith

-- `_Deallocate` of a block in use, whose byte after its `size` bytes is as `_Allocate` left it, leaves
-- the kept blocks as they should be.
pub deallocate-IsValid :
    (b : Block) (size : ℕ) (r : Recycler)
    → IsInUse size b
    → IsValid r
    → IsValid (deallocate (some b) size r).0
deallocate-IsValid b size r u v =
    let h = deallocate_shape b size r.memory r.next_memory u v.first v.second in
    record { first = h.0; second = h.1 }

-- `_Allocate` gives a block with at least the bytes that it was asked for and one more, where it keeps a
-- size that the block has room for; and after it, as after `_Deallocate` of a block in use, the kept blocks
-- are as they should be.
pub recycler-IsValid :
    (bytes : ℕ → ℕ) (address size : ℕ) (b : Block) (r : Recycler)
    → IsValid r
    → IsInUse size b
    → let a = allocate bytes address size r in
      IsInUse size a.block × IsValid a.recycler × IsValid (deallocate (some b) size r).0
recycler-IsValid bytes address size b r v u =
    let h = allocate-IsInUse bytes address size r v in (h.0, h.1, deallocate-IsValid b size r u v)
