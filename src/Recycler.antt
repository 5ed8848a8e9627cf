-- ===== src/Recycler.antt =====
-- include/experimental/bits/small_block_recycler.h: `__small_block_recycler`, which keeps up to two
-- freed blocks of a thread. A block has its address, the number of its bytes, and the bytes by index.
-- `operator new` is a parameter that gives the address and the bytes of a block, which has as many bytes
-- as it was asked for; a block that is given to `operator delete` is in a list.
pub mod Blocks
use executors.Base.{ℕ, ◌+◌, Option, none, some, List, [], ◌∷◌, Bool, leb, if◌then◌else◌, update}

pub record Block : Type 0 where
  pub address : ℕ
  pub extent : ℕ
  pub bytes : ℕ → ℕ

pub record Recycler : Type 0 where
  pub memory : Option Block
  pub next_memory : Option Block

-- `UCHAR_MAX`
abbrev pub uchar_max : ℕ
uchar_max = 255

unfoldable pub empty : Recycler
empty = record { memory = none; next_memory = none }

abbrev set_byte : ℕ → ℕ → Block → Block
set_byte i v b = record b { bytes = update b.bytes i v }

-- A block from `operator new`, with its size in the byte after the last one.
abbrev pub new_block : (ℕ → ℕ) → ℕ → ℕ → Block
new_block bytes address size = record {
  address = address;
  extent = size + 1;
  bytes = update bytes size (if leb size uchar_max then size else 0);
}

-- What `_Allocate` leaves, gives and deletes.
pub record Allocated : Type 0 where
  pub recycler : Recycler
  pub block : Block
  pub deleted : List Block

-- `_Allocate`
unfoldable pub allocate : (ℕ → ℕ) → ℕ → ℕ → Recycler → Allocated
allocate new_bytes new_address size r =
    let fresh = new_block new_bytes new_address size in
    let rest : Recycler = record { memory = r.next_memory; next_memory = none } in
    elim r.memory [
      | none ↦ record { recycler = r; block = fresh; deleted = [] }
      | some b ↦
          if leb size (b.bytes 0)
          then record { recycler = rest; block = set_byte size (b.bytes 0) b; deleted = [] }
          else record { recycler = rest; block = fresh; deleted = b ∷ [] }
    ]

-- `_Deallocate` of a block, if there is one.
unfoldable pub deallocate : Option Block → ℕ → Recycler → Recycler × List Block
deallocate none size r = (r, [])
deallocate (some b) size r =
    let kept = set_byte 0 (b.bytes size) b in
    if leb size uchar_max
    then elim r.memory [
      | none ↦ (record r { memory = some kept }, [])
      | some m ↦ elim r.next_memory [
        | none ↦ (record r { next_memory = some kept }, [])
        | some n ↦ (r, b ∷ [])
      ]
    ]
    else (r, b ∷ [])

abbrev pub cached : Option Block → List Block
cached none = []
cached (some b) = b ∷ []

-- The destructor: the blocks that it deletes.
pub destructor : Recycler → List Block
destructor r = elim r.memory [ none ↦ cached r.next_memory | some b ↦ b ∷ cached r.next_memory ]
