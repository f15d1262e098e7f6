-- ===== src/Ssd/Buffer.antt =====
-- NVMevirt/ssd.c: the write buffer, a counter of free bytes under a spin lock. Each operation holds
-- the lock from its first line to its last, so it is one step.
use xharvest.Base.{ℕ, ◌+◌, ◌-◌, ◌<◌, ◌≡◌, ◌^◌, List, [], ◌∷◌, arith, ltb, u32, u64, if◌then◌else◌}

pub record Buffer : Type 0 where
  pub size : ℕ
  pub remaining : ℕ

unfoldable pub buffer_init : ℕ → Buffer
buffer_init size = record { size = size; remaining = size }

-- All or nothing. The result is `uint32_t`, the request `size_t`.
unfoldable pub buffer_allocate : Buffer → ℕ → ℕ × Buffer
buffer_allocate buf size =
    let granted = if ltb buf.remaining size then 0 else size in
    (u32 granted, record buf { remaining = buf.remaining - granted })

unfoldable pub buffer_release : Buffer → ℕ → Buffer
buffer_release buf size = record buf { remaining = u64 (buf.remaining + size) }

unfoldable pub buffer_refill : Buffer → Buffer
buffer_refill buf = record buf { remaining = buf.size }

-- What the callers do: allocations, releases of what was allocated before, in any order.
pub data BufferOp : Type 0 where
  allocates : ℕ → BufferOp
  releases : ℕ → BufferOp

-- The bytes that are allocated and not yet released are kept beside the buffer.
unfoldable pub buffer_step : Buffer × ℕ → BufferOp → Buffer × ℕ
buffer_step (buf, held) (allocates size) =
    let (granted, buf') = buffer_allocate buf size in (buf', held + granted)
buffer_step (buf, held) (releases size) =
    if ltb held size then (buf, held) else (buffer_release buf size, held - size)

unfoldable pub buffer_run : Buffer × ℕ → List BufferOp → Buffer × ℕ
buffer_run s [] = s
buffer_run s (op ∷ ops) = buffer_run (buffer_step s op) ops

-- The free bytes and those held make up the size, which fits 32 bits.
pub record IsBalanced (s : Buffer × ℕ) : Type 0 where
  pub balance : s.0.remaining + s.1 ≡ s.0.size
  pub small : s.0.size < 2 ^ 32

buffer_step-IsBalanced :
    (s : Buffer × ℕ) (op : BufferOp) → IsBalanced s → IsBalanced (buffer_step s op)
unfolding buffer_step buffer_allocate buffer_release
buffer_step-IsBalanced s (allocates size) b = ground arith
buffer_step-IsBalanced s (releases size) b = ground arith

-- Whatever the callers do, as long as each releases only what is held, free and held bytes make up
-- the buffer's size: it never overflows and nothing is lost.
pub buffer_run-IsBalanced :
    (s : Buffer × ℕ) (ops : List BufferOp) → IsBalanced s → IsBalanced (buffer_run s ops)
unfolding buffer_run
buffer_run-IsBalanced s [] b = b
buffer_run-IsBalanced s (op ∷ ops) b =
    buffer_run-IsBalanced (buffer_step s op) ops (buffer_step-IsBalanced s op b)
