-- ===== src/Ring.antt =====
-- `RingBuffer`, src/common/ring_buffer.h and ring_buffer.cpp. The vector is a function of the index.
pub mod Places
pub mod Contents
pub mod Latest
mod Tests
use blp_cache.Prelude.{
  Bool, List, Option, [], if◌then◌else◌, ltb, none, some, suc, zero, ℕ, ◌%◌, ◌+◌, ◌-◌, ◌<◌, ◌==◌,
  ◌∷◌, ◌≡◌, ◌≤◌,
}

module _ {ℓ} (A : Type ℓ) where
  pub record Ring : Type ℓ where
    pub buffer : ℕ → A
    pub capacity : ℕ
    pub head : ℕ
    pub tail : ℕ
    pub size : ℕ

module _ {ℓ} {A : Type ℓ} where
  -- The constructor; `blank` is the element that the vector is filled with.
  unfoldable pub new_ring : A → ℕ → Ring A
  new_ring blank capacity = record {
    buffer = λ _. blank;
    capacity = capacity;
    head = 0;
    tail = 0;
    size = 0;
  }

  -- `buffer_[place] = item`
  unfoldable pub store_at : (ℕ → A) → ℕ → A → ℕ → A
  store_at buffer place item i = if i == place then item else buffer i

  unfoldable pub push : Ring A → A → Ring A
  push r item =
      let stored = store_at r.buffer r.tail item in
      let next = (r.tail + 1) % r.capacity in
      if ltb r.size r.capacity
      then record r { buffer = stored; tail = next; size = r.size + 1 }
      else record r { buffer = stored; tail = next; head = (r.head + 1) % r.capacity }

  unfoldable pub pop : Ring A → Option A × Ring A
  pop r = if r.size == 0 then (none, r) else (
    some (r.buffer r.head),
    record r { head = (r.head + 1) % r.capacity; size = r.size - 1 },
  )

  unfoldable pub is_empty : Ring A → Bool
  is_empty r = r.size == 0

  -- `n` elements from a place on, and those that the ring holds, oldest first.
  unfoldable pub elements : (ℕ → A) → ℕ → ℕ → ℕ → List A
  elements buffer capacity place zero = []
  elements buffer capacity place (suc n) =
      buffer place ∷ elements buffer capacity ((place + 1) % capacity) n

  unfoldable pub contents : Ring A → List A
  contents r = elements r.buffer r.capacity r.head r.size

  -- What the constructor, `push` and `pop` keep of a ring of some capacity.
  pub record IsRing (r : Ring A) : Type 0 where
    pub positive : 0 < r.capacity
    pub head_below : r.head < r.capacity
    pub size_below : r.size ≤ r.capacity
    pub tail_behind : r.tail ≡ (r.head + r.size) % r.capacity
