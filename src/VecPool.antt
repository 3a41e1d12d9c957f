-- ===== src/VecPool.antt =====
-- src/vec_pool.rs: a queue of vectors that are reused. A vector is its items and its capacity;
-- `reserve` is the standard library's: it does nothing where there is room, and grows the
-- capacity to at least the size asked for. How far beyond it grows is the parameter `grow`.
pub mod Laws
use paperlog.Base.{
  ℕ, zero, suc, ◌+◌, ◌-◌, ◌≤◌, leb, if◌then◌else◌, List, [], ◌∷◌, ◌++◌, map, length, replicate, max,
}

pub record Vector {ℓ} (A : Type ℓ) : Type ℓ where
  pub items : List A
  pub capacity : ℕ

pub record VecPool {ℓ} (A : Type ℓ) : Type ℓ where
  pub pool : List (Vector A)  -- a VecDeque, its front first
  pub inner_capacity : ℕ

-- A guard borrows the pool until it is dropped: here it holds it.
pub record VecPoolGuard {ℓ} (A : Type ℓ) : Type ℓ where
  pub vec : Vector A
  pub rest : VecPool A

module _ {ℓ} {A : Type ℓ} where
  -- `Vec::with_capacity`
  abbrev pub with_capacity : ℕ → Vector A
  with_capacity n = record { items = []; capacity = n }

  unfoldable pub pool_len : VecPool A → ℕ
  pool_len p = length p.pool

  unfoldable pub with_initial_amount : ℕ → ℕ → VecPool A
  with_initial_amount amount inner_capacity = record {
    pool = replicate amount (with_capacity inner_capacity);
    inner_capacity = inner_capacity;
  }

  take_front : List (Vector A) → VecPool A → VecPoolGuard A
  take_front [] p = record { vec = with_capacity p.inner_capacity; rest = p }
  take_front (v ∷ vs) p = record { vec = v; rest = record p { pool = vs } }

  unfoldable pub take_vec : VecPool A → VecPoolGuard A
  unfolding take_front
  take_vec p = take_front p.pool p

  -- `clear` keeps the capacity.
  unfoldable pub return_vec : VecPool A → Vector A → VecPool A
  return_vec p v = record p { pool = p.pool ++ record v { items = [] } ∷ [] }

  -- `impl Drop for VecPoolGuard`
  unfoldable pub drop_guard : VecPoolGuard A → VecPool A
  unfolding return_vec
  drop_guard g = return_vec g.rest g.vec

  -- `Vec::reserve(additional)`
  unfoldable pub reserve : (ℕ → ℕ → ℕ) → Vector A → ℕ → Vector A
  reserve grow v additional = if leb (length v.items + additional) v.capacity then v else record v {
    capacity = max (length v.items + additional) (grow v.capacity (length v.items + additional));
  }

  resize_one : (ℕ → ℕ → ℕ) → ℕ → Vector A → Vector A
  unfolding reserve
  resize_one grow new_capacity v = reserve grow v (new_capacity - v.capacity)

  unfoldable pub resize_all : (ℕ → ℕ → ℕ) → VecPool A → ℕ → VecPool A
  unfolding resize_one
  resize_all grow p new_capacity = record {
    pool = map (resize_one grow new_capacity) p.pool;
    inner_capacity = new_capacity;
  }
