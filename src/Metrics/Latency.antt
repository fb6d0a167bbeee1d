-- ===== src/Metrics/Latency.antt =====
-- The compare-and-swap loop that keeps the maximum latency.
use Prim.Native.Nat.{max}
use robo_baton_4p_ros2_demo.Prelude.{ℕ, ◌≤◌, List, [], ◌∷◌, arith}
use robo_baton_4p_ros2_demo.Metrics.{Attempt, raise_max}

-- The highest value that the cell or another thread held.
pub peak : ℕ → List Attempt → ℕ
peak cell [] = cell
peak cell (a ∷ rest) = peak (max cell a.raised_to) rest

cell-le-peak : (cell : ℕ) (attempts : List Attempt) → cell ≤ peak cell attempts
unfolding peak
cell-le-peak cell [] = omega arith
cell-le-peak cell (a ∷ rest) = omega (arith, cell-le-peak (max cell a.raised_to) rest)

pub peak_mono : (a b : ℕ) (attempts : List Attempt) → a ≤ b → peak a attempts ≤ peak b attempts
unfolding peak
peak_mono a b [] h = h
peak_mono a b (t ∷ rest) h = peak_mono (max a t.raised_to) (max b t.raised_to) rest (omega arith)

-- However often other threads raise the maximum between the attempts, and however often the weak
-- compare-and-swap fails, the maximum ends up at least at this latency and at least at the value it
-- had, and at no value above this latency and all that the other threads wrote.
pub raise_max_bounds :
    (latency expected cell : ℕ) (attempts : List Attempt)
    → expected ≤ cell
    → let r = raise_max latency expected cell attempts in
      (latency ≤ r) × (cell ≤ r) × (r ≤ max latency (peak cell attempts))
unfolding raise_max peak
raise_max_bounds latency expected cell [] h = ground arith
raise_max_bounds latency expected cell (a ∷ rest) h = ground (
  arith,
  raise_max_bounds latency (max cell a.raised_to) (max cell a.raised_to) rest,
  cell-le-peak (max cell a.raised_to) rest,
)
