-- ===== src/Nv12/Jpeg.antt =====
-- The end of the JPEG that FindJpegEnd returns.
use robo_baton_4p_ros2_demo.Prelude.{
  ℕ, zero, suc, ◌-◌, ◌≤◌, ◌<◌, ◌≡◌, false, ◌↔◌, ◌⊎◌, inl, inr, Bool, Bool-cases, true, ◌&&◌, some,
  List, length, ◌==◌, ok, arith,
}
use robo_baton_4p_ros2_demo.Nv12.{byte_at, find_end_from, find_jpeg_end}

-- The two bytes before an index are the end marker.
abbrev pub EndsAt : List ℕ → ℕ → Type 0
EndsAt bytes n = (2 ≤ n) × (byte_at bytes (n - 2) ≡ 0xff) × (byte_at bytes (n - 1) ≡ 0xd9)

-- The bytes start with the start marker and have room for both markers.
abbrev pub Starts : List ℕ → Type 0
Starts bytes = (4 ≤ length bytes) × (byte_at bytes 0 ≡ 0xff) × (byte_at bytes 1 ≡ 0xd8)

-- The last end marker whose end is at most the bound.
pub record IsLastEnd (bytes : List ℕ) (bound n : ℕ) : Type 0 where
  pub in_bound : n ≤ bound
  pub marker : EndsAt bytes n
  pub last : (m : ℕ) → n < m → m ≤ bound → ¬ EndsAt bytes m

le_cases : (m n : ℕ) → (m ≤ n) ⊎ (n < m)
le_cases m n = ground arith

is_end : List ℕ → ℕ → Bool
is_end bytes k = byte_at bytes k == 0xff && byte_at bytes (suc k) == 0xd9

found_here :
    (bytes : List ℕ) (k n : ℕ)
    → is_end bytes k ≡ true
    → n ≡ suc (suc k)
    → IsLastEnd bytes (suc (suc k)) n
unfolding is_end
found_here bytes k n here e = record {
  in_bound = omega (arith, e);
  marker = ground (arith, here, e);
  last = λ m l h ends. omega (arith, e, l, h);
}

found_below :
    (bytes : List ℕ) (k n : ℕ)
    → is_end bytes k ≡ false
    → IsLastEnd bytes (suc k) n
    → IsLastEnd bytes (suc (suc k)) n
unfolding is_end
found_below bytes k n further v = record {
  in_bound = omega (arith, v.in_bound);
  marker = v.marker;
  last = λ m l h ends. elim (le_cases m (suc k)) [
    | inl low ↦ v.last m l low ends
    | inr high ↦
        let top : m ≡ suc (suc k) = omega (arith, h, high) in ground (arith, further, ends, top)
  ];
}

found : (bytes : List ℕ) (bound n : ℕ) → find_end_from bytes bound ≡ ok n → IsLastEnd bytes bound n
unfolding find_end_from is_end
found bytes zero n h = absurd (ground (arith, h))
found bytes (suc zero) n h = absurd (ground (arith, h))
found bytes (suc (suc k)) n h = elim (Bool-cases (is_end bytes k)) [
  | inl here ↦ found_here bytes k n here (ground (arith, h, here))
  | inr further ↦ found_below bytes k n further (found bytes (suc k) n (ground (arith, h, further)))
]

last_here :
    (bytes : List ℕ) (k n : ℕ)
    → is_end bytes k ≡ true
    → IsLastEnd bytes (suc (suc k)) n
    → n ≡ suc (suc k)
unfolding is_end
last_here bytes k n here v = elim (le_cases n (suc k)) [
  | inl low ↦ absurd (
      v.last (suc (suc k)) (omega (arith, low)) (omega arith)
        (omega arith, ground (arith, here), ground (arith, here)))
  | inr high ↦ omega (arith, high, v.in_bound)
]

last_below :
    (bytes : List ℕ) (k n : ℕ)
    → is_end bytes k ≡ false
    → IsLastEnd bytes (suc (suc k)) n
    → IsLastEnd bytes (suc k) n
unfolding is_end
last_below bytes k n further v = record {
  in_bound = elim (le_cases n (suc k)) [
    | inl low ↦ low
    | inr high ↦
        let top : n ≡ suc (suc k) = omega (arith, high, v.in_bound) in
        absurd (ground (arith, further, top, v.marker))
  ];
  marker = v.marker;
  last = λ m l h ends. v.last m l (omega (arith, h)) ends;
}

complete :
    (bytes : List ℕ) (bound n : ℕ) → IsLastEnd bytes bound n → find_end_from bytes bound ≡ ok n
unfolding find_end_from is_end
complete bytes zero n v = absurd (ground (arith, v.in_bound, v.marker))
complete bytes (suc zero) n v = absurd (ground (arith, v.in_bound, v.marker))
complete bytes (suc (suc k)) n v = elim (Bool-cases (is_end bytes k)) [
  | inl here ↦ let top : n ≡ suc (suc k) = last_here bytes k n here v in ground (arith, here, top)
  | inr further ↦ ground (arith, further, complete bytes (suc k) n (last_below bytes k n further v))
]

-- On a buffer that is not null, FindJpegEnd returns n exactly when the buffer starts with the start
-- marker, has four bytes or more, and n is the end of its last end marker.
pub find_jpeg_end_iff :
    (bytes : List ℕ) (n : ℕ)
    → (find_jpeg_end (some bytes) ≡ ok n) ↔ (Starts bytes × IsLastEnd bytes (length bytes) n)
unfolding find_jpeg_end
find_jpeg_end_iff bytes n = (
  λ h. (ground (arith, h), found bytes (length bytes) n (ground (arith, h))),
  λ v. ground (arith, v.0, complete bytes (length bytes) n v.1),
)
