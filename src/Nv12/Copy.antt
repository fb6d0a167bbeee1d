-- ===== src/Nv12/Copy.antt =====
-- CopyIntoCodecInput of src/nv12_compressed_publisher.cpp: the copy of the rows of both planes into the
-- input buffer of the codec. What is then set in the buffer's header is left out.
use robo_baton_4p_ros2_demo.Prelude.{
  ℕ, zero, suc, ◌+◌, ◌*◌, ◌/◌, ◌%◌, ◌^◌, ◌≤◌, ◌<◌, ◌≡◌, Bool, false, ◌||◌, Option, none, some, List,
  [], ◌∷◌, ltb, if◌then◌else◌, ℤ, pos, negsuc, pos_part, ltb_ℤ, ◌≤ℤ◌, Result, ok, throw,
  runtime_error, throw_if, throw_if-eq-ok, ◌>>◌, arith, subst,
}
use robo_baton_4p_ros2_demo.Nv12.{Image, Nv12Planes, int_max}
use native.Mathlib.Nat.{mul-le-mul_right}
use robo_baton_4p_ros2_demo.Nv12.Planes.{InBounds, row_le}

-- `media_codec_buffer_t`, with the fields of `vframe_buf` that are read.
pub record CodecInput : Type 0 where
  pub y_is_null : Bool
  pub uv_is_null : Bool
  pub stride : ℤ
  pub vstride : ℤ
  pub y_capacity : ℕ
  pub uv_capacity : ℕ

-- A `memcpy` of a row, with offsets from the start of the plane's buffer and of the image's data.
pub record RowCopy : Type 0 where
  pub to : ℕ
  pub from : ℕ
  pub bytes : ℕ

-- A loop over rows, with the rounds left.
unfoldable pub copy_rows : ℕ → ℕ → ℕ → ℕ → ℕ → ℕ → List RowCopy
copy_rows zero row to_stride from from_stride width = []
copy_rows (suc rounds) row to_stride from from_stride width =
    record { to = row * to_stride; from = from + row * from_stride; bytes = width }
    ∷ copy_rows rounds (row + 1) to_stride from from_stride width

-- The stride of the chroma rows in the buffer.
abbrev pub uv_stride : CodecInput → ℤ
uv_stride input = if ltb_ℤ (pos 0) input.vstride then input.vstride else input.stride

-- The copies of the luma rows and of the chroma rows.
unfoldable pub copy_planes : Nv12Planes → CodecInput → Result (List RowCopy × List RowCopy)
copy_planes planes input = do
  throw_if (input.y_is_null || input.uv_is_null || ltb_ℤ input.stride (pos planes.width))
      (runtime_error "X5 JPEG input buffer has invalid layout")
  throw_if (ltb_ℤ (uv_stride input) (pos planes.width))
      (runtime_error "X5 JPEG chroma buffer has invalid stride")
  throw_if
      (ltb input.y_capacity (pos_part input.stride * planes.height % 2 ^ 64)
        || ltb input.uv_capacity (pos_part (uv_stride input) * (planes.height / 2) % 2 ^ 64))
      (runtime_error "X5 JPEG input buffer capacity is too small")
  ok (
    copy_rows planes.height 0 (pos_part input.stride) planes.y_data planes.source_stride
        planes.width,
    copy_rows planes.chroma_height 0 (pos_part (uv_stride input)) planes.uv_data
        planes.source_stride planes.width,
  )

-- `none` is a null pointer.
unfoldable pub copy_into_codec_input :
    Nv12Planes → Option CodecInput → Result (List RowCopy × List RowCopy)
unfolding copy_planes
copy_into_codec_input planes none = throw (runtime_error "X5 JPEG input buffer has invalid layout")
copy_into_codec_input planes (some input) = copy_planes planes input

-- Every row is written within a buffer and read within the data.
abbrev pub Within : ℕ → ℕ → List RowCopy → Type 0
Within capacity size [] = Unit {0}
Within capacity size (c ∷ rest) =
    ((c.to + c.bytes ≤ capacity) × (c.from + c.bytes ≤ size)) × Within capacity size rest

copy_rows-Within :
    (rounds row to_stride from from_stride width capacity size : ℕ)
    → ((r : ℕ) → r < row + rounds → r * to_stride + width ≤ capacity)
    → ((r : ℕ) → r < row + rounds → from + r * from_stride + width ≤ size)
    → Within capacity size (copy_rows rounds row to_stride from from_stride width)
unfolding copy_rows
copy_rows-Within zero row to_stride from from_stride width capacity size t f = tt
copy_rows-Within (suc rounds) row to_stride from from_stride width capacity size t f = (
  (t row (omega arith), f row (omega arith)),
  copy_rows-Within rounds (row + 1) to_stride from from_stride width capacity size
      (λ r h. t r (omega (arith, h))) (λ r h. f r (omega (arith, h))),
)

all_rows-Within :
    (rows to_stride from from_stride width capacity size : ℕ)
    → ((r : ℕ) → r < rows → r * to_stride + width ≤ capacity)
    → ((r : ℕ) → r < rows → from + r * from_stride + width ≤ size)
    → Within capacity size (copy_rows rows 0 to_stride from from_stride width)
all_rows-Within rows to_stride from from_stride width capacity size t f =
    copy_rows-Within rows 0 to_stride from from_stride width capacity size
      (λ r l. t r (omega (arith, l))) (λ r l. f r (omega (arith, l)))

ltb_or_false : (a b c d : ℕ) → ltb a b || ltb c d ≡ false → (b ≤ a) × (d ≤ c)
ltb_or_false a b c d h = ground (arith, h)

pos_part_le : (d : ℤ) → d ≤ℤ pos int_max → pos_part d ≤ int_max
pos_part_le (pos n) h = ground (arith, h)
pos_part_le (negsuc n) h = omega arith

stride_ge : (d : ℤ) (width : ℕ) → ltb_ℤ d (pos width) ≡ false → width ≤ pos_part d
stride_ge (pos n) width h = ground (arith, h)
stride_ge (negsuc n) width h = absurd (ground (arith, h))

room_for :
    (rows stride width capacity : ℕ)
    → rows ≤ int_max
    → stride ≤ int_max
    → width ≤ stride
    → stride * rows % 2 ^ 64 ≤ capacity
    → (r : ℕ) → r < rows
    → r * stride + width ≤ capacity
room_for rows stride width capacity few narrow wide room r l =
    let product : stride * rows ≤ int_max * rows = mul-le-mul_right rows narrow in
    omega (arith, row_le r rows stride width l wide, product, few, room)

-- On planes that lie in an image, the luma plane from its first byte on and the chroma plane from
-- within its size, and that have at most 2 ^ 31 - 1 rows, with strides of the buffer that fit an int, a
-- copy that succeeds writes every row within the capacity of its plane and reads it within the image.
pub copy_into_codec_input-Within :
    (image : Image) (p : Nv12Planes) (input : CodecInput) (luma chroma : List RowCopy)
    → InBounds image p
    → p.y_data ≡ 0
    → p.uv_data ≤ image.size
    → p.height ≤ int_max
    → input.stride ≤ℤ pos int_max
    → input.vstride ≤ℤ pos int_max
    → copy_into_codec_input p (some input) ≡ ok (luma, chroma)
    → Within input.y_capacity image.size luma × Within input.uv_capacity image.size chroma
unfolding copy_into_codec_input
copy_into_codec_input-Within image p input luma chroma b y₀ small tall s v h =
    let (layout, h₁) =
      throw_if-eq-ok (input.y_is_null || input.uv_is_null || ltb_ℤ input.stride (pos p.width))
        (runtime_error "X5 JPEG input buffer has invalid layout") _ h in
    let (wide, h₂) =
      throw_if-eq-ok (ltb_ℤ (uv_stride input) (pos p.width))
        (runtime_error "X5 JPEG chroma buffer has invalid stride") _ h₁ in
    let (room, h₃) =
      throw_if-eq-ok
        (ltb input.y_capacity (pos_part input.stride * p.height % 2 ^ 64)
          || ltb input.uv_capacity (pos_part (uv_stride input) * (p.height / 2) % 2 ^ 64))
        (runtime_error "X5 JPEG input buffer capacity is too small") _ h₂ in
    let half : p.chroma_height ≡ p.height / 2 = omega (arith, b.chroma, b.same.1) in
    let (y_room, uv_room) = ltb_or_false _ _ _ _ room in
    subst {A = List RowCopy × List RowCopy}
      (λ c. Within input.y_capacity image.size c.0 × Within input.uv_capacity image.size c.1)
      (cc h₃)
      (
        all_rows-Within p.height (pos_part input.stride) p.y_data p.source_stride p.width
            input.y_capacity image.size
            (room_for p.height (pos_part input.stride) p.width input.y_capacity tall
              (pos_part_le input.stride s) (stride_ge input.stride p.width (ground (arith, layout)))
              y_room)
            (λ r l. omega (arith, y₀, b.luma_rows r l, small)),
        all_rows-Within p.chroma_height (pos_part (uv_stride input)) p.uv_data p.source_stride
            p.width input.uv_capacity image.size
            (rw half (
              room_for (p.height / 2) (pos_part (uv_stride input)) p.width input.uv_capacity
                (omega (arith, tall)) (pos_part_le (uv_stride input) (ground (arith, s, v)))
                (stride_ge (uv_stride input) p.width wide) uv_room))
            (λ r l. b.chroma_rows r l),
      )
