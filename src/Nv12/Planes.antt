-- ===== src/Nv12/Planes.antt =====
-- Where the planes of an accepted NV12 image lie.
use native.Mathlib.Nat.{le-div_iff_mul-le, mul-le-mul_left, mul-le-mul_right, mul_comm}
use robo_baton_4p_ros2_demo.Prelude.{
  ltb→lt, ℕ, zero, suc, ◌+◌, ◌-◌, ◌*◌, ◌/◌, ◌%◌, ◌^◌, ◌≤◌, ◌<◌, ◌≡◌, ◌↔◌, refl, subst, inl, inr,
  false, Bool-cases, not, ◌||◌, ltb, ◌==◌, String, ok, arith, >>=-eq-ok, throw_if-eq-ok,
  runtime_error,
}
use robo_baton_4p_ros2_demo.Nv12.{
  Image, Nv12Planes, size_max, int_max, checked_product, is_bad_metadata, padded_span, plane_span,
  validate_and_locate_planes,
}

le_of_ltb : (a b : ℕ) → ltb a b ≡ false → b ≤ a
le_of_ltb a b h = ground arith

-- The product of two sizes is returned exactly when it fits std::size_t.
pub checked_product_iff :
    (l r n : ℕ) (what : String)
    → (checked_product l r what ≡ ok n) ↔ ((n ≡ l * r) × (l * r < 2 ^ 64))
unfolding checked_product
checked_product_iff zero r n what = (λ h. ground (arith, h), λ h. ground (arith, h))
checked_product_iff (suc l) r n what =
    let fits = le-div_iff_mul-le {k = suc l} {x = r} {y = size_max} (omega arith) in
    elim (Bool-cases (ltb (size_max / suc l) r)) [
      | inl over ↦ (
        λ h. absurd (ground (arith, h, over)),
        λ v.
            absurd
              (omega (arith, fits.1 (omega (arith, v.1, mul_comm r (suc l))), ltb→lt _ _ over)),
      )
      | inr under ↦ (
        λ h. (
          ground (arith, h, under, fits.0 (le_of_ltb _ _ under), mul_comm r (suc l)),
          omega (arith, fits.0 (le_of_ltb _ _ under), mul_comm r (suc l)),
        ),
        λ v. ground (arith, under, v),
      )
    ]

-- What the planes of an accepted image satisfy.
pub record InBounds (image : Image) (p : Nv12Planes) : Type 0 where
  pub same : (p.width ≡ image.width) × (p.height ≡ image.height) × (p.source_stride ≡ image.step)
  pub chroma : 2 * p.chroma_height ≡ image.height
  pub luma_rows : (row : ℕ) → row < p.height → row * p.source_stride + p.width ≤ p.uv_data
  pub chroma_rows :
      (row : ℕ) → row < p.chroma_height → p.uv_data + row * p.source_stride + p.width ≤ image.size

pub row_le :
    (row rows stride width : ℕ) → row < rows → width ≤ stride → row * stride + width ≤ stride * rows
row_le row rows stride width h w = omega (arith, mul-le-mul_right stride h, mul_comm rows stride)

padded_span_lem :
    (image : Image) (uv span : ℕ)
    → padded_span image uv ≡ ok span
    → (image.step * image.height ≤ span) × (span + uv ≤ image.size)
unfolding padded_span
padded_span_lem image uv span h =
    let (denominator, e, h₁) = >>=-eq-ok (checked_product image.step 3 _) _ h in
    let vstride = image.size * 2 / denominator in
    let (fits, h₂) =
      throw_if-eq-ok (ltb (size_max / 2) image.size || not (image.size * 2 % denominator == 0))
        (runtime_error "unsupported NV12 padded image layout") _ h₁ in
    let (even, h₃) =
      throw_if-eq-ok (ltb vstride image.height || not (vstride % 2 == 0))
        (runtime_error "invalid NV12 padded vstride") _ h₂ in
    let (y, ey, h₄) = >>=-eq-ok (checked_product image.step vstride _) _ h₃ in
    let (covers, h₅) =
      throw_if-eq-ok (ltb image.size y || ltb (image.size - y) uv)
        (runtime_error "NV12 padded image data does not cover chroma rows") (ok y) h₄ in
    let high : image.height ≤ vstride = ground (arith, even) in
    let product = (checked_product_iff image.step vstride y _).0 ey in
    let same : y ≡ span = ground (arith, h₅) in
    (omega (arith, product, same, mul-le-mul_left image.step high), ground (arith, same, covers))

plane_span_lem :
    (image : Image) (y uv span : ℕ)
    → y + uv < 2 ^ 64
    → y ≡ image.step * image.height
    → y + uv ≤ image.size
    → plane_span image y uv ≡ ok span
    → (image.step * image.height ≤ span) × (span + uv ≤ image.size)
unfolding plane_span
plane_span_lem image y uv span small e enough h =
    elim (Bool-cases (image.size == (y + uv) % 2 ^ 64)) [
      | inl compact ↦
          let same : y ≡ span = ground (arith, h, compact) in
          (omega (arith, e, same), omega (arith, enough, same))
      | inr padded ↦ padded_span_lem image uv span (ground (arith, h, padded))
    ]

metadata :
    (image : Image)
    → is_bad_metadata image ≡ false
    → (image.width ≤ image.step) × (image.height % 2 ≡ 0)
unfolding is_bad_metadata
metadata image h = ground (arith, h)

sizes :
    (image : Image)
    → is_bad_metadata image ≡ false
    → (image.step ≤ int_max) × (image.height ≤ int_max)
unfolding is_bad_metadata
sizes image h = ground (arith, h)

located-InBounds :
    (image : Image) (uv span : ℕ)
    → (image.width ≤ image.step) × (image.height % 2 ≡ 0)
    → uv ≡ image.step * (image.height / 2)
    → image.step * image.height ≤ span
    → span + uv ≤ image.size
    → InBounds image (record {
      y_data = 0;
      uv_data = span;
      width = image.width;
      height = image.height;
      source_stride = image.step;
      chroma_height = image.height / 2;
    })
located-InBounds image uv span (wide, even) e luma covers = record {
  same = (refl, refl, refl);
  chroma = omega (arith, even);
  luma_rows = λ row h. omega (arith, row_le row image.height image.step image.width h wide, luma);
  chroma_rows = λ row h.
      omega (arith, row_le row (image.height / 2) image.step image.width h wide, e, covers);
}

-- Every row of both planes of an accepted image lies in its data, the luma rows before the chroma
-- plane: the planes have the image's sizes and stride, and half as many chroma rows as luma rows.
pub validate_and_locate_planes-InBounds :
    (image : Image) (p : Nv12Planes) → validate_and_locate_planes image ≡ ok p → InBounds image p
unfolding validate_and_locate_planes
validate_and_locate_planes-InBounds image p h =
    let chroma = image.height / 2 in
    let (valid, h₁) =
      throw_if-eq-ok (is_bad_metadata image)
        (runtime_error "invalid NV12 image metadata for X5 JPEG compression") _ h in
    let (y, ey, h₂) = >>=-eq-ok (checked_product image.step image.height _) _ h₁ in
    let (uv, euv, h₃) = >>=-eq-ok (checked_product image.step chroma _) _ h₂ in
    let (fits, h₄) =
      throw_if-eq-ok (ltb (size_max - uv) y) (runtime_error "invalid NV12 image byte dimensions") _
        h₃ in
    let (enough, h₅) =
      throw_if-eq-ok (ltb image.size ((y + uv) % 2 ^ 64))
        (runtime_error "NV12 image data does not cover visible rows") _ h₄ in
    let (span, espan, h₆) = >>=-eq-ok (plane_span image y uv) _ h₅ in
    let luma = (checked_product_iff image.step image.height y _).0 ey in
    let half = (checked_product_iff image.step chroma uv _).0 euv in
    let small : y + uv < 2 ^ 64 = ground (arith, fits, luma, half) in
    let covered : y + uv ≤ image.size = ground (arith, enough, small) in
    let located = plane_span_lem image y uv span small luma.0 covered espan in
    subst (InBounds image) (cc h₆)
      (located-InBounds image uv span (metadata image valid) half.0 located.0 located.1)

-- An image whose data holds exactly the visible rows of both planes is accepted, with the chroma plane
-- right behind the luma rows, provided that its encoding is nv12, its sides are even, positive and at
-- most 2 ^ 31 - 1, and its stride is at least its width and at most 2 ^ 31 - 1.
pub compact_accepted :
    (image : Image)
    → is_bad_metadata image ≡ false
    → image.size ≡ image.step * image.height + image.step * (image.height / 2)
    → validate_and_locate_planes image
      ≡ ok (record {
        y_data = 0;
        uv_data = image.step * image.height;
        width = image.width;
        height = image.height;
        source_stride = image.step;
        chroma_height = image.height / 2;
      })
unfolding validate_and_locate_planes plane_span
compact_accepted image valid e =
    let (small_step, small_height) = sizes image valid in
    let y = image.step * image.height in
    let uv = image.step * (image.height / 2) in
    let product : y ≤ int_max * image.height = mul-le-mul_right image.height small_step in
    let product' : uv ≤ int_max * (image.height / 2) =
      mul-le-mul_right (image.height / 2) small_step in
    let luma =
      (checked_product_iff image.step image.height y "invalid NV12 luma plane dimensions").1
        (refl, omega (arith, product, small_height)) in
    let half =
      (checked_product_iff image.step (image.height / 2) uv
          "invalid NV12 chroma plane dimensions").1
        (refl, omega (arith, product', small_height)) in
    rw (valid, luma, half) (ground (arith, e, product, product', small_height))
