-- ===== src/Nv12/Codec/Context.antt =====
-- What is made in the codec is given back, and what is started is stopped.
use robo_baton_4p_ros2_demo.Prelude.{
  ℕ, ◌+◌, ◌≡◌, refl, ◌∙◌, Bool, true, false, List, [], ◌∷◌, ℤ, Result, ok, throw, arith,
}
use robo_baton_4p_ros2_demo.Nv12.{Image, Nv12Planes, validate_and_locate_planes}
use robo_baton_4p_ros2_demo.Nv12.Codec.{
  CodecCall, initialize, start, pause, release, dequeue_input, queue_input, dequeue_output, Encoder,
  CodecReplies, reset, start_context, initialize_context, ensure_context, return_output,
  take_output, queue_copied, encode_planes, reset_if_thrown, encode_in, encode_located, encode,
  new_encoder,
}
use robo_baton_4p_ros2_demo.Nv12.Planes.{validate_and_locate_planes-InBounds}

unfoldable pub made : List CodecCall → ℕ
made [] = 0
made (initialize p true ∷ rest) = 1 + made rest
made (_ ∷ rest) = made rest

unfoldable pub released : List CodecCall → ℕ
released [] = 0
released (release ∷ rest) = 1 + released rest
released (_ ∷ rest) = released rest

unfoldable pub started : List CodecCall → ℕ
started [] = 0
started (start true ∷ rest) = 1 + started rest
started (_ ∷ rest) = started rest

unfoldable pub paused : List CodecCall → ℕ
paused [] = 0
paused (pause ∷ rest) = 1 + paused rest
paused (_ ∷ rest) = paused rest

abbrev pub flag : Bool → ℕ
flag false = 0
flag true = 1

pub record EncoderOk (e : Encoder) : Type 0 where
  pub contexts : made e.calls ≡ released e.calls + flag e.initialized
  pub runs : started e.calls ≡ paused e.calls + flag e.started
  pub running : e.started ≡ true → e.initialized ≡ true

reset-EncoderOk : (e : Encoder) → EncoderOk e → EncoderOk (reset e)
unfolding reset made released started paused
reset-EncoderOk e v = ground (arith, v)

ensure_context-EncoderOk :
    (width height : ℕ) (r : CodecReplies) (e : Encoder)
    → EncoderOk e
    → EncoderOk (ensure_context width height r e).0
unfolding ensure_context initialize_context start_context reset made released started paused
ensure_context-EncoderOk width height r e v = ground (arith, v)

-- Calls of the buffers.
abbrev SameCounts : List CodecCall → List CodecCall → Type 0
SameCounts xs ys =
    (made xs ≡ made ys)
    × (released xs ≡ released ys)
    × (started xs ≡ started ys)
    × (paused xs ≡ paused ys)

return_output-SameCounts :
    (r : CodecReplies) (calls : List CodecCall) (jpeg : Result (List ℕ))
    → SameCounts (return_output r calls jpeg).0 calls
unfolding made released started paused
return_output-SameCounts r calls (throw e) = (refl, refl, refl, refl)
return_output-SameCounts r calls (ok jpeg) = (refl, refl, refl, refl)

take_output-SameCounts :
    (r : CodecReplies) (calls : List CodecCall) (x : Result (Unit {0}))
    → SameCounts (take_output r calls x).0 calls
unfolding made released started paused
take_output-SameCounts r calls (throw e) = (refl, refl, refl, refl)
take_output-SameCounts r calls (ok x) = return_output-SameCounts r (dequeue_output ∷ calls) _

queue_copied-SameCounts :
    (r : CodecReplies) (calls : List CodecCall) (x : Result (Unit {0}))
    → SameCounts (queue_copied r calls x).0 calls
unfolding made released started paused
queue_copied-SameCounts r calls (throw e) = (refl, refl, refl, refl)
queue_copied-SameCounts r calls (ok x) = take_output-SameCounts r (queue_input ∷ calls) _

encode_planes-SameCounts :
    (planes : Nv12Planes) (r : CodecReplies) (calls : List CodecCall)
    → SameCounts (encode_planes planes r calls).0 calls
unfolding encode_planes made released started paused
encode_planes-SameCounts planes r calls = queue_copied-SameCounts r (dequeue_input ∷ calls) _

reset_if_thrown-EncoderOk :
    (e : Encoder) (x : List CodecCall × Result (List ℕ))
    → SameCounts x.0 e.calls
    → EncoderOk e
    → EncoderOk (reset_if_thrown e x).0
unfolding reset made released started paused
reset_if_thrown-EncoderOk e (calls, throw x) same v = ground (arith, same, v)
reset_if_thrown-EncoderOk e (calls, ok jpeg) same v = ground (arith, same, v)

encode_in-EncoderOk :
    (planes : Nv12Planes) (r : CodecReplies) (x : Encoder × Result (Unit {0}))
    → EncoderOk x.0
    → EncoderOk (encode_in planes r x).0
encode_in-EncoderOk planes r (e, throw x) v = v
encode_in-EncoderOk planes r (e, ok x) v =
    reset_if_thrown-EncoderOk e (encode_planes planes r e.calls)
      (encode_planes-SameCounts planes r e.calls) v

encode_located-EncoderOk :
    (r : CodecReplies) (e : Encoder) (planes : Result Nv12Planes)
    → EncoderOk e
    → EncoderOk (encode_located r e planes).0
encode_located-EncoderOk r e (throw x) v = v
encode_located-EncoderOk r e (ok planes) v =
    encode_in-EncoderOk planes r (ensure_context planes.width planes.height r e)
      (ensure_context-EncoderOk planes.width planes.height r e v)

-- Encodings, one after the other, whatever each returns or throws.
unfoldable pub encode_all : List (Image × CodecReplies) → Encoder → Encoder
unfolding encode
encode_all [] e = e
encode_all ((image, r) ∷ rest) e = encode_all rest (encode image r e).0

encode_all-EncoderOk :
    (images : List (Image × CodecReplies)) (e : Encoder)
    → EncoderOk e
    → EncoderOk (encode_all images e)
unfolding encode_all
encode_all-EncoderOk [] e v = v
encode_all-EncoderOk ((image, r) ∷ rest) e v =
    encode_all-EncoderOk rest (encode image r e).0
      (encode_located-EncoderOk r e (validate_and_locate_planes image) v)

new_encoder-EncoderOk : (quality : ℤ) (e : Encoder) → new_encoder quality ≡ ok e → EncoderOk e
unfolding new_encoder made released started paused
new_encoder-EncoderOk quality e h = ground (arith, h)

reset_rests : (e : Encoder) → ((reset e).initialized ≡ false) × ((reset e).started ≡ false)
unfolding reset
reset_rests e = (refl, refl)

-- Whatever images an encoder is given one after the other, and whatever the codec's calls return, once
-- the encoder is destroyed each context that was initialized was released, and each one that was started
-- was paused.
pub contexts_released :
    (quality : ℤ) (e : Encoder) (images : List (Image × CodecReplies))
    → new_encoder quality ≡ ok e
    → let calls = (reset (encode_all images e)).calls in
      (made calls ≡ released calls) × (started calls ≡ paused calls)
contexts_released quality e images h =
    let last = encode_all images e in
    let v =
      reset-EncoderOk last (encode_all-EncoderOk images e (new_encoder-EncoderOk quality e h)) in
    let (no_context, at_rest) = reset_rests last in
    (ground (arith, v.contexts, no_context), ground (arith, v.runs, at_rest))

-- A context that is started for the size of the planes.
abbrev IsReady : Nv12Planes → Encoder → Type 0
IsReady planes e = (e.started ≡ true) × (e.width ≡ planes.width) × (e.height ≡ planes.height)

ensure_context-IsReady :
    (planes : Nv12Planes) (r : CodecReplies) (e : Encoder)
    → (ensure_context planes.width planes.height r e).1 ≡ ok tt
    → IsReady planes (ensure_context planes.width planes.height r e).0
unfolding ensure_context initialize_context start_context
ensure_context-IsReady planes r e h = ground (arith, h)

reset_if_thrown-IsReady :
    (planes : Nv12Planes) (e : Encoder) (x : List CodecCall × Result (List ℕ)) (jpeg : List ℕ)
    → (reset_if_thrown e x).1 ≡ ok jpeg
    → IsReady planes e
    → IsReady planes (reset_if_thrown e x).0
reset_if_thrown-IsReady planes e (calls, throw x) jpeg h v = absurd (ground (arith, h))
reset_if_thrown-IsReady planes e (calls, ok x) jpeg h v = v

encode_in-IsReady :
    (planes : Nv12Planes) (r : CodecReplies) (x : Encoder × Result (Unit {0})) (jpeg : List ℕ)
    → (encode_in planes r x).1 ≡ ok jpeg
    → (x.1 ≡ ok tt → IsReady planes x.0)
    → IsReady planes (encode_in planes r x).0
encode_in-IsReady planes r (e, throw x) jpeg h v = absurd (ground (arith, h))
encode_in-IsReady planes r (e, ok tt) jpeg h v =
    reset_if_thrown-IsReady planes e (encode_planes planes r e.calls) jpeg h (v refl)

encode_located-IsReady :
    (image : Image) (r : CodecReplies) (e : Encoder) (planes : Result Nv12Planes) (jpeg : List ℕ)
    → validate_and_locate_planes image ≡ planes
    → (encode_located r e planes).1 ≡ ok jpeg
    → let e' = (encode_located r e planes).0 in
      (e'.started ≡ true) × (e'.width ≡ image.width) × (e'.height ≡ image.height)
encode_located-IsReady image r e (throw x) jpeg located h = absurd (ground (arith, h))
encode_located-IsReady image r e (ok planes) jpeg located h =
    let (width, height, step) = (validate_and_locate_planes-InBounds image planes located).same in
    let (running, wide, high) =
      encode_in-IsReady planes r (ensure_context planes.width planes.height r e) jpeg h
        (ensure_context-IsReady planes r e) in
    (running, wide ∙ width, high ∙ height)

-- An encoding that returns a JPEG leaves a context that is started for the size of its image, whatever
-- image the encoder had before.
pub encode_ready :
    (image : Image) (r : CodecReplies) (e : Encoder) (jpeg : List ℕ)
    → (encode image r e).1 ≡ ok jpeg
    → let e' = (encode image r e).0 in
      (e'.started ≡ true) × (e'.width ≡ image.width) × (e'.height ≡ image.height)
unfolding encode
encode_ready image r e jpeg h =
    encode_located-IsReady image r e (validate_and_locate_planes image) jpeg refl h
