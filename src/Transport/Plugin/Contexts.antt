-- ===== src/Transport/Plugin/Contexts.antt =====
-- The quality of the contexts that the plugin makes in the codec.
use robo_baton_4p_ros2_demo.Prelude.{
  ℕ, ◌≡◌, refl, sym, ap, ◌∙◌, true, Option, some, List, [], ◌∷◌, ℤ, pos, leb_ℤ, Result, ok, throw,
  ◌>>=◌, >>=-eq-ok, arith, String,
}
use robo_baton_4p_ros2_demo.Nv12.{Image, Nv12Planes, validate_and_locate_planes}
use robo_baton_4p_ros2_demo.Nv12.Codec.{
  CodecCall, initialize, dequeue_input, queue_input, dequeue_output, Encoder, CodecReplies, reset,
  start_context, initialize_context, ensure_context, return_output, take_output, queue_copied,
  encode_planes, reset_if_thrown, encode_in, encode_located, encode, new_encoder,
}
use robo_baton_4p_ros2_demo.Transport.{
  NodeInterface, configure_image_transport_publisher, declare_jpeg_quality,
}
use robo_baton_4p_ros2_demo.Transport.Laws.{ParameterLaws, IsFree}
use robo_baton_4p_ros2_demo.Transport.Quality.{quality_name, configured_quality}
use robo_baton_4p_ros2_demo.Transport.Plugin.{Publishing, publish_encoded, publish, advertise_impl}

-- Every context was initialized with the quality.
unfoldable pub UseQuality : ℤ → List CodecCall → Type 0
UseQuality q [] = Unit
UseQuality q (initialize p succeeded ∷ rest) = (p.quality_factor ≡ q) × UseQuality q rest
UseQuality q (_ ∷ rest) = UseQuality q rest

-- The encoder has the quality, and so have its contexts.
abbrev pub HasQuality : ℤ → Encoder → Type 0
HasQuality q e = (e.jpeg_quality ≡ q) × UseQuality q e.calls

reset-HasQuality : (q : ℤ) (e : Encoder) → HasQuality q e → HasQuality q (reset e)
unfolding reset UseQuality
reset-HasQuality q e h = ground (arith, h)

ensure_context-HasQuality :
    (q : ℤ) (width height : ℕ) (r : CodecReplies) (e : Encoder)
    → HasQuality q e
    → HasQuality q (ensure_context width height r e).0
unfolding ensure_context initialize_context start_context reset UseQuality
ensure_context-HasQuality q width height r e h = ground (arith, h)

return_output-UseQuality :
    (q : ℤ) (r : CodecReplies) (calls : List CodecCall) (jpeg : Result (List ℕ))
    → UseQuality q calls
    → UseQuality q (return_output r calls jpeg).0
unfolding UseQuality
return_output-UseQuality q r calls (throw e) h = h
return_output-UseQuality q r calls (ok jpeg) h = h

take_output-UseQuality :
    (q : ℤ) (r : CodecReplies) (calls : List CodecCall) (x : Result (Unit {0}))
    → UseQuality q calls
    → UseQuality q (take_output r calls x).0
unfolding UseQuality
take_output-UseQuality q r calls (throw e) h = h
take_output-UseQuality q r calls (ok x) h =
    return_output-UseQuality q r (dequeue_output ∷ calls) _ h

queue_copied-UseQuality :
    (q : ℤ) (r : CodecReplies) (calls : List CodecCall) (x : Result (Unit {0}))
    → UseQuality q calls
    → UseQuality q (queue_copied r calls x).0
unfolding UseQuality
queue_copied-UseQuality q r calls (throw e) h = h
queue_copied-UseQuality q r calls (ok x) h = take_output-UseQuality q r (queue_input ∷ calls) _ h

encode_planes-UseQuality :
    (q : ℤ) (planes : Nv12Planes) (r : CodecReplies) (calls : List CodecCall)
    → UseQuality q calls
    → UseQuality q (encode_planes planes r calls).0
unfolding encode_planes UseQuality
encode_planes-UseQuality q planes r calls h =
    queue_copied-UseQuality q r (dequeue_input ∷ calls) _ h

reset_if_thrown-HasQuality :
    (q : ℤ) (e : Encoder) (x : List CodecCall × Result (List ℕ))
    → e.jpeg_quality ≡ q
    → UseQuality q x.0
    → HasQuality q (reset_if_thrown e x).0
reset_if_thrown-HasQuality q e (calls, throw x) same h =
    reset-HasQuality q (record e { calls = calls }) (same, h)
reset_if_thrown-HasQuality q e (calls, ok jpeg) same h = (same, h)

encode_in-HasQuality :
    (q : ℤ) (planes : Nv12Planes) (r : CodecReplies) (x : Encoder × Result (Unit {0}))
    → HasQuality q x.0
    → HasQuality q (encode_in planes r x).0
encode_in-HasQuality q planes r (e, throw x) h = h
encode_in-HasQuality q planes r (e, ok x) (same, h) =
    reset_if_thrown-HasQuality q e (encode_planes planes r e.calls) same
      (encode_planes-UseQuality q planes r e.calls h)

encode_located-HasQuality :
    (q : ℤ) (r : CodecReplies) (e : Encoder) (planes : Result Nv12Planes)
    → HasQuality q e
    → HasQuality q (encode_located r e planes).0
encode_located-HasQuality q r e (throw x) h = h
encode_located-HasQuality q r e (ok planes) h =
    encode_in-HasQuality q planes r (ensure_context planes.width planes.height r e)
      (ensure_context-HasQuality q planes.width planes.height r e h)

encode-HasQuality :
    (q : ℤ) (image : Image) (r : CodecReplies) (e : Encoder)
    → HasQuality q e
    → HasQuality q (encode image r e).0
unfolding encode
encode-HasQuality q image r e h =
    encode_located-HasQuality q r e (validate_and_locate_planes image) h

publish_encoded-encoder :
    (p : Publishing) (x : Encoder × Result (List ℕ)) → (publish_encoded p x).encoder ≡ some x.0
publish_encoded-encoder p (e, throw x) = refl
publish_encoded-encoder p (e, ok jpeg) = refl

new_encoder-HasQuality : (q : ℤ) (e : Encoder) → new_encoder q ≡ ok e → HasQuality q e
unfolding new_encoder UseQuality
new_encoder-HasQuality q e h = ground (arith, h)

-- Images that are published one after the other, whatever becomes of each.
unfoldable pub publish_all : List Publishing → Option Encoder → Option Encoder
unfolding publish
publish_all [] encoder = encoder
publish_all (p ∷ rest) encoder = publish_all rest (publish p encoder).encoder

publish_all-HasQuality :
    (q : ℤ) (ps : List Publishing) (e : Encoder)
    → HasQuality q e
    → (e' : Encoder) × (publish_all ps (some e) ≡ some e') × HasQuality q e'
unfolding publish_all publish
publish_all-HasQuality q [] e h = (e, refl, h)
publish_all-HasQuality q (p ∷ rest) e h =
    let after = encode p.image p.replies e in
    let (e', all, last) =
      publish_all-HasQuality q rest after.0 (encode-HasQuality q p.image p.replies e h) in
    (e', ap (publish_all rest) (publish_encoded-encoder p after) ∙ all, last)

-- What an advertisement that returns made of the quality that it found.
advertised :
    (n : NodeInterface) (base : Result (Unit {0})) (topic : String) (quality : ℤ)
    (params last : n.Params) (plugin : Option Encoder)
    → declare_jpeg_quality n topic params ≡ ok (quality, params)
    → advertise_impl n base topic params ≡ ok (plugin, last)
    → (e : Encoder) × (plugin ≡ some e) × HasQuality quality e
unfolding advertise_impl
advertised n base topic quality params last plugin found h =
    let keep = λ (x : ℤ × n.Params) (e : Encoder). ok (some e, x.1) in
    let build = λ (x : ℤ × n.Params). new_encoder x.0 >>= keep x in
    let (done, based, rest) =
      >>=-eq-ok base (λ done. declare_jpeg_quality n topic params >>= build) h in
    let (x, declared, made) = >>=-eq-ok (declare_jpeg_quality n topic params) build rest in
    let same : x ≡ (quality, params) = cc (sym declared ∙ found) in
    let (e, new, kept) = >>=-eq-ok (new_encoder x.0) (keep x) made in
    let is : plugin ≡ some e = cc kept in
    (e, is, new_encoder-HasQuality quality e (ap (λ y. new_encoder y.0) (sym same) ∙ new))

-- Let rclcpp keep its parameters as documented, and let the quality be within 1 and 100. If the node was
-- started without a value for the quality of the topic, or has that parameter already, then a plugin that
-- is advertised after the camera publisher's configuration keeps an encoder of the configured quality,
-- whatever images it publishes: each context that it made in the codec has that quality.
pub plugin_quality :
    (n : NodeInterface) (laws : ParameterLaws n) (topic expanded : String) (quality : ℤ)
    (params params' last : n.Params) (base : Result (Unit {0})) (plugin : Option Encoder)
    (ps : List Publishing)
    → n.expand_topic_or_service_name topic ≡ ok expanded
    → leb_ℤ (pos 1) quality ≡ true
    → leb_ℤ quality (pos 100) ≡ true
    → IsFree n laws (quality_name n laws expanded) params
    → configure_image_transport_publisher n topic true quality params ≡ ok params'
    → advertise_impl n base expanded params' ≡ ok (plugin, last)
    → (e : Encoder) × (publish_all ps plugin ≡ some e)
      × (e.jpeg_quality ≡ quality)
      × UseQuality quality e.calls
plugin_quality n laws topic expanded quality params params' last base plugin ps names low high free
      configured h =
    let (found, listed) =
      configured_quality n laws topic expanded quality params params' names low high free
        configured in
    let (e, is, good) = advertised n base expanded quality params' last plugin found h in
    let (e', all, kept) = publish_all-HasQuality quality ps e good in
    (e', ap (publish_all ps) is ∙ all, kept.0, kept.1)
