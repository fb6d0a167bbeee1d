-- ===== src/Transport/Publishers/Rounds.antt =====
-- What the rounds of the loop of CameraPublisher::Impl make of the publishers, round by round.
use robo_baton_4p_ros2_demo.Prelude.{
  ℕ, suc, ◌+◌, ◌≡◌, inl, inr, refl, ap, ◌∙◌, Bool, true, false, ◌&&◌, ◌||◌, Option, some, ltb, leb,
  ◌==◌, if◌then◌else◌, pos, Bool-cases, ==_iff, arith, String,
}
use robo_baton_4p_ros2_demo.Options.{camera_mask_contains}
use robo_baton_4p_ros2_demo.Camera.Core.{max_cameras}
use robo_baton_4p_ros2_demo.Camera.Publish.{Config, has_image_publisher, has_camera_info_publisher}
use robo_baton_4p_ros2_demo.Transport.{image_topic_suffix, camera_info_topic_suffix, camera_topic}
use robo_baton_4p_ros2_demo.Transport.Publishers.{Publishers, with_topic}

-- The topic of a publisher that is made, or what there was before.
abbrev pub topic_if : Bool → ℕ → String → Option String → Option String
topic_if made id suffix before = if made then some (camera_topic id suffix) else before

pub with_topic-topic_if :
    (topics : ℕ → Option String) (id : ℕ) (suffix : String) (other : ℕ)
    → with_topic topics id (camera_topic id suffix) other
      ≡ topic_if (other == id) other suffix (topics other)
with_topic-topic_if topics id suffix other = elim (Bool-cases (other == id)) [
  | inl same ↦ rw (same, (==_iff other id).0 same) refl
  | inr different ↦ rw different refl
]

-- A camera of the mask from one camera up to another.
abbrev pub in_rounds : Config → ℕ → ℕ → ℕ → Bool
in_rounds config from to id =
    leb from id && ltb id to && camera_mask_contains config.options.camera_mask (pos id)

pub in_one_round :
    (config : Config) (id other : ℕ)
    → camera_mask_contains config.options.camera_mask (pos id) ≡ true
    → in_rounds config id (id + 1) other ≡ (other == id)
in_one_round config id other enabled = elim (Bool-cases (other == id)) [
  | inl same ↦ let at : other ≡ id = (==_iff other id).0 same in rw at (ground (arith, enabled))
  | inr different ↦ ground (arith, different)
]

-- What the rounds for the cameras from one up to another did.
pub record Made (config : Config) (from to : ℕ) (before after : Publishers) : Type 0 where
  pub image :
      (id : ℕ)
      → after.image id
        ≡ topic_if (in_rounds config from to id) id image_topic_suffix (before.image id)
  pub camera_info :
      (id : ℕ)
      → after.camera_info id
        ≡ topic_if
            (config.publish_camera_info && in_rounds config from to id)
            id
            camera_info_topic_suffix
            (before.camera_info id)

pub not_in_round :
    (config : Config) (id other : ℕ)
    → camera_mask_contains config.options.camera_mask (pos id) ≡ false
    → in_rounds config id (id + 1) other ≡ false
not_in_round config id other skipped = elim (Bool-cases (other == id)) [
  | inl same ↦ let at : other ≡ id = (==_iff other id).0 same in rw at (ground (arith, skipped))
  | inr different ↦ ground (arith, different)
]

pub in_no_round : (config : Config) (id other : ℕ) → in_rounds config id (id + 0) other ≡ false
in_no_round config id other = ground arith

pub in_rounds-join :
    (config : Config) (id rounds other : ℕ)
    → in_rounds config id (id + suc rounds) other
      ≡ (in_rounds config (id + 1) (id + 1 + rounds) other || in_rounds config id (id + 1) other)
in_rounds-join config id rounds other = ground arith

-- Rounds that make nothing.
pub Made-none :
    (config : Config) (from to : ℕ) (pubs : Publishers)
    → ((id : ℕ) → in_rounds config from to id ≡ false)
    → Made config from to pubs pubs
Made-none config from to pubs none_made = record {
  image = λ id. rw (none_made id) refl;
  camera_info = λ id. ground (arith, none_made id);
}

pub topic_if-or :
    (a b : Bool) (id : ℕ) (suffix : String) (before : Option String)
    → topic_if a id suffix (topic_if b id suffix before) ≡ topic_if (a || b) id suffix before
topic_if-or false b id suffix before = refl
topic_if-or true b id suffix before = refl

pub and-or : (p a b : Bool) → (p && (a || b)) ≡ ((p && a) || (p && b))
and-or false a b = refl
and-or true a b = refl

pub topic_if_trans :
    (a b c : Bool) (id : ℕ) (suffix : String) (before mid last : Option String)
    → c ≡ (a || b)
    → last ≡ topic_if a id suffix mid
    → mid ≡ topic_if b id suffix before
    → last ≡ topic_if c id suffix before
topic_if_trans a b c id suffix before mid last joined l m =
    rw (l, m, joined) (topic_if-or a b id suffix before)

-- Rounds after a round.
pub Made-join :
    (config : Config) (id rounds : ℕ) (pubs mid last : Publishers)
    → Made config id (id + 1) pubs mid
    → Made config (id + 1) (id + 1 + rounds) mid last
    → Made config id (id + suc rounds) pubs last
Made-join config id rounds pubs mid last one more =
    let later = in_rounds config (id + 1) (id + 1 + rounds) in
    let first = in_rounds config id (id + 1) in
    let all = in_rounds config id (id + suc rounds) in
    let wanted = config.publish_camera_info in
    record {
      image = λ other.
          topic_if_trans (later other) (first other) (all other) other image_topic_suffix
            (pubs.image other) (mid.image other) (last.image other)
            (in_rounds-join config id rounds other) (more.image other) (one.image other);
      camera_info = λ other.
          topic_if_trans (wanted && later other) (wanted && first other) (wanted && all other) other
            camera_info_topic_suffix (pubs.camera_info other) (mid.camera_info other)
            (last.camera_info other)
            (ap (λ b. wanted && b) (in_rounds-join config id rounds other)
              ∙ and-or wanted (later other) (first other))
            (more.camera_info other) (one.camera_info other);
    }

pub all_rounds :
    (config : Config) (id : ℕ) → in_rounds config 0 max_cameras id ≡ has_image_publisher config id
all_rounds config id = ground arith

pub all_info_rounds :
    (config : Config) (id : ℕ)
    → (config.publish_camera_info && in_rounds config 0 max_cameras id)
      ≡ has_camera_info_publisher config id
all_info_rounds config id = ground arith
