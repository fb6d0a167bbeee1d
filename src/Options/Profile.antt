-- ===== src/Options/Profile.antt =====
-- ConfigureSc132TriggerMode and ConfigureSc132SensorProfile: what libsc132 finds in the environment.
use text.Mathlib.TextEquality.{eq_iff}
use robo_baton_4p_ros2_demo.Prelude.{
  ◌≡◌, refl, sym, ap, ◌∙◌, ◌≢◌, not, Option, some, pos, ok, arith, String, ◌==◌, ◌==ℤ◌,
  if◌then◌else◌, >>=-eq-ok, ◌>>=◌, Bool-cases, inl, inr,
}
use robo_baton_4p_ros2_demo.Options.{
  Options, Environment, camera_mask_pop_count, set_or_throw, configure_sc132_trigger_mode,
  configure_sc132_sensor_profile, is_configured, single_sensor_profile, sc132_sensor_profile_env,
  sc132_trigger_mode_env,
}

-- What POSIX says of a `setenv` that returns 0: the variable has the value, and every other variable
-- is as it was.
pub record SetenvLaws (c : Environment) : Type 0 where
  pub sets :
      (name value : String) (env : c.Env)
      → (c.setenv name value env).0 ≡ pos 0
      → c.getenv name (c.setenv name value env).1 ≡ some value
  pub keeps :
      (name value other : String) (env : c.Env)
      → (c.setenv name value env).0 ≡ pos 0
      → other ≢ name
      → c.getenv other (c.setenv name value env).1 ≡ c.getenv other env

-- The profile that libsc132 must find: one that the user chose stays, several cameras choose none,
-- and a single camera gets the 30 frames profile at 30 frames and the 60 frames base otherwise.
pub chosen_profile : Options → Option String → Option String
chosen_profile options current =
    if is_configured current
    then current
    else if not (camera_mask_pop_count options.camera_mask == 1)
    then current
    else some (
        if options.fps ==ℤ pos 30
        then "sc132gs_linear_1088x1280_raw10_30fps_1lane"
        else "sc132gs_linear_1088x1280_raw10_60fps_1lane")

mode_ne : sc132_trigger_mode_env ≢ sc132_sensor_profile_env
mode_ne = ground (arith, eq_iff sc132_trigger_mode_env sc132_sensor_profile_env)

module _ (c : Environment) (laws : SetenvLaws c) where
  open c use {Env, getenv, setenv}

  set_or_throw-ok :
      (name value what : String) (env : Env) {env' : Env}
      → set_or_throw c name value what env ≡ ok env'
      → ((setenv name value env).0 ≡ pos 0) × (env' ≡ (setenv name value env).1)
  unfolding set_or_throw
  set_or_throw-ok name value what env h = ground arith

  -- A successful call leaves the profile variable with the chosen profile, and every other variable
  -- as it was.
  pub configure_sc132_sensor_profile_lem :
      (o : Options) (env : Env) {env' : Env}
      → configure_sc132_sensor_profile c o env ≡ ok env'
      → (getenv sc132_sensor_profile_env env'
          ≡ chosen_profile o (getenv sc132_sensor_profile_env env))
        × ((other : String)
            → other ≢ sc132_sensor_profile_env
            → getenv other env' ≡ getenv other env)
  unfolding configure_sc132_sensor_profile chosen_profile
  configure_sc132_sensor_profile_lem o env {env' = env'} h =
      elim (Bool-cases (is_configured (getenv sc132_sensor_profile_env env))) [
        | inl set ↦ let same : env' ≡ env = ground arith in rw (same, set) (refl, λ other ne. refl)
        | inr unset ↦ elim (Bool-cases (camera_mask_pop_count o.camera_mask == 1)) [
          | inl single ↦
              let profile = single_sensor_profile o in
              let (status, done) =
                set_or_throw-ok sc132_sensor_profile_env profile "set SC132_SENSOR_PROFILE failed"
                  env {env' = env'} (ground arith) in
              rw (done, unset, single)
                (
                  laws.sets sc132_sensor_profile_env profile env status,
                  λ other ne. laws.keeps sc132_sensor_profile_env profile other env status ne,
                )
          | inr several ↦
              let same : env' ≡ env = ground arith in
              rw (same, unset, several) (refl, λ other ne. refl)
        ]
      ]

  set_trigger :
      (o : Options) (env : Env) {env' : Env}
      → configure_sc132_trigger_mode c o env ≡ ok env'
      → (getenv sc132_trigger_mode_env env' ≡ some o.trigger_mode)
        × ((other : String) → other ≢ sc132_trigger_mode_env → getenv other env' ≡ getenv other env)
  unfolding configure_sc132_trigger_mode
  set_trigger o env {env' = env'} h =
      let (status, done) =
        set_or_throw-ok sc132_trigger_mode_env o.trigger_mode "set SC132_TRIGGER_MODE failed" env
          {env' = env'} (ground arith) in
      rw done (
        laws.sets sc132_trigger_mode_env o.trigger_mode env status,
        λ other ne. laws.keeps sc132_trigger_mode_env o.trigger_mode other env status ne,
      )

  -- After both calls, in the order in which the publisher makes them, libsc132 finds the trigger mode
  -- of the options and the chosen profile, and every other variable is as it was.
  pub configure_both :
      (o : Options) (env : Env) {env' : Env}
      → (configure_sc132_trigger_mode c o env >>= configure_sc132_sensor_profile c o) ≡ ok env'
      → (getenv sc132_trigger_mode_env env' ≡ some o.trigger_mode)
        × (getenv sc132_sensor_profile_env env'
            ≡ chosen_profile o (getenv sc132_sensor_profile_env env))
        × ((other : String)
            → other ≢ sc132_trigger_mode_env
            → other ≢ sc132_sensor_profile_env
            → getenv other env' ≡ getenv other env)
  configure_both o env {env' = env'} h =
      let (mid, first, second) =
        >>=-eq-ok (configure_sc132_trigger_mode c o env) (configure_sc132_sensor_profile c o) h in
      let (mode, kept) = set_trigger o env first in
      let (profile, kept') = configure_sc132_sensor_profile_lem o mid second in
      (
        kept' sc132_trigger_mode_env mode_ne ∙ mode,
        profile ∙ ap (chosen_profile o) (kept sc132_sensor_profile_env (λ e. mode_ne (sym e))),
        λ other ne ne'. kept' other ne' ∙ kept other ne,
      )
