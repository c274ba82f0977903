-- ===== src/Sdk/Odometry.antt =====
-- The errors of the odometry (mujoco/module/SdkBridge/src/OdometryModel.cpp and .hpp). The numbers
-- that `normal_(rng_)` gives are a parameter, a function of how many have been drawn.
use nusim.Base.{
  ℕ, ◌+◌, ◌≡◌, refl, inl, inr, Bool, true, false, not, ◌||◌, Option, none, some, ◌==◌,
  if◌then◌else◌, Bool-cases, or_default, pos,
}
use nusim.Double.{Double, nought, unit, two}
use nusim.Simulation.Snapshot.{vec3}

-- OdometryModel::Config; an array is a function of its index, 0 to 2.
pub record Config (D : Type 0) : Type 0 where
  pub enabled : Bool
  pub scale : ℕ → D
  pub velocity_noise_density : ℕ → D
  pub bias_sigma : ℕ → D
  pub bias_time_constant : ℕ → D
  pub seed : ℕ

pub record Estimate (D : Type 0) : Type 0 where
  pub x : D
  pub y : D
  pub yaw : D
  pub velocity : ℕ → D
  pub velocity_variance : ℕ → D

-- The members, with the number of draws so far.
pub record OdometryModel (D : Type 0) : Type 0 where
  pub initialised : Bool
  pub t : D
  pub bias : ℕ → D
  pub estimate : Estimate D
  pub drawn : ℕ

-- The arguments of `update`.
pub record Truth (D : Type 0) : Type 0 where
  pub t : D
  pub x : D
  pub y : D
  pub yaw : D
  pub vx_world : D
  pub vy_world : D
  pub wz : D

-- odometry.yaml: `none` is a key that is absent.
pub record OdometryYaml (D : Type 0) : Type 0 where
  pub enabled : Option Bool
  pub scale : Option (ℕ → D)
  pub velocity_noise_density : Option (ℕ → D)
  pub bias_sigma : Option (ℕ → D)
  pub bias_time_constant : Option (ℕ → D)
  pub seed : Option ℕ

module _ {D : Type 0} ⦃f : Double D⦄ where
  open f use {add, sub, mul, div, neg, le, dec, of_int, sin, cos, exp, sqrt, remainder, pi}

  unfoldable pub triple : Option (ℕ → D) → (ℕ → D) → ℕ → D
  triple none fallback = fallback
  triple (some node) fallback = vec3 (node 0) (node 1) (node 2)

  unfoldable pub load_config : OdometryYaml D → Config D
  unfolding triple
  load_config node = record {
    enabled = or_default node.enabled false;
    scale = triple node.scale (vec3 unit unit unit);
    velocity_noise_density = triple node.velocity_noise_density (vec3 nought nought nought);
    bias_sigma = triple node.bias_sigma (vec3 nought nought nought);
    bias_time_constant =
        triple node.bias_time_constant (vec3 (dec (pos 10) 0) (dec (pos 10) 0) (dec (pos 10) 0));
    seed = or_default node.seed 0;
  }

  -- As it is constructed.
  unfoldable pub fresh_model : OdometryModel D
  fresh_model = record {
    initialised = false;
    t = nought;
    bias = λ i. nought;
    estimate = record {
      x = nought;
      y = nought;
      yaw = nought;
      velocity = λ i. nought;
      velocity_variance = λ i. nought;
    };
    drawn = 0;
  }

  -- The true velocity in the frame that is turned by the yaw alone.
  unfoldable pub true_velocity : Truth D → ℕ → D
  true_velocity w =
      let c = cos w.yaw in
      let s = sin w.yaw in
      vec3 (add (mul c w.vx_world) (mul s w.vy_world))
        (add (mul (neg s) w.vx_world) (mul c w.vy_world)) w.wz

  -- The estimate of the truth as it is.
  unfoldable pub exact : Truth D → Estimate D
  unfolding true_velocity
  exact w = record {
    x = w.x;
    y = w.y;
    yaw = w.yaw;
    velocity = true_velocity w;
    velocity_variance = λ i. nought;
  }

  unfoldable pub restart : (ℕ → D) → Config D → Truth D → OdometryModel D → OdometryModel D
  restart normals cfg w m = record {
    initialised = true;
    t = w.t;
    bias = λ i. mul (cfg.bias_sigma i) (normals (m.drawn + i));
    estimate = exact w;
    drawn = m.drawn + 3;
  }

  abbrev pub set_at : (ℕ → D) → ℕ → D → ℕ → D
  set_at a i v j = if j == i then v else a j

  -- One round of the loop over the three velocities.
  unfoldable pub corrupt : (ℕ → D) → Config D → (ℕ → D) → D → ℕ → OdometryModel D → OdometryModel D
  corrupt normals cfg v_true dt i m =
      let a = exp (div (neg dt) (cfg.bias_time_constant i)) in
      let bias =
        add (mul a (m.bias i))
          (mul (mul (cfg.bias_sigma i) (sqrt (sub unit (mul a a)))) (normals m.drawn)) in
      let sample_sigma = div (cfg.velocity_noise_density i) (sqrt dt) in
      let velocity =
        add (add (mul (cfg.scale i) (v_true i)) bias) (mul sample_sigma (normals (m.drawn + 1))) in
      record m {
        bias = set_at m.bias i bias;
        estimate = record (m.estimate) {
          velocity = set_at m.estimate.velocity i velocity;
          velocity_variance = set_at m.estimate.velocity_variance i (mul sample_sigma sample_sigma);
        };
        drawn = m.drawn + 2;
      }

  -- The pose, moved with the estimated velocity.
  unfoldable pub integrate : D → Estimate D → Estimate D
  integrate dt e =
      let yaw_mid = add e.yaw (mul (mul (dec (pos 5) 1) (e.velocity 2)) dt) in
      let cm = cos yaw_mid in
      let sm = sin yaw_mid in
      record e {
        x = add e.x (mul (sub (mul cm (e.velocity 0)) (mul sm (e.velocity 1))) dt);
        y = add e.y (mul (add (mul sm (e.velocity 0)) (mul cm (e.velocity 1))) dt);
        yaw = remainder (add e.yaw (mul (e.velocity 2) dt)) (mul two pi);
      }

  unfoldable pub advance : (ℕ → D) → Config D → Truth D → D → OdometryModel D → OdometryModel D
  unfolding corrupt integrate
  advance normals cfg w dt m =
      let v_true = true_velocity w in
      let m0 = corrupt normals cfg v_true dt 0 (record m { t = w.t }) in
      let m1 = corrupt normals cfg v_true dt 1 m0 in
      let m2 = corrupt normals cfg v_true dt 2 m1 in
      record m2 { estimate = integrate dt m2.estimate }

  unfoldable pub update : (ℕ → D) → Config D → Truth D → OdometryModel D → OdometryModel D
  update normals cfg w m =
      let dt = sub w.t m.t in
      if not cfg.enabled || not m.initialised || le dt nought
      then restart normals cfg w m
      else advance normals cfg w dt m

  -- A disabled model reports the truth, whatever came before.
  pub update-disabled :
      (normals : ℕ → D) (cfg : Config D) (w : Truth D) (m : OdometryModel D)
      → cfg.enabled ≡ false
      → (update normals cfg w m).estimate ≡ exact w
  unfolding update restart
  update-disabled normals cfg w m h = rw h

  pub update-t :
      (normals : ℕ → D) (cfg : Config D) (w : Truth D) (m : OdometryModel D)
      → (update normals cfg w m).t ≡ w.t
  unfolding update restart advance
  update-t normals cfg w m =
      elim (Bool-cases (not cfg.enabled || not m.initialised || le (sub w.t m.t) nought)) [
        | inl e ↦ rw e refl
        | inr e ↦ rw e refl
      ]
