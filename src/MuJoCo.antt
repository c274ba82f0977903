-- ===== src/MuJoCo.antt =====
-- The parts of MuJoCo's `mjModel` and `mjData` that the code reads or writes. MuJoCo is not in the
-- repository: a model is a parameter. An array is a function of its index; names are resolved by
-- `name2id`, which is negative for a name that is absent. An index that the code takes from a
-- negative `int` without a check is undefined there, and 0 here (`pos_part`).
use nusim.Base.{
  ℕ, zero, suc, ◌+◌, ◌≤◌, ◌<◌, ◌≡◌, refl, ◌∙◌, subst, ◌⊎◌, inl, inr, Bool, some, List, [], ◌∷◌,
  arith, ◌==◌, if◌then◌else◌, length, get_elem?, ℤ,
}
use Prim.Native.String.{String}

pub data Kind : Type 0 where
  body joint geom actuator site sensor key camera : Kind

pub data JointType : Type 0 where
  free ball slide hinge : JointType

pub record Model (D : Type 0) : Type 0 where
  pub name2id : Kind → String → ℤ
  pub nbody : ℕ
  pub njnt : ℕ
  pub ngeom : ℕ
  pub nq : ℕ
  pub timestep : D
  pub gravity : ℕ → D
  pub body_jntnum : ℕ → ℕ
  pub body_jntadr : ℕ → ℕ
  pub body_subtreemass : ℕ → D
  pub jnt_type : ℕ → JointType
  pub jnt_qposadr : ℕ → ℕ
  pub jnt_dofadr : ℕ → ℕ
  pub jnt_bodyid : ℕ → ℕ
  pub geom_bodyid : ℕ → ℕ
  pub geom_pos : ℕ → D
  pub geom_size : ℕ → D
  pub geom_priority : ℕ → ℕ
  pub geom_friction : ℕ → D
  pub geom_solref : ℕ → D
  pub actuator_forcelimited : ℕ → Bool
  pub actuator_forcerange : ℕ → D
  pub sensor_adr : ℕ → ℕ
  pub key_qpos : ℕ → D

pub record Data (D : Type 0) : Type 0 where
  pub time : D
  pub qpos : ℕ → D
  pub qvel : ℕ → D
  pub qacc : ℕ → D
  pub ctrl : ℕ → D
  pub actuator_force : ℕ → D
  pub sensordata : ℕ → D
  pub xpos : ℕ → D
  pub xquat : ℕ → D
  pub xmat : ℕ → D
  pub cvel : ℕ → D

-- MuJoCo's functions on small vectors and quaternions, each a function of the index.
pub record Mju (D : Type 0) : Type 0 where
  pub rot_vec_quat : (ℕ → D) → (ℕ → D) → ℕ → D
  pub mul_quat : (ℕ → D) → (ℕ → D) → ℕ → D
  pub axis_angle_quat : (ℕ → D) → D → ℕ → D
  pub mul_mat_vec : (ℕ → D) → (ℕ → D) → ℕ → D
  pub mul_mat_t_vec : (ℕ → D) → (ℕ → D) → ℕ → D

module _ {ℓ} {A : Type ℓ} where
  -- a[i] = v
  abbrev pub write : (ℕ → A) → ℕ → A → ℕ → A
  write a i v j = if j == i then v else a j

  -- Consecutive writes from index `i` on.
  abbrev pub write_all : (ℕ → A) → ℕ → List A → ℕ → A
  write_all a i [] = a
  write_all a i (v ∷ vs) = write_all (write a i v) (suc i) vs

  -- An index below or past the written range keeps its value.
  pub write_all-below : (a : ℕ → A) (i : ℕ) (vs : List A) (j : ℕ) → j < i → write_all a i vs j ≡ a j
  write_all-below a i [] j h = refl
  write_all-below a i (v ∷ vs) j h =
      write_all-below (write a i v) (suc i) vs j (omega arith) ∙ ground arith

  pub write_all-above :
      (a : ℕ → A) (i : ℕ) (vs : List A) (j : ℕ) → i + length vs ≤ j → write_all a i vs j ≡ a j
  write_all-above a i [] j h = refl
  write_all-above a i (v ∷ vs) j h =
      write_all-above (write a i v) (suc i) vs j (omega arith) ∙ ground arith

  pub write_all-at :
      (a : ℕ → A) (i : ℕ) (vs : List A) (k : ℕ) (v : A)
      → get_elem? vs k ≡ some v
      → write_all a i vs (i + k) ≡ v
  write_all-at a i [] k v h = cc
  write_all-at a i (x ∷ vs) zero v h =
      subst (λ j. write_all (write a i x) (suc i) vs j ≡ v) (omega arith)
        (write_all-below (write a i x) (suc i) vs i (omega arith) ∙ ground arith)
  write_all-at a i (x ∷ vs) (suc k) v h =
      subst (λ j. write_all (write a i x) (suc i) vs j ≡ v) (omega arith)
        (write_all-at (write a i x) (suc i) vs k v h)

-- An index outside the `size` entries from `adr` on.
abbrev pub Outside : ℕ → ℕ → ℕ → Type 0
Outside adr size i = (i < adr) ⊎ (adr + size ≤ i)

pub write_all-Outside {ℓ} :
    {A : Type ℓ} (a : ℕ → A) (adr : ℕ) (vs : List A) (i : ℕ)
    → Outside adr (length vs) i
    → write_all a adr vs i ≡ a i
write_all-Outside a adr vs i (inl h) = write_all-below a adr vs i h
write_all-Outside a adr vs i (inr h) = write_all-above a adr vs i h
