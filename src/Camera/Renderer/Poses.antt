-- ===== src/Camera/Renderer/Poses.antt =====
-- The head pose in shared memory is the one that the simulation publishes.
use nusim.Base.{
  ℕ, ◌+◌, ◌*◌, ◌%◌, ◌^◌, ◌≡◌, refl, sym, ap, ◌∙◌, fun_ext, true, Option, some, [], ◌∷◌, get_or, ℤ,
  pos, pos_part,
}
use nusim.Double.{Double, nought}
use nusim.MuJoCo.{Data, Mju}
use nusim.Simulation.Core.{SimCore, Engine}
use nusim.Simulation.Snapshot.{HeadPose, head_in_footprint, make_head, entries, vec3}
use nusim.Robot.ModelMap.{ModelMap}
use nusim.Simulation.Loop.{StepController, make_snapshot}
use nusim.Camera.PoseWriter.{SharedPose, publish_pose}
use nusim.Camera.Renderer.{Renderer, round_pose, xyzw, publish_round, render_round}

module _ {D S I : Type 0} ⦃f : Double D⦄ (u : Mju D) (e : Engine D) (k : StepController D S I) where
  -- The two ways to the head's pose meet.
  make_head-round_pose :
      (d : Data D) (map_ : ModelMap) (id : ℤ) (head : ℕ)
      → map_.root_qpos_adr ≡ pos 0
      → id ≡ pos head
      → make_head u d map_ id ≡ round_pose u d head
  unfolding make_head round_pose
  make_head-round_pose d map_ id head root same =
      ap (make_head u d map_) same
      ∙ ap
          (λ (adr : ℤ).
            head_in_footprint u (entries d.xpos (3 * head)) (entries d.xquat (4 * head))
              (entries d.qpos (pos_part adr)) (entries d.qpos (pos_part adr + 3)))
          root

  publish_round-eq :
      (d : Data D) (head : ℕ) (p : SharedPose D)
      → publish_round u d head (some p)
        ≡ some (record p {
          position = (round_pose u d head).position;
          orientation = xyzw (round_pose u d head).quat;
          sequence = (p.sequence + 1) % 2 ^ 64;
        })
  unfolding publish_round publish_pose round_pose head_in_footprint
  publish_round-eq d head p = ap some (ap shown (fun_ext same))
    where
      shown : (ℕ → D) → SharedPose D
      shown position = record p {
        position = position;
        orientation = xyzw (round_pose u d head).quat;
        sequence = (p.sequence + 1) % 2 ^ 64;
      }

      same :
          (i : ℕ)
          → vec3
              ((round_pose u d head).position 0)
              ((round_pose u d head).position 1)
              ((round_pose u d head).position 2)
              i
            ≡ (round_pose u d head).position i
      same i = refl

  -- If the robot's free joint is the first of the model and the core has the head's body: a round of
  -- a renderer with a pose segment leaves in it the head's pose of the snapshot that is made of the
  -- same data, with the quaternion in the order x, y, z, w, and counts the sequence up by one.
  pub render_round-head :
      (float_bits : D → ℕ) (core : SimCore D) (ctrl : Option S) (d : Data D) (steps : ℕ) (rtf : D)
      (raw : ℕ → ℕ) (r : Renderer D) (p : SharedPose D)
      → core.map.root_qpos_adr ≡ pos 0
      → core.head_body_id ≡ pos r.head_body_id
      → r.pose ≡ some p
      → let s = make_snapshot u e k core ctrl d steps rtf in
        (s.head.valid ≡ true)
        × ((render_round float_bits u d raw r).0.pose
            ≡ some (record p {
              position = s.head.position;
              orientation = λ i.
                  get_or
                    (s.head.quat 1 ∷ s.head.quat 2 ∷ s.head.quat 3 ∷ s.head.quat 0 ∷ [])
                    i
                    nought;
              sequence = (p.sequence + 1) % 2 ^ 64;
            }))
  unfolding render_round round_pose make_snapshot head_in_footprint
  render_round-head float_bits core ctrl d steps rtf raw r p root head pose =
      let same = make_head-round_pose d core.map core.head_body_id r.head_body_id root head in
      (
        ap (λ (h : HeadPose D). h.valid) same,
        ap (publish_round u d r.head_body_id) pose
            ∙ (publish_round-eq d r.head_body_id p ∙ ap shown (sym same)),
      )
    where
      shown : HeadPose D → Option (SharedPose D)
      shown h = some (record p {
        position = h.position;
        orientation = xyzw h.quat;
        sequence = (p.sequence + 1) % 2 ^ 64;
      })
