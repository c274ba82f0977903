-- ===== src/Simulation/Heartbeat.antt =====
-- The heartbeat line of mujoco/module/Simulation/src/Simulation.cpp: the reaction to a
-- `SimStateUpdate`, for what it keeps (`next_pose_log_`) and whether it logs.
use nusim.Base.{if-split, ◌≡◌, refl, subst, true, List, [], ◌∷◌, if◌then◌else◌, pos}
use nusim.Double.{Double, nought}

-- The member `next_pose_log_`, and the times of the lines logged so far, the latest first.
pub record Heartbeat (D : Type 0) : Type 0 where
  pub next_pose_log : D
  pub logged : List D

module _ {D : Type 0} ⦃f : Double D⦄ where
  open f use {add, le, dec}

  abbrev pub no_heartbeat : Heartbeat D
  no_heartbeat = record { next_pose_log = nought; logged = [] }

  abbrev pub after : D → D
  after t = add t (dec (pos 5) 0)

  unfoldable pub on_update : D → Heartbeat D → Heartbeat D
  on_update sim_time h =
      if le h.next_pose_log sim_time
      then record { next_pose_log = after sim_time; logged = sim_time ∷ h.logged }
      else h

  unfoldable pub on_updates : List D → Heartbeat D → Heartbeat D
  on_updates [] h = h
  on_updates (t ∷ ts) h = on_updates ts (on_update t h)

  -- The lines are apart: each, the latest first, comes at or past the time the one before sets.
  unfoldable pub Apart : List D → Type 0
  Apart [] = Unit
  Apart (t ∷ []) = Unit
  Apart (t ∷ s ∷ rest) = (le (after s) t ≡ true) × Apart (s ∷ rest)

  -- The next line is due at the time that the latest sets.
  unfoldable pub Beating : D → List D → Type 0
  unfolding Apart
  Beating next [] = next ≡ nought
  Beating next (t ∷ rest) = (next ≡ after t) × Apart (t ∷ rest)

  unfoldable pub IsBeating : Heartbeat D → Type 0
  IsBeating h = Beating h.next_pose_log h.logged

  line-Beating :
      (t next : D) (logged : List D)
      → Beating next logged
      → le next t ≡ true
      → Beating (after t) (t ∷ logged)
  unfolding Beating Apart
  line-Beating t next [] b e = (refl, tt)
  line-Beating t next (s ∷ rest) b e = (refl, (subst (λ x. le x t ≡ true) b.0 e, b.1))

  on_update-IsBeating : (t : D) (h : Heartbeat D) → IsBeating h → IsBeating (on_update t h)
  unfolding on_update IsBeating
  on_update-IsBeating t h b =
      if-split IsBeating (line-Beating t h.next_pose_log h.logged b) (λ e. b)

  on_updates-kept : (ts : List D) (h : Heartbeat D) → IsBeating h → IsBeating (on_updates ts h)
  unfolding on_updates
  on_updates-kept [] h b = b
  on_updates-kept (t ∷ ts) h b = on_updates-kept ts (on_update t h) (on_update-IsBeating t h b)

  -- Whatever the times of the updates are, the heartbeat's lines are at least 5 s of simulated time
  -- apart, and the next one is due 5 s after the latest.
  pub on_updates-IsBeating : (ts : List D) → IsBeating (on_updates ts no_heartbeat)
  unfolding IsBeating Beating
  on_updates-IsBeating ts = on_updates-kept ts no_heartbeat refl
