-- ===== src/Simulation/FootLog/Apart.antt =====
-- The one loop over the contacts serves both feet, each as if it were alone.
use nusim.Base.{
  ◌≡◌, refl, ap, ◌∙◌, inl, inr, Bool, not, ◌&&◌, List, [], ◌∷◌, if◌then◌else◌, Bool-cases,
}
use nusim.Double.{Double}
use nusim.MuJoCo.{Model, Data, Mju}
use nusim.Simulation.FootLog.{
  Contact, FootAcc, FootIds, touches, foot_of, add_contact, press_foot, press_all,
}

module _ {D : Type 0} ⦃f : Double D⦄ (u : Mju D) (m : Model D) (d : Data D) (ids : FootIds) where
  abbrev on_left : Contact D → Bool
  on_left con = touches ids.left_foot_body_id (m.geom_bodyid con.geom1) (m.geom_bodyid con.geom2)

  abbrev on_right : Contact D → Bool
  on_right con = touches ids.right_foot_body_id (m.geom_bodyid con.geom1) (m.geom_bodyid con.geom2)

  -- The left foot's contacts, alone.
  unfoldable pub press_left : List (Contact D) → FootAcc D → FootAcc D
  press_left [] acc = acc
  press_left (con ∷ cs) acc =
      press_left cs (if on_left con then add_contact u d ids.left_foot_body_id con acc else acc)

  -- The right foot's, alone: a contact between the feet is the left one's.
  unfoldable pub press_right : List (Contact D) → FootAcc D → FootAcc D
  press_right [] acc = acc
  press_right (con ∷ cs) acc = press_right cs (
      if on_right con && not (on_left con)
      then add_contact u d ids.right_foot_body_id con acc
      else acc)

  press_foot-apart :
      (con : Contact D) (l r : FootAcc D)
      → press_foot u d ids (foot_of m ids con) con (l, r) ≡ (
        (if on_left con then add_contact u d ids.left_foot_body_id con l else l),
        (if on_right con && not (on_left con)
            then add_contact u d ids.right_foot_body_id con r
            else r),
      )
  unfolding press_foot foot_of
  press_foot-apart con l r = elim (Bool-cases (on_left con)) [
    | inl a ↦ elim (Bool-cases (on_right con)) [ inl b ↦ rw (a, b) refl | inr b ↦ rw (a, b) refl ]
    | inr a ↦ elim (Bool-cases (on_right con)) [ inl b ↦ rw (a, b) refl | inr b ↦ rw (a, b) refl ]
  ]

  -- The loop over the contacts gives each foot what a loop over that foot's contacts alone gives it;
  -- a contact between the two feet counts for the left one only.
  pub press_all-apart :
      (cs : List (Contact D)) (l r : FootAcc D)
      → press_all u m d ids cs (l, r) ≡ (press_left cs l, press_right cs r)
  unfolding press_all press_left press_right
  press_all-apart [] l r = refl
  press_all-apart (con ∷ cs) l r =
      ap (press_all u m d ids cs) (press_foot-apart con l r) ∙ press_all-apart cs _ _
