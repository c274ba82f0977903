-- ===== src/Viewer/Forces.antt =====
-- Which bodies the viewer's drags push.
use nusim.Base.{
  ℕ, zero, suc, ◌+◌, ◌*◌, ◌<◌, ◌≡◌, refl, sym, ap, ◌∙◌, subst, ◌≢◌, ◌⊎◌, inl, inr, true, false,
  some, arith, ltb, ◌==◌, ==_iff, Bool-cases, length, get_elem?, replicate, ℤ, pos, negsuc,
  pos_part, ltb_ℤ,
}
use nusim.Double.{Double, nought}
use nusim.MuJoCo.{Model, Data, Mju, Outside, write_all, write_all-Outside, write_all-at}
use nusim.Viewer.{
  Perturb, Mjv, Viewer, World, Click, end_perturb, is_double_click, select_found, begin_perturb,
  press, store_buttons, mouse_button_cb, apply_to, apply_perturb, on_frame,
}

-- What MuJoCo documents: the force is applied to the selected body.
pub record IsMjv {D R C : Type 0} (j : Mjv D R C) : Type 0 where
  pub applies_to_selected :
      (m : Model D) (d : Data D) (p : Perturb D R) (xfrc : ℕ → D) (i : ℕ)
      → Outside (6 * pos_part p.select) 6 i
      → j.apply_perturb_force m d p xfrc i ≡ xfrc i

get_elem?-replicate : {A : Type 0} (n k : ℕ) (a : A) → k < n → get_elem? (replicate n a) k ≡ some a
get_elem?-replicate zero k a h = elim h [ ]
get_elem?-replicate (suc n) zero a h = refl
get_elem?-replicate (suc n) (suc k) a h = get_elem?-replicate n k a (omega arith)

length-replicate : {A : Type 0} (n : ℕ) (a : A) → length (replicate n a) ≡ n
length-replicate zero a = refl
length-replicate (suc n) a = ap suc (length-replicate n a)

-- Different bodies have different entries.
other_body : (a b k : ℕ) → k < 6 → a ≢ b → Outside (6 * a) 6 (6 * b + k)
other_body a b k h ne = elim (Bool-cases (ltb b a)) [
  | inl below ↦ inl (ground arith)
  | inr above ↦ inr (ground arith)
]

module _ {D R C : Type 0} ⦃f : Double D⦄ where
  -- No body but the selected one is pushed; body 0 is the world.
  abbrev pub OnlySelected : World D R C → Type 0
  OnlySelected w =
      (body k : ℕ)
      → k < 6
      → (w.viewer.pert.select ≡ pos (suc body)) ⊎ (w.xfrc_applied (6 * suc body + k) ≡ nought)

  -- The window shows the model.
  abbrev pub Draws : Viewer D R C → Type 0
  Draws v =
      (v.has_window ≡ true)
      × (v.window_should_close ≡ false)
      × (v.scene_ready ≡ true)
      × (v.attached ≡ true)

  -- Frames in which no event is pending.
  pub frames : Mjv D R C → Mju D → Model D → ℕ → World D R C → World D R C
  frames j u m zero w = w
  frames j u m (suc n) w = frames j u m n (on_frame j u m false (λ w. w) w).0

zeros-at :
    {D : Type 0} ⦃f : Double D⦄ (xfrc : ℕ → D) (adr k : ℕ)
    → k < 6
    → write_all xfrc adr (replicate 6 nought) (adr + k) ≡ nought
zeros-at xfrc adr k h =
    write_all-at xfrc adr (replicate 6 nought) k nought (get_elem?-replicate 6 k nought h)

pos-inj : (a b : ℕ) → pos (suc a) ≡ pos (suc b) → a ≡ b
pos-inj a b e = cc

module _ {D R C : Type 0} ⦃f : Double D⦄ (j : Mjv D R C) (u : Mju D) (m : Model D) where
  apply_to-idle :
      (select : ℤ) (w : World D R C) (body k : ℕ)
      → w.viewer.pert.select ≡ select
      → OnlySelected w
      → w.viewer.pert.active ≡ 0
      → k < 6
      → apply_to j u m select w (6 * suc body + k) ≡ nought
  unfolding apply_to
  apply_to-idle (pos zero) w body k e only idle h = elim (only body k h) [
    | inl same ↦ cc
    | inr rest ↦ rest
  ]
  apply_to-idle (negsuc n) w body k e only idle h = elim (only body k h) [
    | inl same ↦ cc
    | inr rest ↦ rest
  ]
  apply_to-idle (pos (suc s)) w body k e only idle h =
      elim (Bool-cases (w.viewer.pert.active == 0)) [
        | inl off ↦ rw off (elim (Bool-cases (s == body)) [
          | inl same ↦ rw ((==_iff s body).0 same) (zeros-at w.xfrc_applied (6 * suc body) k h)
          | inr other ↦
              let ne : suc s ≢ suc body = λ q. ground arith in
              write_all-Outside w.xfrc_applied (6 * suc s) (replicate 6 nought) (6 * suc body + k)
                (other_body (suc s) (suc body) k h ne)
              ∙ elim (only body k h) [
                | inl same ↦ absurd (ne (ap suc (pos-inj s body (sym e ∙ same))))
                | inr rest ↦ rest
              ]
        ])
        | inr on ↦ ground arith
      ]

  -- A frame with no event pending: the force alone changes.
  on_frame-viewer : (w : World D R C) → (on_frame j u m false (λ w. w) w).0.viewer ≡ w.viewer
  unfolding on_frame
  on_frame-viewer w = ground arith

  on_frame-Draws :
      (w : World D R C)
      → Draws w.viewer
      → (on_frame j u m false (λ w. w) w).0.xfrc_applied ≡ apply_perturb j u m w
  unfolding on_frame
  on_frame-Draws w d = ground arith

  -- Let no body but the selected one be pushed, in a window that draws the model and is not being
  -- closed. Once a mouse button is released, the next frame, if it polls no further event, leaves no
  -- force on any body.
  pub mouse_button_cb-released :
      (c : Click D) (w : World D R C) (body k : ℕ)
      → OnlySelected w
      → Draws w.viewer
      → c.release ≡ true
      → k < 6
      → (on_frame j u m false (λ w. w) (mouse_button_cb j u m c w)).0.xfrc_applied
          (6 * suc body + k)
        ≡ nought
  unfolding mouse_button_cb end_perturb apply_perturb
  mouse_button_cb-released c w body k only d rel h =
      let w1 = mouse_button_cb j u m c w in
      let released : w1.viewer
          ≡ record (store_buttons j u m c w.viewer) { pert = end_perturb w.viewer.pert } =
        ground (arith, d, rel) in
      let idle : w1.viewer.pert.active ≡ 0 = ap (λ (v : Viewer D R C). v.pert.active) released in
      let draws : Draws w1.viewer = subst Draws (sym released) d in
      ap (λ (x : ℕ → D). x (6 * suc body + k)) (on_frame-Draws w1 draws)
      ∙ apply_to-idle w1.viewer.pert.select w1 body k refl
          (λ b i hi. elim (only b i hi) [
            | inl e ↦ inl (ap (λ (v : Viewer D R C). v.pert.select) released ∙ e)
            | inr e ↦ inr e
          ])
          idle h

  -- The frame keeps other bodies' forces.
  apply_to-other :
      (l : IsMjv j) (select : ℤ) (w : World D R C) (body k : ℕ)
      → w.viewer.pert.select ≡ select
      → select ≢ pos (suc body)
      → k < 6
      → apply_to j u m select w (6 * suc body + k) ≡ w.xfrc_applied (6 * suc body + k)
  unfolding apply_to
  apply_to-other l (pos zero) w body k e ne h = refl
  apply_to-other l (negsuc n) w body k e ne h = refl
  apply_to-other l (pos (suc s)) w body k e ne h = elim (Bool-cases (w.viewer.pert.active == 0)) [
    | inl off ↦
        rw off (
          write_all-Outside w.xfrc_applied (6 * suc s) (replicate 6 nought) (6 * suc body + k)
            apart)
    | inr on ↦ rw on (
        l.applies_to_selected m w.data_ w.viewer.pert w.xfrc_applied (6 * suc body + k)
          (subst (λ (z : ℤ). Outside (6 * pos_part z) 6 (6 * suc body + k)) (sym e) apart))
  ]
    where
      apart : Outside (6 * suc s) 6 (6 * suc body + k)
      apart = other_body (suc s) (suc body) k h (λ q. ne (ap pos q))

  on_frame-other :
      (l : IsMjv j) (w : World D R C) (body k : ℕ)
      → w.viewer.pert.select ≢ pos (suc body)
      → k < 6
      → (on_frame j u m false (λ w. w) w).0.xfrc_applied (6 * suc body + k)
        ≡ w.xfrc_applied (6 * suc body + k)
  unfolding on_frame apply_perturb
  on_frame-other l w body k ne h =
      ground (arith, apply_to-other l w.viewer.pert.select w body k refl ne h)

  frames-other :
      (l : IsMjv j) (n : ℕ) (w : World D R C) (body k : ℕ)
      → w.viewer.pert.select ≢ pos (suc body)
      → k < 6
      → (frames j u m n w).xfrc_applied (6 * suc body + k) ≡ w.xfrc_applied (6 * suc body + k)
  unfolding frames
  frames-other l zero w body k ne h = refl
  frames-other l (suc n) w body k ne h =
      frames-other l n (on_frame j u m false (λ w. w) w).0 body k
        (λ e. ne (ap (λ (v : Viewer D R C). v.pert.select) (sym (on_frame-viewer w)) ∙ e)) h
      ∙ on_frame-other l w body k ne h

  -- A double click does not select a body that is not under the cursor.
  select_found-other :
      (b : ℤ) (c : Click D) (d : Data D) (p : Perturb D R) (body : ℕ)
      → b ≢ pos (suc body)
      → (select_found j u m b c d p).select ≢ pos (suc body)
  unfolding select_found end_perturb
  select_found-other (pos b) c d p body ne = ne
  select_found-other (negsuc n) c d p body ne = λ e. cc

  press-other :
      (c : Click D) (d : Data D) (v : Viewer D R C) (body : ℕ)
      → is_double_click j u m c v ≡ true
      → (ltb_ℤ (pos 0) c.width ≡ true) × (ltb_ℤ (pos 0) c.height ≡ true)
      → c.body ≢ pos (suc body)
      → (press j u m c d v).pert.select ≢ pos (suc body)
  unfolding press
  press-other c d v body double sized ne =
      rw (double, sized.0, sized.1)
        (select_found-other c.body c d (begin_perturb j u m c d v.pert) body ne)

  -- Let mjv push the selected body alone. If a double click in the simulation's window selects
  -- another body than the selected one, or none, then whatever force the drag has left on the body
  -- that was selected stays on it, through any number of frames with no further event.
  pub mouse_button_cb-stuck :
      (l : IsMjv j) (c : Click D) (w : World D R C) (body k n : ℕ)
      → w.viewer.attached ≡ true
      → c.release ≡ false
      → is_double_click j u m c (store_buttons j u m c w.viewer) ≡ true
      → (ltb_ℤ (pos 0) c.width ≡ true) × (ltb_ℤ (pos 0) c.height ≡ true)
      → c.body ≢ pos (suc body)
      → k < 6
      → (frames j u m n (mouse_button_cb j u m c w)).xfrc_applied (6 * suc body + k)
        ≡ w.xfrc_applied (6 * suc body + k)
  unfolding mouse_button_cb
  mouse_button_cb-stuck l c w body k n attached held double sized ne h =
      let v = store_buttons j u m c w.viewer in
      let w1 = mouse_button_cb j u m c w in
      let pressed : w1.viewer ≡ press j u m c w.data_ v = ground arith in
      let other : w1.viewer.pert.select ≢ pos (suc body) = λ e.
        press-other c w.data_ v body double sized ne
          (ap (λ (v : Viewer D R C). v.pert.select) (sym pressed) ∙ e) in
      frames-other l n w1 body k other h ∙ ap (λ (x : ℕ → D). x (6 * suc body + k)) (untouched c w)
    where
      untouched :
          (c : Click D) (w : World D R C)
          → (mouse_button_cb j u m c w).xfrc_applied ≡ w.xfrc_applied
      untouched c w = refl
