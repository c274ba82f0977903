-- ===== src/Sdk/Synthetic/Followed.antt =====
-- The synthetic robot follows what it is asked.
use nusim.Base.{All-append, ◌≡◌, refl, subst, Bool, true, false, List, [], ◌∷◌, All}
use nusim.Double.{Double}
use nusim.Message.{
  walk_command, head_command_message, mode_change_request, get_up_request, lie_down_request,
  visual_kick_request, low_cmd_message,
}
use nusim.Sdk.Synthetic.{
  SyntheticState, SyntheticEvent, message, tick, on_message, advance_state, published_state, react,
  react_all,
}

-- An event that asks for no mode.
abbrev pub asks_mode : {D : Type 0} → SyntheticEvent D → Bool
asks_mode (message (mode_change_request m)) = true
asks_mode (message (get_up_request m)) = true
asks_mode _ = false

module _ {D : Type 0} ⦃f : Double D⦄ where
  react-mode :
      (e : SyntheticEvent D) (s : SyntheticState D)
      → asks_mode e ≡ false
      → ((react e s).0.mode ≡ s.mode) × All (λ u. u.mode ≡ s.mode) (react e s).1
  unfolding react on_message advance_state published_state
  react-mode (message (walk_command m)) s h = (refl, tt)
  react-mode (message (head_command_message m)) s h = (refl, tt)
  react-mode (message lie_down_request) s h = (refl, tt)
  react-mode (message (visual_kick_request m)) s h = (refl, tt)
  react-mode (message (low_cmd_message m)) s h = (refl, tt)
  react-mode tick s h = (refl, (refl, tt))
  react-mode (message (mode_change_request m)) s h = cc
  react-mode (message (get_up_request m)) s h = cc

  -- Until another mode is asked for, every state that is published has the mode.
  pub react_all-mode :
      (es : List (SyntheticEvent D)) (s : SyntheticState D)
      → All (λ e. asks_mode e ≡ false) es
      → All (λ u. u.mode ≡ s.mode) (react_all es s).1
  unfolding react_all
  react_all-mode [] s h = tt
  react_all-mode (e ∷ es) s h =
      let (kept, now) = react-mode e s h.0 in
      All-append _ (react e s).1 (react_all es (react e s).0).1 now (
        subst (λ m. All (λ u. u.mode ≡ m) (react_all es (react e s).0).1) kept
          (react_all-mode es (react e s).0 h.1))
