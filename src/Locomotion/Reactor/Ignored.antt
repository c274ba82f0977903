-- ===== src/Locomotion/Reactor/Ignored.antt =====
-- What becomes of the messages: three kinds reach the controller, the others are ignored with one
-- warning each.
use nusim.Base.{
  ℕ, suc, ◌+◌, ◌≤◌, ◌≡◌, refl, Bool, true, false, List, [], ◌∷◌, ◌++◌, arith, if◌then◌else◌,
}
use nusim.Locomotion.Controller.{Setter, head_command, mode_change, low_cmd, post_all}
use nusim.Message.{
  Message, walk_command, head_command_message, mode_change_request, get_up_request,
  lie_down_request, visual_kick_request, low_cmd_message,
}
use nusim.Locomotion.Reactor.{
  Locomotion, IgnoredRpc, move_rpc, get_up_rpc, lie_down_rpc, visual_kick_rpc, Log, mode_requested,
  ignored, set, react, react_all,
}

abbrev same_rpc : IgnoredRpc → IgnoredRpc → Bool
same_rpc move_rpc move_rpc = true
same_rpc get_up_rpc get_up_rpc = true
same_rpc lie_down_rpc lie_down_rpc = true
same_rpc visual_kick_rpc visual_kick_rpc = true
same_rpc _ _ = false

-- How often a kind of request is warned about.
pub count_ignored : IgnoredRpc → List Log → ℕ
count_ignored r [] = 0
count_ignored r (mode_requested m ∷ logs) = count_ignored r logs
count_ignored r (ignored s ∷ logs) =
    let rest = count_ignored r logs in if same_rpc r s then suc rest else rest

abbrev bit : Bool → ℕ
bit true = 1
bit false = 0

count_ignored-append :
    (r : IgnoredRpc) (logs more : List Log)
    → count_ignored r (logs ++ more) ≡ count_ignored r logs + count_ignored r more
unfolding count_ignored
count_ignored-append r [] more = omega arith
count_ignored-append r (mode_requested m ∷ logs) more = count_ignored-append r logs more
count_ignored-append r (ignored s ∷ logs) more = ground (arith, count_ignored-append r logs more)

module _ {D : Type 0} where
  -- The setters that messages stand for.
  unfoldable pub setters : List (Message D) → List (Setter D)
  setters [] = []
  setters (head_command_message cmd ∷ msgs) = head_command cmd.pitch cmd.yaw ∷ setters msgs
  setters (mode_change_request req ∷ msgs) = mode_change req.mode ∷ setters msgs
  setters (low_cmd_message cmd ∷ msgs) = low_cmd cmd.cmd_type cmd.motors ∷ setters msgs
  setters (walk_command cmd ∷ msgs) = setters msgs
  setters (get_up_request req ∷ msgs) = setters msgs
  setters (lie_down_request ∷ msgs) = setters msgs
  setters (visual_kick_request req ∷ msgs) = setters msgs

  -- Messages change the controller as the calls of its setters for the head, mode and motor
  -- commands among them do, in their order, and in no other way: requests to walk, to get up, to lie
  -- down and to kick leave it as it is.
  pub react_all-post_all :
      (msgs : List (Message D)) (l : Locomotion D)
      → (react_all msgs l).0.controller
        ≡ record l.controller { mailbox = post_all (setters msgs) l.controller.mailbox }
  unfolding react_all react post_all setters
  react_all-post_all [] l = refl
  react_all-post_all (head_command_message cmd ∷ msgs) l =
      react_all-post_all msgs (set (head_command cmd.pitch cmd.yaw) l)
  react_all-post_all (mode_change_request req ∷ msgs) l =
      react_all-post_all msgs (set (mode_change req.mode) l)
  react_all-post_all (low_cmd_message cmd ∷ msgs) l =
      react_all-post_all msgs (set (low_cmd cmd.cmd_type cmd.motors) l)
  react_all-post_all (walk_command cmd ∷ msgs) l = react_all-post_all msgs _
  react_all-post_all (get_up_request req ∷ msgs) l = react_all-post_all msgs _
  react_all-post_all (lie_down_request ∷ msgs) l = react_all-post_all msgs _
  react_all-post_all (visual_kick_request req ∷ msgs) l = react_all-post_all msgs _

  abbrev flag_of : IgnoredRpc → Locomotion D → Bool
  flag_of move_rpc l = l.walk_warned
  flag_of get_up_rpc l = l.getup_warned
  flag_of lie_down_rpc l = l.liedown_warned
  flag_of visual_kick_rpc l = l.kick_warned

  -- A message warns exactly if it raises the flag.
  react-count :
      (r : IgnoredRpc) (msg : Message D) (l : Locomotion D)
      → count_ignored r (react msg l).1 + bit (flag_of r l) ≡ bit (flag_of r (react msg l).0)
  unfolding react count_ignored
  react-count move_rpc msg l = ground arith
  react-count get_up_rpc msg l = ground arith
  react-count lie_down_rpc msg l = ground arith
  react-count visual_kick_rpc msg l = ground arith

  react_all-count :
      (r : IgnoredRpc) (msgs : List (Message D)) (l : Locomotion D)
      → count_ignored r (react_all msgs l).1 + bit (flag_of r l)
        ≡ bit (flag_of r (react_all msgs l).0)
  unfolding react_all count_ignored
  react_all-count r [] l = omega arith
  react_all-count r (msg ∷ msgs) l =
      let (l1, logs) = react msg l in
      omega (
        arith,
        count_ignored-append r logs (react_all msgs l1).1,
        react-count r msg l,
        react_all-count r msgs l1,
      )

  -- Of any number of messages, each kind of ignored request is warned about at most once.
  pub react_all-warned :
      (r : IgnoredRpc) (msgs : List (Message D)) (l : Locomotion D)
      → count_ignored r (react_all msgs l).1 ≤ 1
  react_all-warned r msgs l = ground (arith, react_all-count r msgs l)
