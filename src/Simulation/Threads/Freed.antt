-- ===== src/Simulation/Threads/Freed.antt =====
-- `unload` does not lock the mutex: it may free the data while a client is inside.
use nusim.Base.{ℕ, ◌≡◌, refl, Bool, true, false, List, [], ◌∷◌, arith}
use nusim.Simulation.Threads.{
  Pc, Owner, Client, System, Turn, Reach, loaded, own, physics_move, perform,
}
use nusim.Simulation.Threads.Sound.{Reach-IsKept}

-- From every state in which a client holds the mutex, the physics thread is about to test the flag
-- and the owner is between calls, a shutdown can free the data while that client is still inside.
pub Reach-frees :
    (log_open : Bool) {s : System} {ms : List Turn} (i : ℕ)
    → Reach (loaded log_open) ms s
    → s.clients i ≡ Client.inside
    → s.physics ≡ Pc.testing
    → s.owner ≡ Owner.idle
    → (us : List Turn) × (t : System) × Reach s us t
      × (t.clients i ≡ Client.inside)
      × (t.has_data ≡ false)
unfolding perform own physics_move
Reach-frees log_open {s} i r c p o =
    let stopping : System = record s { running = false; owner = Owner.joining true } in
    let over : System = record stopping { physics = Pc.ended } in
    let joined : System = record over { joinable = false; owner = Owner.closing } in
    let closed : System = record joined { log_open = false; owner = Owner.freeing_data } in
    let freed : System = record closed { has_data = false; owner = Owner.freeing_model } in
    let alive : s.joinable ≡ true = ground (arith, (Reach-IsKept log_open r).sound) in
    let to_stopping : Reach s (Turn.stop true ∷ []) stopping =
      Reach.next Reach.here (Turn.stop true) (ground arith) in
    let to_over = Reach.next {u = over} to_stopping Turn.test_running (ground arith) in
    let to_joined = Reach.next {u = joined} to_over Turn.join (ground arith) in
    let to_closed = Reach.next {u = closed} to_joined Turn.close_log refl in
    (_, freed, Reach.next to_closed Turn.free_data refl, c, refl)
