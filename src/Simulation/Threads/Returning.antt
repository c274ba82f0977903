-- ===== src/Simulation/Threads/Returning.antt =====
-- `stop` can always return: nothing blocks the join for good.
use nusim.Base.{
  ◌≡◌, refl, inl, inr, Bool, false, some, List, [], ◌∷◌, ◌++◌, arith, if◌then◌else◌, Bool-cases,
}
use nusim.MuJoCo.{write}
use nusim.Simulation.Threads.{
  Pc, Owner, Client, Holder, System, Turn, Reach, loaded, own, physics_move, client_move, perform,
}
use nusim.Simulation.Threads.Sound.{IsKept, Reach-IsKept}

-- A move before others.
pub first :
    {s t u : System} {ms : List Turn} (m : Turn)
    → perform m s ≡ some t
    → Reach t ms u
    → Reach s (ms ++ (m ∷ [])) u
first m e Reach.here = Reach.next Reach.here m e
first m e (Reach.next r n q) = Reach.next (first m e r) n q

-- What comes after the join.
abbrev pub after : Bool → Owner
after unloads = if unloads then Owner.closing else Owner.idle

pub record Returns (unloads : Bool) (s : System) : Type 0 where
  pub moves : List Turn
  pub last : System
  pub reached : Reach s moves last
  pub owner_eq : last.owner ≡ after unloads

Returns-first :
    {unloads : Bool} {s t : System} (m : Turn)
    → perform m s ≡ some t
    → Returns unloads t
    → Returns unloads s
Returns-first m e r = record {
  moves = r.moves ++ (m ∷ []);
  last = r.last;
  reached = first m e r.reached;
  owner_eq = r.owner_eq;
}

module _ (unloads : Bool) where
  ended-Returns :
      (s : System) → s.owner ≡ Owner.joining unloads → s.physics ≡ Pc.ended → Returns unloads s
  unfolding perform own
  ended-Returns s o p = elim (Bool-cases s.joinable) [
    | inl j ↦
        let t : System = record s { joinable = false; owner = after unloads } in
        record {
          moves = Turn.join ∷ [];
          last = t;
          reached = Reach.next Reach.here Turn.join (ground arith);
          owner_eq = refl;
        }
    | inr j ↦
        let t : System = record s { owner = after unloads } in
        record {
          moves = Turn.join ∷ [];
          last = t;
          reached = Reach.next Reach.here Turn.join (ground arith);
          owner_eq = refl;
        }
  ]

  testing-Returns :
      (s : System)
      → s.owner ≡ Owner.joining unloads
      → s.running ≡ false
      → s.physics ≡ Pc.testing
      → Returns unloads s
  unfolding perform physics_move
  testing-Returns s o r p =
      let t : System = record s { physics = Pc.ended } in
      Returns-first {t = t} Turn.test_running (ground arith) (ended-Returns t o refl)

  pacing-Returns :
      (s : System)
      → s.owner ≡ Owner.joining unloads
      → s.running ≡ false
      → s.physics ≡ Pc.pacing
      → Returns unloads s
  unfolding perform physics_move
  pacing-Returns s o r p =
      let t : System = record s { physics = Pc.testing } in
      Returns-first {t = t} Turn.sleep (ground arith) (testing-Returns t o r refl)

  stepping-Returns :
      (s : System)
      → s.owner ≡ Owner.joining unloads
      → s.running ≡ false
      → s.physics ≡ Pc.stepping
      → Returns unloads s
  unfolding perform physics_move
  stepping-Returns s o r p =
      let t : System = record s { physics = Pc.pacing; holder = Holder.nobody } in
      Returns-first {t = t} Turn.mj_step (ground arith) (pacing-Returns t o r refl)

  free-Returns :
      (s : System)
      → s.owner ≡ Owner.joining unloads
      → s.running ≡ false
      → s.physics ≡ Pc.locking
      → s.holder ≡ Holder.nobody
      → Returns unloads s
  unfolding perform physics_move
  free-Returns s o r p h =
      let t : System = record s { physics = Pc.stepping; holder = Holder.thread } in
      Returns-first {t = t} Turn.lock_data (ground arith) (stepping-Returns t o r refl)

  locking-Returns :
      (s : System)
      → IsKept s
      → s.owner ≡ Owner.joining unloads
      → s.running ≡ false
      → s.physics ≡ Pc.locking
      → (h : Holder) → s.holder ≡ h
      → Returns unloads s
  unfolding perform client_move
  locking-Returns s v o r p Holder.nobody h = free-Returns s o r p h
  locking-Returns s v o r p Holder.thread h = cc (v.sound.holds_thread h)
  locking-Returns s v o r p (Holder.client i) h =
      let t : System = record s {
        clients = write s.clients i Client.resting;
        holder = Holder.nobody;
      } in
      Returns-first {t = t} (Turn.leave i) (rw ((v.clients_hold i).1 h) refl)
        (free-Returns t o r p refl)

  by_physics :
      (s : System) (p : Pc)
      → IsKept s
      → s.owner ≡ Owner.joining unloads
      → s.running ≡ false
      → s.physics ≡ p
      → Returns unloads s
  by_physics s Pc.testing v o r p = testing-Returns s o r p
  by_physics s Pc.locking v o r p = locking-Returns s v o r p s.holder refl
  by_physics s Pc.stepping v o r p = stepping-Returns s o r p
  by_physics s Pc.pacing v o r p = pacing-Returns s o r p
  by_physics s Pc.ended v o r p = ended-Returns s o p

-- No deadlock in `stop`: wherever the threads have got to when the owner waits in it, there are moves
-- after which it has returned.
pub Reach-Returns :
    (log_open unloads : Bool) {s : System} {ms : List Turn}
    → Reach (loaded log_open) ms s
    → s.owner ≡ Owner.joining unloads
    → Returns unloads s
Reach-Returns log_open unloads {s} r o =
    let v = Reach-IsKept log_open r in
    by_physics unloads s s.physics v o (v.sound.stops (rw o refl)) refl
