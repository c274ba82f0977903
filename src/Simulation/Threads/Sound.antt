-- ===== src/Simulation/Threads/Sound.antt =====
-- Which thread may touch what: kept by every move.
use nusim.Base.{ℕ, ◌≡◌, refl, ◌≢◌, ◌↔◌, Bool, true, false, some, List, arith}
use nusim.Simulation.Threads.{
  Pc, Owner, Client, Holder, System, Turn, Reach, loaded, own, physics_move, client_move, perform,
}

abbrev is_alive : Pc → Bool
is_alive Pc.ended = false
is_alive _ = true

-- The owner is between calls or waits for the thread.
abbrev may_run : Owner → Bool
may_run Owner.idle = true
may_run (Owner.joining unloads) = true
may_run _ = false

-- The owner is in `stop` or in `unload`.
abbrev pub is_stopping : Owner → Bool
is_stopping Owner.idle = false
is_stopping Owner.spawning = false
is_stopping _ = true

pub record IsSound (s : System) : Type 0 where
  pub thread_holds : s.physics ≡ Pc.stepping → s.holder ≡ Holder.thread
  pub holds_thread : s.holder ≡ Holder.thread → s.physics ≡ Pc.stepping
  pub ended : s.joinable ≡ false → s.physics ≡ Pc.ended
  pub not_joinable : may_run s.owner ≡ false → s.joinable ≡ false
  pub between : s.owner ≡ Owner.idle → s.joinable ≡ s.running
  pub spawns : s.owner ≡ Owner.spawning → s.has_data ≡ true
  pub spawns_running : s.owner ≡ Owner.spawning → s.running ≡ true
  pub stops : is_stopping s.owner ≡ true → s.running ≡ false
  pub data_kept : s.joinable ≡ true → s.has_data ≡ true
  pub model_kept : s.has_data ≡ true → s.has_model ≡ true
  pub freed : s.owner ≡ Owner.freeing_model → s.has_data ≡ false

-- A client is inside if and only if it holds the mutex.
abbrev pub ClientHolds : System → ℕ → Type 0
ClientHolds s i = (s.clients i ≡ Client.inside) ↔ (s.holder ≡ Holder.client i)

own-IsSound :
    (m : Turn) (o : Owner) (s t : System) → s.owner ≡ o → own m o s ≡ some t → IsSound s → IsSound t
unfolding own
own-IsSound Turn.start Owner.idle s t q e v = ground arith
own-IsSound Turn.spawn Owner.spawning s t q e v = ground arith
own-IsSound (Turn.stop unloads) Owner.idle s t q e v = ground arith
own-IsSound Turn.join (Owner.joining unloads) s t q e v = ground arith
own-IsSound Turn.close_log Owner.closing s t q e v = ground arith
own-IsSound Turn.free_data Owner.freeing_data s t q e v = ground arith
own-IsSound Turn.free_model Owner.freeing_model s t q e v = ground arith
own-IsSound m o s t q e v = cc

physics_move-IsSound :
    (m : Turn) (p : Pc) (s t : System)
    → s.physics ≡ p
    → physics_move m p s ≡ some t
    → IsSound s
    → IsSound t
unfolding physics_move
physics_move-IsSound Turn.test_running Pc.testing s t q e v = ground arith
physics_move-IsSound Turn.lock_data Pc.locking s t q e v = ground arith
physics_move-IsSound Turn.mj_step Pc.stepping s t q e v = ground arith
physics_move-IsSound Turn.sleep Pc.pacing s t q e v = ground arith
physics_move-IsSound m p s t q e v = cc

client_move-IsSound :
    (m : Turn) (c : Client) (i : ℕ) (s t : System)
    → s.clients i ≡ c
    → ClientHolds s i
    → client_move m c s ≡ some t
    → IsSound s
    → IsSound t
unfolding client_move
client_move-IsSound (Turn.ask i) Client.resting j s t q h e v = ground arith
client_move-IsSound (Turn.enter i) Client.waiting j s t q h e v = ground arith
client_move-IsSound (Turn.leave i) Client.inside j s t q h e v = ground arith
client_move-IsSound m c j s t q h e v = cc

own-ClientHolds :
    (m : Turn) (o : Owner) (s t : System) (i : ℕ)
    → own m o s ≡ some t
    → ClientHolds s i
    → ClientHolds t i
unfolding own
own-ClientHolds Turn.start Owner.idle s t i e h = ground arith
own-ClientHolds Turn.spawn Owner.spawning s t i e h = ground arith
own-ClientHolds (Turn.stop unloads) Owner.idle s t i e h = ground arith
own-ClientHolds Turn.join (Owner.joining unloads) s t i e h = ground arith
own-ClientHolds Turn.close_log Owner.closing s t i e h = ground arith
own-ClientHolds Turn.free_data Owner.freeing_data s t i e h = ground arith
own-ClientHolds Turn.free_model Owner.freeing_model s t i e h = ground arith
own-ClientHolds m o s t i e h = cc

physics_move-ClientHolds :
    (m : Turn) (p : Pc) (s t : System) (i : ℕ)
    → s.physics ≡ p
    → physics_move m p s ≡ some t
    → IsSound s
    → ClientHolds s i
    → ClientHolds t i
unfolding physics_move
physics_move-ClientHolds Turn.test_running Pc.testing s t i q e v h = ground arith
physics_move-ClientHolds Turn.lock_data Pc.locking s t i q e v h = ground arith
physics_move-ClientHolds Turn.mj_step Pc.stepping s t i q e v h = ground arith
physics_move-ClientHolds Turn.sleep Pc.pacing s t i q e v h = ground arith
physics_move-ClientHolds m p s t i q e v h = cc

-- The client of a move.
abbrev who : Turn → ℕ
who (Turn.ask k) = k
who (Turn.enter k) = k
who (Turn.leave k) = k
who _ = 0

client_move-ClientHolds :
    (m : Turn) (c : Client) (s t : System) (i : ℕ)
    → s.clients (who m) ≡ c
    → client_move m c s ≡ some t
    → ClientHolds s (who m)
    → ClientHolds s i
    → ClientHolds t i
unfolding client_move
client_move-ClientHolds (Turn.ask k) Client.resting s t i q e g h = ground arith
client_move-ClientHolds (Turn.enter k) Client.waiting s t i q e g h = ground arith
client_move-ClientHolds (Turn.leave k) Client.inside s t i q e g h = ground arith
client_move-ClientHolds m c s t i q e g h = cc

-- What every reachable state has.
pub record IsKept (s : System) : Type 0 where
  pub sound : IsSound s
  pub clients_hold : (i : ℕ) → ClientHolds s i

IsKept-by_owner : (m : Turn) (s t : System) → own m s.owner s ≡ some t → IsKept s → IsKept t
IsKept-by_owner m s t e v = record {
  sound = own-IsSound m s.owner s t refl e v.sound;
  clients_hold = λ i. own-ClientHolds m s.owner s t i e (v.clients_hold i);
}

IsKept-by_physics :
    (m : Turn) (s t : System) → physics_move m s.physics s ≡ some t → IsKept s → IsKept t
IsKept-by_physics m s t e v = record {
  sound = physics_move-IsSound m s.physics s t refl e v.sound;
  clients_hold = λ i. physics_move-ClientHolds m s.physics s t i refl e v.sound (v.clients_hold i);
}

IsKept-by_client :
    (m : Turn) (s t : System) → client_move m (s.clients (who m)) s ≡ some t → IsKept s → IsKept t
IsKept-by_client m s t e v = record {
  sound =
      client_move-IsSound m (s.clients (who m)) (who m) s t refl (v.clients_hold (who m)) e v.sound;
  clients_hold = λ i.
      client_move-ClientHolds m (s.clients (who m)) s t i refl e (v.clients_hold (who m))
        (v.clients_hold i);
}

pub perform-IsKept : (m : Turn) (s t : System) → perform m s ≡ some t → IsKept s → IsKept t
unfolding perform
perform-IsKept (Turn.ask k) s t e v = IsKept-by_client (Turn.ask k) s t e v
perform-IsKept (Turn.enter k) s t e v = IsKept-by_client (Turn.enter k) s t e v
perform-IsKept (Turn.leave k) s t e v = IsKept-by_client (Turn.leave k) s t e v
perform-IsKept Turn.test_running s t e v = IsKept-by_physics Turn.test_running s t e v
perform-IsKept Turn.lock_data s t e v = IsKept-by_physics Turn.lock_data s t e v
perform-IsKept Turn.mj_step s t e v = IsKept-by_physics Turn.mj_step s t e v
perform-IsKept Turn.sleep s t e v = IsKept-by_physics Turn.sleep s t e v
perform-IsKept m s t e v = IsKept-by_owner m s t e v

loaded-IsKept : (log_open : Bool) → IsKept (loaded log_open)
unfolding loaded
loaded-IsKept log_open = record { sound = ground arith; clients_hold = λ i. ground arith }

pub Reach-IsKept :
    (log_open : Bool) {ms : List Turn} {s : System} → Reach (loaded log_open) ms s → IsKept s
Reach-IsKept log_open Reach.here = loaded-IsKept log_open
Reach-IsKept log_open (Reach.next r m e) = perform-IsKept m _ _ e (Reach-IsKept log_open r)

-- Whatever the threads do in whatever order, from a loaded core on: while the physics thread steps,
-- no client is inside and the data and the model are there; two clients are never inside together;
-- and a thread is only made where the last one is joined.
pub Reach-IsExclusive :
    (log_open : Bool) {ms : List Turn} {s : System}
    → Reach (loaded log_open) ms s
    → (s.physics ≡ Pc.stepping
        → ((i : ℕ) → s.clients i ≢ Client.inside) × (s.has_data ≡ true) × (s.has_model ≡ true))
      × ((i j : ℕ) → s.clients i ≡ Client.inside → s.clients j ≡ Client.inside → i ≡ j)
      × (s.owner ≡ Owner.spawning → s.joinable ≡ false)
Reach-IsExclusive log_open r =
    let v = Reach-IsKept log_open r in
    let w = v.sound in
    (
      λ p. (λ i h. cc (w.thread_holds p, (v.clients_hold i).0 h), ground arith, ground arith),
      λ i j h g. cc ((v.clients_hold i).0 h, (v.clients_hold j).0 g),
      λ q. w.not_joinable (cc),
    )
