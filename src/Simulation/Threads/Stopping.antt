-- ===== src/Simulation/Threads/Stopping.antt =====
-- What a call of `stop` does to the physics thread, and what `unload` does to the others.
use nusim.Base.{ℕ, ◌+◌, ◌≤◌, ◌≡◌, refl, Bool, true, false, some, List, [], ◌∷◌, arith, All}
use nusim.Simulation.Threads.{
  Pc, Owner, Client, System, Turn, Reach, loaded, own, physics_move, client_move, perform,
}
use nusim.Simulation.Threads.Sound.{IsSound, IsKept, perform-IsKept, Reach-IsKept}

abbrev pub is_start : Turn → Bool
is_start Turn.start = true
is_start _ = false

-- 1 for a step of the simulation.
abbrev is_step : Turn → ℕ
is_step Turn.mj_step = 1
is_step _ = 0

abbrev pub count_steps : List Turn → ℕ
count_steps [] = 0
count_steps (m ∷ ms) = is_step m + count_steps ms

-- 1 where the physics thread is past its test and steps once more.
abbrev pending : Pc → ℕ
pending Pc.locking = 1
pending Pc.stepping = 1
pending _ = 0

own-stopped :
    (m : Turn) (o : Owner) (s t : System)
    → s.owner ≡ o
    → own m o s ≡ some t
    → is_start m ≡ false
    → IsSound s
    → s.running ≡ false
    → (t.running ≡ false) × (is_step m + pending t.physics ≤ pending s.physics)
unfolding own
own-stopped Turn.spawn Owner.spawning s t q e n v r = cc (v.spawns_running q)
own-stopped (Turn.stop unloads) Owner.idle s t q e n v r = ground arith
own-stopped Turn.join (Owner.joining unloads) s t q e n v r = ground arith
own-stopped Turn.close_log Owner.closing s t q e n v r = ground arith
own-stopped Turn.free_data Owner.freeing_data s t q e n v r = ground arith
own-stopped Turn.free_model Owner.freeing_model s t q e n v r = ground arith
own-stopped m o s t q e n v r = cc

physics_move-stopped :
    (m : Turn) (p : Pc) (s t : System)
    → s.physics ≡ p
    → physics_move m p s ≡ some t
    → s.running ≡ false
    → (t.running ≡ false) × (is_step m + pending t.physics ≤ pending s.physics)
unfolding physics_move
physics_move-stopped Turn.test_running Pc.testing s t q e r = ground arith
physics_move-stopped Turn.lock_data Pc.locking s t q e r = ground arith
physics_move-stopped Turn.mj_step Pc.stepping s t q e r = ground arith
physics_move-stopped Turn.sleep Pc.pacing s t q e r = ground arith
physics_move-stopped m p s t q e r = cc

client_move-stopped :
    (m : Turn) (c : Client) (s t : System)
    → client_move m c s ≡ some t
    → s.running ≡ false
    → (t.running ≡ false) × (is_step m + pending t.physics ≤ pending s.physics)
unfolding client_move
client_move-stopped (Turn.ask k) Client.resting s t e r = ground arith
client_move-stopped (Turn.enter k) Client.waiting s t e r = ground arith
client_move-stopped (Turn.leave k) Client.inside s t e r = ground arith
client_move-stopped m c s t e r = cc

perform-stopped :
    (m : Turn) (s t : System)
    → perform m s ≡ some t
    → is_start m ≡ false
    → IsSound s
    → s.running ≡ false
    → (t.running ≡ false) × (is_step m + pending t.physics ≤ pending s.physics)
unfolding perform
perform-stopped (Turn.ask k) s t e n v r = client_move-stopped (Turn.ask k) _ s t e r
perform-stopped (Turn.enter k) s t e n v r = client_move-stopped (Turn.enter k) _ s t e r
perform-stopped (Turn.leave k) s t e n v r = client_move-stopped (Turn.leave k) _ s t e r
perform-stopped Turn.test_running s t e n v r =
    physics_move-stopped Turn.test_running _ s t refl e r
perform-stopped Turn.lock_data s t e n v r = physics_move-stopped Turn.lock_data _ s t refl e r
perform-stopped Turn.mj_step s t e n v r = physics_move-stopped Turn.mj_step _ s t refl e r
perform-stopped Turn.sleep s t e n v r = physics_move-stopped Turn.sleep _ s t refl e r
perform-stopped m s t e n v r = own-stopped m _ s t refl e n v r

-- Kept states, the flag cleared, and the steps so far.
Reach-stopped :
    {s t : System} {ms : List Turn}
    → Reach s ms t
    → IsKept s
    → s.running ≡ false
    → All (λ m. is_start m ≡ false) ms
    → IsKept t × (t.running ≡ false) × (count_steps ms + pending t.physics ≤ pending s.physics)
Reach-stopped Reach.here v r a = (v, r, omega arith)
Reach-stopped (Reach.next p m e) v r a =
    let (w, q, n) = Reach-stopped p v r a.1 in
    let (q', n') = perform-stopped m _ _ e a.0 w.sound q in
    (perform-IsKept m _ _ e w, q', omega arith)

pending-le : (p : Pc) → pending p ≤ 1
pending-le p = ground arith

-- Once `stop` has cleared the flag, and until the next call of `start`, the simulation is stepped at
-- most once more, whatever the other threads do.
pub Reach-stops :
    (log_open : Bool) {s t : System} {ms us : List Turn}
    → Reach (loaded log_open) ms s
    → s.running ≡ false
    → Reach s us t
    → All (λ m. is_start m ≡ false) us
    → count_steps us ≤ 1
Reach-stops log_open {s} p r q a =
    let (w, e, n) = Reach-stopped q (Reach-IsKept log_open p) r a in
    omega (arith, pending-le s.physics)
