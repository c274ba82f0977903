-- ===== src/Supervisor/Reactor/Followed.antt =====
-- What a supervisor does over a whole run.
use nusim.Base.{
  ◌≡◌, refl, sym, ap, ◌∙◌, Bool, true, false, ◌&&◌, none, some, List, [], ◌∷◌, ◌++◌, arith, length,
  All,
}
use mathlib.Core.Bool.{true≢false}
use nusim.Double.{Double}
use nusim.MuJoCo.{Model, Data}
use nusim.Supervisor.Packet.{GameControllerPacket, try_parse}
use nusim.Supervisor.Config.{SupervisorConfig}
use nusim.Supervisor.Logic.{Action, SupervisorLogic, process, start}
use nusim.Supervisor.Reaction.{
  LogLine, Handles, not_ready, action, log_actions, zero_packet, on_packet, on_udp, if_accepted,
}
use nusim.Supervisor.Reactor.{
  Installed, disabled, unbound, bound, SupervisorReactor, SupervisorEvent, startup, shutdown,
  sim_handles, udp, simulated, ReactorLine, reaction, reactions, installing, construct_supervisor,
  startup_line, on_datagram, supervise, supervise_all,
}

-- What concerns the logic: a packet, or what the simulation has made of the data.
pub data Heard (D : Type 0) : Type 0 where
  packet : GameControllerPacket → Heard D
  written : Data D → Heard D

abbrev pub listens : Installed → Bool
listens bound = true
listens _ = false

abbrev packet_of : {D : Type 0} → GameControllerPacket × Bool → List (Heard D) → List (Heard D)
packet_of (p, true) hs = packet p ∷ hs
packet_of (p, false) hs = hs

-- What of the events is heard.
unfoldable pub heard : {D : Type 0} → Bool → List (SupervisorEvent D) → List (Heard D)
heard l [] = []
heard l (simulated d ∷ es) = written d ∷ heard l es
heard true (udp payload ∷ es) =
    packet_of (try_parse (some payload) (length payload) zero_packet) (heard true es)
heard l (_ ∷ es) = heard l es

module _ {D : Type 0} where
  unfoldable pub brings_handles : SupervisorEvent D → Bool
  brings_handles (sim_handles h) = true
  brings_handles _ = false

  -- The lines of the reaction to datagrams: all but those of startup and shutdown.
  unfoldable pub reactions_of : List (ReactorLine D) → List (LogLine D)
  reactions_of [] = []
  reactions_of (reaction l ∷ ls) = l ∷ reactions_of ls
  reactions_of (_ ∷ ls) = reactions_of ls

  -- One warning for each packet, and nothing else.
  unfoldable pub unready : List (Heard D) → List (LogLine D)
  unready [] = []
  unready (packet p ∷ hs) = not_ready ∷ unready hs
  unready (written d ∷ hs) = unready hs

module _ {D : Type 0} ⦃f : Double D⦄ where
  -- The logic alone, on one model: each packet is processed on the data as they are then.
  unfoldable pub run_logic :
      Model D
      → List (Heard D)
      → SupervisorLogic D
      → Data D
      → SupervisorLogic D × Data D × List (Action D)
  run_logic m [] s d = (s, d, [])
  run_logic m (written d' ∷ hs) s d = run_logic m hs s d'
  run_logic m (packet p ∷ hs) s d =
      let (s1, d1, a1) = process s m d p in
      let (s2, d2, a2) = run_logic m hs s1 d1 in (s2, d2, a1 ++ a2)

  -- A supervisor at work on a model.
  abbrev pub at_work : Installed → Model D → SupervisorLogic D → Data D → SupervisorReactor D
  at_work i m s d = record {
    installed = i;
    supervisor = record { logic = s; handles = some (record { model = m; data_ = d }) };
  }

  abbrev pub before_handles : Installed → SupervisorLogic D → SupervisorReactor D
  before_handles i s = record { installed = i; supervisor = record { logic = s; handles = none } }

  -- What has come of a run: where the reactor is, and the lines of its reaction to datagrams.
  abbrev pub outcome :
      SupervisorReactor D × List (ReactorLine D) → SupervisorReactor D × List (LogLine D)
  outcome (r, lines) = (r, reactions_of lines)

  abbrev pub followed :
      Installed
      → Model D
      → SupervisorLogic D × Data D × List (Action D)
      → SupervisorReactor D × List (LogLine D)
  followed i m (s, d, acts) = (at_work i m s d, log_actions acts)

  -- A run after certain lines.
  abbrev pub after_lines :
      List (LogLine D)
      → SupervisorReactor D × List (LogLine D)
      → SupervisorReactor D × List (LogLine D)
  after_lines lines (r, more) = (r, lines ++ more)

  reactions_of-reactions :
      (ls : List (LogLine D)) (more : List (ReactorLine D))
      → reactions_of (reactions ls ++ more) ≡ ls ++ reactions_of more
  unfolding reactions_of
  reactions_of-reactions [] more = refl
  reactions_of-reactions (l ∷ ls) more = ap (λ ks. l ∷ ks) (reactions_of-reactions ls more)

  log_actions-append :
      (as1 as2 : List (Action D)) → log_actions (as1 ++ as2) ≡ log_actions as1 ++ log_actions as2
  log_actions-append [] as2 = refl
  log_actions-append (a ∷ as1) as2 = ap (λ ks. action a ∷ ks) (log_actions-append as1 as2)

  -- A run from the reaction to a datagram on, for an answer of `try_parse`.
  abbrev after_datagram :
      List (SupervisorEvent D)
      → SupervisorReactor D
      → GameControllerPacket × Bool
      → SupervisorReactor D × List (ReactorLine D)
  after_datagram es r answer =
      let (s', lines) = if_accepted answer r.supervisor in
      let (r2, more) = supervise_all es (record r { supervisor = s' }) in
      (r2, reactions lines ++ more)

  -- A datagram before the handles leaves a warning, if it is a packet.
  deaf :
      (es : List (SupervisorEvent D)) (i : Installed) (s : SupervisorLogic D) (hs : List (Heard D))
      (end : SupervisorReactor D × List (LogLine D))
      → outcome (supervise_all es (before_handles i s)) ≡ after_lines (unready hs) end
      → (answer : GameControllerPacket × Bool)
      → outcome (after_datagram es (before_handles i s) answer)
        ≡ after_lines (unready (packet_of answer hs)) end
  unfolding on_packet reactions_of unready
  deaf es i s hs end h (p, true) = ap (after_lines (not_ready ∷ [])) h
  deaf es i s hs end h (p, false) = h

  early :
      (es fs : List (SupervisorEvent D)) (i : Installed) (s : SupervisorLogic D)
      → All (λ e. brings_handles e ≡ false) es
      → outcome (supervise_all (es ++ fs) (before_handles i s))
        ≡ after_lines
            (unready (heard (listens i) es))
            (outcome (supervise_all fs (before_handles i s)))
  unfolding supervise_all supervise startup_line on_datagram on_udp reactions_of brings_handles
      heard unready
  early [] fs i s h = refl
  early (startup ∷ es) fs bound s h = early es fs bound s h.1
  early (startup ∷ es) fs unbound s h = early es fs unbound s h.1
  early (startup ∷ es) fs disabled s h = early es fs disabled s h.1
  early (shutdown ∷ es) fs bound s h = early es fs bound s h.1
  early (shutdown ∷ es) fs unbound s h = early es fs unbound s h.1
  early (shutdown ∷ es) fs disabled s h = early es fs disabled s h.1
  early (sim_handles g ∷ es) fs i s h = absurd (true≢false h.0)
  early (udp payload ∷ es) fs disabled s h = early es fs disabled s h.1
  early (udp payload ∷ es) fs unbound s h = early es fs unbound s h.1
  early (udp payload ∷ es) fs bound s h =
      deaf (es ++ fs) bound s (heard true es) (outcome (supervise_all fs (before_handles bound s)))
        (early es fs bound s h.1) (try_parse (some payload) (length payload) zero_packet)
  early (simulated d ∷ es) fs bound s h = early es fs bound s h.1
  early (simulated d ∷ es) fs unbound s h = early es fs unbound s h.1
  early (simulated d ∷ es) fs disabled s h = early es fs disabled s h.1

  -- A datagram that arrives at work is the logic's, if it is a packet.
  worked :
      (es : List (SupervisorEvent D)) (m : Model D) (s : SupervisorLogic D) (d : Data D)
      (hs : List (Heard D))
      → ((s' : SupervisorLogic D) (d' : Data D)
          → outcome (supervise_all es (at_work bound m s' d'))
            ≡ followed bound m (run_logic m hs s' d'))
      → (answer : GameControllerPacket × Bool)
      → outcome (after_datagram es (at_work bound m s d) answer)
        ≡ followed bound m (run_logic m (packet_of answer hs) s d)
  unfolding on_packet run_logic
  worked es m s d hs ih (p, true) =
      let (s1, d1, a1) = process s m d p in
      let (s2, d2, a2) = run_logic m hs s1 d1 in
      ap (λ l. ((supervise_all es (at_work bound m s1 d1)).0, l))
        (reactions_of-reactions (log_actions a1) _)
      ∙ ap (after_lines (log_actions a1)) (ih s1 d1)
      ∙ ap (λ l. (at_work bound m s2 d2, l)) (sym (log_actions-append a1 a2))
  worked es m s d hs ih (p, false) = ih s d

  late :
      (es : List (SupervisorEvent D)) (i : Installed) (m : Model D) (s : SupervisorLogic D)
      (d : Data D)
      → All (λ e. brings_handles e ≡ false) es
      → outcome (supervise_all es (at_work i m s d))
        ≡ followed i m (run_logic m (heard (listens i) es) s d)
  unfolding supervise_all supervise startup_line on_datagram on_udp reactions_of brings_handles
      heard run_logic
  late [] i m s d h = refl
  late (startup ∷ es) bound m s d h = late es bound m s d h.1
  late (startup ∷ es) unbound m s d h = late es unbound m s d h.1
  late (startup ∷ es) disabled m s d h = late es disabled m s d h.1
  late (shutdown ∷ es) bound m s d h = late es bound m s d h.1
  late (shutdown ∷ es) unbound m s d h = late es unbound m s d h.1
  late (shutdown ∷ es) disabled m s d h = late es disabled m s d h.1
  late (sim_handles g ∷ es) i m s d h = absurd (true≢false h.0)
  late (udp payload ∷ es) disabled m s d h = late es disabled m s d h.1
  late (udp payload ∷ es) unbound m s d h = late es unbound m s d h.1
  late (udp payload ∷ es) bound m s d h =
      worked es m s d (heard true es) (λ s' d'. late es bound m s' d' h.1)
        (try_parse (some payload) (length payload) zero_packet)
  late (simulated d' ∷ es) bound m s d h = late es bound m s d' h.1
  late (simulated d' ∷ es) unbound m s d h = late es unbound m s d' h.1
  late (simulated d' ∷ es) disabled m s d h = late es disabled m s d' h.1

  listens-installing :
      (cfg : SupervisorConfig D) (binds : Bool)
      → listens (installing cfg binds).0 ≡ cfg.enabled && binds
  listens-installing cfg binds = ground arith

  -- Whatever arrives before and after the one message with the handles: a packet among the earlier
  -- datagrams leaves a warning and nothing else. The logic begins with that message, and from there
  -- on it processes the packets among the datagrams, in their order, on the data as they are then,
  -- and its actions are logged. That holds if the supervisor is enabled and the port could be bound;
  -- if not, datagrams do nothing and only the simulation changes the data. A datagram that is no
  -- packet never leaves a line, and changes nothing.
  pub supervise_all-run_logic :
      (cfg : SupervisorConfig D) (binds : Bool) (es fs : List (SupervisorEvent D)) (h : Handles D)
      → All (λ e. brings_handles e ≡ false) es
      → All (λ e. brings_handles e ≡ false) fs
      → let r = (construct_supervisor cfg binds).0 in
        let on = cfg.enabled && binds in
        outcome (supervise_all (es ++ (sim_handles h ∷ fs)) r)
        ≡ after_lines
            (unready (heard on es))
            (followed r.installed h.model (run_logic h.model (heard on fs) (start cfg) h.data_))
  unfolding construct_supervisor supervise_all supervise reactions_of
  supervise_all-run_logic cfg binds es fs h he hf =
      let i = (installing cfg binds).0 in
      early es (sim_handles h ∷ fs) i (start cfg) he
      ∙ ap (after_lines (unready (heard (listens i) es))) (late fs i h.model (start cfg) h.data_ hf)
      ∙ ap
          (λ on.
            after_lines (unready (heard on es))
              (followed i h.model (run_logic h.model (heard on fs) (start cfg) h.data_)))
          (listens-installing cfg binds)
