-- ===== src/Supervisor/Logic/Penalties.antt =====
-- When a robot's penalty state changes, told from the two packets.
use nusim.Base.{
  ℕ, ◌-◌, ◌%◌, ◌≤◌, ◌≡◌, refl, sym, ◌∙◌, ◌≢◌, ◌↔◌, ◌⊎◌, inl, inr, true, false, Option, none, some,
  arith, get_or, Option-cases, ==_iff, ◌==◌, ◌==ℤ◌, ltb, ◌||◌, Bool, ap, if◌then◌else◌, ℤ, pos,
  negsuc, ==ℤ-eq,
}
use mathlib.Core.Bool.{true≢false}
use mathlib.Core.Option.{some_inj, none-ne-some}
use nusim.Double.{Double}
use nusim.Supervisor.Packet.{GameControllerPacket, Team, max_num_players}
use nusim.Supervisor.Transitions.{find_team, penalty_of}
use nusim.Supervisor.Config.{RobotConfig}
use nusim.Supervisor.Logic.{resolve_team, old_penalty, penalty_change}

-- The robot's team in a packet: the first with the configured number, of eight bits, or, where
-- that is negative, the one with the configured index.
abbrev pub OnTeamOf : ℤ → ℤ → GameControllerPacket → Team → Type 0
OnTeamOf (pos n) index p t =
    ((p.team0.team_id ≡ n % 256) × (p.team0 ≡ t))
    ⊎ ((p.team0.team_id ≢ n % 256) × (p.team1.team_id ≡ n % 256) × (p.team1 ≡ t))
OnTeamOf (negsuc _) index p t =
    ((index ≡ pos 0) × (p.team0 ≡ t)) ⊎ ((index ≡ pos 1) × (p.team1 ≡ t))

-- The penalty state of the player of a number from 1 on.
abbrev pub penalty : Team → ℕ → ℕ
penalty t id =
    (get_or t.players (id - 1)
      (record { penalty_state = 0; penalised_time_left = 0; cautions = 0 })).penalty_state

module _ {A : Type 0} where
  -- The first of two whose test succeeds.
  pick_iff :
      (c1 c2 : Bool) (a b t : A)
      → ((if c1 then some a else if c2 then some b else none) ≡ some t)
        ↔ (((c1 ≡ true) × (a ≡ t)) ⊎ ((c1 ≡ false) × (c2 ≡ true) × (b ≡ t)))
  pick_iff true c2 a b t = (
    λ e. inl (refl, some_inj.0 e),
    λ h. elim h [ inl x ↦ ap some x.1 | inr x ↦ absurd (true≢false x.0) ],
  )
  pick_iff false true a b t = (
    λ e. inr (refl, refl, some_inj.0 e),
    λ h. elim h [ inl x ↦ absurd (true≢false (sym x.0)) | inr x ↦ ap some x.2 ],
  )
  pick_iff false false a b t = (
    λ e. absurd (none-ne-some _ e),
    λ h. elim h [ inl x ↦ absurd (true≢false (sym x.0)) | inr x ↦ absurd (true≢false (sym x.1)) ],
  )

abbrev limited : ℕ → ℕ → ℕ → Option ℕ
limited id new old =
    if ltb id 1 || ltb max_num_players id then none else if new == old then none else some new

limited_iff :
    (id new old ps : ℕ)
    → (limited id new old ≡ some ps) ↔ ((1 ≤ id) × (id ≤ 20) × (new ≡ ps) × (old ≢ ps))
limited_iff id new old ps = ((λ h. ground arith), (λ h. ground arith))

==_not : (a b : ℕ) → ((a == b) ≡ false) ↔ (a ≢ b)
==_not a b = ((λ h. ground arith), (λ h. ground arith))

==ℤ_iff : (i : ℤ) (n : ℕ) → ((i ==ℤ pos n) ≡ true) ↔ (i ≡ pos n)
==ℤ_iff i n = (==ℤ-eq i (pos n), λ h. ground arith)

module _ {D : Type 0} ⦃f : Double D⦄ where
  abbrev pub OnTeam : GameControllerPacket → RobotConfig D → Team → Type 0
  OnTeam p rc t = OnTeamOf rc.team_id rc.team_index p t

  -- What the packet before said; no packet, or one without the team, says unpenalised.
  abbrev pub Before : Option GameControllerPacket → RobotConfig D → ℕ → ℕ → Type 0
  Before none rc id old = old ≡ 0
  Before (some q) rc id old =
      ((t : Team) × OnTeam q rc t × (penalty t id ≡ old))
      ⊎ (((t : Team) → ¬ OnTeam q rc t) × (old ≡ 0))

  -- The packet gives the robot, one of the players 1 to 20 of a team in it, the penalty state `ps`,
  -- which is not the one before.
  pub record Changed (prev : Option GameControllerPacket) (p : GameControllerPacket)
      (rc : RobotConfig D) (ps : ℕ) : Type 0 where
    pub id : ℕ
    pub number : rc.player_id ≡ pos id
    pub low : 1 ≤ id
    pub high : id ≤ 20
    pub team : Team
    pub on_team : OnTeam p rc team
    pub now : penalty team id ≡ ps
    pub old : ℕ
    pub before : Before prev rc id old
    pub differs : old ≢ ps

  resolve_team_iff :
      (p : GameControllerPacket) (rc : RobotConfig D) (i : ℤ) (t : Team)
      → rc.team_id ≡ i
      → (resolve_team p rc ≡ some t) ↔ OnTeamOf i rc.team_index p t
  unfolding resolve_team find_team
  resolve_team_iff p rc (pos n) t e =
      let (there, back) =
        pick_iff (p.team0.team_id == n % 256) (p.team1.team_id == n % 256) p.team0 p.team1 t in
      let (is0, to0) = ==_iff p.team0.team_id (n % 256) in
      let (is1, to1) = ==_iff p.team1.team_id (n % 256) in
      let (not0, to_not0) = ==_not p.team0.team_id (n % 256) in
      rw e (
        λ h. elim (there h) [ inl x ↦ inl (is0 x.0, x.1) | inr x ↦ inr (not0 x.0, is1 x.1, x.2) ],
        λ h. back (elim h [ inl x ↦ inl (to0 x.0, x.1) | inr x ↦ inr (to_not0 x.0, to1 x.1, x.2) ]),
      )
  resolve_team_iff p rc (negsuc n) t e =
      let (there, back) =
        pick_iff (rc.team_index ==ℤ pos 0) (rc.team_index ==ℤ pos 1) p.team0 p.team1 t in
      let (is0, to0) = ==ℤ_iff rc.team_index 0 in
      let (is1, to1) = ==ℤ_iff rc.team_index 1 in
      rw e (
        λ h. elim (there h) [ inl x ↦ inl (is0 x.0, x.1) | inr x ↦ inr (is1 x.1, x.2) ],
        λ h. back (elim h [
          | inl x ↦ inl (to0 x.0, x.1)
          | inr x ↦ inr (ap (λ i. i ==ℤ pos 0) x.0, to1 x.0, x.1)
        ]),
      )

  old_penalty-Before :
      (prev : Option GameControllerPacket) (rc : RobotConfig D) (id : ℕ)
      → Before prev rc id (old_penalty prev rc id)
  unfolding old_penalty penalty_of
  old_penalty-Before none rc id = refl
  old_penalty-Before (some q) rc id = elim (Option-cases (resolve_team q rc)) [
    | inl e ↦ inr (
      λ t on. none-ne-some t (sym e ∙ (resolve_team_iff q rc rc.team_id t refl).1 on),
      rw (e, old_penalty) refl,
    )
    | inr (t, e) ↦ inl (t, (resolve_team_iff q rc rc.team_id t refl).0 e, rw (e, old_penalty) refl)
  ]

  Before-unique :
      (prev : Option GameControllerPacket) (rc : RobotConfig D) (id o : ℕ)
      → Before prev rc id o
      → old_penalty prev rc id ≡ o
  unfolding old_penalty penalty_of
  Before-unique none rc id o h = sym h
  Before-unique (some q) rc id o (inl (t, on, same)) =
      rw ((resolve_team_iff q rc rc.team_id t refl).1 on, old_penalty) same
  Before-unique (some q) rc id o (inr (never, zero_)) = elim (Option-cases (resolve_team q rc)) [
    | inl e ↦ rw (e, old_penalty) (sym zero_)
    | inr (t, e) ↦ absurd (never t ((resolve_team_iff q rc rc.team_id t refl).0 e))
  ]

  -- The rest of `penalty_change`, once the team is known.
  of_player : Option GameControllerPacket → RobotConfig D → Team → ℤ → Option ℕ
  unfolding penalty_of
  of_player prev rc t (negsuc _) = none
  of_player prev rc t (pos id) = limited id (penalty t id) (old_penalty prev rc id)

  penalty_change-of_player :
      (prev : Option GameControllerPacket) (p : GameControllerPacket) (rc : RobotConfig D)
      (t : Team)
      → resolve_team p rc ≡ some t
      → penalty_change prev p rc ≡ of_player prev rc t rc.player_id
  unfolding penalty_change penalty_of of_player
  penalty_change-of_player prev p rc t e = rw (e, penalty_change) refl

  of_player-Changed :
      (prev : Option GameControllerPacket) (p : GameControllerPacket) (rc : RobotConfig D) (ps : ℕ)
      (t : Team) (i : ℤ)
      → resolve_team p rc ≡ some t
      → rc.player_id ≡ i
      → of_player prev rc t i ≡ some ps
      → Changed prev p rc ps
  unfolding of_player
  of_player-Changed prev p rc ps t (negsuc _) e n h = absurd (none-ne-some ps h)
  of_player-Changed prev p rc ps t (pos id) e n h =
      let (low, high, now, differs) =
        (limited_iff id (penalty t id) (old_penalty prev rc id) ps).0 h in
      record {
        id = id;
        number = n;
        low = low;
        high = high;
        team = t;
        on_team = (resolve_team_iff p rc rc.team_id t refl).0 e;
        now = now;
        old = old_penalty prev rc id;
        before = old_penalty-Before prev rc id;
        differs = differs;
      }

  pub penalty_change-Changed :
      (prev : Option GameControllerPacket) (p : GameControllerPacket) (rc : RobotConfig D) (ps : ℕ)
      → penalty_change prev p rc ≡ some ps
      → Changed prev p rc ps
  unfolding penalty_change
  penalty_change-Changed prev p rc ps h = elim (Option-cases (resolve_team p rc)) [
    | inl e ↦ absurd (none-ne-some ps (sym (rw (e, penalty_change) refl) ∙ h))
    | inr (t, e) ↦
        of_player-Changed prev p rc ps t rc.player_id e refl
          (sym (penalty_change-of_player prev p rc t e) ∙ h)
  ]

  pub Changed-penalty_change :
      (prev : Option GameControllerPacket) (p : GameControllerPacket) (rc : RobotConfig D) (ps : ℕ)
      → Changed prev p rc ps
      → penalty_change prev p rc ≡ some ps
  unfolding of_player
  Changed-penalty_change prev p rc ps h =
      penalty_change-of_player prev p rc h.team
        ((resolve_team_iff p rc rc.team_id h.team refl).1 h.on_team)
      ∙ ap (of_player prev rc h.team) h.number
      ∙ (limited_iff h.id (penalty h.team h.id) (old_penalty prev rc h.id) ps).1 (
        h.low,
        h.high,
        h.now,
        λ same. h.differs (sym (Before-unique prev rc h.id h.old h.before) ∙ same),
      )
