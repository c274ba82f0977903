-- ===== src/Supervisor/Packet/Layout.antt =====
-- The fields of a packet lie side by side on the wire: read at their offsets and written one after
-- the other they give back the bytes of the payload.
use nusim.Base.{
  ℕ, zero, suc, ◌+◌, ◌*◌, ◌/◌, ◌%◌, ◌≤◌, ◌<◌, ◌≡◌, refl, ap, ◌∙◌, List, [], ◌∷◌, ◌++◌, arith,
  length, drop, All,
}
use nusim.Supervisor.Packet.{
  Robot, Team, GameControllerPacket, team_size, packet_size, byte, word, robots_at, team_at,
  packet_at,
}

abbrev pub word_bytes : ℕ → List ℕ → List ℕ
word_bytes w rest = (w % 256) ∷ (w / 256) ∷ rest

-- The fields in the order of the struct, in front of `rest`.
unfoldable pub robot_bytes : Robot → List ℕ → List ℕ
robot_bytes r rest = r.penalty_state ∷ r.penalised_time_left ∷ r.cautions ∷ rest

unfoldable pub robots_bytes : List Robot → List ℕ → List ℕ
unfolding robot_bytes
robots_bytes [] rest = rest
robots_bytes (r ∷ rs) rest = robot_bytes r (robots_bytes rs rest)

unfoldable pub team_bytes : Team → List ℕ → List ℕ
team_bytes t rest =
    t.team_id
    ∷ t.field_player_colour
    ∷ t.goalkeeper_colour
    ∷ t.goalkeeper
    ∷ t.score
    ∷ t.penalty_shot
    ∷ word_bytes t.single_shots (word_bytes t.message_budget (robots_bytes t.players rest))

-- The fields behind the header.
abbrev pub fields_bytes : GameControllerPacket → List ℕ → List ℕ
fields_bytes p rest =
    p.version
    ∷ p.packet_number
    ∷ p.players_per_team
    ∷ p.competition_type
    ∷ p.stopped
    ∷ p.game_phase
    ∷ p.state
    ∷ p.set_play
    ∷ p.first_half
    ∷ p.kicking_team
    ∷ word_bytes p.secs_remaining
        (word_bytes p.secondary_time (team_bytes p.team0 (team_bytes p.team1 rest)))

unfoldable pub packet_bytes : GameControllerPacket → List ℕ → List ℕ
packet_bytes p rest = p.header ++ fields_bytes p rest

abbrev pub IsByte : ℕ → Type 0
IsByte b = b < 256

byte-IsByte : (b : List ℕ) (i : ℕ) → All IsByte b → byte b i < 256
byte-IsByte [] i h = omega arith
byte-IsByte (x ∷ b) zero h = h.0
byte-IsByte (x ∷ b) (suc i) h = byte-IsByte b i h.1

-- Reading one byte, or one word, and going on after it.
peel :
    (b : List ℕ) (i j : ℕ) (rest : List ℕ)
    → rest ≡ drop j b
    → j ≡ suc i
    → i < length b
    → byte b i ∷ rest ≡ drop i b
peel [] i j rest e q h = elim h [ ]
peel (x ∷ b) zero j rest e q h = ap (◌∷◌ x) (e ∙ ap (λ k. drop k (x ∷ b)) q)
peel (x ∷ b) (suc i) j rest e q h =
    peel b i (suc i) rest (e ∙ ap (λ k. drop k (x ∷ b)) q) refl (omega arith)

peel_word :
    (b : List ℕ) (i j : ℕ) (rest : List ℕ)
    → All IsByte b
    → rest ≡ drop j b
    → j ≡ 2 + i
    → j ≤ length b
    → word_bytes (word b i) rest ≡ drop i b
peel_word b i j rest h e q l =
    word_low
    ∙ peel b i (1 + i) _ (peel b (1 + i) j rest e (omega arith) (omega arith)) (omega arith)
        (omega arith)
  where
    word_low : word_bytes (word b i) rest ≡ byte b i ∷ byte b (1 + i) ∷ rest
    word_low = ground (arith, byte-IsByte b i h, byte-IsByte b (1 + i) h)

robots_bytes-robots_at :
    (b : List ℕ) (o n j : ℕ) (rest : List ℕ)
    → rest ≡ drop j b
    → j ≡ n * 3 + o
    → j ≤ length b
    → robots_bytes (robots_at b o n) rest ≡ drop o b
unfolding robots_bytes robots_at
robots_bytes-robots_at b o zero j rest e q l = e ∙ ap (λ k. drop k b) (omega arith)
robots_bytes-robots_at b o (suc n) j rest e q l =
    peel b o (1 + o) _
      (peel b (1 + o) (2 + o) _
        (peel b (2 + o) (3 + o) _ (robots_bytes-robots_at b (3 + o) n j rest e (omega arith) l)
          (omega arith) (omega arith))
        (omega arith) (omega arith))
      (omega arith) (omega arith)

team_bytes-team_at :
    (b : List ℕ) (o j : ℕ) (rest : List ℕ)
    → All IsByte b
    → rest ≡ drop j b
    → j ≡ team_size + o
    → j ≤ length b
    → team_bytes (team_at b o) rest ≡ drop o b
unfolding team_bytes team_at
team_bytes-team_at b o j rest h e q l =
    one o (1 + o)
      (one (1 + o) (2 + o)
        (one (2 + o) (3 + o)
          (one (3 + o) (4 + o)
            (one (4 + o) (5 + o)
              (one (5 + o) (6 + o)
                (peel_word b (6 + o) (8 + o) _ h
                  (peel_word b (8 + o) (10 + o) _ h
                    (robots_bytes-robots_at b (10 + o) 20 j rest e (omega arith) l) (omega arith)
                    (omega arith))
                  (omega arith) (omega arith))
                (omega arith) (omega arith))
              (omega arith) (omega arith))
            (omega arith) (omega arith))
          (omega arith) (omega arith))
        (omega arith) (omega arith))
      (omega arith) (omega arith)
  where
    one : (i k : ℕ) {r : List ℕ} → r ≡ drop k b → k ≡ suc i → k ≤ length b → byte b i ∷ r ≡ drop i b
    one i k {r} e' q' l' = peel b i k r e' q' (omega arith)

-- The struct read from a payload and written out again, field after field, is the payload: no byte
-- of it is lost, read twice or read from the wrong place.
pub packet_bytes-packet_at :
    (b : List ℕ)
    → All IsByte b
    → packet_size ≤ length b
    → packet_bytes (packet_at b) (drop packet_size b) ≡ b
unfolding packet_bytes packet_at
packet_bytes-packet_at b h l =
    one 0
      (one 1
        (one 2
          (one 3
            (one 4
              (one 5
                (one 6
                  (one 7
                    (one 8
                      (one 9
                        (one 10
                          (one 11
                            (one 12
                              (one 13
                                (peel_word b 14 16 _ h
                                  (peel_word b 16 18 _ h
                                    (team_bytes-team_at b 18 88 _ h
                                      (team_bytes-team_at b 88 158 _ h refl refl l) refl
                                      (omega arith))
                                    refl (omega arith))
                                  refl (omega arith))
                                (omega arith))
                              (omega arith))
                            (omega arith))
                          (omega arith))
                        (omega arith))
                      (omega arith))
                    (omega arith))
                  (omega arith))
                (omega arith))
              (omega arith))
            (omega arith))
          (omega arith))
        (omega arith))
      (omega arith)
  where
    one : (i : ℕ) {r : List ℕ} → r ≡ drop (suc i) b → suc i ≤ length b → byte b i ∷ r ≡ drop i b
    one i {r} e l' = peel b i (suc i) r e refl l'
