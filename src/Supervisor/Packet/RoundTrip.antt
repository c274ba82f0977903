-- ===== src/Supervisor/Packet/RoundTrip.antt =====
-- What `try_parse` accepts, and that it recovers the packet that was written.
use nusim.Base.{
  ℕ, zero, suc, ◌+◌, ◌*◌, ◌≤◌, ◌≡◌, refl, sym, ap, ◌∙◌, ◌↔◌, ◌⊎◌, true, false, some, List, [], ◌∷◌,
  ◌++◌, arith, length, drop,
}
use nusim.Supervisor.Packet.{
  Robot, Team, GameControllerPacket, receive_header, supported_version, max_num_players,
  packet_size, byte, word, robots_at, team_at, packet_at, equal_bytes, try_parse,
}
use nusim.Supervisor.Packet.Layout.{
  word_bytes, robots_bytes, team_bytes, packet_bytes, fields_bytes,
}

-- The byte at the head of what is left, and what is left after it.
next :
    (b : List ℕ) (i j : ℕ) {x : ℕ} {r : List ℕ}
    → drop i b ≡ x ∷ r
    → j ≡ suc i
    → (byte b i ≡ x) × (drop j b ≡ r)
next [] zero j e q = cc
next [] (suc i) j e q = cc
next (y ∷ b) zero j e q = (cc, ap (λ k. drop k (y ∷ b)) q ∙ cc)
next (y ∷ b) (suc i) j e q =
    let (p, s) = next b i (suc i) e refl in (p, ap (λ k. drop k (y ∷ b)) q ∙ s)

next_word :
    (b : List ℕ) (i j : ℕ) {w : ℕ} {r : List ℕ}
    → drop i b ≡ word_bytes w r
    → j ≡ 2 + i
    → (word b i ≡ w) × (drop j b ≡ r)
next_word b i j e q =
    let (lo, e1) = next b i (1 + i) e (omega arith) in
    let (hi, e2) = next b (1 + i) j e1 (omega arith) in (omega arith, e2)

robots_at-robots_bytes :
    (b : List ℕ) (o j : ℕ) (rs : List Robot) {rest : List ℕ}
    → drop o b ≡ robots_bytes rs rest
    → j ≡ length rs * 3 + o
    → (robots_at b o (length rs) ≡ rs) × (drop j b ≡ rest)
unfolding robots_at robots_bytes
robots_at-robots_bytes b o j [] e q = (refl, ap (λ k. drop k b) (q ∙ omega arith) ∙ e)
robots_at-robots_bytes b o j (r ∷ rs) e q =
    let (a, e1) = next b o (1 + o) e (omega arith) in
    let (t, e2) = next b (1 + o) (2 + o) e1 (omega arith) in
    let (c, e3) = next b (2 + o) (3 + o) e2 (omega arith) in
    let (s, e4) = robots_at-robots_bytes b (3 + o) j rs e3 (omega arith) in (cc, e4)

team_at-team_bytes :
    (b : List ℕ) (o j : ℕ) (t : Team) {rest : List ℕ}
    → drop o b ≡ team_bytes t rest
    → length t.players ≡ max_num_players
    → j ≡ 70 + o
    → (team_at b o ≡ t) × (drop j b ≡ rest)
unfolding team_at team_bytes
team_at-team_bytes b o j t e n q =
    let (f0, e0) = next b o (1 + o) e (omega arith) in
    let (f1, e1) = next b (1 + o) (2 + o) e0 (omega arith) in
    let (f2, e2) = next b (2 + o) (3 + o) e1 (omega arith) in
    let (f3, e3) = next b (3 + o) (4 + o) e2 (omega arith) in
    let (f4, e4) = next b (4 + o) (5 + o) e3 (omega arith) in
    let (f5, e5) = next b (5 + o) (6 + o) e4 (omega arith) in
    let (f6, e6) = next_word b (6 + o) (8 + o) e5 (omega arith) in
    let (f7, e7) = next_word b (8 + o) (10 + o) e6 (omega arith) in
    let (f8, e8) = robots_at-robots_bytes b (10 + o) j t.players e7 (omega arith) in
    let f9 : robots_at b (10 + o) max_num_players ≡ t.players =
      ap (robots_at b (10 + o)) (sym n) ∙ f8 in
    (cc, e8)

-- A packet as `memcpy` can fill it and `try_parse` accepts it.
pub record IsSpoken (p : GameControllerPacket) : Type 0 where
  pub header_eq : p.header ≡ receive_header
  pub version_eq : p.version ≡ supported_version
  pub players0 : length p.team0.players ≡ max_num_players
  pub players1 : length p.team1.players ≡ max_num_players

-- Reading the packet's fields off a payload that holds them.
packet_at_of :
    (b : List ℕ) (p : GameControllerPacket) (rest : List ℕ)
    → b ≡ packet_bytes p rest
    → IsSpoken p
    → packet_at b ≡ p
unfolding packet_at packet_bytes
packet_at_of b p rest e s =
    let (h0, e0) = next b 0 1 (e ∙ ap (λ h. h ++ fields_bytes p rest) s.header_eq) refl in
    let (h1, e1) = next b 1 2 e0 refl in
    let (h2, e2) = next b 2 3 e1 refl in
    let (h3, e3) = next b 3 4 e2 refl in
    let (f4, e4) = next b 4 5 e3 refl in
    let (f5, e5) = next b 5 6 e4 refl in
    let (f6, e6) = next b 6 7 e5 refl in
    let (f7, e7) = next b 7 8 e6 refl in
    let (f8, e8) = next b 8 9 e7 refl in
    let (f9, e9) = next b 9 10 e8 refl in
    let (f10, e10) = next b 10 11 e9 refl in
    let (f11, e11) = next b 11 12 e10 refl in
    let (f12, e12) = next b 12 13 e11 refl in
    let (f13, e13) = next b 13 14 e12 refl in
    let (f14, e14) = next_word b 14 16 e13 refl in
    let (f15, e15) = next_word b 16 18 e14 refl in
    let (f16, e16) = team_at-team_bytes b 18 88 p.team0 e15 s.players0 refl in
    let (f17, e17) = team_at-team_bytes b 88 158 p.team1 e16 s.players1 refl in
    let header = s.header_eq in cc

length-robots_bytes :
    (rs : List Robot) (rest : List ℕ) → length (robots_bytes rs rest) ≡ length rs * 3 + length rest
unfolding robots_bytes
length-robots_bytes [] rest = omega arith
length-robots_bytes (r ∷ rs) rest = omega (arith, length-robots_bytes rs rest)

length-packet_bytes :
    (p : GameControllerPacket) (rest : List ℕ)
    → IsSpoken p
    → length (packet_bytes p rest) ≡ packet_size + length rest
unfolding packet_bytes team_bytes
length-packet_bytes p rest s = rw s.header_eq (
    omega (
      arith,
      s.players0,
      s.players1,
      length-robots_bytes p.team0.players (team_bytes p.team1 rest),
      length-robots_bytes p.team1.players rest,
    ))

-- A packet with the right header and version and with twenty players in each team, laid out on the
-- wire, is parsed back to itself,
-- whatever stands behind it in the payload and whatever `out` held before.
pub try_parse-packet_bytes :
    (p out : GameControllerPacket) (rest : List ℕ)
    → IsSpoken p
    → try_parse (some (packet_bytes p rest)) (length (packet_bytes p rest)) out ≡ (p, true)
unfolding try_parse
try_parse-packet_bytes p out rest s =
    rw
      (
        packet_at_of (packet_bytes p rest) p rest refl s,
        length-packet_bytes p rest s,
        s.header_eq,
        s.version_eq,
      )
      (ground arith)

equal_bytes_iff : (xs ys : List ℕ) → (equal_bytes xs ys ≡ true) ↔ (xs ≡ ys)
equal_bytes_iff [] [] = ((λ e. refl), (λ e. refl))
equal_bytes_iff [] (y ∷ ys) = ((λ e. cc), (λ e. cc))
equal_bytes_iff (x ∷ xs) [] = ((λ e. cc), (λ e. cc))
equal_bytes_iff (x ∷ xs) (y ∷ ys) =
    ((λ e. ground (arith, equal_bytes_iff xs ys)), (λ e. ground (arith, equal_bytes_iff xs ys)))

-- A payload is accepted exactly if it is long enough and begins with the header and the version;
-- then `out` is what `memcpy` makes of it. Otherwise `out` is untouched.
pub try_parse-cases :
    (b : List ℕ) (len : ℕ) (out : GameControllerPacket)
    → let accepted =
        (packet_size ≤ len)
        × ((packet_at b).header ≡ receive_header)
        × ((packet_at b).version ≡ supported_version) in
      (accepted × (try_parse (some b) len out ≡ (packet_at b, true)))
      ⊎ ((¬ accepted) × (try_parse (some b) len out ≡ (out, false)))
unfolding try_parse
try_parse-cases b len out = ground (arith, equal_bytes_iff (packet_at b).header receive_header)
