-- ===== src/Sdk/Participant/Topics.antt =====
-- A topic is created once.
use nusim.Base.{
  ℕ, ◌+◌, ◌≤◌, ◌≡◌, refl, subst, inl, inr, Bool, Option, none, some, List, [], ◌∷◌, arith,
  if◌then◌else◌, Bool-cases, ℤ,
}
use Prim.Native.String.{String}
use text.Mathlib.Text.{◌==◌ as str_eq}
use text.Mathlib.TextEquality.{eq_iff}
use text.Mathlib.TextPositions.{eq_refl}
use nusim.Sdk.Participant.{
  DdsLibrary, DdsCall, topic_created, type_registered, DdsParticipant, Attempt, done, thrown,
  find_topic, create_topic, cached_topic, get_or_create_topic, get_topics, new_participant, ◌>>=◌,
}

pub >>=-eq-done {ℓ ℓ'} :
    {A : Type ℓ} {B : Type ℓ'} (m : Attempt A) (g : A → Attempt B) {b : B}
    → (m >>= g) ≡ done b
    → (a : A) × (m ≡ done a) × (g a ≡ done b)
>>=-eq-done (done a) g h = (a, refl, h)
>>=-eq-done (thrown e calls) g h = cc

-- How often a topic of a name was created.
unfoldable pub created : String → List DdsCall → ℕ
created name [] = 0
created name (topic_created n ∷ calls) = (if str_eq n name then 1 else 0) + created name calls
created name (call ∷ calls) = created name calls

-- A name was created at most once, and not at all where it is not found.
pub record IsCounted {T : Type 0} (name : String) (p : DdsParticipant T) : Type 0 where
  pub at_most_once : created name p.calls ≤ 1
  pub not_found : find_topic name p.topics ≡ none → created name p.calls ≡ 0

-- Each topic of a list is the one that its name finds.
unfoldable pub Finds : {T : Type 0} → DdsParticipant T → List (String × String) → List T → Type 0
Finds q [] [] = Unit
Finds q ((name, ty) ∷ rest) (t ∷ ts) = (find_topic name q.topics ≡ some t) × Finds q rest ts
Finds q _ _ = ⊥

done_inj : {A : Type 0} {a b : A} → done a ≡ done b → a ≡ b
done_inj h = cc

module _ {T : Type 0} where
  -- A participant with one more topic.
  abbrev added : String → String → DdsParticipant T → T → DdsParticipant T
  added name ty p t = record {
    topics = (name, t) ∷ p.topics;
    calls = topic_created name ∷ type_registered ty ∷ p.calls;
  }

  added-IsCounted :
      (name ty n : String) (p : DdsParticipant T) (t : T)
      → find_topic name p.topics ≡ none
      → IsCounted n p
      → IsCounted n (added name ty p t)
  unfolding find_topic created
  added-IsCounted name ty n p t h v = elim (Bool-cases (str_eq name n)) [
    | inl same ↦
        let never : created n p.calls ≡ 0 =
          v.not_found (subst (λ m. find_topic m p.topics ≡ none) ((eq_iff name n).0 same) h) in
        record { at_most_once = rw same (omega (arith, never)); not_found = rw same (λ e. cc) }
    | inr other ↦ record {
      at_most_once = rw other (omega (arith, v.at_most_once));
      not_found = rw other (λ e. omega (arith, v.not_found e));
    }
  ]

  added-finds :
      (name ty n : String) (p : DdsParticipant T) (t s : T)
      → find_topic name p.topics ≡ none
      → find_topic n p.topics ≡ some s
      → find_topic n (added name ty p t).topics ≡ some s
  unfolding find_topic
  added-finds name ty n p t s h e = elim (Bool-cases (str_eq name n)) [
    | inl same ↦ cc (subst (λ m. find_topic m p.topics ≡ none) ((eq_iff name n).0 same) h)
    | inr other ↦ rw other e
  ]

  added-finds_self :
      (name ty : String) (p : DdsParticipant T) (t : T)
      → find_topic name (added name ty p t).topics ≡ some t
  unfolding find_topic
  added-finds_self name ty p t = rw (eq_refl name) refl

-- What a participant keeps from an earlier one.
pub record Keeps {T : Type 0} (p q : DdsParticipant T) : Type 0 where
  pub found : (n : String) (s : T) → find_topic n p.topics ≡ some s → find_topic n q.topics ≡ some s
  pub counted : (n : String) → IsCounted n p → IsCounted n q

module _ {T : Type 0} (dds : DdsLibrary T) where
  created-Keeps :
      (name ty : String) (p q : DdsParticipant T) (o : Option T) (t : T)
      → find_topic name p.topics ≡ none
      → create_topic dds name ty p o ≡ done (t, q)
      → Keeps p q × (find_topic name q.topics ≡ some t)
  unfolding create_topic
  created-Keeps name ty p q none t h e = cc
  created-Keeps name ty p q (some t') t h e =
      subst (λ (r : T × DdsParticipant T). Keeps p r.1 × (find_topic name r.1.topics ≡ some r.0))
        (done_inj e)
        (
          record {
            found = λ n s g. added-finds name ty n p t' s h g;
            counted = λ n v. added-IsCounted name ty n p t' h v;
          },
          added-finds_self name ty p t',
        )

  cached-Keeps :
      (name ty : String) (p q : DdsParticipant T) (o : Option T) (t : T)
      → find_topic name p.topics ≡ o
      → cached_topic dds name ty p o ≡ done (t, q)
      → Keeps p q × (find_topic name q.topics ≡ some t)
  unfolding cached_topic
  cached-Keeps name ty p q none t h e = created-Keeps name ty p q (dds.create_topic name ty) t h e
  cached-Keeps name ty p q (some t') t h e =
      subst (λ (r : T × DdsParticipant T). Keeps p r.1 × (find_topic name r.1.topics ≡ some r.0))
        (done_inj e) (record { found = λ n s g. g; counted = λ n v. v }, h)

  get_or_create_topic-Keeps :
      (name ty : String) (p q : DdsParticipant T) (t : T)
      → get_or_create_topic dds name ty p ≡ done (t, q)
      → Keeps p q × (find_topic name q.topics ≡ some t)
  unfolding get_or_create_topic
  get_or_create_topic-Keeps name ty p q t e =
      cached-Keeps name ty p q (find_topic name p.topics) t refl e

  get_topics-Keeps :
      (names : List (String × String)) (p q : DdsParticipant T) (ts : List T)
      → get_topics dds names p ≡ done (ts, q)
      → Keeps p q × Finds q names ts
  unfolding get_topics Finds
  get_topics-Keeps [] p q ts e =
      subst (λ (r : List T × DdsParticipant T). Keeps p r.1 × Finds r.1 [] r.0) (done_inj e)
        (record { found = λ n s g. g; counted = λ n v. v }, tt)
  get_topics-Keeps ((name, ty) ∷ rest) p q ts e =
      let ((t, p1), e1, k1) = >>=-eq-done (get_or_create_topic dds name ty p) _ e in
      let ((us, p2), e2, k2) = >>=-eq-done (get_topics dds rest p1) _ k1 in
      let (keep1, found1) = get_or_create_topic-Keeps name ty p p1 t e1 in
      let (keep2, found2) = get_topics-Keeps rest p1 p2 us e2 in
      subst (λ (r : List T × DdsParticipant T). Keeps p r.1 × Finds r.1 ((name, ty) ∷ rest) r.0)
        (done_inj k2)
        (
          record {
            found = λ n s g. keep2.found n s (keep1.found n s g);
            counted = λ n v. keep2.counted n (keep1.counted n v);
          },
          (keep2.found name t found1, found2),
        )

  new_participant-IsCounted :
      (domain : ℤ) (udp_only : Bool) (p : DdsParticipant T) (n : String)
      → new_participant dds domain udp_only ≡ done p
      → IsCounted n p
  unfolding new_participant created
  new_participant-IsCounted domain udp_only p n e = record {
    at_most_once = ground arith;
    not_found = λ h. ground arith;
  }

  -- Where the bridge's writers and readers are made of a new participant, no topic is created twice,
  -- each writer and reader has the topic of its name, and asking for a name once more gives that
  -- topic and creates nothing.
  pub get_topics-created :
      (domain : ℤ) (udp_only : Bool) (names : List (String × String)) (p q : DdsParticipant T)
      (ts : List T)
      → new_participant dds domain udp_only ≡ done p
      → get_topics dds names p ≡ done (ts, q)
      → ((n : String) → created n q.calls ≤ 1)
        × Finds q names ts
        × ((n ty : String) (t : T)
            → find_topic n q.topics ≡ some t
            → get_or_create_topic dds n ty q ≡ done (t, q))
  unfolding get_or_create_topic cached_topic
  get_topics-created domain udp_only names p q ts e h =
      let (keep, finds) = get_topics-Keeps names p q ts h in
      (
        λ n. (keep.counted n (new_participant-IsCounted domain udp_only p n e)).at_most_once,
        finds,
        λ n ty t g. rw (g, cached_topic) refl,
      )
