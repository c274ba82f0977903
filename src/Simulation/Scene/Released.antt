-- ===== src/Simulation/Scene/Released.antt =====
-- The specs that the building of the scene parses: each is deleted once, whatever fails.
use nusim.Base.{
  ℕ, suc, ◌-◌, ◌≡◌, refl, ap, ◌∙◌, inl, inr, true, false, Option, none, some, List, [], ◌∷◌, ◌++◌,
  map, arith, ◌==◌, if◌then◌else◌, Bool-cases, Option-cases, length, length-map, count_up,
  length-count_up, ℤ, pos, pos_part, ltb_ℤ,
}
use Prim.Native.String.{String}
use mathlib.Core.Option.{some_inj}
use nusim.Double.{Double}
use nusim.MuJoCo.{Model}
use nusim.Simulation.Core.{Engine, SimConfig, spawn_pose, copies, extra_prefix}
use nusim.Simulation.Scene.{
  SpecApi, SpecEvent, Built, built, failed, with_parsed, with_joined, delete_keys, attach_copies,
  build_scene, compile_scene, load_multi_robot_model, robot_xml, compile_model, place_of,
  resolve_path,
}

-- Which specs there are: none, the scene's, or that and the k-th copy's.
pub data Live : Type 0 where
  nothing scene_only : Live
  with_robot : ℕ → Live

-- What an event makes of them, `none` where a spec is parsed over another, or attached or deleted
-- while it is not there.
unfoldable pub watch : SpecEvent → Live → Option Live
watch SpecEvent.parse_scene Live.nothing = some Live.scene_only
watch SpecEvent.delete_scene Live.scene_only = some Live.nothing
watch (SpecEvent.parse_robot k) Live.scene_only = some (Live.with_robot k)
watch (SpecEvent.attach_robot k) (Live.with_robot j) =
    if k == j then some (Live.with_robot j) else none
watch (SpecEvent.delete_robot k) (Live.with_robot j) = if k == j then some Live.scene_only else none
watch e l = none

unfoldable pub watch_all : List SpecEvent → Live → Option Live
watch_all [] l = some l
watch_all (e ∷ es) l = elim (watch e l) [ none ↦ none | some l' ↦ watch_all es l' ]

-- The copies that are attached.
unfoldable pub attached : List SpecEvent → List ℕ
attached [] = []
attached (SpecEvent.attach_robot k ∷ es) = k ∷ attached es
attached (e ∷ es) = attached es

==_refl : (k : ℕ) → (k == k) ≡ true
==_refl k = ground arith

-- What is live after the loop.
abbrev left_by {ℓ} : {A : Type ℓ} → Built A → Live
left_by (built a) = Live.scene_only
left_by (failed why) = Live.nothing

watch_all-append :
    (es fs : List SpecEvent) (l m : Live)
    → watch_all es l ≡ some m
    → watch_all (es ++ fs) l ≡ watch_all fs m
unfolding watch_all
watch_all-append [] fs l m h = ap (watch_all fs) (some_inj.0 h)
watch_all-append (e ∷ es) fs l m h = elim (Option-cases (watch e l)) [
  | inl q ↦ cc
  | inr (l', q) ↦ rw (q, watch_all) (watch_all-append es fs l' m (rw (q, watch_all) at h))
]

-- The events leave the scene's spec where there is a result, and nothing where there is none.
abbrev LeavesBuilt {ℓ} : {A : Type ℓ} → Live → List SpecEvent × Built A → Type 0
LeavesBuilt l (events, result) = watch_all events l ≡ some (left_by result)

with_parsed-LeavesBuilt :
    {S : Type 0} (k : ℕ) (o : Option S) (next : S → List SpecEvent × Built S)
    → ((robot : S) → LeavesBuilt (Live.with_robot k) (next robot))
    → LeavesBuilt Live.scene_only (with_parsed k o next)
unfolding with_parsed watch_all watch
with_parsed-LeavesBuilt k none next h = refl
with_parsed-LeavesBuilt k (some robot) next h = h robot

with_joined-LeavesBuilt :
    {S : Type 0} (k : ℕ) (o : Option S) (next : S → List SpecEvent × Built S)
    → ((joined : S) → LeavesBuilt Live.scene_only (next joined))
    → LeavesBuilt (Live.with_robot k) (with_joined k o next)
unfolding with_joined watch_all watch
with_joined-LeavesBuilt k none next h = ground arith
with_joined-LeavesBuilt k (some joined) next h = ground (arith, h joined)

attached-delete :
    (es : List SpecEvent) → attached (es ++ (SpecEvent.delete_scene ∷ [])) ≡ attached es
unfolding attached
attached-delete [] = refl
attached-delete (SpecEvent.attach_robot k ∷ es) = ap (λ js. k ∷ js) (attached-delete es)
attached-delete (e ∷ es) = attached-delete es

attached-with_parsed :
    {S : Type 0} (k : ℕ) (o : Option S) (next : S → List SpecEvent × Built S) (ks : List ℕ)
    {whole : S}
    → (with_parsed k o next).1 ≡ built whole
    → ((robot : S) → (next robot).1 ≡ built whole → attached (next robot).0 ≡ ks)
    → attached (with_parsed k o next).0 ≡ ks
unfolding with_parsed attached
attached-with_parsed k none next ks h g = cc
attached-with_parsed k (some robot) next ks h g = g robot h

attached-with_joined :
    {S : Type 0} (k : ℕ) (o : Option S) (next : S → List SpecEvent × Built S) (ks : List ℕ)
    {whole : S}
    → ((joined : S) → (next joined).1 ≡ built whole → attached (next joined).0 ≡ ks)
    → (with_joined k o next).1 ≡ built whole
    → attached (with_joined k o next).0 ≡ k ∷ ks
unfolding with_joined attached
attached-with_joined k none next ks g h = cc
attached-with_joined k (some joined) next ks g h = ap (λ js. k ∷ js) (g joined h)

module _ {D S : Type 0} ⦃f : Double D⦄ (e : Engine D) (api : SpecApi D S) (fuel : ℕ) where
  attach_copies-LeavesBuilt :
      (xml : String) (scene : S) (k : ℕ) (places : List (D × D × D))
      → LeavesBuilt Live.scene_only (attach_copies e api fuel xml scene k places)
  unfolding attach_copies watch_all
  attach_copies-LeavesBuilt xml scene k [] = refl
  attach_copies-LeavesBuilt xml scene k (place ∷ places) =
      with_parsed-LeavesBuilt k (api.parse_xml xml) _ λ robot.
        with_joined-LeavesBuilt k
          (api.attach scene place (delete_keys e api fuel robot) (extra_prefix e k)) _
          λ joined. attach_copies-LeavesBuilt xml joined (suc k) places

  compile_scene-live :
      (r : List SpecEvent × Built S)
      → LeavesBuilt Live.scene_only r
      → watch_all (compile_scene e api r).0 Live.scene_only ≡ some Live.nothing
  unfolding compile_scene watch watch_all
  compile_scene-live (events, failed why) h = h
  compile_scene-live (events, built scene) h =
      watch_all-append events (SpecEvent.delete_scene ∷ []) Live.scene_only Live.scene_only h ∙ refl

  build_scene-live :
      (xml : String) (extras : List (D × D × D)) (o : Option S)
      → watch_all (build_scene e api fuel xml extras o).0 Live.nothing ≡ some Live.nothing
  unfolding build_scene watch_all watch
  build_scene-live xml extras none = refl
  build_scene-live xml extras (some scene) =
      compile_scene-live _ (attach_copies-LeavesBuilt xml scene 1 extras)

  attached-compile_scene :
      (r : List SpecEvent × Built S) (m : Model D)
      → (compile_scene e api r).1 ≡ built m
      → (whole : S) × (r.1 ≡ built whole) × (attached (compile_scene e api r).0 ≡ attached r.0)
  unfolding compile_scene
  attached-compile_scene (events, failed why) m h = cc
  attached-compile_scene (events, built scene) m h = (scene, refl, attached-delete events)

  attached-attach_copies :
      (xml : String) (scene : S) (k : ℕ) (places : List (D × D × D)) (whole : S)
      → (attach_copies e api fuel xml scene k places).1 ≡ built whole
      → attached (attach_copies e api fuel xml scene k places).0 ≡ count_up k (length places)
  unfolding attach_copies attached
  attached-attach_copies xml scene k [] whole h = refl
  attached-attach_copies xml scene k (place ∷ places) whole h =
      attached-with_parsed k (api.parse_xml xml) _ _ h λ robot.
        attached-with_joined k
          (api.attach scene place (delete_keys e api fuel robot) (extra_prefix e k)) _ _
          λ joined. attached-attach_copies xml joined (suc k) places whole

  build_scene-attached :
      (xml : String) (extras : List (D × D × D)) (o : Option S) (m : Model D)
      → (build_scene e api fuel xml extras o).1 ≡ built m
      → attached (build_scene e api fuel xml extras o).0 ≡ count_up 1 (length extras)
  unfolding build_scene attached
  build_scene-attached xml extras none m h = cc
  build_scene-attached xml extras (some scene) m h =
      let (whole, q, r) =
        attached-compile_scene (attach_copies e api fuel xml scene 1 extras) m h in
      r ∙ attached-attach_copies xml scene 1 extras whole q

  pub load_multi_robot_model-releases :
      (scene_path : String) (extras : List (D × D × D))
      → let (events, result) = load_multi_robot_model e api fuel scene_path extras in
        (watch_all events Live.nothing ≡ some Live.nothing)
        × ((m : Model D) → result ≡ built m → attached events ≡ count_up 1 (length extras))
  unfolding load_multi_robot_model
  load_multi_robot_model-releases scene_path extras = (
    build_scene-live (robot_xml scene_path) extras (api.parse_xml scene_path),
    build_scene-attached (robot_xml scene_path) extras (api.parse_xml scene_path),
  )

  none_left : (robots : ℤ) → ltb_ℤ (pos 1) robots ≡ false → 0 ≡ pos_part robots - 1
  none_left robots h = ground arith

  -- Whatever fails, and whether one robot is loaded or several: every spec that `load_model` parses
  -- is deleted once, none is parsed over one that is there, and none is attached or deleted after it
  -- is deleted. Where there is a model, the copies that are attached are those whose joints are
  -- looked up after it: one for each robot but the main one, in order and numbered from 1.
  pub compile_model-releases :
      (source_dir : String) (cfg : SimConfig D)
      → let (events, result) = compile_model e api source_dir fuel cfg in
        (watch_all events Live.nothing ≡ some Live.nothing)
        × ((m : Model D) → result ≡ built m → attached events ≡ copies cfg)
  unfolding compile_model watch_all attached
  compile_model-releases source_dir cfg = elim (Bool-cases (ltb_ℤ (pos 1) cfg.robots)) [
    | inl several ↦
        let (released, numbered) =
          load_multi_robot_model-releases (resolve_path source_dir cfg.model_path)
            (map (λ k. place_of (spawn_pose cfg k)) (copies cfg)) in
        rw several (
          released,
          λ m h.
              numbered m h
              ∙ ap (count_up 1) (
                  length-map (λ k. place_of (spawn_pose cfg k)) (copies cfg)
                  ∙ length-count_up 1 (pos_part cfg.robots - 1)),
        )
    | inr single ↦ rw single (refl, λ m h. ap (count_up 1) (none_left cfg.robots single))
  ]
