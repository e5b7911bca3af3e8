-- ===== src/Proto/Page/Mount.antt =====
-- The first ticks of mt-app.jsx, and what the page's state is after any number of them.
use micro_trace.Common.{
  String, ℕ, zero, suc, ◌+◌, Bool, true, false, not, Option, none, some, List, [], ◌∷◌, map,
  if◌then◌else◌, ◌≡◌, refl, ◌∙◌, arith,
}
use micro_trace.Common.Arith.{Arith}
use micro_trace.App.{ViewMode}
use micro_trace.Mock.Chance.{World}
use micro_trace.Mock.Tick.{Mock, run}
use micro_trace.Proto.Data.{Proto, ProtoResult, proto_tick, proto_init, proto_run}
use micro_trace.Proto.Agree.{map_values, strip, bare, forget_event}
use micro_trace.Proto.Pass.{forget_points}
use micro_trace.Proto.Run.{view, Shows, run-agrees, run-view}
use micro_trace.Proto.Page.{
  Page, Browser, warm, prewarm, mount, loop, set_timer, on_timer, show_result, blank, Tweaks,
  available, Input, fired, unmounted, browse,
}

-- How often the timer has fired before the page went.
abbrev pub gone : List Input → Bool
gone [] = false
gone (unmounted ∷ older) = true
gone (_ ∷ older) = gone older

unfoldable pub fires : List Input → ℕ
fires [] = 0
fires (fired ∷ older) = if gone older then fires older else suc (fires older)
fires (_ ∷ older) = fires older

some_inj : {X : Type 0} (x y : X) → some x ≡ some y → x ≡ y
some_inj x y e = cc

module _ (A : Arith) (w : World A) where
  prewarm_step :
      (n i j : ℕ) (m m' : Proto A w) (last : Option (ProtoResult A w)) (out : ProtoResult A w)
      → proto_tick A w m i ≡ some ((m', out), j)
      → prewarm A w (suc n) m last i ≡ prewarm A w n m' (some out) j
  unfolding prewarm
  prewarm_step n i j m m' last out e = rw (e, prewarm) refl

  prewarm-run :
      (n k i : ℕ) (last : Option (ProtoResult A w))
      → (out : ProtoResult A w) × (prewarm A w
            (suc n)
            (view A w (run A w k i).0)
            last
            (run A w k i).1
          ≡ some ((view A w (run A w (suc k + n) i).0, some out), (run A w (suc k + n) i).1))
        × Shows A w out (run A w (suc k + n) i).0
  unfolding run
  prewarm-run zero k i last =
      let (out, ticks, shows) = (run-agrees A w k i).1 in
      let e : suc k + 0 ≡ suc k = omega arith in
      (out, prewarm_step 0 _ _ _ _ last out ticks ∙ unfold prewarm in rw e refl, rw e shows)
  prewarm-run (suc n) k i last =
      let (next, ticks, _) = (run-agrees A w k i).1 in
      let (out, runs, shows) = prewarm-run n (suc k) i (some next) in
      let e : suc k + suc n ≡ suc (suc k) + n = omega arith in
      (out, prewarm_step (suc n) _ _ _ _ last next ticks ∙ rw e runs, rw e shows)

  -- The page's state holds what the page of the dashboard gets from the hook.
  pub record IsShown (p : Page A w) (m : Mock A w) : Type 0 where
    pub services : p.services ≡ m.services
    pub snapshots : map_values (strip A w) p.snapshots ≡ map_values (bare A w) m.snapshots
    pub history : map_values (λ s. s.history) p.snapshots ≡ map_values (forget_points A w) m.history
    pub events : p.events ≡ map (forget_event A w) m.all_events

  -- One timer is set, and the clean-up would clear it.
  abbrev pub HasTimer : Browser A w → Type 0
  HasTimer b = (id : ℕ) × (delay : ℕ) × (b.timers ≡ (id, delay) ∷ []) × (b.timeout_id ≡ some id)

  abbrev pub IsTimed : Bool → Browser A w → Type 0
  IsTimed true b = b.timers ≡ []
  IsTimed false b = HasTimer b

  -- After n ticks, where `left` says that the page has gone.
  pub record IsRun (n : ℕ) (left : Bool) (i : ℕ) (b : Browser A w) : Type 0 where
    pub script : b.script ≡ view A w (run A w n i).0
    pub shown : IsShown b.page (run A w n i).0
    pub mounted : b.mounted ≡ not left
    pub listening : b.listening ≡ not left
    pub timed : IsTimed left b

  -- The inputs run without an exception, in the state that is described.
  abbrev pub Runs : List Input → ℕ → Type 0
  Runs es i =
      (b : Browser A w) × (browse A w es i ≡ some (b, (run A w (warm + fires es) i).1))
      × IsRun (warm + fires es) (gone es) i b

  pub IsShown-result :
      (p : Page A w) (out : ProtoResult A w) (m : Mock A w)
      → Shows A w out m
      → IsShown (show_result A w out p) m
  IsShown-result p out m s = record {
    services = s.services;
    snapshots = s.snapshots;
    history = s.history;
    events = s.all_events;
  }

  init-view : (i : ℕ) → proto_init A w i ≡ (view A w (run A w 0 i).0, (run A w 0 i).1)
  unfolding proto_run
  init-view i = some_inj _ _ (run-view A w 0 i)

  abbrev started : Proto A w → ProtoResult A w → Browser A w
  started script out = record {
    script = script;
    page = show_result A w out (blank A w);
    mounted = true;
    timers = (0, 1000) ∷ [];
    next_id = 1;
    timeout_id = some 0;
    listening = true;
    posts = available ∷ [];
  }

  -- The page with other choices of the user.
  pub turned :
      (p : Page A w) (key : Option String) (visible : Bool) (tweaks : Tweaks) (mode : ViewMode)
      (m : Mock A w)
      → IsShown p m
      → IsShown
          (record p {
            selected_key = key;
            tweaks_visible = visible;
            tweaks = tweaks;
            view_mode = mode;
          })
          m
  turned p key visible tweaks mode m s = record {
    services = s.services;
    snapshots = s.snapshots;
    history = s.history;
    events = s.events;
  }

  pub mount-Runs : (i : ℕ) → Runs [] i
  unfolding browse fires mount set_timer
  mount-Runs i =
      let (out, runs, shows) = prewarm-run 79 0 i none in
      (
        started _ out,
        rw (init-view i, runs, mount) refl,
        record {
          script = refl;
          shown = IsShown-result (blank A w) out _ shows;
          mounted = refl;
          listening = refl;
          timed = (0, 1000, refl, refl);
        },
      )

  -- The state after the body of the loop, whose timer was the only one.
  abbrev pub looped : Proto A w → ProtoResult A w → Browser A w → Browser A w
  looped script out b = record b {
    script = script;
    page = show_result A w out b.page;
    timers = (b.next_id, (b.page).tweaks.tick_interval_ms) ∷ [];
    next_id = b.next_id + 1;
    timeout_id = some b.next_id;
  }

  pub on_timer_set :
      (b : Browser A w) (i j id delay : ℕ) (script : Proto A w) (out : ProtoResult A w)
      → b.timers ≡ (id, delay) ∷ []
      → proto_tick A w b.script i ≡ some ((script, out), j)
      → on_timer A w b i ≡ some (looped script out b, j)
  unfolding on_timer loop set_timer
  on_timer_set b i j id delay script out set ticks = rw set (rw (ticks, loop) refl)
