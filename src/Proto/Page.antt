-- ===== src/Proto/Page.antt =====
-- design_handoff_microtrace/mt-app.jsx: the state of `App`, the loop that ticks the simulation and shows what it returns, the panel of
-- tweaks, and what the page hands to its views. The script's variables outlive the page.
pub mod Mount
pub mod Loop
pub mod View
pub mod Tweaked
use micro_trace.Common.{
  ℕ, zero, suc, ◌+◌, ◌==◌, ltb, String, Bool, true, false, not, ◌&&◌, Option, none, some, List, [],
  ◌∷◌, ◌++◌, length, select, is_some, if◌then◌else◌, str_eq,
}
use micro_trace.Common.Arith.{Arith}
use micro_trace.Common.Dict.{Dict, lookup, values}
use micro_trace.Types.{ServiceSnapshot}
use micro_trace.App.{ViewMode, graph, chosen}
use micro_trace.Metrics.{badge}
use micro_trace.Mock.Chance.{World}
use micro_trace.Mock.Conn.{internal_services, includes}
use micro_trace.Proto.Data.{
  Fallible, ProtoSnap, ProtoEvent, Proto, ProtoResult, proto_init, proto_tick,
}

pub record Tweaks : Type 0 where
  pub show_external : Bool
  pub log_panel_height : ℕ
  pub tick_interval_ms : ℕ
  pub primary_accent : String

-- `TWEAK_DEFAULTS`
abbrev pub tweak_defaults : Tweaks
tweak_defaults = record {
  show_external = true;
  log_panel_height = 168;
  tick_interval_ms = 1000;
  primary_accent = "#2563eb";
}

-- A change that a control of the panel makes.
pub data Change : Type 0 where
  tick_interval : ℕ → Change
  external : Bool → Change
  log_height : ℕ → Change

-- `{ ...prev, [key]: val }`
abbrev pub tweak : Change → Tweaks → Tweaks
tweak (tick_interval ms) t = record t { tick_interval_ms = ms }
tweak (external shown) t = record t { show_external = shown }
tweak (log_height px) t = record t { log_panel_height = px }

-- What the page posts to the window that holds it.
pub data Post : Type 0 where
  available dismissed : Post
  set_keys : Tweaks → Post

-- The ticks before the page shows anything.
abbrev pub warm : ℕ
warm = 80

-- The timers of `loop` that are set, each with its number and its delay.
abbrev pub Timers : Type 0
Timers = List (ℕ × ℕ)

-- `clearTimeout(id)`
abbrev pub clear : ℕ → Timers → Timers
clear id timers = select (λ t. not (t.0 == id)) timers

-- What the user, the browser and the window around the page may do.
pub data Input : Type 0 where
  fired unmounted dismissal : Input
  message : Bool → Input
  changed : Change → Input
  select_edge : Option String → Input
  switch_view : ViewMode → Input

module _ (A : Arith) (w : World A) where
  pub record Page : Type 0 where
    pub snapshots : Dict (ProtoSnap A w)
    pub services : Dict (ServiceSnapshot A)
    pub events : List (ProtoEvent A w)
    pub selected_key : Option String
    pub tweaks_visible : Bool
    pub tweaks : Tweaks
    pub view_mode : ViewMode

  -- The script's variables, the page's state, the timers with the number of the next one, `timeoutId`, and what was posted.
  pub record Browser : Type 0 where
    pub script : Proto A w
    pub page : Page
    pub mounted : Bool
    pub timers : Timers
    pub next_id : ℕ
    pub timeout_id : Option ℕ
    pub listening : Bool
    pub posts : List Post

  abbrev pub blank : Page
  blank = record {
    snapshots = [];
    services = [];
    events = [];
    selected_key = none;
    tweaks_visible = false;
    tweaks = tweak_defaults;
    view_mode = graph;
  }

  abbrev pub show_result : ProtoResult A w → Page → Page
  show_result r p = record p {
    snapshots = r.snapshots;
    services = r.services;
    events = r.all_events;
  }

  -- `for (let i = 0; i < n; i++) result = tick()`
  unfoldable pub prewarm :
      ℕ → Proto A w → Option (ProtoResult A w) → Fallible A w (Proto A w × Option (ProtoResult A w))
  prewarm zero m last i = some ((m, last), i)
  prewarm (suc n) m last i = elim (proto_tick A w m i) [
    | none ↦ none
    | some r ↦ prewarm n (r.0).0 (some (r.0).1) r.1
  ]

  -- `timeoutId = setTimeout(loop, tickIntervalRef.current)`: the reference holds the interval of the latest tweaks.
  unfoldable pub set_timer : Browser → Browser
  set_timer b = record b {
    timers = b.timers ++ (b.next_id, (b.page).tweaks.tick_interval_ms) ∷ [];
    next_id = b.next_id + 1;
    timeout_id = some b.next_id;
  }

  abbrev pub shown_if : Option (ProtoResult A w) → Page → Page
  shown_if none p = p
  shown_if (some r) p = show_result r p

  -- The script has run, and the page has made its first render; then its effects run.
  unfoldable pub mount : Fallible A w Browser
  unfolding prewarm set_timer
  mount i =
      let m = proto_init A w i in
      elim (prewarm warm m.0 none m.1) [
        | none ↦ none
        | some r ↦ some (
          set_timer (record {
            script = (r.0).0;
            page = shown_if (r.0).1 blank;
            mounted = true;
            timers = [];
            next_id = 0;
            timeout_id = none;
            listening = true;
            posts = available ∷ [];
          }),
          r.1,
        )
      ]

  -- The body of `loop`, when its timer fires.
  unfoldable pub loop : Browser → Fallible A w Browser
  unfolding set_timer
  loop b i = elim (proto_tick A w b.script i) [
    | none ↦ none
    | some r ↦
        some (set_timer (record b { script = (r.0).0; page = show_result (r.0).1 b.page }), r.1)
  ]

  abbrev pub fire_first : Browser → Timers → Fallible A w Browser
  unfolding loop
  fire_first b [] i = some (b, i)
  fire_first b (t ∷ ts) i = loop (record b { timers = ts }) i

  -- The timer that was set first fires.
  unfoldable pub on_timer : Browser → Fallible A w Browser
  unfolding loop
  on_timer b = fire_first b b.timers

  abbrev cleared : Option ℕ → Timers → Timers
  cleared none timers = timers
  cleared (some id) timers = clear id timers

  -- The functions that the effects return.
  unfoldable pub cleanup : Browser → Browser
  cleanup b = record b {
    mounted = false;
    timers = cleared b.timeout_id b.timers;
    listening = false;
  }

  unfoldable pub handle_tweak_change : Change → Browser → Browser
  handle_tweak_change c b = record b {
    page = record (b.page) { tweaks = tweak c (b.page).tweaks };
    posts = set_keys (tweak c (b.page).tweaks) ∷ b.posts;
  }

  -- `onMsg`, and the button that closes the panel.
  unfoldable pub set_tweaks_visible : Bool → Browser → Browser
  set_tweaks_visible visible b = record b { page = record (b.page) { tweaks_visible = visible } }

  unfoldable pub close_tweaks : Browser → Browser
  unfolding set_tweaks_visible
  close_tweaks b = record (set_tweaks_visible false b) { posts = dismissed ∷ b.posts }

  unfoldable pub handle : Input → Browser → Fallible A w Browser
  unfolding on_timer cleanup set_tweaks_visible close_tweaks handle_tweak_change
  handle fired b i = on_timer b i
  handle unmounted b i = some (cleanup b, i)
  handle dismissal b i = some (close_tweaks b, i)
  handle (message visible) b i = some (if b.listening then set_tweaks_visible visible b else b, i)
  handle (changed c) b i = some (handle_tweak_change c b, i)
  handle (select_edge key) b i =
      some (record b { page = record (b.page) { selected_key = key } }, i)
  handle (switch_view mode) b i = some (record b { page = record (b.page) { view_mode = mode } }, i)

  -- The newest input first; `none` where a tick throws.
  unfoldable pub browse : List Input → Fallible A w Browser
  unfolding mount handle
  browse [] i = mount i
  browse (e ∷ older) i = elim (browse older i) [ none ↦ none | some r ↦ handle e r.0 r.1 ]
