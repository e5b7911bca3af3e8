-- ===== src/Proto/Page/Loop.antt =====
-- The loop of mt-app.jsx against the ticks of the simulation, and its timers.
use micro_trace.Common.{
  ℕ, suc, ◌+◌, Bool, true, false, Option, none, some, List, [], ◌∷◌, if◌then◌else◌, ◌≡◌, refl, ap,
  ◌∙◌, arith,
}
use micro_trace.Common.Arith.{Arith}
use micro_trace.Mock.Chance.{World}
use micro_trace.Mock.Tick.{run}
use micro_trace.Proto.Data.{ProtoResult, proto_tick}
use micro_trace.Proto.Run.{view, Shows, run-agrees}
use micro_trace.Proto.Page.{
  Page, Browser, warm, on_timer, cleanup, Post, cleared, close_tweaks, set_tweaks_visible,
  handle_tweak_change, Input, fired, unmounted, dismissal, message, changed, select_edge,
  switch_view, handle, browse,
}
use micro_trace.Proto.Page.Mount.{
  gone, fires, IsShown, IsTimed, IsRun, Runs, IsShown-result, looped, turned, mount-Runs,
  on_timer_set,
}

module _ (A : Arith) (w : World A) where
  pub browse_next :
      (e : Input) (es : List Input) (i j : ℕ) (b : Browser A w)
      → browse A w es i ≡ some (b, j)
      → browse A w (e ∷ es) i ≡ handle A w e b j
  unfolding browse
  browse_next e es i j b runs = rw runs refl

  -- What the user does to the rest of the page leaves the loop alone.
  repage-IsRun :
      (n i : ℕ) (left : Bool) (b : Browser A w) (p : Page A w) (posts : List Post)
      → IsShown A w p (run A w n i).0
      → IsRun A w n left i b
      → IsRun A w n left i (record b { page = p; posts = posts })
  repage-IsRun n i true b p posts s h = record {
    script = h.script;
    shown = s;
    mounted = h.mounted;
    listening = h.listening;
    timed = h.timed;
  }
  repage-IsRun n i false b p posts s h = record {
    script = h.script;
    shown = s;
    mounted = h.mounted;
    listening = h.listening;
    timed = h.timed;
  }

  tick-IsRun :
      (n i : ℕ) (b : Browser A w) (out : ProtoResult A w)
      → Shows A w out (run A w (suc n) i).0
      → IsRun A w n false i b
      → IsRun A w (suc n) false i (looped A w (view A w (run A w (suc n) i).0) out b)
  tick-IsRun n i b out shows h = record {
    script = refl;
    shown = IsShown-result A w b.page out _ shows;
    mounted = h.mounted;
    listening = h.listening;
    timed = (b.next_id, (b.page).tweaks.tick_interval_ms, refl, refl);
  }

  -- A tick on the page.
  on_timer-run :
      (n i : ℕ) (b : Browser A w)
      → IsRun A w n false i b
      → (b' : Browser A w) × (on_timer A w b (run A w n i).1 ≡ some (b', (run A w (suc n) i).1))
        × IsRun A w (suc n) false i b'
  unfolding run
  on_timer-run n i b h =
      let (out, ticks, shows) = (run-agrees A w n i).1 in
      let (id, delay, set, _) = h.timed in
      (
        looped A w _ out b,
        on_timer_set A w b _ _ id delay _ out set
            (ap (λ m. proto_tick A w m (run A w n i).1) h.script ∙ ticks),
        tick-IsRun n i b out shows h,
      )

  on_timer_gone :
      (n i j : ℕ) (b : Browser A w) → IsRun A w n true i b → on_timer A w b j ≡ some (b, j)
  unfolding on_timer
  on_timer_gone n i j b h = rw h.timed refl

  cleared_nil : (t : Option ℕ) → cleared A w t [] ≡ []
  cleared_nil none = refl
  cleared_nil (some id) = refl

  cleared_one : (id delay : ℕ) → cleared A w (some id) ((id, delay) ∷ []) ≡ []
  cleared_one id delay = ground arith

  cleared-IsTimed :
      (left : Bool) (b : Browser A w) → IsTimed A w left b → cleared A w b.timeout_id b.timers ≡ []
  cleared-IsTimed true b h = ap (cleared A w b.timeout_id) h ∙ cleared_nil b.timeout_id
  cleared-IsTimed false b (id, delay, set, latest) =
      ap (λ t. cleared A w t b.timers) latest
      ∙ ap (cleared A w (some id)) set
      ∙ cleared_one id delay

  cleanup-IsRun :
      (n i : ℕ) (left : Bool) (b : Browser A w)
      → IsRun A w n left i b
      → IsRun A w n true i (cleanup A w b)
  unfolding cleanup
  cleanup-IsRun n i left b h = record {
    script = h.script;
    shown = h.shown;
    mounted = refl;
    listening = refl;
    timed = cleared-IsTimed left b h.timed;
  }

  fired-Runs :
      (left : Bool) (es : List Input) (i : ℕ) (b : Browser A w)
      → gone es ≡ left
      → browse A w es i ≡ some (b, (run A w (warm + fires es) i).1)
      → IsRun A w (warm + fires es) left i b
      → Runs A w (fired ∷ es) i
  unfolding handle fires
  fired-Runs true es i b e runs h =
      (b, browse_next fired es i _ b runs ∙ rw e (on_timer_gone _ i _ b h), rw e h)
  fired-Runs false es i b e runs h =
      let (b', ticks, h') = on_timer-run (warm + fires es) i b h in
      let next : warm + suc (fires es) ≡ suc (warm + fires es) = omega arith in
      (b', browse_next fired es i _ b runs ∙ rw (e, next) ticks, rw (e, next) h')

  either-IsRun :
      (test : Bool) (n i : ℕ) (left : Bool) (b b' : Browser A w)
      → IsRun A w n left i b
      → IsRun A w n left i b'
      → IsRun A w n left i (if test then b else b')
  either-IsRun true n i left b b' h h' = h
  either-IsRun false n i left b b' h h' = h'

  message-IsRun :
      (visible : Bool) (n i : ℕ) (left : Bool) (b : Browser A w)
      → IsRun A w n left i b
      → IsRun A w n left i (if b.listening then set_tweaks_visible A w visible b else b)
  unfolding set_tweaks_visible
  message-IsRun visible n i left b h =
      either-IsRun b.listening n i left _ b
        (repage-IsRun n i left b _ b.posts (turned A w b.page _ _ _ _ _ h.shown) h) h

  handle-Runs : (e : Input) (es : List Input) (i : ℕ) → Runs A w es i → Runs A w (e ∷ es) i
  unfolding handle fires close_tweaks set_tweaks_visible handle_tweak_change
  handle-Runs fired es i (b, runs, h) = fired-Runs (gone es) es i b refl runs h
  handle-Runs unmounted es i (b, runs, h) =
      (cleanup A w b, browse_next unmounted es i _ b runs, cleanup-IsRun _ i (gone es) b h)
  handle-Runs dismissal es i (b, runs, h) = (
    _,
    browse_next dismissal es i _ b runs,
    repage-IsRun _ i (gone es) b _ _ (turned A w b.page _ _ _ _ _ h.shown) h,
  )
  handle-Runs (message visible) es i (b, runs, h) =
      (_, browse_next (message visible) es i _ b runs, message-IsRun visible _ i (gone es) b h)
  handle-Runs (changed c) es i (b, runs, h) = (
    _,
    browse_next (changed c) es i _ b runs,
    repage-IsRun _ i (gone es) b _ _ (turned A w b.page _ _ _ _ _ h.shown) h,
  )
  handle-Runs (select_edge key) es i (b, runs, h) = (
    _,
    browse_next (select_edge key) es i _ b runs,
    repage-IsRun _ i (gone es) b _ _ (turned A w b.page _ _ _ _ _ h.shown) h,
  )
  handle-Runs (switch_view mode) es i (b, runs, h) = (
    _,
    browse_next (switch_view mode) es i _ b runs,
    repage-IsRun _ i (gone es) b _ _ (turned A w b.page _ _ _ _ _ h.shown) h,
  )

  -- No tick that the page of the prototype makes throws, however long it runs. After any inputs the script has made the eighty ticks that come
  -- first and one for each time that the timer fired while the page was there, and the state that the page draws from has the services,
  -- snapshots, points and events that the dashboard gets from the hook after as many (`IsShown A w`); one timer is set while the page is
  -- there, and none afterwards. (The drawing is not part of this.)
  pub browse-Runs : (es : List Input) (i : ℕ) → Runs A w es i
  browse-Runs [] i = mount-Runs A w i
  browse-Runs (e ∷ es) i = handle-Runs e es i (browse-Runs es i)
