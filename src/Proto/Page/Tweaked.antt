-- ===== src/Proto/Page/Tweaked.antt =====
-- Whether the page of mt-app.jsx shows the external services, by what was last chosen in its panel of tweaks.
use micro_trace.Common.{
  ℕ, ◌+◌, Bool, true, false, Option, none, some, List, [], ◌∷◌, if◌then◌else◌, ◌≡◌, refl, sym, ap,
  ◌∙◌, subst,
}
use micro_trace.Common.Arith.{Arith}
use micro_trace.Mock.Chance.{World}
use micro_trace.Proto.Data.{Proto, ProtoResult, proto_tick, proto_init}
use micro_trace.Proto.Page.{
  Page, Browser, Timers, tick_interval, external, log_height, prewarm, warm, shown_if, show_result,
  blank, mount, set_timer, loop, on_timer, fire_first, cleanup, close_tweaks, set_tweaks_visible,
  handle_tweak_change, Input, fired, unmounted, dismissal, message, changed, select_edge,
  switch_view, handle, browse, available,
}
use micro_trace.Mock.Tick.{run}
use micro_trace.Proto.Page.Mount.{fires}
use micro_trace.Proto.Page.Loop.{browse-Runs, browse_next}

-- What the box was last set to.
abbrev pub externals : List Input → Bool
externals [] = true
externals (changed (external shown) ∷ older) = shown
externals (_ ∷ older) = externals older

module _ (A : Arith) (w : World A) where
  abbrev shows : Browser A w → Bool
  shows b = ((b.page).tweaks).show_external

  abbrev AllShow : Bool → Option (Browser A w × ℕ) → Type 0
  AllShow v none = Unit
  AllShow v (some r) = shows r.0 ≡ v

  loop-AllShow : (b : Browser A w) (i : ℕ) → AllShow (shows b) (loop A w b i)
  unfolding loop set_timer
  loop-AllShow b i = after (proto_tick A w b.script i)
    where
      after :
          (o : Option ((Proto A w × ProtoResult A w) × ℕ))
          → AllShow (shows b) (elim o [
            | none ↦ none
            | some r ↦ some (
              set_timer A w (record b { script = (r.0).0; page = show_result A w (r.0).1 b.page }),
              r.1,
            )
          ])
      after none = tt
      after (some r) = refl

  first-AllShow :
      (b : Browser A w) (ts : Timers) (i : ℕ) → AllShow (shows b) (fire_first A w b ts i)
  unfolding fire_first
  first-AllShow b [] i = refl
  first-AllShow b (t ∷ ts) i = loop-AllShow (record b { timers = ts }) i

  shown_if-keeps :
      (o : Option (ProtoResult A w)) (p : Page A w) → (shown_if A w o p).tweaks ≡ p.tweaks
  shown_if-keeps none p = refl
  shown_if-keeps (some r) p = refl

  mount-AllShow : (i : ℕ) → AllShow true (mount A w i)
  unfolding mount set_timer
  mount-AllShow i = after (prewarm A w warm (proto_init A w i).0 none (proto_init A w i).1)
    where
      after :
          (o : Option ((Proto A w × Option (ProtoResult A w)) × ℕ))
          → AllShow true (elim o [
            | none ↦ none
            | some r ↦ some (
              set_timer A w (record {
                script = (r.0).0;
                page = shown_if A w (r.0).1 (blank A w);
                mounted = true;
                timers = [];
                next_id = 0;
                timeout_id = none;
                listening = true;
                posts = available ∷ [];
              }),
              r.1,
            )
          ])
      after none = tt
      after (some r) = ap (λ t. t.show_external) (shown_if-keeps (r.0).1 (blank A w))

  either-shows :
      (test : Bool) (b c : Browser A w)
      → shows c ≡ shows b
      → shows (if test then c else b) ≡ shows b
  either-shows true b c e = e
  either-shows false b c e = refl

  -- After an input the box is set as before, but for an input that sets it.
  abbrev next : Input → Bool → Bool
  next (changed (external shown)) before = shown
  next _ before = before

  handle-AllShow :
      (e : Input) (b : Browser A w) (i : ℕ) → AllShow (next e (shows b)) (handle A w e b i)
  unfolding handle on_timer cleanup close_tweaks set_tweaks_visible handle_tweak_change
  handle-AllShow fired b i = first-AllShow b b.timers i
  handle-AllShow unmounted b i = refl
  handle-AllShow dismissal b i = refl
  handle-AllShow (message visible) b i =
      either-shows b.listening b (set_tweaks_visible A w visible b) refl
  handle-AllShow (changed (tick_interval ms)) b i = refl
  handle-AllShow (changed (external shown)) b i = refl
  handle-AllShow (changed (log_height px)) b i = refl
  handle-AllShow (select_edge key) b i = refl
  handle-AllShow (switch_view mode) b i = refl

  externals_next : (e : Input) (es : List Input) → externals (e ∷ es) ≡ next e (externals es)
  externals_next fired es = refl
  externals_next unmounted es = refl
  externals_next dismissal es = refl
  externals_next (message visible) es = refl
  externals_next (changed (tick_interval ms)) es = refl
  externals_next (changed (external shown)) es = refl
  externals_next (changed (log_height px)) es = refl
  externals_next (select_edge key) es = refl
  externals_next (switch_view mode) es = refl

  browse-AllShow : (es : List Input) (i : ℕ) → AllShow (externals es) (browse A w es i)
  unfolding browse
  browse-AllShow [] i = mount-AllShow i
  browse-AllShow (e ∷ es) i =
      let (b, runs, _) = browse-Runs A w es i in
      let before : shows b ≡ externals es =
        subst (AllShow (externals es)) runs (browse-AllShow es i) in
      subst (AllShow (externals (e ∷ es))) (sym (browse_next A w e es i _ b runs)) (
        subst (λ v. AllShow v (handle A w e b (run A w (warm + fires es) i).1))
          (ap (next e) before ∙ sym (externals_next e es))
          (handle-AllShow e b (run A w (warm + fires es) i).1))

  pub browse-externals :
      (es : List Input) (i j : ℕ) (b : Browser A w)
      → browse A w es i ≡ some (b, j)
      → ((b.page).tweaks).show_external ≡ externals es
  browse-externals es i j b runs = subst (AllShow (externals es)) runs (browse-AllShow es i)
