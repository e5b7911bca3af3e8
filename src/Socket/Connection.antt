-- ===== src/Socket/Connection.antt =====
-- The life of the socket in useWebSocket.ts: `connect`, the handlers `onopen` and `onclose` with the timer
-- that connects again, and the clean-up that React runs when the hook goes away.
use micro_trace.Common.{
  ◌⊎◌, ℕ, ◌+◌, ◌-◌, ◌≤◌, Bool, true, false, not, ◌||◌, Option, none, some, List, [], ◌∷◌, length,
  select, ◌==◌, ltb, ◌≡◌, refl, arith, ◌≢◌,
}

-- `live` holds the sockets that are open or opening with their handlers attached, `timers` counts the
-- pending calls of `connect`. Sockets are numbered in the order of creation.
pub record Link : Type 0 where
  pub mounted : Bool
  pub current : Option ℕ
  pub live : List ℕ
  pub timers : ℕ
  pub created : ℕ
  pub connected : Bool

abbrev pub idle : Link
idle = record {
  mounted = true;
  current = none;
  live = [];
  timers = 0;
  created = 0;
  connected = false;
}

-- `new WebSocket(url)` and its three handlers
unfoldable pub connect : Link → Link
connect s = record s {
  current = some s.created;
  live = s.created ∷ s.live;
  created = s.created + 1;
}

unfoldable pub on_open : Link → Link
on_open s = record s { connected = true }

unfoldable pub detach : ℕ → List ℕ → List ℕ
detach ws = select λ i. not (i == ws)

unfoldable pub on_close : ℕ → Link → Link
unfolding detach
on_close ws s = record s { connected = false; live = detach ws s.live; timers = s.timers + 1 }

-- The timer's callback is `connect` itself: nothing cancels it.
unfoldable pub on_timer : Link → Link
unfolding connect
on_timer s = connect (record s { timers = s.timers - 1 })

-- The function that the effect returns.
unfoldable pub cleanup : Link → Link
unfolding detach
cleanup s = elim s.current [
  | none ↦ record s { mounted = false }
  | some ws ↦ record s { mounted = false; live = detach ws s.live; current = none }
]

-- What the browser and React may do.
pub data Input : Type 0 where
  opened closed : ℕ → Input
  fired unmounted : Input

abbrev pub is_live : ℕ → List ℕ → Bool
is_live ws [] = false
is_live ws (i ∷ is) = (i == ws) || is_live ws is

abbrev pub can : Link → Input → Bool
can s (opened ws) = is_live ws s.live
can s (closed ws) = is_live ws s.live
can s fired = ltb 0 s.timers
can s unmounted = s.mounted

unfoldable pub handle : Input → Link → Link
unfolding on_open on_close on_timer cleanup
handle (opened ws) s = on_open s
handle (closed ws) s = on_close ws s
handle fired s = on_timer s
handle unmounted s = cleanup s

pub data Reach : Link → Type 0 where
  start : Reach (connect idle)
  next : {s : Link} → Reach s → (e : Input) → can s e ≡ true → Reach (handle e s)

-- The two shapes of a link that is mounted, and their traces after it went away.
pub data Shape (s : Link) : Type 0 where
  attached : (ws : ℕ) → s.live ≡ ws ∷ [] → s.current ≡ some ws → s.timers ≡ 0 → Shape s
  waiting :
      (ws : ℕ) → s.live ≡ [] → s.current ≡ some ws → s.timers ≡ 1 → s.connected ≡ false → Shape s
  gone : s.mounted ≡ false → s.live ≡ [] → s.current ≡ none → s.timers ≤ 1 → Shape s

is_live_single : (ws i : ℕ) → is_live ws (i ∷ []) ≡ true → i ≡ ws
is_live_single ws i h = ground arith

handle-Shape : (e : Input) (s : Link) → can s e ≡ true → Shape s → Shape (handle e s)
unfolding handle connect
handle-Shape (opened ws) s h (attached i l c t) = attached i l c t
handle-Shape (opened ws) s h (waiting i l c t d) = absurd (ground arith)
handle-Shape (opened ws) s h (gone m l c t) = absurd (ground arith)
handle-Shape (closed ws) s h (attached i l c t) = waiting i (ground arith) c (ground arith) refl
handle-Shape (closed ws) s h (waiting i l c t d) = absurd (ground arith)
handle-Shape (closed ws) s h (gone m l c t) = absurd (ground arith)
handle-Shape fired s h (attached i l c t) = absurd (ground arith)
handle-Shape fired s h (waiting i l c t d) = attached s.created (ground arith) refl (ground arith)
handle-Shape fired s h (gone m l c t) = attached s.created (ground arith) refl (ground arith)
handle-Shape unmounted s h (attached i l c t) =
    gone (ground arith) (ground arith) (ground arith) (ground arith)
handle-Shape unmounted s h (waiting i l c t d) =
    gone (ground arith) (ground arith) (ground arith) (ground arith)
handle-Shape unmounted s h (gone m l c t) = absurd (ground arith)

Reach-Shape : {s : Link} → Reach s → Shape s
unfolding connect
Reach-Shape start = attached 0 refl refl refl
Reach-Shape (next {s} r e h) = handle-Shape e s h (Reach-Shape r)

Shape-one :
    (s : Link)
    → Shape s
    → s.mounted ≡ true
    → (length s.live + s.timers ≡ 1) × ((s.connected ≡ false) ⊎ (length s.live ≡ 1))
Shape-one s (attached i l c t) m = (ground arith, ground arith)
Shape-one s (waiting i l c t d) m = (ground arith, ground arith)
Shape-one s (gone u l c t) m = absurd (ground arith)

-- In every state that can be reached, while the hook is mounted it has exactly one socket or one pending
-- reconnection, never both and never two; and it calls itself connected only while it has the socket.
pub Reach-one :
    {s : Link}
    → Reach s
    → s.mounted ≡ true
    → (length s.live + s.timers ≡ 1) × ((s.connected ≡ false) ⊎ (length s.live ≡ 1))
Reach-one {s} r m = Shape-one s (Reach-Shape r) m

-- Nothing can happen to the hook any more.
abbrev pub IsQuiet : Link → Type 0
IsQuiet s = (e : Input) → can s e ≡ false

Shape-IsQuiet :
    (s : Link) → Shape s → s.mounted ≡ true → s.timers ≡ 0 → IsQuiet (handle unmounted s)
unfolding handle
Shape-IsQuiet s (attached i l c t) m z (opened ws) = ground arith
Shape-IsQuiet s (attached i l c t) m z (closed ws) = ground arith
Shape-IsQuiet s (attached i l c t) m z fired = ground arith
Shape-IsQuiet s (attached i l c t) m z unmounted = ground arith
Shape-IsQuiet s (waiting i l c t d) m z e = absurd (omega arith)
Shape-IsQuiet s (gone u l c t) m z e = absurd (ground arith)

-- In a state that can be reached, unmounting while no reconnection is pending ends all activity of the
-- hook: the browser and React have nothing left to do with it.
pub unmount-IsQuiet :
    {s : Link} → Reach s → s.mounted ≡ true → s.timers ≡ 0 → IsQuiet (handle unmounted s)
unmount-IsQuiet {s} r m z = Shape-IsQuiet s (Reach-Shape r) m z

Shape-leak :
    (s : Link)
    → Shape s
    → s.mounted ≡ true
    → s.timers ≢ 0
    → (can (handle unmounted s) fired ≡ true)
      × (length (handle fired (handle unmounted s)).live ≡ 1)
      × ((handle fired (handle unmounted s)).mounted ≡ false)
unfolding handle
Shape-leak s (attached i l c t) m z = absurd (z t)
Shape-leak s (waiting i l c t d) m z = (ground arith, ground arith, ground arith)
Shape-leak s (gone u l c t) m z = absurd (ground arith)

-- In a state that can be reached, unmounting in the two seconds before a reconnection does not end it: the
-- timer can still fire, and then a socket with its handlers is open for a hook that is no longer mounted.
pub unmount_leak :
    {s : Link}
    → Reach s
    → s.mounted ≡ true
    → s.timers ≢ 0
    → (can (handle unmounted s) fired ≡ true)
      × (length (handle fired (handle unmounted s)).live ≡ 1)
      × ((handle fired (handle unmounted s)).mounted ≡ false)
unmount_leak {s} r m z = Shape-leak s (Reach-Shape r) m z

-- The timer fires, and the socket that it makes opens.
abbrev pub reconnect : Link → Link
reconnect s = handle (opened s.created) (handle fired s)

Shape-reconnect :
    (s : Link)
    → Shape s
    → s.mounted ≡ true
    → s.live ≡ []
    → (can s fired ≡ true)
      × (can (handle fired s) (opened s.created) ≡ true)
      × ((reconnect s).connected ≡ true)
      × ((reconnect s).live ≡ s.created ∷ [])
      × ((reconnect s).timers ≡ 0)
unfolding handle
Shape-reconnect s (attached i l c t) m e = absurd (ground arith)
Shape-reconnect s (waiting i l c t d') m e =
    (ground arith, ground arith, refl, ground arith, ground arith)
Shape-reconnect s (gone u l c t) m e = absurd (ground arith)

-- A lost connection comes back: in every state that can be reached in which the hook is mounted and has no socket, the timer can fire, the
-- socket that it makes can open, and then the hook is connected over this one socket and no timer is pending.
pub Reach-reconnect :
    {s : Link}
    → Reach s
    → s.mounted ≡ true
    → s.live ≡ []
    → (can s fired ≡ true)
      × (can (handle fired s) (opened s.created) ≡ true)
      × ((reconnect s).connected ≡ true)
      × ((reconnect s).live ≡ s.created ∷ [])
      × ((reconnect s).timers ≡ 0)
Reach-reconnect {s} r m e = Shape-reconnect s (Reach-Shape r) m e
