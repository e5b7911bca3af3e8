-- ===== src/Collector/Hub/Delivery.antt =====
-- What a page gets of the broadcasts while it is connected.
use micro_trace.Common.{
  ap, ◌∙◌, ℕ, ltb, ◌==◌, ◌≤◌, Bool, true, false, Option, none, some, List, [], ◌∷◌, ◌++◌, length,
  if◌then◌else◌, ◌≡◌, refl, sym, length-append, append_nil, subst, arith, Bool-cases, inl, inr,
}
use micro_trace.Collector.Hub.{
  max_waiting, Client, Hub, new_hub, enqueue, broadcast, deliver, receive, receive_of, deliver_of,
  receives, first_data, list_of, serve_ws, on_read_error, Step, broadcasts, delivers, serves,
  read_fails, run_from,
}
use micro_trace.Collector.Hub.Written.{
  append_assoc, HasAll, HasAll-append, HasAll-write_to, HasAll-close, ltb_lt, eq_same,
}

-- What is still to be sent to every client.
abbrev pub pending : {Data : Type 0} → Hub Data → List Data
pending h = list_of h.in_hand ++ h.waiting

module _ {Msg History Data : Type 0} (marshal : Msg → Option Data)
    (marshal_history : List History → Option Data) where
  -- What the channel takes in of a message.
  abbrev accepted : Option Data → Hub Data → List Data
  accepted none h = []
  accepted (some text) h = if ltb (length h.waiting) max_waiting then text ∷ [] else []

  -- What the channel took in during some steps, in order.
  abbrev pub taken : Hub Data → List (Step marshal marshal_history) → List Data
  taken h [] = []
  taken h (broadcasts msg ∷ older) =
      taken h older ++ accepted (marshal msg) (run_from marshal marshal_history h older)
  taken h (_ ∷ older) = taken h older

  -- A socket that is not connected anew.
  abbrev pub IsSame : ℕ → List (Step marshal marshal_history) → Type 0
  IsSame id [] = Unit
  IsSame id (serves j history ∷ older) = ((j == id) ≡ false) × IsSame id older
  IsSame id (_ ∷ older) = IsSame id older

  enqueue-waiting :
      (o : Option Data) (h : Hub Data) → (enqueue o h).waiting ≡ h.waiting ++ accepted o h
  enqueue-waiting none h = sym (append_nil h.waiting)
  enqueue-waiting (some text) h = elim (Bool-cases (ltb (length h.waiting) max_waiting)) [
    | inl room ↦ simp room refl
    | inr full ↦ simp full (sym (append_nil h.waiting))
  ]

  enqueue-clients :
      (o : Option Data) (h : Hub Data) (id : ℕ) → (enqueue o h).clients id ≡ h.clients id
  enqueue-clients none h id = refl
  enqueue-clients (some text) h id = ground arith

  enqueue-in_hand : (o : Option Data) (h : Hub Data) → (enqueue o h).in_hand ≡ h.in_hand
  enqueue-in_hand none h = refl
  enqueue-in_hand (some text) h = ground arith

  enqueue-pending :
      (o : Option Data) (h : Hub Data) → pending (enqueue o h) ≡ pending h ++ accepted o h
  enqueue-pending o h =
      ap (λ w. list_of (enqueue o h).in_hand ++ w) (enqueue-waiting o h)
      ∙ ap (λ i. list_of i ++ (h.waiting ++ accepted o h)) (enqueue-in_hand o h)
      ∙ sym (append_assoc (list_of h.in_hand) h.waiting (accepted o h))

  -- A client is sent all of these, with what is still to be sent.
  abbrev Gets : ℕ → List Data → Hub Data → Type 0
  Gets id all h = HasAll all (pending h) (h.clients id)

  enqueue-Gets :
      (id : ℕ) (all : List Data) (o : Option Data) (h : Hub Data)
      → Gets id all h
      → Gets id (all ++ accepted o h) (enqueue o h)
  enqueue-Gets id all o h g =
      subst (λ w. HasAll (all ++ accepted o h) w ((enqueue o h).clients id))
        (sym (enqueue-pending o h))
        (subst (HasAll (all ++ accepted o h) (pending h ++ accepted o h))
          (sym (enqueue-clients o h id))
          (HasAll-append all (pending h) (accepted o h) (h.clients id) g))

  receive_of-Gets :
      (id : ℕ) (all : List Data) (o : Option Data) (w : List Data)
      (clients : ℕ → Option (Client Data))
      → HasAll all (list_of o ++ w) (clients id)
      → Gets id all (receive_of o w clients)
  receive_of-Gets id all none [] clients g = g
  receive_of-Gets id all none (text ∷ rest) clients g = g
  receive_of-Gets id all (some text) w clients g = g

  deliver_of-Gets :
      (id : ℕ) (all : List Data) (fails : ℕ → Bool) (o : Option Data) (w : List Data)
      (clients : ℕ → Option (Client Data))
      → HasAll all (list_of o ++ w) (clients id)
      → Gets id all (deliver_of fails o w clients)
  deliver_of-Gets id all fails none w clients g = g
  deliver_of-Gets id all fails (some text) w clients g =
      HasAll-write_to all w text (fails id) (clients id) g

  read_error-Gets :
      (id j : ℕ) (all : List Data) (h : Hub Data) → Gets id all h → Gets id all (on_read_error j h)
  unfolding on_read_error
  read_error-Gets id j all h g = elim (Bool-cases (j == id)) [
    | inl here ↦ simp here (HasAll-close all (pending h) (h.clients id) g)
    | inr there ↦ simp there g
  ]

  run_from-Gets :
      (id : ℕ) (all : List Data) (h : Hub Data) (ss : List (Step marshal marshal_history))
      → IsSame id ss
      → Gets id all h
      → Gets id (all ++ taken h ss) (run_from marshal marshal_history h ss)
  unfolding run_from broadcast serve_ws receive deliver
  run_from-Gets id all h [] n g = simp (append_nil all) g
  run_from-Gets id all h (broadcasts msg ∷ older) n g =
      subst (λ xs. Gets id xs (run_from marshal marshal_history h (broadcasts msg ∷ older)))
        (append_assoc all (taken h older) _)
        (enqueue-Gets id (all ++ taken h older) (marshal msg)
          (run_from marshal marshal_history h older) (run_from-Gets id all h older n g))
  run_from-Gets id all h (receives ∷ older) n g =
      let q = run_from marshal marshal_history h older in
      receive_of-Gets id _ q.in_hand q.waiting q.clients (run_from-Gets id all h older n g)
  run_from-Gets id all h (delivers fails ∷ older) n g =
      let q = run_from marshal marshal_history h older in
      deliver_of-Gets id _ fails q.in_hand q.waiting q.clients (run_from-Gets id all h older n g)
  run_from-Gets id all h (serves j history ∷ older) (e, n) g =
      simp e (run_from-Gets id all h older n g)
  run_from-Gets id all h (read_fails j ∷ older) n g =
      read_error-Gets id j _ (run_from marshal marshal_history h older)
        (run_from-Gets id all h older n g)

  abbrev IsBounded : Hub Data → Type 0
  IsBounded h = length h.waiting ≤ max_waiting

  enqueue-IsBounded : (o : Option Data) (h : Hub Data) → IsBounded h → IsBounded (enqueue o h)
  enqueue-IsBounded none h b = b
  enqueue-IsBounded (some text) h b = elim (Bool-cases (ltb (length h.waiting) max_waiting)) [
    | inl room ↦ simp room (omega (arith, ltb_lt room, length-append h.waiting (text ∷ [])))
    | inr full ↦ simp full b
  ]

  receive_of-IsBounded :
      (o : Option Data) (w : List Data) (clients : ℕ → Option (Client Data))
      → length w ≤ max_waiting
      → IsBounded (receive_of o w clients)
  receive_of-IsBounded none [] clients b = b
  receive_of-IsBounded none (text ∷ rest) clients b = omega arith
  receive_of-IsBounded (some text) w clients b = b

  deliver_of-IsBounded :
      (fails : ℕ → Bool) (o : Option Data) (w : List Data) (clients : ℕ → Option (Client Data))
      → length w ≤ max_waiting
      → IsBounded (deliver_of fails o w clients)
  deliver_of-IsBounded fails none w clients b = b
  deliver_of-IsBounded fails (some text) w clients b = b

  run_from-IsBounded :
      (h : Hub Data) (ss : List (Step marshal marshal_history))
      → IsBounded h
      → IsBounded (run_from marshal marshal_history h ss)
  unfolding run_from broadcast serve_ws on_read_error receive deliver
  run_from-IsBounded h [] b = b
  run_from-IsBounded h (broadcasts msg ∷ older) b =
      enqueue-IsBounded (marshal msg) (run_from marshal marshal_history h older)
        (run_from-IsBounded h older b)
  run_from-IsBounded h (receives ∷ older) b =
      let q = run_from marshal marshal_history h older in
      receive_of-IsBounded q.in_hand q.waiting q.clients (run_from-IsBounded h older b)
  run_from-IsBounded h (delivers fails ∷ older) b =
      let q = run_from marshal marshal_history h older in
      deliver_of-IsBounded fails q.in_hand q.waiting q.clients (run_from-IsBounded h older b)
  run_from-IsBounded h (serves j history ∷ older) b = run_from-IsBounded h older b
  run_from-IsBounded h (read_fails j ∷ older) b = run_from-IsBounded h older b

  serve_ws-Gets :
      (id : ℕ) (history : Option (List History)) (h : Hub Data)
      → Gets id
          (list_of (first_data marshal marshal_history history) ++ pending h)
          (serve_ws marshal marshal_history id history h)
  unfolding serve_ws
  serve_ws-Gets id history h = simp (eq_same id) (λ r. refl)

  HasAll-some :
      (all waiting : List Data) (o : Option (Client Data)) (c : Client Data)
      → o ≡ some c
      → HasAll all waiting o
      → HasAll all waiting (some c)
  HasAll-some all waiting o c e h = subst (HasAll all waiting) e h

  -- A page connects over a new socket after any steps of the hub and stays connected through any more: what
  -- was written to it, followed by what is still to be sent, is the history message (where there is one;
  -- its write is taken to succeed), what was still to be sent when it connected, and all that the channel
  -- took in since, in this order, nothing lost and nothing twice. At most 512 messages wait in the channel.
  pub page-delivered :
      (id : ℕ) (history : Option (List History)) (older newer : List (Step marshal marshal_history))
      → IsSame id newer
      → let before = run_from marshal marshal_history new_hub older in
        let connected = serve_ws marshal marshal_history id history before in
        let after = run_from marshal marshal_history connected newer in
        (length after.waiting ≤ max_waiting)
        × ((c : Client Data)
            → after.clients id ≡ some c
            → c.registered ≡ true
            → c.got ++ pending after
              ≡ (list_of (first_data marshal marshal_history history) ++ pending before)
                ++ taken connected newer)
  unfolding serve_ws
  page-delivered id history older newer n =
      let before = run_from marshal marshal_history new_hub older in
      let connected = serve_ws marshal marshal_history id history before in
      (
        run_from-IsBounded connected newer (run_from-IsBounded new_hub older (omega arith)),
        λ c e.
            HasAll-some _ _ _ c e
              (run_from-Gets id _ connected newer n (serve_ws-Gets id history before)),
      )
