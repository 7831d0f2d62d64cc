-- ===== src/Events/Silence.antt =====
-- When a handler is not invoked.
use maids_claw.Common.{
  ◌≡◌, refl, ap, ◌∙◌, Bool, false, not, ◌&&◌, ◌||◌, List, [], ◌∷◌, ◌++◌, Option, none, some, String,
  str_eq, eq_iff, or_else, All, inl, inr, Bool-cases, List-cases, arith,
}
use maids_claw.Common.Maps.{get, has, remove, get-unset}
use maids_claw.State.{drop_key}
use maids_claw.State.Index.{in_set, indexed, indexed-add, indexed-drop_key}
use maids_claw.Events.{EventBus, on, once, off, emit, drop_handler}

pub data BusOp : Type 0 where
  adds : (event handler : String) → BusOp
  adds_once : (event handler : String) → BusOp
  drops : (event handler : String) → BusOp
  emits : (event : String) → BusOp

-- the handler is not registered for the event
pub record IsSilent (event handler : String) (bus : EventBus) : Type 0 where
  pub regular : indexed handler event bus.listeners ≡ false
  pub waiting : indexed handler event bus.once_listeners ≡ false

-- the event and the handlers that were invoked for it, per emission
unfoldable pub run : List BusOp → EventBus → List (String × List String) × EventBus
unfolding on once off emit
run [] bus = ([], bus)
run (adds e h ∷ ops) bus = run ops (on e h bus)
run (adds_once e h ∷ ops) bus = run ops (once e h bus)
run (drops e h ∷ ops) bus = run ops (off e h bus)
run (emits e ∷ ops) bus =
    let rest = run ops (emit e bus).1 in ((e, (emit e bus).0) ∷ rest.0, rest.1)

-- the operation does not register the handler for the event
abbrev pub registers : String → String → BusOp → Bool
registers event handler (adds e h) = str_eq e event && str_eq h handler
registers event handler (adds_once e h) = str_eq e event && str_eq h handler
registers event handler (drops e h) = false
registers event handler (emits e) = false

abbrev pub invoked : String → String → String × List String → Bool
invoked event handler (e, handlers) = str_eq e event && has handler handlers

-- a handler is dropped from one event's set, and from no other
indexed-drop_handler :
    (e h j t : String) (m : List (String × List String))
    → indexed j t (drop_handler e h m) ≡ (indexed j t m && not (str_eq e t && str_eq h j))
unfolding drop_handler drop_key
indexed-drop_handler e h j t m = ap (indexed j t) (same (get e m) refl) ∙ indexed-drop_key e h j t m
  where
    same : (o : Option (List String)) → get e m ≡ o → drop_handler e h m ≡ drop_key e h m
    same none missing = rw (missing, drop_handler, drop_key)
    same (some hs) there =
        rw (there, drop_handler, drop_key)
          (elim (List-cases (remove h hs)) [ inl empty ↦ rw empty | inr (x, xs, more) ↦ rw more ])

-- Dropping a handler silences it.
pub off-IsSilent :
    (event handler : String) (bus : EventBus) → IsSilent event handler (off event handler bus)
unfolding off
off-IsSilent event handler bus = record {
  regular =
      indexed-drop_handler event handler handler event bus.listeners
      ∙ ground (arith, eq_iff event event, eq_iff handler handler);
  waiting =
      indexed-drop_handler event handler handler event bus.once_listeners
      ∙ ground (arith, eq_iff event event, eq_iff handler handler);
}

-- An emission silences a handler that is registered for it only once.
pub emit-IsSilent :
    (event handler : String) (bus : EventBus)
    → indexed handler event bus.listeners ≡ false
    → IsSilent event handler (emit event bus).1
unfolding emit
emit-IsSilent event handler bus once_only = record {
  regular = once_only;
  waiting =
      ap (in_set handler) (get-unset event event bus.once_listeners)
      ∙ rw ((eq_iff event event).1 refl);
}

has-append : (h : String) (xs ys : List String) → has h (xs ++ ys) ≡ (has h xs || has h ys)
has-append h [] ys = refl
has-append h (x ∷ xs) ys = ap (λ b. str_eq x h || b) (has-append h xs ys) ∙ ground arith

set_of : (h : String) (o : Option (List String)) → has h (or_else o []) ≡ in_set h o
set_of h none = refl
set_of h (some hs) = refl

not_invoked :
    (event handler e : String) (bus : EventBus)
    → IsSilent event handler bus
    → invoked event handler (e, (emit e bus).0) ≡ false
unfolding emit
not_invoked event handler e bus s = elim (Bool-cases (str_eq e event)) [
  | inr other ↦ rw other
  | inl same ↦
      let e_event : e ≡ event = (eq_iff e event).0 same in
      let r : has handler (or_else (get e bus.listeners) []) ≡ false =
        set_of handler (get e bus.listeners)
        ∙ ap (λ k. in_set handler (get k bus.listeners)) e_event
        ∙ s.regular in
      let w : has handler (or_else (get e bus.once_listeners) []) ≡ false =
        set_of handler (get e bus.once_listeners)
        ∙ ap (λ k. in_set handler (get k bus.once_listeners)) e_event
        ∙ s.waiting in
      rw same (
        has-append handler (or_else (get e bus.listeners) [])
          (or_else (get e bus.once_listeners) [])
        ∙ rw r (rw w))
]

-- A handler that is not registered for an event is invoked for it by no emission, and stays
-- unregistered, in every sequence of operations that does not register it for the event.
pub run-IsSilent :
    (ops : List BusOp) (event handler : String) (bus : EventBus)
    → All (λ op. registers event handler op ≡ false) ops
    → IsSilent event handler bus
    → All (λ call. invoked event handler call ≡ false) (run ops bus).0
      × IsSilent event handler (run ops bus).1
unfolding run on once off emit
run-IsSilent [] event handler bus quiet s = (tt, s)
run-IsSilent (adds e h ∷ ops) event handler bus (other, quiet) s =
    run-IsSilent ops event handler (on e h bus) quiet (record {
      regular = indexed-add e h handler event bus.listeners ∙ rw s.regular (ground arith);
      waiting = s.waiting;
    })
run-IsSilent (adds_once e h ∷ ops) event handler bus (other, quiet) s =
    run-IsSilent ops event handler (once e h bus) quiet (record {
      regular = s.regular;
      waiting = indexed-add e h handler event bus.once_listeners ∙ rw s.waiting (ground arith);
    })
run-IsSilent (drops e h ∷ ops) event handler bus (other, quiet) s =
    run-IsSilent ops event handler (off e h bus) quiet (record {
      regular = indexed-drop_handler e h handler event bus.listeners ∙ rw s.regular (ground arith);
      waiting =
          indexed-drop_handler e h handler event bus.once_listeners ∙ rw s.waiting (ground arith);
    })
run-IsSilent (emits e ∷ ops) event handler bus (other, quiet) s =
    let (calls, after) = run-IsSilent ops event handler (emit e bus).1 quiet (record {
      regular = s.regular;
      waiting =
          ap (in_set handler) (get-unset e event bus.once_listeners)
          ∙ elim (Bool-cases (str_eq e event)) [
            | inl same ↦ rw same
            | inr away ↦ rw away s.waiting
          ];
    }) in
    ((not_invoked event handler e bus s, calls), after)

-- A handler that was dropped from an event is invoked by no later emission of the event, in every
-- sequence of operations that does not register it for the event again.
pub run-off :
    (ops : List BusOp) (event handler : String) (bus : EventBus)
    → All (λ op. registers event handler op ≡ false) ops
    → All (λ call. invoked event handler call ≡ false) (run ops (off event handler bus)).0
run-off ops event handler bus quiet =
    (run-IsSilent ops event handler (off event handler bus) quiet
      (off-IsSilent event handler bus)).0

-- A handler that is registered for an event by `once` alone is invoked by no emission of the event
-- after the first, in every sequence of operations that does not register it for the event again.
pub run-emit :
    (ops : List BusOp) (event handler : String) (bus : EventBus)
    → All (λ op. registers event handler op ≡ false) ops
    → indexed handler event bus.listeners ≡ false
    → All (λ call. invoked event handler call ≡ false) (run ops (emit event bus).1).0
run-emit ops event handler bus quiet once_only =
    (run-IsSilent ops event handler (emit event bus).1 quiet
      (emit-IsSilent event handler bus once_only)).0
