-- ===== src/Streams/Iteration/Acks.antt =====
-- What a stream gives, and how often it acknowledges each message.
use faust.Common.{
  ℕ, ◌+◌, ◌≡◌, refl, ap, ◌∙◌, arith, Bool, true, false, ◌&&◌, List, [], ◌∷◌, Option, none, some,
  String, if◌then◌else◌, ◌==◌, nat_eq, nat_beq_iff, Bool-cases, inl, inr,
}
use faust.Types.{tp_eq}
use faust.Consumer.Intervals.{IntervalTree}
use faust.Streams.Iteration.{
  Event, Item, event, plain, Processed, returns, skips, stops, raises, Fate, yields, skipped,
  finished, again, App, process, Streaming, is_current, fate, arrive, depart, iterate,
}
use faust.Streams.Iteration.Given.{
  after_ack, after_acks, gives, Runs, IsStale, IsTimely, Gives, nothing, stale, given,
  given_unacked, dropped, ended, plain_given, plain_none, plain_dropped, plain_ended,
}
use faust.Streams.Iteration.Processors.{process-Runs_of}
use faust.Streams.Iteration.Messages.{is_of, arrive-messages, depart-messages}

module _ (it : IntervalTree) {V : Type 0} (acking : String → Bool)
    (processors : List (Option V → Processed V)) where
  -- What the iteration comes to, for each fate of the first value
  abbrev iterate_by :
      Fate V → Streaming it → App → Item V → List (App × Item V) → Streaming it × List (Option V)
  iterate_by (yields value) s app item items =
      let s' = arrive it acking processors s app item in
      let counted : Streaming it = record s' { events_total = s'.events_total + 1 } in
      let rest =
        iterate it acking processors (depart it acking processors counted item app.enable_acks)
          items in
      (rest.0, value ∷ rest.1)
  iterate_by skipped s app item items =
      iterate it acking processors
        (depart it acking processors (arrive it acking processors s app item) item true) items
  iterate_by finished s app item items = (arrive it acking processors s app item, [])
  iterate_by again s app item items =
      iterate it acking processors (arrive it acking processors s app item) items

  iterate_step :
      (s : Streaming it) (app : App) (item : Item V) (items : List (App × Item V)) (f : Fate V)
      → fate it acking processors app item ≡ f
      → iterate it acking processors s ((app, item) ∷ items) ≡ iterate_by f s app item items
  unfolding iterate
  iterate_step s app item items (yields v) e = rw (e, iterate) refl
  iterate_step s app item items skipped e = rw (e, iterate) refl
  iterate_step s app item items finished e = rw (e, iterate) refl
  iterate_step s app item items again e = rw (e, iterate) refl

  is_current-IsTimely :
      (app : App) (e : Event V) → is_current it acking processors app e ≡ true → IsTimely app e
  is_current-IsTimely app e h = (
    ground (arith, h),
    (nat_beq_iff e.generation_id app.consumer_generation_id).0 (ground (arith, h)),
  )

  is_current-IsStale :
      (app : App) (e : Event V) → is_current it acking processors app e ≡ false → IsStale app e
  is_current-IsStale app e h = elim (Bool-cases app.flow_is_active) [
    | inl y ↦
        inr (λ same.
          ground (arith, y, h, same, nat_beq_iff e.generation_id app.consumer_generation_id))
    | inr n ↦ inl n
  ]

  -- What the user is given, and the messages, are as the relation says.
  abbrev pub Iterates : Streaming it → List (App × Item V) → Streaming it × List (Option V) → Type 0
  Iterates s items r =
      (acks : List ℕ) × Gives processors items r.1 acks
      × ((i : ℕ) → r.0.messages i ≡ after_acks acks i (s.messages i))

  module _ (s : Streaming it) (app : App) (item : Item V) where
    abbrev arrived : Streaming it
    arrived = arrive it acking processors s app item

    kept-messages : (i : ℕ) → arrived.messages i ≡ s.messages i
    kept-messages i = ap (λ f. f i) (arrive-messages it acking processors s app item)

    departed-messages :
        (t : Streaming it) (b : Bool) (i : ℕ)
        → t.messages i ≡ s.messages i
        → (depart it acking processors t item b).messages i
          ≡ (if is_of item i && b then after_ack (s.messages i) else s.messages i)
    departed-messages t b i same =
        depart-messages it acking processors t item b i
        ∙ ap (λ m. if is_of item i && b then after_ack m else m) same

  module _ (s : Streaming it) (app : App) (e : Event V) (items : List (App × Item V))
      (later : (t : Streaming it) → Iterates t items (iterate it acking processors t items)) where
    -- An event that is skipped is acknowledged.
    skipped_event :
        ((values : List (Option V)) (acks : List ℕ)
          → Gives processors items values acks
          → Gives processors ((app, event e) ∷ items) values (e.ident ∷ acks))
        → fate it acking processors app (event e) ≡ skipped
        → Iterates s
            ((app, event e) ∷ items)
            (iterate it acking processors s ((app, event e) ∷ items))
    skipped_event spec h =
        let t = depart it acking processors (arrived s app (event e)) (event e) true in
        let rest = later t in
        rw (iterate_step s app (event e) items skipped h) (
          e.ident ∷ rest.0,
          spec _ rest.0 rest.1,
          λ i.
              rest.2 i
              ∙ ap (after_acks rest.0 i) (
                  departed-messages s app (event e) (arrived s app (event e)) true i
                    (kept-messages s app (event e) i)
                  ∙ ground arith),
        )

    given_event :
        (value : Option V)
        → IsTimely app e
        → Runs processors e.value (gives value)
        → fate it acking processors app (event e) ≡ yields value
        → Iterates s
            ((app, event e) ∷ items)
            (iterate it acking processors s ((app, event e) ∷ items))
    given_event value timely runs h =
        let a = arrived s app (event e) in
        let counted : Streaming it = record a { events_total = a.events_total + 1 } in
        let t = depart it acking processors counted (event e) app.enable_acks in
        let rest = later t in
        let departed : (i : ℕ)
            → t.messages i ≡ (
                if (e.ident == i) && app.enable_acks
                then after_ack (s.messages i)
                else s.messages i) =
          λ i.
            departed-messages s app (event e) counted app.enable_acks i
              (kept-messages s app (event e) i) in
        rw (iterate_step s app (event e) items (yields value) h)
          (elim (Bool-cases app.enable_acks) [
            | inl y ↦ (
              e.ident ∷ rest.0,
              given timely runs y rest.1,
              λ i. rest.2 i ∙ ap (after_acks rest.0 i) (departed i ∙ ground (arith, y)),
            )
            | inr n ↦ (
              rest.0,
              given_unacked timely runs n rest.1,
              λ i. rest.2 i ∙ ap (after_acks rest.0 i) (departed i ∙ ground (arith, n)),
            )
          ])

    timely_event :
        (r : Processed V)
        → process processors e.value ≡ r
        → IsTimely app e
        → is_current it acking processors app e ≡ true
        → Iterates s
            ((app, event e) ∷ items)
            (iterate it acking processors s ((app, event e) ∷ items))
    unfolding fate
    timely_event (returns value) h timely y =
        given_event value timely (process-Runs_of processors e.value h) (rw (y, h) refl)
    timely_event skips h timely y =
        skipped_event (λ _ _. dropped timely (process-Runs_of processors e.value h))
          (rw (y, h) refl)
    timely_event raises h timely y =
        skipped_event (λ _ _. dropped timely (process-Runs_of processors e.value h))
          (rw (y, h) refl)
    timely_event stops h timely y =
        rw (iterate_step s app (event e) items finished (rw (y, h) refl))
          ([], ended timely (process-Runs_of processors e.value h), kept-messages s app (event e))

    event_step :
        Iterates s
          ((app, event e) ∷ items)
          (iterate it acking processors s ((app, event e) ∷ items))
    unfolding fate
    event_step = elim (Bool-cases (is_current it acking processors app e)) [
      | inl y ↦ timely_event (process processors e.value) refl (is_current-IsTimely app e y) y
      | inr n ↦ skipped_event (λ _ _. stale (is_current-IsStale app e n)) (rw n refl)
    ]

  module _ (s : Streaming it) (app : App) (v : Option V) (items : List (App × Item V))
      (later : (t : Streaming it) → Iterates t items (iterate it acking processors t items)) where
    plain_step :
        (r : Processed V)
        → process processors v ≡ r
        → Iterates s
            ((app, plain v) ∷ items)
            (iterate it acking processors s ((app, plain v) ∷ items))
    unfolding fate arrive depart
    plain_step (returns none) h =
        let rest = later s in
        rw (iterate_step s app (plain v) items again (rw h refl))
          (rest.0, plain_none (process-Runs_of processors v h) rest.1, rest.2)
    plain_step (returns (some w)) h =
        let rest = later (record s { events_total = s.events_total + 1 }) in
        rw (iterate_step s app (plain v) items (yields (some w)) (rw h refl))
          (rest.0, plain_given (process-Runs_of processors v h) rest.1, rest.2)
    plain_step skips h =
        let rest = later s in
        rw (iterate_step s app (plain v) items skipped (rw h refl))
          (rest.0, plain_dropped (process-Runs_of processors v h) rest.1, rest.2)
    plain_step raises h =
        let rest = later s in
        rw (iterate_step s app (plain v) items skipped (rw h refl))
          (rest.0, plain_dropped (process-Runs_of processors v h) rest.1, rest.2)
    plain_step stops h =
        rw (iterate_step s app (plain v) items finished (rw h refl))
          ([], plain_ended (process-Runs_of processors v h), λ i. refl)

  -- The processors take a value in turn, each what the one before it returned: one that raises
  -- Skip, or an exception other than StopAsyncIteration, drops the value, and StopAsyncIteration
  -- ends the iteration. The user is given, in order, what the processors return for the values
  -- before the one that ends it; events that are not of the app's generation or come while flow
  -- control is inactive are skipped, whatever the processors do, and values without an event for
  -- which the processors return None are left out. A message is acknowledged once for each event
  -- of it, of those before the end, that is skipped or dropped, or given while acks are enabled,
  -- and is otherwise as it was.
  pub iterate-values :
      (s : Streaming it) (items : List (App × Item V))
      → Iterates s items (iterate it acking processors s items)
  unfolding iterate
  iterate-values s [] = ([], nothing, λ i. refl)
  iterate-values s ((app, event e) ∷ items) = event_step s app e items (λ t. iterate-values t items)
  iterate-values s ((app, plain v) ∷ items) =
      plain_step s app v items (λ t. iterate-values t items) (process processors v) refl
