-- ===== src/Conductor/Balance.antt =====
-- The reference count of a message counts the channels that were given its event.
use mathlib.Core.Path.{subst}
use faust.Common.{
  ℕ, suc, ◌+◌, ◌≡◌, refl, ap, Bool, true, false, List, [], ◌∷◌, ◌++◌, map, some, arith,
  if◌then◌else◌, nat_eq, nat_beq, contains, length, length-append, All, Bool-cases, inl, inr,
}
use faust.Common.Members.{IsSetList, IsSetList-snoc, length-difference}
use faust.Types.{Message, incref, decref, ack}
use faust.Conductor.{Channel}
use faust.Conductor.Handler.{
  Decoded, event, key_decode_error, value_decode_error, Loop, event_for, hand_over, after_decode,
  deliver, no_loop, finish, on_message,
}

abbrev pub idents : List Channel → List ℕ
idents channels = map (λ c. c.ident) channels

abbrev pub receivers : {E : Type 0} → List (ℕ × E) → List ℕ
receivers puts = map (λ d. d.0) puts

receivers-snoc :
    {E : Type 0} (xs : List (ℕ × E)) (i : ℕ) (e : E)
    → receivers (xs ++ (i, e) ∷ []) ≡ receivers xs ++ i ∷ []
receivers-snoc [] i e = refl
receivers-snoc (x ∷ xs) i e = ap (λ ys. x.0 ∷ ys) (receivers-snoc xs i e)

length-receivers : {E : Type 0} (xs : List (ℕ × E)) → length (receivers xs) ≡ length xs
length-receivers [] = refl
length-receivers (x ∷ xs) = ap suc (length-receivers xs)

length-idents : (channels : List Channel) → length (idents channels) ≡ length channels
length-idents [] = refl
length-idents (c ∷ channels) = ap suc (length-idents channels)

-- None of these is among those.
abbrev Apart : List ℕ → List ℕ → Type 0
Apart rest = All (λ d. contains rest d ≡ false)

Apart-tail : (x : ℕ) (rest ds : List ℕ) → Apart (x ∷ rest) ds → Apart rest ds
Apart-tail x rest [] h = tt
Apart-tail x rest (d ∷ ds) h = (ground (arith, h.0), Apart-tail x rest ds h.1)

Apart-head : (x : ℕ) (rest ds : List ℕ) → Apart (x ∷ rest) ds → contains ds x ≡ false
Apart-head x rest [] h = refl
Apart-head x rest (d ∷ ds) h = ground (arith, h.0, Apart-head x rest ds h.1)

All-snoc : (P : ℕ → Type 0) (xs : List ℕ) (x : ℕ) → All P xs → P x → All P (xs ++ x ∷ [])
All-snoc P [] x h p = (p, tt)
All-snoc P (y ∷ xs) x h p = (h.0, All-snoc P xs x h.1 p)

module _ {E : Type 0} (decode : Channel → Decoded E) (is_full : ℕ → Bool) where
  -- The channels that were delivered to, each once, all among these; and none of those ahead
  abbrev IsGood : List ℕ → List ℕ → Loop E → Type 0
  IsGood all ahead l =
      IsSetList (receivers l.delivered)
      × All (λ d. contains all d ≡ true) (receivers l.delivered)
      × Apart ahead (receivers l.delivered)

  hand_over-IsGood :
      (all ahead : List ℕ) (l : Loop E) (c : Channel) (e : E)
      → contains all c.ident ≡ true
      → contains ahead c.ident ≡ false
      → IsGood all (c.ident ∷ ahead) l
      → IsGood all ahead (hand_over is_full l c e)
  hand_over-IsGood all ahead l c e here later h =
      let away = Apart-tail c.ident ahead (receivers l.delivered) h.2 in
      elim (Bool-cases (is_full c.ident)) [
        | inl y ↦ rw y (h.0, h.1, away)
        | inr n ↦
            rw (n, receivers-snoc l.delivered c.ident e)
              (
                IsSetList-snoc (receivers l.delivered) c.ident
                    (Apart-head c.ident ahead (receivers l.delivered) h.2) h.0,
                All-snoc (λ d. contains all d ≡ true) (receivers l.delivered) c.ident h.1 here,
                All-snoc (λ d. contains ahead d ≡ false) (receivers l.delivered) c.ident away later,
              )
      ]

  abbrev IsDelivered : List ℕ → ℕ → Loop E × Bool → Type 0
  IsDelivered all size (l, failed) =
      IsSetList (receivers l.delivered)
      × All (λ d. contains all d ≡ true) (receivers l.delivered)
      × (failed ≡ false → length l.delivered + length l.full ≡ size)

  deliver-IsDelivered :
      (all : List ℕ) (l : Loop E) (channels : List Channel)
      → IsSetList (idents channels)
      → All (λ i. contains all i ≡ true) (idents channels)
      → IsGood all (idents channels) l
      → IsDelivered all
          (length l.delivered + length l.full + length channels)
          (deliver decode is_full l channels)
  unfolding deliver
  deliver-IsDelivered all l [] s a g = (g.0, g.1, λ _. omega arith)
  deliver-IsDelivered all l (c ∷ channels) s a g = step (event_for decode l.first c) (λ e.
      deliver-IsDelivered all (hand_over is_full l c e) channels s.1 a.1
        (hand_over-IsGood all (idents channels) l c e a.0 s.0 g))
    where
      grown :
          (e : E)
          → length (hand_over is_full l c e).delivered + length (hand_over is_full l c e).full
            ≡ suc (length l.delivered + length l.full)
      grown e = ground (
        arith,
        length-append l.delivered ((c.ident, e) ∷ []),
        length-append l.full ((c.ident, e) ∷ []),
      )

      step :
          (d : Decoded E)
          → ((e : E)
              → IsDelivered all
                  (length (hand_over is_full l c e).delivered
                    + length (hand_over is_full l c e).full
                    + length channels)
                  (deliver decode is_full (hand_over is_full l c e) channels))
          → IsDelivered all (length l.delivered + length l.full + suc (length channels)) (
              if (after_decode is_full l c d).1
              then ((after_decode is_full l c d).0, true)
              else deliver decode is_full (after_decode is_full l c d).0 channels)
      step (event e) r = let t = r e in (t.0, t.1, λ ok. omega (arith, t.2 ok, grown e))
      step key_decode_error r = (g.0, g.1, λ bad. cc)
      step value_decode_error r = (g.0, g.1, λ bad. cc)

  finish_lem :
      (m : Message) (channels : List Channel) (r : Loop E × Bool)
      → m.acked ≡ false
      → IsSetList (idents channels)
      → IsDelivered (idents channels) (length channels) r
      → (finish (incref m (length channels)) channels r).message.refcount
        ≡ m.refcount + length (finish (incref m (length channels)) channels r).puts
  unfolding incref ack decref
  finish_lem m channels (l, false) fresh s d =
      omega (arith, d.2 refl, length-append l.delivered l.full)
  finish_lem m channels (l, true) fresh s d = rw fresh (
      omega (
        arith,
        length-difference (idents channels) (receivers l.delivered) s d.0 d.1,
        length-receivers l.delivered,
        length-idents channels,
      ))

  all_there : (xs : List ℕ) → All (λ i. contains xs i ≡ true) xs
  all_there [] = tt
  all_there (x ∷ xs) = (ground arith, later xs (all_there xs))
    where
      later :
          (ys : List ℕ)
          → All (λ i. contains xs i ≡ true) ys
          → All (λ i. contains (x ∷ xs) i ≡ true) ys
      later [] h = tt
      later (y ∷ ys) h = (ground (arith, h.0), later ys h.1)

  -- Where the message is not acknowledged yet and no channel is there twice: handing a message to
  -- the channels of its partition raises its reference count by the number of channels that were
  -- given its event, whether or not an exception stopped it.
  pub on_message-refcount :
      (m : Message) (channels : List Channel)
      → m.acked ≡ false
      → IsSetList (idents channels)
      → (on_message decode is_full m channels).message.refcount
        ≡ m.refcount + length (on_message decode is_full m channels).puts
  unfolding on_message
  on_message-refcount m [] fresh s = omega arith
  on_message-refcount m (c ∷ channels) fresh s =
      let all = c ∷ channels in
      finish_lem m all (deliver decode is_full no_loop all) fresh s (
        subst (λ n. IsDelivered (idents all) n (deliver decode is_full no_loop all)) (omega arith)
          (deliver-IsDelivered (idents all) no_loop all s (all_there (idents all)) (tt, tt, tt)))

  -- Where the first of two channels has a full queue and the second one, of other types, cannot
  -- decode the message's key: the event of the first channel is put nowhere, and both channels are
  -- told of the exception.
  pub on_message-told_full :
      (m : Message) (a b : Channel) (e : E)
      → decode a ≡ event e
      → is_full a.ident ≡ true
      → nat_beq b.keyid a.keyid ≡ false
      → decode b ≡ key_decode_error
      → ((on_message decode is_full m (a ∷ b ∷ [])).puts ≡ [])
        × ((on_message decode is_full m (a ∷ b ∷ [])).told ≡ a.ident ∷ b.ident ∷ [])
  unfolding on_message deliver event_for
  on_message-told_full m a b e da fa k db =
      let step : after_decode is_full no_loop a (decode a) ≡ (
        record { first = some (e, a.keyid); delivered = []; full = (a.ident, e) ∷ [] },
        false,
      ) =
        rw (da, fa) refl in
      let rest : deliver decode is_full
            (record { first = some (e, a.keyid); delivered = []; full = (a.ident, e) ∷ [] })
            (b ∷ [])
          ≡ (record { first = some (e, a.keyid); delivered = []; full = (a.ident, e) ∷ [] }, true) =
        rw (k, db) refl in
      let whole : deliver decode is_full no_loop (a ∷ b ∷ [])
          ≡ (record { first = some (e, a.keyid); delivered = []; full = (a.ident, e) ∷ [] }, true) =
        rw step rest in
      (
        ap (λ r. (finish (incref m 2) (a ∷ b ∷ []) r).puts) whole,
        ap (λ r. (finish (incref m 2) (a ∷ b ∷ []) r).told) whole,
      )
