-- ===== src/Corpus/Attribution.antt =====
-- internal/hp/corpus.go: whom the replay credits with a result.
use fasthack.Prelude.{
  ℕ, ◌≡◌, refl, ap, ◌∙◌, inl, inr, Bool, true, false, not, ◌&&◌, ◌||◌, Option, none, some, List, [],
  ◌∷◌, ◌++◌, arith, ◌==◌, if◌then◌else◌, Bool-cases,
}
use fasthack.Text.{Text, text_eq}
use fasthack.Text.Laws.{text_eq_sound}
use fasthack.Dict.{Dict, get, put}
use fasthack.Dict.Laws.{get-put}
use fasthack.Corpus.{ReuseKind, first_run, self_reuse, cross_agent, add}
use fasthack.Corpus.Replay.{
  Event, Sighting, kind_of, sight, classify_once, Counts, count_event, with_class, replay_events,
}
use fasthack.Corpus.Headline.{Returns, classify_once-returns, sightings, replay_events_step}

-- Whether an event has the key.
unfoldable pub ran : Text → List Event → Bool
ran key [] = false
ran key (e ∷ evs) = text_eq e.key key || ran key evs

-- Whether an event of another attempt has the key.
unfoldable pub ran_elsewhere : Text → ℕ → List Event → Bool
ran_elsewhere key attempt [] = false
ran_elsewhere key attempt (e ∷ evs) =
    (text_eq e.key key && not (e.attempt == attempt)) || ran_elsewhere key attempt evs

unfoldable pub joined : ReuseKind → ReuseKind
joined cross_agent = cross_agent
joined self_reuse = self_reuse
joined first_run = self_reuse

-- The credit for a command, by whether the key ran elsewhere, whether it ran, and the credit before.
unfoldable pub credit : Bool → Bool → ReuseKind → ReuseKind
credit elsewhere here k = if elsewhere then cross_agent else if here then joined k else k

-- One sighting more.
credit-sight :
    (a attempt : ℕ) (o : Option Sighting)
    → kind_of attempt (some (sight a o)) ≡ credit (not (a == attempt)) true (kind_of attempt o)
unfolding kind_of sight credit joined
credit-sight a attempt none = ground arith
credit-sight a attempt (some s) = ground arith

credit-credit :
    (d f b g : Bool) (k : ReuseKind) → credit d f (credit b g k) ≡ credit (b || d) (g || f) k
unfolding credit joined
credit-credit true f true g k = refl
credit-credit true f false g k = refl
credit-credit false true true g k = refl
credit-credit false false true g k = refl
credit-credit false false false true k = refl
credit-credit false false false false k = refl
credit-credit false true false false k = refl
credit-credit false true false true cross_agent = refl
credit-credit false true false true self_reuse = refl
credit-credit false true false true first_run = refl

credit_none : (k : ReuseKind) → k ≡ credit false false k
unfolding credit
credit_none k = refl

seen_credit :
    (key : Text) (attempt : ℕ) (e : Event) (seen : Dict Sighting)
    → kind_of attempt (get (put seen e.key (sight e.attempt (get seen e.key))) key)
      ≡ credit
          (text_eq e.key key && not (e.attempt == attempt))
          (text_eq e.key key)
          (kind_of attempt (get seen key))
seen_credit key attempt e seen = elim (Bool-cases (text_eq e.key key)) [
  | inr other ↦ rw (get-put, other) (credit_none (kind_of attempt (get seen key)))
  | inl same ↦
      rw (get-put, same, ← text_eq_sound e.key key same)
        (credit-sight e.attempt attempt (get seen e.key))
]

-- What is known of a key behind a list of events.
kind-sightings :
    (key : Text) (attempt : ℕ) (evs : List Event) (seen : Dict Sighting)
    → kind_of attempt (get (sightings evs seen) key)
      ≡ credit (ran_elsewhere key attempt evs) (ran key evs) (kind_of attempt (get seen key))
unfolding sightings ran ran_elsewhere credit
kind-sightings key attempt [] seen = refl
kind-sightings key attempt (e ∷ evs) seen =
    kind-sightings key attempt evs (put seen e.key (sight e.attempt (get seen e.key)))
    ∙ ap (credit (ran_elsewhere key attempt evs) (ran key evs)) (seen_credit key attempt e seen)
    ∙ credit-credit (ran_elsewhere key attempt evs) (ran key evs)
        (text_eq e.key key && not (e.attempt == attempt)) (text_eq e.key key)
        (kind_of attempt (get seen key))

-- The loop over a list and then another.
replay_events-append :
    (fuel : ℕ) (evs rest : List Event) (seen : Dict Sighting) (o : Option Counts)
    → replay_events fuel (evs ++ rest) seen o
      ≡ replay_events fuel rest (sightings evs seen) (replay_events fuel evs seen o)
unfolding replay_events sightings
replay_events-append fuel evs rest seen none = refl
replay_events-append fuel [] rest seen (some c) = refl
replay_events-append fuel (e ∷ evs) rest seen (some c) =
    replay_events-append fuel evs rest (put seen e.key (sight e.attempt (get seen e.key)))
      (with_class e (kind_of e.attempt (get seen e.key)) c (classify_once fuel c.verdicts e.cmd))

replay_one :
    (fuel : ℕ) (e : Event) (seen : Dict Sighting) (c : Counts)
    → Returns fuel e
    → (c' : Counts) × (replay_events fuel (e ∷ []) seen (some c) ≡ some c')
      × (c'.overall ≡ add (kind_of e.attempt (get seen e.key)) c.overall)
unfolding replay_events count_event
replay_one fuel e seen c h =
    let (v, classified) = classify_once-returns fuel c.verdicts e.cmd h in
    (
      count_event e (kind_of e.attempt (get seen e.key)) v c,
      replay_events_step fuel e [] seen c v classified,
      refl,
    )

-- A command is counted by what the events before it ran: as cross-agent reuse if another attempt ran
-- its key, otherwise as self reuse if its own attempt did, and otherwise as a first run.
pub replay_events_credit :
    (fuel : ℕ) (evs : List Event) (e : Event) (c c1 : Counts)
    → replay_events fuel evs [] (some c) ≡ some c1
    → Returns fuel e
    → (c2 : Counts) × (replay_events fuel (evs ++ e ∷ []) [] (some c) ≡ some c2)
      × (c2.overall
          ≡ add
              (if ran_elsewhere e.key e.attempt evs
                then cross_agent
                else if ran e.key evs
                then self_reuse
                else first_run)
              c1.overall)
unfolding credit joined get kind_of
replay_events_credit fuel evs e c c1 h r =
    let (c2, returned, counted) = replay_one fuel e (sightings evs []) c1 r in
    (
      c2,
      replay_events-append fuel evs (e ∷ []) [] (some c)
          ∙ ap (replay_events fuel (e ∷ []) (sightings evs [])) h
          ∙ returned,
      counted ∙ ap (λ k. add k c1.overall) (kind-sightings e.key e.attempt evs []),
    )
