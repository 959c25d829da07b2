-- ===== src/Corpus/Headline.antt =====
-- internal/hp/corpus.go: the headline count of Replay.
use fasthack.Prelude.{
  ℕ, ◌+◌, ◌≡◌, ◌≢◌, ◌⊎◌, ◌↔◌, refl, ap, ◌∙◌, inl, inr, Bool, true, false, not, ◌||◌, ◌==◌, Option,
  none, some, List, [], ◌∷◌, arith, if◌then◌else◌, Bool-cases, length, All, Any,
}
use fasthack.Text.{Text, text_eq}
use fasthack.Text.Laws.{text_eq_sound, text_eq_refl}
use fasthack.Dict.{Dict, get, put}
use fasthack.Dict.Laws.{get-put}
use fasthack.Dict.Counts.{IsDistinct, one_more, put-IsDistinct, length-put, length-within}
use fasthack.Corpus.{Tally, ReuseKind, first_run, self_reuse, cross_agent, add}
use fasthack.Corpus.Replay.{
  Event, Sighting, kind_of, sight, CmdVerdict, verdict_of, from_cache, classify_once, Counts,
  count_event, with_class, replay_events,
}

-- The classifier returns for the command of the event.
abbrev pub Returns : ℕ → Event → Type 0
Returns fuel e = verdict_of fuel e.cmd ≢ none

found : (o : Option CmdVerdict) → o ≢ none → (v : CmdVerdict) × (o ≡ some v)
found none g = absurd (g refl)
found (some v) g = (v, refl)

pub classify_once-returns :
    (fuel : ℕ) (cache : Dict CmdVerdict) (cmd : Text)
    → verdict_of fuel cmd ≢ none
    → (v : CmdVerdict) × (classify_once fuel cache cmd ≡ some v)
unfolding classify_once from_cache
classify_once-returns fuel cache cmd h = cached (get cache cmd)
  where
    cached : (o : Option CmdVerdict) → (v : CmdVerdict) × (from_cache fuel cmd o ≡ some v)
    cached none = found (verdict_of fuel cmd) h
    cached (some v) = (v, refl)

-- The sightings behind a list of events.
unfoldable pub sightings : List Event → Dict Sighting → Dict Sighting
sightings [] seen = seen
sightings (e ∷ evs) seen = sightings evs (put seen e.key (sight e.attempt (get seen e.key)))

avoidable-add :
    (b : Bool) (t : Tally)
    → (add (if b then cross_agent else self_reuse) t).avoidable ≡ t.avoidable + 1
unfolding add
avoidable-add true t = refl
avoidable-add false t = refl

-- A tally with one command more, which is avoidable unless its key is new.
add-kind_of :
    (attempt : ℕ) (o : Option Sighting) (t : Tally) (n : ℕ)
    → (add (kind_of attempt o) t).avoidable + one_more o n ≡ t.avoidable + n + 1
unfolding add kind_of
add-kind_of attempt none t n = omega arith
add-kind_of attempt (some s) t n =
    omega (arith, avoidable-add (s.multi || not (s.first == attempt)) t)

commands-add : (k : ReuseKind) (t : Tally) → (add k t).commands ≡ t.commands + 1
unfolding add
commands-add first_run t = refl
commands-add self_reuse t = refl
commands-add cross_agent t = refl

-- What the loop returns: the commands are counted, and each is avoidable or adds a sighting.
record IsCounted (evs : List Event) (seen : Dict Sighting) (c c' : Counts) : Type 0 where
  pub commands : c'.overall.commands ≡ c.overall.commands + length evs
  pub avoidable :
      c'.overall.avoidable + length (sightings evs seen)
      ≡ c.overall.avoidable + length seen + length evs

-- One round of the loop.
pub replay_events_step :
    (fuel : ℕ) (e : Event) (evs : List Event) (seen : Dict Sighting) (c : Counts) (v : CmdVerdict)
    → classify_once fuel c.verdicts e.cmd ≡ some v
    → replay_events fuel (e ∷ evs) seen (some c)
      ≡ replay_events fuel evs
          (put seen e.key (sight e.attempt (get seen e.key)))
          (some (count_event e (kind_of e.attempt (get seen e.key)) v c))
unfolding replay_events with_class
replay_events_step fuel e evs seen c v h =
    ap
      (λ o.
        replay_events fuel evs (put seen e.key (sight e.attempt (get seen e.key)))
          (with_class e (kind_of e.attempt (get seen e.key)) c o))
      h

overall-count_event :
    (e : Event) (kind : ReuseKind) (v : CmdVerdict) (c : Counts)
    → (count_event e kind v c).overall ≡ add kind c.overall
unfolding count_event
overall-count_event e kind v c = refl

replay_events-IsCounted :
    (fuel : ℕ) (evs : List Event) (seen : Dict Sighting) (c : Counts)
    → All (Returns fuel) evs
    → (c' : Counts) × (replay_events fuel evs seen (some c) ≡ some c') × IsCounted evs seen c c'
unfolding replay_events sightings
replay_events-IsCounted fuel [] seen c h =
    (c, refl, record { commands = omega arith; avoidable = omega arith })
replay_events-IsCounted fuel (e ∷ evs) seen c h =
    let (v, classified) = classify_once-returns fuel c.verdicts e.cmd h.0 in
    let kind = kind_of e.attempt (get seen e.key) in
    let later = put seen e.key (sight e.attempt (get seen e.key)) in
    let (c', returned, counted) =
      replay_events-IsCounted fuel evs later (count_event e kind v c) h.1 in
    let one = overall-count_event e kind v c in
    let commands = ap (λ (t : Tally). t.commands) one ∙ commands-add kind c.overall in
    let avoidable = ap (λ (t : Tally). t.avoidable) one in
    (
      c',
      replay_events_step fuel e evs seen c v classified ∙ returned,
      record {
        commands = omega (arith, counted.commands, commands);
        avoidable = omega (
          arith,
          counted.avoidable,
          avoidable,
          length-put seen e.key (sight e.attempt (get seen e.key)),
          add-kind_of e.attempt (get seen e.key) c.overall (length seen),
        );
      },
    )

-- Whether an event has the key.
abbrev pub HasKey : Text → List Event → Type 0
HasKey k evs = Any (λ e. e.key ≡ k) evs

sightings-IsDistinct :
    (evs : List Event) (seen : Dict Sighting) → IsDistinct seen → IsDistinct (sightings evs seen)
unfolding sightings
sightings-IsDistinct [] seen d = d
sightings-IsDistinct (e ∷ evs) seen d =
    sightings-IsDistinct evs _ (put-IsDistinct seen e.key (sight e.attempt (get seen e.key)) d)

sighted :
    (evs : List Event) (seen : Dict Sighting) (k : Text)
    → get seen k ≢ none
    → get (sightings evs seen) k ≢ none
unfolding sightings
sighted [] seen k h = h
sighted (e ∷ evs) seen k h = sighted evs _ k (rw get-put (by_key (text_eq e.key k)))
  where
    by_key : (b : Bool) → (if b then some (sight e.attempt (get seen e.key)) else get seen k) ≢ none
    by_key true = λ g. cc g
    by_key false = h

-- The keys that are sighted are those of the events.
HasKey-sighted :
    (evs : List Event) (seen : Dict Sighting) (k : Text)
    → HasKey k evs
    → get (sightings evs seen) k ≢ none
unfolding sightings
HasKey-sighted [] seen k h = absurd h
HasKey-sighted (e ∷ evs) seen k (inl same) =
    sighted evs _ k (rw (same, get-put, text_eq_refl k) (λ g. cc g))
HasKey-sighted (e ∷ evs) seen k (inr h) = HasKey-sighted evs _ k h

sighted-HasKey :
    (evs : List Event) (seen : Dict Sighting) (k : Text)
    → get (sightings evs seen) k ≢ none
    → (get seen k ≢ none) ⊎ HasKey k evs
unfolding sightings
sighted-HasKey [] seen k h = inl h
sighted-HasKey (e ∷ evs) seen k h =
    elim (sighted-HasKey evs (put seen e.key (sight e.attempt (get seen e.key))) k h) [
      | inr i ↦ inr (inr i)
      | inl old ↦ elim (Bool-cases (text_eq e.key k)) [
        | inl same ↦ inr (inl (text_eq_sound e.key k same))
        | inr other ↦ inl (rw (get-put, other) at old)
      ]
    ]

-- A map that holds each key of the events, and no other, once.
pub record IsKeySet (m : Dict Bool) (evs : List Event) : Type 0 where
  pub distinct : IsDistinct m
  pub keys : (k : Text) → (get m k ≢ none) ↔ HasKey k evs

length-sightings :
    (m : Dict Bool) (evs : List Event) → IsKeySet m evs → length (sightings evs []) ≡ length m
unfolding get
length-sightings m evs i = omega (
  arith,
  length-within (sightings evs []) m (sightings-IsDistinct evs [] tt) (λ k h.
      elim (sighted-HasKey evs [] k h) [
        | inl old ↦ absurd (old refl)
        | inr key ↦ (i.keys k).1 key
      ]),
  length-within m (sightings evs []) i.distinct (λ k h. HasKey-sighted evs [] k ((i.keys k).0 h)),
)

-- If the classifier returns for each command of an instance, so does the loop, and the commands that
-- it finds avoidable are as many as the events less their distinct keys, in whatever order they come.
pub replay_events_headline :
    (fuel : ℕ) (evs : List Event) (c : Counts) (m : Dict Bool)
    → All (Returns fuel) evs
    → IsKeySet m evs
    → (c' : Counts) × (replay_events fuel evs [] (some c) ≡ some c')
      × (c'.overall.commands ≡ c.overall.commands + length evs)
      × (c'.overall.avoidable + length m ≡ c.overall.avoidable + length evs)
replay_events_headline fuel evs c m h i =
    let (c', returned, counted) = replay_events-IsCounted fuel evs [] c h in
    (c', returned, counted.commands, omega (arith, counted.avoidable, length-sightings m evs i))
