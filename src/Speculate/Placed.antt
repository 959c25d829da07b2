-- ===== src/Speculate/Placed.antt =====
-- internal/hp/speculate.go: where learnFromLog sees the agents.
use fasthack.Prelude.{
  ℕ, ◌+◌, ◌≡◌, ◌⊎◌, refl, ap, ◌∙◌, inl, inr, Bool, true, false, ◌&&◌, Option, none, some, List, [],
  ◌∷◌, arith, if◌then◌else◌, Bool-cases,
}
use fasthack.Text.{Text, text_eq}
use fasthack.Text.Laws.{text_eq_sound, text_eq_refl}
use fasthack.Dict.{Dict, get, put, remove}
use fasthack.Dict.Laws.{get-put, get-remove}
use fasthack.Record.{Record}
use fasthack.Daemon.Leases.{is_true}
use fasthack.Speculate.{SpecSite, Model}
use fasthack.Speculate.Learn.{
  site_id, site_or_new, visit, without_agent, leave, with_agent, arrive, is_attempt, note_attempt,
  is_demand, note_demand, learn_record, learn_records, empty_model,
}

-- Whether the set of a site has the agent.
unfoldable pub lists : Text → Option SpecSite → Bool
lists agent none = false
lists agent (some st) = is_true (get st.agents agent)

unfoldable pub is_at : Text → Option Text → Bool
is_at id none = false
is_at id (some prev) = text_eq prev id

-- The set of a site has an agent exactly if that site is where the agent was seen last.
pub record IsPlaced (m : Model) : Type 0 where
  pub placed : (id agent : Text) → lists agent (get m.by_site id) ≡ is_at id (get m.pos agent)

module _ (agent : Text) where
  seen_lists :
      (seq : ℕ) (r : Record) (o : Option SpecSite)
      → lists agent (some (record (site_or_new r o) { seq = seq })) ≡ lists agent o
  unfolding lists site_or_new get
  seen_lists seq r none = refl
  seen_lists seq r (some st) = refl

  gone_lists :
      (gone : Text) (st : SpecSite)
      → lists agent (some (record st { agents = remove st.agents gone }))
        ≡ (if text_eq gone agent then false else lists agent (some st))
  unfolding lists
  gone_lists gone st = rw get-remove (ground arith)

  come_lists :
      (come : Text) (st : SpecSite)
      → lists agent (some (record st { agents = put st.agents come true }))
        ≡ (if text_eq come agent then true else lists agent (some st))
  unfolding lists
  come_lists come st = rw get-put (ground arith)

module _ (sites : Dict SpecSite) (r : Record) (id agent : Text) where
  lists-visit : (seq : ℕ) → lists agent (get (visit seq r sites) id) ≡ lists agent (get sites id)
  unfolding visit
  lists-visit seq = elim (Bool-cases (text_eq (site_id r) id)) [
    | inl e ↦
        rw (get-put, e, ← text_eq_sound (site_id r) id e)
          (seen_lists agent seq r (get sites (site_id r)))
    | inr e ↦ rw (get-put, e) refl
  ]

  lists-without_agent :
      (prev : Text) (o : Option SpecSite)
      → get sites prev ≡ o
      → lists agent (get (without_agent sites prev r.agent o) id)
        ≡ (if text_eq prev id && text_eq r.agent agent then false else lists agent (get sites id))
  unfolding without_agent lists
  lists-without_agent prev none e = elim (Bool-cases (text_eq prev id)) [
    | inl same ↦ rw (same, ← text_eq_sound prev id same, e) (none_lists (text_eq r.agent agent))
    | inr other ↦ rw other refl
  ]
    where
      none_lists : (b : Bool) → lists agent none ≡ (if b then false else lists agent none)
      none_lists true = refl
      none_lists false = refl
  lists-without_agent prev (some st) e = elim (Bool-cases (text_eq prev id)) [
    | inl same ↦ rw (get-put, same, ← text_eq_sound prev id same, e) (gone_lists agent r.agent st)
    | inr other ↦ rw (get-put, other) refl
  ]

  lists-leave :
      (prev : Text)
      → lists agent (get (leave r (some prev) sites) id) ≡ (
          if text_eq prev (site_id r)
          then lists agent (get sites id)
          else if text_eq prev id && text_eq r.agent agent
          then false
          else lists agent (get sites id))
  unfolding leave
  lists-leave prev = elim (Bool-cases (text_eq prev (site_id r))) [
    | inl e ↦ rw e refl
    | inr e ↦ rw e (lists-without_agent prev (get sites prev) refl)
  ]

  lists-arrive :
      (st : SpecSite)
      → get sites (site_id r) ≡ some st
      → lists agent (get (arrive r sites) id) ≡ (
          if text_eq (site_id r) id && text_eq r.agent agent
          then true
          else lists agent (get sites id))
  unfolding arrive with_agent
  lists-arrive st e = elim (Bool-cases (text_eq (site_id r) id)) [
    | inl same ↦
        rw (e, get-put, same, ← text_eq_sound (site_id r) id same, e) (come_lists agent r.agent st)
    | inr other ↦ rw (e, get-put, other) refl
  ]

-- The site of the record is there when its agent arrives: it was visited, and is not the one left.
module _ (r : Record) (sites : Dict SpecSite) where
  get-visit :
      (seq : ℕ)
      → get (visit seq r sites) (site_id r)
        ≡ some (record (site_or_new r (get sites (site_id r))) { seq = seq })
  unfolding visit
  get-visit seq = rw (get-put, text_eq_refl (site_id r)) refl

  get-without_agent :
      (prev : Text) (o : Option SpecSite)
      → text_eq prev (site_id r) ≡ false
      → get (without_agent sites prev r.agent o) (site_id r) ≡ get sites (site_id r)
  unfolding without_agent
  get-without_agent prev none e = refl
  get-without_agent prev (some st) e = rw (get-put, e) refl

  get-leave : (o : Option Text) → get (leave r o sites) (site_id r) ≡ get sites (site_id r)
  unfolding leave
  get-leave none = refl
  get-leave (some prev) = elim (Bool-cases (text_eq prev (site_id r))) [
    | inl e ↦ rw e refl
    | inr e ↦ rw e (get-without_agent prev (get sites prev) e)
  ]

module _ (sites : Dict SpecSite) (r : Record) (seq : ℕ) (id agent : Text) (o : Option Text) where
  -- Where the arrival of a record leaves an agent.
  lists-moved : lists agent (get (arrive r (leave r o (visit seq r sites))) id) ≡ (
      if text_eq (site_id r) id && text_eq r.agent agent
      then true
      else lists agent (get (leave r o (visit seq r sites)) id))
  lists-moved =
      lists-arrive (leave r o (visit seq r sites)) r id agent
        (record (site_or_new r (get sites (site_id r))) { seq = seq })
        (get-leave r (visit seq r sites) o ∙ get-visit r sites seq)

-- An agent that is elsewhere than `id` after it has left is not in the set of `id`.
left_lists :
    (sites : Dict SpecSite) (r : Record) (seq : ℕ) (id : Text) (o : Option Text)
    → lists r.agent (get sites id) ≡ is_at id o
    → text_eq (site_id r) id ≡ false
    → lists r.agent (get (leave r o (visit seq r sites)) id) ≡ false
unfolding is_at leave
left_lists sites r seq id none h e = lists-visit sites r id r.agent seq ∙ h
left_lists sites r seq id (some prev) h e = ground (
  arith,
  lists-leave (visit seq r sites) r id r.agent prev,
  lists-visit sites r id r.agent seq,
  h,
  text_eq_refl r.agent,
  text_eq_sound prev (site_id r),
)

-- The others stay.
stay_lists :
    (sites : Dict SpecSite) (r : Record) (seq : ℕ) (id agent : Text) (o : Option Text)
    → text_eq r.agent agent ≡ false
    → lists agent (get (leave r o (visit seq r sites)) id) ≡ lists agent (get sites id)
unfolding leave
stay_lists sites r seq id agent none e = lists-visit sites r id agent seq
stay_lists sites r seq id agent (some prev) e =
    ground
      (arith, lists-leave (visit seq r sites) r id agent prev, lists-visit sites r id agent seq)

and_false {ℓ} : {A : Type ℓ} (b : Bool) (x y : A) → (if b && false then x else y) ≡ y
and_false true x y = refl
and_false false x y = refl

note_demand-IsPlaced : (r : Record) (m : Model) → IsPlaced m → IsPlaced (note_demand r m)
unfolding note_demand is_at
note_demand-IsPlaced r m i = record {
  placed = λ id agent. rw (lists-moved, get-put) (moved id agent);
}
  where
    here :
        (id : Text)
        → (text_eq (site_id r) id ≡ true) ⊎ (text_eq (site_id r) id ≡ false)
        → (if text_eq (site_id r) id && true
            then true
            else lists r.agent
                (get (leave r (get m.pos r.agent) (visit (m.seq + 1) r m.by_site)) id))
          ≡ text_eq (site_id r) id
    here id (inl e) = rw e refl
    here id (inr e) =
        rw e (left_lists m.by_site r (m.seq + 1) id (get m.pos r.agent) (i.placed id r.agent) e)

    moved :
        (id agent : Text)
        → (if text_eq (site_id r) id && text_eq r.agent agent
            then true
            else lists agent (get (leave r (get m.pos r.agent) (visit (m.seq + 1) r m.by_site)) id))
          ≡ is_at id (if text_eq r.agent agent then some (site_id r) else get m.pos agent)
    moved id agent = elim (Bool-cases (text_eq r.agent agent)) [
      | inl own ↦
          rw (own, ← text_eq_sound r.agent agent own)
            (here id (Bool-cases (text_eq (site_id r) id)))
      | inr other ↦ rw other (
          and_false (text_eq (site_id r) id) _ _
          ∙ stay_lists m.by_site r (m.seq + 1) id agent (get m.pos r.agent) other
          ∙ i.placed id agent)
    ]

note_attempt-IsPlaced : (r : Record) (m : Model) → IsPlaced m → IsPlaced (note_attempt r m)
unfolding note_attempt
note_attempt-IsPlaced r m i = elim (Bool-cases (is_attempt r)) [
  | inl e ↦ rw e (record { placed = i.placed })
  | inr e ↦ rw e i
]

learn_record-IsPlaced : (r : Record) (m : Model) → IsPlaced m → IsPlaced (learn_record r m)
unfolding learn_record
learn_record-IsPlaced r m i = elim (Bool-cases (is_demand r)) [
  | inl e ↦ rw e (note_demand-IsPlaced r (note_attempt r m) (note_attempt-IsPlaced r m i))
  | inr e ↦ rw e (note_attempt-IsPlaced r m i)
]

learn_records-IsPlaced : (rs : List Record) (m : Model) → IsPlaced m → IsPlaced (learn_records rs m)
unfolding learn_records
learn_records-IsPlaced [] m i = i
learn_records-IsPlaced (r ∷ rs) m i =
    learn_records-IsPlaced rs (learn_record r m) (learn_record-IsPlaced r m i)

empty-IsPlaced : IsPlaced empty_model
unfolding get lists is_at
empty-IsPlaced = record { placed = λ id agent. refl }

-- Where the log saw the agent last: the tree and the environment of its last demand.
unfoldable pub last_site : Text → List Record → Option Text → Option Text
last_site agent [] o = o
last_site agent (r ∷ rs) o =
    last_site agent rs (if is_demand r && text_eq r.agent agent then some (site_id r) else o)

pos-note_attempt : (r : Record) (m : Model) → (note_attempt r m).pos ≡ m.pos
unfolding note_attempt
pos-note_attempt r m = ground arith

pos-learn_record :
    (agent : Text) (r : Record) (m : Model)
    → get (learn_record r m).pos agent
      ≡ (if is_demand r && text_eq r.agent agent then some (site_id r) else get m.pos agent)
unfolding learn_record note_demand
pos-learn_record agent r m = elim (Bool-cases (is_demand r)) [
  | inl e ↦ rw (e, get-put, pos-note_attempt) refl
  | inr e ↦ rw (e, pos-note_attempt) refl
]

pos-learn_records :
    (agent : Text) (rs : List Record) (m : Model)
    → get (learn_records rs m).pos agent ≡ last_site agent rs (get m.pos agent)
unfolding learn_records last_site
pos-learn_records agent [] m = refl
pos-learn_records agent (r ∷ rs) m =
    rw (← pos-learn_record agent r m) (pos-learn_records agent rs (learn_record r m))

-- After any log each agent is in the set of exactly one site, the tree and environment of its last
-- demand, and an agent without a demand is in none.
pub learn_records-IsPlaced_last :
    (rs : List Record) (id agent : Text)
    → lists agent (get (learn_records rs empty_model).by_site id)
      ≡ is_at id (last_site agent rs none)
unfolding get
learn_records-IsPlaced_last rs id agent =
    (learn_records-IsPlaced rs empty_model empty-IsPlaced).placed id agent
    ∙ ap (is_at id) (pos-learn_records agent rs empty_model)
