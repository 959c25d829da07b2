-- ===== src/Fleet/Clusters.antt =====
-- internal/hp/fleet.go: the clusters of a fan-out.
use fasthack.Prelude.{
  ℕ, suc, ◌+◌, ◌≤◌, ◌<◌, ◌≡◌, refl, ap, ◌∙◌, inl, inr, true, false, List, [], ◌∷◌, ◌++◌, map, arith,
  if◌then◌else◌, Bool-cases, length, length-append, All,
}
use fasthack.Text.{Text, text_eq, is_empty}
use fasthack.Text.Order.{text_less}
use fasthack.Dict.{Dict, get, put, values}
use fasthack.Sort.{insert_by, sort_by, length-sort_by, All-sort_by}
use fasthack.Store.{records}
use fasthack.Daemon.{Server}
use fasthack.Fleet.{
  AgentState, positions, mark_leases, group_at, by_tree, with_peers, group_or_empty, larger,
  clusters_of, assess, fleet_of, fleet,
}

-- How many agents the clusters hold together.
unfoldable pub total_size : List (List Text) → ℕ
total_size [] = 0
total_size (g ∷ gs) = length g + total_size gs

-- How many agents are at a known tree.
unfoldable pub located : List AgentState → ℕ
located [] = 0
located (st ∷ sts) = let rest = located sts in if is_empty st.tree then rest else rest + 1

abbrev pub IsPeopled : List Text → Type 0
IsPeopled g = 0 < length g

module _ (j tree : Text) (g : List Text) (groups : Dict (List Text)) where
  group_at_here : text_eq j tree ≡ true → group_at ((j, g) ∷ groups) tree ≡ g
  unfolding group_at get group_or_empty
  group_at_here e = rw e refl

  group_at_later : text_eq j tree ≡ false → group_at ((j, g) ∷ groups) tree ≡ group_at groups tree
  unfolding group_at get
  group_at_later e = rw e refl

group_at-nil : (tree : Text) → length (group_at [] tree) ≡ 0
unfolding group_at get group_or_empty
group_at-nil tree = refl

module _ (tree agent : Text) where
  join_size :
      (groups : Dict (List Text))
      → total_size (values (put groups tree (group_at groups tree ++ agent ∷ [])))
        ≡ total_size (values groups) + 1
  unfolding put values total_size
  join_size [] = omega (arith, length-append (group_at [] tree) (agent ∷ []), group_at-nil tree)
  join_size ((j, g) ∷ groups) = elim (Bool-cases (text_eq j tree)) [
    | inl e ↦ rw (e, group_at_here j tree g groups e) (omega (arith, length-append g (agent ∷ [])))
    | inr e ↦ rw (e, group_at_later j tree g groups e) (omega (arith, join_size groups))
  ]

  put-IsPeopled :
      (groups : Dict (List Text)) (g : List Text)
      → All IsPeopled (values groups)
      → All IsPeopled (values (put groups tree (g ++ agent ∷ [])))
  unfolding put values
  put-IsPeopled [] g h = (omega (arith, length-append g (agent ∷ [])), tt)
  put-IsPeopled ((j, f) ∷ groups) g h = elim (Bool-cases (text_eq j tree)) [
    | inl e ↦ rw e (omega (arith, length-append g (agent ∷ [])), h.1)
    | inr e ↦ rw e (h.0, put-IsPeopled groups g h.1)
  ]

by_tree_size :
    (sts : List AgentState) (groups : Dict (List Text))
    → total_size (values (by_tree sts groups)) ≡ total_size (values groups) + located sts
unfolding by_tree located
by_tree_size [] groups = omega arith
by_tree_size (st ∷ sts) groups = elim (Bool-cases (is_empty st.tree)) [
  | inl e ↦ rw e (by_tree_size sts groups)
  | inr e ↦ rw e (
      omega (
        arith,
        by_tree_size sts (put groups st.tree (group_at groups st.tree ++ st.agent ∷ [])),
        join_size st.tree st.agent groups,
      ))
]

by_tree-IsPeopled :
    (sts : List AgentState) (groups : Dict (List Text))
    → All IsPeopled (values groups)
    → All IsPeopled (values (by_tree sts groups))
unfolding by_tree
by_tree-IsPeopled [] groups h = h
by_tree-IsPeopled (st ∷ sts) groups h = elim (Bool-cases (is_empty st.tree)) [
  | inl e ↦ rw e (by_tree-IsPeopled sts groups h)
  | inr e ↦ rw e (
      by_tree-IsPeopled sts (put groups st.tree (group_at groups st.tree ++ st.agent ∷ []))
        (put-IsPeopled st.tree st.agent groups (group_at groups st.tree) h))
]

insert_size :
    (g : List Text) (gs : List (List Text))
    → total_size (insert_by larger g gs) ≡ length g + total_size gs
unfolding insert_by total_size
insert_size g [] = omega arith
insert_size g (f ∷ gs) = elim (Bool-cases (larger f g)) [
  | inl e ↦ rw e (omega (arith, insert_size g gs))
  | inr e ↦ rw e (omega arith)
]

sort_size : (gs : List (List Text)) → total_size (sort_by larger gs) ≡ total_size gs
unfolding sort_by total_size
sort_size [] = refl
sort_size (g ∷ gs) = omega (arith, insert_size g (sort_by larger gs), sort_size gs)

map_size : (gs : List (List Text)) → total_size (map (sort_by text_less) gs) ≡ total_size gs
unfolding total_size
map_size [] = refl
map_size (g ∷ gs) = omega (arith, length-sort_by text_less g, map_size gs)

map-IsPeopled :
    (gs : List (List Text)) → All IsPeopled gs → All IsPeopled (map (sort_by text_less) gs)
map-IsPeopled [] h = tt
map-IsPeopled (g ∷ gs) h = (omega (arith, length-sort_by text_less g, h.0), map-IsPeopled gs h.1)

clusters_size :
    (groups : Dict (List Text)) → total_size (clusters_of groups) ≡ total_size (values groups)
unfolding clusters_of
clusters_size groups =
    sort_size (map (sort_by text_less) (values groups)) ∙ map_size (values groups)

clusters-IsPeopled :
    (groups : Dict (List Text)) → All IsPeopled (values groups) → All IsPeopled (clusters_of groups)
unfolding clusters_of
clusters-IsPeopled groups h =
    All-sort_by IsPeopled larger (map (sort_by text_less) (values groups))
      (map-IsPeopled (values groups) h)

length-map_peers :
    (groups : Dict (List Text)) (sts : List AgentState)
    → length (map (with_peers groups) sts) ≡ length sts
length-map_peers groups [] = refl
length-map_peers groups (st ∷ sts) = ap suc (length-map_peers groups sts)

located_le : (sts : List AgentState) → located sts ≤ length sts
unfolding located
located_le [] = omega arith
located_le (st ∷ sts) = ground (arith, located_le sts)

more_than : (gs : List (List Text)) → All IsPeopled gs → length gs ≤ total_size gs
unfolding total_size
more_than [] h = omega arith
more_than (g ∷ gs) h = omega (arith, h.0, more_than gs h.1)

-- Clusters that are as many as their agents hold one agent each.
singles :
    (gs : List (List Text))
    → All IsPeopled gs
    → total_size gs ≤ length gs
    → All (λ g. length g ≡ 1) gs
unfolding total_size
singles [] h l = tt
singles (g ∷ gs) h l = (
  omega (arith, h.0, l, more_than gs h.1),
  singles gs h.1 (omega (arith, h.0, l, more_than gs h.1)),
)

module _ (agents : List AgentState) (clusters : List (List Text)) where
  clusters-assess : (assess agents clusters).clusters ≡ clusters
  unfolding assess
  clusters-assess = ground arith

  assess_apart : (assess agents clusters).fully_apart ≡ true → length clusters ≡ length agents
  unfolding assess
  assess_apart h = ground arith

module _ (sts : List AgentState) where
  clusters_located : total_size (clusters_of (by_tree sts [])) ≡ located sts
  unfolding values total_size
  clusters_located = omega (arith, clusters_size (by_tree sts []), by_tree_size sts [])

  clusters_of-IsPeopled : All IsPeopled (clusters_of (by_tree sts []))
  unfolding values
  clusters_of-IsPeopled = clusters-IsPeopled (by_tree sts []) (by_tree-IsPeopled sts [] tt)

-- The agents of a server's fan-out, as the log and the leases show them.
unfoldable pub seen_agents : Server → List AgentState
seen_agents sv = values (mark_leases (values sv.leases) (positions (records sv.store) []))

-- The clusters of a fan-out hold together as many agents as are at a known tree, and none is empty.
pub fleet_clusters :
    (sv : Server)
    → (total_size (fleet sv).clusters ≡ located (seen_agents sv))
      × All IsPeopled (fleet sv).clusters
unfolding fleet fleet_of seen_agents
fleet_clusters sv =
    rw clusters-assess (clusters_located (seen_agents sv), clusters_of-IsPeopled (seen_agents sv))

-- If a fan-out is called fully apart, each of its clusters is one agent, and each agent is at a known
-- tree.
pub fleet_apart :
    (sv : Server)
    → (fleet sv).fully_apart ≡ true
    → All (λ g. length g ≡ 1) (fleet sv).clusters
      × (located (seen_agents sv) ≡ length (seen_agents sv))
unfolding fleet fleet_of seen_agents
fleet_apart sv h =
    let sts = seen_agents sv in
    let groups = by_tree sts [] in
    let clusters = clusters_of groups in
    let peopled = clusters_of-IsPeopled sts in
    let as_many =
      assess_apart (map (with_peers groups) sts) clusters h ∙ length-map_peers groups sts in
    rw clusters-assess (
      singles clusters peopled (omega (arith, clusters_located sts, located_le sts, as_many)),
      omega (arith, clusters_located sts, located_le sts, as_many, more_than clusters peopled),
    )
