-- ===== src/Daemon/Held.antt =====
-- internal/hp/daemon.go: the leases and their channels.
use fasthack.Prelude.{
  ℕ, ◌+◌, ◌<◌, ◌≡◌, ◌⊎◌, inl, inr, true, false, none, some, List, ◌∷◌, arith, Bool-cases,
  Option-cases, if◌then◌else◌, ◌==◌,
}
use fasthack.Text.{Text, text_eq}
use fasthack.Text.Laws.{text_eq_sound, text_eq_refl}
use fasthack.Dict.{Dict, get, put, remove}
use fasthack.Dict.Laws.{get-put, get-remove}
use fasthack.Daemon.{Lease, Server}
use fasthack.Daemon.Leases.{acquire, release, drop_lease, is_closed}

pub record IsLeased (leases : Dict Lease) (closed : List ℕ) (next : ℕ) : Type 0 where
  pub fresh : (k : Text) (l : Lease) → get leases k ≡ some l → l.id < next
  pub unique :
      (k j : Text) (l l' : Lease)
      → get leases k ≡ some l
      → get leases j ≡ some l'
      → l.id ≡ l'.id
      → k ≡ j
  pub still_open : (k : Text) (l : Lease) → get leases k ≡ some l → is_closed closed l.id ≡ false
  pub old : (id : ℕ) → is_closed closed id ≡ true → id < next

-- The leases of the server.
abbrev pub HasLeases : Server → Type 0
HasLeases sv = IsLeased sv.leases sv.closed sv.next

module _ (leases : Dict Lease) (closed : List ℕ) (next : ℕ) (h : IsLeased leases closed next) where
  -- A lease that is there behind a deletion was there before, under another key.
  left :
      (key j : Text) (l : Lease)
      → get (remove leases key) j ≡ some l
      → (text_eq key j ≡ false) × (get leases j ≡ some l)
  left key j l e = kept (Bool-cases (text_eq key j)) (rw get-remove at e)
    where
      kept :
          (text_eq key j ≡ true) ⊎ (text_eq key j ≡ false)
          → (if text_eq key j then none else get leases j) ≡ some l
          → (text_eq key j ≡ false) × (get leases j ≡ some l)
      kept (inl t) g = absurd (cc (rw t at g))
      kept (inr f) g = (f, rw f at g)

  remove-IsLeased : (key : Text) → IsLeased (remove leases key) closed next
  remove-IsLeased key = record {
    fresh = λ k l e. h.fresh k l (left key k l e).1;
    unique = λ k j l l' e e' i. h.unique k j l l' (left key k l e).1 (left key j l' e').1 i;
    still_open = λ k l e. h.still_open k l (left key k l e).1;
    old = h.old;
  }

  close-IsLeased :
      (key : Text) (l : Lease)
      → get leases key ≡ some l
      → IsLeased (remove leases key) (l.id ∷ closed) next
  unfolding is_closed
  close-IsLeased key l held = record {
    fresh = λ k l' e. h.fresh k l' (left key k l' e).1;
    unique = λ k j m m' e e' i. h.unique k j m m' (left key k m e).1 (left key j m' e').1 i;
    still_open = λ k l' e. apart k l' (left key k l' e).0 (left key k l' e).1;
    old = λ id c. aged id c;
  }
    where
      apart :
          (k : Text) (l' : Lease)
          → text_eq key k ≡ false
          → get leases k ≡ some l'
          → is_closed (l.id ∷ closed) l'.id ≡ false
      apart k l' d e = elim (Bool-cases (l.id == l'.id)) [
        | inl s ↦ absurd (cc (d, h.unique key k l l' held e (ground arith), text_eq_refl k))
        | inr s ↦ ground (arith, h.still_open k l' e)
      ]

      aged : (id : ℕ) → is_closed (l.id ∷ closed) id ≡ true → id < next
      aged id c = elim (Bool-cases (l.id == id)) [
        | inl s ↦ ground (arith, h.fresh key l held)
        | inr s ↦ h.old id (ground arith)
      ]

  unheld : is_closed closed next ≡ false
  unheld = elim (Bool-cases (is_closed closed next)) [
    | inr f ↦ f
    | inl t ↦ absurd (omega (arith, h.old next t))
  ]

  -- A lease with the next identity, taken under a free key.
  put-IsLeased :
      (key agent : Text) (now : ℕ)
      → IsLeased (put leases key (record { agent = agent; at = now; id = next })) closed (next + 1)
  put-IsLeased key agent now = record {
    fresh = λ k l e. by_key k l e (Bool-cases (text_eq key k));
    unique = λ k j l l' e e' i.
        same k j l l' e e' i (Bool-cases (text_eq key k)) (Bool-cases (text_eq key j));
    still_open = λ k l e. shut k l e (Bool-cases (text_eq key k));
    old = λ id c. omega (arith, h.old id c);
  }
    where
      new : Lease
      new = record { agent = agent; at = now; id = next }

      here :
          (k : Text) (l : Lease)
          → get (put leases key new) k ≡ some l
          → text_eq key k ≡ true
          → l.id ≡ next
      here k l e t = ground (arith, rw (get-put, t) at e)

      there :
          (k : Text) (l : Lease)
          → get (put leases key new) k ≡ some l
          → text_eq key k ≡ false
          → get leases k ≡ some l
      there k l e f = rw (get-put, f) at e

      by_key :
          (k : Text) (l : Lease)
          → get (put leases key new) k ≡ some l
          → (text_eq key k ≡ true) ⊎ (text_eq key k ≡ false)
          → l.id < next + 1
      by_key k l e (inl t) = omega (arith, here k l e t)
      by_key k l e (inr f) = omega (arith, h.fresh k l (there k l e f))

      same :
          (k j : Text) (l l' : Lease)
          → get (put leases key new) k ≡ some l
          → get (put leases key new) j ≡ some l'
          → l.id ≡ l'.id
          → (text_eq key k ≡ true) ⊎ (text_eq key k ≡ false)
          → (text_eq key j ≡ true) ⊎ (text_eq key j ≡ false)
          → k ≡ j
      same k j l l' e e' i (inl t) (inl t') = cc (text_eq_sound key k t, text_eq_sound key j t')
      same k j l l' e e' i (inl t) (inr f) =
          absurd (omega (arith, i, here k l e t, h.fresh j l' (there j l' e' f)))
      same k j l l' e e' i (inr f) (inl t) =
          absurd (omega (arith, i, here j l' e' t, h.fresh k l (there k l e f)))
      same k j l l' e e' i (inr f) (inr f') = h.unique k j l l' (there k l e f) (there j l' e' f') i

      shut :
          (k : Text) (l : Lease)
          → get (put leases key new) k ≡ some l
          → (text_eq key k ≡ true) ⊎ (text_eq key k ≡ false)
          → is_closed closed l.id ≡ false
      shut k l e (inl t) = rw (here k l e t) unheld
      shut k l e (inr f) = h.still_open k l (there k l e f)

module _ (sv : Server) (h : HasLeases sv) (key : Text) where
  pub acquire-HasLeases : (agent : Text) (now : ℕ) → HasLeases (acquire sv key agent now)
  unfolding acquire
  acquire-HasLeases agent now = elim (Option-cases (get sv.leases key)) [
    | inr (l, e) ↦ rw e h
    | inl e ↦ rw e (put-IsLeased sv.leases sv.closed sv.next h key agent now)
  ]

  pub release-HasLeases : HasLeases (release sv key)
  unfolding release
  release-HasLeases = elim (Option-cases (get sv.leases key)) [
    | inr (l, e) ↦ rw e (close-IsLeased sv.leases sv.closed sv.next h key l e)
    | inl e ↦ rw e h
  ]

  pub drop_lease-HasLeases : (id : ℕ) → HasLeases (drop_lease sv key id)
  unfolding drop_lease
  drop_lease-HasLeases id = ground (arith, h, remove-IsLeased sv.leases sv.closed sv.next h key)
