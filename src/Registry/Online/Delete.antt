-- ===== src/Registry/Online/Delete.antt =====
-- What `delete_out_user` takes out of a list, and what it frees.
use uubang_iot.Base.{
  ℕ, ◌≡◌, ◌≢◌, refl, subst, sym, ap, append-nil, ◌⊎◌, inl, inr, List, [], ◌∷◌, ◌++◌, Option, none,
  some, true, false, arith, All, Bool-cases, length, length-append,
}
use uubang_iot.Base.Int.{pos, ◌-ℤ◌}
use uubang_iot.Base.Bytes.{str_eq_iff}
use uubang_iot.Registry.{Client, UserNode, UserList}
use uubang_iot.Registry.Online.{is_session, free_next, delete_next, delete_walk, delete_from}

-- A session of the client: its name and its socket.
abbrev pub Session : Client → UserNode → Type 0
Session a u = (a.user_id ≡ u.user_id) × (a.socket ≡ u.user_socket)

-- What `free` gets when u is taken out between `pre` and `post`.
abbrev pub freed_by : List UserNode → UserNode → List UserNode → List ℕ → List ℕ
freed_by [] u post freed = u.self ∷ freed
freed_by (v ∷ pre) u post freed = free_next post freed

abbrev Deleted :
    Client
    → List UserNode
    → (List UserNode → UserNode → List UserNode → List ℕ)
    → Option (List UserNode × List ℕ)
    → Type 0
Deleted a us f r =
    ((r ≡ none) × All (λ u. ¬ Session a u) us)
    ⊎ ((pre : List UserNode) × (u : UserNode) × (post : List UserNode) × (us ≡ pre ++ (u ∷ post))
        × All (λ v. ¬ Session a v) pre
        × Session a u
        × (r ≡ some (pre ++ post, f pre u post)))

is_session_iff :
    (a : Client) (u : UserNode)
    → ((is_session a u ≡ true) → Session a u) × ((is_session a u ≡ false) → ¬ Session a u)
is_session_iff a u = ground (arith, str_eq_iff a.user_id u.user_id)

delete_next_lem :
    (a : Client) (us : List UserNode) (freed : List ℕ)
    → Deleted a us (λ pre u post. free_next post freed) (delete_next a us freed)
unfolding delete_next
delete_next_lem a [] freed = inl (refl, tt)
delete_next_lem a (u ∷ us) freed = elim (Bool-cases (is_session a u)) [
  | inl hit ↦ rw hit (inr ([], u, us, refl, tt, (is_session_iff a u).0 hit, refl))
  | inr miss ↦
      rw miss
        (later ((is_session_iff a u).1 miss) (delete_next a us freed) (delete_next_lem a us freed))
]
  where
    later :
        ¬ Session a u
        → (r : Option (List UserNode × List ℕ))
        → Deleted a us (λ pre v post. free_next post freed) r
        → Deleted a
            (u ∷ us)
            (λ pre v post. free_next post freed)
            (elim r [ none ↦ none | some (vs, f) ↦ some (u ∷ vs, f) ])
    later n r (inl (e, h)) = inl (rw e, (n, h))
    later n r (inr (pre, v, post, e, h, s, q)) = inr (u ∷ pre, v, post, rw e, (n, h), s, rw q)

delete_walk_lem :
    (a : Client) (us : List UserNode) (freed : List ℕ)
    → Deleted a us (λ pre u post. freed_by pre u post freed) (delete_walk a us freed)
unfolding delete_walk
delete_walk_lem a [] freed = inl (refl, tt)
delete_walk_lem a (u ∷ us) freed = elim (Bool-cases (is_session a u)) [
  | inl hit ↦ rw hit (inr ([], u, us, refl, tt, (is_session_iff a u).0 hit, refl))
  | inr miss ↦
      rw miss
        (later ((is_session_iff a u).1 miss) (delete_next a us freed) (delete_next_lem a us freed))
]
  where
    later :
        ¬ Session a u
        → (r : Option (List UserNode × List ℕ))
        → Deleted a us (λ pre v post. free_next post freed) r
        → Deleted a
            (u ∷ us)
            (λ pre v post. freed_by pre v post freed)
            (elim r [ none ↦ none | some (vs, f) ↦ some (u ∷ vs, f) ])
    later n r (inl (e, h)) = inl (rw e, (n, h))
    later n r (inr (pre, v, post, e, h, s, q)) = inr (u ∷ pre, v, post, rw e, (n, h), s, rw q)

-- `delete_out_user` on one list: with no session of the client in it nothing changes and the result
-- is 0. Otherwise the first session is taken out, the others stay in order, the counter falls by
-- one and the result is 1; `free` gets the removed node if that was the first node, and else the
-- node behind the removed one, if there is one.
pub delete_from_lem :
    (a : Client) (l : UserList)
    → ((delete_from a l ≡ (pos 0, l)) × All (λ u. ¬ Session a u) l.nodes)
      ⊎ ((pre : List UserNode) × (u : UserNode) × (post : List UserNode) × (l.nodes
            ≡ pre ++ (u ∷ post))
          × All (λ v. ¬ Session a v) pre
          × Session a u
          × (delete_from a l ≡ (
            pos 1,
            record {
              nodes = pre ++ post;
              online_user_num = l.online_user_num -ℤ pos 1;
              freed = freed_by pre u post l.freed;
            },
          )))
unfolding delete_from
delete_from_lem a l =
    by_walk (delete_walk a l.nodes l.freed) refl (delete_walk_lem a l.nodes l.freed)
  where
    by_walk :
        (r : Option (List UserNode × List ℕ))
        → delete_walk a l.nodes l.freed ≡ r
        → Deleted a l.nodes (λ pre u post. freed_by pre u post l.freed) r
        → ((delete_from a l ≡ (pos 0, l)) × All (λ u. ¬ Session a u) l.nodes)
          ⊎ ((pre : List UserNode) × (u : UserNode) × (post : List UserNode) × (l.nodes
                ≡ pre ++ (u ∷ post))
              × All (λ v. ¬ Session a v) pre
              × Session a u
              × (delete_from a l ≡ (
                pos 1,
                record {
                  nodes = pre ++ post;
                  online_user_num = l.online_user_num -ℤ pos 1;
                  freed = freed_by pre u post l.freed;
                },
              )))
    by_walk r q (inl (e, h)) = inl (rw (q, e, delete_from), h)
    by_walk r q (inr (pre, u, post, e, h, s, k)) =
        inr (pre, u, post, e, h, s, rw (q, k, delete_from))

-- No node that the list links has been freed.
abbrev pub IsSafe : UserList → Type 0
IsSafe l = All (λ u. All (λ p. p ≢ u.self) l.freed) l.nodes

abbrev pub Apart : ℕ → List UserNode → Type 0
Apart p us = All (λ u. p ≢ u.self) us

abbrev pub Distinct : List UserNode → Type 0
Distinct [] = Unit {0}
Distinct (u ∷ us) = Apart u.self us × Distinct us

IsSafe-free :
    (p : ℕ) (freed : List ℕ) (us : List UserNode)
    → Apart p us
    → All (λ u. All (λ q. q ≢ u.self) freed) us
    → All (λ u. All (λ q. q ≢ u.self) (p ∷ freed)) us
IsSafe-free p freed [] h s = tt
IsSafe-free p freed (u ∷ us) h s = ((h.0, s.0), IsSafe-free p freed us h.1 s.1)

All-pre {ℓ} : {A : Type 0} (P : A → Type ℓ) (xs ys : List A) → All P (xs ++ ys) → All P xs
All-pre P [] ys h = tt
All-pre P (x ∷ xs) ys h = (h.0, All-pre P xs ys h.1)

delete_next_at :
    (a : Client) (pre post : List UserNode) (u : UserNode) (freed : List ℕ)
    → All (λ v. ¬ Session a v) pre
    → Session a u
    → delete_next a (pre ++ (u ∷ post)) freed ≡ some (pre ++ post, free_next post freed)
unfolding delete_next
delete_next_at a [] post u freed h s = ground (arith, is_session_iff a u)
delete_next_at a (v ∷ pre) post u freed h s =
    ground (arith, is_session_iff a v, delete_next_at a pre post u freed h.1 s)

delete_walk_at :
    (a : Client) (pre post : List UserNode) (u : UserNode) (freed : List ℕ)
    → All (λ v. ¬ Session a v) pre
    → Session a u
    → delete_walk a (pre ++ (u ∷ post)) freed ≡ some (pre ++ post, freed_by pre u post freed)
unfolding delete_walk
delete_walk_at a [] post u freed h s = ground (arith, is_session_iff a u)
delete_walk_at a (v ∷ pre) post u freed h s =
    ground (arith, is_session_iff a v, delete_next_at a pre post u freed h.1 s)

pub delete_from_at :
    (a : Client) (l : UserList) (pre post : List UserNode) (u : UserNode)
    → l.nodes ≡ pre ++ (u ∷ post)
    → All (λ v. ¬ Session a v) pre
    → Session a u
    → delete_from a l ≡ (
      pos 1,
      record {
        nodes = pre ++ post;
        online_user_num = l.online_user_num -ℤ pos 1;
        freed = freed_by pre u post l.freed;
      },
    )
unfolding delete_from
delete_from_at a l pre post u e h s = rw (e, delete_walk_at a pre post u l.freed h s, delete_from)

-- In a list of distinct nodes that links no freed memory, deleting the client's first session leaves
-- none linked where that session is the first node or the last.
pub delete_from-IsSafe :
    (a : Client) (l : UserList) (pre post : List UserNode) (u : UserNode)
    → l.nodes ≡ pre ++ (u ∷ post)
    → All (λ v. ¬ Session a v) pre
    → Session a u
    → (pre ≡ []) ⊎ (post ≡ [])
    → Distinct l.nodes
    → IsSafe l
    → IsSafe (delete_from a l).1
delete_from-IsSafe a l [] post u e h s w d safe =
    rw (delete_from_at a l [] post u e h s)
      (IsSafe-free u.self l.freed post (subst Distinct e d).0 (subst Linked e safe).1)
  where
    Linked : List UserNode → Type 0
    Linked us = All (λ v. All (λ p. p ≢ v.self) l.freed) us
delete_from-IsSafe a l (t ∷ pre) [] u e h s w d safe =
    rw (delete_from_at a l (t ∷ pre) [] u e h s, append-nil)
      (All-pre _ (t ∷ pre) (u ∷ []) (subst Linked e safe))
  where
    Linked : List UserNode → Type 0
    Linked us = All (λ v. All (λ p. p ≢ v.self) l.freed) us
delete_from-IsSafe a l (t ∷ pre) (v ∷ post) u e h s (inl w) d safe = cc
delete_from-IsSafe a l (t ∷ pre) (v ∷ post) u e h s (inr w) d safe = cc

All-at {ℓ} : {A : Type 0} (P : A → Type ℓ) (xs ys : List A) (x : A) → All P (xs ++ (x ∷ ys)) → P x
All-at P [] ys x h = h.0
All-at P (y ∷ xs) ys x h = All-at P xs ys x h.1

Distinct-next :
    (xs ys : List UserNode) (u v : UserNode) → Distinct (xs ++ (u ∷ (v ∷ ys))) → u.self ≢ v.self
Distinct-next [] ys u v h = h.0.0
Distinct-next (x ∷ xs) ys u v h = Distinct-next xs ys u v h.1

-- Deleting a session that is neither the first node nor the last, from a list of distinct nodes that
-- links no freed memory, frees the node behind it, which the list goes on linking, so that it links freed
-- memory from then on; the removed node itself is not freed and no longer linked.
pub delete_from-not-IsSafe :
    (a : Client) (l : UserList) (t u v : UserNode) (pre post : List UserNode)
    → l.nodes ≡ t ∷ (pre ++ (u ∷ (v ∷ post)))
    → All (λ w. ¬ Session a w) (t ∷ pre)
    → Session a u
    → Distinct l.nodes
    → IsSafe l
    → let l' = (delete_from a l).1 in
      (l'.nodes ≡ t ∷ (pre ++ (v ∷ post)))
      × (l'.freed ≡ v.self ∷ l.freed)
      × All (λ p. p ≢ u.self) l'.freed
      × (¬ IsSafe l')
delete_from-not-IsSafe a l t u v pre post e h s d safe =
    let same = delete_from_at a l (t ∷ pre) (v ∷ post) u e h s in
    (
      ap (λ r. r.1.nodes) same,
      ap (λ r. r.1.freed) same,
      rw (same) (
        (λ q. Distinct-next (t ∷ pre) post u v (subst Distinct e d) (sym q)),
        All-at Unfreed (t ∷ pre) (v ∷ post) u (subst (All Unfreed) e safe),
      ),
      λ safe'. (Linked_at (t ∷ pre) post (subst IsSafe (ap (λ r. r.1) same) safe')).0 refl,
    )
  where
    Unfreed : UserNode → Type 0
    Unfreed w = All (λ p. p ≢ w.self) l.freed

    Linked_at :
        (xs ys : List UserNode)
        → All (λ w. All (λ p. p ≢ w.self) (v.self ∷ l.freed)) (xs ++ (v ∷ ys))
        → All (λ p. p ≢ v.self) (v.self ∷ l.freed)
    Linked_at [] ys k = k.0
    Linked_at (x ∷ xs) ys k = Linked_at xs ys k.1

-- The counter of a list is the number of its nodes.
abbrev pub IsCounted : UserList → Type 0
IsCounted l = l.online_user_num ≡ pos (length l.nodes)

-- Where the counter of a list is the number of its nodes, deleting a session keeps it so.
pub delete_from-IsCounted :
    (a : Client) (l : UserList) → IsCounted l → IsCounted (delete_from a l).1
unfolding ◌-ℤ◌
delete_from-IsCounted a l c = elim (delete_from_lem a l) [
  | inl (e, h) ↦ rw e c
  | inr (pre, u, post, e, h, s, r) ↦ rw r (
      ground (
        arith,
        ap (λ (us : List UserNode). length us) e,
        length-append pre (u ∷ post),
        length-append pre post,
      ))
]
