-- ===== src/Rete/Condition/Matches.antt =====
-- About the sets of matches of BetaConditionNode (rulesforge/src/rete/rete_node.cpp).
use rules_forge.Prelude.{
  ℕ, ◌≡◌, refl, Bool, true, false, not, none, some, List, [], ◌∷◌, ◌&&◌, ◌==◌, length,
  if◌then◌else◌, arith, ==_iff, is_some, Option-cases, inl, inr, ◌∙◌, ap,
}
use rules_forge.Prelude.Eq.{nat_eq}
use rules_forge.Prelude.Map.{Map, find-insert, find-erase}
use rules_forge.Prelude.Map
use rules_forge.Prelude.Set
use rules_forge.Prelude.Set.{contains-insert, contains-erase}
use rules_forge.Rete.{receive_all, receive, tell}
use rules_forge.Rete.Messages.{receive_all-append}
use rules_forge.Rete.Condition.{
  Kind, condition_passes, propagate_condition_transition, record_matches, collect, tokens, visit,
  rematch,
}

pub contains-record_matches :
    (test : ℕ → Bool) (fs ids : List ℕ) (g : ℕ)
    → Set.contains g (record_matches test fs ids)
      ≡ (if Set.contains g ids then true else (Set.contains g fs && test g))
unfolding record_matches Set.contains
contains-record_matches test [] ids g = ground arith
contains-record_matches test (f ∷ fs) ids g = ground (
  arith,
  contains-record_matches test fs ids g,
  contains-record_matches test fs (Set.insert f ids) g,
  contains-insert f g ids,
  ==_iff f g,
)

pub contains-collect :
    (xs out : List ℕ) (g : ℕ)
    → Set.contains g (collect xs out) ≡ (if Set.contains g out then true else Set.contains g xs)
unfolding collect Set.contains
contains-collect [] out g = ground arith
contains-collect (x ∷ xs) out g =
    ground (arith, contains-collect xs (Set.insert x out) g, contains-insert x g out)

pub contains-tokens :
    (left : Map ℕ (List ℕ)) (w : ℕ) → Set.contains w (tokens left) ≡ is_some (Map.find w left)
unfolding tokens Set.contains Map.find
contains-tokens [] w = refl
contains-tokens ((v, ids) ∷ left) w = ground (arith, contains-tokens left w)

-- The facts that a token is matched with; none where the token is not there.
unfoldable pub has : ℕ → ℕ → Map ℕ (List ℕ) → Bool
has w g left = elim (Map.find w left) [ none ↦ false | some ids ↦ Set.contains g ids ]

pub has-insert :
    (v w g : ℕ) (ids : List ℕ) (left : Map ℕ (List ℕ))
    → has w g (Map.insert v ids left) ≡ (if v == w then Set.contains g ids else has w g left)
unfolding has
has-insert v w g ids left = ground (arith, find-insert v w ids left)

pub has-erase :
    (v w g : ℕ) (left : Map ℕ (List ℕ))
    → has w g (Map.erase v left) ≡ (if v == w then false else has w g left)
unfolding has
has-erase v w g left = ground (arith, find-erase v w left)

pub has-none : (v g : ℕ) (left : Map ℕ (List ℕ)) → Map.find v left ≡ none → has v g left ≡ false
unfolding has
has-none v g left h = rw (has, h) refl

pub has-some :
    (v g : ℕ) (ids : List ℕ) (left : Map ℕ (List ℕ))
    → Map.find v left ≡ some ids
    → has v g left ≡ Set.contains g ids
unfolding has
has-some v g ids left h = rw (has, h) refl

-- The child's view of a token: whether its condition passes.
unfoldable pub passing : Kind → ℕ → Map ℕ (List ℕ) → Bool
passing kind w left = elim (Map.find w left) [
  | none ↦ false
  | some ids ↦ condition_passes kind (length ids)
]

pub passing-insert :
    (kind : Kind) (v w : ℕ) (ids : List ℕ) (left : Map ℕ (List ℕ))
    → passing kind w (Map.insert v ids left)
      ≡ (if v == w then condition_passes kind (length ids) else passing kind w left)
unfolding passing
passing-insert kind v w ids left = ground (arith, find-insert v w ids left)

pub passing-erase :
    (kind : Kind) (v w : ℕ) (left : Map ℕ (List ℕ))
    → passing kind w (Map.erase v left) ≡ (if v == w then false else passing kind w left)
unfolding passing
passing-erase kind v w left = ground (arith, find-erase v w left)

pub not_passing :
    (kind : Kind) (v : ℕ) (left : Map ℕ (List ℕ))
    → Map.find v left ≡ none
    → passing kind v left ≡ false
unfolding passing
not_passing kind v left h = rw (passing, h) refl

pub passing-some :
    (kind : Kind) (v : ℕ) (ids : List ℕ) (left : Map ℕ (List ℕ))
    → Map.find v left ≡ some ids
    → passing kind v left ≡ condition_passes kind (length ids)
unfolding passing
passing-some kind v ids left h = rw (passing, h) refl

receive-transition :
    (kind : Kind) (v a b w : ℕ) (view : List ℕ)
    → Set.contains v view ≡ condition_passes kind a
    → Set.contains w (receive_all (propagate_condition_transition kind v a b) view)
      ≡ (if v == w then condition_passes kind b else Set.contains w view)
unfolding propagate_condition_transition receive_all receive tell
receive-transition kind v a b w view h =
    ground (arith, contains-insert v w view, contains-erase v w view, ==_iff v w)

pub contains-rematch :
    (fact : ℕ) (existed joins_now : Bool) (ids : List ℕ) (g : ℕ)
    → Set.contains g (rematch fact existed joins_now ids) ≡ (
        if fact == g
        then (if joins_now then true else (not existed && Set.contains g ids))
        else Set.contains g ids)
unfolding rematch
contains-rematch fact existed joins_now ids g = ground (
  arith,
  contains-insert fact g ids,
  contains-insert fact g (Set.erase fact ids),
  contains-erase fact g ids,
)

module _ (kind : Kind) (fact : ℕ) (existed : Bool) (test : ℕ → Bool) where
  pub stored-visit :
      (ws : List ℕ) (left : Map ℕ (List ℕ)) (w : ℕ)
      → is_some (Map.find w (visit kind fact existed test ws left).0) ≡ is_some (Map.find w left)
  unfolding visit
  stored-visit [] left w = refl
  stored-visit (v ∷ ws) left w = elim (Option-cases (Map.find v left)) [
    | inl e ↦ rw (e, visit) (stored-visit ws left w)
    | inr (ids, e) ↦
        rw (e, visit)
          (ground (
            arith,
            stored-visit ws (Map.insert v (rematch fact existed (test v) ids) left) w,
            find-insert v w (rematch fact existed (test v) ids) left,
            ==_iff v w,
          ))
  ]

  pub has-visit :
      (ws : List ℕ) (left : Map ℕ (List ℕ)) (w g : ℕ)
      → (existed ≡ false → has w fact left ≡ true → test w ≡ true)
      → has w g (visit kind fact existed test ws left).0 ≡ (
          if (fact == g) && (Set.contains w ws && is_some (Map.find w left))
          then test w
          else has w g left)
  unfolding visit Set.contains
  has-visit [] left w g h = ground arith
  has-visit (v ∷ ws) left w g h = elim (Option-cases (Map.find v left)) [
    | inl e ↦ rw (e, visit) (ground (arith, has-visit ws left w g h, ==_iff v w, e))
    | inr (ids, e) ↦
        let ids' = rematch fact existed (test v) ids in
        let at : (u : ℕ)
            → Set.contains u ids' ≡ (
                if fact == u
                then (if test v then true else (not existed && Set.contains u ids))
                else Set.contains u ids) =
          contains-rematch fact existed (test v) ids in
        let before : (u : ℕ) → has v u left ≡ Set.contains u ids = λ u. has-some v u ids left e in
        let h' : existed ≡ false → has w fact (Map.insert v ids' left) ≡ true → test w ≡ true = λ n.
          ground (arith, has-insert v w fact ids' left, at fact, before fact, h n, ==_iff v w) in
        rw (e, visit)
          (ground (
            arith,
            has-visit ws (Map.insert v ids' left) w g h',
            has-insert v w g ids' left,
            find-insert v w ids' left,
            at g,
            before g,
            h,
            ==_iff v w,
            ==_iff fact g,
          ))
  ]

  -- Through the messages a child keeps holding the tokens whose condition passes.
  pub visit-told :
      (ws : List ℕ) (left : Map ℕ (List ℕ)) (view : List ℕ)
      → ((w : ℕ) → Set.contains w view ≡ passing kind w left)
      → (w : ℕ)
      → Set.contains w (receive_all (visit kind fact existed test ws left).1 view)
        ≡ passing kind w (visit kind fact existed test ws left).0
  unfolding visit receive_all
  visit-told [] left view h w = h w
  visit-told (v ∷ ws) left view h w = elim (Option-cases (Map.find v left)) [
    | inl e ↦ rw (e, visit) (visit-told ws left view h w)
    | inr (ids, e) ↦
        let ids' = rematch fact existed (test v) ids in
        let told = propagate_condition_transition kind v (length ids) (length ids') in
        let end = visit kind fact existed test ws (Map.insert v ids' left) in
        let kept : (u : ℕ)
            → Set.contains u (receive_all told view) ≡ passing kind u (Map.insert v ids' left) =
          λ u. ground (
            arith,
            receive-transition kind v (length ids) (length ids') u view
                (h v ∙ passing-some kind v ids left e),
            passing-insert kind v u ids' left,
            h u,
          ) in
        rw (e, visit)
          (ap (λ x. Set.contains w x) (receive_all-append told end.1 view)
            ∙ visit-told ws (Map.insert v ids' left) (receive_all told view) kept w)
  ]
