-- ===== src/Rhs/Flow.antt =====
-- About what an action may do to the executor: execute_action and the loops of
-- rulesforge/src/engine/rhs_executor.cpp.
use rules_forge.Prelude.{
  ℕ, suc, zero, String, ◌≡◌, ◌∙◌, refl, inl, inr, Bool, true, false, Option, none, some, List, [],
  ◌∷◌, ◌&&◌, arith, Bool-cases, Option-cases, ap,
}
use rules_forge.Prelude.Int.{ℤ, pos, negsuc}
use rules_forge.Prelude.Eq.{string_eq}
use rules_forge.Prelude.Map.{Map, find-insert, find-erase}
use rules_forge.Prelude.Map
use rules_forge.Rhs.{
  RhsOps, EffectType, Action, Actions, Cases, Executor, Outcome, returned, thrown, and_then,
  is_stopped, go_on, restore, restore_outcome, for_body, for_loop, while_loop, test_of, value_of,
  perform_effect, run_for, run_while, run_if, run_switch, run_case, guarded, execute_action,
  execute_actions, execute_cases, effect, if_action, switch_action, for_action, while_action,
  break_action, continue_action, done, next, no_case, switch_case,
}

module _ (E : RhsOps) where
  open E use {Session, Payload, Condition, Expression, Value, Source, Item}

  -- The sessions that calls lead to.
  pub data Reach : Session → Session → Type 0 where
    stays : {s : Session} → Reach s s
    performs :
        {s s' : Session} (kind : EffectType) (payload : Payload) (env : Map String Item)
        → Reach s s'
        → Reach s (E.perform kind payload env s').0
    collects :
        {s s' : Session} (source : Source) (env : Map String Item)
        → Reach s s'
        → Reach s (E.collect_for_items source env s').0

  pub Reach-trans : {a b c : Session} → Reach a b → Reach b c → Reach a c
  Reach-trans p stays = p
  Reach-trans p (performs kind payload env q) = performs kind payload env (Reach-trans p q)
  Reach-trans p (collects source env q) = collects source env (Reach-trans p q)

  abbrev pub SameBindings : Map String Item → Map String Item → Type 0
  SameBindings m m' = (k : String) → Map.find k m' ≡ Map.find k m

  -- Not both flags are set.
  abbrev pub IsOneFlag : Executor E → Type 0
  IsOneFlag x = (x.break_requested && x.continue_requested) ≡ false

  abbrev pub Good : Executor E → Outcome E → Type 0
  Good x (returned x') =
      Reach x.session x'.session
      × SameBindings x.temp_bindings x'.temp_bindings
      × (IsOneFlag x → IsOneFlag x')
  Good x (thrown x') = Reach x.session x'.session × SameBindings x.temp_bindings x'.temp_bindings

  abbrev pub AllGood : (Executor E → Outcome E) → Type 0
  AllGood f = (x : Executor E) → Good x (f x)

  pub Good-returned : (x : Executor E) → Good x (returned x)
  Good-returned x = (stays, λ k. refl, λ h. h)

  Good-thrown : (x : Executor E) → Good x (thrown x)
  Good-thrown x = (stays, λ k. refl)

  pub Good-and_then :
      (x : Executor E) (o : Outcome E) (f : Executor E → Outcome E)
      → Good x o
      → AllGood f
      → Good x (and_then E o f)
  Good-and_then x (thrown x') f g h = g
  Good-and_then x (returned x') f g h = Good-trans x x' (f x') g (h x')
    where
      Good-trans : (x x' : Executor E) (o : Outcome E) → Good x (returned x') → Good x' o → Good x o
      Good-trans x x' (returned y) g h =
          (Reach-trans g.0 h.0, λ k. h.1 k ∙ g.1 k, λ one. h.2 (g.2 one))
      Good-trans x x' (thrown y) g h = (Reach-trans g.0 h.0, λ k. h.1 k ∙ g.1 k)

  Good-guarded_if :
      (x : Executor E) (o : Outcome E)
      → (is_stopped E x ≡ false → Good x o)
      → Good x (guarded E x o)
  unfolding guarded
  Good-guarded_if x o g = elim (Bool-cases (is_stopped E x)) [
    | inl e ↦ rw (e, guarded) (Good-returned x)
    | inr e ↦ rw (e, guarded) (g e)
  ]

  pub Good-guarded : (x : Executor E) (o : Outcome E) → Good x o → Good x (guarded E x o)
  Good-guarded x o g = Good-guarded_if x o (λ e. g)

  leave_or_again :
      (again : Executor E → Outcome E) (x : Executor E) (b : Bool)
      → AllGood again
      → x.break_requested ≡ b
      → Good x (elim b [
        | true ↦ returned (record x { break_requested = false })
        | false ↦ again (record x { continue_requested = false })
      ])
  leave_or_again again x true g e = (stays, λ k. refl, λ h. refl)
  leave_or_again again x false g e =
      Good-and_then x (returned (record x { continue_requested = false })) again
        (stays, λ k. refl, λ h. ground arith) g

  Good-go_on : (again : Executor E → Outcome E) → AllGood again → AllGood (go_on E again)
  unfolding go_on
  Good-go_on again g x = leave_or_again again x x.break_requested g refl

  same_key :
      (name k : String) (m : Map String Item)
      → string_eq.beq name k ≡ true
      → Map.find name m ≡ Map.find k m
  same_key name k m e =
      let same : name ≡ k = ground (arith, string_eq.beq_iff name k) in ap (λ i. Map.find i m) same

  restored-none :
      (name : String) (item : Item) (m m' : Map String Item)
      → Map.find name m ≡ none
      → SameBindings (Map.insert name item m) m'
      → SameBindings m (Map.erase name m')
  restored-none name item m m' e h k =
      ground (arith, find-erase name k m', find-insert name k item m, h k, same_key name k m)

  restored-some :
      (name : String) (item old : Item) (m m' : Map String Item)
      → Map.find name m ≡ some old
      → SameBindings (Map.insert name item m) m'
      → SameBindings m (Map.insert name old m')
  restored-some name item old m m' e h k =
      ground (arith, find-insert name k old m', find-insert name k item m, h k, same_key name k m)

  abbrev bound : String → Item → Executor E → Executor E
  bound name item x = record x { temp_bindings = Map.insert name item x.temp_bindings }

  Good-restore_outcome :
      (name : String) (item : Item) (x : Executor E) (o : Outcome E)
      → Good (bound name item x) o
      → Good x (restore_outcome E name (Map.find name x.temp_bindings) o)
  unfolding restore_outcome restore
  Good-restore_outcome name item x (returned y) g =
      elim (Option-cases (Map.find name x.temp_bindings)) [
        | inl e ↦
            rw (e, restore_outcome)
              (g.0, restored-none name item x.temp_bindings y.temp_bindings e g.1, g.2)
        | inr (old, e) ↦
            rw (e, restore_outcome)
              (g.0, restored-some name item old x.temp_bindings y.temp_bindings e g.1, g.2)
      ]
  Good-restore_outcome name item x (thrown y) g =
      elim (Option-cases (Map.find name x.temp_bindings)) [
        | inl e ↦
            rw (e, restore_outcome)
              (g.0, restored-none name item x.temp_bindings y.temp_bindings e g.1)
        | inr (old, e) ↦
            rw (e, restore_outcome)
              (g.0, restored-some name item old x.temp_bindings y.temp_bindings e g.1)
      ]

  pub Good-for_body :
      (body : Executor E → Outcome E) (name : String) (item : Item)
      → AllGood body
      → AllGood (for_body E body name item)
  unfolding for_body
  Good-for_body body name item g x =
      Good-restore_outcome name item x (body (bound name item x)) (g (bound name item x))

  Good-for_loop :
      (body : Executor E → Outcome E) (name : String) (items : List Item)
      → AllGood body
      → AllGood (for_loop E body name items)
  unfolding for_loop
  Good-for_loop body name [] g x = Good-returned x
  Good-for_loop body name (item ∷ items) g x =
      Good-and_then x (for_body E body name item x) (go_on E (for_loop E body name items))
        (Good-for_body body name item g x)
        (Good-go_on (for_loop E body name items) (Good-for_loop body name items g))

  Good-while_loop :
      (test : Executor E → Option Bool) (body : Executor E → Outcome E) (n : ℕ)
      → AllGood body
      → AllGood (while_loop E test body n)
  unfolding while_loop
  Good-while_loop test body zero g x = elim (Option-cases (test x)) [
    | inl e ↦ rw (e, while_loop) (Good-thrown x)
    | inr (true, e) ↦ rw (e, while_loop) (Good-thrown x)
    | inr (false, e) ↦ rw (e, while_loop) (Good-returned x)
  ]
  Good-while_loop test body (suc n) g x = elim (Option-cases (test x)) [
    | inl e ↦ rw (e, while_loop) (Good-thrown x)
    | inr (true, e) ↦
        rw (e, while_loop)
          (Good-and_then x (body x) (go_on E (while_loop E test body n)) (g x)
            (Good-go_on (while_loop E test body n) (Good-while_loop test body n g)))
    | inr (false, e) ↦ rw (e, while_loop) (Good-returned x)
  ]

  Good-perform_effect :
      (kind : EffectType) (payload : Payload) → AllGood (perform_effect E kind payload)
  unfolding perform_effect
  Good-perform_effect kind payload x =
      elim (Bool-cases (E.perform kind payload x.temp_bindings x.session).1) [
        | inl e ↦
            rw (e, perform_effect) (performs kind payload x.temp_bindings stays, λ k. refl, λ h. h)
        | inr e ↦ rw (e, perform_effect) (performs kind payload x.temp_bindings stays, λ k. refl)
      ]

  Good-run_for :
      (body : Executor E → Outcome E) (name : String) (source : Source)
      → AllGood body
      → AllGood (run_for E body name source)
  unfolding run_for
  Good-run_for body name source g x =
      elim (Option-cases (E.collect_for_items source x.temp_bindings x.session).1) [
        | inl e ↦ rw (e, run_for) (collects source x.temp_bindings stays, λ k. refl)
        | inr (items, e) ↦
            rw (e, run_for)
              (Good-and_then x
                (returned
                  (record x { session = (E.collect_for_items source x.temp_bindings x.session).0 }))
                (for_loop E body name items)
                (collects source x.temp_bindings stays, λ k. refl, λ h. h)
                (Good-for_loop body name items g))
      ]

  Good-run_while :
      (body : Executor E → Outcome E) (c : Condition) (limit : ℤ)
      → AllGood body
      → AllGood (run_while E body c limit)
  unfolding run_while
  Good-run_while body c (negsuc n) g x = Good-thrown x
  Good-run_while body c (pos zero) g x = Good-thrown x
  Good-run_while body c (pos (suc n)) g x = Good-while_loop (test_of E c) body (suc n) g x

  Good-run_if :
      (t e : Executor E → Outcome E) (c : Condition)
      → AllGood t
      → AllGood e
      → AllGood (run_if E t e c)
  unfolding run_if
  Good-run_if t f c gt gf x = elim (Option-cases (test_of E c x)) [
    | inl e ↦ rw (e, run_if) (Good-thrown x)
    | inr (true, e) ↦ rw (e, run_if) (gt x)
    | inr (false, e) ↦ rw (e, run_if) (gf x)
  ]

  Good-run_switch :
      (cases : Value → Executor E → Outcome E) (e : Expression)
      → ((v : Value) → AllGood (cases v))
      → AllGood (run_switch E cases e)
  unfolding run_switch
  Good-run_switch cases ex g x = elim (Option-cases (value_of E ex x)) [
    | inl e ↦ rw (e, run_switch) (Good-thrown x)
    | inr (v, e) ↦ rw (e, run_switch) (g v x)
  ]

  Good-run_case :
      (body others : Executor E → Outcome E) (v : Value) (e : Expression)
      → AllGood body
      → AllGood others
      → AllGood (run_case E body others v e)
  unfolding run_case
  Good-run_case body others v ex gb go x = elim (Option-cases (value_of E ex x)) [
    | inl e ↦ rw (e, run_case) (Good-thrown x)
    | inr (w, e) ↦ elim (Bool-cases (E.values_equal v w)) [
      | inl t ↦ rw (e, t, run_case) (gb x)
      | inr f ↦ rw (e, f, run_case) (go x)
    ]
  ]

  Good-break :
      (x : Executor E) → Good x (guarded E x (returned (record x { break_requested = true })))
  unfolding is_stopped
  Good-break x = Good-guarded_if x _ (λ e. (stays, λ k. refl, λ h. ground arith))

  Good-continue :
      (x : Executor E) → Good x (guarded E x (returned (record x { continue_requested = true })))
  unfolding is_stopped
  Good-continue x = Good-guarded_if x _ (λ e. (stays, λ k. refl, λ h. ground arith))

  mutual
    unfolding execute_action

    pub Good-execute_action : (a : Action E) → AllGood (execute_action E a)
    Good-execute_action (effect kind payload) x =
        Good-guarded x (perform_effect E kind payload x) (Good-perform_effect kind payload x)
    Good-execute_action (if_action none t e) x = Good-guarded x (thrown x) (Good-thrown x)
    Good-execute_action (if_action (some c) t e) x = Good-guarded x _ (
        Good-run_if (execute_actions E t) (execute_actions E e) c (Good-execute_actions t)
          (Good-execute_actions e) x)
    Good-execute_action (switch_action none cs) x = Good-guarded x (thrown x) (Good-thrown x)
    Good-execute_action (switch_action (some e) cs) x = Good-guarded x _ (
        Good-run_switch (λ v. execute_cases E cs v returned) e
          (λ v. Good-execute_cases cs v returned Good-returned) x)
    Good-execute_action (for_action name source body) x =
        Good-guarded x _
          (Good-run_for (execute_actions E body) name source (Good-execute_actions body) x)
    Good-execute_action (while_action none limit body) x = Good-guarded x (thrown x) (Good-thrown x)
    Good-execute_action (while_action (some c) limit body) x =
        Good-guarded x _
          (Good-run_while (execute_actions E body) c limit (Good-execute_actions body) x)
    Good-execute_action break_action x = Good-break x
    Good-execute_action continue_action x = Good-continue x

    pub Good-execute_actions : (block : Actions E) → AllGood (execute_actions E block)
    Good-execute_actions done x = Good-returned x
    Good-execute_actions (next a rest) x = Good-guarded x _ (
        Good-and_then x (execute_action E a x) (execute_actions E rest) (Good-execute_action a x)
          (Good-execute_actions rest))

    Good-execute_cases :
        (cs : Cases E) (v : Value) (fallback : Executor E → Outcome E)
        → AllGood fallback
        → AllGood (execute_cases E cs v fallback)
    Good-execute_cases no_case v fallback g x = g x
    Good-execute_cases (switch_case true e body cs) v fallback g x =
        Good-execute_cases cs v (execute_actions E body) (Good-execute_actions body) x
    Good-execute_cases (switch_case false none body cs) v fallback g x =
        Good-execute_cases cs v fallback g x
    Good-execute_cases (switch_case false (some e) body cs) v fallback g x =
        Good-run_case (execute_actions E body) (execute_cases E cs v fallback) v e
          (Good-execute_actions body) (Good-execute_cases cs v fallback g) x

  -- Whatever action runs and however it ends, the session is reached by calls alone and every
  -- binding of a loop variable is as before; and if it returns, not both flags are set unless both were.
  pub execute_action-Good : (a : Action E) (x : Executor E) → Good x (execute_action E a x)
  execute_action-Good a x = Good-execute_action a x
