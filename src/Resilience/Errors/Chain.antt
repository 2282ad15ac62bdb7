-- ===== src/Resilience/Errors/Chain.antt =====
-- `_chain` of julep/resilience.py: its end, and the exceptions that it lists.
use julep.Prelude.{
  ℕ, zero, suc, ◌+◌, ◌≤◌, ◌<◌, ◌≡◌, refl, sym, ◌∙◌, ◌↔◌, ◌⊎◌, inl, inr, true, false, Option, none,
  some, List, [], ◌∷◌, ◌++◌, length, All, In, here, there, arith, Bool-cases,
}
use mathlib.Core.Path.{subst}
use julep.Resilience.Errors.Reach.{
  Reaches, self, caused, during, Link, NoDangling, has_id-append, unseen, unseen_enter, unseen_all,
}
use julep.Resilience.Errors.{Heap, has_id, chain_loop, chain}

module _ (h : Heap) (e : ℕ) where
  -- An address that was entered, or will be.
  abbrev Waits : (out : List ℕ) (stack : List (Option ℕ)) → ℕ → Type 0
  Waits out stack b = (has_id b out ≡ true) ⊎ In (some b) stack

  abbrev Queued : Option ℕ → Type 0
  Queued o = Link (λ b. (b < h.size) × Reaches h.at e b) o

  record Loop (stack : List (Option ℕ)) (seen out : List ℕ) : Type 0 where
    queued : All Queued stack
    reached : (a : ℕ) → has_id a out ≡ true → Reaches h.at e a
    same : (a : ℕ) → has_id a seen ≡ has_id a out
    followed :
        (a : ℕ)
        → has_id a out ≡ true
        → Link (Waits out stack) (h.at a).cause × Link (Waits out stack) (h.at a).context
    started : Waits out stack e

  -- What the loop returns.
  abbrev pub Complete : List ℕ → Type 0
  Complete out = (a : ℕ) → (has_id a out ≡ true) ↔ Reaches h.at e a

  Link-map : (P Q : ℕ → Type 0) → ((b : ℕ) → P b → Q b) → (o : Option ℕ) → Link P o → Link Q o
  Link-map P Q f none l = tt
  Link-map P Q f (some b) l = f b l

  entered : (out : List ℕ) (b : ℕ) → Waits out [] b → has_id b out ≡ true
  entered out b (inl w) = w
  entered out b (inr m) = elim m [ ]

  at_link : (P : ℕ → Type 0) (o : Option ℕ) (b : ℕ) → o ≡ some b → Link P o → P b
  at_link P o b q l = subst (Link P) q l

  reached-entered :
      (seen out : List ℕ) → Loop [] seen out → (a : ℕ) → Reaches h.at e a → has_id a out ≡ true
  reached-entered seen out i _ self = entered out e i.started
  reached-entered seen out i _ (caused {a = a} {b = b} r q) =
      entered out b (at_link (Waits out []) _ b q (i.followed a (reached-entered seen out i a r)).0)
  reached-entered seen out i _ (during {a = a} {b = b} r q) =
      entered out b (at_link (Waits out []) _ b q (i.followed a (reached-entered seen out i a r)).1)

  leave_none :
      (stack : List (Option ℕ)) (seen out : List ℕ)
      → Loop (none ∷ stack) seen out
      → Loop stack seen out
  leave_none stack seen out i = record {
    queued = i.queued.1;
    reached = i.reached;
    same = i.same;
    followed =
        λ a r. let (c, d) = i.followed a r in (Link-map _ _ leave _ c, Link-map _ _ leave _ d);
    started = leave e i.started;
  }
    where
      leave : (b : ℕ) → Waits out (none ∷ stack) b → Waits out stack b
      leave b (inl w) = inl w
      leave b (inr (there m)) = inr m

  leave_seen :
      (a : ℕ) (stack : List (Option ℕ)) (seen out : List ℕ)
      → has_id a seen ≡ true
      → Loop (some a ∷ stack) seen out
      → Loop stack seen out
  leave_seen a stack seen out s i = record {
    queued = i.queued.1;
    reached = i.reached;
    same = i.same;
    followed =
        λ a r. let (c, d) = i.followed a r in (Link-map _ _ leave _ c, Link-map _ _ leave _ d);
    started = leave e i.started;
  }
    where
      leave : (b : ℕ) → Waits out (some a ∷ stack) b → Waits out stack b
      leave b (inl w) = inl w
      leave b (inr here) = inl (sym (i.same a) ∙ s)
      leave b (inr (there m)) = inr m

  queue-Link :
      (o : Option ℕ)
      → ((b : ℕ) → o ≡ some b → Reaches h.at e b)
      → Link (λ b. b < h.size) o
      → Queued o
  queue-Link none f l = tt
  queue-Link (some b) f l = (l, f b refl)

  -- A link waits on the stack that it was pushed to.
  pushed :
      (out : List ℕ) (stack : List (Option ℕ)) (o : Option ℕ)
      → ((b : ℕ) → o ≡ some b → In (some b) stack)
      → Link (Waits out stack) o
  pushed out stack none f = tt
  pushed out stack (some b) f = inr (f b refl)

  has_id-cases :
      (a x : ℕ) (out : List ℕ) → has_id x (out ++ (a ∷ [])) ≡ true → (has_id x out ≡ true) ⊎ (a ≡ x)
  has_id-cases a x out r = ground (arith, has_id-append x a out, r)

  module _ (sound : NoDangling h) (a : ℕ) (stack : List (Option ℕ)) (seen out : List ℕ)
      (i : Loop (some a ∷ stack) seen out) where
    abbrev next : List (Option ℕ)
    next = (h.at a).context ∷ (h.at a).cause ∷ stack

    abbrev grown : List ℕ
    grown = out ++ (a ∷ [])

    grown_a : has_id a grown ≡ true
    grown_a = ground (arith, has_id-append a a out)

    keep : (b : ℕ) → Waits out (some a ∷ stack) b → Waits grown next b
    keep b (inl w) = inl (ground (arith, has_id-append b a out, w))
    keep b (inr here) = inl grown_a
    keep b (inr (there m)) = inr (there (there m))

    same_grown : (x : ℕ) → has_id x (a ∷ seen) ≡ has_id x grown
    unfolding has_id
    same_grown x = ground (arith, has_id-append x a out, i.same x)

    enter : Loop next (a ∷ seen) grown
    enter = record {
      queued = (
        queue-Link _ (λ b q. during i.queued.0.1 q) (sound a i.queued.0.0).1,
        (queue-Link _ (λ b q. caused i.queued.0.1 q) (sound a i.queued.0.0).0, i.queued.1),
      );
      reached = λ x r. elim (has_id-cases a x out r) [
        | inl w ↦ i.reached x w
        | inr q ↦ subst (Reaches h.at e) q i.queued.0.1
      ];
      same = same_grown;
      followed = λ x r. elim (has_id-cases a x out r) [
        | inl w ↦ let (c, d) = i.followed x w in (Link-map _ _ keep _ c, Link-map _ _ keep _ d)
        | inr q ↦
            subst
              (λ y.
                Link (Waits grown next) (h.at y).cause × Link (Waits grown next) (h.at y).context)
              q
              (
                pushed grown next _ (λ b l. subst (λ o. In o next) l (there here)),
                pushed grown next _ (λ b l. subst (λ o. In o next) l here),
              )
      ];
      started = keep e i.started;
    }

  cost : List (Option ℕ) → List ℕ → ℕ
  cost stack seen = length stack + (unseen h.size seen + unseen h.size seen)

  entering :
      (a : ℕ) (stack : List (Option ℕ)) (seen : List ℕ) (f : ℕ)
      → a < h.size
      → has_id a seen ≡ false
      → cost (some a ∷ stack) seen ≤ suc f
      → cost ((h.at a).context ∷ (h.at a).cause ∷ stack) (a ∷ seen) ≤ f
  unfolding cost
  entering a stack seen f l s c = omega (arith, unseen_enter h.size a seen l s, c)

  leaving :
      (o : Option ℕ) (stack : List (Option ℕ)) (seen : List ℕ) (f : ℕ)
      → cost (o ∷ stack) seen ≤ suc f
      → cost stack seen ≤ f
  unfolding cost
  leaving o stack seen f c = omega (arith, c)

  abbrev Returns : Option (List ℕ) → Type 0
  Returns o = (out : List ℕ) × (o ≡ some out) × Complete out

  done : (seen out : List ℕ) → Loop [] seen out → Returns (some out)
  done seen out i = (out, refl, λ a. (i.reached a, reached-entered seen out i a))

  no_fuel : (o : Option ℕ) (stack : List (Option ℕ)) (seen : List ℕ) → cost (o ∷ stack) seen ≤ 0 → ⊥
  unfolding cost
  no_fuel o stack seen c = omega (arith, c)

  Loop-Returns :
      NoDangling h
      → (f : ℕ) (stack : List (Option ℕ)) (seen out : List ℕ) → Loop stack seen out
      → cost stack seen ≤ f
      → Returns (chain_loop f h.at stack seen out)
  unfolding chain_loop
  Loop-Returns sound zero [] seen out i c = done seen out i
  Loop-Returns sound zero (o ∷ stack) seen out i c = absurd (no_fuel o stack seen c)
  Loop-Returns sound (suc f) [] seen out i c = done seen out i
  Loop-Returns sound (suc f) (none ∷ stack) seen out i c =
      Loop-Returns sound f stack seen out (leave_none stack seen out i)
        (leaving none stack seen f c)
  Loop-Returns sound (suc f) (some a ∷ stack) seen out i c = elim (Bool-cases (has_id a seen)) [
    | inl s ↦
        rw (chain_loop, s)
          (Loop-Returns sound f stack seen out (leave_seen a stack seen out s i)
            (leaving _ stack seen f c))
    | inr s ↦
        rw (chain_loop, s)
          (Loop-Returns sound f _ _ _ (enter sound a stack seen out i)
            (entering a stack seen f i.queued.0.0 s c))
  ]

  started-Loop : e < h.size → Loop (some e ∷ []) [] []
  unfolding has_id
  started-Loop l = record {
    queued = ((l, self), tt);
    reached = λ a r. ground (arith, r);
    same = λ a. refl;
    followed = λ a r. ground (arith, r);
    started = inr here;
  }

  -- `_chain` ends, and what it lists are exactly the exceptions that links lead to from the first,
  -- if every link leads to an exception object.
  pub chain_exact :
      NoDangling h
      → e < h.size
      → (out : List ℕ) × (chain h e ≡ some out)
        × ((a : ℕ) → (has_id a out ≡ true) ↔ Reaches h.at e a)
  unfolding chain cost
  chain_exact sound l =
      Loop-Returns sound (suc (h.size + h.size)) _ _ _ (started-Loop l)
        (omega (arith, unseen_all h.size))
