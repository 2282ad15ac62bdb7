-- ===== src/Projection/Pending.antt =====
-- After a well-formed projection no activation is pending that was not before.
use julep.Prelude.{
  some_injective, ◌≡◌, ◌≢◌, refl, sym, ap, ◌∙◌, Text, text_eq, text_eq_iff, text_eq_self, get, true,
  false, Bool-cases, inl, inr, none, some, List, [], ◌∷◌, ◌++◌, if◌then◌else◌, In, here, there,
  arith,
}
use mathlib.Core.Path.{subst}
use julep.Projection.{
  EventType, planned, did, failed, ProjectionEvent, assign, latest, is_planned, pending_of, pending,
}
use julep.Projection.Paired.{Paired, nothing, activation}

abbrev Status : Type 0
Status = List (Text × EventType)

none_some : none ≡ some planned → ⊥
none_some h = cc

true-false : true ≡ false → ⊥
true-false h = cc

not_planned : (t : EventType) → is_planned t ≡ false → t ≡ planned → ⊥
not_planned t h k = cc

text_ne_sym : (x y : Text) → text_eq x y ≡ false → text_eq y x ≡ false
text_ne_sym x y h = ground (arith, text_eq_iff x y, text_eq_iff y x)

get-assign :
    (j k : Text) (t : EventType) (d : Status)
    → get j (assign k t d) ≡ (if text_eq k j then some t else get j d)
unfolding get assign
get-assign j k t [] = refl
get-assign j k t ((i, u) ∷ d) =
    ground (arith, text_eq_iff i k, text_eq_iff k j, text_eq_iff i j, get-assign j k t d)

-- No key is listed twice.
abbrev IsDict : Status → Type 0
unfolding get
IsDict [] = Unit
IsDict ((k, t) ∷ d) = (get k d ≡ none) × IsDict d

assign-IsDict : (k : Text) (t : EventType) (d : Status) → IsDict d → IsDict (assign k t d)
unfolding get assign
assign-IsDict k t [] h = (refl, tt)
assign-IsDict k t ((i, u) ∷ d) h = elim (Bool-cases (text_eq i k)) [
  | inl e ↦ rw e h
  | inr e ↦ rw e (get-assign i k t d ∙ rw (text_ne_sym i k e) h.0, assign-IsDict k t d h.1)
]

-- Whatever is planned is one of these activations.
abbrev OnlyPlanned : List Text → Status → Type 0
OnlyPlanned cids d = (c : Text) → get c d ≡ some planned → In c cids

In-one : (x k : Text) (cids : List Text) → text_eq k x ≡ true → In x (k ∷ cids)
In-one x k cids e = subst (λ z. In x (z ∷ cids)) (sym ((text_eq_iff k x).0 e)) here

In-other : {x k : Text} {cids : List Text} → In x (k ∷ cids) → text_eq k x ≡ false → In x cids
In-other {x} here e = absurd (true-false (sym (text_eq_self x) ∙ e))
In-other (there m) e = m

open-OnlyPlanned :
    (k : Text) (t : EventType) (cids : List Text) (d : Status)
    → OnlyPlanned cids d
    → OnlyPlanned (k ∷ cids) (assign k t d)
open-OnlyPlanned k t cids d h x g = elim (Bool-cases (text_eq k x)) [
  | inl e ↦ In-one x k cids e
  | inr e ↦ there (h x (sym (get-assign x k t d ∙ rw e refl) ∙ g))
]

close-OnlyPlanned :
    (k : Text) (t : EventType) (cids : List Text) (d : Status)
    → is_planned t ≡ false
    → OnlyPlanned (k ∷ cids) d
    → OnlyPlanned cids (assign k t d)
close-OnlyPlanned k t cids d n h x g = elim (Bool-cases (text_eq k x)) [
  | inl e ↦ absurd (not_planned t n (some_injective (sym (get-assign x k t d ∙ rw e refl) ∙ g)))
  | inr e ↦ In-other (h x (sym (get-assign x k t d ∙ rw e refl) ∙ g)) e
]

not-In : {k : Text} → In k [] → ⊥
not-In m = elim m [ ]

-- An entry that is listed once hides nothing of the others.
OnlyPlanned-tail :
    (k : Text) (t : EventType) (d : Status)
    → get k d ≡ none
    → OnlyPlanned [] ((k, t) ∷ d)
    → OnlyPlanned [] d
unfolding get
OnlyPlanned-tail k t d w h c g = elim (Bool-cases (text_eq k c)) [
  | inl e ↦ absurd (none_some (sym w ∙ (ap (λ z. get z d) ((text_eq_iff k c).0 e) ∙ g)))
  | inr e ↦ h c (rw e g)
]

pending-none : (d : Status) → IsDict d → OnlyPlanned [] d → pending_of d ≡ []
unfolding get pending_of
pending-none [] w h = refl
pending-none ((k, planned) ∷ d) w h = absurd (not-In (h k (rw (text_eq_self k) refl)))
pending-none ((k, did) ∷ d) w h = pending-none d w.1 (OnlyPlanned-tail k did d w.0 h)
pending-none ((k, failed) ∷ d) w h = pending-none d w.1 (OnlyPlanned-tail k failed d w.0 h)

planned-pending : (c : Text) (d : Status) → get c d ≡ some planned → pending_of d ≢ []
unfolding get pending_of
planned-pending c [] g = cc
planned-pending c ((k, t) ∷ d) g = ground (arith, planned-pending c d)

module _ {V : Type 0} where
  latest-append :
      (d : Status) (s t : List (ProjectionEvent V)) → latest d (s ++ t) ≡ latest (latest d s) t
  unfolding latest
  latest-append d [] t = refl
  latest-append d (e ∷ s) t = latest-append (assign e.cid e.type d) s t

  latest-IsDict : (d : Status) (s : List (ProjectionEvent V)) → IsDict d → IsDict (latest d s)
  unfolding latest
  latest-IsDict d [] h = h
  latest-IsDict d (e ∷ s) h =
      latest-IsDict (assign e.cid e.type d) s (assign-IsDict e.cid e.type d h)

  Paired-OnlyPlanned :
      {s : List (ProjectionEvent V)}
      → Paired s
      → (cids : List Text) (d : Status) → OnlyPlanned cids d
      → OnlyPlanned cids (latest d s)
  unfolding latest
  Paired-OnlyPlanned nothing cids d h = h
  Paired-OnlyPlanned (activation w t u p q e i j c n a b) cids d h =
      let opened = open-OnlyPlanned p.cid p.type cids d h in
      let inside = Paired-OnlyPlanned a (p.cid ∷ cids) (assign p.cid p.type d) opened in
      let closed =
        close-OnlyPlanned q.cid q.type cids (latest (assign p.cid p.type d) t) j (rw c inside) in
      let after =
        Paired-OnlyPlanned b cids (assign q.cid q.type (latest (assign p.cid p.type d) t)) closed in
      subst (OnlyPlanned cids)
        (sym (ap (latest d) e ∙ latest-append (assign p.cid p.type d) t (q ∷ u))) after

  -- Activations that are paired leave nothing pending.
  pub Paired-pending :
      (es t : List (ProjectionEvent V)) → Paired t → pending es ≡ [] → pending (es ++ t) ≡ []
  unfolding pending IsDict
  Paired-pending es t a h = rw (latest-append [] es t) (
      pending-none (latest (latest [] es) t)
        (latest-IsDict (latest [] es) t (latest-IsDict [] es tt))
        (Paired-OnlyPlanned a [] (latest [] es) (λ c g. absurd (planned-pending c _ g h))))
