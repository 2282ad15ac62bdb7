-- ===== src/Gc/Swept.antt =====
-- What the sweep of julep/gc.py leaves in the store.
use julep.Prelude.{
  ◌≡◌, refl, sym, ap, ◌∙◌, Text, text_eq, text_eq_iff, has_text, Bool, true, false, not, ◌&&◌, ◌||◌,
  Bool-cases, ◌⊎◌, inl, inr, gc_error, Option, List, [], ◌∷◌, ◌++◌, In, here, there, Exception,
  Result, return, raise, gather, return_injective, ◌>>=◌, >>=-eq-return, arith,
}
use julep.Json.{Json}
use julep.Gc.{
  Lease, Store, local_dir, not_enumerable, GcResult, minus, delete_all, enumerate_objects, sweep,
  reachable_closure, roots_of, gc,
}

abbrev pub stored : Text → Store → Bool
stored x (local_dir objects) = has_text x objects
stored x (not_enumerable objects) = has_text x objects

has_text-same : (x y : Text) (r : List Text) → text_eq y x ≡ true → has_text x r ≡ has_text y r
has_text-same x y r h = ap (λ z. has_text z r) (sym ((text_eq_iff y x).0 h))

has_text-append :
    (x : Text) (xs ys : List Text) → has_text x (xs ++ ys) ≡ (has_text x xs || has_text x ys)
unfolding has_text
has_text-append x [] ys = refl
has_text-append x (y ∷ xs) ys = ground (arith, has_text-append x xs ys)

drop_case : (e a r l : Bool) → l ≡ (a && not r) → (e ≡ true → r ≡ true) → l ≡ ((e || a) && not r)
drop_case true a r l h f = h ∙ rw (f refl) (and_false a)
  where
    and_false : (a : Bool) → (a && false) ≡ false
    and_false a = ground arith
drop_case false a r l h f = h

keep_case :
    (e a r l : Bool) → l ≡ (a && not r) → (e ≡ true → r ≡ false) → (e || l) ≡ ((e || a) && not r)
keep_case true a r l h f = rw (f refl) refl
keep_case false a r l h f = h

has_text-minus :
    (x : Text) (xs r : List Text) → has_text x (minus xs r) ≡ (has_text x xs && not (has_text x r))
unfolding minus has_text
has_text-minus x [] r = refl
has_text-minus x (y ∷ xs) r = elim (Bool-cases (has_text y r)) [
  | inl e ↦ rw e (
      drop_case (text_eq y x) (has_text x xs) (has_text x r) (has_text x (minus xs r))
        (has_text-minus x xs r) (λ h. has_text-same x y r h ∙ e))
  | inr e ↦ rw e (
      keep_case (text_eq y x) (has_text x xs) (has_text x r) (has_text x (minus xs r))
        (has_text-minus x xs r) (λ h. has_text-same x y r h ∙ e))
]

stored-delete_all :
    (x : Text) (ds objects : List Text)
    → stored x (delete_all ds (local_dir objects)) ≡ (has_text x objects && not (has_text x ds))
unfolding delete_all has_text
stored-delete_all x [] objects = keep_all (has_text x objects)
  where
    keep_all : (a : Bool) → a ≡ (a && true)
    keep_all a = ground arith
stored-delete_all x (d ∷ ds) objects =
    stored-delete_all x ds (minus objects (d ∷ []))
    ∙ rw (has_text-minus x objects (d ∷ []))
        (both_gone (has_text x objects) (text_eq d x) (has_text x ds))
  where
    both_gone : (a e b : Bool) → ((a && not (e || false)) && not b) ≡ (a && not (e || b))
    both_gone a e b = ground arith

-- What is left of an object that is stored, after all that is not reachable is deleted.
swept :
    (x : Text) (objects roots : List Text)
    → stored x (delete_all (minus objects roots) (local_dir objects))
      ≡ (has_text x objects && has_text x roots)
swept x objects roots =
    stored-delete_all x (minus objects roots) objects
    ∙ rw (has_text-minus x objects roots) (left_over (has_text x objects) (has_text x roots))
  where
    left_over : (a r : Bool) → (a && not (a && not r)) ≡ (a && r)
    left_over a r = ground arith

or_first : (a b : Bool) → a ≡ true → (a || b) ≡ true
or_first a b h = ground arith

or_second : (a b : Bool) → b ≡ true → (a || b) ≡ true
or_second a b h = ground arith

has_text-gather :
    (f : Lease → Result (List Text)) (x : Text) (ls : List Lease) (l : Lease) (ds roots : List Text)
    → In l ls
    → f l ≡ return ds
    → has_text x ds ≡ true
    → gather f ls ≡ return roots
    → has_text x roots ≡ true
has_text-gather f x [] l ds roots i e h g = elim i [ ]
has_text-gather f x (k ∷ ls) l ds roots here e h g =
    let (a, ea, g2) = >>=-eq-return (f k) _ g in
    let (b, eb, g3) = >>=-eq-return (gather f ls) _ g2 in
    ap (has_text x) (sym (return_injective g3))
    ∙ has_text-append x a b
    ∙ or_first (has_text x a) (has_text x b) (ap (has_text x) (return_injective (sym ea ∙ e)) ∙ h)
has_text-gather f x (k ∷ ls) l ds roots (there i) e h g =
    let (a, ea, g2) = >>=-eq-return (f k) _ g in
    let (b, eb, g3) = >>=-eq-return (gather f ls) _ g2 in
    ap (has_text x) (sym (return_injective g3))
    ∙ has_text-append x a b
    ∙ or_second (has_text x a) (has_text x b) (has_text-gather f x ls l ds b i e h eb)

gather-raises :
    (f : Lease → Result (List Text)) (ls : List Lease) (l : Lease) (e : Exception)
    → In l ls
    → f l ≡ raise e
    → (e2 : Exception) × (gather f ls ≡ raise e2)
gather-raises f [] l e i h = elim i [ ]
gather-raises f (k ∷ ls) l e here h = (e, rw h refl)
gather-raises f (k ∷ ls) l e (there i) h =
    let (e2, g) = gather-raises f ls l e i h in later (f k) e2 g
  where
    later :
        (r : Result (List Text)) (e2 : Exception)
        → gather f ls ≡ raise e2
        → (e3 : Exception) × ((do a ← r; b ← gather f ls; return (a ++ b)) ≡ raise e3)
    later (return a) e2 g = (e2, rw g refl)
    later (raise e3) e2 g = (e3, refl)

-- A sweep of any mark leaves what is reachable, and all of it if the mark raised or the run is dry.
sweep-keeps :
    (x : Text) (store : Store) (dry_run : Bool) (objects : Result (List Text)) (roots : List Text)
    → enumerate_objects store ≡ objects
    → stored x store ≡ true
    → has_text x roots ≡ true
    → stored x (sweep store dry_run (do o ← objects; return (roots, o))).1 ≡ true
unfolding minus delete_all
sweep-keeps x store dry_run (raise e) roots h s r = s
sweep-keeps x store true (return objects) roots h s r = s
sweep-keeps x (not_enumerable o) false (return objects) roots h s r = cc
sweep-keeps x (local_dir o) false (return objects) roots h s r =
    rw (← return_injective h) (swept x o roots ∙ rw (s, r) refl)

module _ (load : Text → Option Json) where
  roots-lease :
      (collect_all : Bool) (ls : List Lease) (l : Lease)
      → In l ls
      → roots_of load collect_all ls ≡ gather (reachable_closure load) ls
  unfolding reachable_closure
  roots-lease collect_all [] l i = elim i [ ]
  roots-lease true (k ∷ ls) l i = refl
  roots-lease false (k ∷ ls) l i = refl

-- Whatever the flags, and whether or not it raises, garbage collection leaves every object of the store
-- that is reachable from an active lease.
pub gc_keeps :
    (load : Text → Option Json) (store : Store) (ls : List Lease) (dry_run collect_all : Bool)
    (l : Lease) (ds : List Text) (x : Text)
    → In l ls
    → reachable_closure load l ≡ return ds
    → has_text x ds ≡ true
    → stored x store ≡ true
    → stored x (gc load store (return ls) dry_run collect_all).1 ≡ true
unfolding gc
gc_keeps load store ls dry_run collect_all l ds x i e h s =
    rw (roots-lease load collect_all ls l i) (go (gather (reachable_closure load) ls) refl)
  where
    go :
        (r : Result (List Text))
        → gather (reachable_closure load) ls ≡ r
        → stored x
            (sweep store dry_run (do roots ← r; o ← enumerate_objects store; return (roots, o))).1
          ≡ true
    go (raise e2) g = s
    go (return roots) g =
        sweep-keeps x store dry_run (enumerate_objects store) roots refl s
          (has_text-gather (reachable_closure load) x ls l ds roots i e h g)

-- If the closure of one lease cannot be computed, garbage collection raises and leaves the store as it
-- is; and it does so too if there is no lease, unless everything is to be collected.
pub gc_fails_closed :
    (load : Text → Option Json) (store : Store) (ls : List Lease) (dry_run : Bool)
    (collect_all : Bool)
    → ((l : Lease) × (e : Exception) × In l ls × (reachable_closure load l ≡ raise e))
      ⊎ ((ls ≡ []) × (collect_all ≡ false))
    → (e : Exception) × (gc load store (return ls) dry_run collect_all ≡ (raise e, store))
unfolding gc
gc_fails_closed load store ls dry_run collect_all (inl (l, e, i, h)) =
    let (e2, g) = gather-raises (reachable_closure load) ls l e i h in
    (e2, rw (roots-lease load collect_all ls l i, g) refl)
gc_fails_closed load store ls dry_run collect_all (inr (h, c)) = (gc_error, rw (h, c) refl)

raised : {B : Type 0} {e : Exception} {b : B} → raise e ≡ return b → ⊥
raised h = cc

keep_all : (a b : Bool) → a ≡ (a && (true || b))
keep_all a b = ground arith

sweep_exact :
    (store left : Store) (dry_run : Bool) (r : GcResult) (x : Text) (roots : List Text)
    → sweep store dry_run (do o ← enumerate_objects store; return (roots, o)) ≡ (return r, left)
    → stored x left ≡ (stored x store && (dry_run || has_text x r.reachable))
unfolding minus delete_all
sweep_exact (not_enumerable o) left dry_run r x roots h = absurd (raised (ap (λ q. q.0) h))
sweep_exact (local_dir o) left true r x roots h =
    sym (ap (λ q. stored x q.1) h) ∙ keep_all (has_text x o) (has_text x r.reachable)
sweep_exact (local_dir o) left false r x roots h =
    let same : roots ≡ r.reachable = ap (λ q. q.reachable) (return_injective (ap (λ q. q.0) h)) in
    sym (ap (λ q. stored x q.1) h) ∙ swept x o roots ∙ ap (λ q. has_text x o && has_text x q) same

-- A run that is not dry and returns leaves exactly the objects that it found reachable, and one that is
-- dry leaves them all.
pub gc_exact :
    (load : Text → Option Json) (store left : Store) (leases : Result (List Lease))
    (dry_run collect_all : Bool) (r : GcResult) (x : Text)
    → gc load store leases dry_run collect_all ≡ (return r, left)
    → stored x left ≡ (stored x store && (dry_run || has_text x r.reachable))
unfolding gc
gc_exact load store left (raise e) dry_run collect_all r x h = absurd (raised (ap (λ q. q.0) h))
gc_exact load store left (return ls) dry_run collect_all r x h = go (roots_of load collect_all ls) h
  where
    go :
        (roots : Result (List Text))
        → sweep store dry_run (do ds ← roots; o ← enumerate_objects store; return (ds, o))
          ≡ (return r, left)
        → stored x left ≡ (stored x store && (dry_run || has_text x r.reachable))
    go (raise e) k = absurd (raised (ap (λ q. q.0) k))
    go (return roots) k = sweep_exact store left dry_run r x roots k
