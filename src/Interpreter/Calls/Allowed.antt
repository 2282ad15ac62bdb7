-- ===== src/Interpreter/Calls/Allowed.antt =====
-- How many attempts a call is allowed.
use julep.Prelude.{
  some_injective, ℕ, ◌≤◌, ◌≡◌, refl, ap, ◌∙◌, ◌⊎◌, inl, inr, Text, get, true, Bool-cases, pos,
  negsuc, ltb, Option, none, some, arith,
}
use julep.Json.{nan, infinity, neg_infinity, finite}
use julep.Ir.{Wire, int, bool, float, Ann, CallStep}
use julep.Contracts.{contract_allows_retry, FrozenTool, ToolManifest}
use julep.Interpreter.Env.{ok_injective, Fault, Reply, ok, raised}
use julep.Interpreter.Calls.{
  found, bind, bound_tool, rounds_of, max_attempts, attempts_for, retry_attempts_for_call,
}

pub Reply-cases :
    {A : Type 0} (r : Reply A) → ((a : A) × (r ≡ ok a)) ⊎ ((e : Fault) × (r ≡ raised e))
Reply-cases (ok a) = inl (a, refl)
Reply-cases (raised e) = inr (e, refl)

pub ok_raised : {A : Type 0} {a : A} {e : Fault} → ok a ≡ raised e → ⊥
ok_raised h = cc

-- A count above one is the number that a field holds.
rounds_of-cases :
    (w : Wire) (count : ℕ)
    → rounds_of w ≡ ok count
    → (count ≤ 1) ⊎ ((k : ℕ) × (w ≡ int (pos k)) × (count ≤ k))
unfolding rounds_of
rounds_of-cases (int (pos n)) count e = elim (Bool-cases (ltb 1 n)) [
  | inl h ↦ inr (n, refl, ground arith)
  | inr h ↦ inl (ground arith)
]
rounds_of-cases (int (negsuc n)) count e = inl (ground arith)
rounds_of-cases (bool b) count e = inl (ground arith)
rounds_of-cases (float (finite (pos n) den)) count e = inl (ground arith)
rounds_of-cases (float (finite (negsuc n) den)) count e = inl (ground arith)
rounds_of-cases (float nan) count e = inl (ground arith)
rounds_of-cases (float infinity) count e = cc
rounds_of-cases (float neg_infinity) count e = inl (ground arith)
rounds_of-cases Wire.other count e = cc

-- A call may be made more than once only if it is bound to an entry of the manifest that a trusted
-- authority asserted and whose contract allows it, and its annotation asks for `k` attempts.
abbrev pub MayRepeat : Option Ann → CallStep → ToolManifest → ℕ → Type 0
unfolding get contract_allows_retry
MayRepeat ann c m k =
    (hash : Text) × (t : FrozenTool) × (c.frozen_hash ≡ some hash)
    × (get hash m ≡ some t)
    × (t.asserted ≡ true)
    × (contract_allows_retry t.contract ≡ true)
    × (max_attempts ann ≡ some (int (pos k)))

tool-cases :
    (w : Wire) (t : Option FrozenTool) (count : ℕ)
    → attempts_for w t ≡ ok count
    → (count ≤ 1)
      ⊎ ((f : FrozenTool) × (k : ℕ) × (t ≡ some f)
          × (f.asserted ≡ true)
          × (contract_allows_retry f.contract ≡ true)
          × (w ≡ int (pos k))
          × (count ≤ k))
unfolding attempts_for
tool-cases w none count e = inl (ground arith)
tool-cases w (some f) count e = elim (Bool-cases f.asserted) [
  | inr h ↦ inl (ground arith)
  | inl h ↦ elim (Bool-cases (contract_allows_retry f.contract)) [
    | inr j ↦ inl (ground arith)
    | inl j ↦ elim (rounds_of-cases w count (ground arith)) [
      | inl small ↦ inl small
      | inr (k, is, le) ↦ inr (f, k, refl, h, j, is, le)
    ]
  ]
]

asked-cases :
    (o : Option Wire) (b : Reply (Option FrozenTool)) (count : ℕ)
    → elim o [ none ↦ ok 1 | some w ↦ elim b [ ok t ↦ attempts_for w t | raised e ↦ raised e ] ]
      ≡ ok count
    → (count ≤ 1)
      ⊎ ((w : Wire) × (t : Option FrozenTool) × (o ≡ some w)
          × (b ≡ ok t)
          × (attempts_for w t ≡ ok count))
asked-cases none b count e = inl (ground arith)
asked-cases (some w) (ok t) count e = inr (w, t, refl, refl, e)
asked-cases (some w) (raised f) count e = cc

found-some :
    (g : Option FrozenTool) (f : FrozenTool)
    → elim (found g) [ ok t ↦ ok (some t) | raised e ↦ raised e ] ≡ ok (some f)
    → g ≡ some f
found-some none f e = cc
found-some (some t) f e = ap some (some_injective (ok_injective e))

hash-some :
    (o : Option Text) (m : ToolManifest) (f : FrozenTool)
    → elim o [
      | none ↦ ok none
      | some hash ↦ elim (bind hash m) [ ok t ↦ ok (some t) | raised e ↦ raised e ]
    ]
      ≡ ok (some f)
    → (hash : Text) × (o ≡ some hash) × (get hash m ≡ some f)
unfolding bind
hash-some none m f e = cc
hash-some (some hash) m f e = (hash, refl, found-some (get hash m) f e)

pub attempts-cases :
    (ann : Option Ann) (c : CallStep) (m : ToolManifest) (count : ℕ)
    → retry_attempts_for_call ann c m ≡ ok count
    → (count ≤ 1) ⊎ ((k : ℕ) × MayRepeat ann c m k × (count ≤ k))
unfolding retry_attempts_for_call MayRepeat
attempts-cases ann c m count e = elim (asked-cases (max_attempts ann) (bound_tool c m) count e) [
  | inl small ↦ inl small
  | inr (w, t, asked, bound, tried) ↦ elim (tool-cases w t count tried) [
    | inl small ↦ inl small
    | inr (f, k, is, asserted, allowed, wire, le) ↦
        (let (hash, frozen, found) = hash-some c.frozen_hash m f (bound ∙ ap ok is) in
          inr (k, (hash, f, frozen, found, asserted, allowed, asked ∙ ap some wire), le))
  ]
]
