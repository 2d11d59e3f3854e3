-- ===== src/Failover/Priority.antt =====
-- The order of the configured transports, and which names it holds.
use mathlib.Core.List.{Perm}
use mathlib.Core.List.Perm
use s3_storage_node.Common.{
  ℕ, ◌≤◌, String, ◌≡◌, refl, Bool, true, false, ◌||◌, List, [], ◌∷◌, map, arith, Bool-cases,
  mem_text, eq_iff, str_eq, inl, inr,
}
use s3_storage_node.Common.Json.{Builtins}
use s3_storage_node.Common.Result.{Result, ok, err}
use s3_storage_node.Failover.{TargetConfig, resolve_from, resolve}
use s3_storage_node.Failover.Order.{
  SshfsTransport, ExclusiveFailover, key_le, insert_sorted, by_priority, name_of, entry_of,
  ordered_names, has_transport,
}

-- Every priority in the list is at least `p`.
abbrev AtLeast : ℕ → List (ℕ × String) → Type 0
AtLeast p [] = Unit
AtLeast p ((q, n) ∷ es) = (p ≤ q) × AtLeast p es

-- Priorities never decrease along the list.
abbrev pub InPriorityOrder : List (ℕ × String) → Type 0
InPriorityOrder [] = Unit
InPriorityOrder ((p, n) ∷ es) = AtLeast p es × InPriorityOrder es

AtLeast-trans : (p q : ℕ) (es : List (ℕ × String)) → p ≤ q → AtLeast q es → AtLeast p es
AtLeast-trans p q [] h a = tt
AtLeast-trans p q ((r, n) ∷ es) h a = (omega arith, AtLeast-trans p q es h a.1)

AtLeast-insert_sorted :
    (p q : ℕ) (n : String) (es : List (ℕ × String))
    → p ≤ q
    → AtLeast p es
    → AtLeast p (insert_sorted (q, n) es)
unfolding insert_sorted
AtLeast-insert_sorted p q n [] h a = (h, tt)
AtLeast-insert_sorted p q n ((r, m) ∷ es) h a = ground (arith, AtLeast-insert_sorted p q n es h a.1)

insert_sorted-InPriorityOrder :
    (p : ℕ) (n : String) (es : List (ℕ × String))
    → InPriorityOrder es
    → InPriorityOrder (insert_sorted (p, n) es)
unfolding insert_sorted
insert_sorted-InPriorityOrder p n [] o = (tt, tt)
insert_sorted-InPriorityOrder p n ((q, m) ∷ es) o = ground (
  arith,
  insert_sorted-InPriorityOrder p n es o.1,
  AtLeast-insert_sorted q p n es,
  AtLeast-trans p q es,
)

by_priority-InPriorityOrder : (es : List (ℕ × String)) → InPriorityOrder (by_priority es)
unfolding by_priority
by_priority-InPriorityOrder [] = tt
by_priority-InPriorityOrder ((p, n) ∷ es) =
    insert_sorted-InPriorityOrder p n (by_priority es) (by_priority-InPriorityOrder es)

insert_sorted-perm : (e : ℕ × String) (es : List (ℕ × String)) → Perm (insert_sorted e es) (e ∷ es)
unfolding insert_sorted
insert_sorted-perm e [] = Perm.refl (e ∷ [])
insert_sorted-perm e (f ∷ es) = elim (Bool-cases (key_le e f)) [
  | inl first ↦ rw first (Perm.refl (e ∷ f ∷ es))
  | inr later ↦ rw later (Perm.trans (Perm.cons f (insert_sorted-perm e es)) (Perm.swap e f es))
]

by_priority-perm : (es : List (ℕ × String)) → Perm (by_priority es) es
unfolding by_priority
by_priority-perm [] = Perm.refl []
by_priority-perm (e ∷ es) =
    Perm.trans (insert_sorted-perm e (by_priority es)) (Perm.cons e (by_priority-perm es))

mem_text-insert_sorted :
    (s : String) (e : ℕ × String) (es : List (ℕ × String))
    → mem_text s (map name_of (insert_sorted e es)) ≡ (str_eq e.1 s || mem_text s (map name_of es))
unfolding insert_sorted
mem_text-insert_sorted s e [] = refl
mem_text-insert_sorted s (p, n) ((q, m) ∷ es) = ground (arith, mem_text-insert_sorted s (p, n) es)

mem_text-by_priority :
    (s : String) (es : List (ℕ × String))
    → mem_text s (map name_of (by_priority es)) ≡ mem_text s (map name_of es)
unfolding by_priority
mem_text-by_priority s [] = refl
mem_text-by_priority s (e ∷ es) =
    rw (mem_text-insert_sorted s e (by_priority es)) (rw (mem_text-by_priority s es))

-- Whether the call returned a value.
abbrev pub is_ok {ℓ μ} : {E : Type μ} {A : Type ℓ} → Result E A → Bool
is_ok (ok a) = true
is_ok (err e) = false

resolve_from-is_ok :
    (py : Builtins) (config : ExclusiveFailover) (base : TargetConfig) (name : String)
    (ts : List SshfsTransport)
    → is_ok (resolve_from py config base name ts) ≡ mem_text name (map name_of (map entry_of ts))
unfolding resolve_from
resolve_from-is_ok py config base name [] = refl
resolve_from-is_ok py config base name (t ∷ ts) =
    ground (arith, resolve_from-is_ok py config base name ts)

-- The names are those of the primary and of every transport, rearranged so that no priority is
-- followed by a lower one, and a name is among them exactly when `resolve` finds a target for it.
pub has_transport-resolve :
    (py : Builtins) (config : ExclusiveFailover) (base : TargetConfig) (name : String)
    → ((es : List (ℕ × String)) × (ordered_names config ≡ map name_of es)
        × InPriorityOrder es
        × Perm es ((config.primary_priority, config.primary_name) ∷ map entry_of config.transports))
      × (has_transport config name ≡ is_ok (resolve py config base name))
unfolding has_transport ordered_names resolve
has_transport-resolve py config base name =
    let es = (config.primary_priority, config.primary_name) ∷ map entry_of config.transports in
    (
      (by_priority es, refl, by_priority-InPriorityOrder es, by_priority-perm es),
      rw mem_text-by_priority (
          ground (
            arith,
            resolve_from-is_ok py config base name config.transports,
            eq_iff name config.primary_name,
            eq_iff config.primary_name name,
          )),
    )
