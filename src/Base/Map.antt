-- ===== src/Base/Map.antt =====
-- std::map<std::string, std::string>: entries in the order of their keys.
use Prim.Native.Nat.{Ordering}
use mathlib.Core.Path.{◌≡◌, refl, sym, ap, ◌∙◌}
use mathlib.Core.Logic.{◌≢◌}
use mathlib.Core.Option.{Option, none, some}
use mathlib.Core.List.{List, [], ◌∷◌, ◌++◌, append_assoc, append-nil}
use native.Mathlib.Omega.{arith}
use market_bridge.Base.Lists.{All, All-append}
use market_bridge.Base.Text.{
  Bytes, compare_bytes, compare_bytes_eq, compare_bytes_refl, compare_bytes_trans,
  compare_bytes_swap, compare_bytes_above, equal, equal_iff,
}
use market_bridge.Base.Tests.{if◌then◌else◌}

abbrev pub Map : Type 0
Map = List (Bytes × Bytes)

-- m.find(k)
unfoldable pub find : Bytes → Map → Option Bytes
find k [] = none
find k ((j, v) ∷ m) = elim (compare_bytes k j) [ Ordering.eq ↦ some v | _ ↦ find k m ]

-- m[k] = v
unfoldable pub insert : Bytes → Bytes → Map → Map
insert k v [] = (k, v) ∷ []
insert k v ((j, w) ∷ m) = elim (compare_bytes k j) [
  | Ordering.lt ↦ (k, v) ∷ (j, w) ∷ m
  | Ordering.eq ↦ (j, v) ∷ m
  | Ordering.gt ↦ (j, w) ∷ insert k v m
]

-- The entries of a std::map ascend.
abbrev pub Precedes : Bytes × Bytes → Bytes × Bytes → Type 0
Precedes a b = compare_bytes a.0 b.0 ≡ Ordering.lt

abbrev pub IsSorted : Map → Type 0
IsSorted [] = Unit
IsSorted (e ∷ m) = All (Precedes e) m × IsSorted m

-- Assigning the entries of a list in turn.
unfoldable pub insert_all : Map → Map → Map
insert_all m [] = m
insert_all m ((k, v) ∷ es) = insert_all (insert k v m) es

pub insert_all-append :
    (m es : Map) (k v : Bytes) → insert_all m (es ++ (k, v) ∷ []) ≡ insert k v (insert_all m es)
unfolding insert_all
insert_all-append m [] k v = refl
insert_all-append m ((j, w) ∷ es) k v = insert_all-append (insert j w m) es k v

-- A key above all others goes to the end.
insert-append :
    (k v : Bytes) (m : Map) → All (λ e. Precedes e (k, v)) m → insert k v m ≡ m ++ (k, v) ∷ []
unfolding insert
insert-append k v [] h = refl
insert-append k v ((j, w) ∷ m) h =
    rw (compare_bytes_above k j h.0, insert) (ap (◌∷◌ (j, w)) (insert-append k v m h.1))

insert_all_above :
    (m es : Map) → All (λ e. All (λ f. Precedes f e) m) es → IsSorted es → insert_all m es ≡ m ++ es
unfolding insert_all
insert_all_above m [] h s = sym (append-nil m)
insert_all_above m ((k, v) ∷ es) h s = rw (insert-append k v m h.0) (
    insert_all_above (m ++ (k, v) ∷ []) es (extend es h.1 s.0) s.1
    ∙ append_assoc m ((k, v) ∷ []) es)
  where
    extend :
        (fs : Map)
        → All (λ e. All (λ f. Precedes f e) m) fs
        → All (Precedes (k, v)) fs
        → All (λ e. All (λ f. Precedes f e) (m ++ (k, v) ∷ [])) fs
    extend [] a b = tt
    extend (f ∷ fs) a b =
        (All-append (λ g. Precedes g f) m ((k, v) ∷ []) a.0 (b.0, tt), extend fs a.1 b.1)

-- A map is rebuilt by assigning its entries in order.
pub insert_all-IsSorted : (es : Map) → IsSorted es → insert_all [] es ≡ es
insert_all-IsSorted es s = insert_all_above [] es (vacuous es) s
  where
    vacuous : (fs : Map) → All (λ e. All (λ f. Precedes f e) []) fs
    vacuous [] = tt
    vacuous (f ∷ fs) = (tt, vacuous fs)

-- m[k] is v after m[k] = v, and every other key keeps its value.
pub find-insert :
    (k v j : Bytes) (m : Map) → find j (insert k v m) ≡ (if equal j k then some v else find j m)
unfolding find insert
find-insert k v j [] = ground (arith, equal_iff j k, compare_bytes_eq j k, compare_bytes_refl j)
find-insert k v j ((i, w) ∷ m) = ground (
  arith,
  equal_iff j k,
  compare_bytes_eq j k,
  compare_bytes_eq k i,
  compare_bytes_eq j i,
  compare_bytes_refl j,
  find-insert k v j m,
)

-- Assigning keeps the order of the keys.
insert-above :
    (k v : Bytes) (e : Bytes × Bytes) (m : Map)
    → Precedes e (k, v)
    → All (Precedes e) m
    → All (Precedes e) (insert k v m)
unfolding insert
insert-above k v e [] p h = (p, tt)
insert-above k v e ((j, w) ∷ m) p h =
    ground (arith, insert-above k v e m p h.1, compare_bytes_eq k j)

Precedes-All :
    (k v j w : Bytes) (m : Map)
    → compare_bytes k j ≡ Ordering.lt
    → All (Precedes (j, w)) m
    → All (Precedes (k, v)) m
Precedes-All k v j w [] p h = tt
Precedes-All k v j w ((i, u) ∷ m) p h =
    (compare_bytes_trans k j i p h.0, Precedes-All k v j w m p h.1)

pub insert-IsSorted : (k v : Bytes) (m : Map) → IsSorted m → IsSorted (insert k v m)
unfolding insert
insert-IsSorted k v [] s = (tt, tt)
insert-IsSorted k v ((j, w) ∷ m) s = ground (
  arith,
  Precedes-All k v j w m,
  insert-above k v (j, w) m,
  insert-IsSorted k v m s.1,
  compare_bytes_swap k j,
)

insert_comm_lt :
    (k v j w : Bytes) (m : Map)
    → compare_bytes k j ≡ Ordering.lt
    → insert k v (insert j w m) ≡ insert j w (insert k v m)
unfolding insert
insert_comm_lt k v j w [] h = ground (arith, h, compare_bytes_above j k h)
insert_comm_lt k v j w ((i, u) ∷ m) h = ground (
  arith,
  h,
  compare_bytes_above j k h,
  compare_bytes_trans k j i h,
  compare_bytes_eq j i,
  compare_bytes_eq k i,
  compare_bytes_above j i,
  compare_bytes_swap k i,
  compare_bytes_trans i k j,
  compare_bytes_above j k,
  insert_comm_lt k v j w m h,
)

-- Assignments to different keys commute.
pub insert_comm :
    (k v j w : Bytes) (m : Map) → k ≢ j → insert k v (insert j w m) ≡ insert j w (insert k v m)
insert_comm k v j w m ne = go (compare_bytes k j) refl
  where
    go :
        (o : Ordering)
        → compare_bytes k j ≡ o
        → insert k v (insert j w m) ≡ insert j w (insert k v m)
    go Ordering.lt e = insert_comm_lt k v j w m e
    go Ordering.eq e = absurd (ne (compare_bytes_eq k j e))
    go Ordering.gt e = sym (insert_comm_lt j w k v m (compare_bytes_swap k j e))
