-- ===== src/Config/Validate.antt =====
-- What validate_keys lets pass, and what it says of the rest.
use market_bridge.Base.{
  ◌⊎◌, equal, equal_iff, ◌≡◌, ◌↔◌, refl, true, false, List, [], ◌∷◌, ◌++◌, Bytes, codes, All, inl,
  inr, Bool-cases,
}
use market_bridge.Base.Result.{returns}
use market_bridge.Config.Library.{JsonLibrary}
use market_bridge.Config.Read.{fail, contains, validate_items, validate_keys}

-- The key is one of the keys.
abbrev pub IsAmong : Bytes → List Bytes → Type 0
IsAmong key [] = ⊥
IsAmong key (a ∷ allowed) = (a ≡ key) ⊎ IsAmong key allowed

contains_iff :
    (allowed : List Bytes) (key : Bytes) → (contains allowed key ≡ true) ↔ IsAmong key allowed
unfolding contains
contains_iff [] key = (λ e. cc, λ e. absurd e)
contains_iff (a ∷ allowed) key =
    let (there, back) = contains_iff allowed key in
    let (same, equals) = equal_iff a key in
    (
      λ h. elim (Bool-cases (equal a key)) [
        | inl e ↦ inl (same e)
        | inr e ↦ inr (there (rw e at h))
      ],
      λ h. elim h [
        | inl e ↦ rw (equals e) refl
        | inr k ↦ elim (Bool-cases (equal a key)) [
          | inl e ↦ rw e refl
          | inr e ↦ rw (e, back k) refl
        ]
      ],
    )

module _ (J : JsonLibrary) where
  open J use {Json, items}

  -- A member under one of the allowed keys.
  abbrev pub IsKnown : List Bytes → Bytes × Json → Type 0
  IsKnown allowed e = IsAmong e.0 allowed

  validate_items_first :
      (known : List (Bytes × Json)) (key : Bytes) (value : Json) (rest : List (Bytes × Json))
      (allowed : List Bytes) (name : Bytes)
      → All (IsKnown allowed) known
      → contains allowed key ≡ false
      → validate_items J (known ++ (key, value) ∷ rest) allowed name
        ≡ fail (codes "unknown configuration property: ") (name ++ (codes "." ++ key))
  unfolding validate_items
  validate_items_first [] key value rest allowed name k u = rw u refl
  validate_items_first (e ∷ known) key value rest allowed name k u =
      rw ((contains_iff allowed e.0).1 k.0)
        (validate_items_first known key value rest allowed name k.1 u)

  validate_items_iff :
      (members : List (Bytes × Json)) (allowed : List Bytes) (name : Bytes)
      → (validate_items J members allowed name ≡ returns tt) ↔ All (IsKnown allowed) members
  unfolding validate_items
  validate_items_iff [] allowed name = (λ _. tt, λ _. refl)
  validate_items_iff (e ∷ members) allowed name =
      let (there, back) = validate_items_iff members allowed name in
      (
        λ h. elim (Bool-cases (contains allowed e.0)) [
          | inl k ↦ ((contains_iff allowed e.0).0 k, there (rw k at h))
          | inr u ↦ absurd (cc (rw u at h))
        ],
        λ k. rw ((contains_iff allowed e.0).1 k.0) (back k.1),
      )

  -- validate_keys passes exactly the objects whose members all stand under an allowed key.
  pub validate_keys_iff :
      (object : Json) (allowed : List Bytes) (name : Bytes)
      → (validate_keys J object allowed name ≡ returns tt) ↔ All (IsKnown allowed) (items object)
  unfolding validate_keys
  validate_keys_iff object allowed name = validate_items_iff (items object) allowed name

  -- Where members are not allowed, validate_keys names the first of them, behind the name of the object:
  -- all members before it are allowed.
  validate_keys_first :
      (object : Json) (known : List (Bytes × Json)) (key : Bytes) (value : Json)
      (rest : List (Bytes × Json)) (allowed : List Bytes) (name : Bytes)
      → items object ≡ known ++ (key, value) ∷ rest
      → All (IsKnown allowed) known
      → contains allowed key ≡ false
      → validate_keys J object allowed name
        ≡ fail (codes "unknown configuration property: ") (name ++ (codes "." ++ key))
  unfolding validate_keys
  validate_keys_first object known key value rest allowed name e k u =
      rw e (validate_items_first known key value rest allowed name k u)
