-- ===== src/Dict.antt =====
-- Python's `dict` and `OrderedDict` with string keys: an association list in insertion order.
use dudamel.Prelude.{
  ◌+◌, ◌-◌, ◌≤◌, ◌≡◌, refl, subst, Bool, true, inl, inr, Bool-cases, Option-cases, length,
  length-append, Option, none, some, List, [], ◌∷◌, ◌++◌, String, ◌==◌, eq_iff, eq_refl, map,
  is_some, arith, if◌then◌else◌,
}

abbrev pub Dict {ℓ} : Type ℓ → Type ℓ
Dict V = List (String × V)

module _ {ℓ} {V : Type ℓ} where
  -- `d.get(k)`
  abbrev pub lookup : String → Dict V → Option V
  lookup k [] = none
  lookup k ((j, v) ∷ d) = if j == k then some v else lookup k d

  -- `k in d`
  abbrev pub has_key : String → Dict V → Bool
  has_key k d = is_some (lookup k d)

  -- `d[k] = v`: a key that is there keeps its place.
  abbrev pub insert : String → V → Dict V → Dict V
  insert k v [] = (k, v) ∷ []
  insert k v ((j, w) ∷ d) = if j == k then (j, v) ∷ d else (j, w) ∷ insert k v d

  -- `d.pop(k, None)`
  abbrev pub erase : String → Dict V → Dict V
  erase k [] = []
  erase k ((j, v) ∷ d) = if j == k then d else (j, v) ∷ erase k d

  abbrev put_last : String → Option V → Dict V → Dict V
  put_last k none d = d
  put_last k (some v) d = erase k d ++ ((k, v) ∷ [])

  -- `d.move_to_end(k)`
  abbrev pub move_to_end : String → Dict V → Dict V
  move_to_end k d = put_last k (lookup k d) d

  -- `d.update(e)`
  abbrev pub update : Dict V → Dict V → Dict V
  update d [] = d
  update d ((k, v) ∷ e) = update (insert k v d) e

  abbrev pub keys : Dict V → List String
  keys = map (λ e. e.0)

  -- No key is listed twice.
  abbrev pub IsDict : Dict V → Type ℓ
  IsDict [] = Unit
  IsDict ((k, v) ∷ d) = (lookup k d ≡ none) × IsDict d

  pub lookup-insert :
      (k j : String) (v : V) (d : Dict V)
      → lookup j (insert k v d) ≡ (if k == j then some v else lookup j d)
  lookup-insert k j v [] = refl
  lookup-insert k j v ((i, w) ∷ d) =
      ground (arith, eq_iff k j, eq_iff i k, eq_iff i j, lookup-insert k j v d)

  pub lookup-append :
      (j : String) (d e : Dict V)
      → lookup j (d ++ e) ≡ (if is_some (lookup j d) then lookup j d else lookup j e)
  lookup-append j [] e = refl
  lookup-append j ((i, w) ∷ d) e = ground (arith, lookup-append j d e)

  pub lookup-erase :
      (k j : String) (d : Dict V)
      → IsDict d
      → lookup j (erase k d) ≡ (if k == j then none else lookup j d)
  lookup-erase k j [] h = ground arith
  lookup-erase k j ((i, w) ∷ d) h =
      ground (arith, eq_iff k j, eq_iff i k, eq_iff i j, lookup-erase k j d h.1)

  pub insert-IsDict : (k : String) (v : V) (d : Dict V) → IsDict d → IsDict (insert k v d)
  insert-IsDict k v [] h = (refl, tt)
  insert-IsDict k v ((i, w) ∷ d) h = elim (Bool-cases (i == k)) [
    | inl same ↦ rw same h
    | inr other ↦
        rw other
          (ground (arith, eq_iff i k, eq_iff k i, lookup-insert k i v d), insert-IsDict k v d h.1)
  ]

  pub erase-IsDict : (k : String) (d : Dict V) → IsDict d → IsDict (erase k d)
  erase-IsDict k [] h = tt
  erase-IsDict k ((i, w) ∷ d) h = elim (Bool-cases (i == k)) [
    | inl same ↦ rw same h.1
    | inr other ↦ rw other (ground (arith, lookup-erase k i d h.1), erase-IsDict k d h.1)
  ]

  pub snoc-IsDict :
      (k : String) (v : V) (d : Dict V) → IsDict d → lookup k d ≡ none → IsDict (d ++ ((k, v) ∷ []))
  snoc-IsDict k v [] h fresh = (refl, tt)
  snoc-IsDict k v ((i, w) ∷ d) h fresh = (
    ground (arith, eq_iff i k, eq_iff k i, lookup-append i d ((k, v) ∷ [])),
    snoc-IsDict k v d h.1 (ground arith),
  )

  pub move_to_end-IsDict : (k : String) (d : Dict V) → IsDict d → IsDict (move_to_end k d)
  move_to_end-IsDict k d h = elim (Option-cases (lookup k d)) [
    | inl absent ↦ rw absent h
    | inr (v, e) ↦ rw e (
        snoc-IsDict k v (erase k d) (erase-IsDict k d h)
          (ground (arith, lookup-erase k k d h, eq_refl k)))
  ]

  -- Moving a key changes no value.
  pub lookup-move_to_end :
      (k j : String) (d : Dict V) → IsDict d → lookup j (move_to_end k d) ≡ lookup j d
  lookup-move_to_end k j d h = elim (Option-cases (lookup k d)) [
    | inl absent ↦ rw absent
    | inr (v, e) ↦ rw e (
        ground (arith, eq_iff k j, lookup-append j (erase k d) ((k, v) ∷ []), lookup-erase k j d h))
  ]

  pub length-insert :
      (k : String) (v : V) (d : Dict V)
      → length (insert k v d) ≡ (if has_key k d then length d else length d + 1)
  length-insert k v [] = omega arith
  length-insert k v ((i, w) ∷ d) = ground (arith, length-insert k v d)

  pub has_key-length : (k : String) (d : Dict V) → has_key k d ≡ true → 1 ≤ length d
  has_key-length k [] h = cc
  has_key-length k (e ∷ d) h = omega arith

  pub length-erase :
      (k : String) (d : Dict V)
      → length (erase k d) ≡ (if has_key k d then length d - 1 else length d)
  length-erase k [] = refl
  length-erase k ((i, w) ∷ d) = ground (arith, length-erase k d, has_key-length k d)

  pub length-move_to_end : (k : String) (d : Dict V) → length (move_to_end k d) ≡ length d
  length-move_to_end k d = elim (Option-cases (lookup k d)) [
    | inl absent ↦ rw absent
    | inr (v, e) ↦
        ground
          (arith, length-append (erase k d) ((k, v) ∷ []), length-erase k d, has_key-length k d)
  ]

module _ {ℓ κ} {V : Type ℓ} (P : V → Type κ) where
  -- Every value satisfies `P`.
  abbrev pub AllValues : Dict V → Type κ
  AllValues [] = Unit
  AllValues ((k, v) ∷ d) = P v × AllValues d

  pub insert-AllValues :
      (k : String) (v : V) (d : Dict V) → P v → AllValues d → AllValues (insert k v d)
  insert-AllValues k v [] p h = (p, tt)
  insert-AllValues k v ((i, w) ∷ d) p h = elim (Bool-cases (i == k)) [
    | inl same ↦ rw same (p, h.1)
    | inr other ↦ rw other (h.0, insert-AllValues k v d p h.1)
  ]

  pub erase-AllValues : (k : String) (d : Dict V) → AllValues d → AllValues (erase k d)
  erase-AllValues k [] h = tt
  erase-AllValues k ((i, w) ∷ d) h = elim (Bool-cases (i == k)) [
    | inl same ↦ rw same h.1
    | inr other ↦ rw other (h.0, erase-AllValues k d h.1)
  ]

  pub append-AllValues : (d e : Dict V) → AllValues d → AllValues e → AllValues (d ++ e)
  append-AllValues [] e hd he = he
  append-AllValues ((i, w) ∷ d) e hd he = (hd.0, append-AllValues d e hd.1 he)

  pub lookup-AllValues : (k : String) {v : V} (d : Dict V) → AllValues d → lookup k d ≡ some v → P v
  lookup-AllValues k [] h e = cc
  lookup-AllValues k {v} ((i, w) ∷ d) h e = elim (Bool-cases (i == k)) [
    | inl same ↦ subst P (ground arith) h.0
    | inr other ↦ lookup-AllValues k d h.1 (rw other at e)
  ]

  pub move_to_end-AllValues : (k : String) (d : Dict V) → AllValues d → AllValues (move_to_end k d)
  move_to_end-AllValues k d h = elim (Option-cases (lookup k d)) [
    | inl absent ↦ rw absent h
    | inr (v, e) ↦ rw e (
        append-AllValues (erase k d) ((k, v) ∷ []) (erase-AllValues k d h)
          (lookup-AllValues k d h e, tt))
  ]
