-- ===== src/TextMap.antt =====
-- The hash map of context files (FxHashMap<String, _>), as an association list: only what a key
-- finds is used, and, by a flush, some order of the values.
use paperlog.Base.{
  OnSome, Bool, subst, sym, ap, ◌∙◌, All, if-both, Bool-cases, inl, inr, ◌≡◌, refl, if◌then◌else◌,
  Text, text_eq, text_eq_iff, List, [], ◌∷◌, Option, none, some, arith,
}

abbrev pub TextMap {ℓ} : Type ℓ → Type ℓ
TextMap V = List (record { key : Text; value : V })

module _ {ℓ} {V : Type ℓ} where
  unfoldable pub get : Text → TextMap V → Option V
  get k [] = none
  get k (e ∷ m) = if text_eq e.key k then some e.value else get k m

  unfoldable pub insert : Text → V → TextMap V → TextMap V
  insert k v [] = record { key = k; value = v } ∷ []
  insert k v (e ∷ m) =
      if text_eq e.key k then record { key = k; value = v } ∷ m else e ∷ insert k v m

  unfoldable pub remove : Text → TextMap V → TextMap V
  remove k [] = []
  remove k (e ∷ m) = if text_eq e.key k then remove k m else e ∷ remove k m

  pub get-insert :
      (k j : Text) (v : V) (m : TextMap V)
      → get j (insert k v m) ≡ (if text_eq k j then some v else get j m)
  unfolding get insert
  get-insert k j v [] = refl
  get-insert k j v (e ∷ m) =
      ground (arith, text_eq_iff k j, text_eq_iff e.key k, text_eq_iff e.key j, get-insert k j v m)

  pub get-remove :
      (k j : Text) (m : TextMap V) → get j (remove k m) ≡ (if text_eq k j then none else get j m)
  unfolding get remove
  get-remove k j [] = ground arith
  get-remove k j (e ∷ m) =
      ground (arith, text_eq_iff k j, text_eq_iff e.key k, text_eq_iff e.key j, get-remove k j m)

  abbrev pub AllValues {κ} : (V → Type κ) → TextMap V → Type κ
  AllValues P m = All (λ e. P e.value) m

  pub AllValues-get {κ} :
      (P : V → Type κ) (k : Text) (m : TextMap V) {v : V} → AllValues P m → get k m ≡ some v → P v
  unfolding get
  AllValues-get P k [] a e = cc
  AllValues-get P k (x ∷ m) {v} a e = elim (Bool-cases (text_eq x.key k)) [
    | inl hit ↦ subst (OnSome P) (sym (branch hit) ∙ e) a.0
    | inr miss ↦ AllValues-get P k m a.1 (sym (branch miss) ∙ e)
  ]
    where
      branch :
          {b : Bool}
          → text_eq x.key k ≡ b
          → (if text_eq x.key k then some x.value else get k m)
            ≡ (if b then some x.value else get k m)
      branch h = ap (λ c. if c then some x.value else get k m) h

  pub AllValues-insert {κ} :
      (P : V → Type κ) (k : Text) (v : V) (m : TextMap V)
      → AllValues P m
      → P v
      → AllValues P (insert k v m)
  unfolding insert
  AllValues-insert P k v [] a p = (p, tt)
  AllValues-insert P k v (x ∷ m) a p =
      if-both (AllValues P) (text_eq x.key k) _ _ (p, a.1) (a.0, AllValues-insert P k v m a.1 p)

  pub AllValues-remove {κ} :
      (P : V → Type κ) (k : Text) (m : TextMap V) → AllValues P m → AllValues P (remove k m)
  unfolding remove
  AllValues-remove P k [] a = tt
  AllValues-remove P k (x ∷ m) a =
      if-both (AllValues P) (text_eq x.key k) _ _ (AllValues-remove P k m a.1)
        (a.0, AllValues-remove P k m a.1)
