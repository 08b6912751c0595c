-- ===== src/Linter/Listed.antt =====
-- What stands in a list of messages.
use go_metrics_stas.Prelude.{
  ◌≡◌, refl, ◌⊎◌, inl, inr, Bool, true, false, List, [], ◌∷◌, ◌++◌, if◌then◌else◌,
}

abbrev pub In : {A : Type 0} → A → List A → Type 0
In a [] = ⊥
In a (x ∷ xs) = (a ≡ x) ⊎ In a xs

pub In-append : {A : Type 0} (a : A) (xs ys : List A) → In a (xs ++ ys) → In a xs ⊎ In a ys
In-append a [] ys h = inr h
In-append a (x ∷ xs) ys (inl e) = inl (inl e)
In-append a (x ∷ xs) ys (inr h) = elim (In-append a xs ys h) [ inl i ↦ inl (inr i) | inr j ↦ inr j ]

pub append-In : {A : Type 0} (a : A) (xs ys : List A) → In a xs ⊎ In a ys → In a (xs ++ ys)
append-In a [] ys (inl h) = absurd h
append-In a [] ys (inr h) = h
append-In a (x ∷ xs) ys (inl (inl e)) = inl e
append-In a (x ∷ xs) ys (inl (inr i)) = inr (append-In a xs ys (inl i))
append-In a (x ∷ xs) ys (inr j) = inr (append-In a xs ys (inr j))

pub In-if :
    {A : Type 0} (a : A) (c : Bool) (xs ys : List A)
    → In a (if c then xs else ys)
    → ((c ≡ true) × In a xs) ⊎ ((c ≡ false) × In a ys)
In-if a true xs ys h = inl (refl, h)
In-if a false xs ys h = inr (refl, h)

-- An alarm that is kept quiet in main.
pub In-alarm :
    {A : Type 0} (a x : A) (in_main : Bool) (ys : List A)
    → In a (if in_main then [] else x ∷ ys)
    → (in_main ≡ false) × ((a ≡ x) ⊎ In a ys)
In-alarm a x true ys h = absurd h
In-alarm a x false ys h = (refl, h)
