-- ===== src/Prelude/Filters.antt =====
-- Lemmas on `filter` and `find` of arrays, and lists that agree element by element.
use mathlib.Core.Path.{◌≡◌, refl, ap, ap₂, ◌∙◌}
use mathlib.Core.Logic.{◌↔◌, inl, inr}
use mathlib.Core.Bool.{Bool, true, ◌&&◌}
use mathlib.Core.List.{List, [], ◌∷◌, map, Memᴰ}
use mathlib.Core.List.Memᴰ
use Prim.Native.Nat.{ℕ, zero, suc}
use Prim.Native.String.{String}
use native.Mathlib.Omega.{arith}
use text.Mathlib.Text.{◌==◌}
use text.Mathlib.TextEquality.{eq_iff}
use network_analytics_predic.Prelude.Tests.{Bool-cases}
use network_analytics_predic.Prelude.Lists.{filter, find, All, All-filter, take}
use network_analytics_predic.Prelude.IdSet.{has}

module _ {ℓ} {A : Type ℓ} where
  -- The elements that a filter leaves satisfy its test.
  pub filter-All : (p : A → Bool) (xs : List A) → All (λ x. p x ≡ true) (filter p xs)
  filter-All p [] = tt
  filter-All p (x ∷ xs) = elim (Bool-cases (p x)) [
    | inl e ↦ rw e (e, filter-All p xs)
    | inr e ↦ rw e (filter-All p xs)
  ]

  -- A filter that keeps all leaves the list as it is.
  pub filter_all : (p : A → Bool) (xs : List A) → All (λ x. p x ≡ true) xs → filter p xs ≡ xs
  filter_all p [] h = refl
  filter_all p (x ∷ xs) h = rw h.0 (ap (x ∷◌) (filter_all p xs h.1))

  -- A search is not disturbed by a filter that keeps what it looks for.
  pub find-filter :
      (q p : A → Bool) (xs : List A)
      → ((x : A) → q x ≡ true → p x ≡ true)
      → find q (filter p xs) ≡ find q xs
  find-filter q p [] keep = refl
  find-filter q p (x ∷ xs) keep = elim (Bool-cases (q x)) [
    | inl e ↦ rw (keep x e, e)
    | inr e ↦ elim (Bool-cases (p x)) [
      | inl k ↦ rw (k, e) (find-filter q p xs keep)
      | inr k ↦ rw (k, e) (find-filter q p xs keep)
    ]
  ]

  pub All-imp {κ μ} :
      (P : A → Type κ) (Q : A → Type μ) (xs : List A) → ((x : A) → P x → Q x) → All P xs → All Q xs
  All-imp P Q [] step h = tt
  All-imp P Q (x ∷ xs) step h = (step x h.0, All-imp P Q xs step h.1)

  pub All-both {κ μ} :
      (P : A → Type κ) (Q : A → Type μ) (xs : List A)
      → All P xs
      → All Q xs
      → All (λ x. P x × Q x) xs
  All-both P Q [] hp hq = tt
  All-both P Q (x ∷ xs) hp hq = ((hp.0, hq.0), All-both P Q xs hp.1 hq.1)

  pub All_self : (xs : List A) → All (λ x. Memᴰ x xs) xs
  All_self [] = tt
  All_self (x ∷ xs) = (
    Memᴰ.head refl,
    All-imp (λ y. Memᴰ y xs) (λ y. Memᴰ y (x ∷ xs)) xs (λ y m. Memᴰ.tail m) (All_self xs),
  )

  -- What a filter leaves is of the list and satisfies the test.
  pub filter-Mem : (p : A → Bool) (xs : List A) → All (λ x. Memᴰ x xs × (p x ≡ true)) (filter p xs)
  filter-Mem p xs =
      All-both (λ x. Memᴰ x xs) (λ x. p x ≡ true) (filter p xs)
        (All-filter (λ x. Memᴰ x xs) p xs (All_self xs)) (filter-All p xs)

  pub filter-Mem_iff :
      (p : A → Bool) (xs : List A) (x : A) → Memᴰ x (filter p xs) ↔ (Memᴰ x xs × (p x ≡ true))
  filter-Mem_iff p [] x = (λ m. absurd (Memᴰ.not-nil m), λ h. absurd (Memᴰ.not-nil h.0))
  filter-Mem_iff p (y ∷ xs) x = elim (Bool-cases (p y)) [
    | inl e ↦ rw e (
      λ m. elim (Memᴰ.cases_cons m) [
        | inl same ↦ (Memᴰ.head same, ap p same ∙ e)
        | inr later ↦ let h = (filter-Mem_iff p xs x).0 later in (Memᴰ.tail h.0, h.1)
      ],
      λ h. elim (Memᴰ.cases_cons h.0) [
        | inl same ↦ Memᴰ.head same
        | inr later ↦ Memᴰ.tail ((filter-Mem_iff p xs x).1 (later, h.1))
      ],
    )
    | inr e ↦ rw e (
      λ m. let h = (filter-Mem_iff p xs x).0 m in (Memᴰ.tail h.0, h.1),
      λ h. elim (Memᴰ.cases_cons h.0) [
        | inl same ↦ absurd (cc (e, h.1, ap p same))
        | inr later ↦ (filter-Mem_iff p xs x).1 (later, h.1)
      ],
    )
  ]

  pub All-take {κ} : (P : A → Type κ) (n : ℕ) (xs : List A) → All P xs → All P (take n xs)
  All-take P zero xs h = tt
  All-take P (suc n) [] h = tt
  All-take P (suc n) (x ∷ xs) h = (h.0, All-take P n xs h.1)

pub has-filter :
    (p : String → Bool) (xs : List String) (a : String) → has (filter p xs) a ≡ (has xs a && p a)
has-filter p [] a = refl
has-filter p (x ∷ xs) a = elim (Bool-cases (x == a)) [
  | inl e ↦
      let same : x ≡ a = ground (arith, eq_iff x a) in
      elim (Bool-cases (p a)) [
        | inl k ↦ rw (same, k) (ground (arith, eq_iff a a))
        | inr k ↦ rw (same, k) (ground (arith, has-filter p xs a))
      ]
  | inr e ↦ elim (Bool-cases (p x)) [
    | inl k ↦ rw (k, e) (has-filter p xs a)
    | inr k ↦ rw (k, e) (has-filter p xs a)
  ]
]

-- Lists of one length whose elements are related one by one.
abbrev pub Pairwise {ℓ} : {A : Type ℓ} → (A → A → Type 0) → List A → List A → Type 0
Pairwise R [] [] = Unit
Pairwise R [] (_ ∷ _) = ⊥
Pairwise R (_ ∷ _) [] = ⊥
Pairwise R (x ∷ xs) (y ∷ ys) = R x y × Pairwise R xs ys

pub map-Pairwise {ℓ κ} :
    {A : Type ℓ} {B : Type κ} (R : A → A → Type 0) (f : A → B) (xs ys : List A)
    → ((x y : A) → R x y → f x ≡ f y)
    → Pairwise R xs ys
    → map f xs ≡ map f ys
map-Pairwise R f [] [] same h = refl
map-Pairwise R f [] (y ∷ ys) same h = absurd h
map-Pairwise R f (x ∷ xs) [] same h = absurd h
map-Pairwise R f (x ∷ xs) (y ∷ ys) same h = ap₂ ◌∷◌ (same x y h.0) (map-Pairwise R f xs ys same h.1)
