-- ===== src/Prelude/Perm.antt =====
-- Relations between all pairs of a list, and what a rearrangement keeps.
use Prim.Native.String.{String}
use mathlib.Core.List.{List, [], ◌∷◌, Permᴰ}
use mathlib.Core.List.Permᴰ
use mathlib.Core.Logic.{◌≢◌}
use mathlib.Core.Path.{◌≡◌, refl, sym, subst, ap, ◌∙◌}
use locate.Prelude.Lists.{All, length, get_elem?, erase_idx}
use mathlib.Core.Option.{some, some-injective}
use Prim.Native.Nat.{ℕ, zero, suc}

module _ {ℓ} {A : Type ℓ} where
  -- `R` relates each element to every later one.
  abbrev pub Pairs {κ} : (A → A → Type κ) → List A → Type κ
  Pairs R [] = Unit
  Pairs R (x ∷ xs) = All (R x) xs × Pairs R xs

  pub All-perm {κ} : (P : A → Type κ) {xs ys : List A} → Permᴰ xs ys → All P xs → All P ys
  All-perm P Permᴰ.nil h = tt
  All-perm P (Permᴰ.cons e p) h = (subst P e h.0, All-perm P p h.1)
  All-perm P (Permᴰ.swap e f) h = (subst P f h.1.0, (subst P e h.0, h.1.1))
  All-perm P (Permᴰ.trans p q) h = All-perm P q (All-perm P p h)

  pub Pairs-perm {κ} :
      (R : A → A → Type κ)
      → ((a b : A) → R a b → R b a)
      → {xs ys : List A} → Permᴰ xs ys
      → Pairs R xs
      → Pairs R ys
  Pairs-perm R s Permᴰ.nil h = tt
  Pairs-perm R s (Permᴰ.cons {l₂ = l} e p) h =
      (subst (λ z. All (R z) l) e (All-perm _ p h.0), Pairs-perm R s p h.1)
  Pairs-perm R s (Permᴰ.swap {a = a} {b = b} {a' = a'} {b' = b'} {l = l} e f) h = (
    (subst (λ z. R a' z) e (subst (λ z. R z a) f (s a b h.0.0)), subst (λ z. All (R z) l) f h.1.0),
    (subst (λ z. All (R z) l) e h.0.1, h.1.1),
  )
  Pairs-perm R s (Permᴰ.trans p q) h = Pairs-perm R s q (Pairs-perm R s p h)

  pub length-perm : {xs ys : List A} → Permᴰ xs ys → length xs ≡ length ys
  length-perm Permᴰ.nil = refl
  length-perm (Permᴰ.cons e p) = ap suc (length-perm p)
  length-perm (Permᴰ.swap e f) = refl
  length-perm (Permᴰ.trans p q) = length-perm p ∙ length-perm q

  -- Removing the element at an index puts it in front, up to order.
  pub erase_idx-perm :
      (xs : List A) (i : ℕ) (x : A) → get_elem? xs i ≡ some x → Permᴰ (x ∷ erase_idx xs i) xs
  erase_idx-perm [] i x e = cc
  erase_idx-perm (y ∷ ys) zero x e = Permᴰ.cons (sym (some-injective _ _ e)) (Permᴰ.refl ys)
  erase_idx-perm (y ∷ ys) (suc i) x e =
      Permᴰ.trans (Permᴰ.swap refl refl) (Permᴰ.cons refl (erase_idx-perm ys i x e))

-- No two elements have the same `f`.
abbrev pub Distinct {ℓ} : {A : Type ℓ} → (A → String) → List A → Type 0
Distinct f = Pairs (λ a b. f a ≢ f b)

pub Distinct-perm {ℓ} :
    {A : Type ℓ} (f : A → String) {xs ys : List A} → Permᴰ xs ys → Distinct f xs → Distinct f ys
Distinct-perm f p = Pairs-perm _ (λ a b n e. n (sym e)) p
