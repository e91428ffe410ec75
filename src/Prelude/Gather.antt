-- ===== src/Prelude/Gather.antt =====
-- What the elements of a list hold together, and how that changes with one of them.
use mathlib.Core.List.{
  Perm, Mem, mem-cons_self, mem-cons_of_mem, append-nil, append_assoc, perm_append_comm, foldr,
}
use mathlib.Core.List.Perm
use mathlib.Core.Logic.{∥∥₁_elim}
use native.Mathlib.Nat.{ℕ_set}
use indexer_gateway_auth.Prelude.{ℕ, ◌+◌, ◌≡◌, refl, sym, ◌∙◌, List, [], ◌∷◌, ◌++◌, arith}
use indexer_gateway_auth.Prelude.{flat_map, All, All-Memᴰ, length}

module _ {ℓ κ} {A : Type ℓ} {B : Type κ} (g : A → List B) where
  flat_map-append : (xs ys : List A) → flat_map g (xs ++ ys) ≡ flat_map g xs ++ flat_map g ys
  flat_map-append [] ys = refl
  flat_map-append (x ∷ xs) ys =
      rw (flat_map-append xs ys, append_assoc (g x) (flat_map g xs) (flat_map g ys)) refl

  flat_map-middle :
      (xs : List A) (x : A) (ys : List A)
      → Perm (flat_map g (xs ++ x ∷ ys)) (g x ++ (flat_map g (xs ++ ys)))
  flat_map-middle xs x ys =
      rw
        (
          flat_map-append xs (x ∷ ys),
          flat_map-append xs ys,
          sym (append_assoc (flat_map g xs) (g x) (flat_map g ys)),
          sym (append_assoc (g x) (flat_map g xs) (flat_map g ys)),
        )
        (Perm.append_right (flat_map g ys) (perm_append_comm (flat_map g xs) (g x)))

  pub flat_map-nothing : (xs : List A) → All (λ x. g x ≡ []) xs → flat_map g xs ≡ []
  flat_map-nothing [] h = refl
  flat_map-nothing (x ∷ xs) (e, h) = rw (e, flat_map-nothing xs h) refl

  -- One element hands over some of what it holds, and comes to hold more.
  hand_over :
      (out all d e : List B) (xs : List A) (x y : A) (ys : List A)
      → d ++ g y ≡ g x ++ e
      → Perm (out ++ (flat_map g (xs ++ x ∷ ys))) all
      → Perm ((out ++ d) ++ (flat_map g (xs ++ y ∷ ys))) (all ++ e)
  hand_over out all d e xs x y ys h p =
      let rest = flat_map g (xs ++ ys) in
      let grown : Perm (d ++ (flat_map g (xs ++ y ∷ ys))) ((flat_map g (xs ++ x ∷ ys)) ++ e) =
        Perm.trans (Perm.append_left d (flat_map-middle xs y ys)) (
          Perm.trans
            (rw
              (
                sym (append_assoc d (g y) rest),
                h,
                append_assoc (g x) e rest,
                append_assoc (g x) rest e,
              )
              (Perm.append_left (g x) (perm_append_comm e rest)))
            (Perm.append_right e (Perm.symm (flat_map-middle xs x ys)))) in
      rw (append_assoc out d (flat_map g (xs ++ y ∷ ys))) (
        Perm.trans (Perm.append_left out grown)
          (rw (sym (append_assoc out (flat_map g (xs ++ x ∷ ys)) e)) (Perm.append_right e p)))

  pub Perm-less :
      (out all d : List B) (xs : List A) (x y : A) (ys : List A)
      → d ++ g y ≡ g x
      → Perm (out ++ (flat_map g (xs ++ x ∷ ys))) all
      → Perm ((out ++ d) ++ (flat_map g (xs ++ y ∷ ys))) all
  Perm-less out all d xs x y ys h p =
      let q = hand_over out all d [] xs x y ys (h ∙ sym (append-nil (g x))) p in
      (rw (append-nil all) at q)

  pub Perm-more :
      (out all e : List B) (xs : List A) (x y : A) (ys : List A)
      → g y ≡ g x ++ e
      → Perm (out ++ (flat_map g (xs ++ x ∷ ys))) all
      → Perm (out ++ (flat_map g (xs ++ y ∷ ys))) (all ++ e)
  Perm-more out all e xs x y ys h p =
      let q = hand_over out all [] e xs x y ys h p in (rw (append-nil out) at q)

  -- An element that holds nothing.
  pub flat_map-more : (xs : List A) (x : A) → g x ≡ [] → flat_map g (xs ++ x ∷ []) ≡ flat_map g xs
  flat_map-more xs x h = rw (flat_map-append xs (x ∷ []), h) (append-nil (flat_map g xs))

module _ {ℓ κ} {A : Type ℓ} (P : A → Type κ) where
  pub All-replace :
      (xs : List A) (x y : A) (ys : List A) → All P (xs ++ x ∷ ys) → P y → All P (xs ++ y ∷ ys)
  All-replace [] x y ys (p, h) q = (q, h)
  All-replace (z ∷ xs) x y ys (p, h) q = (p, All-replace xs x y ys h q)

  pub All-middle : (xs : List A) (x : A) (ys : List A) → All P (xs ++ x ∷ ys) → P x
  All-middle [] x ys (p, h) = p
  All-middle (z ∷ xs) x ys (p, h) = All-middle xs x ys h

  All-Mem : (xs : List A) → ((x : A) → Mem x xs → P x) → All P xs
  All-Mem [] h = tt
  All-Mem (x ∷ xs) h = (h x mem-cons_self, All-Mem xs (λ y m. h y (mem-cons_of_mem x m)))

  pub All-Perm : ((x : A) → IsProp (P x)) → {xs ys : List A} → Perm xs ys → All P xs → All P ys
  All-Perm prop {xs} {ys} p h =
      All-Mem ys (λ y m. ∥∥₁_elim ((Perm.mem_iff p).1 m) (prop y) (λ d. All-Memᴰ P d h))

-- The sum of weights, whatever the order.
module _ {ℓ} {A : Type ℓ} (weight : A → ℕ) where
  abbrev pub tally : List A → ℕ
  tally xs = foldr (λ x n. weight x + n) 0 xs

  pub tally-Perm : {xs ys : List A} → Perm xs ys → tally xs ≡ tally ys
  tally-Perm p = Perm.foldr-eq ℕ_set (λ x n. weight x + n) (λ a b n. omega arith) p 0

  pub tally-append : (xs ys : List A) → tally (xs ++ ys) ≡ tally xs + tally ys
  tally-append [] ys = omega arith
  tally-append (x ∷ xs) ys = omega (arith, tally-append xs ys)

module _ {ℓ} {A : Type ℓ} where
  length-tally : (xs : List A) → length xs ≡ tally (λ x. 1) xs
  length-tally [] = refl
  length-tally (x ∷ xs) = omega (arith, length-tally xs)

  pub length-Perm : {xs ys : List A} → Perm xs ys → length xs ≡ length ys
  length-Perm {xs} {ys} p = length-tally xs ∙ tally-Perm (λ x. 1) p ∙ sym (length-tally ys)
