-- ===== src/Base/GroupLists/Collect.antt =====
-- The groups that a list of IDs stands for, and the IDs that the two calls leave in the buffer.
use rust_users.Prelude.{
  ℕ, zero, suc, ◌-◌, ◌<◌, ◌≡◌, ◌≢◌, ◌↔◌, ◌⊎◌, inl, inr, refl, none, some, Option-cases, List, [],
  ◌∷◌, ◌++◌, length, drop, replicate, arith, Any,
}
use rust_users.Std.Exec.{ret}
use rust_users.Libc.{Libc}
use rust_users.Base.Types.{Group}
use rust_users.Base.Directory.{Directory}
use rust_users.Base.GroupLists.{buffer_size, buffer, keep, collect_groups}
use rust_users.Base.GroupLists.Dedup.{HasKey}

Any-append :
    {A : Type 0} (P : A → Type 0) (xs ys : List A) → Any P (xs ++ ys) ↔ (Any P xs ⊎ Any P ys)
Any-append P [] ys = (λ h. inr h, λ h. elim h [ inl p ↦ absurd p | inr q ↦ q ])
Any-append P (x ∷ xs) ys = ground (arith, Any-append P xs ys)

Any-zeros : (j n m : ℕ) → Any (λ i. i ≡ j) (drop n (replicate m 0)) ↔ ((n < m) × (j ≡ 0))
Any-zeros j zero zero = (λ h. absurd h, λ h. omega arith)
Any-zeros j (suc n) zero = (λ h. absurd h, λ h. omega arith)
Any-zeros j zero (suc m) = ground (arith, Any-zeros j zero m)
Any-zeros j (suc n) (suc m) = ground (arith, Any-zeros j n m)

length-zeros : (n m : ℕ) → length {A = ℕ} (drop n (replicate m 0)) ≡ m - n
length-zeros zero zero = refl
length-zeros (suc n) zero = omega arith
length-zeros zero (suc m) = omega (arith, length-zeros zero m)
length-zeros (suc n) (suc m) = omega (arith, length-zeros n m)

pub length-buffer : (n : ℕ) → length (drop n buffer) ≡ buffer_size - n
unfolding buffer
length-buffer n = length-zeros n buffer_size

-- The IDs in the buffer: those that were written, and zeros.
pub Any-buffer :
    (j : ℕ) (ids : List ℕ)
    → Any (λ i. i ≡ j) (ids ++ drop (length ids) buffer)
      ↔ (Any (λ i. i ≡ j) ids ⊎ ((length ids < buffer_size) × (j ≡ 0)))
Any-buffer j ids = (
  λ h. elim (split.0 h) [ inl p ↦ inl p | inr q ↦ inr (zeros.0 q) ],
  λ h. split.1 (elim h [ inl p ↦ inl p | inr q ↦ inr (zeros.1 q) ]),
)
  where
    split :
        Any (λ i. i ≡ j) (ids ++ drop (length ids) buffer)
        ↔ (Any (λ i. i ≡ j) ids ⊎ Any (λ i. i ≡ j) (drop (length ids) buffer))
    split = Any-append (λ i. i ≡ j) ids (drop (length ids) buffer)

    zeros : Any (λ i. i ≡ j) (drop (length ids) buffer) ↔ ((length ids < buffer_size) × (j ≡ 0))
    zeros = unfold buffer in Any-zeros j (length ids) buffer_size

module _ (L : Libc) (w : L.World) (D : Directory L w) where
  abbrev pub groups_at : List ℕ → List Group
  groups_at [] = []
  groups_at (gid ∷ gids) = keep (D.group_by_gid gid) (groups_at gids)

  pub collect_groups_lem : (gids : List ℕ) → collect_groups L gids w ≡ (ret (groups_at gids), w)
  unfolding collect_groups
  collect_groups_lem [] = refl
  collect_groups_lem (gid ∷ gids) = ground (arith, D.reads_gid gid, collect_groups_lem gids)

  pub groups_at-HasKey :
      (j : ℕ) (gids : List ℕ)
      → ((gid : ℕ) (g : Group) → D.group_by_gid gid ≡ some g → g.gid ≡ gid)
      → HasKey (λ g. g.gid) j (groups_at gids) ↔ (Any (λ i. i ≡ j) gids × (D.group_by_gid j ≢ none))
  groups_at-HasKey j [] own = (λ h. absurd h, λ h. h.0)
  groups_at-HasKey j (gid ∷ gids) own = elim (Option-cases (D.group_by_gid gid)) [
    | inl e ↦ ground (arith, e, groups_at-HasKey j gids own)
    | inr (g, e) ↦ ground (arith, e, own gid g e, groups_at-HasKey j gids own)
  ]
