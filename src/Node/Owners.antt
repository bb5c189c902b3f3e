-- ===== src/Node/Owners.antt =====
-- Who may delete a manifest: the ownership check of delete_message.rs.
use beemesh.Prelude.{
  Bytes, ◌≡◌, ◌⊎◌, inl, inr, refl, ap, String, Bool, true, false, Bool-cases, Option, none, some,
  [], ◌∷◌, arith, is_empty,
}
use beemesh.Node.{Node, get_manifest_owner}
use beemesh.Node.Delete.{
  same_bytes, compare_owner, Outcome, verify_delete_ownership, remove_all, delete_as,
  process_delete_request,
}

same_bytes-eq : (xs ys : Bytes) → same_bytes xs ys ≡ true → xs ≡ ys
unfolding same_bytes
same_bytes-eq [] [] h = refl
same_bytes-eq [] (y ∷ ys) h = cc
same_bytes-eq (x ∷ xs) [] h = cc
same_bytes-eq (x ∷ xs) (y ∷ ys) h = ground (arith, same_bytes-eq xs ys)

same_bytes_refl : (xs : Bytes) → same_bytes xs xs ≡ true
unfolding same_bytes
same_bytes_refl [] = refl
same_bytes_refl (x ∷ xs) = ground (arith, same_bytes_refl xs)

module _ {W : Type 0} where
  -- the node is left as it was, and the request is no success
  abbrev pub Denied : Node W → Node W × Outcome → Type 0
  Denied n answer = (answer.0 ≡ n) × (answer.1.0 ≡ false)

  decide :
      (id : String) (force : Bool) (key : Bytes) (n : Node W) (stored : Option Bytes)
      → (stored ≡ some key)
        ⊎ ((force ≡ true) × ((owner : Bytes) × (stored ≡ some owner)))
        ⊎ Denied n (delete_as (compare_owner stored key) id force n)
  unfolding compare_owner delete_as
  decide id force key n none = inr (inr (refl, refl))
  decide id force key n (some []) = inr (inr (refl, refl))
  decide id true key n (some (b ∷ bs)) = inr (inl (refl, (b ∷ bs, refl)))
  decide id false key n (some (b ∷ bs)) = elim (Bool-cases (same_bytes (b ∷ bs) key)) [
    | inl same ↦ inl (ap some (same_bytes-eq (b ∷ bs) key same))
    | inr other ↦ inr (inr (rw other (refl, refl)))
  ]

  -- A delete request changes nothing and is no success, unless its envelope was signed with the key
  -- that is recorded as the manifest's owner, or it is forced and some key is recorded.
  pub process_delete_request_denies :
      (id : String) (force : Bool) (key : Bytes) (n : Node W)
      → (get_manifest_owner id n ≡ some key)
        ⊎ ((force ≡ true) × ((owner : Bytes) × (get_manifest_owner id n ≡ some owner)))
        ⊎ Denied n (process_delete_request id force key n)
  unfolding process_delete_request verify_delete_ownership
  process_delete_request_denies id force key n = decide id force key n (get_manifest_owner id n)

  pub owner_matches :
      (id : String) (force : Bool) (key : Bytes) (n : Node W)
      → get_manifest_owner id n ≡ some key
      → is_empty key ≡ false
      → process_delete_request id force key n ≡ remove_all id n
  unfolding process_delete_request verify_delete_ownership
  owner_matches id force key n e full =
      rw (e, compare_owner) (unfold delete_as compare_owner in rw (full, same_bytes_refl key) refl)

  forced_removes :
      (id : String) (owner key : Bytes) (n : Node W)
      → get_manifest_owner id n ≡ some owner
      → is_empty owner ≡ false
      → process_delete_request id true key n ≡ remove_all id n
  unfolding process_delete_request verify_delete_ownership
  forced_removes id owner key n e full =
      rw (e, compare_owner)
        (unfold delete_as compare_owner in
          rw full (elim (Bool-cases (same_bytes owner key)) [
            | inl same ↦ rw same refl
            | inr other ↦ rw other refl
          ]))

  -- Whoever forces a delete of a manifest whose owner is known gets what its owner gets.
  process_delete_request_forced :
      (id : String) (owner key : Bytes) (n : Node W)
      → get_manifest_owner id n ≡ some owner
      → is_empty owner ≡ false
      → process_delete_request id true key n ≡ process_delete_request id false owner n
  process_delete_request_forced id owner key n e full =
      rw (forced_removes id owner key n e full, owner_matches id false owner n e full) refl
