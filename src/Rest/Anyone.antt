-- ===== src/Rest/Anyone.antt =====
-- What a deletion does to the node that is asked for it, whoever asks.
use beemesh.Prelude.{
  ℕ, ◌≡◌, refl, ap, ◌∙◌, Bytes, String, Bool, Option, none, some, List, [], ◌∷◌, str_eq,
  if◌then◌else◌, Bool-cases, inl, inr,
}
use beemesh.Node.{Libraries, Node}
use beemesh.Node.Removal.{remove_workloads_by_manifest_id}
use beemesh.Rest.{EnvelopeMetadata}
use beemesh.Rest.Deletion.{
  Received, received, Control, Deletes, find_manifest_providers, found, delete_on_peer,
  handle_local_delete, delete_if_peer, delete_each, delete_as, delete_on, delete_task,
}

module _ {W : Type 0} (c : Control) (task_id local : String) where
  -- what a provider, of which the argument says why its id does not parse, makes of the node
  unfoldable pub removal : Option String → (provider : String) → Node W → Node W
  removal none provider n =
      if str_eq provider local then (remove_workloads_by_manifest_id task_id n).0 else n
  removal (some _) provider n = n

  -- what the providers make of the node itself
  unfoldable pub removals : List String → Node W → Node W
  unfolding removal
  removals [] n = n
  removals (provider ∷ providers) n =
      removals providers (removal (c.peer_error provider) provider n)

  node-delete_if_peer :
      (operation_id origin : String) (force : Bool) (provider : String) (invalid : Option String)
      (n : Node W) (r : Deletes)
      → (delete_if_peer c task_id operation_id origin force local provider invalid (n, r)).0
        ≡ removal invalid provider n
  unfolding delete_if_peer delete_on_peer handle_local_delete removal
  node-delete_if_peer operation_id origin force provider (some _) n r = refl
  node-delete_if_peer operation_id origin force provider none n r =
      elim (Bool-cases (str_eq provider local)) [
        | inl other ↦ rw other refl
        | inr own ↦ rw own refl
      ]

  node-delete_each :
      (operation_id origin : String) (force : Bool) (providers : List String) (n : Node W)
      (r : Deletes)
      → (delete_each c task_id operation_id origin force local providers (n, r)).0
        ≡ removals providers n
  unfolding delete_each removals
  node-delete_each operation_id origin force [] n r = refl
  node-delete_each operation_id origin force (provider ∷ providers) n r =
      let next =
        delete_if_peer c task_id operation_id origin force local provider (c.peer_error provider)
          (n, r) in
      node-delete_each operation_id origin force providers next.0 next.1
      ∙ ap (removals providers)
          (node-delete_if_peer operation_id origin force provider (c.peer_error provider) n r)

  node-delete_as :
      (operation_id origin : String) (force : Bool) (own : Option (Received String))
      → own ≡ some (received local)
      → (providers : List String) (n : Node W)
      → (delete_as c task_id operation_id origin force own providers n).0 ≡ removals providers n
  unfolding delete_as
  node-delete_as operation_id origin force own e providers n =
      ap (λ o. (delete_as c task_id operation_id origin force o providers n).0) e
      ∙ node-delete_each operation_id origin force providers n _

  node-delete_on :
      (operation_id origin : String) (force : Bool)
      → c.local_peer ≡ some (received local)
      → (providers : List String) (n : Node W)
      → (delete_on c task_id operation_id origin force providers n).0 ≡ removals providers n
  unfolding delete_on removals
  node-delete_on operation_id origin force own [] n = refl
  node-delete_on operation_id origin force own (p ∷ ps) n =
      node-delete_as operation_id origin force c.local_peer own (p ∷ ps) n

module _ {W Y : Type 0} (lib : Libraries Y) where
  -- Where the peers that provide the task and the node's own peer id are known, the node is
  -- afterwards as after one removal of the task's workloads by manifest for each time it stands
  -- among the providers under an id that parses. That holds for every envelope, also for none, and
  -- for every body: who owns the manifest is not asked, and the force flag makes no difference.
  pub delete_task_any_requester :
      (c : Control) (task_id local : String) (providers : List String)
      → c.holders task_id ≡ some (received providers)
      → c.local_peer ≡ some (received local)
      → (encrypts : Bytes → Bool) (now_ms : ℕ) (metadata : EnvelopeMetadata) (body : Bytes)
        (n : Node W)
      → (delete_task lib c encrypts now_ms task_id metadata body n).0
        ≡ removals c task_id local providers n
  unfolding delete_task find_manifest_providers found
  delete_task_any_requester c task_id local providers held own encrypts now_ms metadata body n =
      node-delete_on c task_id local _ _ _ own _ n
      ∙ ap (λ h. removals c task_id local (found h) n) held
